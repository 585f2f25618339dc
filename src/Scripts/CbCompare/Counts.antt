-- ===== src/Scripts/CbCompare/Counts.antt =====
-- The counts of a run of scripts/cbcompare.go, against the requests.
use go_loadbalancer.Prelude.{
  ℕ, zero, suc, ◌+◌, ◌-◌, ◌^◌, ◌≤◌, ◌<◌, ◌≡◌, refl, sym, ap, subst, ◌∙◌, inl, inr, arith, true,
  false, not, ◌&&◌, List, [], ◌∷◌, length, length-append, ltb, Bool-cases, if◌then◌else◌,
}
use go_loadbalancer.Prelude.Int.{ℤ, pos, negsuc, ltb_ℤ, add64_pos}
use go_loadbalancer.Prelude.Map.{◌==◌, int_key}
use go_loadbalancer.Scripts.CbCompare.{
  TestResult, Reply, no_answer, answer, Sent, Progress, failed, counted, kill_at, noted, send_all,
  started, run_test,
}

-- 1 for a request without an answer, or with a status of 500 or more.
abbrev pub fails : Reply → ℕ
fails (no_answer text) = 1
fails (answer status) = if ltb_ℤ status (pos 500) then 0 else 1

-- Among `left` requests from number `i`.
abbrev pub failures : (ℕ → Sent) → ℕ → ℕ → ℕ
failures outcomes zero i = 0
failures outcomes (suc left) i = fails (outcomes i).reply + failures outcomes left (suc i)

-- The backend is killed once, before the request of the given number, if there is one.
abbrev pub kills_before : ℤ → ℕ → List ℕ
kills_before (pos k) i = if ltb k i then k ∷ [] else []
kills_before (negsuc k) i = []

fails-le : (r : Reply) → fails r ≤ 1
fails-le (no_answer text) = omega arith
fails-le (answer status) = ground arith

pub failures-le : (outcomes : ℕ → Sent) (left i : ℕ) → failures outcomes left i ≤ left
failures-le outcomes zero i = omega arith
failures-le outcomes (suc left) i =
    omega (arith, fails-le (outcomes i).reply, failures-le outcomes left (suc i))

kills_before-zero : (ka : ℤ) → kills_before ka 0 ≡ []
kills_before-zero (pos k) = ground arith
kills_before-zero (negsuc k) = refl

kills_before-at :
    (ka : ℤ) (i : ℕ)
    → (pos i == ka) ≡ true
    → (kills_before ka i ≡ []) × (kills_before ka (suc i) ≡ i ∷ [])
kills_before-at (pos k) i e =
    let same : k ≡ i = ground (arith, e) in rw same (ground arith, ground arith)
kills_before-at (negsuc k) i e = absurd (ground (arith, e))

kills_before-past :
    (ka : ℤ) (i : ℕ) → (pos i == ka) ≡ false → kills_before ka (suc i) ≡ kills_before ka i
kills_before-past (pos k) i e = ground (arith, e)
kills_before-past (negsuc k) i e = refl

module _ {F : Type 0} where
  pub record Counted (successes failures : ℕ) (r : TestResult F) : Type 0 where
    pub successful : r.successful_reqs ≡ pos successes
    pub failing : r.failed_reqs ≡ pos failures
    pub messages : length r.error_messages ≡ failures

  failed-Counted :
      (s f : ℕ) (message : List ℕ) (r : TestResult F)
      → s + f + 1 < 2 ^ 63
      → Counted s f r
      → Counted s (f + 1) (failed message r)
  failed-Counted s f message r small h = record {
    successful = h.successful;
    failing = rw h.failing (add64_pos f 1 (omega (arith, small)));
    messages = omega (arith, length-append r.error_messages (message ∷ []), h.messages);
  }

  at : {s f a b : ℕ} {r : TestResult F} → s ≡ a → f ≡ b → Counted s f r → Counted a b r
  at e g h = rw (sym e, sym g) h

  counted-Counted :
      (s f : ℕ) (reply : Reply) (r : TestResult F)
      → s + f + 1 < 2 ^ 63
      → Counted s f r
      → Counted (s + (1 - fails reply)) (f + fails reply) (counted reply r)
  unfolding counted
  counted-Counted s f (no_answer text) r small h =
      at (omega arith) refl (failed-Counted s f _ r small h)
  counted-Counted s f (answer status) r small h = elim (Bool-cases (ltb_ℤ status (pos 500))) [
    | inl fine ↦ rw fine (record {
      successful = rw h.successful (add64_pos s 1 (omega (arith, small)));
      failing = h.failing ∙ ap pos (omega arith);
      messages = omega (arith, h.messages);
    })
    | inr bad ↦ rw bad (at (omega arith) refl (failed-Counted s f _ r small h))
  ]

  pub kill_at-same :
      (ka : ℤ) (i : ℕ) (p : Progress F)
      → ((kill_at ka i p).result ≡ p.result) × ((kill_at ka i p).latencies ≡ p.latencies)
  kill_at-same ka i p = elim (Bool-cases ((pos i == ka) && not p.backend_killed)) [
    | inl kills ↦ rw kills (refl, refl)
    | inr spares ↦ rw spares (refl, refl)
  ]

  send_all-Counted :
      (ka : ℤ) (outcomes : ℕ → Sent) (left i s f : ℕ) (p : Progress F)
      → s + f + left < 2 ^ 63
      → Counted s f p.result
      → Counted
          (s + (left - failures outcomes left i))
          (f + failures outcomes left i)
          (send_all ka outcomes left i p).result
  unfolding send_all
  send_all-Counted ka outcomes zero i s f p small h = at (omega arith) (omega arith) h
  send_all-Counted ka outcomes (suc left) i s f p small h =
      let g = fails (outcomes i).reply in
      let le = fails-le (outcomes i).reply in
      let before = subst (Counted s f) (sym (kill_at-same ka i p).0) h in
      let c =
        counted-Counted s f (outcomes i).reply (kill_at ka i p).result (omega (arith, small))
          before in
      at (omega (arith, failures-le outcomes left (suc i), le)) (omega arith) (
        send_all-Counted ka outcomes left (suc i) (s + (1 - g)) (f + g)
          (noted (outcomes i) (kill_at ka i p)) (omega (arith, small, le))
          (record { successful = c.successful; failing = c.failing; messages = c.messages }))

  abbrev Killed : ℤ → ℕ → Progress F → Type 0
  Killed ka i p = (p.kills ≡ kills_before ka i) × (p.backend_killed ≡ ltb 0 (length p.kills))

  kill_at-Killed :
      (ka : ℤ) (i : ℕ) (p : Progress F) → Killed ka i p → Killed ka (suc i) (kill_at ka i p)
  kill_at-Killed ka i p (e, b) = elim (Bool-cases (pos i == ka)) [
    | inl same ↦
        let (before, after) = kills_before-at ka i same in
        let spared : p.backend_killed ≡ false = b ∙ ap (λ ks. ltb 0 (length ks)) (e ∙ before) in
        rw (same, spared, after, e, before) (refl, refl)
    | inr other ↦ rw (other, kills_before-past ka i other) (e, b)
  ]

  send_all-Killed :
      (ka : ℤ) (outcomes : ℕ → Sent) (left i : ℕ) (p : Progress F)
      → Killed ka i p
      → Killed ka (left + i) (send_all ka outcomes left i p)
  unfolding send_all
  send_all-Killed ka outcomes zero i p h =
      subst (λ n. Killed ka n (send_all ka outcomes 0 i p)) (omega arith) h
  send_all-Killed ka outcomes (suc left) i p h =
      subst (λ n. Killed ka n (send_all ka outcomes (suc left) i p)) (omega arith)
        (send_all-Killed ka outcomes left (suc i) (noted (outcomes i) (kill_at ka i p))
          (kill_at-Killed ka i p h))

  -- Of fewer than 2^63 requests, a run counts as failed those without an answer or with a status of 500
  -- or more, with a message for each, and the others as successful; and the backend is killed once,
  -- before the request whose number is given, if there is one.
  pub run_test-Counted :
      (no_rate : F) (rate : ℤ → ℤ → F) (name : List ℕ) (n : ℕ) (kill_after : ℤ)
      (outcomes : ℕ → Sent) (duration : ℤ)
      → n < 2 ^ 63
      → Counted
          (n - failures outcomes n 0)
          (failures outcomes n 0)
          (run_test no_rate rate name (pos n) kill_after outcomes duration)
        × ((send_all kill_after outcomes n 0 (started no_rate name (pos n))).kills
            ≡ kills_before kill_after n)
  unfolding run_test
  run_test-Counted no_rate rate name n kill_after outcomes duration small =
      let p = started no_rate name (pos n) in
      let c : Counted (n - failures outcomes n 0) (failures outcomes n 0)
          (send_all kill_after outcomes n 0 p).result =
        at (omega arith) (omega arith) (
          send_all-Counted kill_after outcomes n 0 0 0 p (omega (arith, small))
            (record { successful = refl; failing = refl; messages = refl })) in
      let k =
        send_all-Killed kill_after outcomes n 0 p (sym (kills_before-zero kill_after), refl) in
      (
        record { successful = c.successful; failing = c.failing; messages = c.messages },
        k.0 ∙ ap (kills_before kill_after) (omega arith),
      )
