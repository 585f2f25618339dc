-- ===== src/Scripts/CbTest/Phases.antt =====
-- What scripts/cbtest.go reports, against the replies.
use go_loadbalancer.Prelude.{
  ℕ, zero, suc, ◌^◌, ◌<◌, ◌≡◌, ◌↔◌, refl, sym, ap, subst, ◌∙◌, ◌⊎◌, inl, inr, arith, Bool, true,
  false, [], ◌∷◌, Option, none, some, String, length,
}
use go_loadbalancer.Prelude.Int.{ℤ, pos}
use go_loadbalancer.Prelude.Map.{Map, get, ◌==◌, string_key, int_key}
use go_loadbalancer.Scripts.CbTest.Hits.{
  fine, fine_by, over, success_count-over, backend_hits-none, backend_hits-some, backend_hits-count,
}
use go_loadbalancer.Scripts.CbTest.{
  Reply, backend_hits, success_count, KillError, Retried, Report, exits, goes_on, retried,
  after_hits, phases,
}

-- What the report may be, of `n` requests in each phase.
pub data Reported (n : ℕ) (before later : ℕ → Reply) (killed : Option KillError) (skip_kill : Bool)
    : Report → Type 0 where
  -- no request was answered below 500
  none_fine : over fine before n 0 ≡ 0 → Reported n before later killed skip_kill exits
  -- the second phase is skipped
  skipped :
      {hits : Map String ℤ}
      → 0 < over fine before n 0
      → ((name : String) → get (pos 0) name hits ≡ pos (over (fine_by name) before n 0))
      → skip_kill ≡ true
      → Reported n before later killed skip_kill (goes_on hits none)
  -- it is not
  tried :
      {hits : Map String ℤ} {r : Retried}
      → 0 < over fine before n 0
      → ((name : String) → get (pos 0) name hits ≡ pos (over (fine_by name) before n 0))
      → r.warning ≡ killed
      → r.successes ≡ pos (over fine later n 0)
      → (r.all_succeeded ≡ true) ↔ (over fine later n 0 ≡ n)
      → Reported n before later killed skip_kill (goes_on hits (some r))

retried-tried :
    (n : ℕ) (before later : ℕ → Reply) (killed : Option KillError) (hits : Map String ℤ)
    → n < 2 ^ 63
    → 0 < over fine before n 0
    → ((name : String) → get (pos 0) name hits ≡ pos (over (fine_by name) before n 0))
    → Reported n before later killed false (goes_on hits (some (retried (pos n) later killed)))
retried-tried n before later killed hits small good counts =
    let successes : success_count later n 0 (pos 0) ≡ pos (over fine later n 0) =
      success_count-over later n 0 0 (omega (arith, small)) ∙ ap pos (omega arith) in
    tried good counts refl successes (
      subst (λ s. ((s == pos n) ≡ true) ↔ (over fine later n 0 ≡ n)) (sym successes) (ground arith))

zero_or_more : (k : ℕ) → (k ≡ 0) ⊎ (0 < k)
zero_or_more zero = inl refl
zero_or_more (suc k) = inr (omega arith)

after_hits-Reported :
    (n : ℕ) (before later : ℕ → Reply) (killed : Option KillError) (skip_kill : Bool)
    (hits : Map String ℤ)
    → n < 2 ^ 63
    → (over fine before n 0 ≡ 0 → hits ≡ [])
    → (0 < over fine before n 0 → 0 < length hits)
    → ((name : String) → get (pos 0) name hits ≡ pos (over (fine_by name) before n 0))
    → Reported n before later killed skip_kill (after_hits skip_kill (pos n) later killed hits)
after_hits-Reported n before later killed skip_kill [] small empty full counts =
    elim (zero_or_more (over fine before n 0)) [
      | inl none_good ↦ none_fine none_good
      | inr some_good ↦ absurd (let some_hits = full some_good in omega (arith, some_hits))
    ]
after_hits-Reported n before later killed skip_kill (h ∷ hits) small empty full counts =
    let good : 0 < over fine before n 0 = elim (zero_or_more (over fine before n 0)) [
      | inl none_good ↦ absurd (let e = empty none_good in cc)
      | inr some_good ↦ some_good
    ] in
    by_skip skip_kill good
  where
    by_skip :
        (skips : Bool)
        → 0 < over fine before n 0
        → Reported n before later killed skips (after_hits skips (pos n) later killed (h ∷ hits))
    by_skip true good = skipped good counts refl
    by_skip false good = retried-tried n before later killed (h ∷ hits) small good counts

-- Of fewer than 2^63 requests in each phase, the test exits with 1 if no request of the first phase was
-- answered below 500; else it reports for every backend how many of them it answered so, and, unless the
-- second phase is skipped, how many of that one's were, and whether all were.
pub phases-Reported :
    (n : ℕ) (before later : ℕ → Reply) (killed : Option KillError) (skip_kill : Bool)
    → n < 2 ^ 63
    → Reported n before later killed skip_kill (phases skip_kill (pos n) before later killed)
unfolding phases get
phases-Reported n before later killed skip_kill small =
    after_hits-Reported n before later killed skip_kill (backend_hits before n 0 []) small
      (backend_hits-none before n 0 [])
      (λ good. backend_hits-some before n 0 [] (omega (arith, good)))
      (λ name.
        backend_hits-count name before n 0 [] 0 refl (omega (arith, small)) ∙ ap pos (omega arith))
