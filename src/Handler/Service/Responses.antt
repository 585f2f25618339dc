-- ===== src/Handler/Service/Responses.antt =====
-- What a step of one goroutine of `ServeHTTP` (internal/handler/handler.go) sends its client.
use go_loadbalancer.Prelude.{
  ℕ, zero, suc, ◌+◌, ◌≤◌, ◌≡◌, refl, sym, ap, ◌∙◌, ◌⊎◌, inl, inr, arith, false, not, ◌&&◌, List, [],
  ◌∷◌, Option, none, some, String, Bool-cases,
}
use go_loadbalancer.Prelude.Map.{get, string_key}
use go_loadbalancer.Prelude.Slots.{Holds}
use go_loadbalancer.Registry.{Registry}
use go_loadbalancer.Breaker.{allow}
use go_loadbalancer.Strategy.{Strategy, takes_key}
use go_loadbalancer.LoadBalancer.{Result, ok, err, pick, get_and_reserve_server_with_key}
use go_loadbalancer.Handler.Writer.{
  WriterCall, RetryableWriter, wrap_writer, write_all, write_all-client, unwritten-nil,
}
use go_loadbalancer.Handler.State.{Library, Outcome, Exchange}
use go_loadbalancer.Handler.{unavailable}
use go_loadbalancer.Handler.Goroutine.{
  Phase, looking, choosing, reserving, asking, deciding, announcing, naming, counting, proxying,
  releasing, fetching, noting, completing, storing, failing, returned, Task, next_attempt, settled,
  after_pick, reserved_or_failed, after_asking, after_deciding, after_fetching, after_noting,
  advance_in,
}

-- The calls of one of the attempts that were allowed, or the answer 503.
abbrev pub Answer : Library → (ℕ → Outcome) → ℕ → List WriterCall → Type 0
Answer lib outcomes most client =
    ((i : ℕ) × (1 ≤ i) × (i ≤ most) × (client ≡ (outcomes i).calls))
    ⊎ (client ≡ lib.http_error "Service unavailable" 503)

module _ (lib : Library) (outcomes : ℕ → Outcome) (most : ℕ) where
  -- Attempt `n` of the `most` ones, with `k` after it.
  abbrev Trying : ℕ → ℕ → Type 0
  Trying k n = (1 ≤ n) × (n + k ≡ most)

  abbrev Passed : ℕ → RetryableWriter → List WriterCall → Type 0
  Passed n w client = (w ≡ write_all (outcomes n).calls (wrap_writer [])) × (client ≡ w.client)

  -- What the client was sent when a goroutine is in a phase of attempt `n`.
  abbrev pub Sent : Phase → ℕ → ℕ → List WriterCall → Type 0
  Sent (releasing b url w e) k n client = Trying k n × Passed n w client
  Sent (fetching b url w e) k n client = Trying k n × Passed n w client
  Sent (noting b url p w e) k n client = Trying k n × Passed n w client
  Sent (completing b url w) k n client = Trying k n × (client ≡ (outcomes n).calls)
  Sent (storing b) k n client = Trying k n × (client ≡ (outcomes n).calls)
  Sent failing k n client = client ≡ []
  Sent returned k n client = Answer lib outcomes most client
  Sent _ k n client = Trying k n × (client ≡ [])

  abbrev pub SentBy : Exchange × Task → Type 0
  SentBy a = Sent a.1.phase a.1.left a.1.number a.0.client

  next-Sent :
      (bs : List ℕ) (k n : ℕ) (client : List WriterCall)
      → n + k ≡ most
      → client ≡ []
      → let t = next_attempt bs k (suc n) in Sent t.phase t.left t.number client
  next-Sent bs zero n client h e = e
  next-Sent bs (suc k) n client h e = ((omega arith, omega (arith, h)), e)

  all_calls :
      (n : ℕ) (w : RetryableWriter) (client : List WriterCall)
      → Passed n w client
      → client ≡ (outcomes n).calls
  unfolding wrap_writer
  all_calls n w client (e, f) =
      f ∙ ap (λ v. v.client) e ∙ write_all-client (outcomes n).calls (wrap_writer [])

  settled-Sent :
      (b : ℕ) (url : String) (w : RetryableWriter) (e : Option String) (x : Exchange) (t : Task)
      → Trying t.left t.number
      → Passed t.number w x.client
      → let u = settled b url w e x t in Sent u.phase u.left u.number x.client
  settled-Sent b url w none x t h p = (h, all_calls t.number w x.client p)
  settled-Sent b url w (some e) x t h p = elim (Bool-cases w.header_written) [
    | inl sent ↦ rw sent (inl (t.number, h.0, omega (arith, h.1), all_calls t.number w x.client p))
    | inr unsent ↦
        let silent =
          unwritten-nil (outcomes t.number).calls []
            (ap (λ v. v.header_written) (sym p.0) ∙ unsent) in
        rw unsent (
          next-Sent x.handler.backends t.left t.number x.client h.1
            (all_calls t.number w x.client p ∙ silent))
  ]

  asked-Sent :
      (b : ℕ) (url : String) (x : Exchange) (t : Task) (r : Option Registry)
      → Trying t.left t.number × (x.client ≡ [])
      → SentBy (after_asking b url x t r)
  asked-Sent b url x t none h = h
  asked-Sent b url x t (some r) h = h

  decided-Sent :
      (now b : ℕ) (url : String) (p : ℕ) (x : Exchange) (t : Task) (r : Option Registry)
      → Trying t.left t.number × (x.client ≡ [])
      → SentBy (after_deciding lib now b url p x t r)
  decided-Sent now b url p x t none h = h
  decided-Sent now b url p x t (some r) h = elim (Bool-cases (allow lib.since now (r.heap p)).1) [
    | inl admits ↦ rw admits h
    | inr refuses ↦ rw refuses (next-Sent x.handler.backends t.left t.number x.client h.0.1 h.1)
  ]

  fetched-Sent :
      (b : ℕ) (url : String) (w : RetryableWriter) (e : Option String) (x : Exchange) (t : Task)
      (r : Option Registry)
      → Trying t.left t.number × Passed t.number w x.client
      → SentBy (after_fetching b url w e x t r)
  fetched-Sent b url w e x t none h = settled-Sent b url w e x t h.0 h.1
  fetched-Sent b url w e x t (some r) h = h

  noted-Sent :
      (now b : ℕ) (url : String) (p : ℕ) (w : RetryableWriter) (e : Option String) (x : Exchange)
      (t : Task) (r : Option Registry)
      → Trying t.left t.number × Passed t.number w x.client
      → SentBy (after_noting now b url p w e x t r)
  noted-Sent now b url p w none x t none h = settled-Sent b url w none x t h.0 h.1
  noted-Sent now b url p w (some e) x t none h = settled-Sent b url w (some e) x t h.0 h.1
  noted-Sent now b url p w none x t (some r) h = settled-Sent b url w none x t h.0 h.1
  noted-Sent now b url p w (some e) x t (some r) h = settled-Sent b url w (some e) x t h.0 h.1

  pub advance_in-SentBy :
      (ip : String) (p : Phase) (x : Exchange) (t : Task)
      → Sent p t.left t.number x.client
      → Holds SentBy (advance_in lib ip (outcomes t.number) p x t)
  unfolding advance_in unavailable wrap_writer
  advance_in-SentBy ip (looking [] []) x t (h, e) = e
  advance_in-SentBy ip (looking [] (c ∷ cs)) x t h = h
  advance_in-SentBy ip (looking (b ∷ bs) found) x t h =
      elim (Bool-cases (not (get false (x.store b).url x.tried) && (x.store b).is_healthy)) [
        | inl good ↦ rw good h
        | inr bad ↦ rw bad h
      ]
  advance_in-SentBy ip (choosing found) x t h = elim (Bool-cases (takes_key x.handler.balancer)) [
    | inl keyed ↦ rw keyed (
        reserved
          (get_and_reserve_server_with_key (outcomes t.number).draw found ip x.handler.balancer
            x.store).result)
    | inr plain ↦ rw plain (picked (pick (outcomes t.number).draw found x.handler.balancer x.store))
  ]
    where
      reserved : (r : Result) → Sent (reserved_or_failed r) t.left t.number x.client
      reserved (ok b) = h
      reserved (err e) = h.1

      picked : (s : Strategy × Option ℕ) → SentBy (after_pick x t s)
      picked (s, none) = h.1
      picked (s, some b) = h
  advance_in-SentBy ip (reserving b) x t h = h
  advance_in-SentBy ip (asking b) x t h =
      asked-Sent b (x.store b).url _ t x.handler.circuit_registry h
  advance_in-SentBy ip (deciding b url p) x t h =
      decided-Sent (outcomes t.number).allow_at b url p x t x.handler.circuit_registry h
  advance_in-SentBy ip (announcing b url) x t h = h
  advance_in-SentBy ip (naming b url) x t h = h
  advance_in-SentBy ip (counting b url) x t h = h
  advance_in-SentBy ip (proxying b url) x t (h, e) = (h, (rw e refl, refl))
  advance_in-SentBy ip (releasing b url w e) x t h = h
  advance_in-SentBy ip (fetching b url w e) x t h =
      fetched-Sent b url w e x t x.handler.circuit_registry h
  advance_in-SentBy ip (noting b url p w e) x t h =
      noted-Sent (outcomes t.number).finished_at b url p w e x t x.handler.circuit_registry h
  advance_in-SentBy ip (completing b url w) x t h = h
  advance_in-SentBy ip (storing b) x t ((low, all), e) = inl (t.number, low, omega (arith, all), e)
  advance_in-SentBy ip failing x t e = inr (rw e refl)
  advance_in-SentBy ip returned x t h = tt
