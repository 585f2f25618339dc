-- ===== src/Scripts/LoadTest/Ends.antt =====
-- The load test of scripts/loadtest.go ends, and its counts then add up.
use go_loadbalancer.Prelude.{
  ℕ, suc, ◌+◌, ◌*◌, ◌^◌, ◌≤◌, ◌<◌, ◌≡◌, refl, ap, ◌∙◌, ◌⊎◌, true, List, [], ◌∷◌, Option, none, some,
  get_elem?, All, Bool-cases, inl, inr, arith, ltb, leb, length,
}
use go_loadbalancer.Scripts.LoadTest.{
  Shared, Settings, Worker, waiting, finished, refused, took, ready, sending, timed, coded, judged,
  noted, bad_request, advance, Pool, Move, work, close_jobs, step, turn, put, Reach,
}
use go_loadbalancer.Scripts.LoadTest.Workers.{uncounted, unjudged, returned}
use go_loadbalancer.Prelude.Slots.{sum_of}
use go_loadbalancer.Scripts.LoadTest.Balance.{Reach-Bounded}

abbrev Moves : Settings → Pool → Type 0
Moves st p = (m : Move) × (q : Pool) × (step st m p ≡ some q)

put-some :
    (k : ℕ) (ws : List Worker) (o : Option (Worker × Shared)) {a : Worker × Shared}
    → o ≡ some a
    → (q : Pool) × (put k ws o ≡ some q)
put-some k ws none e = cc
put-some k ws (some (v, t)) e = (_, refl)

-- A worker that is not waiting can go on, whatever the client answers.
goes_on :
    (st : Settings) (w : Worker) (s : Shared)
    → (w ≡ finished)
      ⊎ (w ≡ waiting)
      ⊎ ((a : Worker × Shared) × (advance st bad_request w s ≡ some a))
unfolding advance
goes_on st waiting s = inr (inl refl)
goes_on st finished s = inl refl
goes_on st refused s = inr (inr (_, refl))
goes_on st (took idx) s = inr (inr (_, refl))
goes_on st (ready idx) s = inr (inr (_, refl))
goes_on st (sending idx) s = inr (inr (_, refl))
goes_on st (timed r) s = inr (inr (_, refl))
goes_on st (coded r) s = inr (inr (_, refl))
goes_on st (judged r) s = inr (inr (_, refl))
goes_on st (noted r) s = inr (inr (_, refl))

goes_by :
    (st : Settings) (p : Pool) (k : ℕ) (w : Worker) (a : Worker × Shared)
    → get_elem? p.workers k ≡ some w
    → advance st bad_request w p.shared ≡ some a
    → Moves st p
unfolding step
goes_by st p k w a found e =
    let (q, done) = put-some k p.workers (advance st bad_request w p.shared) e in
    (work k bad_request, q, ap (turn st k bad_request p) found ∙ done)

-- While a worker waits, it can take a job, or return, or the sender can close the channel.
waiting_goes :
    (st : Settings) (p : Pool) (k : ℕ) → get_elem? p.workers k ≡ some waiting → Moves st p
unfolding step advance
waiting_goes st p k found = elim (Bool-cases (ltb p.shared.next st.requests)) [
  | inl more ↦
      goes_by st p k waiting (took p.shared.next, record p.shared { next = suc p.shared.next })
        found (rw more refl)
  | inr over ↦ elim (Bool-cases p.shared.closed) [
    | inl closed ↦ goes_by st p k waiting (finished, p.shared) found (rw (over, closed) refl)
    | inr still ↦
        let full : leb st.requests p.shared.next ≡ true = ground arith in
        (close_jobs, record p { shared = record p.shared { closed = true } }, rw (full, still) refl)
  ]
]

goes_or_finished :
    (st : Settings) (p : Pool) (k : ℕ) (w : Worker)
    → get_elem? p.workers k ≡ some w
    → (w ≡ finished) ⊎ Moves st p
goes_or_finished st p k w found = elim (goes_on st w p.shared) [
  | inl e ↦ inl e
  | inr (inl e) ↦ inr (waiting_goes st p k (found ∙ ap some e))
  | inr (inr (a, e)) ↦ inr (goes_by st p k w a found e)
]

every_or_goes :
    {M : Type 0} (ws : List Worker)
    → ((k : ℕ) (w : Worker) → get_elem? ws k ≡ some w → (w ≡ finished) ⊎ M)
    → All (λ w. w ≡ finished) ws ⊎ M
every_or_goes [] h = inl tt
every_or_goes (w ∷ ws) h = elim (h 0 w refl) [
  | inr m ↦ inr m
  | inl e ↦ elim (every_or_goes ws (λ k v found. h (suc k) v found)) [
    | inl es ↦ inl (e, es)
    | inr m ↦ inr m
  ]
]

sum_of-finished :
    (f : Worker → ℕ) (n : ℕ) (ws : List Worker)
    → f finished ≡ n
    → All (λ w. w ≡ finished) ws
    → sum_of f ws ≡ n * length ws
sum_of-finished f n [] e all = omega arith
sum_of-finished f n (w ∷ ws) e all =
    let own : f w ≡ n = ap f all.0 ∙ e in grind (arith, own, sum_of-finished f n ws e all.1)

-- Once all workers have returned, every request is counted.
pub finished_counts :
    (st : Settings) (concurrency n : ℕ) (p : Pool)
    → st.requests < 2 ^ 31
    → 0 < concurrency
    → Reach st concurrency n p
    → All (λ w. w ≡ finished) p.workers
    → (p.shared.total ≡ st.requests) × (p.shared.success + p.shared.failure ≡ st.requests)
finished_counts st c n p few some_worker r all =
    let b = Reach-Bounded st c n p few r in
    let none_uncounted = sum_of-finished uncounted 0 p.workers refl all in
    let none_unjudged = sum_of-finished unjudged 0 p.workers refl all in
    let all_returned = sum_of-finished returned 1 p.workers refl all in
    let full : st.requests ≤ p.shared.next = elim b.balanced.returned_closed [
      | inl nobody ↦ omega (arith, all_returned, b.as_many, nobody)
      | inr closed ↦ elim b.balanced.closed_full [ inl still ↦ cc | inr f ↦ f ]
    ] in
    (
      omega (arith, full, none_uncounted, b.balanced.next_le, b.balanced.total_exact),
      omega (
        arith, full, none_uncounted, none_unjudged, b.balanced.next_le, b.balanced.total_exact,
        b.balanced.results_exact,
      ),
    )

-- With at least one worker and fewer than 2^31 requests, however the goroutines interleave and whatever
-- is answered: a run has at most 8 steps for each request, one for each worker and one more; until
-- all workers have returned some step is possible; and once they have, the total is the number of
-- requests, and each is a success or a failure.
pub run_ends :
    (st : Settings) (concurrency n : ℕ) (p : Pool)
    → st.requests < 2 ^ 31
    → 0 < concurrency
    → Reach st concurrency n p
    → (n ≤ 8 * st.requests + concurrency + 1)
      × (((m : Move) × (q : Pool) × (step st m p ≡ some q))
          ⊎ (All (λ w. w ≡ finished) p.workers
              × (p.shared.total ≡ st.requests)
              × (p.shared.success + p.shared.failure ≡ st.requests)))
run_ends st c n p few some_worker r =
    let b = Reach-Bounded st c n p few r in
    let at_most : n ≤ 8 * st.requests + c + 1 = omega (arith, b.spent, b.balanced.next_le) in
    elim (every_or_goes p.workers (goes_or_finished st p)) [
      | inr m ↦ (at_most, inl m)
      | inl all ↦
          let (total, results) = finished_counts st c n p few some_worker r all in
          (at_most, inr (all, total, results))
    ]
