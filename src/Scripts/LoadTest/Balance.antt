-- ===== src/Scripts/LoadTest/Balance.antt =====
-- What each step of the load test (scripts/loadtest.go) keeps, whichever goroutine makes it.
use go_loadbalancer.Prelude.{
  ℕ, zero, suc, ◌+◌, ◌*◌, ◌^◌, ◌≤◌, ◌<◌, ◌≡◌, refl, ap, ◌∙◌, ◌⊎◌, Bool, true, false, not, ◌&&◌,
  Option, none, some, get_elem?, Bool-cases, inl, inr, arith, leb, length,
}
use go_loadbalancer.Prelude.Slots.{Holds, Holds-some, sum_of, sum_of-set_elem, length-set_elem}
use go_loadbalancer.Scripts.LoadTest.{
  Shared, Settings, Worker, Reply, waiting, advance, Pool, Move, work, close_jobs, step, turn, put,
  waiting_workers, Reach, at_start, after,
}
use go_loadbalancer.Scripts.LoadTest.Workers.{
  uncounted, unjudged, returned, left, Kept, advance-Kept,
}

abbrev to_close : Bool → ℕ
to_close true = 0
to_close false = 1

-- What is sent is counted or about to be, and what is counted is a success, a failure or under way.
pub record Balanced (st : Settings) (p : Pool) : Type 0 where
  pub next_le : p.shared.next ≤ st.requests
  pub closed_full : (p.shared.closed ≡ false) ⊎ (st.requests ≤ p.shared.next)
  pub returned_closed : (sum_of returned p.workers ≡ 0) ⊎ (p.shared.closed ≡ true)
  pub total_exact : p.shared.total + sum_of uncounted p.workers ≡ p.shared.next
  pub results_exact :
      p.shared.success + p.shared.failure + sum_of unjudged p.workers ≡ p.shared.total

-- The steps that are left, with those that the requests taken so far have used.
abbrev pub remaining : Pool → ℕ
remaining p = sum_of left p.workers + to_close p.shared.closed

-- A step keeps the balance and leaves fewer steps.
record Advanced (st : Settings) (p q : Pool) : Type 0 where
  balanced : Balanced st q
  fewer : remaining q + 8 * p.shared.next < remaining p + 8 * q.shared.next
  as_many : length q.workers ≡ length p.workers

put-Advanced :
    (st : Settings) (k : ℕ) (p : Pool) (w : Worker) (a : Option (Worker × Shared))
    → get_elem? p.workers k ≡ some w
    → Balanced st p
    → Holds (λ a. Kept st w p.shared a.0 a.1) a
    → Holds (Advanced st p) (put k p.workers a)
put-Advanced st k p w none found b h = tt
put-Advanced st k p w (some (v, t)) found b h =
    let (_, was1, now1) = sum_of-set_elem uncounted p.workers k v w found in
    let (_, was2, now2) = sum_of-set_elem unjudged p.workers k v w found in
    let (_, was3, now3) = sum_of-set_elem returned p.workers k v w found in
    let (_, was4, now4) = sum_of-set_elem left p.workers k v w found in
    record {
      balanced = record {
        next_le = h.next_le;
        closed_full = elim b.closed_full [
          | inl still ↦ inl (h.closed_same ∙ still)
          | inr full ↦ inr (omega (arith, full, h.next_grows))
        ];
        returned_closed = elim b.returned_closed [
          | inl nobody ↦ elim h.returns_closed [
            | inl same ↦ inl (omega (arith, was3, now3, nobody, same))
            | inr closed ↦ inr (h.closed_same ∙ closed)
          ]
          | inr closed ↦ inr (h.closed_same ∙ closed)
        ];
        total_exact = omega (arith, was1, now1, h.total_exact, b.total_exact);
        results_exact = omega (arith, was2, now2, h.results_exact, b.results_exact);
      };
      fewer = let same = ap to_close h.closed_same in omega (arith, was4, now4, h.shorter, same);
      as_many = length-set_elem p.workers k v;
    }

turn-Advanced :
    (st : Settings) (k : ℕ) (reply : Reply) (p : Pool) (found : Option Worker)
    → get_elem? p.workers k ≡ found
    → st.requests < 2 ^ 31
    → Balanced st p
    → Holds (Advanced st p) (turn st k reply p found)
turn-Advanced st k reply p none found few b = tt
turn-Advanced st k reply p (some w) found few b =
    put-Advanced st k p w (advance st reply w p.shared) found b (
      advance-Kept st reply w p.shared b.next_le (record {
        total = omega (arith, b.next_le, b.total_exact, few);
        success = omega (arith, b.next_le, b.total_exact, b.results_exact, few);
        failure = omega (arith, b.next_le, b.total_exact, b.results_exact, few);
      }))

step-Advanced :
    (st : Settings) (m : Move) (p : Pool)
    → st.requests < 2 ^ 31
    → Balanced st p
    → Holds (Advanced st p) (step st m p)
unfolding step
step-Advanced st (work k reply) p few b =
    turn-Advanced st k reply p (get_elem? p.workers k) refl few b
step-Advanced st close_jobs p few b =
    elim (Bool-cases (leb st.requests p.shared.next && not p.shared.closed)) [
      | inl full ↦ rw full (record {
        balanced = record {
          next_le = b.next_le;
          closed_full = inr (ground arith);
          returned_closed = inr refl;
          total_exact = b.total_exact;
          results_exact = b.results_exact;
        };
        fewer =
            let still : p.shared.closed ≡ false = ground arith in
            let one = ap to_close still in omega (arith, one);
        as_many = refl;
      })
      | inr busy ↦ rw busy tt
    ]

pub sum_of-waiting :
    (f : Worker → ℕ) (n c : ℕ) → f waiting ≡ n → sum_of f (waiting_workers c) ≡ n * c
sum_of-waiting f n zero e = omega arith
sum_of-waiting f n (suc c) e = grind (arith, e, sum_of-waiting f n c e)

length-waiting_workers : (c : ℕ) → length (waiting_workers c) ≡ c
length-waiting_workers zero = refl
length-waiting_workers (suc c) = ap suc (length-waiting_workers c)

-- What every reachable pool satisfies.
pub record Bounded (st : Settings) (concurrency n : ℕ) (p : Pool) : Type 0 where
  pub balanced : Balanced st p
  pub spent : n + remaining p ≤ concurrency + 1 + 8 * p.shared.next
  pub as_many : length p.workers ≡ concurrency

pub Reach-Bounded :
    (st : Settings) (c n : ℕ) (p : Pool) → st.requests < 2 ^ 31 → Reach st c n p → Bounded st c n p
Reach-Bounded st c n p few at_start =
    let one = sum_of-waiting uncounted 0 c refl in
    let two = sum_of-waiting unjudged 0 c refl in
    let three = sum_of-waiting returned 0 c refl in
    let four = sum_of-waiting left 1 c refl in
    record {
      balanced = record {
        next_le = omega arith;
        closed_full = inl refl;
        returned_closed = inl (omega (arith, three));
        total_exact = omega (arith, one);
        results_exact = omega (arith, two);
      };
      spent = omega (arith, four);
      as_many = length-waiting_workers c;
    }
Reach-Bounded st c (suc n) q few (after {p = p} r m e) =
    let b = Reach-Bounded st c n p few r in
    let a = Holds-some (Advanced st p) (step st m p) (step-Advanced st m p few b.balanced) e in
    record {
      balanced = a.balanced;
      spent = omega (arith, a.fewer, b.spent);
      as_many = a.as_many ∙ b.as_many;
    }

pub Reach-next_le :
    (st : Settings) (c n : ℕ) (p : Pool)
    → st.requests < 2 ^ 31
    → Reach st c n p
    → p.shared.next < 2 ^ 31
Reach-next_le st c n p few r = omega (arith, few, (Reach-Bounded st c n p few r).balanced.next_le)
