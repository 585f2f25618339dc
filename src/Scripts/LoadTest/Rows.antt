-- ===== src/Scripts/LoadTest/Rows.antt =====
-- The indices in the table that scripts/loadtest.go writes.
use go_loadbalancer.Prelude.{
  ℕ, suc, ◌+◌, ◌≤◌, ◌<◌, ◌≡◌, refl, not, ◌&&◌, List, [], ◌∷◌, ◌++◌, Option, none, some, map,
  get_elem?, All, Distinct, In, Bool-cases, inl, inr, arith, ltb, leb, if◌then◌else◌,
}
use go_loadbalancer.Prelude.Map.{◌==◌, nat_key, beq_refl}
use go_loadbalancer.Scripts.LoadTest.{
  Shared, Settings, Response, Worker, Reply, waiting, finished, refused, took, ready, sending,
  timed, coded, judged, noted, bad_request, no_answer, answer, is_success, advance, Pool, Move,
  work, close_jobs, step, turn, put, Reach, at_start, after,
}
use go_loadbalancer.Prelude.Slots.{Holds, Holds-some, sum_of, sum_of-set_elem}
use go_loadbalancer.Scripts.LoadTest.Balance.{sum_of-waiting}

abbrev same : ℕ → ℕ → ℕ
same j i = if i == j then 1 else 0

-- Whether the worker has the job `j`.
abbrev holds : ℕ → Worker → ℕ
holds j (took idx) = same j idx
holds j (ready idx) = same j idx
holds j (sending idx) = same j idx
holds j (timed r) = same j r.idx
holds j (coded r) = same j r.idx
holds j (judged r) = same j r.idx
holds j (noted r) = same j r.idx
holds j _ = 0

-- How many rows are of the job `j`.
abbrev count : ℕ → List Response → ℕ
count j [] = 0
count j (r ∷ rs) = same j r.idx + count j rs

abbrev sent : ℕ → ℕ → ℕ
sent j n = if ltb j n then 1 else 0

count-append :
    (j : ℕ) (rs : List Response) (r : Response)
    → count j (rs ++ (r ∷ [])) ≡ count j rs + same j r.idx
count-append j [] r = omega arith
count-append j (q ∷ rs) r = omega (arith, count-append j rs r)

sent-suc : (j n : ℕ) → sent j (suc n) ≡ sent j n + same j n
sent-suc j n = ground arith

-- A job that is sent is with one worker or in one row, or has failed.
abbrev Moved : ℕ → Worker → Shared → Worker × Shared → Type 0
Moved j w s a =
    holds j a.0 + count j a.1.rows + sent j s.next ≤ holds j w + count j s.rows + sent j a.1.next

advance-Moved :
    (j : ℕ) (st : Settings) (reply : Reply) (w : Worker) (s : Shared)
    → Holds (Moved j w s) (advance st reply w s)
unfolding advance
advance-Moved j st reply waiting s = elim (Bool-cases (ltb s.next st.requests)) [
  | inl more ↦ rw more (omega (arith, sent-suc j s.next))
  | inr over ↦ elim (Bool-cases s.closed) [
    | inl closed ↦ rw (over, closed) (omega arith)
    | inr still ↦ rw (over, still) tt
  ]
]
advance-Moved j st reply finished s = tt
advance-Moved j st reply refused s = omega arith
advance-Moved j st reply (took idx) s = omega arith
advance-Moved j st reply (ready idx) s = omega arith
advance-Moved j st bad_request (sending idx) s = omega arith
advance-Moved j st (no_answer d) (sending idx) s = omega arith
advance-Moved j st (answer b c d) (sending idx) s = omega arith
advance-Moved j st reply (timed r) s = omega arith
advance-Moved j st reply (coded r) s = elim (Bool-cases (is_success r.status)) [
  | inl ok ↦ rw ok (omega arith)
  | inr bad ↦ rw bad (omega arith)
]
advance-Moved j st reply (judged r) s = omega arith
advance-Moved j st reply (noted r) s = elim (Bool-cases st.csv) [
  | inl on ↦ rw on (omega (arith, count-append j s.rows r))
  | inr off ↦ rw off (omega arith)
]

abbrev Once : ℕ → Pool → Type 0
Once j p = sum_of (holds j) p.workers + count j p.shared.rows ≤ sent j p.shared.next

put-Once :
    (j k : ℕ) (p : Pool) (w : Worker) (a : Option (Worker × Shared))
    → get_elem? p.workers k ≡ some w
    → Once j p
    → Holds (Moved j w p.shared) a
    → Holds (Once j) (put k p.workers a)
put-Once j k p w none found b h = tt
put-Once j k p w (some (v, t)) found b h =
    let (_, was, now) = sum_of-set_elem (holds j) p.workers k v w found in
    omega (arith, was, now, b, h)

turn-Once :
    (j : ℕ) (st : Settings) (k : ℕ) (reply : Reply) (p : Pool) (found : Option Worker)
    → get_elem? p.workers k ≡ found
    → Once j p
    → Holds (Once j) (turn st k reply p found)
turn-Once j st k reply p none found b = tt
turn-Once j st k reply p (some w) found b =
    put-Once j k p w (advance st reply w p.shared) found b (advance-Moved j st reply w p.shared)

step-Once : (j : ℕ) (st : Settings) (m : Move) (p : Pool) → Once j p → Holds (Once j) (step st m p)
unfolding step
step-Once j st (work k reply) p b = turn-Once j st k reply p (get_elem? p.workers k) refl b
step-Once j st close_jobs p b =
    elim (Bool-cases (leb st.requests p.shared.next && not p.shared.closed)) [
      | inl full ↦ rw full b
      | inr busy ↦ rw busy tt
    ]

Reach-Once : (j : ℕ) (st : Settings) (c n : ℕ) (p : Pool) → Reach st c n p → Once j p
Reach-Once j st c n p at_start = omega (arith, sum_of-waiting (holds j) 0 c refl)
Reach-Once j st c (suc n) q (after {p = p} r m e) =
    Holds-some (Once j) (step st m p) (step-Once j st m p (Reach-Once j st c n p r)) e

same_refl : (j : ℕ) → same j j ≡ 1
same_refl j = rw (beq_refl j) refl

In-count : (j : ℕ) (rs : List Response) → In j (map (λ r. r.idx) rs) → 1 ≤ count j rs
In-count j [] i = elim i [ ]
In-count j (r ∷ rs) (inl e) = rw (← e) (omega (arith, same_refl j))
In-count j (r ∷ rs) (inr i) = omega (arith, In-count j rs i)

Distinct-counts : (rs : List Response) → ((j : ℕ) → count j rs ≤ 1) → Distinct (map (λ r. r.idx) rs)
Distinct-counts [] h = tt
Distinct-counts (r ∷ rs) h = (
  (λ i. omega (arith, h r.idx, same_refl r.idx, In-count r.idx rs i)),
  Distinct-counts rs (λ j. omega (arith, h j)),
)

All-sent :
    (n : ℕ) (rs : List Response) → ((j : ℕ) → count j rs ≤ sent j n) → All (λ r. r.idx < n) rs
All-sent n [] h = tt
All-sent n (r ∷ rs) h = (
  (let most = h r.idx in let own = same_refl r.idx in ground (arith, most, own)),
  All-sent n rs (λ j. omega (arith, h j)),
)

-- However the goroutines interleave, the rows have different indices, each of a request that was sent.
pub rows-Distinct :
    (st : Settings) (concurrency n : ℕ) (p : Pool)
    → Reach st concurrency n p
    → Distinct (map (λ r. r.idx) p.shared.rows) × All (λ r. r.idx < p.shared.next) p.shared.rows
rows-Distinct st c n p r =
    let once : (j : ℕ) → count j p.shared.rows ≤ sent j p.shared.next =
      λ j. omega (arith, Reach-Once j st c n p r) in
    (
      Distinct-counts p.shared.rows (λ j. ground (arith, once j)),
      All-sent p.shared.next p.shared.rows once,
    )
