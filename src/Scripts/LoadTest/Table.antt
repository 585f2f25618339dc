-- ===== src/Scripts/LoadTest/Table.antt =====
-- The table that scripts/loadtest.go writes, and scripts/check_results.go reads.
use Prim.Native.String.{String}
use go_loadbalancer.Prelude.{
  ℕ, ◌^◌, ◌≤◌, ◌<◌, ◌≡◌, refl, inl, inr, arith, List, [], ◌∷◌, true, some, map, In, All, Distinct,
  subst,
}
use go_loadbalancer.Prelude.Int.{ℤ, pos}
use go_loadbalancer.Go.Itoa.{atoi-itoa}
use go_loadbalancer.Scripts.CheckResults.{read_row}
use go_loadbalancer.Scripts.CheckResults
use go_loadbalancer.Scripts.CheckResults.Verdict.{Verdict, unique, repeated, indices, main-Verdict}
use go_loadbalancer.Scripts.LoadTest.{
  Settings, Response, Worker, finished, Pool, Reach, header, all_returned, table, written,
}
use go_loadbalancer.Scripts.LoadTest.Rows.{rows-Distinct}
use go_loadbalancer.Scripts.LoadTest.Balance.{Reach-next_le}

read_row-written :
    (time duration : Response → String) (r : Response)
    → r.idx < 2 ^ 63
    → read_row (written time duration r) ≡ some (pos r.idx, r.backend)
unfolding written read_row
read_row-written time duration r h = rw (read_row, atoi-itoa r.idx h) refl

indices-written :
    (time duration : Response → String) (rs : List Response)
    → All (λ r. r.idx < 2 ^ 63) rs
    → indices (map (written time duration) rs) ≡ some (map (λ r. pos r.idx) rs)
indices-written time duration [] h = refl
indices-written time duration (r ∷ rs) h =
    rw (read_row-written time duration r h.0, indices-written time duration rs h.1) refl

In-pos :
    (n : ℕ) (rs : List Response) → In (pos n) (map (λ r. pos r.idx) rs) → In n (map (λ r. r.idx) rs)
In-pos n [] i = elim i [ ]
In-pos n (r ∷ rs) (inl e) = inl cc
In-pos n (r ∷ rs) (inr i) = inr (In-pos n rs i)

Distinct-pos :
    (rs : List Response) → Distinct (map (λ r. r.idx) rs) → Distinct (map (λ r. pos r.idx) rs)
Distinct-pos [] d = tt
Distinct-pos (r ∷ rs) d = ((λ i. d.0 (In-pos r.idx rs i)), Distinct-pos rs d.1)

All-below :
    (a b : ℕ) (rs : List Response) → a ≤ b → All (λ r. r.idx < a) rs → All (λ r. r.idx < b) rs
All-below a b [] le h = tt
All-below a b (r ∷ rs) le h = (omega (arith, le, h.0), All-below a b rs le h.1)

Verdict-Distinct : (ns : List ℤ) (e : ℕ) → Distinct ns → Verdict (some ns) e → e ≡ 0
Verdict-Distinct ns e d (unique _) = refl
Verdict-Distinct ns e d (repeated apart) = elim (apart d) [ ]

all_returned-All : (ws : List Worker) → All (λ w. w ≡ finished) ws → all_returned ws ≡ true
all_returned-All [] all = refl
all_returned-All (w ∷ ws) all = rw all.0 (all_returned-All ws all.1)

-- With fewer than 2^31 requests and a table asked for, once all workers have returned, the table is in the
-- file, and the check accepts it, however the goroutines interleaved, and whatever the times and the
-- number of rows expected.
pub main-table :
    (st : Settings) (concurrency n : ℕ) (p : Pool) (time duration : Response → String)
    (expected : ℤ)
    → st.requests < 2 ^ 31
    → st.csv ≡ true
    → Reach st concurrency n p
    → All (λ w. w ≡ finished) p.workers
    → (rows : List (List String)) × (table st time duration p ≡ some rows)
      × ((CheckResults.main expected (some rows)).exit ≡ 0)
unfolding table
main-table st c n p time duration expected few csv r returned =
    let (apart, below) = rows-Distinct st c n p r in
    let read = indices-written time duration p.shared.rows (
      All-below p.shared.next (2 ^ 63) p.shared.rows (omega (arith, Reach-next_le st c n p few r))
        below) in
    let rows = header ∷ map (written time duration) p.shared.rows in
    (
      rows,
      rw (csv, all_returned-All p.workers returned) refl,
      Verdict-Distinct _ _ (Distinct-pos p.shared.rows apart) (
          subst (λ found. Verdict found (CheckResults.main expected (some rows)).exit) read
            (main-Verdict expected header (map (written time duration) p.shared.rows)
              (omega arith))),
    )
