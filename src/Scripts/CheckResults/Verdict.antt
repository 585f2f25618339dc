-- ===== src/Scripts/CheckResults/Verdict.antt =====
-- The exit code of scripts/check_results.go.
use go_loadbalancer.Prelude.{
  ℕ, suc, ◌+◌, ◌≤◌, ◌≡◌, refl, sym, ap, ◌↔◌, inl, inr, Bool, true, false, List, [], ◌∷◌, Option,
  none, some, String, length, ltb, Distinct, In, All, Bool-cases, Option-cases, arith,
}
use go_loadbalancer.Prelude.Int.{ℤ}
use go_loadbalancer.Prelude.Map.{Map, insert, ◌==◌, int_key, nat_key}
use go_loadbalancer.Prelude.Keys.{keys, In-insert, insert-In, insert-keeps, insert_new}
use go_loadbalancer.Scripts.CheckResults.{
  Scan, read_row, note_row, scan_rows, conclude, main, empty_scan,
}

abbrev pub add_index : Option (ℤ × String) → Option (List ℤ) → Option (List ℤ)
add_index none ns = none
add_index (some row) none = none
add_index (some row) (some ns) = some (row.0 ∷ ns)

-- The indices of the rows; none if a row cannot be read.
abbrev pub indices : List (List String) → Option (List ℤ)
indices [] = some []
indices (r ∷ rs) = add_index (read_row r) (indices rs)

-- The exit code that the indices ask for.
pub data Verdict : Option (List ℤ) → ℕ → Type 0 where
  unreadable : Verdict none 2
  unique : {ns : List ℤ} → Distinct ns → Verdict (some ns) 0
  repeated : {ns : List ℤ} → ¬ Distinct ns → Verdict (some ns) 3

abbrev collect : List ℤ → Map ℤ Bool → Map ℤ Bool
collect [] m = m
collect (n ∷ ns) m = collect ns (insert n true m)

-- The numbers are distinct, and no key of the map.
abbrev Fresh : List ℤ → Map ℤ Bool → Type 0
Fresh ns m = Distinct ns × All (λ n. ¬ In n (keys m)) ns

All-empty : (ns : List ℤ) → All (λ j. ¬ In j (keys {V = Bool} [])) ns
All-empty [] = tt
All-empty (n ∷ ns) = ((λ i. elim i [ ]), All-empty ns)

All-apart :
    (n : ℤ) (m : Map ℤ Bool) (ns : List ℤ)
    → ¬ In n ns
    → All (λ j. ¬ In j (keys m)) ns
    → All (λ j. ¬ In j (keys (insert n true m))) ns
All-apart n m [] out h = tt
All-apart n m (j ∷ ns) out h = (
  (λ i. elim (In-insert n true m j i) [ inl e ↦ out (inl (sym e)) | inr g ↦ h.0 g ]),
  All-apart n m ns (λ i. out (inr i)) h.1,
)

apart-All :
    (n : ℤ) (m : Map ℤ Bool) (ns : List ℤ)
    → All (λ j. ¬ In j (keys (insert n true m))) ns
    → (¬ In n ns) × All (λ j. ¬ In j (keys m)) ns
apart-All n m [] h = ((λ i. elim i [ ]), tt)
apart-All n m (j ∷ ns) h =
    let rest = apart-All n m ns h.1 in
    (
      (λ i. elim i [ inl e ↦ h.0 (rw (← e) (insert-In n true m)) | inr g ↦ rest.0 g ]),
      ((λ i. h.0 (insert-keeps n true m j i)), rest.1),
    )

Fresh-cons :
    (n : ℤ) (m : Map ℤ Bool) (ns : List ℤ)
    → ¬ In n (keys m)
    → Fresh ns (insert n true m) ↔ Fresh (n ∷ ns) m
Fresh-cons n m ns out = (
  (λ f. let apart = apart-All n m ns f.1 in ((apart.0, f.0), (out, apart.1))),
  λ f. (f.0.1, All-apart n m ns f.0.0 f.1.1),
)

-- As many keys are added as there are numbers exactly if the numbers are fresh.
collect-Fresh :
    (ns : List ℤ) (m : Map ℤ Bool)
    → (length (collect ns m) ≤ length m + length ns)
      × ((length (collect ns m) ≡ length m + length ns) ↔ Fresh ns m)
collect-Fresh [] m = (omega arith, ((λ e. (tt, tt)), λ f. omega arith))
collect-Fresh (n ∷ ns) m =
    let (at_most, exact) = collect-Fresh ns (insert n true m) in
    elim (insert_new n true m) [
      | inl (i, len) ↦
          (omega arith, ((λ e. grind (arith, at_most, len, e)), λ f. elim (f.1.0 i) [ ]))
      | inr (out, len) ↦ (
        omega arith,
        (
          (λ e. (Fresh-cons n m ns out).0 (exact.0 (omega arith))),
          λ f. let same = exact.1 ((Fresh-cons n m ns out).1 f) in omega arith,
        ),
      )
    ]

-- What the loop has seen, from the indices.
data Scanned (s : Scan) : Option (List ℤ) → Option Scan → Type 0 where
  stopped : Scanned s none none
  ended :
      {ns : List ℤ} {last : Scan}
      → last.idx_seen ≡ collect ns s.idx_seen
      → Scanned s (some ns) (some last)

Scanned-cons :
    (s : Scan) (i : ℕ) (row : ℤ × String) (found : Option (List ℤ)) (last : Option Scan)
    → Scanned (note_row i row s) found last
    → Scanned s (add_index (some row) found) last
unfolding note_row
Scanned-cons s i (n, backend) none none stopped = stopped
Scanned-cons s i (n, backend) (some ns) (some last) (ended e) = ended e
Scanned-cons s i (n, backend) none (some last) h = elim h [ ]
Scanned-cons s i (n, backend) (some ns) none h = elim h [ ]

scan_rows-Scanned :
    (i : ℕ) (rs : List (List String)) (s : Scan) → Scanned s (indices rs) (scan_rows i rs s)
unfolding scan_rows
scan_rows-Scanned i [] s = ended refl
scan_rows-Scanned i (r ∷ rs) s = elim (Option-cases (read_row r)) [
  | inl e ↦ rw (scan_rows, e) stopped
  | inr (row, e) ↦
      rw (scan_rows, e) (Scanned-cons s i row _ _ (scan_rows-Scanned (suc i) rs (note_row i row s)))
]

length-add_index :
    (row : Option (ℤ × String)) (found : Option (List ℤ)) (n : ℕ) (ns : List ℤ)
    → ((js : List ℤ) → found ≡ some js → n ≡ length js)
    → add_index row found ≡ some ns
    → suc n ≡ length ns
length-add_index none found n ns h e = cc
length-add_index (some row) none n ns h e = cc
length-add_index (some row) (some js) n ns h e = let same = h js refl in grind arith

length-indices :
    (rs : List (List String)) (ns : List ℤ) → indices rs ≡ some ns → length rs ≡ length ns
length-indices [] ns e = grind arith
length-indices (r ∷ rs) ns e =
    length-add_index (read_row r) (indices rs) (length rs) ns (length-indices rs) e

conclude-Verdict :
    (expected : ℤ) (total : ℕ) (found : Option (List ℤ)) (last : Option Scan)
    → ((ns : List ℤ) → found ≡ some ns → total ≡ length ns)
    → Scanned empty_scan found last
    → Verdict found (conclude expected total last).exit
unfolding conclude
conclude-Verdict expected total none none len stopped = unreadable
conclude-Verdict expected total (some ns) (some last) len (ended e) =
    let (at_most, exact) = collect-Fresh ns [] in
    let all = len ns refl in
    let size = ap length e in
    elim (Bool-cases (total == length last.idx_seen)) [
      | inl same ↦ rw same (unique (exact.0 (ground arith)).0)
      | inr apart ↦ rw apart (repeated (λ d. let n = exact.1 (d, All-empty ns) in ground arith))
    ]
conclude-Verdict expected total none (some last) len h = elim h [ ]
conclude-Verdict expected total (some ns) none len h = elim h [ ]

-- For a table whose header has five fields at least, the exit code is 2 if some row has fewer than
-- five fields or an index that is no integer, else 0 if the indices are pairwise distinct, else 3.
-- The number of rows that is expected does not matter.
pub main-Verdict :
    (expected : ℤ) (header : List String) (rs : List (List String))
    → 5 ≤ length header
    → Verdict (indices rs) (main expected (some (header ∷ rs))).exit
unfolding main
main-Verdict expected header rs wide =
    let narrow : ltb (length header) 5 ≡ false = ground arith in
    rw narrow (
      conclude-Verdict expected (length rs) _ _ (length-indices rs)
        (scan_rows-Scanned 1 rs empty_scan))
