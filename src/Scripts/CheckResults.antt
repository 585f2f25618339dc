-- ===== src/Scripts/CheckResults.antt =====
-- scripts/check_results.go: the check of the rows that the load test wrote. Opening and reading the
-- file is the argument `rows`, none for an error; what is printed is part of the report.
pub mod Verdict
mod Tests
use go_loadbalancer.Prelude.{
  ℕ, suc, ◌+◌, ◌-◌, Bool, true, false, not, ◌&&◌, List, [], ◌∷◌, ◌++◌, Option, none, some, String,
  length, ltb, if◌then◌else◌,
}
use go_loadbalancer.Prelude.Int.{ℤ, pos, ltb_ℤ, beq_ℤ, add64}
use go_loadbalancer.Prelude.Map.{Map, get, insert, ◌==◌, string_key, nat_key, int_key}
use go_loadbalancer.Go.Atoi.{atoi}

-- The state of the loop: the indices seen, the counts, and the rows reported as duplicates.
pub record Scan : Type 0 where
  pub idx_seen : Map ℤ Bool
  pub backend_counts : Map String ℤ
  pub duplicates : List (ℤ × ℕ)

-- The exit code, and what is printed.
pub record Report : Type 0 where
  pub exit : ℕ
  pub duplicates : List (ℤ × ℕ)
  pub count_warning : Bool
  pub backend_counts : Map String ℤ

-- A row is cut into `idx`, `timestamp`, `backend`, `status`, `duration_ms` and any more; none if it
-- has fewer than five fields or the index is no number.
unfoldable pub read_row : List String → Option (ℤ × String)
read_row (idx ∷ timestamp ∷ backend ∷ status ∷ duration ∷ rest) = elim (atoi idx) [
  | none ↦ none
  | some i ↦ some (i, backend)
]
read_row _ = none

-- The body of the loop, for a row that could be read.
unfoldable pub note_row : ℕ → ℤ × String → Scan → Scan
unfolding add64
note_row i (idx, backend) s = record {
  idx_seen = insert idx true s.idx_seen;
  backend_counts =
      insert backend (add64 (get (pos 0) backend s.backend_counts) (pos 1)) s.backend_counts;
  duplicates = if get false idx s.idx_seen then s.duplicates ++ ((idx, i) ∷ []) else s.duplicates;
}

unfoldable pub scan_rows : ℕ → List (List String) → Scan → Option Scan
scan_rows i [] s = some s
scan_rows i (r ∷ rs) s = elim (read_row r) [
  | none ↦ none
  | some row ↦ scan_rows (suc i) rs (note_row i row s)
]

abbrev pub empty_scan : Scan
empty_scan = record { idx_seen = []; backend_counts = []; duplicates = [] }

abbrev pub failure : Report
failure = record { exit = 2; duplicates = []; count_warning = false; backend_counts = [] }

-- After the loop.
unfoldable pub conclude : ℤ → ℕ → Option Scan → Report
conclude expected total none = failure
conclude expected total (some s) = record {
  exit = if total == length s.idx_seen then 0 else 3;
  duplicates = s.duplicates;
  count_warning = ltb_ℤ (pos 0) expected && not (beq_ℤ (pos total) expected);
  backend_counts = s.backend_counts;
}

unfoldable pub main : ℤ → Option (List (List String)) → Report
unfolding conclude
main expected none = failure
main expected (some []) = failure
main expected (some (header ∷ rows)) =
    if ltb (length header) 5
    then failure
    else conclude expected (length rows) (scan_rows 1 rows empty_scan)
