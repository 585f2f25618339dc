-- ===== src/Scripts/CheckResults/Tests.antt =====
-- Runs of the check of the rows.
use go_loadbalancer.Prelude.{◌≡◌, refl, List, [], ◌∷◌, some, String, arith}
use go_loadbalancer.Prelude.Int.{pos}
use go_loadbalancer.Scripts.CheckResults.{main, scan_rows, read_row, note_row}
use go_loadbalancer.Prelude.Map.{insert}
use go_loadbalancer.Go.Atoi.{atoi}
use go_loadbalancer.Scripts.CheckResults.Verdict.{Verdict, indices, main-Verdict}

abbrev header : List String
header = "idx" ∷ "timestamp" ∷ "backend" ∷ "status" ∷ "duration_ms" ∷ []

abbrev rows : List (List String)
rows =
    ("0" ∷ "t0" ∷ "a" ∷ "200" ∷ "1.000" ∷ [])
    ∷ ("1" ∷ "t1" ∷ "b" ∷ "200" ∷ "2.000" ∷ [])
    ∷ ("0" ∷ "t2" ∷ "a" ∷ "502" ∷ "3.000" ∷ [])
    ∷ []

repeated_index : (main (pos 3) (some (header ∷ rows))).exit ≡ 3
unfolding main scan_rows read_row atoi note_row insert
repeated_index = refl

main-Verdict_example : Verdict (indices rows) (main (pos 5) (some (header ∷ rows))).exit
main-Verdict_example = main-Verdict (pos 5) header rows (omega arith)
