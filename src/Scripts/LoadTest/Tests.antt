-- ===== src/Scripts/LoadTest/Tests.antt =====
-- A run of the load test with one worker and one request.
use go_loadbalancer.Prelude.{
  List, String, ◌+◌, ◌≤◌, ◌≡◌, refl, ◌⊎◌, ◌↔◌, none, arith, true, false, [], ◌∷◌, some, All,
}
use go_loadbalancer.Prelude.Int.{pos}
use go_loadbalancer.Prelude.Map.{insert, get}
use go_loadbalancer.Scripts.LoadTest.{
  Settings, Response, Pool, Move, finished, work, close_jobs, answer, step, advance, note_response,
  table, Reach, at_start, after,
}
use go_loadbalancer.Scripts.LoadTest.Ends.{run_ends}
use go_loadbalancer.Scripts.LoadTest.Summary.{summarize}
use go_loadbalancer.Scripts.LoadTest.Summary.Extremes.{Summarized, summarize-Summarized}
use go_loadbalancer.Scripts.LoadTest.Report.{overall, prints, exit_status}
use go_loadbalancer.Scripts.LoadTest.Report.Indexes.{overall-summarize}
use go_loadbalancer.Scripts.LoadTest.Report.Exit.{exit_status-Reach}
use go_loadbalancer.Scripts.LoadTest.Table.{main-table}
use go_loadbalancer.Scripts.CheckResults

abbrev settings : Settings
settings = record { requests = 1; kill_port = pos 0; kill_after = pos 50; csv = true }

abbrev response : Response
response = record { idx = 0; backend = "b"; status = pos 200; duration = pos 7 }

abbrev first : Move
first = work 0 (answer "b" (pos 200) (pos 7))

abbrev final : Pool
final = record {
  shared = record {
    next = 1;
    closed = true;
    backend_killed = false;
    total = 1;
    success = 1;
    failure = 0;
    all_latencies = pos 7 ∷ [];
    status_codes = (pos 200, 1) ∷ [];
    backend_stats =
        ("b", record { count = 1; success = 1; failure = 0; latencies = pos 7 ∷ [] }) ∷ [];
    rows = response ∷ [];
  };
  workers = finished ∷ [];
}

final-Reach : Reach settings 1 10 final
unfolding step advance note_response insert get
final-Reach =
    let taken : Reach settings 1 1 _ = after at_start first refl in
    let counted : Reach settings 1 3 _ = after (after taken first refl) first refl in
    let judged : Reach settings 1 6 _ =
      after (after (after counted first refl) first refl) first refl in
    let written : Reach settings 1 8 _ = after (after judged first refl) first refl in
    after (after written close_jobs refl) first refl

run_ends_example :
    (10 ≤ 10)
    × (((m : Move) × (q : Pool) × (step settings m final ≡ some q))
        ⊎ (All (λ w. w ≡ finished) final.workers
            × (final.shared.total ≡ 1)
            × (final.shared.success + final.shared.failure ≡ 1)))
run_ends_example = run_ends settings 1 10 final (omega arith) (omega arith) final-Reach

main-table_example :
    (rows : List (List String)) × (table settings (λ r. "t") (λ r. "7.000") final ≡ some rows)
    × ((CheckResults.main (pos 5) (some rows)).exit ≡ 0)
main-table_example =
    main-table settings 1 10 final (λ r. "t") (λ r. "7.000") (pos 5) (omega arith) refl final-Reach
      (refl, tt)

summarize-Summarized_example :
    Summarized (pos 3 ∷ pos 9 ∷ pos 5 ∷ []) (summarize (pos 3 ∷ pos 9 ∷ pos 5 ∷ []))
unfolding summarize
summarize-Summarized_example =
    summarize-Summarized (pos 3 ∷ pos 9 ∷ pos 5 ∷ []) (omega arith) (omega arith) (omega arith)

overall-summarize_example :
    overall (pos 3 ∷ pos 9 ∷ pos 5 ∷ []) ≡ prints (summarize (pos 3 ∷ pos 9 ∷ pos 5 ∷ []))
unfolding summarize
overall-summarize_example =
    overall-summarize (pos 3 ∷ pos 9 ∷ pos 5 ∷ []) (omega arith) (omega arith) (omega arith)

exit_status-Reach_example :
    ((exit_status none final.shared ≡ 0) ⊎ (exit_status none final.shared ≡ 2))
    × ((exit_status none final.shared ≡ 0) ↔ (final.shared.success ≡ 1))
exit_status-Reach_example =
    exit_status-Reach settings 1 10 final none (omega arith) (omega arith) (λ e. cc) final-Reach
      (refl, tt)
