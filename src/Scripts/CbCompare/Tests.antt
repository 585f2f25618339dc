-- ===== src/Scripts/CbCompare/Tests.antt =====
-- A run of three requests, of which the second gets no answer and the third a 503, against one in which
-- all are answered.
use go_loadbalancer.Prelude.{ℕ, ◌-◌, ◌≡◌, refl, arith, List, if◌then◌else◌}
use go_loadbalancer.Prelude.Int.{ℤ, pos, ◌-ℤ◌}
use go_loadbalancer.Prelude.Map.{◌==◌, nat_key}
use go_loadbalancer.Go.Bytes.{bytes_key}
use go_loadbalancer.Go.Crc.{bytes}
use go_loadbalancer.Scripts.CbCompare.{
  Sent, no_answer, answer, send_all, started, run_test, truncate, error_message, conclude,
}
use go_loadbalancer.Scripts.CbCompare.Counts.{Counted, failures, kills_before, run_test-Counted}
use go_loadbalancer.Scripts.CbCompare.Conclusions.{Concluded, run_test-Concluded}

-- As if floats were integers.
abbrev rate : ℤ → ℤ → ℤ
rate = ◌-ℤ◌

abbrev name : List ℕ
name = bytes "With Circuit Breaker"

abbrev outcomes : ℕ → Sent
outcomes i =
    if i == 1
    then record {
      latency = pos 9;
      reply = no_answer "dial tcp 127.0.0.1:8080: connect: connection refused";
    }
    else if i == 2
    then record { latency = pos 4; reply = answer (pos 503) }
    else record { latency = pos 7; reply = answer (pos 200) }

abbrev answered : ℕ → Sent
answered i = record { latency = pos 2; reply = answer (pos 201) }

refused : error_message (bytes "dial tcp 127.0.0.1:8080: connect") ≡ bytes "LB connection refused"
unfolding error_message bytes
refused = refl

cut_off : truncate (bytes "timeout") 4 ≡ bytes "time..."
unfolding truncate bytes
cut_off = refl

run_test-Counted_example :
    Counted
      (3 - failures outcomes 3 0)
      (failures outcomes 3 0)
      (run_test (pos 0) rate name (pos 3) (pos 1) outcomes (pos 20))
    × ((send_all (pos 1) outcomes 3 0 (started (pos 0) name (pos 3))).kills
        ≡ kills_before (pos 1) 3)
run_test-Counted_example =
    run_test-Counted (pos 0) rate name 3 (pos 1) outcomes (pos 20) (omega arith)

run_test-Concluded_example : Concluded (failures answered 3 0) (failures outcomes 3 0) (
    conclude
      (run_test (pos 0) rate name (pos 3) (pos 1) answered (pos 20))
      (run_test (pos 0) rate name (pos 3) (pos 1) outcomes (pos 20)))
run_test-Concluded_example =
    run_test-Concluded (pos 0) rate name name 3 (pos 1) answered outcomes (pos 20) (pos 20)
      (omega arith)
