-- ===== src/Scripts/CbCompare.antt =====
-- scripts/cbcompare.go: the test that is run with and without the circuit breaker, and what the report
-- says of the two results. What the HTTP client answers, and how long it takes, are arguments; a text
-- is the list of its bytes, since one that is too long is cut between bytes.
pub mod Counts
pub mod Latencies
pub mod Conclusions
pub mod Errors
mod Tests
use go_loadbalancer.Prelude.{
  ℕ, zero, suc, Bool, true, false, not, ◌&&◌, List, [], ◌∷◌, ◌++◌, Option, none, some, String,
  length, take, leb, if◌then◌else◌,
}
use go_loadbalancer.Prelude.Int.{ℤ, pos, negsuc, pos_part, ltb_ℤ, add64, sub64}
use go_loadbalancer.Prelude.Map.{Map, get, insert, ◌==◌, int_key}
use go_loadbalancer.Go.Crc.{bytes}
use go_loadbalancer.Go.Text.{append}
use go_loadbalancer.Go.Bytes.{bytes_key, contains}
use go_loadbalancer.Metrics.{average}
use go_loadbalancer.Scripts.LoadTest.{print_int}

pub record TestResult (F : Type 0) : Type 0 where
  pub name : List ℕ
  pub total_requests : ℤ
  pub successful_reqs : ℤ
  pub failed_reqs : ℤ
  pub total_duration : ℤ
  pub avg_latency : ℤ
  pub min_latency : ℤ
  pub max_latency : ℤ
  pub requests_per_sec : F
  pub error_messages : List (List ℕ)

-- What `client.Get` returns: an error with its text, or an answer with its status.
pub data Reply : Type 0 where
  no_answer : String → Reply
  answer : ℤ → Reply

pub record Sent : Type 0 where
  pub latency : ℤ
  pub reply : Reply

-- The variables of the loop; `kills` lists the numbers of the requests before which the backend was
-- killed, latest first.
pub record Progress (F : Type 0) : Type 0 where
  pub result : TestResult F
  pub latencies : List ℤ
  pub backend_killed : Bool
  pub kills : List ℕ

unfoldable pub truncate : List ℕ → ℕ → List ℕ
unfolding bytes
truncate s n = if leb (length s) n then s else take n s ++ bytes "..."

unfoldable pub error_message : List ℕ → List ℕ
unfolding contains truncate bytes
error_message text =
    if contains (bytes ":8080") text then bytes "LB connection refused" else truncate text 80

-- `time.Hour`
abbrev pub hour : ℤ
hour = pos 3600000000000

pub data Conclusion : Type 0 where
  improved unexpected : ℤ → Conclusion
  equally : Conclusion

-- Of the difference between the successes.
abbrev pub conclusion : ℤ → Conclusion
conclusion diff =
    if ltb_ℤ (pos 0) diff
    then improved diff
    else if diff == pos 0
    then equally
    else unexpected (sub64 (pos 0) diff)

module _ {F : Type 0} where
  abbrev pub failed : List ℕ → TestResult F → TestResult F
  failed message r = record r {
    failed_reqs = add64 r.failed_reqs (pos 1);
    error_messages = r.error_messages ++ (message ∷ []);
  }

  unfoldable pub counted : Reply → TestResult F → TestResult F
  unfolding error_message
  counted (no_answer text) r = failed (error_message (bytes text)) r
  counted (answer status) r =
      if ltb_ℤ status (pos 500)
      then record r { successful_reqs = add64 r.successful_reqs (pos 1) }
      else failed (bytes (append "HTTP " (print_int status))) r

  abbrev pub timed : ℤ → TestResult F → TestResult F
  timed latency r = record r {
    min_latency = if ltb_ℤ latency r.min_latency then latency else r.min_latency;
    max_latency = if ltb_ℤ r.max_latency latency then latency else r.max_latency;
  }

  -- Before request number `i`.
  abbrev pub kill_at : ℤ → ℕ → Progress F → Progress F
  kill_at kill_after i p =
      if (pos i == kill_after) && not p.backend_killed
      then record p { backend_killed = true; kills = i ∷ p.kills }
      else p

  abbrev pub noted : Sent → Progress F → Progress F
  noted sent p = record p {
    result = timed sent.latency (counted sent.reply p.result);
    latencies = p.latencies ++ (sent.latency ∷ []);
  }

  -- The turns of the loop from number `i`, of which `left` are left.
  unfoldable pub send_all : ℤ → (ℕ → Sent) → ℕ → ℕ → Progress F → Progress F
  unfolding counted
  send_all kill_after outcomes zero i p = p
  send_all kill_after outcomes (suc left) i p =
      send_all kill_after outcomes left (suc i) (noted (outcomes i) (kill_at kill_after i p))

  -- Before the loop; `no_rate` is the `float64` 0.
  abbrev pub started : F → List ℕ → ℤ → Progress F
  started no_rate name total = record {
    result = record {
      name = name;
      total_requests = total;
      successful_reqs = pos 0;
      failed_reqs = pos 0;
      total_duration = pos 0;
      avg_latency = pos 0;
      min_latency = hour;
      max_latency = pos 0;
      requests_per_sec = no_rate;
      error_messages = [];
    };
    latencies = [];
    backend_killed = false;
    kills = [];
  }

  -- After the loop. `average` is 0 of no latencies.
  abbrev pub finished : (ℤ → ℤ → F) → ℤ → ℤ → Progress F → TestResult F
  finished rate total duration p = record p.result {
    total_duration = duration;
    avg_latency = average p.latencies;
    requests_per_sec = rate total duration;
  }

  -- `rate` is the quotient of `float64(*totalReqs)` by the seconds of a duration.
  unfoldable pub run_test : F → (ℤ → ℤ → F) → List ℕ → ℤ → ℤ → (ℕ → Sent) → ℤ → TestResult F
  unfolding send_all
  run_test no_rate rate name total kill_after outcomes duration =
      finished rate total duration
        (send_all kill_after outcomes (pos_part total) 0 (started no_rate name total))

  -- Of the results with the breaker and without it.
  unfoldable pub conclude : TestResult F → TestResult F → Conclusion
  conclude with_cb without = conclusion (sub64 with_cb.successful_reqs without.successful_reqs)

abbrev pub mark_all : List (List ℕ) → Map (List ℕ) Bool → Map (List ℕ) Bool
mark_all [] m = m
mark_all (e ∷ es) m = mark_all es (insert e true m)

unfoldable pub count_unique : List (List ℕ) → ℕ
count_unique errors = length (mark_all errors [])

abbrev pub tally_all : List (List ℕ) → Map (List ℕ) ℤ → Map (List ℕ) ℤ
tally_all [] m = m
tally_all (e ∷ es) m = tally_all es (insert e (add64 (get (pos 0) e m) (pos 1)) m)

-- The map `counts` of `formatErrors`.
unfoldable pub error_counts : List (List ℕ) → Map (List ℕ) ℤ
error_counts errors = tally_all errors []

-- The turn at which `waitForLB` finds the balancer ready, none if it is not within 30.
unfoldable pub wait_for_lb : (ℕ → Bool) → ℕ → ℕ → Option ℕ
wait_for_lb ready zero i = none
wait_for_lb ready (suc left) i =
    let later = wait_for_lb ready left (suc i) in if ready i then some i else later
