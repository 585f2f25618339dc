-- ===== src/Scripts/CbTest.antt =====
-- scripts/cbtest.go: its first two phases, up to the verdict on the retries. What the HTTP client answers
-- and what the commands return are arguments; what is printed is a result.
pub mod Hits
pub mod Phases
mod Tests
use go_loadbalancer.Prelude.{
  ℕ, zero, suc, Bool, true, false, List, [], ◌∷◌, Option, none, some, String, if◌then◌else◌,
}
use go_loadbalancer.Prelude.Int.{ℤ, pos, pos_part, ltb_ℤ, leb_ℤ, add64}
use go_loadbalancer.Prelude.Map.{Map, get, insert, ◌==◌, int_key, string_key}
use go_loadbalancer.Go.Text.{trim_space}

-- What `sendRequest` returns: an error, or the backend that answered with the status.
pub data Reply : Type 0 where
  error : Reply
  answer : String → ℤ → Reply

abbrev pub hit : Reply → Map String ℤ → Map String ℤ
hit error hits = hits
hit (answer backend status) hits =
    if leb_ℤ (pos 500) status
    then hits
    else insert backend (add64 (get (pos 0) backend hits) (pos 1)) hits

-- The first phase from request number `i`, of which `left` are left.
unfoldable pub backend_hits : (ℕ → Reply) → ℕ → ℕ → Map String ℤ → Map String ℤ
unfolding insert get add64
backend_hits replies zero i hits = hits
backend_hits replies (suc left) i hits = backend_hits replies left (suc i) (hit (replies i) hits)

abbrev pub succeed : Reply → ℤ → ℤ
succeed error n = n
succeed (answer backend status) n = if ltb_ℤ status (pos 500) then add64 n (pos 1) else n

-- The second phase.
unfoldable pub success_count : (ℕ → Reply) → ℕ → ℕ → ℤ → ℤ
unfolding add64
success_count replies zero i n = n
success_count replies (suc left) i n = success_count replies left (suc i) (succeed (replies i) n)

pub data KillError : Type 0 where
  no_process : KillError
  not_killed : String → KillError

abbrev pub kill_pid : (String → Option String) → String → Option KillError
kill_pid kill pid =
    if pid == ""
    then some no_process
    else elim (kill pid) [ none ↦ none | some e ↦ some (not_killed e) ]

-- The output of `lsof`, none for its error, and the error of `kill`.
unfoldable pub kill_backend : Option String → (String → Option String) → Option KillError
unfolding trim_space
kill_backend none kill = some no_process
kill_backend (some output) kill = kill_pid kill (trim_space output)

-- What is reported of the second phase: whether the kill failed, the number of successes, and whether
-- all requests succeeded.
pub record Retried : Type 0 where
  pub warning : Option KillError
  pub successes : ℤ
  pub all_succeeded : Bool

-- `exits` is `os.Exit(1)`; none for a second phase that is skipped.
pub data Report : Type 0 where
  exits : Report
  goes_on : Map String ℤ → Option Retried → Report

abbrev pub retried : ℤ → (ℕ → Reply) → Option KillError → Retried
retried requests replies warning =
    let n = success_count replies (pos_part requests) 0 (pos 0) in
    record { warning = warning; successes = n; all_succeeded = n == requests }

abbrev pub after_hits : Bool → ℤ → (ℕ → Reply) → Option KillError → Map String ℤ → Report
after_hits skip_kill requests later killed [] = exits
after_hits skip_kill requests later killed (h ∷ hits) =
    goes_on (h ∷ hits) (if skip_kill then none else some (retried requests later killed))

-- The replies of the first phase and of the second one, and what `killBackend` returned.
unfoldable pub phases : Bool → ℤ → (ℕ → Reply) → (ℕ → Reply) → Option KillError → Report
unfolding backend_hits success_count
phases skip_kill requests before later killed =
    after_hits skip_kill requests later killed (backend_hits before (pos_part requests) 0 [])
