-- ===== src/Scripts/CbTest/Tests.antt =====
-- Two requests in each phase, of which one in the second phase fails.
use go_loadbalancer.Prelude.{ℕ, ◌≡◌, refl, arith, false, none, some, if◌then◌else◌}
use go_loadbalancer.Prelude.Int.{pos}
use go_loadbalancer.Prelude.Map.{◌==◌, nat_key, string_key}
use go_loadbalancer.Go.Text.{is_space}
use go_loadbalancer.Scripts.CbTest.{Reply, answer, no_process, not_killed, kill_backend, phases}
use go_loadbalancer.Scripts.CbTest.Phases.{Reported, phases-Reported}

abbrev before : ℕ → Reply
before i = answer (if i == 0 then "http://a:1" else "http://b:1") (pos 404)

abbrev later : ℕ → Reply
later i = answer "http://a:1" (if i == 0 then pos 200 else pos 503)

phases-Reported_example :
    Reported 2 before later none false (phases false (pos 2) before later none)
phases-Reported_example = phases-Reported 2 before later none false (omega arith)

nobody_listens : kill_backend (some "\n") (λ pid. none) ≡ some no_process
unfolding kill_backend is_space
nobody_listens = refl

two_listen :
    kill_backend (some "17\n18\n") (λ pid. if pid == "17\n18" then some "bad pid" else none)
    ≡ some (not_killed "bad pid")
unfolding kill_backend is_space
two_listen = refl
