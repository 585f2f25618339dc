-- ===== src/Handler/Goroutine/Tests.antt =====
-- A request over two backends, after the first of its steps.
use go_loadbalancer.Prelude.{◌+◌, ◌*◌, ◌≤◌, ◌≡◌, refl, ◌⊎◌, [], ◌∷◌, some, length}
use go_loadbalancer.Handler.State.{Exchange}
use go_loadbalancer.Handler.{begin, is_idempotent, max_attempts, rounds}
use go_loadbalancer.Prelude.Map.{get}
use go_loadbalancer.Handler.Tests.{library, store, handler, outcomes}
use go_loadbalancer.Handler.Goroutine.{looking, returned, Task, first, to, advance_in, advance}
use go_loadbalancer.Handler.Goroutine.Ends.{at_start, turn, request_ends}

abbrev looked_at_one : Task
looked_at_one = to (looking (1 ∷ []) (0 ∷ [])) (first "GET" handler)

request_ends_example :
    (1 ≤ rounds (max_attempts "GET" handler.max_retries) * (length handler.backends + 20) + 1)
    × ((looked_at_one.phase ≡ returned)
        ⊎ ((x : Exchange)
            → (a : Exchange × Task) × (advance library "10.0.0.1" outcomes x looked_at_one
                ≡ some a)))
unfolding advance advance_in max_attempts is_idempotent get
request_ends_example =
    request_ends library "10.0.0.1" "GET" outcomes handler 1 looked_at_one
      (turn at_start (begin handler store) (begin handler store) refl refl)
