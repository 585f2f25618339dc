-- ===== src/Backend/Tests.antt =====
-- The theorems on a backend at concrete values.
use go_loadbalancer.Prelude.{◌≡◌, List, [], ◌∷◌, true}
use go_loadbalancer.Prelude.Int.{ℤ, pos, ◌+ℤ◌, ◌*ℤ◌}
use go_loadbalancer.Backend.{Float64, new, ewma_time}
use go_loadbalancer.Backend.Laws.{
  ewma_time-moving_average, Call, increments, decrements, sets_health, records, apply_all,
  moving_average, responses,
}

-- Tenths of the machine's numbers, without rounding of the sums.
abbrev tenths : Float64
tenths = record { F = ℤ; of_int = λ a. a; to_int = λ a. a; add = ◌+ℤ◌; mul = ◌*ℤ◌; constant = pos }

abbrev calls : List Call
calls = increments ∷ records (pos 100) ∷ decrements ∷ sets_health true ∷ records (pos 50) ∷ []

ewma_time-moving_average_example :
    ewma_time (apply_all tenths calls (new "http://a:1" (pos 2)))
    ≡ moving_average tenths (responses calls)
ewma_time-moving_average_example = ewma_time-moving_average tenths "http://a:1" (pos 2) calls
