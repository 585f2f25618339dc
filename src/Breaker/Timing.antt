-- ===== src/Breaker/Timing.antt =====
-- When an open circuit breaker lets requests through again (internal/circuitbreaker/breaker.go).
use go_loadbalancer.Prelude.{
  ℕ, ◌≤◌, ◌≡◌, refl, Bool, true, arith, List, [], ◌∷◌, inl, inr, map, Bool-cases,
}
use go_loadbalancer.Prelude.Int.{ℤ, ◌≤ℤ◌, leb_ℤ}
use go_loadbalancer.Breaker.{
  closed, open_, half_open, Breaker, allow, record_failure, record_success,
}

-- Moments that do not go back, from `start` on.
abbrev pub Ascending : ℕ → List ℕ → Type 0
Ascending start [] = Unit {0}
Ascending start (now ∷ later) = (start ≤ now) × Ascending now later

module _ (since : ℕ → ℕ → ℤ) where
  -- The answers of `Allow`, called at each moment in turn.
  unfoldable pub answers : List ℕ → Breaker → List Bool
  answers [] b = []
  answers (now ∷ later) b = (allow since now b).1 ∷ answers later (allow since now b).0

  -- Whether the reset timeout has passed since the last failure.
  abbrev pub timed_out : Breaker → ℕ → Bool
  timed_out b now = leb_ℤ b.reset_timeout (since now b.last_failure)

  all_timed_out :
      ((t now later : ℕ) → now ≤ later → since now t ≤ℤ since later t)
      → (moments : List ℕ) (b : Breaker) (now : ℕ) → timed_out b now ≡ true
      → Ascending now moments
      → b.state ≡ half_open
      → answers moments b ≡ map (timed_out b) moments
  unfolding answers allow
  all_timed_out mono [] b now h asc s = refl
  all_timed_out mono (m ∷ ms) b now h asc s = ground (
    arith,
    mono b.last_failure now m asc.0,
    all_timed_out mono ms b m (ground (arith, mono b.last_failure now m asc.0)) asc.1 s,
  )

  -- While nothing is recorded, an open breaker answers each of any number of calls, at moments that
  -- do not go back, by whether its reset timeout has passed: it refuses every call before, and
  -- admits every call after. (`time.Since` does not shrink as the clock goes on.)
  pub answers-open :
      ((t now later : ℕ) → now ≤ later → since now t ≤ℤ since later t)
      → (moments : List ℕ) (b : Breaker) (start : ℕ) → Ascending start moments
      → b.state ≡ open_
      → answers moments b ≡ map (timed_out b) moments
  unfolding answers allow
  answers-open mono [] b start asc s = refl
  answers-open mono (m ∷ ms) b start asc s = elim (Bool-cases (timed_out b m)) [
    | inl passed ↦
        ground (arith, all_timed_out mono ms (record b { state = half_open }) m passed asc.1 refl)
    | inr waiting ↦ ground (arith, answers-open mono ms b m asc.1 s)
  ]

  -- The trial of a half-open breaker: it is admitted; a failure opens the breaker again at once,
  -- whatever the threshold, and refuses every request until the timeout has passed anew; a success
  -- closes it, and the next request is admitted.
  pub half_open_trial :
      (b : Breaker) (now failed later : ℕ)
      → b.state ≡ half_open
      → ((allow since now b).1 ≡ true)
        × ((allow since later (record_failure failed (allow since now b).0)).1
            ≡ leb_ℤ b.reset_timeout (since later failed))
        × ((record_failure failed (allow since now b).0).state ≡ open_)
        × ((allow since later (record_success (allow since now b).0)).1 ≡ true)
        × ((record_success (allow since now b).0).state ≡ closed)
  unfolding allow record_failure record_success
  half_open_trial b now failed later s =
      (ground arith, ground arith, ground arith, ground arith, ground arith)
