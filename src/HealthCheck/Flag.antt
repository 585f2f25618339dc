-- ===== src/HealthCheck/Flag.antt =====
-- What the health flag says after the probes of internal/healthcheck/healthcheck.go.
use go_loadbalancer.Prelude.{
  ◌≡◌, refl, ap, ◌∙◌, ◌⊎◌, inl, inr, arith, Bool, false, List, [], ◌∷◌, ◌++◌, Bool-cases,
}
use go_loadbalancer.Prelude.Int.{ℤ, pos, ◌≤ℤ◌, ◌<ℤ◌, ltb_ℤ}
use go_loadbalancer.Prelude.Map.{◌==◌, nat_key}
use go_loadbalancer.Backend.{Backend}
use go_loadbalancer.Backend.Laws.{set_healthy_lem}
use go_loadbalancer.HealthCheck.{
  Probe, no_request, transport_error, answered, do_health_check, Round, done, tick, loop, goes,
  panics, health_check,
}

-- What a probe says of the backend: a verdict, unless the request could not be built.
abbrev pub verdicts : Probe → List Bool
verdicts no_request = []
verdicts transport_error = false ∷ []
verdicts (answered status) = (status == 200) ∷ []

-- The verdicts of the rounds before the context is done.
abbrev pub verdicts_of : List Round → List Bool
verdicts_of [] = []
verdicts_of (done ∷ rs) = []
verdicts_of (tick p ∷ rs) = verdicts p ++ verdicts_of rs

abbrev pub last_or : Bool → List Bool → Bool
last_or old [] = old
last_or old (v ∷ vs) = last_or v vs

do_health_check-verdicts :
    (p : Probe) (b : Backend)
    → do_health_check p b ≡ record b { is_healthy = last_or b.is_healthy (verdicts p) }
unfolding do_health_check
do_health_check-verdicts no_request b = refl
do_health_check-verdicts transport_error b = (set_healthy_lem false b).0
do_health_check-verdicts (answered status) b = (set_healthy_lem (status == 200) b).0

last_or-append :
    (old : Bool) (xs ys : List Bool) → last_or (last_or old xs) ys ≡ last_or old (xs ++ ys)
last_or-append old [] ys = refl
last_or-append old (x ∷ xs) ys = last_or-append x xs ys

loop-verdicts :
    (rs : List Round) (b : Backend)
    → loop rs b ≡ record b { is_healthy = last_or b.is_healthy (verdicts_of rs) }
unfolding loop
loop-verdicts [] b = refl
loop-verdicts (done ∷ rs) b = refl
loop-verdicts (tick p ∷ rs) b = rw (do_health_check-verdicts p b) (
    loop-verdicts rs (record b { is_healthy = last_or b.is_healthy (verdicts p) })
    ∙ ap (λ v. record b { is_healthy = v })
        (last_or-append b.is_healthy (verdicts p) (verdicts_of rs)))

probed-verdicts :
    (first : Probe) (rs : List Round) (b : Backend)
    → loop rs (do_health_check first b)
      ≡ record b { is_healthy = last_or b.is_healthy (verdicts first ++ verdicts_of rs) }
probed-verdicts first rs b = rw (do_health_check-verdicts first b) (
    loop-verdicts rs (record b { is_healthy = last_or b.is_healthy (verdicts first) })
    ∙ ap (λ v. record b { is_healthy = v })
        (last_or-append b.is_healthy (verdicts first) (verdicts_of rs)))

-- An interval that is positive lets the goroutine go into its loop; any other one makes it panic.
pub health_check_lem :
    (interval : ℤ) (first : Probe) (rs : List Round) (b : Backend)
    → ((pos 0 <ℤ interval)
        × (health_check interval first rs b ≡ goes (loop rs (do_health_check first b))))
      ⊎ ((interval ≤ℤ pos 0)
          × (health_check interval first rs b ≡ panics (do_health_check first b)))
unfolding health_check
health_check_lem interval first rs b = elim (Bool-cases (ltb_ℤ (pos 0) interval)) [
  | inl positive ↦ inl (ground (arith, positive), rw positive refl)
  | inr not_positive ↦ inr (ground (arith, not_positive), rw not_positive refl)
]

-- With a positive interval, after the first probe and any rounds, the flag is the verdict of the last
-- probe before the context was done whose request could be built: healthy exactly if the status was
-- 200. Without such a probe it is as before, and nothing else of the backend ever changes. With any
-- other interval the goroutine panics after the first probe, which alone has set the flag.
pub health_check-last_verdict :
    (interval : ℤ) (first : Probe) (rs : List Round) (b : Backend)
    → ((pos 0 <ℤ interval)
        × (health_check interval first rs b
            ≡ goes (record b {
              is_healthy = last_or b.is_healthy (verdicts first ++ verdicts_of rs);
            })))
      ⊎ ((interval ≤ℤ pos 0)
          × (health_check interval first rs b
              ≡ panics (record b { is_healthy = last_or b.is_healthy (verdicts first) })))
health_check-last_verdict interval first rs b = elim (health_check_lem interval first rs b) [
  | inl (positive, e) ↦ inl (positive, e ∙ ap goes (probed-verdicts first rs b))
  | inr (not_positive, e) ↦ inr (not_positive, e ∙ ap panics (do_health_check-verdicts first b))
]
