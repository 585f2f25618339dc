-- ===== src/Handler/Goroutine/Ends.antt =====
-- Every goroutine of `ServeHTTP` (internal/handler/handler.go) returns, whatever the others do to what
-- they share between its steps.
use go_loadbalancer.Prelude.{
  ℕ, zero, suc, ◌+◌, ◌*◌, ◌≤◌, ◌<◌, ◌≡◌, refl, subst, ◌⊎◌, inl, inr, arith, List, [], ◌∷◌, some,
  String, length,
}
use go_loadbalancer.Prelude.Map.{string_key}
use go_loadbalancer.Prelude.Slots.{Holds-some}
use go_loadbalancer.Handler.State.{LoadBalancerHandler, Library, Outcome, Exchange}
use go_loadbalancer.Handler.{max_attempts, rounds}
use go_loadbalancer.Handler.Goroutine.{
  Phase, looking, choosing, reserving, asking, deciding, announcing, naming, counting, proxying,
  releasing, fetching, noting, completing, storing, failing, returned, Task, next_attempt, first,
  advance_in, advance,
}
use go_loadbalancer.Handler.Goroutine.Shorter.{later_steps, steps, Shorter, advance_in-Shorter}

-- A goroutine that has made `n` steps; before each of them the others may have left any state, with as
-- many backends.
pub data Turns (lib : Library) (ip : String) (outcomes : ℕ → Outcome) (backends : ℕ) (begun : Task)
    : ℕ → Task → Type 0 where
  at_start : Turns lib ip outcomes backends begun 0 begun
  turn :
      {n : ℕ} {t u : Task}
      → Turns lib ip outcomes backends begun n t
      → (x y : Exchange) → length x.handler.backends ≡ backends
      → advance lib ip outcomes x t ≡ some (y, u)
      → Turns lib ip outcomes backends begun (suc n) u

advance-fewer :
    (lib : Library) (ip : String) (outcomes : ℕ → Outcome) (x y : Exchange) (t u : Task)
    → advance lib ip outcomes x t ≡ some (y, u)
    → steps (length x.handler.backends) u < steps (length x.handler.backends) t
unfolding advance
advance-fewer lib ip outcomes x y t u e =
    Holds-some (Shorter t.phase x t) (advance lib ip outcomes x t)
      (advance_in-Shorter lib ip (outcomes t.number) t.phase x t) e

Turns-steps :
    (lib : Library) (ip : String) (outcomes : ℕ → Outcome) (backends : ℕ) (begun : Task) (n : ℕ)
    (t : Task)
    → Turns lib ip outcomes backends begun n t
    → n + steps backends t ≤ steps backends begun
Turns-steps lib ip outcomes backends begun n t at_start = omega arith
Turns-steps lib ip outcomes backends begun (suc n) u (turn {t = t} r x y same e) =
    let before = Turns-steps lib ip outcomes backends begun n t r in
    let fewer = subst (λ k. steps k u < steps k t) same (advance-fewer lib ip outcomes x y t u e) in
    omega (arith, before, fewer)

later_steps-product : (backends k : ℕ) → later_steps backends k ≡ k * (backends + 20)
later_steps-product backends zero = omega arith
later_steps-product backends (suc k) = grind (arith, later_steps-product backends k)

first-steps :
    (backends : List ℕ) (k : ℕ)
    → steps (length backends) (next_attempt backends k 1) ≤ k * (length backends + 20) + 1
first-steps backends zero = omega arith
first-steps backends (suc k) = omega (arith, later_steps-product (length backends) (suc k))

-- Until it has returned, a goroutine can always go on.
advance_in-some :
    (lib : Library) (ip : String) (o : Outcome) (p : Phase) (t : Task)
    → (p ≡ returned)
      ⊎ ((x : Exchange) → (a : Exchange × Task) × (advance_in lib ip o p x t ≡ some a))
unfolding advance_in
advance_in-some lib ip o (looking [] []) t = inr (λ x. (_, refl))
advance_in-some lib ip o (looking [] (c ∷ cs)) t = inr (λ x. (_, refl))
advance_in-some lib ip o (looking (b ∷ bs) found) t = inr (λ x. (_, refl))
advance_in-some lib ip o (choosing found) t = inr (λ x. (_, refl))
advance_in-some lib ip o (reserving b) t = inr (λ x. (_, refl))
advance_in-some lib ip o (asking b) t = inr (λ x. (_, refl))
advance_in-some lib ip o (deciding b url p) t = inr (λ x. (_, refl))
advance_in-some lib ip o (announcing b url) t = inr (λ x. (_, refl))
advance_in-some lib ip o (naming b url) t = inr (λ x. (_, refl))
advance_in-some lib ip o (counting b url) t = inr (λ x. (_, refl))
advance_in-some lib ip o (proxying b url) t = inr (λ x. (_, refl))
advance_in-some lib ip o (releasing b url w e) t = inr (λ x. (_, refl))
advance_in-some lib ip o (fetching b url w e) t = inr (λ x. (_, refl))
advance_in-some lib ip o (noting b url p w e) t = inr (λ x. (_, refl))
advance_in-some lib ip o (completing b url w) t = inr (λ x. (_, refl))
advance_in-some lib ip o (storing b) t = inr (λ x. (_, refl))
advance_in-some lib ip o failing t = inr (λ x. (_, refl))
advance_in-some lib ip o returned t = inl refl

-- A goroutine of `ServeHTTP` makes at most as many steps for each attempt as there are backends and 20
-- more, and one at the end, whatever the others do to what they share between its steps; and until it
-- has returned it is never blocked.
pub request_ends :
    (lib : Library) (ip method : String) (outcomes : ℕ → Outcome) (h : LoadBalancerHandler) (n : ℕ)
    (t : Task)
    → Turns lib ip outcomes (length h.backends) (first method h) n t
    → (n ≤ rounds (max_attempts method h.max_retries) * (length h.backends + 20) + 1)
      × ((t.phase ≡ returned)
          ⊎ ((x : Exchange) → (a : Exchange × Task) × (advance lib ip outcomes x t ≡ some a)))
unfolding advance
request_ends lib ip method outcomes h n t r =
    let few = Turns-steps lib ip outcomes (length h.backends) (first method h) n t r in
    let at_first = first-steps h.backends (rounds (max_attempts method h.max_retries)) in
    (omega (arith, few, at_first), advance_in-some lib ip (outcomes t.number) t.phase t)
