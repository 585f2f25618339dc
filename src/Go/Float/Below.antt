-- ===== src/Go/Float/Below.antt =====
-- The bound of a product with a constant below 1, for an index from it.
use go_loadbalancer.Prelude.{
  ℕ, zero, suc, ◌+◌, ◌*◌, ◌/◌, ◌%◌, ◌^◌, ◌≤◌, ◌<◌, ◌≡◌, ◌-◌, subst, refl, ◌⊎◌, inl, inr, arith,
  Bool-cases, ltb,
}
use native.Mathlib.Nat.{div-add-mod'}
use go_loadbalancer.Prelude.Map.{◌==◌, nat_key}
use go_loadbalancer.Go.Float.{unit, half_even, int_product}

-- A unit wider than the first one is at most a part of 2^52 of the product.
unit-fits :
    (fuel product u : ℕ) → (unit fuel product u ≡ u) ⊎ (2 ^ 52 * unit fuel product u ≤ product)
unfolding unit
unit-fits zero product u = inl refl
unit-fits (suc fuel) product u = elim (Bool-cases (ltb product (2 ^ 53 * u))) [
  | inl fits ↦ rw fits (inl refl)
  | inr over ↦ rw over (
      inr (elim (unit-fits fuel product (2 * u)) [ inl e ↦ ground (arith, over, e) | inr le ↦ le ]))
]

half_even-cases :
    (a u : ℕ) → (half_even a u ≡ a / u) ⊎ ((half_even a u ≡ a / u + 1) × (u ≤ 2 * (a % u)))
unfolding half_even
half_even-cases a u = elim (Bool-cases (ltb (2 * (a % u)) u)) [
  | inl down ↦ rw down (inl refl)
  | inr not_down ↦ elim (Bool-cases (ltb u (2 * (a % u)))) [
    | inl up ↦ rw (not_down, up) (inr (refl, ground (arith, up)))
    | inr tie ↦
        rw (not_down, tie)
          (elim (Bool-cases (a / u % 2 == 0)) [
            | inl even ↦ inl (ground (arith, even))
            | inr odd ↦ inr (ground (arith, odd), ground (arith, not_down))
          ])
  ]
]

half_even-le : (a u : ℕ) → 2 * (half_even a u * u) ≤ 2 * a + u
half_even-le a u =
    let parts = div-add-mod' a u in
    elim (half_even-cases a u) [
      | inl e ↦ rw e (omega (arith, parts))
      | inr (e, half) ↦
          let product : (a / u + 1) * u ≡ a / u * u + u = grind arith in
          rw e (omega (arith, parts, product, half))
    ]

room : (n p : ℕ) → p < 2 ^ 53 → n * p + n ≤ 2 ^ 53 * n
room n p below =
    let d = 2 ^ 53 - p - 1 in
    let whole : p + 1 + d ≡ 2 ^ 53 = omega (arith, below) in
    let product : n * (p + 1 + d) ≡ n * p + n + n * d = grind arith in
    let full : n * 2 ^ 53 ≡ n * p + n + n * d =
      subst (λ k. n * k ≡ n * p + n + n * d) whole product in
    omega (arith, full)

bounded :
    (n p u m : ℕ)
    → p < 2 ^ 53
    → 2 * m ≤ 2 * (n * p) + u
    → (u ≡ 1) ⊎ (2 ^ 52 * u ≤ n * p)
    → m / 2 ^ 53 ≤ n
bounded n p u m below at_most (inl e) = omega (arith, room n p below, at_most, e)
bounded n p u m below at_most (inr wide) = omega (arith, room n p below, at_most, wide)

-- The index is never above the number.
pub int_product-le : (n p : ℕ) → p < 2 ^ 53 → int_product n p ≤ n
unfolding int_product
int_product-le n p below =
    let u = unit 53 (n * p) 1 in
    bounded n p u (half_even (n * p) u * u) below (half_even-le (n * p) u) (unit-fits 53 (n * p) 1)
