-- ===== src/Go/Float.antt =====
-- `int(float64(n) * p)` of Go for a constant `p` below 1: the product of two doubles, rounded to
-- 53 bits with ties to even, and cut down to an integer. A constant is its numerator over 2^53.
pub mod Below
use go_loadbalancer.Prelude.{
  ℕ, zero, suc, ◌+◌, ◌*◌, ◌/◌, ◌%◌, ◌^◌, ◌≤◌, ◌<◌, ◌≡◌, refl, arith, Bool, true, ◌&&◌, ltb,
  if◌then◌else◌,
}
use go_loadbalancer.Prelude.Map.{◌==◌, nat_key}

-- The doubles nearest to 0.50, 0.90, 0.95 and 0.99.
abbrev pub p50 : ℕ
p50 = 4503599627370496

abbrev pub p90 : ℕ
p90 = 8106479329266893

abbrev pub p95 : ℕ
p95 = 8556839292003942

abbrev pub p99 : ℕ
p99 = 8917127262193582

-- The weight of the last of the 53 bits of a product below `2 ^ (53 + fuel)`.
unit : ℕ → ℕ → ℕ → ℕ
unit zero product u = u
unit (suc fuel) product u =
    let wider = unit fuel product (2 * u) in if ltb product (2 ^ 53 * u) then u else wider

-- The quotient, rounded to the nearest, ties to even.
half_even : ℕ → ℕ → ℕ
half_even a u =
    if ltb (2 * (a % u)) u
    then a / u
    else if ltb u (2 * (a % u))
    then a / u + 1
    else a / u + a / u % 2

-- For `n` below 2^53 the product stays below 2^106, so 53 rounds are enough.
unfoldable pub int_product : ℕ → ℕ → ℕ
unfolding unit half_even
int_product n p = let u = unit 53 (n * p) 1 in half_even (n * p) u * u / 2 ^ 53

unfoldable pub all_below : ℕ → (ℕ → Bool) → Bool
all_below zero test = true
all_below (suc n) test = test n && all_below n test

pub all_below_sound :
    (n : ℕ) (test : ℕ → Bool) (x : ℕ) → all_below n test ≡ true → x < n → test x ≡ true
unfolding all_below
all_below_sound zero test x h lt = absurd (omega arith)
all_below_sound (suc n) test x h lt = ground (arith, all_below_sound n test x)

exact : ℕ → ℕ → ℕ → Bool
exact p percent n = int_product n p == n * percent / 100

table50 : all_below 1001 (exact p50 50) ≡ true
unfolding all_below exact int_product
table50 = refl

table95 : all_below 1001 (exact p95 95) ≡ true
unfolding all_below exact int_product
table95 = refl

table99 : all_below 1001 (exact p99 99) ≡ true
unfolding all_below exact int_product
table99 = refl

-- For at most 1000 samples the rounding of doubles never shows: the three indexes are the exact
-- ones, rounded down.
pub int_product_exact :
    (n : ℕ)
    → n ≤ 1000
    → (int_product n p50 ≡ n * 50 / 100)
      × (int_product n p95 ≡ n * 95 / 100)
      × (int_product n p99 ≡ n * 99 / 100)
unfolding exact
int_product_exact n h = (
  (nat_key.beq_iff _ _).0 (all_below_sound 1001 (exact p50 50) n table50 (omega arith)),
  (nat_key.beq_iff _ _).0 (all_below_sound 1001 (exact p95 95) n table95 (omega arith)),
  (nat_key.beq_iff _ _).0 (all_below_sound 1001 (exact p99 99) n table99 (omega arith)),
)
