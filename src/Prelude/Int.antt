-- ===== src/Prelude/Int.antt =====
-- Signed integers over the native numbers, and the wrap-around of Go's 64-bit `int`, `int64` and
-- `time.Duration`. Sums and orders go through the two parts of an integer, which `omega` reads.
use Prim.Native.Nat.{ℕ, suc, ◌+◌, ◌-◌, ◌*◌, ◌%◌, ◌^◌, ◌≤◌, ◌<◌}
use mathlib.Core.Path.{◌≡◌, ◌∙◌}
use mathlib.Core.Bool.{Bool}
use native.Mathlib.Omega.{arith}
use go_loadbalancer.Prelude.Tests.{ltb, leb, nat_beq, if◌then◌else◌}

-- `negsuc n` is -(n + 1).
pub data ℤ : Type 0 where
  pos : ℕ → ℤ
  negsuc : ℕ → ℤ

abbrev pub pos_part : ℤ → ℕ
pos_part (pos n) = n
pos_part (negsuc n) = 0

abbrev pub neg_part : ℤ → ℕ
neg_part (pos n) = 0
neg_part (negsuc n) = suc n

-- a - b, as an integer.
abbrev pub sub_ℕ : ℕ → ℕ → ℤ
sub_ℕ a b = if leb b a then pos (a - b) else negsuc (b - a - 1)

infixl 65 ◌+ℤ◌ ◌-ℤ◌
infixl 70 ◌*ℤ◌
infix 50 ◌≤ℤ◌ ◌<ℤ◌
unfoldable pub ◌+ℤ◌ : ℤ → ℤ → ℤ
a +ℤ b = sub_ℕ (pos_part a + pos_part b) (neg_part a + neg_part b)

unfoldable pub ◌-ℤ◌ : ℤ → ℤ → ℤ
a -ℤ b = sub_ℕ (pos_part a + neg_part b) (neg_part a + pos_part b)

unfoldable pub ◌*ℤ◌ : ℤ → ℤ → ℤ
a *ℤ b =
    sub_ℕ (pos_part a * pos_part b + neg_part a * neg_part b)
      (pos_part a * neg_part b + neg_part a * pos_part b)

abbrev pub ◌≤ℤ◌ : ℤ → ℤ → Type 0
a ≤ℤ b = pos_part a + neg_part b ≤ pos_part b + neg_part a

abbrev pub ◌<ℤ◌ : ℤ → ℤ → Type 0
a <ℤ b = pos_part a + neg_part b < pos_part b + neg_part a

abbrev pub ltb_ℤ : ℤ → ℤ → Bool
ltb_ℤ a b = ltb (pos_part a + neg_part b) (pos_part b + neg_part a)

abbrev pub leb_ℤ : ℤ → ℤ → Bool
leb_ℤ a b = leb (pos_part a + neg_part b) (pos_part b + neg_part a)

abbrev pub beq_ℤ : ℤ → ℤ → Bool
beq_ℤ a b = nat_beq (pos_part a + neg_part b) (pos_part b + neg_part a)

pub +ℤ_parts :
    (a b : ℤ)
    → pos_part (a +ℤ b) + neg_part a + neg_part b ≡ neg_part (a +ℤ b) + pos_part a + pos_part b
unfolding ◌+ℤ◌
+ℤ_parts a b = ground arith

pub -ℤ_parts :
    (a b : ℤ)
    → pos_part (a -ℤ b) + neg_part a + pos_part b ≡ neg_part (a -ℤ b) + pos_part a + neg_part b
unfolding ◌-ℤ◌
-ℤ_parts a b = ground arith

pub eq_of_parts : (a b : ℤ) → pos_part a + neg_part b ≡ pos_part b + neg_part a → a ≡ b
eq_of_parts a b h = ground arith

pub ruleset int_laws = (arith, +ℤ_parts, -ℤ_parts, eq_of_parts)

-- The value that a 64-bit two's complement register holds for an integer.
unfoldable pub wrap : ℤ → ℤ
wrap a =
    let bits = (pos_part a % 2 ^ 64 + (2 ^ 64 - neg_part a % 2 ^ 64)) % 2 ^ 64 in
    if ltb bits (2 ^ 63) then pos bits else negsuc (2 ^ 64 - bits - 1)

-- `InRange a`: the integer fits a 64-bit register.
pub record InRange (a : ℤ) : Type 0 where
  pub above : neg_part a ≤ 2 ^ 63
  pub below : pos_part a < 2 ^ 63

pub InRange-of : (a : ℤ) → negsuc (2 ^ 63 - 1) ≤ℤ a → a <ℤ pos (2 ^ 63) → InRange a
InRange-of (pos n) lo hi = omega arith
InRange-of (negsuc n) lo hi = omega arith

-- Wrapping changes nothing that fits.
pub wrap_id : (a : ℤ) → InRange a → wrap a ≡ a
unfolding wrap
wrap_id (pos n) h = ground arith
wrap_id (negsuc n) h = ground arith

-- Go's `a + b`, `a - b`, `a * b`, `a++` on 64-bit integers.
unfoldable pub add64 : ℤ → ℤ → ℤ
unfolding wrap ◌+ℤ◌
add64 a b = wrap (a +ℤ b)

unfoldable pub sub64 : ℤ → ℤ → ℤ
unfolding wrap ◌-ℤ◌
sub64 a b = wrap (a -ℤ b)

unfoldable pub mul64 : ℤ → ℤ → ℤ
unfolding wrap ◌*ℤ◌
mul64 a b = wrap (a *ℤ b)

wrap_id_pos : (n : ℕ) (a : ℤ) → a ≡ pos n → n < 2 ^ 63 → wrap a ≡ a
wrap_id_pos n a e h = wrap_id a (rw e (record { above = omega arith; below = omega arith }))

pub add64_pos : (a b : ℕ) → a + b < 2 ^ 63 → add64 (pos a) (pos b) ≡ pos (a + b)
unfolding add64
add64_pos a b h =
    let sum : pos a +ℤ pos b ≡ pos (a + b) = eq_of_parts _ _ (omega int_laws) in
    wrap_id_pos (a + b) (pos a +ℤ pos b) sum h ∙ sum

pub sub64_pos : (a b : ℕ) → b ≤ a → a < 2 ^ 63 → sub64 (pos a) (pos b) ≡ pos (a - b)
unfolding sub64
sub64_pos a b le h =
    let difference : pos a -ℤ pos b ≡ pos (a - b) = eq_of_parts _ _ (omega int_laws) in
    wrap_id_pos (a - b) (pos a -ℤ pos b) difference (omega arith) ∙ difference

pub sub64_neg : (a b : ℕ) → a < b → b < 2 ^ 63 → sub64 (pos a) (pos b) ≡ negsuc (b - a - 1)
unfolding sub64
sub64_neg a b lt h =
    let difference : pos a -ℤ pos b ≡ negsuc (b - a - 1) = eq_of_parts _ _ (omega int_laws) in
    wrap_id (pos a -ℤ pos b) (rw difference (record { above = omega arith; below = omega arith }))
    ∙ difference

pub sub64_negsuc : (k : ℕ) → suc k < 2 ^ 63 → sub64 (pos 0) (negsuc k) ≡ pos (suc k)
unfolding sub64
sub64_negsuc k h =
    let opposite : pos 0 -ℤ negsuc k ≡ pos (suc k) = eq_of_parts _ _ (omega int_laws) in
    wrap_id_pos (suc k) (pos 0 -ℤ negsuc k) opposite h ∙ opposite
