-- ===== src/Prelude/Slots.antt =====
-- A list of slots of which a step changes one, what the slots add up to, and what holds of the result
-- of a step that may be impossible.
use Prim.Native.Nat.{ℕ, zero, suc, ◌+◌}
use mathlib.Core.Path.{◌≡◌, refl, ap, subst}
use mathlib.Core.List.{List, [], ◌∷◌, ◌++◌}
use mathlib.Core.Option.{Option, none, some}
use native.Mathlib.Omega.{arith}
use go_loadbalancer.Prelude.Lists.{length, get_elem?, All}

-- What holds of the value, if there is one.
abbrev pub Holds : {A : Type 0} → (A → Type 0) → Option A → Type 0
Holds P none = Unit {0}
Holds P (some a) = P a

pub Holds-some : {A : Type 0} (P : A → Type 0) (o : Option A) {a : A} → Holds P o → o ≡ some a → P a
Holds-some P o h e = subst (Holds P) e h

module _ {A : Type 0} where
  abbrev pub set_elem : List A → ℕ → A → List A
  set_elem [] k a = []
  set_elem (x ∷ xs) zero a = a ∷ xs
  set_elem (x ∷ xs) (suc k) a = x ∷ set_elem xs k a

  abbrev pub sum_of : (A → ℕ) → List A → ℕ
  sum_of f [] = 0
  sum_of f (w ∷ ws) = f w + sum_of f ws

  -- What the others have.
  pub sum_of-set_elem :
      (f : A → ℕ) (ws : List A) (k : ℕ) (v w : A)
      → get_elem? ws k ≡ some w
      → (others : ℕ) × (sum_of f ws ≡ others + f w) × (sum_of f (set_elem ws k v) ≡ others + f v)
  sum_of-set_elem f [] k v w e = cc
  sum_of-set_elem f (x ∷ ws) zero v w e =
      let same : x ≡ w = cc in (sum_of f ws, rw same (omega arith), omega arith)
  sum_of-set_elem f (x ∷ ws) (suc k) v w e =
      let (others, before, later) = sum_of-set_elem f ws k v w e in
      (f x + others, omega (arith, before), omega (arith, later))

  pub sum_of-append : (f : A → ℕ) (xs ys : List A) → sum_of f (xs ++ ys) ≡ sum_of f xs + sum_of f ys
  sum_of-append f [] ys = omega arith
  sum_of-append f (x ∷ xs) ys = omega (arith, sum_of-append f xs ys)

  pub length-set_elem : (xs : List A) (k : ℕ) (a : A) → length (set_elem xs k a) ≡ length xs
  length-set_elem [] k a = refl
  length-set_elem (x ∷ xs) zero a = refl
  length-set_elem (x ∷ xs) (suc k) a = ap suc (length-set_elem xs k a)

  pub All-set_elem :
      (P : A → Type 0) (xs : List A) (k : ℕ) (a : A) → All P xs → P a → All P (set_elem xs k a)
  All-set_elem P [] k a all h = tt
  All-set_elem P (x ∷ xs) zero a all h = (h, all.1)
  All-set_elem P (x ∷ xs) (suc k) a all h = (all.0, All-set_elem P xs k a all.1 h)

  pub All-append : (P : A → Type 0) (xs ys : List A) → All P xs → All P ys → All P (xs ++ ys)
  All-append P [] ys all h = h
  All-append P (x ∷ xs) ys all h = (all.0, All-append P xs ys all.1 h)

  pub Holds-map : (P Q : A → Type 0) (o : Option A) → ((a : A) → P a → Q a) → Holds P o → Holds Q o
  Holds-map P Q none f h = tt
  Holds-map P Q (some a) f h = f a h
