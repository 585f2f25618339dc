-- ===== src/Go/Bytes.antt =====
-- Texts as lists of their bytes: the test for equality, so that they can be the keys of a map, and
-- `strings.Contains`.
use go_loadbalancer.Prelude.{
  ℕ, ◌≡◌, refl, subst, Bool, true, false, ◌&&◌, ◌||◌, List, [], ◌∷◌, inl, inr, Bool-cases, arith,
}
use go_loadbalancer.Prelude.Map.{Key, ◌==◌, nat_key}

unfoldable pub bytes_beq : List ℕ → List ℕ → Bool
bytes_beq [] [] = true
bytes_beq [] (y ∷ ys) = false
bytes_beq (x ∷ xs) [] = false
bytes_beq (x ∷ xs) (y ∷ ys) = (x == y) && bytes_beq xs ys

pub bytes_beq_refl : (xs : List ℕ) → bytes_beq xs xs ≡ true
unfolding bytes_beq
bytes_beq_refl [] = refl
bytes_beq_refl (x ∷ xs) = ground (arith, bytes_beq_refl xs)

pub bytes_beq_sound : (xs ys : List ℕ) → bytes_beq xs ys ≡ true → xs ≡ ys
unfolding bytes_beq
bytes_beq_sound [] [] e = refl
bytes_beq_sound [] (y ∷ ys) e = absurd cc
bytes_beq_sound (x ∷ xs) [] e = absurd cc
bytes_beq_sound (x ∷ xs) (y ∷ ys) e = elim (Bool-cases (x == y)) [
  | inl same ↦
      let tails = bytes_beq_sound xs ys (ground (arith, e, same)) in
      let heads = (nat_key.beq_iff x y).0 same in cc
  | inr other ↦ absurd (ground (arith, e, other))
]

instance abbrev pub bytes_key : Key (List ℕ)
bytes_key = record {
  beq = bytes_beq;
  beq_iff = λ xs ys.
      (bytes_beq_sound xs ys, λ e. subst (λ zs. bytes_beq xs zs ≡ true) e (bytes_beq_refl xs));
}

abbrev has_prefix : List ℕ → List ℕ → Bool
has_prefix [] s = true
has_prefix (p ∷ ps) [] = false
has_prefix (p ∷ ps) (c ∷ s) = (p == c) && has_prefix ps s

-- `strings.Contains(s, part)`
unfoldable pub contains : List ℕ → List ℕ → Bool
contains part [] = has_prefix part []
contains part (c ∷ s) = has_prefix part (c ∷ s) || contains part s
