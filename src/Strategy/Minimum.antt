-- ===== src/Strategy/Minimum.antt =====
-- The first element with the least score: what the two scans for a least value promise.
use go_loadbalancer.Prelude.{ℕ, ◌≡◌, List, [], ◌∷◌, In, All, ◌⊎◌, inl, inr, arith}
use go_loadbalancer.Prelude.Int.{ℤ, ◌≤ℤ◌, ◌<ℤ◌}

module _ (score : ℕ → ℤ) where
  -- `p` stands in the list, all before it score more, and none behind it scores less.
  abbrev pub IsFirstLeast : ℕ → List ℕ → Type 0
  IsFirstLeast p [] = ⊥
  IsFirstLeast p (x ∷ xs) =
      ((p ≡ x) × All (λ q. score p ≤ℤ score q) xs) ⊎ ((score p <ℤ score x) × IsFirstLeast p xs)

  pub IsFirstLeast-In : (p : ℕ) (xs : List ℕ) → IsFirstLeast p xs → In p xs
  IsFirstLeast-In p [] h = elim h [ ]
  IsFirstLeast-In p (x ∷ xs) (inl h) = inl h.0
  IsFirstLeast-In p (x ∷ xs) (inr h) = inr (IsFirstLeast-In p xs h.1)

  -- A scan that meets `b` with less than the best so far goes on from `b`.
  pub IsFirstLeast-replace :
      (p c b : ℕ) (xs : List ℕ)
      → score b <ℤ score c
      → IsFirstLeast p (b ∷ xs)
      → IsFirstLeast p (c ∷ b ∷ xs)
  IsFirstLeast-replace p c b xs h (inl (e, all)) = inr (rw e h, inl (e, all))
  IsFirstLeast-replace p c b xs h (inr (lt, least)) = inr (omega arith, inr (lt, least))

  -- A scan that meets no less stays with the best so far.
  pub IsFirstLeast-keep :
      (p c b : ℕ) (xs : List ℕ)
      → score c ≤ℤ score b
      → IsFirstLeast p (c ∷ xs)
      → IsFirstLeast p (c ∷ b ∷ xs)
  IsFirstLeast-keep p c b xs h (inl (e, all)) = inl (e, (rw e h, all))
  IsFirstLeast-keep p c b xs h (inr (lt, least)) = inr (lt, inr (omega arith, least))
