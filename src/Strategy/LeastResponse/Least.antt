-- ===== src/Strategy/LeastResponse/Least.antt =====
-- What internal/strategy/leastresponse.go chooses.
use go_loadbalancer.Prelude.{
  ℕ, ◌≡◌, refl, ◌⊎◌, arith, true, false, List, [], ◌∷◌, Option, none, some, All, inl, inr,
  Bool-cases,
}
use go_loadbalancer.Prelude.Int.{ℤ, pos, ltb_ℤ, beq_ℤ}
use go_loadbalancer.Backend.{Store, ewma_time}
use go_loadbalancer.Strategy.Minimum.{IsFirstLeast, IsFirstLeast-replace, IsFirstLeast-keep}
use go_loadbalancer.Strategy.LeastResponse.{score, scan, select_backend}

module _ (store : Store) where
  abbrev pub score_of : ℕ → ℤ
  score_of b = score (store b)

  -- An average of 0: no sample yet, or samples of no duration.
  abbrev pub Unsampled : ℕ → Type 0
  Unsampled b = ewma_time (store b) ≡ pos 0

  -- `p` is the first unsampled backend of the list.
  abbrev pub IsFirstUnsampled : ℕ → List ℕ → Type 0
  IsFirstUnsampled p [] = ⊥
  IsFirstUnsampled p (x ∷ xs) = ((p ≡ x) × Unsampled p) ⊎ (¬ Unsampled x × IsFirstUnsampled p xs)

  Unsampled-test :
      (b : ℕ)
      → ((beq_ℤ (ewma_time (store b)) (pos 0) ≡ true) × Unsampled b)
        ⊎ ((beq_ℤ (ewma_time (store b)) (pos 0) ≡ false) × ¬ Unsampled b)
  Unsampled-test b = grind arith

  abbrev Found : ℕ → List ℕ → Option ℕ → Type 0
  Found c bs r =
      ((p : ℕ) × (r ≡ some p) × IsFirstUnsampled p bs)
      ⊎ ((p : ℕ) × (r ≡ some p) × All (λ q. ¬ Unsampled q) bs × IsFirstLeast score_of p (c ∷ bs))

  shift :
      (c b : ℕ) {d : ℕ} (bs : List ℕ) (r : Option ℕ)
      → ¬ Unsampled b
      → ((p : ℕ) → IsFirstLeast score_of p (d ∷ bs) → IsFirstLeast score_of p (c ∷ b ∷ bs))
      → Found d bs r
      → Found c (b ∷ bs) r
  shift c b bs r sampled up (inl (p, found, first)) = inl (p, found, inr (sampled, first))
  shift c b bs r sampled up (inr (p, found, all, least)) =
      inr (p, found, (sampled, all), up p least)

  scan-Found : (c : ℕ) (bs : List ℕ) → Found c bs (scan store (some c) (score_of c) bs)
  unfolding scan
  scan-Found c [] = inr (c, refl, tt, inl (refl, tt))
  scan-Found c (b ∷ bs) = elim (Unsampled-test b) [
    | inl (e, zero_average) ↦ rw e (inl (b, refl, inl (refl, zero_average)))
    | inr (e, sampled) ↦ rw e (elim (Bool-cases (ltb_ℤ (score_of b) (score_of c))) [
      | inl less ↦ rw less (
          shift c b bs _ sampled (λ p. IsFirstLeast-replace score_of p c b bs (ground arith))
            (scan-Found b bs))
      | inr more ↦ rw more (
          shift c b bs _ sampled (λ p. IsFirstLeast-keep score_of p c b bs (ground arith))
            (scan-Found c bs))
    ])
  ]

  -- The least-response strategy returns nil for no backends. Otherwise it returns the first backend
  -- whose average is 0, if there is one, and else the first with the least product of its average
  -- and its active connections plus one.
  pub quickest_response :
      (bs : List ℕ)
      → ((bs ≡ []) × (select_backend store bs ≡ none))
        ⊎ ((p : ℕ) × (select_backend store bs ≡ some p) × IsFirstUnsampled p bs)
        ⊎ ((p : ℕ) × (select_backend store bs ≡ some p)
            × All (λ q. ¬ Unsampled q) bs
            × IsFirstLeast score_of p bs)
  unfolding select_backend scan
  quickest_response [] = inl (refl, refl)
  quickest_response (b ∷ bs) = elim (Unsampled-test b) [
    | inl (e, zero_average) ↦ rw e (inr (inl (b, refl, inl (refl, zero_average))))
    | inr (e, sampled) ↦ rw e (elim (scan-Found b bs) [
      | inl (p, found, first) ↦ inr (inl (p, found, inr (sampled, first)))
      | inr (p, found, all, least) ↦ inr (inr (p, found, (sampled, all), least))
    ])
  ]
