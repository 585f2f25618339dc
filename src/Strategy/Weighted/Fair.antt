-- ===== src/Strategy/Weighted/Fair.antt =====
-- The invariant of the entries that internal/strategy/weighted_round_robin.go keeps, over backends
-- that stay available.
use go_loadbalancer.Prelude.{
  ℕ, zero, suc, ◌+◌, ◌*◌, ◌^◌, ◌≤◌, ◌<◌, ◌≡◌, refl, ap, ◌∙◌, inl, inr, arith, List, [], ◌∷◌, Option,
  In, Distinct, length, Bool-cases,
}
use go_loadbalancer.Prelude.Int.{
  ℤ, pos, negsuc, ◌≤ℤ◌, ◌<ℤ◌, ◌+ℤ◌, ◌-ℤ◌, pos_part, neg_part, InRange-of, ltb_ℤ, int_laws,
  eq_of_parts,
}
use go_loadbalancer.Prelude.Map.{◌==◌, nat_key, get}
use go_loadbalancer.Backend.{Store}
use go_loadbalancer.Strategy.Weighted.{Current, new, at, select_backend}
use go_loadbalancer.Strategy.Weighted.Visits.{weight_of, total}
use go_loadbalancer.Strategy.Weighted.Step.{Selected, Ready, select_backend-Selected}
use go_loadbalancer.Strategy.Weighted.Sums.{
  sum_of, sum_of-+ℤ, sum_of_nonpos, sum_of_nonneg, term-le-sum_of, sum_of_pay,
}

-- Backends that stand once in the list, with positive weights, and sums that fit an `int`.
pub record Weights (store : Store) (bs : List ℕ) : Type 0 where
  pub distinct : Distinct bs
  pub weighted : 0 < length bs
  pub positive : (b : ℕ) → In b bs → pos 0 <ℤ weight_of store b
  pub fits : (length bs + 1) * pos_part (total store bs) < 2 ^ 63

-- What holds between two selections: the entries add up to 0, and each lies above minus the sum of
-- the weights.
pub record Balanced (store : Store) (bs : List ℕ) (m : Current) : Type 0 where
  pub low : (b : ℕ) → In b bs → pos 0 -ℤ total store bs <ℤ at m b
  pub zero_sum : sum_of (at m) bs ≡ pos 0

total-sum_of : (store : Store) (bs : List ℕ) → total store bs ≡ sum_of (weight_of store) bs
unfolding total sum_of
total-sum_of store [] = refl
total-sum_of store (b ∷ bs) = ap (λ a. weight_of store b +ℤ a) (total-sum_of store bs)

sum_of_shift :
    (f : ℕ → ℤ) (bs : List ℕ) (w : ℕ)
    → let g = sum_of (λ b. f b +ℤ pos w) bs in
      pos_part g + neg_part (sum_of f bs) ≡ neg_part g + pos_part (sum_of f bs) + length bs * w
unfolding sum_of
sum_of_shift f [] w = omega arith
sum_of_shift f (b ∷ bs) w = omega (int_laws, sum_of_shift f bs w)

pub nonneg_part : (a : ℤ) → pos 0 ≤ℤ a → neg_part a ≡ 0
nonneg_part (pos n) h = refl
nonneg_part (negsuc n) h = omega arith

module _ (store : Store) (bs : List ℕ) (ws : Weights store bs) where
  weights_nonneg : pos 0 ≤ℤ total store bs
  weights_nonneg =
      rw (total-sum_of store bs)
        (sum_of_nonneg (weight_of store) bs (λ b i. omega (arith, ws.positive b i)))

  weight-le-total : (b : ℕ) → In b bs → weight_of store b ≤ℤ total store bs
  weight-le-total b i =
      rw (total-sum_of store bs)
        (term-le-sum_of (weight_of store) bs b (λ q j. omega (arith, ws.positive q j)) i)

  pub total_neg : neg_part (total store bs) ≡ 0
  total_neg = nonneg_part _ weights_nonneg

  pub total_pos : (b : ℕ) → In b bs → 0 < pos_part (total store bs)
  total_pos b i = omega (arith, ws.positive b i, weight-le-total b i, total_neg)

  -- No entry exceeds what the other backends can owe.
  pub high :
      (m : Current) (b : ℕ)
      → Balanced store bs m
      → In b bs
      → pos_part (at m b) + pos_part (total store bs)
        ≤ neg_part (at m b) + length bs * pos_part (total store bs)
  high m b bal i =
      let w = pos_part (total store bs) in
      let top =
        term-le-sum_of (λ q. at m q +ℤ pos w) bs b (λ q j. omega (int_laws, bal.low q j, total_neg))
          i in
      omega (
        int_laws,
        top,
        sum_of_shift (at m) bs w,
        ap pos_part bal.zero_sum,
        ap neg_part bal.zero_sum,
      )

  -- With at least one backend.
  total-le-product : pos_part (total store bs) ≤ length bs * pos_part (total store bs)
  total-le-product = product (length bs) (pos_part (total store bs)) ws.weighted
    where
      product : (n w : ℕ) → 0 < n → w ≤ n * w
      product (suc n) w h = omega arith
      product zero w h = absurd (omega arith)

  pub Balanced-Ready : (m : Current) → Balanced store bs m → Ready store bs m
  Balanced-Ready m bal = record {
    distinct = ws.distinct;
    weighted = ws.weighted;
    positive = ws.positive;
    small = omega (arith, ws.fits, total_neg, total-le-product);
    sums = λ b i.
        let below = high m b bal i in
        let above = bal.low b i in
        let light = weight-le-total b i in
        let weight = ws.positive b i in
        InRange-of _ (omega (int_laws, ws.fits, total_neg, total-le-product))
          (omega (int_laws, ws.fits, total_neg, total-le-product));
    rests = λ b i.
        let below = high m b bal i in
        let above = bal.low b i in
        let light = weight-le-total b i in
        let weight = ws.positive b i in
        InRange-of _ (omega (int_laws, ws.fits, total_neg, total-le-product))
          (omega (int_laws, ws.fits, total_neg, total-le-product));
  }

  pub new-Balanced : Balanced store bs new
  unfolding new get
  new-Balanced = record {
    low = λ b i. omega (int_laws, total_pos b i, total_neg);
    zero_sum = zeros bs;
  }
    where
      zeros : (xs : List ℕ) → sum_of (λ b. pos 0) xs ≡ pos 0
      zeros xs = eq_of_parts _ _ (
          omega (
            int_laws,
            sum_of_nonpos (λ b. pos 0) xs (λ b i. omega arith),
            sum_of_nonneg (λ b. pos 0) xs (λ b i. omega arith),
          ))

  grown_sum :
      (m : Current)
      → Balanced store bs m
      → sum_of (λ b. at m b +ℤ weight_of store b) bs ≡ total store bs
  grown_sum m bal =
      sum_of-+ℤ (at m) (weight_of store) bs
      ∙ (rw (bal.zero_sum, ← total-sum_of store bs) (eq_of_parts _ _ (omega int_laws)))

  module _ (m : Current) (bal : Balanced store bs m) (r : Current × Option ℕ)
      (sel : Selected store bs m r) where
    -- The greatest of the grown entries is positive, since they add up to the sum of the weights.
    winner_positive : pos 0 <ℤ at m sel.winner +ℤ weight_of store sel.winner
    winner_positive =
        elim (Bool-cases (ltb_ℤ (pos 0) (at m sel.winner +ℤ weight_of store sel.winner))) [
          | inl yes_positive ↦ ground arith
          | inr not_positive ↦
              let top : at m sel.winner +ℤ weight_of store sel.winner ≤ℤ pos 0 = ground arith in
              let nothing =
                sum_of_nonpos (λ b. at m b +ℤ weight_of store b) bs
                  (λ b i. omega (arith, sel.tops b i)) in
              absurd (
                omega (
                  arith,
                  ap pos_part (grown_sum m bal),
                  ap neg_part (grown_sum m bal),
                  total_pos sel.winner sel.listed,
                  total_neg,
                ))
        ]

    Selected-Balanced : Balanced store bs r.0
    Selected-Balanced = record {
      low = λ b i. elim (Bool-cases (b == sel.winner)) [
        | inl e ↦
            let same : b ≡ sel.winner = ground arith in
            rw (same, sel.paid) (omega (int_laws, winner_positive))
        | inr e ↦ rw (sel.grown b i (ground arith)) (omega (int_laws, bal.low b i, ws.positive b i))
      ];
      zero_sum =
          sum_of_pay (λ b. at m b +ℤ weight_of store b) (at r.0) bs sel.winner (total store bs)
            ws.distinct sel.listed sel.paid sel.grown
          ∙ rw (grown_sum m bal) (eq_of_parts _ _ (omega int_laws));
    }

  pub select_backend-Balanced :
      (m : Current) → Balanced store bs m → Balanced store bs (select_backend store bs m).0
  select_backend-Balanced m bal =
      Selected-Balanced m bal _ (select_backend-Selected store bs m (Balanced-Ready m bal))
