-- ===== src/Strategy/Weighted/Shares.antt =====
-- How internal/strategy/weighted_round_robin.go shares the selections among backends that stay
-- available: by their weights, exactly so after a full cycle.
use native.Mathlib.Decide.{dec_le}
use native.Mathlib.Nat.{mul-le-mul_right}
use go_loadbalancer.Prelude.{
  ℕ, zero, suc, ◌+◌, ◌*◌, ◌<◌, ◌≡◌, refl, ap, inl, inr, arith, List, [], ◌∷◌, Option, none, some,
  In, length, if◌then◌else◌, Bool-cases,
}
use go_loadbalancer.Prelude.Int.{
  ℤ, pos, negsuc, ◌+ℤ◌, ◌-ℤ◌, pos_part, neg_part, int_laws, eq_of_parts,
}
use go_loadbalancer.Prelude.Map.{◌==◌, nat_key, get}
use go_loadbalancer.Backend.{Store}
use go_loadbalancer.Strategy.Weighted.{Current, new, at, select_backend}
use go_loadbalancer.Strategy.Weighted.Visits.{weight_of, total}
use go_loadbalancer.Strategy.Weighted.Step.{Selected, select_backend-Selected}
use go_loadbalancer.Strategy.Weighted.Sums.{term-le-sum_of}
use go_loadbalancer.Strategy.Weighted.Fair.{
  Weights, Balanced, nonneg_part, total_neg, total_pos, high, new-Balanced, Balanced-Ready,
  select_backend-Balanced,
}

-- `k` selections in a row: the map they leave, and the backends they choose.
unfoldable pub after : Store → List ℕ → ℕ → Current → Current
after store bs zero m = m
after store bs (suc k) m = after store bs k (select_backend store bs m).0

unfoldable pub choices : Store → List ℕ → ℕ → Current → List (Option ℕ)
choices store bs zero m = []
choices store bs (suc k) m =
    (select_backend store bs m).1 ∷ choices store bs k (select_backend store bs m).0

-- How often `p` was chosen.
abbrev pub times : ℕ → List (Option ℕ) → ℕ
times p [] = 0
times p (none ∷ r) = times p r
times p (some q ∷ r) = (if q == p then 1 else 0) + times p r

times-cons :
    (p : ℕ) (o : Option ℕ) (r : List (Option ℕ)) → times p (o ∷ r) ≡ times p (o ∷ []) + times p r
times-cons p none r = omega arith
times-cons p (some q) r = omega arith

product_split : {a : ℕ} (b c : ℕ) → a ≡ b + c → (w : ℕ) → a * w ≡ b * w + c * w
product_split b c e w = rw e (omega arith)

-- A multiple of `c` has no neighbour below it within `c` that is a multiple too.
no_debt :
    (a : ℤ) (t w c : ℕ)
    → pos_part a + t * c ≡ neg_part a + c * w
    → neg_part a < c + pos_part a
    → neg_part a ≡ 0
no_debt (pos n) t w c e h = refl
no_debt (negsuc n) t w c e h = elim (dec_le t w) [
  | yes less ↦ absurd (omega (arith, e, h, mul-le-mul_right c less))
  | no more ↦ absurd (omega (arith, e, h, mul-le-mul_right {m = suc w} {n = t} c (omega arith)))
]

cancel : (t w c : ℕ) → 0 < c → t * c ≡ c * w → t ≡ w
cancel t w c h e = elim (dec_le t w) [
  | yes less ↦ elim (dec_le w t) [
    | yes more ↦ omega arith
    | no fewer ↦ absurd (omega (arith, e, h, mul-le-mul_right {m = suc t} {n = w} c (omega arith)))
  ]
  | no more ↦ absurd (omega (arith, e, h, mul-le-mul_right {m = suc w} {n = t} c (omega arith)))
]

suc_product : (k w : ℕ) → suc k * w ≡ w + k * w
suc_product k w = omega arith

module _ (store : Store) (bs : List ℕ) (ws : Weights store bs) where
  abbrev cycle : ℕ
  cycle = pos_part (total store bs)

  after-Balanced :
      (k : ℕ) (m : Current) → Balanced store bs m → Balanced store bs (after store bs k m)
  unfolding after
  after-Balanced zero m bal = bal
  after-Balanced (suc k) m bal = after-Balanced k _ (select_backend-Balanced store bs ws m bal)

  weight_neg : (p : ℕ) → In p bs → neg_part (weight_of store p) ≡ 0
  weight_neg p i = nonneg_part _ (omega (arith, ws.positive p i))

  -- What a selection books: the weight in, and the sum of the weights out if `p` was chosen.
  selected_ledger :
      (m : Current) (r : Current × Option ℕ) (p : ℕ)
      → Selected store bs m r
      → In p bs
      → pos_part (at r.0 p) + times p (r.1 ∷ []) * cycle + neg_part (at m p)
        ≡ neg_part (at r.0 p) + pos_part (at m p) + pos_part (weight_of store p)
  selected_ledger m r p sel i = elim (Bool-cases (sel.winner == p)) [
    | inl e ↦
        let same : sel.winner ≡ p = (nat_key.beq_iff sel.winner p).0 e in
        let once : times p (r.1 ∷ []) ≡ 1 = rw sel.chosen (rw e refl) in
        let paid : at r.0 p ≡ at m p +ℤ weight_of store p -ℤ total store bs = rw same at sel.paid in
        rw (once, paid) (omega (int_laws, total_neg store bs ws, weight_neg p i))
    | inr e ↦
        let never : times p (r.1 ∷ []) ≡ 0 = rw sel.chosen (rw e refl) in
        let grown = sel.grown p i (ground (arith, nat_key.beq_iff sel.winner p)) in
        rw (never, grown) (omega (int_laws, weight_neg p i))
  ]

  ledger :
      (k : ℕ) (m : Current) (p : ℕ)
      → Balanced store bs m
      → In p bs
      → pos_part (at (after store bs k m) p)
          + times p (choices store bs k m) * cycle
          + neg_part (at m p)
        ≡ neg_part (at (after store bs k m) p)
          + pos_part (at m p)
          + k * pos_part (weight_of store p)
  unfolding after choices
  ledger zero m p bal i = omega arith
  ledger (suc k) m p bal i =
      let r = select_backend store bs m in
      let booked =
        selected_ledger m r p
          (select_backend-Selected store bs m (Balanced-Ready store bs ws m bal)) i in
      let later = ledger k r.0 p (select_backend-Balanced store bs ws m bal) i in
      let split = product_split _ _ (times-cons p r.1 (choices store bs k r.0)) cycle in
      omega (arith, booked, later, split, suc_product k (pos_part (weight_of store p)))

  -- In any number `k` of selections from a new strategy on, the number of times that a backend is
  -- chosen differs from its share by weight, `k * weight / sum`, by less than 1 upwards and by less
  -- than the number of backends downwards.
  pub times-share :
      (k p : ℕ)
      → In p bs
      → (times p (choices store bs k new) * cycle < k * pos_part (weight_of store p) + cycle)
        × (k * pos_part (weight_of store p)
            < times p (choices store bs k new) * cycle + length bs * cycle)
  unfolding new get
  times-share k p i =
      let bal = after-Balanced k new (new-Balanced store bs ws) in
      let low = bal.low p i in
      let top = high store bs ws (after store bs k new) p bal i in
      let books = ledger k new p (new-Balanced store bs ws) i in
      omega (int_laws, low, top, books, total_neg store bs ws, total_pos store bs ws p i)

  -- After as many selections as the weights add up to, every entry is back at 0.
  cycle_settles : (p : ℕ) → In p bs → neg_part (at (after store bs cycle new) p) ≡ 0
  unfolding new get
  cycle_settles p i =
      let bal = after-Balanced cycle new (new-Balanced store bs ws) in
      no_debt (at (after store bs cycle new) p) (times p (choices store bs cycle new))
        (pos_part (weight_of store p)) cycle
        (omega (arith, ledger cycle new p (new-Balanced store bs ws) i))
        (omega (int_laws, bal.low p i, total_neg store bs ws))

  -- In as many selections from a new strategy on as the weights add up to, each backend is chosen
  -- exactly as often as its weight says, and every entry of the map is back at 0.
  pub times-cycle :
      (p : ℕ)
      → In p bs
      → (times p (choices store bs cycle new) ≡ pos_part (weight_of store p))
        × (at (after store bs cycle new) p ≡ pos 0)
  unfolding new get
  times-cycle p i =
      let bal = after-Balanced cycle new (new-Balanced store bs ws) in
      let m = after store bs cycle new in
      let most = term-le-sum_of (at m) bs p (λ q j. omega (arith, cycle_settles q j)) i in
      let least = cycle_settles p i in
      let zero_entry : at m p ≡ pos 0 =
        eq_of_parts _ _
          (omega (arith, most, least, ap pos_part bal.zero_sum, ap neg_part bal.zero_sum)) in
      (
        cancel _ _ cycle (total_pos store bs ws p i) (
            omega (
              arith,
              ledger cycle new p (new-Balanced store bs ws) i,
              ap pos_part zero_entry,
              ap neg_part zero_entry,
            )),
        zero_entry,
      )
