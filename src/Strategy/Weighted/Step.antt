-- ===== src/Strategy/Weighted/Step.antt =====
-- One selection of internal/strategy/weighted_round_robin.go, read off the map it leaves.
use go_loadbalancer.Prelude.{
  ℕ, ◌^◌, ◌<◌, ◌≡◌, ◌≢◌, refl, sym, ap, subst, ◌∙◌, inl, inr, arith, false, List, [], ◌∷◌, Option,
  none, some, In, Distinct, length,
}
use go_loadbalancer.Prelude.Int.{
  ℤ, pos, ◌≤ℤ◌, ◌<ℤ◌, ◌+ℤ◌, ◌-ℤ◌, beq_ℤ, InRange, wrap_id, sub64, int_laws,
}
use go_loadbalancer.Prelude.Map.{insert, get-insert, nat_key, beq_refl}
use go_loadbalancer.Backend.{Store}
use go_loadbalancer.Strategy.Weighted.{
  Current, cleanup, at, Scan, better, scan, settle, select_backend,
}
use go_loadbalancer.Strategy.Weighted.Visits.{
  weight_of, total, cleanup-at, visited, visited-at_self, visited-at_ne, visited-total,
}
use go_loadbalancer.Strategy.Weighted.Scanning.{
  total_nonneg_of, Scanned, Fits, visit-head, Fits-rest, scan-Scanned,
}

-- One selection over distinct backends of positive weights, with no sum out of the range of `int`:
-- some backend `p` of the list is chosen, each entry of the list grows by its weight, and that of
-- `p`, which no grown entry exceeds, then falls by the sum of the weights.
pub record Selected (store : Store) (bs : List ℕ) (m : Current) (r : Current × Option ℕ)
    : Type 0 where
  pub winner : ℕ
  pub chosen : r.1 ≡ some winner
  pub listed : In winner bs
  pub tops :
      (q : ℕ) → In q bs → at m q +ℤ weight_of store q ≤ℤ at m winner +ℤ weight_of store winner
  pub paid : at r.0 winner ≡ at m winner +ℤ weight_of store winner -ℤ total store bs
  pub grown : (q : ℕ) → In q bs → q ≢ winner → at r.0 q ≡ at m q +ℤ weight_of store q

pub record Ready (store : Store) (bs : List ℕ) (m : Current) : Type 0 where
  pub distinct : Distinct bs
  pub weighted : 0 < length bs
  pub positive : (b : ℕ) → In b bs → pos 0 <ℤ weight_of store b
  pub small : total store bs <ℤ pos (2 ^ 63)
  pub sums : (b : ℕ) → In b bs → InRange (at m b +ℤ weight_of store b)
  pub rests : (b : ℕ) → In b bs → InRange (at m b +ℤ weight_of store b -ℤ total store bs)

zero-plus : (a b : ℤ) → pos 0 +ℤ a +ℤ b ≡ a +ℤ b
zero-plus a b = omega int_laws

nonzero_of : (a b : ℤ) → pos 0 <ℤ a → pos 0 ≤ℤ b → beq_ℤ (a +ℤ b) (pos 0) ≡ false
nonzero_of a b h k = grind int_laws

-- The state before the loop.
begin : List ℕ → Current → Scan
begin bs m = record { current = cleanup bs m; total_weight = pos 0; chosen = none }

module _ (store : Store) (b : ℕ) (bs : List ℕ) (m : Current) (h : Ready store (b ∷ bs) m) where
  begin-Fits : Fits store (b ∷ bs) (begin (b ∷ bs) m)
  unfolding begin
  begin-Fits = record {
    positive = h.positive;
    entries = λ q i. rw (cleanup-at (b ∷ bs) m q i) (h.sums q i);
    total_nonneg = omega arith;
    total_small = omega (int_laws, h.small);
  }

  scanned :
      Scanned store bs b
        (visited store b (begin (b ∷ bs) m))
        (scan store (b ∷ bs) (begin (b ∷ bs) m))
  unfolding scan visited begin better
  scanned = rw (visit-head store b bs (begin (b ∷ bs) m) begin-Fits h.distinct.0) (
      scan-Scanned store bs b (visited store b (begin (b ∷ bs) m))
        (Fits-rest store b bs (begin (b ∷ bs) m) begin-Fits h.distinct.0) h.distinct refl)

  module _ (t : Scan) (r : Scanned store bs b (visited store b (begin (b ∷ bs) m)) t) where
    -- Each entry before the winner pays.
    grown_at : (q : ℕ) → In q (b ∷ bs) → at t.current q ≡ at m q +ℤ weight_of store q
    unfolding begin
    grown_at q (inl e) = rw e (
        r.kept b h.distinct.0
        ∙ visited-at_self store b (begin (b ∷ bs) m)
        ∙ ap (λ a. a +ℤ weight_of store b) (cleanup-at (b ∷ bs) m b (inl refl)))
    grown_at q (inr i) =
        r.added q i
        ∙ ap (λ a. a +ℤ weight_of store q)
            (visited-at_ne store b q (begin (b ∷ bs) m) (λ e. h.distinct.0 (rw e i))
              ∙ cleanup-at (b ∷ bs) m q (inr i))

    summed_all : t.total_weight ≡ total store (b ∷ bs)
    unfolding total begin
    summed_all =
        r.summed
        ∙ ap (λ a. a +ℤ total store bs) (visited-total store b (begin (b ∷ bs) m))
        ∙ zero-plus (weight_of store b) (total store bs)

    nonzero : beq_ℤ t.total_weight (pos 0) ≡ false
    unfolding total
    nonzero = rw summed_all (
        nonzero_of (weight_of store b) (total store bs) (h.positive b (inl refl))
          (total_nonneg_of store bs (λ q i. h.positive q (inr i))))

    no_wrap :
        sub64 (at t.current r.winner) t.total_weight ≡ at t.current r.winner -ℤ total store (b ∷ bs)
    unfolding sub64
    no_wrap = rw (summed_all, grown_at r.winner r.member) (wrap_id _ (h.rests r.winner r.member))

    settled-some :
        settle t (some r.winner)
        ≡ (insert r.winner (at t.current r.winner -ℤ total store (b ∷ bs)) t.current, some r.winner)
    unfolding settle
    settled-some = rw (nonzero, no_wrap) refl

    settled : Selected store (b ∷ bs) m (settle t t.chosen)
    settled =
        subst (λ o. Selected store (b ∷ bs) m (settle t o)) (sym r.picked)
          (rw settled-some (record {
            winner = r.winner;
            chosen = refl;
            listed = r.member;
            tops = λ q i. rw (← grown_at q i, ← grown_at r.winner r.member) (r.tops q i);
            paid =
                rw
                  (
                    get-insert (pos 0) r.winner r.winner
                        (at t.current r.winner -ℤ total store (b ∷ bs)) t.current,
                    beq_refl r.winner,
                  )
                  (ap (λ a. a -ℤ total store (b ∷ bs)) (grown_at r.winner r.member));
            grown = λ q i ne.
                rw
                  (get-insert (pos 0) r.winner q (at t.current r.winner -ℤ total store (b ∷ bs))
                    t.current)
                  (ground (arith, grown_at q i));
          }))

pub select_backend-Selected :
    (store : Store) (bs : List ℕ) (m : Current)
    → Ready store bs m
    → Selected store bs m (select_backend store bs m)
unfolding select_backend settle begin
select_backend-Selected store [] m h = absurd (omega (arith, h.weighted))
select_backend-Selected store (b ∷ bs) m h =
    let t = scan store (b ∷ bs) (begin (b ∷ bs) m) in
    settled store b bs m h t (scanned store b bs m h)
