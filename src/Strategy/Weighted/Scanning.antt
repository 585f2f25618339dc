-- ===== src/Strategy/Weighted/Scanning.antt =====
-- The loop of `SelectBackend` in internal/strategy/weighted_round_robin.go.
use go_loadbalancer.Prelude.{
  ℕ, ◌^◌, ◌≡◌, ◌≢◌, refl, sym, ap, subst, ◌∙◌, inl, inr, arith, List, [], ◌∷◌, some, In, Distinct,
  Bool-cases,
}
use go_loadbalancer.Prelude.Int.{
  pos, ◌≤ℤ◌, ◌<ℤ◌, ◌+ℤ◌, ltb_ℤ, pos_part, neg_part, InRange, InRange-of, int_laws,
}
use go_loadbalancer.Prelude.Map.{nat_key}
use go_loadbalancer.Backend.{Store}
use go_loadbalancer.Strategy.Weighted.{at, Scan, better, visit, scan}
use go_loadbalancer.Strategy.Weighted.Visits.{
  +ℤ_regroup, weight_of, total, visited, visit-visited, visited-at_self, visited-at_ne,
  visited-total,
}

-- What the scan of `bs` does from a state whose chosen backend is `c`: each entry of the list grows
-- by its weight, the others stay, and the winner is an entry that none of `c ∷ bs` exceeds.
pub record Scanned (store : Store) (bs : List ℕ) (c : ℕ) (s t : Scan) : Type 0 where
  pub added : (b : ℕ) → In b bs → at t.current b ≡ at s.current b +ℤ weight_of store b
  pub kept : (b : ℕ) → ¬ In b bs → at t.current b ≡ at s.current b
  pub summed : t.total_weight ≡ s.total_weight +ℤ total store bs
  pub winner : ℕ
  pub picked : t.chosen ≡ some winner
  pub member : In winner (c ∷ bs)
  pub tops : (q : ℕ) → In q (c ∷ bs) → at t.current q ≤ℤ at t.current winner

-- The sums that the scan makes stay in range.
pub record Fits (store : Store) (bs : List ℕ) (s : Scan) : Type 0 where
  pub positive : (b : ℕ) → In b bs → pos 0 <ℤ weight_of store b
  pub entries : (b : ℕ) → In b bs → InRange (at s.current b +ℤ weight_of store b)
  pub total_nonneg : pos 0 ≤ℤ s.total_weight
  pub total_small : s.total_weight +ℤ total store bs <ℤ pos (2 ^ 63)

pub total_nonneg_of :
    (store : Store) (bs : List ℕ)
    → ((b : ℕ) → In b bs → pos 0 <ℤ weight_of store b)
    → pos 0 ≤ℤ total store bs
unfolding total
total_nonneg_of store [] h = omega arith
total_nonneg_of store (b ∷ bs) h =
    omega (int_laws, h b (inl refl), total_nonneg_of store bs (λ q i. h q (inr i)))

module _ (store : Store) (b : ℕ) (bs : List ℕ) (s : Scan) (fits : Fits store (b ∷ bs) s)
    (apart : ¬ In b bs) where
  rest_nonneg : pos 0 ≤ℤ total store bs
  rest_nonneg = total_nonneg_of store bs (λ q i. fits.positive q (inr i))

  head_sum : InRange (s.total_weight +ℤ weight_of store b)
  unfolding total
  head_sum =
      let small = fits.total_small in
      let grows = fits.positive b (inl refl) in
      InRange-of _ (omega (int_laws, grows, fits.total_nonneg))
        (omega (int_laws, grows, rest_nonneg, small))

  pub visit-head : visit store b s ≡ visited store b s
  visit-head =
      visit-visited store b s (fits.positive b (inl refl)) (fits.entries b (inl refl)) head_sum

  ne_head : (q : ℕ) → In q bs → b ≢ q
  ne_head q i e = apart (rw e i)

  -- The rest of the list finds its sums in range too.
  pub Fits-rest : Fits store bs (visited store b s)
  unfolding total visited
  Fits-rest = record {
    positive = λ q i. fits.positive q (inr i);
    entries = λ q i. rw (visited-at_ne store b q s (ne_head q i)) (fits.entries q (inr i));
    total_nonneg = omega (int_laws, fits.positive b (inl refl), fits.total_nonneg);
    total_small = omega (int_laws, fits.total_small);
  }

  -- Whichever of the old choice and the visited backend stays is not exceeded by the other.
  pub visited-chosen :
      (c : ℕ)
      → s.chosen ≡ some c
      → b ≢ c
      → let v = visited store b s in
        (d : ℕ) × (v.chosen ≡ some d)
        × (¬ In c bs → ¬ In d bs)
        × In d (c ∷ b ∷ bs)
        × (at v.current b ≤ℤ at v.current d)
        × (at v.current c ≤ℤ at v.current d)
  unfolding visited better
  visited-chosen c e ne =
      let v = visited store b s in
      elim (Bool-cases (ltb_ℤ (at v.current c) (at v.current b))) [
        | inl more ↦ (
          b,
          rw (e, better) (ground arith),
          (λ h. apart),
          inr (inl refl),
          omega arith,
          ground arith,
        )
        | inr less ↦
            (c, rw (e, better) (ground arith), (λ h. h), inl refl, ground arith, omega arith)
      ]

  -- One visit, and the scan of the rest from there.
  Scanned-step :
      (c d : ℕ) (t : Scan)
      → ¬ In c (b ∷ bs)
      → let v = visited store b s in
        ¬ In d bs
        → In d (c ∷ b ∷ bs)
        → at v.current b ≤ℤ at v.current d
        → at v.current c ≤ℤ at v.current d
        → Scanned store bs d v t
        → Scanned store (b ∷ bs) c s t
  unfolding total
  Scanned-step c d t fresh apart_d among beats_b beats_c r =
      let v = visited store b s in
      let at_b : at t.current b ≡ at v.current b = r.kept b apart in
      let at_c : at t.current c ≡ at v.current c = r.kept c (λ i. fresh (inr i)) in
      let at_d : at t.current d ≡ at v.current d = r.kept d apart_d in
      let top_d : at t.current d ≤ℤ at t.current r.winner = r.tops d (inl refl) in
      record {
        added = λ q i. added_at q i;
        kept = λ q h. r.kept q (λ i. h (inr i)) ∙ visited-at_ne store b q s (λ e. h (inl (sym e)));
        summed =
            r.summed
            ∙ ap (λ a. a +ℤ total store bs) summed_head
            ∙ +ℤ_regroup s.total_weight (weight_of store b) (total store bs);
        winner = r.winner;
        picked = r.picked;
        member = member_of r.member;
        tops = λ q i. tops_at q at_b at_c at_d top_d i;
      }
    where
      added_at : (q : ℕ) → In q (b ∷ bs) → at t.current q ≡ at s.current q +ℤ weight_of store q
      added_at q (inl e) = rw e (r.kept b apart ∙ visited-at_self store b s)
      added_at q (inr i) =
          r.added q i ∙ ap (λ a. a +ℤ weight_of store q) (visited-at_ne store b q s (ne_head q i))

      summed_head : (visited store b s).total_weight ≡ s.total_weight +ℤ weight_of store b
      summed_head = visited-total store b s

      member_of : In r.winner (d ∷ bs) → In r.winner (c ∷ b ∷ bs)
      member_of (inl e) = subst (λ w. In w (c ∷ b ∷ bs)) (sym e) among
      member_of (inr i) = inr (inr i)

      tops_at :
          (q : ℕ)
          → at t.current b ≡ at (visited store b s).current b
          → at t.current c ≡ at (visited store b s).current c
          → at t.current d ≡ at (visited store b s).current d
          → at t.current d ≤ℤ at t.current r.winner
          → In q (c ∷ b ∷ bs)
          → at t.current q ≤ℤ at t.current r.winner
      tops_at q eb ec ed top (inl e) = rw (e, ec) (omega (arith, ap pos_part ed, ap neg_part ed))
      tops_at q eb ec ed top (inr (inl e)) =
          rw (e, eb) (omega (arith, ap pos_part ed, ap neg_part ed))
      tops_at q eb ec ed top (inr (inr i)) = r.tops q (inr i)

pub scan-Scanned :
    (store : Store) (bs : List ℕ) (c : ℕ) (s : Scan)
    → Fits store bs s
    → Distinct (c ∷ bs)
    → s.chosen ≡ some c
    → Scanned store bs c s (scan store bs s)
unfolding scan total
scan-Scanned store [] c s fits apart e = record {
  added = λ b i. elim i [ ];
  kept = λ b h. refl;
  summed = omega int_laws;
  winner = c;
  picked = e;
  member = inl refl;
  tops = λ q i. elim i [ inl e ↦ rw e (omega arith) | inr h ↦ elim h [ ] ];
}
scan-Scanned store (b ∷ bs) c s fits (fresh, (apart, distinct)) e =
    let (d, chosen, apart_d, among, beats_b, beats_c) =
      visited-chosen store b bs s fits apart c e (λ same. fresh (inl (sym same))) in
    let d_fresh : ¬ In d bs = apart_d (λ i. fresh (inr i)) in
    rw (visit-head store b bs s fits apart) (
      Scanned-step store b bs s fits apart c d _ fresh d_fresh among beats_b beats_c (
        scan-Scanned store bs d (visited store b s) (Fits-rest store b bs s fits apart)
          (d_fresh, distinct) chosen))
