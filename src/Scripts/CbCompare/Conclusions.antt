-- ===== src/Scripts/CbCompare/Conclusions.antt =====
-- What the report of scripts/cbcompare.go concludes, against the requests of the two runs.
use go_loadbalancer.Prelude.{
  ℕ, ◌-◌, ◌^◌, ◌<◌, ◌≤◌, ◌≡◌, suc, ◌+◌, false, refl, sym, subst, inl, inr, Bool-cases, ltb, ap, ◌∙◌,
  arith, List,
}
use go_loadbalancer.Prelude.Int.{ℤ, pos, negsuc, ltb_ℤ, sub64, sub64_pos, sub64_neg, sub64_negsuc}
use go_loadbalancer.Prelude.Map.{◌==◌, int_key}
use go_loadbalancer.Scripts.CbCompare.{
  Sent, Conclusion, improved, unexpected, equally, conclusion, conclude, run_test,
}
use go_loadbalancer.Scripts.CbCompare.Counts.{failures, failures-le, run_test-Counted}

-- By how many requests failed in the first run and in the second one.
pub data Concluded (f g : ℕ) : Conclusion → Type 0 where
  better : (d : ℕ) → g ≡ f + suc d → Concluded f g (improved (pos (suc d)))
  same : f ≡ g → Concluded f g equally
  worse : (d : ℕ) → f ≡ g + suc d → Concluded f g (unexpected (pos (suc d)))

conclusion-improved : (d : ℕ) → conclusion (pos (suc d)) ≡ improved (pos (suc d))
conclusion-improved d = ground arith

conclusion-unexpected : (d : ℕ) → suc d < 2 ^ 63 → conclusion (negsuc d) ≡ unexpected (pos (suc d))
conclusion-unexpected d small =
    (let later : ltb_ℤ (pos 0) (negsuc d) ≡ false = ground arith in
      let uneven : (negsuc d == pos 0) ≡ false = ground arith in rw (later, uneven) refl)
    ∙ ap unexpected (sub64_negsuc d small)

-- The successes are those of `n` requests that did not fail.
conclusion-Concluded :
    (n f g : ℕ)
    → n < 2 ^ 63
    → f ≤ n
    → g ≤ n
    → Concluded f g (conclusion (sub64 (pos (n - f)) (pos (n - g))))
conclusion-Concluded n f g small le_f le_g = elim (Bool-cases (ltb f g)) [
  | inl less ↦
      let below : f < g = ground (arith, less) in
      let difference : sub64 (pos (n - f)) (pos (n - g)) ≡ pos (suc (g - f - 1)) =
        sub64_pos (n - f) (n - g) (omega (arith, below)) (omega (arith, small))
        ∙ ap pos (omega (arith, below, le_f, le_g)) in
      subst (Concluded f g) (sym (ap conclusion difference ∙ conclusion-improved (g - f - 1)))
        (better (g - f - 1) (omega (arith, below)))
  | inr no_less ↦ elim (Bool-cases (ltb g f)) [
    | inl more ↦
        let above : g < f = ground (arith, more) in
        let difference : sub64 (pos (n - f)) (pos (n - g)) ≡ negsuc (f - g - 1) =
          sub64_neg (n - f) (n - g) (omega (arith, above, le_f)) (omega (arith, small))
          ∙ ap negsuc (omega (arith, above, le_f, le_g)) in
        subst (Concluded f g)
          (sym (
            ap conclusion difference
            ∙ conclusion-unexpected (f - g - 1) (omega (arith, small, above, le_f))))
          (worse (f - g - 1) (omega (arith, above)))
    | inr no_more ↦
        let even : f ≡ g = ground (arith, no_less, no_more) in
        let difference : sub64 (pos (n - f)) (pos (n - g)) ≡ pos 0 =
          sub64_pos (n - f) (n - g) (omega (arith, even)) (omega (arith, small))
          ∙ ap pos (omega (arith, even)) in
        subst (Concluded f g) (sym (ap conclusion difference)) (same even)
  ]
]

module _ {F : Type 0} where
  -- Of two runs of the same number of requests, fewer than 2^63, the report says that the breaker improved
  -- the reliability by as many requests as failed less with it, that both performed equally where as
  -- many failed, and else how many failed more with it.
  pub run_test-Concluded :
      (no_rate : F) (rate : ℤ → ℤ → F) (name other_name : List ℕ) (n : ℕ) (kill_after : ℤ)
      (with_cb without : ℕ → Sent) (duration other_duration : ℤ)
      → n < 2 ^ 63
      → Concluded (failures with_cb n 0) (failures without n 0) (
          conclude
            (run_test no_rate rate name (pos n) kill_after with_cb duration)
            (run_test no_rate rate other_name (pos n) kill_after without other_duration))
  unfolding conclude
  run_test-Concluded no_rate rate name other_name n kill_after with_cb without duration
        other_duration small =
      let a = (run_test-Counted no_rate rate name n kill_after with_cb duration small).0 in
      let b =
        (run_test-Counted no_rate rate other_name n kill_after without other_duration small).0 in
      rw (a.successful, b.successful)
        (conclusion-Concluded n (failures with_cb n 0) (failures without n 0) small
          (failures-le with_cb n 0) (failures-le without n 0))
