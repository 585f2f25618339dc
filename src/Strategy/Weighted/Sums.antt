-- ===== src/Strategy/Weighted/Sums.antt =====
-- Sums of integers over a list of backends.
use go_loadbalancer.Prelude.{ℕ, ◌≡◌, ◌≢◌, refl, inl, inr, arith, List, [], ◌∷◌, In, Distinct}
use go_loadbalancer.Prelude.Int.{ℤ, pos, ◌≤ℤ◌, ◌+ℤ◌, ◌-ℤ◌, int_laws}

unfoldable pub sum_of : (ℕ → ℤ) → List ℕ → ℤ
sum_of f [] = pos 0
sum_of f (b ∷ bs) = f b +ℤ sum_of f bs

pub sum_of-cong :
    (f g : ℕ → ℤ) (bs : List ℕ) → ((b : ℕ) → In b bs → f b ≡ g b) → sum_of f bs ≡ sum_of g bs
unfolding sum_of
sum_of-cong f g [] h = refl
sum_of-cong f g (b ∷ bs) h = rw (h b (inl refl), sum_of-cong f g bs (λ q i. h q (inr i))) refl

pub sum_of-+ℤ :
    (f g : ℕ → ℤ) (bs : List ℕ) → sum_of (λ b. f b +ℤ g b) bs ≡ sum_of f bs +ℤ sum_of g bs
unfolding sum_of
sum_of-+ℤ f g [] = omega int_laws
sum_of-+ℤ f g (b ∷ bs) = shuffle _ _ _ _ _ (sum_of-+ℤ f g bs)
  where
    shuffle : (a b c d e : ℤ) → e ≡ c +ℤ d → a +ℤ b +ℤ e ≡ a +ℤ c +ℤ (b +ℤ d)
    shuffle a b c d e h = rw h (omega int_laws)

pub sum_of_nonpos :
    (f : ℕ → ℤ) (bs : List ℕ) → ((b : ℕ) → In b bs → f b ≤ℤ pos 0) → sum_of f bs ≤ℤ pos 0
unfolding sum_of
sum_of_nonpos f [] h = omega arith
sum_of_nonpos f (b ∷ bs) h =
    omega (int_laws, h b (inl refl), sum_of_nonpos f bs (λ q i. h q (inr i)))

pub sum_of_nonneg :
    (f : ℕ → ℤ) (bs : List ℕ) → ((b : ℕ) → In b bs → pos 0 ≤ℤ f b) → pos 0 ≤ℤ sum_of f bs
unfolding sum_of
sum_of_nonneg f [] h = omega arith
sum_of_nonneg f (b ∷ bs) h =
    omega (int_laws, h b (inl refl), sum_of_nonneg f bs (λ q i. h q (inr i)))

-- No term exceeds the sum of terms that are not negative.
pub term-le-sum_of :
    (f : ℕ → ℤ) (bs : List ℕ) (p : ℕ)
    → ((b : ℕ) → In b bs → pos 0 ≤ℤ f b)
    → In p bs
    → f p ≤ℤ sum_of f bs
unfolding sum_of
term-le-sum_of f [] p h i = elim i [ ]
term-le-sum_of f (b ∷ bs) p h (inl e) =
    rw e (omega (int_laws, sum_of_nonneg f bs (λ q i. h q (inr i))))
term-le-sum_of f (b ∷ bs) p h (inr i) =
    omega (int_laws, h b (inl refl), term-le-sum_of f bs p (λ q j. h q (inr j)) i)

-- One term of distinct ones falls by `d`.
pub sum_of_pay :
    (f g : ℕ → ℤ) (bs : List ℕ) (p : ℕ) (d : ℤ)
    → Distinct bs
    → In p bs
    → g p ≡ f p -ℤ d
    → ((q : ℕ) → In q bs → q ≢ p → g q ≡ f q)
    → sum_of g bs ≡ sum_of f bs -ℤ d
unfolding sum_of
sum_of_pay f g [] p d apart i e h = elim i [ ]
sum_of_pay f g (b ∷ bs) p d apart (inl same) e h =
    let rest : sum_of g bs ≡ sum_of f bs =
      sum_of-cong g f bs (λ q j. h q (inr j) (λ c. apart.0 (rw (← same, ← c) j))) in
    rw (rest, ← same, e) (omega int_laws)
sum_of_pay f g (b ∷ bs) p d apart (inr i) e h =
    let rest = sum_of_pay f g bs p d apart.1 i e (λ q j. h q (inr j)) in
    rw (rest, h b (inl refl) (λ c. apart.0 (rw c i))) (omega int_laws)
