-- ===== src/Go/Search.antt =====
-- `sort.Search` of Go's standard library: binary search for the first index that passes a test.
use go_loadbalancer.Prelude.{
  ℕ, zero, suc, ◌+◌, ◌-◌, ◌/◌, ◌≤◌, ◌<◌, ◌≡◌, sym, ◌∙◌, ltb→lt, ltb-false, arith, Bool, true, false,
  ltb, if◌then◌else◌, Bool-cases, inl, inr,
}

-- The loop `for i < j`, from `h := (i + j) / 2` on. Each round narrows the range, so a fuel of
-- `j - i` is enough.
narrow : (ℕ → Bool) → ℕ → ℕ → ℕ → ℕ
narrow f zero i j = i
narrow f (suc fuel) i j =
    let up = narrow f fuel ((i + j) / 2 + 1) j in
    let down = narrow f fuel i ((i + j) / 2) in
    if ltb i j then (if f ((i + j) / 2) then down else up) else i

unfoldable pub search : ℕ → (ℕ → Bool) → ℕ
unfolding narrow
search n f = narrow f n 0 n

true-false : ¬ (true ≡ false)
true-false e = cc

-- The result splits the range: the test fails below it, and passes at it and above.
narrow-splits :
    (f : ℕ → Bool) (fuel i j n : ℕ)
    → ((k l : ℕ) → k ≤ l → l < n → f k ≡ true → f l ≡ true)
    → j - i ≤ fuel
    → i ≤ j
    → j ≤ n
    → ((k : ℕ) → k < i → f k ≡ false)
    → ((k : ℕ) → j ≤ k → k < n → f k ≡ true)
    → let r = narrow f fuel i j in
      (r ≤ n) × ((k : ℕ) → k < r → f k ≡ false) × ((k : ℕ) → r ≤ k → k < n → f k ≡ true)
unfolding narrow
narrow-splits f zero i j n mono enough le within below above =
    (omega arith, below, λ k h lt. above k (omega arith) lt)
narrow-splits f (suc fuel) i j n mono enough le within below above = elim (Bool-cases (ltb i j)) [
  | inl open_range ↦
      let lt : i < j = ltb→lt i j open_range in
      rw open_range (elim (Bool-cases (f ((i + j) / 2))) [
        | inl passes ↦ rw passes (
            narrow-splits f fuel i ((i + j) / 2) n mono (omega arith) (omega arith) (omega arith)
              below (λ k h l. mono ((i + j) / 2) k h l passes))
        | inr fails ↦ rw fails (
            narrow-splits f fuel ((i + j) / 2 + 1) j n mono (omega arith) (omega arith) within
              (λ k h. fails_below ((i + j) / 2) k (omega arith) fails h) above)
      ])
  | inr shut ↦
      let ge : j ≤ i = ltb-false i j shut in
      rw shut (omega arith, below, λ k h l. above k (omega arith) l)
]
  where
    fails_below : (m k : ℕ) → m < n → f m ≡ false → k < m + 1 → f k ≡ false
    fails_below m k small fails h = elim (Bool-cases (f k)) [
      | inl passes ↦ absurd (true-false (sym (mono k m (omega arith) small passes) ∙ fails))
      | inr no_pass ↦ no_pass
    ]

-- For a test that, once it passes, passes at every later index, the search returns the first index
-- below `n` that passes, or `n`.
pub search-splits :
    (n : ℕ) (f : ℕ → Bool)
    → ((k l : ℕ) → k ≤ l → l < n → f k ≡ true → f l ≡ true)
    → (search n f ≤ n)
      × ((k : ℕ) → k < search n f → f k ≡ false)
      × ((k : ℕ) → search n f ≤ k → k < n → f k ≡ true)
unfolding search
search-splits n f mono =
    narrow-splits f n 0 n n mono (omega arith) (omega arith) (omega arith)
      (λ k h. absurd (omega arith)) (λ k h l. absurd (omega arith))
