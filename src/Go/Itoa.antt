-- ===== src/Go/Itoa.antt =====
-- `fmt.Sprintf("%d", n)`, and that `strconv.Atoi` reads it back.
use Prim.Native.Char.{Char, code}
use Prim.Native.String.{String}
use go_loadbalancer.Prelude.{
  ℕ, zero, suc, ◌+◌, ◌-◌, ◌*◌, ◌/◌, ◌%◌, ◌^◌, ◌≤◌, ◌<◌, ◌≡◌, refl, ap, ◌∙◌, true, some, ltb, leb,
  lt→ltb, arith, Bool-cases, inl, inr, if◌then◌else◌,
}
use go_loadbalancer.Prelude.Int.{pos}
use go_loadbalancer.Prelude.Map.{nat_key}
use go_loadbalancer.Go.Atoi.{digits, number, positive, atoi}

size : String → ℕ
size String.[] = 0
size (String.◌∷◌ c s) = suc (size s)

pick : String → ℕ → Char
pick String.[] n = "9"
pick (String.◌∷◌ c s) zero = c
pick (String.◌∷◌ c s) (suc n) = pick s n

digit : ℕ → Char
unfolding pick
digit n = pick "0123456789" n

-- The digits of a number in front of those `written`; a fuel of `n + 1` is enough for `n`.
decimal : String → ℕ → ℕ → String
unfolding digit
decimal written zero n = written
decimal written (suc k) n =
    let longer = String.◌∷◌ (digit (n % 10)) written in
    let all = decimal longer k (n / 10) in if ltb n 10 then longer else all

unfoldable pub itoa : ℕ → String
unfolding decimal
itoa n = decimal "" (suc n) n

-- The codes of the characters count up.
abbrev Ascending : ℕ → String → Type 0
Ascending n String.[] = Unit {0}
Ascending n (String.◌∷◌ c s) = (code c ≡ n) × Ascending (suc n) s

code-pick : (s : String) (k n : ℕ) → Ascending k s → n < size s → code (pick s n) ≡ k + n
unfolding pick size
code-pick String.[] k n up h = omega (arith, h)
code-pick (String.◌∷◌ c s) k zero up h = omega (arith, up.0)
code-pick (String.◌∷◌ c s) k (suc n) up h =
    omega (arith, code-pick s (suc k) n up.1 (omega (arith, h)))

code-digit : (n : ℕ) → n < 10 → code (digit n) ≡ 48 + n
unfolding digit size
code-digit n h =
    code-pick "0123456789" 48 n
      (refl, (refl, (refl, (refl, (refl, (refl, (refl, (refl, (refl, (refl, tt)))))))))) h

digits-digit :
    (m n : ℕ) (s : String) → n < 10 → digits m (String.◌∷◌ (digit n) s) ≡ digits (m * 10 + n) s
unfolding digits
digits-digit m n s h =
    let low : leb 48 (48 + n) ≡ true = ground arith in
    let high : leb (48 + n) 57 ≡ true = ground arith in
    let value : 48 + n - 48 ≡ n = omega arith in rw (code-digit n h, low, high, value) refl

digits-decimal : (k n : ℕ) (s : String) → n < k → digits 0 (decimal s k n) ≡ digits n s
unfolding decimal
digits-decimal zero n s h = let never : ⊥ = omega (arith, h) in elim never [ ]
digits-decimal (suc k) n s h = elim (Bool-cases (ltb n 10)) [
  | inl small ↦
      rw small (digits-digit 0 (n % 10) s (ground arith) ∙ ap (λ a. digits a s) (ground arith))
  | inr big ↦ rw big (
      digits-decimal k (n / 10) (String.◌∷◌ (digit (n % 10)) s) (ground arith)
      ∙ digits-digit (n / 10) (n % 10) s (ground arith)
      ∙ ap (λ a. digits a s) (ground arith))
]

-- The text starts with a digit.
abbrev Starts : String → Type 0
Starts s = (c : Char) × (rest : String) × (s ≡ String.◌∷◌ c rest) × (48 ≤ code c) × (code c ≤ 57)

digit-Starts : (n : ℕ) (s : String) → Starts (String.◌∷◌ (digit (n % 10)) s)
digit-Starts n s =
    let at = code-digit (n % 10) (ground arith) in
    (digit (n % 10), s, refl, omega (arith, at), ground (arith, at))

decimal-Starts : (k n : ℕ) (s : String) → Starts s → Starts (decimal s k n)
unfolding decimal
decimal-Starts zero n s h = h
decimal-Starts (suc k) n s h = elim (Bool-cases (ltb n 10)) [
  | inl small ↦ rw small (digit-Starts n s)
  | inr big ↦ rw big (decimal-Starts k (n / 10) (String.◌∷◌ (digit (n % 10)) s) (digit-Starts n s))
]

itoa-Starts : (n : ℕ) → Starts (itoa n)
unfolding itoa decimal
itoa-Starts n = elim (Bool-cases (ltb n 10)) [
  | inl small ↦ rw small (digit-Starts n "")
  | inr big ↦
      rw big (decimal-Starts n (n / 10) (String.◌∷◌ (digit (n % 10)) "") (digit-Starts n ""))
]

atoi-Starts : (s : String) → Starts s → atoi s ≡ positive (digits 0 s)
unfolding atoi number
atoi-Starts s (c, rest, e, lo, hi) = rw e (ground (arith, lo, hi))

-- A number that fits an `int` is read back as it was printed.
pub atoi-itoa : (n : ℕ) → n < 2 ^ 63 → atoi (itoa n) ≡ some (pos n)
unfolding itoa positive digits
atoi-itoa n h =
    atoi-Starts (itoa n) (itoa-Starts n)
    ∙ ap positive (digits-decimal (suc n) n "" (omega arith))
    ∙ rw (lt→ltb n (2 ^ 63) h) refl
