-- ===== src/Scripts/CourseServer/Uuid.antt =====
-- The form of the identifiers that scripts/backend.go makes.
use Prim.Native.Nat.{bit_and, bit_or}
use Prim.Native.Char.{Char, code}
use Prim.Native.String.{String}
use go_loadbalancer.Prelude.{
  ℕ, zero, suc, ◌/◌, ◌%◌, ◌||◌, ◌<◌, ◌≡◌, refl, ap, ◌⊎◌, inl, inr, arith, Bool, true, ◌&&◌, [], ◌∷◌,
  Option, none, some, In, leb, ltb, Bool-cases,
}
use go_loadbalancer.Prelude.Map.{◌==◌, nat_key}
use go_loadbalancer.Go.Float.{all_below, all_below_sound}
use go_loadbalancer.Go.Hex.{hex_digit, hex_in_front}
use go_loadbalancer.Scripts.CourseServer.{set_byte, marked, new_uuid}

abbrev pub char_at : ℕ → String → Option Char
char_at n String.[] = none
char_at zero (String.◌∷◌ c s) = some c
char_at (suc n) (String.◌∷◌ c s) = char_at n s

-- `0` to `9` or `a` to `f`
abbrev is_hex : ℕ → Bool
is_hex c = (leb 48 c && leb c 57) || (leb 97 c && leb c 102)

-- Two hexadecimal digits for each of `n` bytes, and then a text with the property `P`.
abbrev Hex : ℕ → (String → Type 0) → String → Type 0
Hex zero P s = P s
Hex (suc n) P (String.◌∷◌ c (String.◌∷◌ d s)) =
    (is_hex (code c) ≡ true) × (is_hex (code d) ≡ true) × Hex n P s
Hex (suc n) P _ = ⊥

abbrev Dash : (String → Type 0) → String → Type 0
Dash P (String.◌∷◌ c s) = (c ≡ "-") × P s
Dash P String.[] = ⊥

abbrev Empty : String → Type 0
Empty s = s ≡ ""

-- The text from a group on, with the dash before it.
abbrev FromFifth : String → Type 0
FromFifth = Dash (Hex 6 Empty)

abbrev FromFourth : String → Type 0
FromFourth = Dash (Hex 2 FromFifth)

abbrev FromThird : String → Type 0
FromThird = Dash (Hex 2 FromFourth)

abbrev FromSecond : String → Type 0
FromSecond = Dash (Hex 2 FromThird)

-- Version 4 of RFC 4122: five groups, the version first in the third, the variant first in the fourth.
pub record UuidV4 (u : String) : Type 0 where
  pub groups : Hex 4 FromSecond u
  pub version : char_at 14 u ≡ some "4"
  pub variant : (c : Char) × (char_at 19 u ≡ some c) × In c ("8" ∷ "9" ∷ "a" ∷ "b" ∷ [])

version_test : ℕ → Bool
version_test v = bit_or (bit_and v 0x0f) 0x40 / 16 == 4

versions : all_below 256 version_test ≡ true
unfolding all_below version_test
versions = refl

variant_test : ℕ → Bool
variant_test v =
    leb 8 (bit_or (bit_and v 0x3f) 0x80 / 16) && leb (bit_or (bit_and v 0x3f) 0x80 / 16) 11

variants : all_below 256 variant_test ≡ true
unfolding all_below variant_test
variants = refl

four_values : (n : ℕ) → (leb 8 n && leb n 11) ≡ true → (n ≡ 8) ⊎ (n ≡ 9) ⊎ (n ≡ 10) ⊎ (n ≡ 11)
four_values n h = ground arith

variant_digit :
    (n : ℕ) → (leb 8 n && leb n 11) ≡ true → In (hex_digit n) ("8" ∷ "9" ∷ "a" ∷ "b" ∷ [])
unfolding hex_digit
variant_digit n h = elim (four_values n h) [
  | inl e ↦ inl (ap hex_digit e)
  | inr (inl e) ↦ inr (inl (ap hex_digit e))
  | inr (inr (inl e)) ↦ inr (inr (inl (ap hex_digit e)))
  | inr (inr (inr e)) ↦ inr (inr (inr (inl (ap hex_digit e))))
]

version_digit : (v : ℕ) → v < 256 → hex_digit (bit_or (bit_and v 0x0f) 0x40 / 16) ≡ "4"
unfolding hex_digit version_test
version_digit v h =
    ap hex_digit ((nat_key.beq_iff _ 4).0 (all_below_sound 256 version_test v versions h))

digit_test : ℕ → Bool
digit_test n = is_hex (code (hex_digit n))

digits : all_below 16 digit_test ≡ true
unfolding all_below digit_test hex_digit
digits = refl

hex_digit_hex : (n : ℕ) → n < 16 → is_hex (code (hex_digit n)) ≡ true
unfolding digit_test
hex_digit_hex n h = all_below_sound 16 digit_test n digits h

hex_in_front-Hex :
    (P : String → Type 0) (b : ℕ → ℕ) (i n : ℕ) (rest : String)
    → ((j : ℕ) → b j < 256)
    → P rest
    → Hex n P (hex_in_front b i n rest)
unfolding hex_in_front
hex_in_front-Hex P b i zero rest bytes h = h
hex_in_front-Hex P b i (suc n) rest bytes h = (
  hex_digit_hex (b i / 16) (omega (arith, bytes i)),
  hex_digit_hex (b i % 16) (omega arith),
  hex_in_front-Hex P b (suc i) n rest bytes h,
)

version_byte : ℕ → Bool
version_byte v = ltb (bit_or (bit_and v 0x0f) 0x40) 256

variant_byte : ℕ → Bool
variant_byte v = ltb (bit_or (bit_and v 0x3f) 0x80) 256

version_bytes : all_below 256 version_byte ≡ true
unfolding all_below version_byte
version_bytes = refl

variant_bytes : all_below 256 variant_byte ≡ true
unfolding all_below variant_byte
variant_bytes = refl

set_byte_lt :
    (i v : ℕ) (b : ℕ → ℕ) → v < 256 → ((j : ℕ) → b j < 256) → (j : ℕ) → set_byte i v b j < 256
set_byte_lt i v b small bytes j = elim (Bool-cases (j == i)) [
  | inl there ↦ rw there small
  | inr other ↦ rw other (bytes j)
]

marked_lt : (b : ℕ → ℕ) → ((j : ℕ) → b j < 256) → (j : ℕ) → marked b j < 256
unfolding version_byte variant_byte
marked_lt b bytes =
    let version : bit_or (bit_and (b 6) 0x0f) 0x40 < 256 =
      ground (arith, all_below_sound 256 version_byte (b 6) version_bytes (bytes 6)) in
    let variant : bit_or (bit_and (b 8) 0x3f) 0x80 < 256 =
      ground (arith, all_below_sound 256 variant_byte (b 8) variant_bytes (bytes 8)) in
    set_byte_lt 8 _ _ variant (set_byte_lt 6 _ b version bytes)

new_uuid-groups : (b : ℕ → ℕ) → ((j : ℕ) → b j < 256) → Hex 4 FromSecond (new_uuid (some b))
unfolding new_uuid
new_uuid-groups b bytes =
    let small = marked_lt b bytes in
    let fifth = String.◌∷◌ "-" (hex_in_front (marked b) 10 6 "") in
    let from_fifth : FromFifth fifth =
      (refl, hex_in_front-Hex Empty (marked b) 10 6 "" small refl) in
    let fourth = String.◌∷◌ "-" (hex_in_front (marked b) 8 2 fifth) in
    let from_fourth : FromFourth fourth =
      (refl, hex_in_front-Hex FromFifth (marked b) 8 2 fifth small from_fifth) in
    let third = String.◌∷◌ "-" (hex_in_front (marked b) 6 2 fourth) in
    let from_third : FromThird third =
      (refl, hex_in_front-Hex FromFourth (marked b) 6 2 fourth small from_fourth) in
    let second = String.◌∷◌ "-" (hex_in_front (marked b) 4 2 third) in
    let from_second : FromSecond second =
      (refl, hex_in_front-Hex FromThird (marked b) 4 2 third small from_third) in
    hex_in_front-Hex FromSecond (marked b) 0 4 second small from_second

-- Of 16 random bytes the identifier is a text of hexadecimal digits in groups of 8, 4, 4, 4 and 12 with
-- dashes between them, the digit 4 of the version at 14, and 8, 9, a or b of the variant at 19.
pub new_uuid-UuidV4 : (b : ℕ → ℕ) → ((i : ℕ) → b i < 256) → UuidV4 (new_uuid (some b))
unfolding new_uuid hex_in_front variant_test
new_uuid-UuidV4 b bytes = record {
  groups = new_uuid-groups b bytes;
  version = ap some (version_digit (b 6) (bytes 6));
  variant = (_, refl, variant_digit _ (all_below_sound 256 variant_test (b 8) variants (bytes 8)));
}
