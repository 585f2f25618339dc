-- ===== src/Go/Text.antt =====
-- What the code uses of package strings and of indexing in a text. All the characters looked for are
-- ASCII, so positions of characters and of bytes agree.
use Prim.Native.Char.{Char, code}
use Prim.Native.String.{String}
use go_loadbalancer.Prelude.{ℕ, Bool, false, ◌&&◌, ◌||◌, Option, none, some, leb, if◌then◌else◌}
use go_loadbalancer.Prelude.Map.{◌==◌, nat_key}

unfoldable pub contains : ℕ → String → Bool
contains b String.[] = false
contains b (String.◌∷◌ c s) = (code c == b) || contains b s

abbrev in_front : Char → Option (String × String) → Option (String × String)
in_front c none = none
in_front c (some (s, t)) = some (String.◌∷◌ c s, t)

-- The text before the first `b` and the text after it.
unfoldable pub cut : ℕ → String → Option (String × String)
cut b String.[] = none
cut b (String.◌∷◌ c s) =
    let rest = in_front c (cut b s) in if code c == b then some (String.[], s) else rest

abbrev or_here : ℕ → Char → String → Option (String × String) → Option (String × String)
or_here b c s none = if code c == b then some (String.[], s) else none
or_here b c s (some (t, u)) = some (String.◌∷◌ c t, u)

-- The text before the last `b` and the text after it.
unfoldable pub cut_last : ℕ → String → Option (String × String)
cut_last b String.[] = none
cut_last b (String.◌∷◌ c s) = or_here b c s (cut_last b s)

-- `strings.Split(s, sep)[0]`
unfoldable pub first_part : ℕ → String → String
unfolding cut
first_part b s = elim (cut b s) [ none ↦ s | some p ↦ p.0 ]

-- `unicode.IsSpace`
unfoldable pub is_space : ℕ → Bool
is_space c =
    (leb 9 c && leb c 13)
    || (c == 32)
    || (c == 0x85)
    || (c == 0xa0)
    || (c == 0x1680)
    || (leb 0x2000 c && leb c 0x200a)
    || (c == 0x2028)
    || (c == 0x2029)
    || (c == 0x202f)
    || (c == 0x205f)
    || (c == 0x3000)

unfoldable pub trim_left : String → String
trim_left String.[] = String.[]
trim_left (String.◌∷◌ c s) =
    let rest = trim_left s in if is_space (code c) then rest else String.◌∷◌ c s

abbrev keep_unless_space : Char → String → String
keep_unless_space c String.[] = if is_space (code c) then String.[] else String.◌∷◌ c String.[]
keep_unless_space c (String.◌∷◌ d s) = String.◌∷◌ c (String.◌∷◌ d s)

unfoldable pub trim_right : String → String
trim_right String.[] = String.[]
trim_right (String.◌∷◌ c s) = keep_unless_space c (trim_right s)

-- `strings.TrimSpace`
unfoldable pub trim_space : String → String
unfolding trim_left trim_right
trim_space s = trim_right (trim_left s)

-- `+`
abbrev pub append : String → String → String
append String.[] t = t
append (String.◌∷◌ c s) t = String.◌∷◌ c (append s t)
