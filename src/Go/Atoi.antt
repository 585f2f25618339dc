-- ===== src/Go/Atoi.antt =====
-- `strconv.Atoi`: decimal digits, with a sign or without, of a number that fits an `int`.
use Prim.Native.Char.{code}
use Prim.Native.String.{String}
use go_loadbalancer.Prelude.{
  ℕ, ◌+◌, ◌-◌, ◌*◌, ◌^◌, ◌≡◌, refl, ◌&&◌, Option, none, some, ltb, leb, if◌then◌else◌,
}
use go_loadbalancer.Prelude.Int.{ℤ, pos, negsuc}
use go_loadbalancer.Prelude.Map.{◌==◌, nat_key}

unfoldable pub digits : ℕ → String → Option ℕ
digits n String.[] = some n
digits n (String.◌∷◌ c s) =
    let rest = digits (n * 10 + (code c - b'0')) s in
    if leb b'0' (code c) && leb (code c) b'9' then rest else none

-- One digit at least.
unfoldable pub number : String → Option ℕ
unfolding digits
number String.[] = none
number (String.◌∷◌ c s) = digits 0 (String.◌∷◌ c s)

unfoldable pub positive : Option ℕ → Option ℤ
positive none = none
positive (some n) = if ltb n (2 ^ 63) then some (pos n) else none

negative : Option ℕ → Option ℤ
negative none = none
negative (some n) = if leb n (2 ^ 63) then some (if n == 0 then pos 0 else negsuc (n - 1)) else none

unfoldable pub atoi : String → Option ℤ
unfolding number positive negative
atoi String.[] = none
atoi (String.◌∷◌ c s) =
    if code c == b'-'
    then negative (number s)
    else if code c == b'+'
    then positive (number s)
    else positive (number (String.◌∷◌ c s))

atoi_check : atoi "-120" ≡ some (negsuc 119)
unfolding atoi
atoi_check = refl
