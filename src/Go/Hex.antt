-- ===== src/Go/Hex.antt =====
-- `hex.EncodeToString` of package encoding/hex, of `n` bytes from position `i` of a buffer.
use Prim.Native.Char.{Char}
use Prim.Native.String.{String}
use go_loadbalancer.Prelude.{ℕ, zero, suc, ◌/◌, ◌%◌}

pick : String → ℕ → Char
pick String.[] n = "f"
pick (String.◌∷◌ c s) zero = c
pick (String.◌∷◌ c s) (suc n) = pick s n

unfoldable pub hex_digit : ℕ → Char
unfolding pick
hex_digit n = pick "0123456789abcdef" n

-- The text of the bytes, in front of the text `rest`.
unfoldable pub hex_in_front : (ℕ → ℕ) → ℕ → ℕ → String → String
hex_in_front b i zero rest = rest
hex_in_front b i (suc n) rest =
    String.◌∷◌ (hex_digit (b i / 16))
      (String.◌∷◌ (hex_digit (b i % 16)) (hex_in_front b (suc i) n rest))
