-- ===== src/Go/Crc.antt =====
-- `[]byte(s)` of a string, `strconv.Itoa` of a number that is not negative, and
-- `crc32.ChecksumIEEE` of Go's standard library.
use Prim.Native.Nat.{bit_xor}
use Prim.Native.Char.{code}
use Prim.Native.String.{String}
use go_loadbalancer.Prelude.{
  ℕ, zero, suc, ◌+◌, ◌/◌, ◌%◌, ◌≡◌, refl, List, [], ◌∷◌, ◌++◌, ltb, if◌then◌else◌,
}
use go_loadbalancer.Prelude.Map.{◌==◌, nat_key}

-- UTF-8 of one code point.
utf8 : ℕ → List ℕ
utf8 c =
    if ltb c 0x80
    then c ∷ []
    else if ltb c 0x800
    then (0xc0 + c / 64) ∷ (0x80 + c % 64) ∷ []
    else if ltb c 0x10000
    then (0xe0 + c / 4096) ∷ (0x80 + c / 64 % 64) ∷ (0x80 + c % 64) ∷ []
    else (0xf0 + c / 262144) ∷ (0x80 + c / 4096 % 64) ∷ (0x80 + c / 64 % 64) ∷ (0x80 + c % 64) ∷ []

unfoldable pub bytes : String → List ℕ
unfolding utf8
bytes String.[] = []
bytes (String.◌∷◌ c s) = utf8 (code c) ++ bytes s

-- The digits of a number in front of those `written`. Each round takes one off, so a fuel of `n + 1` is
-- enough for `n`.
decimal : List ℕ → ℕ → ℕ → List ℕ
decimal written zero n = written
decimal written (suc k) n =
    let longer = (b'0' + n % 10) ∷ written in
    let all = decimal longer k (n / 10) in if ltb n 10 then longer else all

unfoldable pub itoa : ℕ → List ℕ
unfolding decimal
itoa n = decimal [] (suc n) n

-- Eight rounds of the reflected polynomial 0xEDB88320.
rounds : ℕ → ℕ → ℕ
rounds zero c = c
rounds (suc k) c = rounds k (if c % 2 == 1 then bit_xor (c / 2) 0xedb88320 else c / 2)

update : ℕ → List ℕ → ℕ
unfolding rounds
update c [] = c
update c (b ∷ bs) = update (rounds 8 (bit_xor c b)) bs

unfoldable pub checksum_ieee : List ℕ → ℕ
unfolding update
checksum_ieee data_bytes = bit_xor (update 0xffffffff data_bytes) 0xffffffff

-- The check value that the CRC catalogues give for this polynomial.
checksum_check : checksum_ieee (bytes "123456789") ≡ 0xcbf43926
unfolding checksum_ieee bytes
checksum_check = refl

itoa_check : itoa 1205 ≡ bytes "1205"
unfolding itoa bytes
itoa_check = refl
