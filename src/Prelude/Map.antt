-- ===== src/Prelude/Map.antt =====
-- Go's maps as association lists: a key stands once, a missing key reads as the zero value, and the
-- order of iteration, which Go leaves open, is the order of the list.
use Prim.Native.Nat.{ℕ}
use Prim.Native.String.{String}
use mathlib.Core.Path.{◌≡◌, refl}
use mathlib.Core.Logic.{◌↔◌}
use mathlib.Core.Bool.{Bool, true}
use mathlib.Core.List.{List, [], ◌∷◌}
use mathlib.Core.Option.{Option, none, some}
use native.Mathlib.Omega.{arith}
use text.Mathlib.Text.{◌==◌ as str_eq}
use text.Mathlib.TextEquality.{eq_iff}
use go_loadbalancer.Prelude.Int.{ℤ, beq_ℤ, eq_of_parts}
use go_loadbalancer.Prelude.Tests.{nat_beq, nat_beq_iff, if◌then◌else◌}

-- A type of keys with its test for equality.
pub record Key {ℓ} (K : Type ℓ) : Type ℓ where
  pub beq : K → K → Bool
  pub beq_iff : (a b : K) → (beq a b ≡ true) ↔ (a ≡ b)

infix 50 ◌==◌
abbrev pub ◌==◌ {ℓ} : {K : Type ℓ} ⦃e : Key K⦄ → K → K → Bool
◌==◌ ⦃e⦄ = e.beq

instance abbrev pub nat_key : Key ℕ
nat_key = record { beq = nat_beq; beq_iff = nat_beq_iff }

instance abbrev pub string_key : Key String
string_key = record { beq = str_eq; beq_iff = eq_iff }

pub beq_ℤ_iff : (a b : ℤ) → (beq_ℤ a b ≡ true) ↔ (a ≡ b)
beq_ℤ_iff a b = ground (arith, eq_of_parts a b)

instance abbrev pub int_key : Key ℤ
int_key = record { beq = beq_ℤ; beq_iff = beq_ℤ_iff }

pub beq_refl {ℓ} : {K : Type ℓ} ⦃e : Key K⦄ (k : K) → (k == k) ≡ true
beq_refl ⦃e⦄ k = (e.beq_iff k k).1 refl

abbrev pub Map : Type 0 → Type 0 → Type 0
Map K V = List (K × V)

module _ {K V : Type 0} ⦃e : Key K⦄ where
  unfoldable pub lookup : K → Map K V → Option V
  lookup key [] = none
  lookup key ((other, val) ∷ tail) = if other == key then some val else lookup key tail

  -- `m[k]`, with the zero value for a missing key.
  unfoldable pub get : V → K → Map K V → V
  get d key [] = d
  get d key ((other, val) ∷ tail) = if other == key then val else get d key tail

  unfoldable pub insert : K → V → Map K V → Map K V
  insert key val [] = (key, val) ∷ []
  insert key val ((other, old) ∷ tail) =
      if other == key then (key, val) ∷ tail else (other, old) ∷ insert key val tail

  -- Keep the entries whose key passes the test.
  unfoldable pub retain : (K → Bool) → Map K V → Map K V
  retain p [] = []
  retain p ((other, val) ∷ tail) =
      let rest = retain p tail in if p other then (other, val) ∷ rest else rest

  pub lookup-insert :
      (key other : K) (val : V) (tail : Map K V)
      → lookup other (insert key val tail) ≡ (if key == other then some val else lookup other tail)
  unfolding lookup insert
  lookup-insert key other val [] = refl
  lookup-insert key other val ((first, old) ∷ tail) = ground (
    arith,
    e.beq_iff key other,
    e.beq_iff first key,
    e.beq_iff first other,
    lookup-insert key other val tail,
  )

  pub get-insert :
      (d : V) (key other : K) (val : V) (tail : Map K V)
      → get d other (insert key val tail) ≡ (if key == other then val else get d other tail)
  unfolding get insert
  get-insert d key other val [] = refl
  get-insert d key other val ((first, old) ∷ tail) = ground (
    arith,
    e.beq_iff key other,
    e.beq_iff first key,
    e.beq_iff first other,
    get-insert d key other val tail,
  )

  pub get-retain :
      (d : V) (p : K → Bool) (key : K) (tail : Map K V)
      → p key ≡ true
      → get d key (retain p tail) ≡ get d key tail
  unfolding get retain
  get-retain d p key [] h = refl
  get-retain d p key ((other, val) ∷ tail) h =
      ground (arith, e.beq_iff other key, get-retain d p key tail h)
