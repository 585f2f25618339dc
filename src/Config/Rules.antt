-- ===== src/Config/Rules.antt =====
-- The rules of package github.com/go-ozzo/ozzo-validation/v4 that config/config.go uses, each applied
-- to a value: `none` for a value that passes.
use go_loadbalancer.Prelude.{ℕ, ◌≤◌, ◌<◌, ◌≡◌, ◌≢◌, ◌↔◌, ◌⊎◌, List, Option, none, String, In, All}
use go_loadbalancer.Prelude.Int.{ℤ, pos, ◌≤ℤ◌}

pub record Ozzo : Type 1 where
  pub Error : Type 0
  pub new_error : String → String → Error
  pub required_text : String → Option Error
  pub required_number : ℤ → Option Error
  pub required_list : ℕ → Option Error  -- of the list's length
  pub required_struct : Option Error  -- the same for every struct but a time
  pub is_in : List String → String → Option Error
  pub min : ℤ → ℤ → Option Error
  pub length : ℕ → ℕ → ℕ → Option Error  -- at least, at most, the length
  pub each : List (Option Error) → Option Error
  pub field : List (Option Error) → Option Error  -- the rules of one field
  pub validate_struct : List (Option Error) → Option Error  -- the fields
  pub host : String → Option Error  -- is.Host

-- What the package documents: `Required` refuses the empty value alone, the other rules pass it, and
-- a combination passes if all its parts do.
pub record Documented (o : Ozzo) : Type 1 where
  pub required_text_iff : (s : String) → (o.required_text s ≡ none) ↔ (s ≢ "")
  pub required_number_iff : (n : ℤ) → (o.required_number n ≡ none) ↔ (n ≢ pos 0)
  pub required_list_iff : (n : ℕ) → (o.required_list n ≡ none) ↔ (0 < n)
  pub required_struct_passes : o.required_struct ≡ none
  pub is_in_iff : (xs : List String) (s : String) → (o.is_in xs s ≡ none) ↔ ((s ≡ "") ⊎ In s xs)
  pub min_iff : (m n : ℤ) → (o.min m n ≡ none) ↔ ((n ≡ pos 0) ⊎ (m ≤ℤ n))
  pub length_iff :
      (lo hi n : ℕ) → (o.length lo hi n ≡ none) ↔ ((n ≡ 0) ⊎ ((lo ≤ n) × ((hi ≡ 0) ⊎ (n ≤ hi))))
  pub each_iff : (rs : List (Option o.Error)) → (o.each rs ≡ none) ↔ All (λ r. r ≡ none) rs
  pub field_iff : (rs : List (Option o.Error)) → (o.field rs ≡ none) ↔ All (λ r. r ≡ none) rs
  pub validate_struct_iff :
      (rs : List (Option o.Error)) → (o.validate_struct rs ≡ none) ↔ All (λ r. r ≡ none) rs
