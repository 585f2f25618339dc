-- ===== src/Config/Fields.antt =====
-- Fields and structs under the rules that config/config.go combines.
use go_loadbalancer.Prelude.{◌≡◌, ap, ◌↔◌, inl, inr, List, [], ◌∷◌, Option, none, String, In}
use go_loadbalancer.Prelude.Int.{ℤ, pos, ◌≤ℤ◌, int_laws, pos_part}
use go_loadbalancer.Prelude.Map.{string_key}
use go_loadbalancer.Config.Rules.{Ozzo, Documented}

module _ (o : Ozzo) (d : Documented o) where
  -- Two rules of one field, and the fields of a struct with one or two of them.
  pub two_rules : {a b : Option o.Error} → (o.field (a ∷ b ∷ []) ≡ none) ↔ ((a ≡ none) × (b ≡ none))
  two_rules {a} {b} = (
    (λ h. let (x, (y, _)) = (d.field_iff (a ∷ b ∷ [])).0 h in (x, y)),
    (λ h. (d.field_iff (a ∷ b ∷ [])).1 (h.0, (h.1, tt))),
  )

  pub two_fields :
      {a b : Option o.Error} → (o.validate_struct (a ∷ b ∷ []) ≡ none) ↔ ((a ≡ none) × (b ≡ none))
  two_fields {a} {b} = (
    (λ h. let (x, (y, _)) = (d.validate_struct_iff (a ∷ b ∷ [])).0 h in (x, y)),
    (λ h. (d.validate_struct_iff (a ∷ b ∷ [])).1 (h.0, (h.1, tt))),
  )

  pub one_field : {a : Option o.Error} → (o.validate_struct (a ∷ []) ≡ none) ↔ (a ≡ none)
  one_field {a} = (
    (λ h. ((d.validate_struct_iff (a ∷ [])).0 h).0),
    (λ h. (d.validate_struct_iff (a ∷ [])).1 (h, tt)),
  )

  pub struct_field :
      {a : Option o.Error} → (o.field (o.required_struct ∷ a ∷ []) ≡ none) ↔ (a ≡ none)
  struct_field = ((λ h. (two_rules.0 h).1), (λ h. two_rules.1 (d.required_struct_passes, h)))

  pub known_text :
      (xs : List String) (s : String)
      → ¬ In "" xs
      → (o.field (o.required_text s ∷ o.is_in xs s ∷ []) ≡ none) ↔ In s xs
  known_text xs s no_empty = (
    (λ h.
        let (some_text, listed) = two_rules.0 h in
        elim ((d.is_in_iff xs s).0 listed) [
          | inl e ↦ absurd ((d.required_text_iff s).0 some_text e)
          | inr i ↦ i
        ]),
    (λ i.
        two_rules.1
          ((d.required_text_iff s).1 (λ e. no_empty (rw (← e) i)), (d.is_in_iff xs s).1 (inr i))),
  )

  pub positive_number :
      (n : ℤ) → (o.field (o.required_number n ∷ o.min (pos 1) n ∷ []) ≡ none) ↔ (pos 1 ≤ℤ n)
  positive_number n = (
    (λ h.
        let (nonzero, least) = two_rules.0 h in
        elim ((d.min_iff (pos 1) n).0 least) [
          | inl e ↦ absurd ((d.required_number_iff n).0 nonzero e)
          | inr l ↦ l
        ]),
    (λ l. two_rules.1 (
      (d.required_number_iff n).1 (λ e. omega (int_laws, l, ap pos_part e)),
      (d.min_iff (pos 1) n).1 (inr l),
    )),
  )
