-- ===== src/Config/Example.antt =====
-- Rules that behave as the package of config/config.go documents its own, and a configuration, for
-- the tests.
use text.Mathlib.TextEquality.{eq_iff}
use go_loadbalancer.Prelude.{
  ◌≡◌, refl, ◌↔◌, arith, Bool, true, false, ◌||◌, ◌&&◌, List, [], ◌∷◌, Option, none, some, String,
  In, All, leb, ltb, if◌then◌else◌,
}
use go_loadbalancer.Prelude.Int.{pos, leb_ℤ, beq_ℤ}
use go_loadbalancer.Prelude.Map.{◌==◌, string_key, nat_key}
use go_loadbalancer.Config.{Config, Parsers, defaults}
use go_loadbalancer.Config.Rules.{Ozzo, Documented}

refuse_unless : Bool → Option String
refuse_unless true = none
refuse_unless false = some "refused"

refuse_unless_iff : (b : Bool) → (refuse_unless b ≡ none) ↔ (b ≡ true)
unfolding refuse_unless
refuse_unless_iff true = ground arith
refuse_unless_iff false = ground arith

member : List String → String → Bool
member [] s = false
member (x ∷ xs) s = (s == x) || member xs s

member_iff : (xs : List String) (s : String) → (member xs s ≡ true) ↔ In s xs
unfolding member
member_iff [] s = ((λ h. cc), (λ i. elim i [ ]))
member_iff (x ∷ xs) s = ground (arith, eq_iff s x, member_iff xs s)

first_error : List (Option String) → Option String
first_error [] = none
first_error (none ∷ rs) = first_error rs
first_error (some e ∷ rs) = some e

first_error_iff : (rs : List (Option String)) → (first_error rs ≡ none) ↔ All (λ r. r ≡ none) rs
unfolding first_error
first_error_iff [] = ((λ h. tt), (λ h. refl))
first_error_iff (none ∷ rs) =
    ((λ h. (refl, (first_error_iff rs).0 h)), (λ h. (first_error_iff rs).1 h.1))
first_error_iff (some e ∷ rs) = ((λ h. cc), (λ h. let g = h.0 in cc))

unfoldable pub rules : Ozzo
unfolding refuse_unless member first_error
rules = record {
  Error = String;
  new_error = λ code message. code;
  required_text = λ s. refuse_unless (if s == "" then false else true);
  required_number = λ n. refuse_unless (if beq_ℤ n (pos 0) then false else true);
  required_list = λ n. refuse_unless (ltb 0 n);
  required_struct = none;
  is_in = λ xs s. refuse_unless ((s == "") || member xs s);
  min = λ m n. refuse_unless (beq_ℤ n (pos 0) || leb_ℤ m n);
  length = λ lo hi n. refuse_unless ((n == 0) || (leb lo n && ((hi == 0) || leb n hi)));
  each = first_error;
  field = first_error;
  validate_struct = first_error;
  host = λ h. refuse_unless (h == "localhost");
}

pub rules-Documented : Documented rules
unfolding rules
rules-Documented = record {
  required_text_iff =
      λ s. ground (arith, eq_iff s "", refuse_unless_iff (if s == "" then false else true));
  required_number_iff =
      λ n. ground (arith, refuse_unless_iff (if beq_ℤ n (pos 0) then false else true));
  required_list_iff = λ n. ground (arith, refuse_unless_iff (ltb 0 n));
  required_struct_passes = refl;
  is_in_iff = λ xs s.
      ground (arith, eq_iff s "", member_iff xs s, refuse_unless_iff ((s == "") || member xs s));
  min_iff = λ m n. ground (arith, refuse_unless_iff (beq_ℤ n (pos 0) || leb_ℤ m n));
  length_iff = λ lo hi n.
      ground (arith, refuse_unless_iff ((n == 0) || (leb lo n && ((hi == 0) || leb n hi))));
  each_iff = first_error_iff;
  field_iff = first_error_iff;
  validate_struct_iff = first_error_iff;
}

-- Addresses without a path, and durations of two seconds.
abbrev pub parsers : Parsers
parsers = record {
  parse_duration = λ s. if s == "2s" then some (pos 2000000000) else none;
  parse_url = λ s. some (record { scheme = "http"; host = "localhost:8081"; text = s });
}

abbrev pub config : Config
config = record defaults {
  backends =
      record { url = "http://localhost:8081"; weight = pos 1 }
      ∷ record { url = "http://localhost:8082"; weight = pos 3 }
      ∷ [];
}

pub host_iff : (h : String) → (rules.host h ≡ none) ↔ ((h == "localhost") ≡ true)
unfolding rules
host_iff h = refuse_unless_iff (h == "localhost")
