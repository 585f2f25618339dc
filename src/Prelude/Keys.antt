-- ===== src/Prelude/Keys.antt =====
-- The keys of a map.
use Prim.Native.Nat.{suc, ◌≤◌}
use mathlib.Core.Path.{◌≡◌, refl, sym, ap, ◌∙◌}
use mathlib.Core.Logic.{◌⊎◌, inl, inr}
use mathlib.Core.List.{List, [], ◌∷◌}
use native.Mathlib.Omega.{arith}
use go_loadbalancer.Prelude.Tests.{Bool-cases}
use go_loadbalancer.Prelude.Lists.{In, Distinct, length}
use go_loadbalancer.Prelude.Map.{Key, Map, insert, ◌==◌}

module _ {K V : Type 0} where
  abbrev pub keys : Map K V → List K
  keys [] = []
  keys ((k, v) ∷ m) = k ∷ keys m

module _ {K V : Type 0} ⦃e : Key K⦄ where
  pub In-insert :
      (k : K) (v : V) (m : Map K V) (j : K) → In j (keys (insert k v m)) → (j ≡ k) ⊎ In j (keys m)
  unfolding insert
  In-insert k v [] j = λ i. i
  In-insert k v ((o, w) ∷ m) j = elim (Bool-cases (o == k)) [
    | inl same ↦ rw same (λ i. elim i [ inl h ↦ inl h | inr h ↦ inr (inr h) ])
    | inr apart ↦ rw apart (λ i. elim i [
      | inl f ↦ inr (inl f)
      | inr h ↦ elim (In-insert k v m j h) [ inl f ↦ inl f | inr g ↦ inr (inr g) ]
    ])
  ]

  pub insert-In : (k : K) (v : V) (m : Map K V) → In k (keys (insert k v m))
  unfolding insert
  insert-In k v [] = inl refl
  insert-In k v ((o, w) ∷ m) = elim (Bool-cases (o == k)) [
    | inl same ↦ rw same (inl refl)
    | inr apart ↦ rw apart (inr (insert-In k v m))
  ]

  pub insert-keeps :
      (k : K) (v : V) (m : Map K V) (j : K) → In j (keys m) → In j (keys (insert k v m))
  unfolding insert
  insert-keeps k v [] j = λ i. elim i [ ]
  insert-keeps k v ((o, w) ∷ m) j = elim (Bool-cases (o == k)) [
    | inl same ↦ rw same (λ i. elim i [ inl f ↦ inl (f ∙ (e.beq_iff o k).0 same) | inr h ↦ inr h ])
    | inr apart ↦ rw apart (λ i. elim i [ inl h ↦ inl h | inr h ↦ inr (insert-keeps k v m j h) ])
  ]

  pub Distinct-insert :
      (k : K) (v : V) (m : Map K V) → Distinct (keys m) → Distinct (keys (insert k v m))
  unfolding insert
  Distinct-insert k v [] d = ((λ i. elim i [ ]), tt)
  Distinct-insert k v ((o, w) ∷ m) d = elim (Bool-cases (o == k)) [
    | inl same ↦ rw (same, ← (e.beq_iff o k).0 same) d
    | inr apart ↦ rw apart (
      (λ i. elim (In-insert k v m o i) [
        | inl f ↦ ground (arith, f, e.beq_iff o k)
        | inr h ↦ d.0 h
      ]),
      Distinct-insert k v m d.1,
    )
  ]

  pub insert_length : (k : K) (v : V) (m : Map K V) → 1 ≤ length (insert k v m)
  unfolding insert
  insert_length k v [] = omega arith
  insert_length k v ((o, w) ∷ m) = ground (arith, insert_length k v m)

  pub insert_grows : (k : K) (v : V) (m : Map K V) → length m ≤ length (insert k v m)
  unfolding insert
  insert_grows k v [] = omega arith
  insert_grows k v ((o, w) ∷ m) = ground (arith, insert_grows k v m)

  -- Inserting makes the map longer by one exactly if the key is new.
  pub insert_new :
      (k : K) (v : V) (m : Map K V)
      → (In k (keys m) × (length (insert k v m) ≡ length m))
        ⊎ (¬ In k (keys m) × (length (insert k v m) ≡ suc (length m)))
  unfolding insert
  insert_new k v [] = inr ((λ i. elim i [ ]), refl)
  insert_new k v ((o, w) ∷ m) = elim (Bool-cases (o == k)) [
    | inl same ↦ rw same (inl (inl (sym ((e.beq_iff o k).0 same)), refl))
    | inr apart ↦ rw apart (elim (insert_new k v m) [
      | inl (i, len) ↦ inl (inr i, ap suc len)
      | inr (out, len) ↦
          inr
            ((λ i. elim i [ inl f ↦ ground (arith, f, e.beq_iff o k) | inr h ↦ out h ]), ap suc len)
    ])
  ]
