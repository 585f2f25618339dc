-- ===== src/Scripts/CbCompare/Errors.antt =====
-- How often each message stands among the errors that scripts/cbcompare.go reports.
use go_loadbalancer.Prelude.{
  ℕ, suc, ◌+◌, ◌^◌, ◌<◌, ◌≡◌, ◌↔◌, refl, sym, ap, subst, ◌∙◌, ◌⊎◌, inl, inr, arith, Bool, true,
  List, [], ◌∷◌, In, Distinct, length, Bool-cases, if◌then◌else◌,
}
use go_loadbalancer.Prelude.Int.{ℤ, pos, add64, add64_pos}
use go_loadbalancer.Prelude.Map.{Map, get, insert, get-insert, ◌==◌}
use go_loadbalancer.Prelude.Keys.{keys, In-insert, insert-In, insert-keeps, Distinct-insert}
use go_loadbalancer.Go.Bytes.{bytes_key}
use go_loadbalancer.Scripts.CbCompare.{mark_all, count_unique, tally_all, error_counts}

abbrev pub occurrences : List ℕ → List (List ℕ) → ℕ
occurrences text [] = 0
occurrences text (e ∷ es) = (if e == text then 1 else 0) + occurrences text es

abbrev Messages : Type 0
Messages = Map (List ℕ) ℤ

abbrev more : List ℕ → Messages → Messages
more e m = insert e (add64 (get (pos 0) e m) (pos 1)) m

keys-insert :
    {V W : Type 0} (k : List ℕ) (v : V) (w : W) (m : Map (List ℕ) V) (n : Map (List ℕ) W)
    → keys m ≡ keys n
    → keys (insert k v m) ≡ keys (insert k w n)
unfolding insert
keys-insert k v w [] [] e = refl
keys-insert k v w [] ((o, b) ∷ n) e = absurd cc
keys-insert k v w ((j, a) ∷ m) [] e = absurd cc
keys-insert k v w ((j, a) ∷ m) ((o, b) ∷ n) e =
    let heads : j ≡ o = cc in
    let tails : keys m ≡ keys n = cc in
    elim (Bool-cases (o == k)) [
      | inl same ↦ rw (heads, same) (ap (λ ks. k ∷ ks) tails)
      | inr other ↦ rw (heads, other) (ap (λ ks. o ∷ ks) (keys-insert k v w m n tails))
    ]

mark_all-keys :
    (es : List (List ℕ)) (m : Map (List ℕ) Bool) (n : Messages)
    → keys m ≡ keys n
    → keys (mark_all es m) ≡ keys (tally_all es n)
mark_all-keys [] m n h = h
mark_all-keys (e ∷ es) m n h =
    mark_all-keys es (insert e true m) (more e n)
      (keys-insert e true (add64 (get (pos 0) e n) (pos 1)) m n h)

length-keys : {V : Type 0} (m : Map (List ℕ) V) → length (keys m) ≡ length m
length-keys [] = refl
length-keys (x ∷ m) = ap suc (length-keys m)

tally_all-Distinct :
    (es : List (List ℕ)) (m : Messages) → Distinct (keys m) → Distinct (keys (tally_all es m))
tally_all-Distinct [] m d = d
tally_all-Distinct (e ∷ es) m d = tally_all-Distinct es (more e m) (Distinct-insert e _ m d)

tally_all-In :
    (text : List ℕ) (es : List (List ℕ)) (m : Messages)
    → In text (keys (tally_all es m)) ↔ (In text es ⊎ In text (keys m))
tally_all-In text [] m = ((λ i. inr i), λ i. elim i [ inl h ↦ elim h [ ] | inr h ↦ h ])
tally_all-In text (e ∷ es) m =
    let (there, back) = tally_all-In text es (more e m) in
    (
      (λ i. elim (there i) [
        | inl h ↦ inl (inr h)
        | inr h ↦ elim (In-insert e _ m text h) [ inl f ↦ inl (inl f) | inr g ↦ inr g ]
      ]),
      (λ i. elim i [
        | inl h ↦ elim h [
          | inl f ↦ back (inr (subst (λ t. In t (keys (more e m))) (sym f) (insert-In e _ m)))
          | inr g ↦ back (inl g)
        ]
        | inr h ↦ back (inr (insert-keeps e _ m text h))
      ]),
    )

tally_all-counts :
    (text : List ℕ) (es : List (List ℕ)) (m : Messages) (n : ℕ)
    → get (pos 0) text m ≡ pos n
    → n + length es < 2 ^ 63
    → get (pos 0) text (tally_all es m) ≡ pos (n + occurrences text es)
tally_all-counts text [] m n h small = h ∙ ap pos (omega arith)
tally_all-counts text (e ∷ es) m n h small = elim (Bool-cases (e == text)) [
  | inl same ↦
      let at_e : get (pos 0) e m ≡ pos n =
        subst (λ t. get (pos 0) t m ≡ pos n) (sym ((bytes_key.beq_iff e text).0 same)) h in
      rw same (
        tally_all-counts text es (more e m) (n + 1)
          (rw (get-insert (pos 0) e text (add64 (get (pos 0) e m) (pos 1)) m, same, at_e)
            (add64_pos n 1 (omega (arith, small))))
          (omega (arith, small))
        ∙ ap pos (omega arith))
  | inr other ↦ rw other (
      tally_all-counts text es (more e m) n
        (rw (get-insert (pos 0) e text (add64 (get (pos 0) e m) (pos 1)) m, other) h)
        (omega (arith, small))
      ∙ ap pos (omega arith))
]

-- Of fewer than 2^63 errors, the report lists every message that occurs, once, with the number of its
-- occurrences, and the number of unique errors is that of the messages listed.
pub error_counts_lem :
    (es : List (List ℕ))
    → length es < 2 ^ 63
    → Distinct (keys (error_counts es))
      × (count_unique es ≡ length (error_counts es))
      × ((text : List ℕ) → In text (keys (error_counts es)) ↔ In text es)
      × ((text : List ℕ) → get (pos 0) text (error_counts es) ≡ pos (occurrences text es))
unfolding error_counts count_unique get
error_counts_lem es small = (
  tally_all-Distinct es [] tt,
  sym (length-keys (mark_all es []))
      ∙ ap length (mark_all-keys es [] [] refl)
      ∙ length-keys (tally_all es []),
  (λ text.
      let (there, back) = tally_all-In text es [] in
      ((λ i. elim (there i) [ inl h ↦ h | inr h ↦ elim h [ ] ]), λ i. back (inl i))),
  (λ text. tally_all-counts text es [] 0 refl (omega (arith, small)) ∙ ap pos (omega arith)),
)
