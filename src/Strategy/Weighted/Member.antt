-- ===== src/Strategy/Weighted/Member.antt =====
-- internal/strategy/weighted_round_robin.go chooses among the backends that it is offered.
use go_loadbalancer.Prelude.{ℕ, ◌≡◌, ◌⊎◌, inl, inr, arith, List, [], ◌∷◌, Option, none, some, In}
use go_loadbalancer.Prelude.Int.{pos}
use go_loadbalancer.Backend.{Store}
use go_loadbalancer.Strategy.Weighted.{Current, cleanup, Scan, visit, scan, settle, select_backend}

visit-chosen :
    (store : Store) (b : ℕ) (s : Scan)
    → ((visit store b s).chosen ≡ some b) ⊎ ((visit store b s).chosen ≡ s.chosen)
unfolding visit
visit-chosen store b s = ground arith

scan-chosen :
    (store : Store) (bs : List ℕ) (s : Scan) {p : ℕ}
    → (scan store bs s).chosen ≡ some p
    → In p bs ⊎ (s.chosen ≡ some p)
unfolding scan
scan-chosen store [] s e = inr e
scan-chosen store (b ∷ bs) s e = elim (scan-chosen store bs (visit store b s) e) [
  | inl i ↦ inl (inr i)
  | inr old ↦ elim (visit-chosen store b s) [
    | inl here ↦ inl (inl (ground arith))
    | inr same ↦ inr (ground arith)
  ]
]

settle-chosen : (s : Scan) (o : Option ℕ) {p : ℕ} → (settle s o).1 ≡ some p → o ≡ some p
unfolding settle
settle-chosen s none e = e
settle-chosen s (some c) e = ground arith

-- A backend that is chosen is one of those offered, whatever the weights.
pub winner-In :
    (store : Store) (bs : List ℕ) (m : Current) {p : ℕ}
    → (select_backend store bs m).1 ≡ some p
    → In p bs
unfolding select_backend
winner-In store [] m e = cc
winner-In store (b ∷ bs) m e =
    let s0 : Scan = record { current = cleanup (b ∷ bs) m; total_weight = pos 0; chosen = none } in
    let t : Scan = scan store (b ∷ bs) s0 in
    elim (scan-chosen store (b ∷ bs) s0 (settle-chosen t t.chosen e)) [ inl i ↦ i | inr old ↦ cc ]
