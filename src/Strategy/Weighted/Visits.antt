-- ===== src/Strategy/Weighted/Visits.antt =====
-- One round of the loop of `SelectBackend` in internal/strategy/weighted_round_robin.go.
use go_loadbalancer.Prelude.{
  ℕ, ◌≡◌, ◌≢◌, refl, inl, inr, arith, true, false, List, [], ◌∷◌, some, In, if◌then◌else◌,
}
use go_loadbalancer.Prelude.Int.{ℤ, pos, ◌<ℤ◌, ◌+ℤ◌, leb_ℤ, InRange, wrap_id, add64, int_laws}
use go_loadbalancer.Prelude.Map.{get, insert, get-insert, get-retain, nat_key, beq_refl}
use go_loadbalancer.Backend.{Store}
use go_loadbalancer.Strategy.Weighted.{Current, alive, cleanup, at, Scan, better, visit}

abbrev pub weight_of : Store → ℕ → ℤ
weight_of store b = (store b).weight

unfoldable pub total : Store → List ℕ → ℤ
total store [] = pos 0
total store (b ∷ bs) = weight_of store b +ℤ total store bs

alive-In : (bs : List ℕ) (b : ℕ) → In b bs → alive bs b ≡ true
unfolding alive
alive-In [] b h = elim h [ ]
alive-In (x ∷ xs) b (inl e) = rw e (ground (arith, beq_refl x))
alive-In (x ∷ xs) b (inr h) = ground (arith, alive-In xs b h)

pub cleanup-at :
    (bs : List ℕ) (current : Current) (b : ℕ) → In b bs → at (cleanup bs current) b ≡ at current b
unfolding cleanup
cleanup-at bs current b h = get-retain (pos 0) (alive bs) b current (alive-In bs b h)

-- A visit where no sum leaves the range of `int`.
unfoldable pub visited : Store → ℕ → Scan → Scan
unfolding insert get better
visited store b s =
    let current = insert b (at s.current b +ℤ weight_of store b) s.current in
    record {
      current = current;
      total_weight = s.total_weight +ℤ weight_of store b;
      chosen = if better current b s.chosen then some b else s.chosen;
    }

pub visit-visited :
    (store : Store) (b : ℕ) (s : Scan)
    → pos 0 <ℤ weight_of store b
    → InRange (at s.current b +ℤ weight_of store b)
    → InRange (s.total_weight +ℤ weight_of store b)
    → visit store b s ≡ visited store b s
unfolding visit visited add64
visit-visited store b s positive fits sums =
    let test : leb_ℤ (weight_of store b) (pos 0) ≡ false = ground arith in
    rw (test, wrap_id _ fits, wrap_id _ sums) refl

pub visited-at_self :
    (store : Store) (b : ℕ) (s : Scan)
    → at (visited store b s).current b ≡ at s.current b +ℤ weight_of store b
unfolding visited
visited-at_self store b s = rw (get-insert (pos 0) b b _ s.current, beq_refl b) refl

pub visited-at_ne :
    (store : Store) (b q : ℕ) (s : Scan) → b ≢ q → at (visited store b s).current q ≡ at s.current q
unfolding visited
visited-at_ne store b q s ne =
    rw (get-insert (pos 0) b q (at s.current b +ℤ weight_of store b) s.current) (ground arith)

pub visited-total :
    (store : Store) (b : ℕ) (s : Scan)
    → (visited store b s).total_weight ≡ s.total_weight +ℤ weight_of store b
unfolding visited
visited-total store b s = refl

pub +ℤ_regroup : (a b c : ℤ) → a +ℤ b +ℤ c ≡ a +ℤ (b +ℤ c)
+ℤ_regroup a b c = omega int_laws
