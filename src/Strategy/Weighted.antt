-- ===== src/Strategy/Weighted.antt =====
-- internal/strategy/weighted_round_robin.go: smooth weighted round robin. The map `current` is keyed
-- by the pointers to the backends; `SelectBackend` holds the mutex, so a selection is one step.
pub mod Visits
pub mod Scanning
pub mod Step
pub mod Sums
pub mod Fair
pub mod Member
pub mod Shares
mod Tests
use go_loadbalancer.Prelude.{
  ℕ, Bool, true, false, ◌||◌, List, [], ◌∷◌, Option, none, some, if◌then◌else◌,
}
use go_loadbalancer.Prelude.Int.{ℤ, pos, ltb_ℤ, leb_ℤ, beq_ℤ, add64, sub64}
use go_loadbalancer.Prelude.Map.{Map, get, insert, retain, ◌==◌, nat_key}
use go_loadbalancer.Backend.{Store}

abbrev pub Current : Type 0
Current = Map ℕ ℤ

unfoldable pub new : Current
new = []

-- The set `alive`, as a test.
alive : List ℕ → ℕ → Bool
alive [] b = false
alive (x ∷ xs) b = x == b || alive xs b

unfoldable pub cleanup : List ℕ → Current → Current
unfolding retain alive
cleanup backends current = retain (alive backends) current

-- `w.current[b]`, 0 if it is missing.
abbrev pub at : Current → ℕ → ℤ
at current b = get (pos 0) b current

-- The variables of the loop.
pub record Scan : Type 0 where
  pub current : Current
  pub total_weight : ℤ
  pub chosen : Option ℕ

-- `chosen == nil || w.current[b] > w.current[chosen]`
better : Current → ℕ → Option ℕ → Bool
better current b none = true
better current b (some c) = ltb_ℤ (at current c) (at current b)

pub visit : Store → ℕ → Scan → Scan
unfolding insert get add64 better
visit store b s =
    let weight = (store b).weight in
    let current = insert b (add64 (at s.current b) weight) s.current in
    if leb_ℤ weight (pos 0) then s else record {
      current = current;
      total_weight = add64 s.total_weight weight;
      chosen = if better current b s.chosen then some b else s.chosen;
    }

pub scan : Store → List ℕ → Scan → Scan
unfolding visit
scan store [] s = s
scan store (b ∷ bs) s = scan store bs (visit store b s)

settle : Scan → Option ℕ → Current × Option ℕ
unfolding insert get sub64
settle s none = (s.current, none)
settle s (some c) =
    if beq_ℤ s.total_weight (pos 0)
    then (s.current, none)
    else (insert c (sub64 (at s.current c) s.total_weight) s.current, some c)

-- The new map and the backend chosen, `none` for nil.
unfoldable pub select_backend : Store → List ℕ → Current → Current × Option ℕ
unfolding cleanup scan settle
select_backend store [] current = (current, none)
select_backend store (b ∷ bs) current =
    let s =
      scan store (b ∷ bs)
        (record { current = cleanup (b ∷ bs) current; total_weight = pos 0; chosen = none }) in
    settle s s.chosen
