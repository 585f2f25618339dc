-- ===== src/Strategy/RoundRobin/Cycle.antt =====
-- The order in which internal/strategy/roundrobin.go serves the backends.
use go_loadbalancer.Prelude.{
  ℕ, zero, suc, ◌+◌, ◌-◌, ◌%◌, ◌≤◌, ◌<◌, ◌^◌, ◌≡◌, refl, sym, ap, ◌∙◌, ltb→lt, arith, ◌⊎◌, inl, inr,
  Bool-cases, ltb, if◌then◌else◌, List, [], ◌∷◌, Option, some, In, get_elem?-In, length, get_elem?,
}
use native.Mathlib.Nat.{add-zero, mod-add-mod, mod-eq_of_lt, mod-eq-sub-mod, mod-lt}
use go_loadbalancer.Strategy.RoundRobin.{select_backend, at_turn}

-- The choices of `k` selections in a row over the same backends.
unfoldable pub selections : ℕ → ℕ → List ℕ → List (Option ℕ)
selections zero current backends = []
selections (suc k) current backends =
    (select_backend current backends).1 ∷ selections k (select_backend current backends).0 backends

no_wrap : (n : ℕ) → n + 1 < 2 ^ 64 → (n + 1) % 2 ^ 64 ≡ n + 1
no_wrap n h = omega arith

back : (n : ℕ) → n + 1 < 2 ^ 64 → (n + 1 + 2 ^ 64 - 1) % 2 ^ 64 ≡ n
back n h = omega arith

next_turn : (n i : ℕ) → n + suc i ≡ n + 1 + i
next_turn n i = omega arith

select_backend_turn :
    (current : ℕ) (backends : List ℕ)
    → 0 < length backends
    → current + 1 < 2 ^ 64
    → select_backend current backends
      ≡ (current + 1, get_elem? backends (current % length backends))
unfolding select_backend at_turn
select_backend_turn current [] h small = absurd (omega arith)
select_backend_turn current (b ∷ bs) h small =
    rw (no_wrap current small) (rw (back current small) refl)

-- While the counter does not wrap, selection number `i` from a counter of `current` on is the
-- backend at position `(current + i) % n` of the `n` backends.
pub get_elem?-selections :
    (k current i : ℕ) (backends : List ℕ)
    → 0 < length backends
    → current + k < 2 ^ 64
    → i < k
    → get_elem? (selections k current backends) i
      ≡ some (get_elem? backends ((current + i) % length backends))
unfolding selections
get_elem?-selections zero current i backends h small lt = absurd (omega arith)
get_elem?-selections (suc k) current zero backends h small lt =
    rw (select_backend_turn current backends h (omega arith), add-zero) refl
get_elem?-selections (suc k) current (suc i) backends h small lt =
    rw (select_backend_turn current backends h (omega arith), next_turn current i)
      (get_elem?-selections k (current + 1) i backends h (omega arith) (omega arith))

-- A sum with `k < n` runs over the multiples of `n` at most once.
rotate_cases :
    (n c k : ℕ)
    → k < n
    → ((c % n + k < n) × ((c + k) % n ≡ c % n + k))
      ⊎ ((n ≤ c % n + k) × ((c + k) % n + n ≡ c % n + k))
rotate_cases n c k h = elim (Bool-cases (ltb (c % n + k) n)) [
  | inl fits ↦ inl (ground arith, sym (mod-add-mod c n k) ∙ mod-eq_of_lt (ground arith))
  | inr over ↦
      let reach : n ≤ c % n + k = ground arith in
      let below : c % n + k - n < n = omega (arith, mod-lt c {m = n} (omega arith)) in
      let wraps : (c + k) % n ≡ c % n + k - n =
        sym (mod-add-mod c n k) ∙ mod-eq-sub-mod reach ∙ mod-eq_of_lt below in
      inr (reach, omega arith)
]

-- The turn at which position `j` is served.
turn : ℕ → ℕ → ℕ → ℕ
turn n c j = if ltb j (c % n) then j + n - c % n else j - c % n

turn_lem : (n c j : ℕ) → j < n → (turn n c j < n) × ((c + turn n c j) % n ≡ j)
unfolding turn
turn_lem n c j h = elim (Bool-cases (ltb j (c % n))) [
  | inl before ↦ rw before (
    omega (arith, ltb→lt j (c % n) before, mod-lt c {m = n} (omega arith)),
    ground (arith, rotate_cases n c (j + n - c % n)),
  )
  | inr behind ↦ rw behind (ground arith, ground (arith, rotate_cases n c (j - c % n)))
]

turn_unique : (n c j k : ℕ) → j < n → k < n → (c + k) % n ≡ j → k ≡ turn n c j
unfolding turn
turn_unique n c j k h lt e = ground (arith, rotate_cases n c k, mod-lt c {m = n} (omega arith))

-- In `n` selections in a row over `n` backends, with no wrap of the counter, every position is
-- served: at exactly one turn the backend there is selected by its position.
pub every_position_once :
    (current j : ℕ) (backends : List ℕ)
    → 0 < length backends
    → current + length backends < 2 ^ 64
    → j < length backends
    → (i : ℕ) × (i < length backends)
      × (get_elem? (selections (length backends) current backends) i ≡ some (get_elem? backends j))
      × ((other : ℕ)
          → other < length backends
          → (current + other) % length backends ≡ j
          → other ≡ i)
every_position_once current j backends h small lt =
    let n = length backends in
    let (within, lands) = turn_lem n current j lt in
    (
      turn n current j,
      within,
      get_elem?-selections n current (turn n current j) backends h small within
          ∙ ap (λ k. some (get_elem? backends k)) lands,
      λ other o e. turn_unique n current j other lt o e,
    )

-- A backend that is chosen is one of those offered, also where the counter wraps.
pub at_turn-In :
    (current : ℕ) (bs : List ℕ) {p : ℕ} → (select_backend current bs).1 ≡ some p → In p bs
unfolding select_backend at_turn
at_turn-In current [] e = cc
at_turn-In current (b ∷ bs) e = get_elem?-In (b ∷ bs) _ e
