-- ===== src/Scripts/CbTest/Hits.antt =====
-- What scripts/cbtest.go counts in its two phases, against the replies.
use go_loadbalancer.Prelude.{
  ℕ, zero, suc, ◌+◌, ◌^◌, ◌≤◌, ◌<◌, ◌≡◌, refl, sym, ap, subst, ◌∙◌, ◌⊎◌, inl, inr, arith, not, ◌&&◌,
  String, length, Bool-cases, if◌then◌else◌,
}
use go_loadbalancer.Prelude.Int.{ℤ, pos, ltb_ℤ, leb_ℤ, add64, add64_pos}
use go_loadbalancer.Prelude.Map.{Map, get, insert, get-insert, ◌==◌, string_key, int_key}
use go_loadbalancer.Prelude.Keys.{insert_length, insert_grows}
use go_loadbalancer.Scripts.CbTest.{Reply, error, answer, hit, backend_hits, succeed, success_count}

-- 1 for an answer below 500.
abbrev pub fine : Reply → ℕ
fine error = 0
fine (answer backend status) = if ltb_ℤ status (pos 500) then 1 else 0

abbrev pub fine_by : String → Reply → ℕ
fine_by name error = 0
fine_by name (answer backend status) = if ltb_ℤ status (pos 500) && (backend == name) then 1 else 0

-- Over `left` requests from number `i`.
abbrev pub over : (Reply → ℕ) → (ℕ → Reply) → ℕ → ℕ → ℕ
over f replies zero i = 0
over f replies (suc left) i = f (replies i) + over f replies left (suc i)

fine-le : (r : Reply) → fine r ≤ 1
fine-le error = omega arith
fine-le (answer backend status) = ground arith

fine_by-le : (name : String) (r : Reply) → fine_by name r ≤ 1
fine_by-le name error = omega arith
fine_by-le name (answer backend status) = ground arith

over-le : (replies : ℕ → Reply) (left i : ℕ) → over fine replies left i ≤ left
over-le replies zero i = omega arith
over-le replies (suc left) i = omega (arith, fine-le (replies i), over-le replies left (suc i))

succeed-fine : (r : Reply) (n : ℕ) → n + 1 < 2 ^ 63 → succeed r (pos n) ≡ pos (n + fine r)
succeed-fine error n small = ap pos (omega arith)
succeed-fine (answer backend status) n small = elim (Bool-cases (ltb_ℤ status (pos 500))) [
  | inl low ↦ rw low (add64_pos n 1 small)
  | inr high ↦ rw high (ap pos (omega arith))
]

pub success_count-over :
    (replies : ℕ → Reply) (left i n : ℕ)
    → n + left < 2 ^ 63
    → success_count replies left i (pos n) ≡ pos (n + over fine replies left i)
unfolding success_count
success_count-over replies zero i n small = ap pos (omega arith)
success_count-over replies (suc left) i n small =
    rw (succeed-fine (replies i) n (omega (arith, small))) (
      success_count-over replies left (suc i) (n + fine (replies i))
        (omega (arith, small, fine-le (replies i)))
      ∙ ap pos (omega arith))

below-500 : (status : ℤ) → leb_ℤ (pos 500) status ≡ not (ltb_ℤ status (pos 500))
below-500 status = ground arith

-- An answer below 500 counts for its backend, and nothing else does.
hit-fine :
    (r : Reply) (hits : Map String ℤ)
    → ((fine r ≡ 0) × (hit r hits ≡ hits) × ((name : String) → fine_by name r ≡ 0))
      ⊎ ((backend : String) × (fine r ≡ 1)
          × (hit r hits ≡ insert backend (add64 (get (pos 0) backend hits) (pos 1)) hits)
          × ((name : String) → fine_by name r ≡ (if backend == name then 1 else 0)))
hit-fine error hits = inl (refl, refl, λ name. refl)
hit-fine (answer backend status) hits = elim (Bool-cases (ltb_ℤ status (pos 500))) [
  | inl low ↦ inr (backend, rw low refl, rw (below-500 status, low) refl, λ name. rw low refl)
  | inr high ↦ inl (rw high refl, rw (below-500 status, high) refl, λ name. rw high refl)
]

hit-count :
    (name : String) (r : Reply) (hits : Map String ℤ) (n : ℕ)
    → get (pos 0) name hits ≡ pos n
    → n + 1 < 2 ^ 63
    → get (pos 0) name (hit r hits) ≡ pos (n + fine_by name r)
hit-count name r hits n h small = elim (hit-fine r hits) [
  | inl (bad, same, none_by) ↦ rw (same, none_by name) (h ∙ ap pos (omega arith))
  | inr (backend, good, more, by) ↦
      rw
        (
          more,
          by name,
          get-insert (pos 0) backend name (add64 (get (pos 0) backend hits) (pos 1)) hits,
        )
        (elim (Bool-cases (backend == name)) [
          | inl own ↦
              let before : get (pos 0) backend hits ≡ pos n =
                subst (λ b. get (pos 0) b hits ≡ pos n)
                  (sym ((string_key.beq_iff backend name).0 own)) h in
              rw (own, before) (add64_pos n 1 small)
          | inr other ↦ rw other (h ∙ ap pos (omega arith))
        ])
]

hit-length :
    (r : Reply) (hits : Map String ℤ) → length hits + fine r ≤ length (hit r hits) + length hits
hit-length r hits = elim (hit-fine r hits) [
  | inl (bad, same, none_by) ↦ rw (bad, same) (omega arith)
  | inr (backend, good, more, by) ↦ rw (good, more) (omega (arith, nonempty backend))
]
  where
    nonempty :
        (backend : String)
        → 1 ≤ length (insert backend (add64 (get (pos 0) backend hits) (pos 1)) hits)
    nonempty backend = insert_length backend (add64 (get (pos 0) backend hits) (pos 1)) hits

hit-keeps : (r : Reply) (hits : Map String ℤ) → length hits ≤ length (hit r hits)
hit-keeps r hits = elim (hit-fine r hits) [
  | inl (bad, same, none_by) ↦ rw same (omega arith)
  | inr (backend, good, more, by) ↦
      rw more (insert_grows backend (add64 (get (pos 0) backend hits) (pos 1)) hits)
]

pub backend_hits-none :
    (replies : ℕ → Reply) (left i : ℕ) (hits : Map String ℤ)
    → over fine replies left i ≡ 0
    → backend_hits replies left i hits ≡ hits
unfolding backend_hits
backend_hits-none replies zero i hits h = refl
backend_hits-none replies (suc left) i hits h = elim (hit-fine (replies i) hits) [
  | inl (bad, same, none_by) ↦
      rw same (backend_hits-none replies left (suc i) hits (omega (arith, h)))
  | inr (backend, good, more, by) ↦ absurd (omega (arith, h, good))
]

pub backend_hits-some :
    (replies : ℕ → Reply) (left i : ℕ) (hits : Map String ℤ)
    → 0 < over fine replies left i + length hits
    → 0 < length (backend_hits replies left i hits)
unfolding backend_hits
backend_hits-some replies zero i hits h = omega (arith, h)
backend_hits-some replies (suc left) i hits h =
    backend_hits-some replies left (suc i) (hit (replies i) hits)
      (omega (arith, h, hit-length (replies i) hits, hit-keeps (replies i) hits))

pub backend_hits-count :
    (name : String) (replies : ℕ → Reply) (left i : ℕ) (hits : Map String ℤ) (n : ℕ)
    → get (pos 0) name hits ≡ pos n
    → n + left < 2 ^ 63
    → get (pos 0) name (backend_hits replies left i hits)
      ≡ pos (n + over (fine_by name) replies left i)
unfolding backend_hits
backend_hits-count name replies zero i hits n h small = h ∙ ap pos (omega arith)
backend_hits-count name replies (suc left) i hits n h small =
    backend_hits-count name replies left (suc i) (hit (replies i) hits)
      (n + fine_by name (replies i)) (hit-count name (replies i) hits n h (omega (arith, small)))
      (omega (arith, small, fine_by-le name (replies i)))
    ∙ ap pos (omega arith)
