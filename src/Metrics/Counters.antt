-- ===== src/Metrics/Counters.antt =====
-- What each recording of internal/metrics/metrics.go does to the entries of an address.
use go_loadbalancer.Prelude.{
  ℕ, zero, suc, ◌+◌, ◌-◌, ◌≤◌, ◌<◌, ◌^◌, ◌≡◌, refl, arith, Bool, false, List, [], ◌∷◌, ◌++◌, String,
  length, length-append, drop, ltb, ltb→lt, ltb-false, if◌then◌else◌, Bool-cases, inl, inr,
}
use go_loadbalancer.Prelude.Int.{ℤ, pos, add64, add64_pos}
use go_loadbalancer.Prelude.Map.{Map, Key, get, get-insert, ◌==◌, string_key}
use go_loadbalancer.Metrics.{
  Metrics, bump, push_sample, increment_requests, record_backend_selection, record_response,
  update_health_status, max_samples,
}

-- The entry of the key that is counted rises by one, and the others stay.
bump-get :
    {K : Type 0} ⦃e : Key K⦄ (k j : K) (m : Map K ℤ) (n : ℕ)
    → get (pos 0) j m ≡ pos n
    → n + 1 < 2 ^ 63
    → get (pos 0) j (bump k m) ≡ pos (if k == j then n + 1 else n)
unfolding bump
bump-get ⦃e⦄ k j m n h small = elim (Bool-cases (k == j)) [
  | inl same ↦
      let here : k ≡ j = (e.beq_iff k j).0 same in
      rw (get-insert (pos 0) k j (add64 (get (pos 0) k m) (pos 1)) m, same, here, h)
        (add64_pos n 1 small)
  | inr other ↦ rw (get-insert (pos 0) k j (add64 (get (pos 0) k m) (pos 1)) m, other) h
]

-- The samples that are kept of all those recorded: the last 1000.
abbrev pub window : List ℤ → List ℤ
window ds = drop (length ds - max_samples) ds

drop-append : (k : ℕ) (xs ys : List ℤ) → k ≤ length xs → drop k xs ++ ys ≡ drop k (xs ++ ys)
drop-append zero xs ys h = refl
drop-append (suc k) [] ys h = absurd (omega arith)
drop-append (suc k) (x ∷ xs) ys h = drop-append k xs ys (omega arith)

drop-drop : (k : ℕ) (xs : List ℤ) → drop 1 (drop k xs) ≡ drop (suc k) xs
drop-drop zero [] = refl
drop-drop zero (x ∷ xs) = refl
drop-drop (suc k) [] = refl
drop-drop (suc k) (x ∷ xs) = drop-drop k xs

length-drop : (k : ℕ) (xs : List ℤ) → length (drop k xs) ≡ length xs - k
length-drop zero xs = omega arith
length-drop (suc k) [] = omega arith
length-drop (suc k) (x ∷ xs) = omega (arith, length-drop k xs)

pub length-window : (ds : List ℤ) → length (window ds) ≤ max_samples
length-window ds = omega (arith, length-drop (length ds - max_samples) ds)

push_sample-window : (d : ℤ) (ds : List ℤ) → push_sample d (window ds) ≡ window (ds ++ (d ∷ []))
unfolding push_sample
push_sample-window d ds =
    let k : ℕ = length ds - max_samples in
    let grown = drop-append k ds (d ∷ []) (omega arith) in
    let size = length-drop k (ds ++ (d ∷ [])) in
    let total = length-append ds (d ∷ []) in
    rw grown (elim (Bool-cases (ltb max_samples (length (drop k (ds ++ (d ∷ [])))))) [
      | inl full ↦
          let next : length (ds ++ (d ∷ [])) - max_samples ≡ suc k =
            omega (arith, size, total, ltb→lt _ _ full) in
          rw (full, next) (drop-drop k (ds ++ (d ∷ [])))
      | inr room ↦
          let next : length (ds ++ (d ∷ [])) - max_samples ≡ k =
            omega (arith, size, total, ltb-false _ _ room) in
          rw (room, next) refl
    ])

pub increment_requests-get :
    (url backend : String) (m : Metrics) (n : ℕ)
    → get (pos 0) url m.requests ≡ pos n
    → n + 1 < 2 ^ 63
    → get (pos 0) url (increment_requests backend m).requests
      ≡ pos (if backend == url then n + 1 else n)
unfolding increment_requests
increment_requests-get url backend m n h small = bump-get backend url m.requests n h small

pub record_backend_selection-get :
    (url backend : String) (m : Metrics) (n : ℕ)
    → get (pos 0) url m.selections ≡ pos n
    → n + 1 < 2 ^ 63
    → get (pos 0) url (record_backend_selection backend m).selections
      ≡ pos (if backend == url then n + 1 else n)
unfolding record_backend_selection
record_backend_selection-get url backend m n h small = bump-get backend url m.selections n h small

pub record_response-get :
    (url backend : String) (d : ℤ) (code : ℕ) (m : Metrics) (ds : List ℤ)
    → get [] url m.response_times ≡ window ds
    → get [] url (record_response backend d code m).response_times
      ≡ window (if backend == url then ds ++ (d ∷ []) else ds)
unfolding record_response
record_response-get url backend d code m ds h = elim (Bool-cases (backend == url)) [
  | inl same ↦
      let here : backend ≡ url = (string_key.beq_iff backend url).0 same in
      rw
        (
          get-insert [] backend url (push_sample d (get [] backend m.response_times))
              m.response_times,
          same,
          here,
          h,
        )
        (push_sample-window d ds)
  | inr other ↦
      rw
        (
          get-insert [] backend url (push_sample d (get [] backend m.response_times))
              m.response_times,
          other,
        )
        h
]

pub update_health_status-get :
    (url backend : String) (healthy : Bool) (m : Metrics)
    → get false url (update_health_status backend healthy m).health_status
      ≡ (if backend == url then healthy else get false url m.health_status)
unfolding update_health_status
update_health_status-get url backend healthy m =
    get-insert false backend url healthy m.health_status
