-- ===== src/Handler/Service/Counts.antt =====
-- What the operations on a backend (internal/backend/proxy.go) do to a count of active connections.
use go_loadbalancer.Prelude.{
  ℕ, ◌+◌, ◌^◌, ◌<◌, ◌≡◌, refl, sym, ap, ◌∙◌, inl, inr, arith, true, false, List, [], ◌∷◌,
  Bool-cases, if◌then◌else◌,
}
use go_loadbalancer.Prelude.Int.{ℤ, pos, add64, add64_pos, sub64, sub64_pos, ltb_ℤ}
use go_loadbalancer.Prelude.Map.{◌==◌, nat_key, string_key}
use go_loadbalancer.Backend.{Backend, Store, modify, increment_conn, decrement_conn}

abbrev pub same : ℕ → ℕ → ℕ
same q b = if q == b then 1 else 0

abbrev pub count : ℕ → List ℕ → ℕ
count q [] = 0
count q (b ∷ bs) = same q b + count q bs

abbrev pub active : ℕ → Store → ℤ
active q store = (store q).active_connections

modify-own :
    (q b : ℕ) (f : Backend → Backend) (store : Store)
    → (q == b) ≡ true
    → modify b f store q ≡ f (store q)
unfolding modify
modify-own q b f store own = rw own refl

modify-other :
    (q b : ℕ) (f : Backend → Backend) (store : Store)
    → (q == b) ≡ false
    → modify b f store q ≡ store q
unfolding modify
modify-other q b f store other = rw other refl

-- How a change of the backend `b` that takes the count from `n` to `m` changes the counts.
modify-active :
    (q b n m : ℕ) (f : Backend → Backend) (store : Store)
    → active q store ≡ pos n
    → (f (store q)).active_connections ≡ pos m
    → active q (modify b f store) ≡ pos (if q == b then m else n)
modify-active q b n m f store e h = elim (Bool-cases (q == b)) [
  | inl own ↦ rw own (ap (λ c. c.active_connections) (modify-own q b f store own) ∙ h)
  | inr other ↦ rw other (ap (λ c. c.active_connections) (modify-other q b f store other) ∙ e)
]

pub increment-active :
    (q b n : ℕ) (store : Store)
    → active q store ≡ pos n
    → n + 1 < 2 ^ 63
    → active q (modify b increment_conn store) ≡ pos (n + same q b)
unfolding increment_conn
increment-active q b n store e small =
    modify-active q b n (n + 1) increment_conn store e
      (ap (λ a. add64 a (pos 1)) e ∙ add64_pos n 1 small)
    ∙ ap pos (ground arith)

decremented :
    (c : Backend) (m : ℕ)
    → c.active_connections ≡ pos (m + 1)
    → m + 1 < 2 ^ 63
    → (decrement_conn c).active_connections ≡ pos m
unfolding decrement_conn
decremented c m e small =
    let positive : ltb_ℤ (pos 0) c.active_connections ≡ true = ground (arith, e) in
    rw positive
      (ap (λ a. sub64 a (pos 1)) e ∙ sub64_pos (m + 1) 1 (omega arith) small ∙ ap pos (omega arith))

pub decrement-active :
    (q b n m : ℕ) (store : Store)
    → active q store ≡ pos n
    → m + same q b ≡ n
    → n < 2 ^ 63
    → active q (modify b decrement_conn store) ≡ pos m
decrement-active q b n m store e split small = elim (Bool-cases (q == b)) [
  | inl own ↦
      let one : m + 1 ≡ n = ground arith in
      ap (λ c. c.active_connections) (modify-own q b decrement_conn store own)
      ∙ decremented (store q) m (e ∙ ap pos (sym one)) (omega arith)
  | inr other ↦
      let none_ : m ≡ n = ground arith in
      ap (λ c. c.active_connections) (modify-other q b decrement_conn store other)
      ∙ e
      ∙ ap pos (sym none_)
]

pub kept-active :
    (q b : ℕ) (f : Backend → Backend) (store : Store)
    → ((c : Backend) → (f c).active_connections ≡ c.active_connections)
    → active q (modify b f store) ≡ active q store
kept-active q b f store h = elim (Bool-cases (q == b)) [
  | inl own ↦ ap (λ c. c.active_connections) (modify-own q b f store own) ∙ h (store q)
  | inr other ↦ ap (λ c. c.active_connections) (modify-other q b f store other)
]
