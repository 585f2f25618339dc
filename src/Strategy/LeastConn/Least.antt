-- ===== src/Strategy/LeastConn/Least.antt =====
-- What internal/strategy/leastconn.go chooses.
use go_loadbalancer.Prelude.{
  ℕ, ◌≡◌, refl, ◌⊎◌, arith, List, [], ◌∷◌, Option, none, some, All, inl, inr, Bool-cases,
}
use go_loadbalancer.Prelude.Int.{ℤ, ◌≤ℤ◌, ◌<ℤ◌, ltb_ℤ}
use go_loadbalancer.Backend.{Store}
use go_loadbalancer.Strategy.Minimum.{IsFirstLeast}
use go_loadbalancer.Strategy.LeastConn.{max_int32, scan, select_backend}

module _ (store : Store) where
  abbrev pub conns : ℕ → ℤ
  conns b = (store b).active_connections

  -- Either nothing lies below the limit and the best so far stays, or a new best was found.
  abbrev Found : Option ℕ → ℤ → List ℕ → Option ℕ → Type 0
  Found best limit bs r =
      ((r ≡ best) × All (λ q. limit ≤ℤ conns q) bs)
      ⊎ ((p : ℕ) × (r ≡ some p) × (conns p <ℤ limit) × IsFirstLeast conns p bs)

  scan-Found :
      (best : Option ℕ) (limit : ℤ) (bs : List ℕ) → Found best limit bs (scan store best limit bs)
  unfolding scan
  scan-Found best limit [] = inl (refl, tt)
  scan-Found best limit (b ∷ bs) = elim (Bool-cases (ltb_ℤ (conns b) limit)) [
    | inl fewer ↦ rw fewer (elim (scan-Found (some b) (conns b) bs) [
      | inl (e, all) ↦ inr (b, e, ground arith, inl (refl, all))
      | inr (p, e, lt, least) ↦ inr (p, e, ground arith, inr (lt, least))
    ])
    | inr more ↦ rw more (elim (scan-Found best limit bs) [
      | inl (e, all) ↦ inl (e, (ground arith, all))
      | inr (p, e, lt, least) ↦ inr (p, e, lt, inr (ground arith, least))
    ])
  ]

  -- The least-connections strategy returns the first backend with the fewest active connections,
  -- which are below `math.MaxInt32`, or nil, and then no backend has fewer than `math.MaxInt32`.
  pub fewest_connections :
      (bs : List ℕ)
      → ((select_backend store bs ≡ none) × All (λ q. max_int32 ≤ℤ conns q) bs)
        ⊎ ((p : ℕ) × (select_backend store bs ≡ some p)
            × (conns p <ℤ max_int32)
            × IsFirstLeast conns p bs)
  unfolding select_backend
  fewest_connections [] = inl (refl, tt)
  fewest_connections (b ∷ bs) = scan-Found none max_int32 (b ∷ bs)
