-- ===== src/Handler/Goroutine/Serves.antt =====
-- A whole request of `ServeHTTP` (internal/handler/handler.go) by one goroutine alone.
use go_loadbalancer.Prelude.{
  ℕ, zero, suc, ◌≡◌, refl, List, [], ◌∷◌, Option, none, some, String, Bool-cases, inl, inr,
}
use go_loadbalancer.Backend.{Store}
use go_loadbalancer.Strategy.{Strategy, takes_key}
use go_loadbalancer.LoadBalancer.{
  Result, ok, err, Reply, pick, get_and_reserve_server, get_and_reserve_server_with_key,
}
use go_loadbalancer.LoadBalancer.Sections.{Counted, pick-Counted}
use go_loadbalancer.Handler.State.{LoadBalancerHandler, Library, Outcome, Exchange}
use go_loadbalancer.Handler.Select.{
  Selected, chosen, failed, Selection, from_result, from_reply, available, select_from,
  select_backend,
}
use go_loadbalancer.Handler.{
  Verdict, returns, retries, breaks, selected, attempt, max_attempts, rounds, unavailable, attempts,
  begin, serve_http,
}
use go_loadbalancer.Handler.Goroutine.{
  Phase, looking, choosing, asking, failing, returned, Task, next_attempt, first, to, after_pick,
  reserved_or_failed, advance_in, advance,
}
use go_loadbalancer.Handler.Goroutine.Alone.{
  Goes, stays, moves, follow, looked, look-available, Ended, before-Ended, asked-Ended,
}

abbrev selected_phase : Selected → Phase
selected_phase (chosen b) = asking b
selected_phase (failed e) = failing

abbrev selection_in : Exchange → Selection → Exchange
selection_in x s = record x {
  handler = record x.handler { balancer = s.strategy };
  store = s.store;
}

same_phase : (r : Result) → reserved_or_failed r ≡ selected_phase (from_result r)
same_phase (ok b) = refl
same_phase (err e) = refl

module _ (lib : Library) (ip : String) (outcomes : ℕ → Outcome) where
  counted-Goes :
      (p : Phase) (x : Exchange) (t : Task) (s : Strategy × Option ℕ) (r : Reply)
      → Counted x.store s r
      → Goes lib ip outcomes x (to p t) (after_pick x t s).0 (after_pick x t s).1
      → Goes lib ip outcomes x
          (to p t)
          (selection_in x (from_reply r))
          (to (selected_phase (from_result r.result)) t)
  unfolding advance advance_in
  counted-Goes p x t (s, none) r (same_strategy, same_store, e, failure) g =
      rw (same_strategy, same_store, failure) g
  counted-Goes p x t (s, some b) r (same_strategy, stored, success) g =
      rw (same_strategy, stored, success) (follow lib ip outcomes g (moves refl stays))

  -- The balancer's part.
  choose-Goes :
      (c : ℕ) (cs : List ℕ) (x : Exchange) (t : Task)
      → let s = select_from (outcomes t.number).draw ip x.store x.handler.balancer (c ∷ cs) in
        Goes lib ip outcomes x
          (to (choosing (c ∷ cs)) t)
          (selection_in x s)
          (to (selected_phase s.selected) t)
  unfolding advance advance_in select_from
  choose-Goes c cs x t = elim (Bool-cases (takes_key x.handler.balancer)) [
    | inl keyed ↦
        rw
          (
            keyed,
            ← same_phase
                (get_and_reserve_server_with_key (outcomes t.number).draw (c ∷ cs) ip
                  x.handler.balancer x.store).result,
          )
          (moves (rw keyed refl) stays)
    | inr plain ↦ rw plain (
        counted-Goes (choosing (c ∷ cs)) x t
          (pick (outcomes t.number).draw (c ∷ cs) x.handler.balancer x.store)
          (get_and_reserve_server (outcomes t.number).draw (c ∷ cs) x.handler.balancer x.store)
          (pick-Counted (outcomes t.number).draw (c ∷ cs) x.handler.balancer x.store)
          (moves (rw plain refl) stays))
  ]

  attempt-Ended :
      (x : Exchange) (t : Task)
      → Ended lib ip outcomes x
          (to (looking x.handler.backends []) t)
          (attempt lib ip (outcomes t.number) x)
  unfolding attempt select_backend select_from selected
  attempt-Ended x t =
      from_available (available x.store x.tried x.handler.backends)
        (look-available lib ip outcomes x.handler.backends [] x t)
    where
      from_selection :
          (y : Exchange) (s : Selected)
          → Goes lib ip outcomes x
              (to (looking x.handler.backends []) t)
              y
              (to (selected_phase s) t)
          → Ended lib ip outcomes x
              (to (looking x.handler.backends []) t)
              (selected lib (outcomes t.number) y s)
      from_selection y (chosen b) g =
          before-Ended lib ip outcomes x y (looking x.handler.backends []) (asking b) t _ g
            (asked-Ended lib ip outcomes b y t)
      from_selection y (failed e) g = g

      from_available :
          (bs : List ℕ)
          → Goes lib ip outcomes x (to (looking x.handler.backends []) t) x (to (looked bs) t)
          → let s = select_from (outcomes t.number).draw ip x.store x.handler.balancer bs in
            Ended lib ip outcomes x
              (to (looking x.handler.backends []) t)
              (selected lib (outcomes t.number) (selection_in x s) s.selected)
      from_available [] g = g
      from_available (c ∷ cs) g =
          from_selection _ _ (follow lib ip outcomes g (choose-Goes c cs x t))

  -- The loop with `k` attempts left, from attempt `n` on.
  attempts-Goes :
      (k n : ℕ) (x : Exchange)
      → (u : Task) × (u.phase ≡ returned)
        × Goes lib ip outcomes x
            (next_attempt x.handler.backends k n)
            (attempts lib ip outcomes k n x)
            u
  unfolding attempts advance advance_in
  attempts-Goes zero n x = (_, refl, moves refl stays)
  attempts-Goes (suc k) n x =
      by_verdict (attempt lib ip (outcomes n) x)
        (attempt-Ended x (next_attempt x.handler.backends (suc k) n))
        (attempts-Goes k (suc n) (attempt lib ip (outcomes n) x).0)
    where
      by_verdict :
          (a : Exchange × Verdict)
          → Ended lib ip outcomes x (next_attempt x.handler.backends (suc k) n) a
          → ((u : Task) × (u.phase ≡ returned)
              × Goes lib ip outcomes a.0
                  (next_attempt a.0.handler.backends k (suc n))
                  (attempts lib ip outcomes k (suc n) a.0)
                  u)
          → (u : Task) × (u.phase ≡ returned)
            × Goes lib ip outcomes x
                (next_attempt x.handler.backends (suc k) n)
                (elim a.1 [
                  | returns ↦ a.0
                  | retries ↦ attempts lib ip outcomes k (suc n) a.0
                  | breaks ↦ unavailable lib a.0
                ])
                u
      by_verdict (y, returns) g rest = (_, refl, g)
      by_verdict (y, retries) g (u, e, rest) = (u, e, follow lib ip outcomes g rest)
      by_verdict (y, breaks) g rest = (_, refl, follow lib ip outcomes g (moves refl stays))

-- A goroutine of `ServeHTTP` that runs alone returns, and leaves then what the sequential model of
-- the request gives, for any method, strategy and outcomes of the attempts.
pub advance-serve_http :
    (lib : Library) (ip method : String) (outcomes : ℕ → Outcome) (h : LoadBalancerHandler)
    (store : Store)
    → (u : Task) × (u.phase ≡ returned)
      × Goes lib ip outcomes
          (begin h store)
          (first method h)
          (serve_http lib ip method outcomes h store)
          u
unfolding serve_http
advance-serve_http lib ip method outcomes h store =
    attempts-Goes lib ip outcomes (rounds (max_attempts method h.max_retries)) 1 (begin h store)
