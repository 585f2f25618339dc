-- ===== src/Handler/Goroutine/Alone.antt =====
-- A goroutine of `ServeHTTP` (internal/handler/handler.go) that runs alone does what the sequential
-- model of it does.
use mathlib.Core.List.{append-nil, append_assoc}
use go_loadbalancer.Prelude.{
  ℕ, ◌≡◌, refl, sym, ap, subst, Bool, true, false, not, ◌&&◌, List, [], ◌∷◌, ◌++◌, Option, none,
  some, String, Bool-cases, Option-cases, arith, inl, inr, if◌then◌else◌,
}
use go_loadbalancer.Prelude.Map.{get, insert, string_key}
use go_loadbalancer.Breaker.{Breaker, allow, record_success, record_failure}
use go_loadbalancer.Registry.{Registry, get_breaker, write}
use go_loadbalancer.Handler.Writer.{RetryableWriter}
use go_loadbalancer.Handler.State.{LoadBalancerHandler, Library, Outcome, Exchange}
use go_loadbalancer.Handler.Select.{chosen, available}
use go_loadbalancer.Handler.Effects.{on_breaker, allowed}
use go_loadbalancer.Handler.{Verdict, returns, retries, breaks, finish, forward, proceed, selected}
use go_loadbalancer.Handler.Goroutine.{
  Phase, looking, choosing, asking, announcing, fetching, failing, returned, Task, again, to,
  after_asking, after_fetching, advance_in, advance,
}

-- After the loop of `selectBackend`.
abbrev pub looked : List ℕ → Phase
looked [] = failing
looked (c ∷ cs) = choosing (c ∷ cs)

module _ (lib : Library) (ip : String) (outcomes : ℕ → Outcome) where
  -- The steps of the goroutine alone, from a state and a task to another.
  pub data Goes : Exchange → Task → Exchange → Task → Type 0 where
    stays : {x : Exchange} {t : Task} → Goes x t x t
    moves :
        {x y z : Exchange} {t u v : Task}
        → advance lib ip outcomes x t ≡ some (y, u)
        → Goes y u z v
        → Goes x t z v

  pub follow : {x y z : Exchange} {t u v : Task} → Goes x t y u → Goes y u z v → Goes x t z v
  follow stays h = h
  follow (moves e g) h = moves e (follow g h)

  -- The loop over the backends finds the available ones.
  pub look-available :
      (bs found : List ℕ) (x : Exchange) (t : Task)
      → Goes x (to (looking bs found) t) x (to (looked (found ++ available x.store x.tried bs)) t)
  unfolding advance advance_in available
  look-available [] [] x t = moves refl stays
  look-available [] (c ∷ cs) x t =
      subst (λ all. Goes x (to (looking [] (c ∷ cs)) t) x (to (looked all) t))
        (sym (append-nil (c ∷ cs))) (moves refl stays)
  look-available (b ∷ bs) found x t =
      elim (Bool-cases (not (get false (x.store b).url x.tried) && (x.store b).is_healthy)) [
        | inl yes_ ↦ moves (rw yes_ refl) (
            subst (λ all. Goes x (to (looking bs (found ++ (b ∷ []))) t) x (to (looked all) t))
              (rw yes_ (append_assoc found (b ∷ []) (available x.store x.tried bs)))
              (look-available bs (found ++ (b ∷ [])) x t))
        | inr no_ ↦ moves (rw no_ refl) (
            subst (λ all. Goes x (to (looking bs found) t) x (to (looked all) t)) (rw no_ refl)
              (look-available bs found x t))
      ]

  abbrev pub Ended : Exchange → Task → Exchange × Verdict → Type 0
  Ended x t (y, returns) = Goes x t y (to returned t)
  Ended x t (y, retries) = Goes x t y (again y t)
  Ended x t (y, breaks) = Goes x t y (to failing t)

  on_breaker-none :
      (url : String) (f : Breaker → Breaker) (h : LoadBalancerHandler)
      → h.circuit_registry ≡ none
      → on_breaker url f h ≡ h
  unfolding on_breaker
  on_breaker-none url f h e = ground (arith, e)

  on_breaker-some :
      (url : String) (f : Breaker → Breaker) (h : LoadBalancerHandler) (r : Registry)
      → h.circuit_registry ≡ some r
      → on_breaker url f h ≡ record h {
        circuit_registry = some (
            write
              (get_breaker url r).1
              (f ((get_breaker url r).0.heap (get_breaker url r).1))
              (get_breaker url r).0);
      }
  unfolding on_breaker
  on_breaker-some url f h r e = rw e refl

  -- After the proxy, from the release of its connection on.
  finish-Ended :
      (b : ℕ) (url : String) (w : RetryableWriter) (e : Option String) (x : Exchange) (t : Task)
      → Ended x (to (fetching b url w e) t) (finish lib (outcomes t.number) b url w e x)
  unfolding advance advance_in finish
  finish-Ended b url w none x t = elim (Option-cases x.handler.circuit_registry) [
    | inl i ↦ rw (on_breaker-none url record_success x.handler i) (
        moves (ap (λ g. some (after_fetching b url w none x t g)) i)
          (moves refl (moves refl stays)))
    | inr (r, i) ↦ rw (on_breaker-some url record_success x.handler r i) (
        moves (ap (λ g. some (after_fetching b url w none x t g)) i)
          (moves refl (moves refl (moves refl stays))))
  ]
  finish-Ended b url w (some e) x t = elim (Option-cases x.handler.circuit_registry) [
    | inl i ↦
        rw (on_breaker-none url (record_failure (outcomes t.number).finished_at) x.handler i) (
          split w.header_written x
            (moves (ap (λ g. some (after_fetching b url w (some e) x t g)) i) stays))
    | inr (r, i) ↦
        rw (on_breaker-some url (record_failure (outcomes t.number).finished_at) x.handler r i) (
          split w.header_written _
            (moves (ap (λ g. some (after_fetching b url w (some e) x t g)) i) (moves refl stays)))
  ]
    where
      split :
          (sent : Bool) (y : Exchange)
          → Goes x (to (fetching b url w (some e)) t) y (if sent then to returned t else again y t)
          → Ended x (to (fetching b url w (some e)) t) (y, if sent then returns else retries)
      split true y g = g
      split false y g = g

  pub before-Ended :
      (x y : Exchange) (p q : Phase) (t : Task) (r : Exchange × Verdict)
      → Goes x (to p t) y (to q t)
      → Ended y (to q t) r
      → Ended x (to p t) r
  before-Ended x y p q t (z, returns) g h = follow g h
  before-Ended x y p q t (z, retries) g h = follow g h
  before-Ended x y p q t (z, breaks) g h = follow g h

  forward-Ended :
      (b : ℕ) (url : String) (x : Exchange) (t : Task)
      → Ended x (to (announcing b url) t) (forward lib (outcomes t.number) b url x)
  unfolding advance advance_in forward
  forward-Ended b url x t =
      before-Ended _ _ _ _ t _
        (moves refl (moves refl (moves refl (moves refl (moves refl stays)))))
        (finish-Ended b url _ _ _ t)

  allowed-none :
      (now : ℕ) (url : String) (h : LoadBalancerHandler)
      → h.circuit_registry ≡ none
      → allowed lib now url h ≡ (h, true)
  unfolding allowed
  allowed-none now url h e = ground (arith, e)

  allowed-some :
      (now : ℕ) (url : String) (h : LoadBalancerHandler) (r : Registry)
      → h.circuit_registry ≡ some r
      → let (found, p) = get_breaker url r in
        let (c, admits) = allow lib.since now (found.heap p) in
        allowed lib now url h ≡ (record h { circuit_registry = some (write p c found) }, admits)
  unfolding allowed
  allowed-some now url h r e = rw e refl

  abbrev trying : ℕ → Exchange → Exchange
  trying b x = record x { tried = insert (x.store b).url true x.tried }

  -- From the breaker on.
  pub asked-Ended :
      (b : ℕ) (x : Exchange) (t : Task)
      → Ended x (to (asking b) t) (selected lib (outcomes t.number) x (chosen b))
  unfolding advance advance_in selected proceed
  asked-Ended b x t = elim (Option-cases x.handler.circuit_registry) [
    | inl i ↦ rw (allowed-none (outcomes t.number).allow_at (x.store b).url x.handler i) (
        before-Ended x (trying b x) (asking b) (announcing b (x.store b).url) t _
          (moves (ap (λ g. some (after_asking b (x.store b).url (trying b x) t g)) i) stays)
          (forward-Ended b (x.store b).url (trying b x) t))
    | inr (r, i) ↦ rw (allowed-some (outcomes t.number).allow_at (x.store b).url x.handler r i) (
        decided
          (allow lib.since (outcomes t.number).allow_at
            ((get_breaker (x.store b).url r).0.heap (get_breaker (x.store b).url r).1))
          _
          (moves (ap (λ g. some (after_asking b (x.store b).url (trying b x) t g)) i)
            (moves refl stays)))
  ]
    where
      decided :
          (a : Breaker × Bool) (y : Exchange)
          → Goes x
              (to (asking b) t)
              y
              (if a.1 then to (announcing b (x.store b).url) t else again y t)
          → Ended x
              (to (asking b) t)
              (proceed lib (outcomes t.number) b (x.store b).url y (y.handler, a.1))
      decided (c, true) y g =
          before-Ended x y (asking b) (announcing b (x.store b).url) t _ g
            (forward-Ended b (x.store b).url y t)
      decided (c, false) y g = g
