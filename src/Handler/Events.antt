-- ===== src/Handler/Events.antt =====
-- The events that `ServeHTTP` (internal/handler/handler.go) sends to the collector of the metrics.
use mathlib.Core.List.{append-nil}
use go_loadbalancer.Prelude.{
  ℕ, zero, suc, ◌+◌, ◌*◌, ◌≤◌, ◌≡◌, refl, sym, ap, ◌∙◌, ◌⊎◌, inl, inr, arith, Bool, true, false,
  List, [], ◌++◌, subst, Option, none, some, String, length, Bool-cases,
}
use go_loadbalancer.Prelude.Map.{insert, string_key}
use go_loadbalancer.Backend.{Store}
use go_loadbalancer.Breaker.{Breaker, record_success, record_failure}
use go_loadbalancer.Strategy.{Strategy}
use go_loadbalancer.Collector.{MetricEvent, Collector}
use go_loadbalancer.Handler.Writer.{RetryableWriter}
use go_loadbalancer.Handler.State.{LoadBalancerHandler, Library, Outcome, Exchange}
use go_loadbalancer.Handler.Select.{Selected, chosen, failed, select_backend}
use go_loadbalancer.Handler.Effects.{on_breaker, allowed}
use go_loadbalancer.Handler.Emitted.{
  tally, is_request, is_selection, is_response, is_health, Emitted, forwards-Emitted,
  completes-Emitted, moved, more,
}
use go_loadbalancer.Handler.{
  Verdict, returns, retries, breaks, captured, finish, forward, proceed, selected, attempt,
  max_attempts, rounds, unavailable, attempts, begin, serve_http,
}

on_breaker-collector :
    (url : String) (f : Breaker → Breaker) (h : LoadBalancerHandler)
    → (on_breaker url f h).metrics_collector ≡ h.metrics_collector
unfolding on_breaker
on_breaker-collector url f h = ground arith

allowed-collector :
    (lib : Library) (now : ℕ) (url : String) (h : LoadBalancerHandler)
    → (allowed lib now url h).0.metrics_collector ≡ h.metrics_collector
unfolding allowed
allowed-collector lib now url h = ground arith

-- After an attempt that began with `n` events at most: a request that goes on has no response yet.
Counted : Collector → ℕ → Exchange × Verdict → Type 0
Counted c n (y, returns) =
    Emitted c n (length y.forwarded) 0 y.handler ⊎ Emitted c n (length y.forwarded) 1 y.handler
Counted c n (y, retries) = Emitted c n (length y.forwarded) 0 y.handler
Counted c n (y, breaks) = Emitted c n (length y.forwarded) 0 y.handler

finish-Counted :
    (lib : Library) (o : Outcome) (b : ℕ) (url : String) (w : RetryableWriter) (e : Option String)
    (x : Exchange) (c : Collector) (n : ℕ)
    → length c.event_ch + n + 1 ≤ c.buffer_size
    → Emitted c n (length x.forwarded) 0 x.handler
    → Counted c (n + 1) (finish lib o b url w e x)
unfolding finish Counted
finish-Counted lib o b url w none x c n room m = inr (
    completes-Emitted _ c n (length x.forwarded) (on_breaker url record_success x.handler) refl room
      (moved c n _ 0 x.handler _ (on_breaker-collector url record_success x.handler) m))
finish-Counted lib o b url w (some e) x c n room m = elim (Bool-cases w.header_written) [
  | inl written ↦ rw written (inl kept)
  | inr unwritten ↦ rw unwritten kept
]
  where
    kept :
        Emitted c
          (n + 1)
          (length x.forwarded)
          0
          (on_breaker url (record_failure o.finished_at) x.handler)
    kept = more c n (n + 1) (length x.forwarded) 0 _ (omega arith) (
        moved c n _ 0 x.handler _
          (on_breaker-collector url (record_failure o.finished_at) x.handler) m)

proceed-Counted :
    (lib : Library) (o : Outcome) (b : ℕ) (url : String) (x : Exchange)
    (a : LoadBalancerHandler × Bool) (c : Collector) (n : ℕ)
    → length c.event_ch + n + 3 ≤ c.buffer_size
    → Emitted c n (length x.forwarded) 0 a.0
    → Counted c (n + 3) (proceed lib o b url x a)
unfolding proceed forward Counted
proceed-Counted lib o b url x (h, false) c n room m =
    more c n (n + 3) (length x.forwarded) 0 h (omega arith) m
proceed-Counted lib o b url x (h, true) c n room m =
    subst (λ k. Counted c k (proceed lib o b url x (h, true))) (omega arith)
      (finish-Counted lib o b url _ (captured o.error) _ c (n + 2) (omega (arith, room))
        (forwards-Emitted _ _ c n (length x.forwarded) h refl refl (omega (arith, room)) m))

attempt-Counted :
    (lib : Library) (ip : String) (o : Outcome) (x : Exchange) (c : Collector) (n : ℕ)
    → length c.event_ch + n + 3 ≤ c.buffer_size
    → Emitted c n (length x.forwarded) 0 x.handler
    → Counted c (n + 3) (attempt lib ip o x)
unfolding attempt selected Counted
attempt-Counted lib ip o x c n room m =
    by_selection (select_backend o.draw ip x).strategy (select_backend o.draw ip x).store
      (select_backend o.draw ip x).selected
  where
    by_selection :
        (strategy : Strategy) (store : Store) (s : Selected)
        → Counted c (n + 3) (
            selected lib o
              (record x { handler = record x.handler { balancer = strategy }; store = store })
              s)
    by_selection strategy store (failed cause) =
        more c n (n + 3) (length x.forwarded) 0 (record x.handler { balancer = strategy })
          (omega arith)
          (moved c n (length x.forwarded) 0 x.handler (record x.handler { balancer = strategy })
            refl m)
    by_selection strategy store (chosen b) =
        proceed-Counted lib o b (store b).url
          (record x {
            handler = record x.handler { balancer = strategy };
            store = store;
            tried = insert (store b).url true x.tried;
          })
          (allowed lib o.allow_at (store b).url (record x.handler { balancer = strategy })) c n room
          (moved c n (length x.forwarded) 0 x.handler
            (allowed lib o.allow_at (store b).url (record x.handler { balancer = strategy })).0
            (allowed-collector lib o.allow_at (store b).url
              (record x.handler { balancer = strategy }))
            m)

-- The events of a whole request, of at most `k` attempts.
Reported : Collector → ℕ → Exchange → Type 0
Reported c k y =
    Emitted c (3 * k) (length y.forwarded) 0 y.handler
    ⊎ Emitted c (3 * k) (length y.forwarded) 1 y.handler

attempts-Reported :
    (lib : Library) (ip : String) (outcomes : ℕ → Outcome) (c : Collector) (j k n : ℕ)
    (x : Exchange)
    → length c.event_ch + 3 * (j + k) ≤ c.buffer_size
    → Emitted c (3 * j) (length x.forwarded) 0 x.handler
    → Reported c (j + k) (attempts lib ip outcomes k n x)
unfolding attempts unavailable Reported Counted
attempts-Reported lib ip outcomes c j zero n x room m =
    inl (more c (3 * j) (3 * (j + 0)) (length x.forwarded) 0 x.handler (omega arith) m)
attempts-Reported lib ip outcomes c j (suc k) n x room m =
    by_verdict (attempt lib ip (outcomes n) x)
      (attempt-Counted lib ip (outcomes n) x c (3 * j) (omega (arith, room)) m)
      (λ y q. attempts-Reported lib ip outcomes c (suc j) k (suc n) y (omega (arith, room)) q)
  where
    by_verdict :
        (t : Exchange × Verdict)
        → Counted c (3 * j + 3) t
        → ((y : Exchange)
            → Emitted c (3 * suc j) (length y.forwarded) 0 y.handler
            → Reported c (suc j + k) (attempts lib ip outcomes k (suc n) y))
        → Reported c (j + suc k) (elim t.1 [
          | returns ↦ t.0
          | retries ↦ attempts lib ip outcomes k (suc n) t.0
          | breaks ↦ unavailable lib t.0
        ])
    by_verdict (y, returns) (inl q) rest =
        inl (more c (3 * j + 3) (3 * (j + suc k)) (length y.forwarded) 0 y.handler (omega arith) q)
    by_verdict (y, returns) (inr q) rest =
        inr (more c (3 * j + 3) (3 * (j + suc k)) (length y.forwarded) 1 y.handler (omega arith) q)
    by_verdict (y, retries) q rest =
        subst (λ i. Reported c i (attempts lib ip outcomes k (suc n) y)) (omega arith)
          (rest y (more c (3 * j + 3) (3 * suc j) (length y.forwarded) 0 y.handler (omega arith) q))
    by_verdict (y, breaks) q rest =
        inl (more c (3 * j + 3) (3 * (j + suc k)) (length y.forwarded) 0 y.handler (omega arith) q)

-- With room in the buffer for three events of each attempt, a request sends, after what the buffer
-- holds, one event of a request and one of a selection for each time that it is forwarded, at most
-- one of a response, and none of a change of health.
pub serve_http-events :
    (lib : Library) (ip method : String) (outcomes : ℕ → Outcome) (h : LoadBalancerHandler)
    (store : Store) (c : Collector)
    → h.metrics_collector ≡ some c
    → length c.event_ch + 3 * rounds (max_attempts method h.max_retries) ≤ c.buffer_size
    → let y = serve_http lib ip method outcomes h store in
      (es : List MetricEvent) × (y.handler.metrics_collector
        ≡ some (record c { event_ch = c.event_ch ++ es }))
      × (tally is_request es ≡ length y.forwarded)
      × (tally is_selection es ≡ length y.forwarded)
      × (tally is_response es ≤ 1)
      × (tally is_health es ≡ 0)
unfolding serve_http Reported
serve_http-events lib ip method outcomes h store c held room =
    elim (attempts-Reported lib ip outcomes c 0 (rounds (max_attempts method h.max_retries)) 1
      (begin h store) (omega (arith, room))
      (record {
        es = [];
        held = held ∙ ap (λ all. some (record c { event_ch = all })) (sym (append-nil c.event_ch));
        requests = refl;
        selections = refl;
        responses = refl;
        no_health = refl;
        few = omega arith;
      })) [
        | inl m ↦ (m.es, m.held, m.requests, m.selections, omega (arith, m.responses), m.no_health)
        | inr m ↦ (m.es, m.held, m.requests, m.selections, omega (arith, m.responses), m.no_health)
      ]
