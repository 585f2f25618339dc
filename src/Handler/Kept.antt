-- ===== src/Handler/Kept.antt =====
-- What an attempt of `ServeHTTP` (internal/handler/handler.go) leaves alone: the addresses and the
-- health of the backends, the list of the backends and the kind of the strategy.
use go_loadbalancer.Prelude.{
  ℕ, ◌≡◌, refl, ap, ◌∙◌, ◌⊎◌, inl, inr, Bool, true, false, ◌∷◌, Option, none, some, String, arith,
  Bool-cases,
}
use go_loadbalancer.Prelude.Int.{ℤ}
use go_loadbalancer.Prelude.Map.{◌==◌, string_key, nat_key}
use go_loadbalancer.Backend.{
  Backend, Store, modify, increment_conn, decrement_conn, record_response,
}
use go_loadbalancer.Strategy.{takes_key}
use go_loadbalancer.Breaker.{Breaker, record_success, record_failure}
use go_loadbalancer.Handler.Writer.{RetryableWriter, wrap_writer, write_all}
use go_loadbalancer.Collector.{MetricEvent, backend_selected}
use go_loadbalancer.Handler.State.{LoadBalancerHandler, Library, Outcome, Exchange}
use go_loadbalancer.Handler.{captured, event, finish, forward, proceed}
use go_loadbalancer.Handler.Effects.{emit_event, on_breaker, allowed}

-- Two stores that agree on the addresses and the health of the backends.
abbrev pub Same : Store → Store → Type 0
Same s t = (p : ℕ) → ((t p).url ≡ (s p).url) × ((t p).is_healthy ≡ (s p).is_healthy)

pub modify-Same :
    (s : Store) (b : ℕ) (f : Backend → Backend)
    → ((c : Backend) → ((f c).url ≡ c.url) × ((f c).is_healthy ≡ c.is_healthy))
    → Same s (modify b f s)
unfolding modify
modify-Same s b f keeps p = elim (Bool-cases (p == b)) [
  | inl e ↦ rw e (keeps (s p))
  | inr e ↦ rw e (refl, refl)
]

pub increment-keeps :
    (c : Backend)
    → ((increment_conn c).url ≡ c.url) × ((increment_conn c).is_healthy ≡ c.is_healthy)
unfolding increment_conn
increment-keeps c = (refl, refl)

decrement-keeps :
    (c : Backend)
    → ((decrement_conn c).url ≡ c.url) × ((decrement_conn c).is_healthy ≡ c.is_healthy)
unfolding decrement_conn
decrement-keeps c = ground arith

response-keeps :
    (lib : Library) (d : ℤ) (c : Backend)
    → ((record_response lib.float64 d c).url ≡ c.url)
      × ((record_response lib.float64 d c).is_healthy ≡ c.is_healthy)
unfolding record_response
response-keeps lib d c = ground arith

pub Same-trans : (s t u : Store) → Same s t → Same t u → Same s u
Same-trans s t u h k p = ((k p).0 ∙ (h p).0, (k p).1 ∙ (h p).1)

emit-keeps :
    (e : MetricEvent) (h : LoadBalancerHandler)
    → ((emit_event e h).balancer ≡ h.balancer) × ((emit_event e h).backends ≡ h.backends)
unfolding emit_event
emit-keeps e h = ground arith

on_breaker-keeps :
    (url : String) (f : Breaker → Breaker) (h : LoadBalancerHandler)
    → ((on_breaker url f h).balancer ≡ h.balancer) × ((on_breaker url f h).backends ≡ h.backends)
unfolding on_breaker
on_breaker-keeps url f h = ground arith

pub allowed-keeps :
    (lib : Library) (now : ℕ) (url : String) (h : LoadBalancerHandler)
    → ((allowed lib now url h).0.balancer ≡ h.balancer)
      × ((allowed lib now url h).0.backends ≡ h.backends)
unfolding allowed
allowed-keeps lib now url h = ground arith

-- What an attempt leaves alone.
pub record Kept (x y : Exchange) : Type 0 where
  pub same : Same x.store y.store
  pub keyless : takes_key y.handler.balancer ≡ takes_key x.handler.balancer
  pub backends : y.handler.backends ≡ x.handler.backends

finish-Kept :
    (lib : Library) (o : Outcome) (b : ℕ) (url : String) (w : RetryableWriter) (e : Option String)
    (x : Exchange)
    → Kept x (finish lib o b url w e x).0
      × ((finish lib o b url w e x).0.tried ≡ x.tried)
      × ((finish lib o b url w e x).0.forwarded ≡ x.forwarded)
unfolding finish
finish-Kept lib o b url w none x = (
  record {
    same =
        modify-Same x.store b (record_response lib.float64 o.duration)
          (response-keeps lib o.duration);
    keyless = ap takes_key ((emit-keeps _ _).0 ∙ (on_breaker-keeps url record_success x.handler).0);
    backends = (emit-keeps _ _).1 ∙ (on_breaker-keeps url record_success x.handler).1;
  },
  refl,
  refl,
)
finish-Kept lib o b url w (some e) x =
    let keeps = on_breaker-keeps url (record_failure o.finished_at) x.handler in
    (
      record { same = λ p. (refl, refl); keyless = ap takes_key keeps.0; backends = keeps.1 },
      refl,
      refl,
    )

Kept-trans : (x y z : Exchange) → Kept x y → Kept y z → Kept x z
Kept-trans x y z h k = record {
  same = Same-trans x.store y.store z.store h.same k.same;
  keyless = k.keyless ∙ h.keyless;
  backends = k.backends ∙ h.backends;
}

forward-Kept :
    (lib : Library) (o : Outcome) (b : ℕ) (url : String) (x : Exchange)
    → Kept x (forward lib o b url x).0
      × ((forward lib o b url x).0.tried ≡ x.tried)
      × ((forward lib o b url x).0.forwarded ≡ b ∷ x.forwarded)
unfolding forward
forward-Kept lib o b url x =
    let (kept, t, f) = finish-Kept lib o b url _ (captured o.error) _ in
    (Kept-trans x _ _ ready kept, t, f)
  where
    ready : Kept x (record x {
      handler =
          emit_event
            (record (event o url) { type = backend_selected; timestamp = o.selected_at })
            (emit_event (event o url) x.handler);
      store = modify b decrement_conn (modify b increment_conn x.store);
      client = (write_all o.calls (wrap_writer x.client)).client;
      backend_header = some url;
      forwarded = b ∷ x.forwarded;
    })
    ready = record {
      same =
          Same-trans x.store (modify b increment_conn x.store)
            (modify b decrement_conn (modify b increment_conn x.store))
            (modify-Same x.store b increment_conn increment-keeps)
            (modify-Same (modify b increment_conn x.store) b decrement_conn decrement-keeps);
      keyless = ap takes_key (
          (emit-keeps (record (event o url) { type = backend_selected; timestamp = o.selected_at })
            (emit_event (event o url) x.handler)).0
          ∙ (emit-keeps (event o url) x.handler).0);
      backends =
          (emit-keeps (record (event o url) { type = backend_selected; timestamp = o.selected_at })
            (emit_event (event o url) x.handler)).1
          ∙ (emit-keeps (event o url) x.handler).1;
    }

pub proceed-Kept :
    (lib : Library) (o : Outcome) (b : ℕ) (url : String) (x : Exchange)
    (a : LoadBalancerHandler × Bool)
    → (a.0.balancer ≡ x.handler.balancer) × (a.0.backends ≡ x.handler.backends)
    → Kept x (proceed lib o b url x a).0
      × ((proceed lib o b url x a).0.tried ≡ x.tried)
      × (((proceed lib o b url x a).0.forwarded ≡ x.forwarded)
          ⊎ ((proceed lib o b url x a).0.forwarded ≡ b ∷ x.forwarded))
unfolding proceed
proceed-Kept lib o b url x (h, false) keeps = (
  record { same = λ p. (refl, refl); keyless = ap takes_key keeps.0; backends = keeps.1 },
  refl,
  inl refl,
)
proceed-Kept lib o b url x (h, true) keeps =
    let (kept, t, f) = forward-Kept lib o b url (record x { handler = h }) in
    (
      record {
        same = kept.same;
        keyless = kept.keyless ∙ ap takes_key keeps.0;
        backends = kept.backends ∙ keeps.1;
      },
      t,
      inr f,
    )
