-- ===== src/Handler/Emitted.antt =====
-- What the handler (internal/handler/handler.go) has sent to the collector so far.
use mathlib.Core.List.{append_assoc}
use go_loadbalancer.Prelude.{
  ℕ, suc, ◌+◌, ◌≤◌, ◌<◌, ◌≡◌, refl, ap, ◌∙◌, arith, List, [], ◌∷◌, ◌++◌, some, length,
  length-append, lt→ltb,
}
use go_loadbalancer.Prelude.Map.{string_key}
use go_loadbalancer.Collector.{
  EventType, request_received, backend_selected, response_completed, health_changed, MetricEvent,
  Collector, try_send,
}
use go_loadbalancer.Handler.State.{LoadBalancerHandler}
use go_loadbalancer.Handler.Effects.{emit_event}

-- How many events of a list are counted.
abbrev pub tally : (EventType → ℕ) → List MetricEvent → ℕ
tally f [] = 0
tally f (e ∷ es) = f e.type + tally f es

abbrev pub is_request : EventType → ℕ
is_request request_received = 1
is_request _ = 0

abbrev pub is_selection : EventType → ℕ
is_selection backend_selected = 1
is_selection _ = 0

abbrev pub is_response : EventType → ℕ
is_response response_completed = 1
is_response _ = 0

abbrev pub is_health : EventType → ℕ
is_health health_changed = 1
is_health _ = 0

tally-append :
    (f : EventType → ℕ) (xs ys : List MetricEvent) → tally f (xs ++ ys) ≡ tally f xs + tally f ys
tally-append f [] ys = omega arith
tally-append f (x ∷ xs) ys = omega (arith, tally-append f xs ys)

-- The collector holds the events `es` more than `c`: at most `n`, `k` of them requests and as many
-- selections, and `r` responses.
pub record Emitted (c : Collector) (n k r : ℕ) (h : LoadBalancerHandler) : Type 0 where
  pub es : List MetricEvent
  pub held : h.metrics_collector ≡ some (record c { event_ch = c.event_ch ++ es })
  pub requests : tally is_request es ≡ k
  pub selections : tally is_selection es ≡ k
  pub responses : tally is_response es ≡ r
  pub no_health : tally is_health es ≡ 0
  pub few : length es ≤ n

emit_event-held :
    (e : MetricEvent) (h : LoadBalancerHandler) (c : Collector)
    → h.metrics_collector ≡ some c
    → length c.event_ch < c.buffer_size
    → (emit_event e h).metrics_collector ≡ some (record c { event_ch = c.event_ch ++ (e ∷ []) })
unfolding emit_event try_send
emit_event-held e h c held room = rw (held, lt→ltb _ _ room) refl

-- One more event, at the end.
emit_event-appended :
    (e : MetricEvent) (h : LoadBalancerHandler) (c : Collector) (es : List MetricEvent)
    → h.metrics_collector ≡ some (record c { event_ch = c.event_ch ++ es })
    → length c.event_ch + length es < c.buffer_size
    → (emit_event e h).metrics_collector
      ≡ some (record c { event_ch = c.event_ch ++ (es ++ (e ∷ [])) })
emit_event-appended e h c es held room =
    emit_event-held e h _ held (omega (arith, length-append c.event_ch es, room))
    ∙ ap (λ all. some (record c { event_ch = all })) (append_assoc c.event_ch es (e ∷ []))

-- The two events before the proxy runs.
pub forwards-Emitted :
    (a b : MetricEvent) (c : Collector) (n k : ℕ) (h : LoadBalancerHandler)
    → a.type ≡ request_received
    → b.type ≡ backend_selected
    → length c.event_ch + n + 2 ≤ c.buffer_size
    → Emitted c n k 0 h
    → Emitted c (n + 2) (suc k) 0 (emit_event b (emit_event a h))
forwards-Emitted a b c n k h is_a is_b room m =
    let one = emit_event-appended a h c m.es m.held (omega (arith, m.few, room)) in
    let short = length-append m.es (a ∷ []) in
    let longer = length-append (m.es ++ (a ∷ [])) (b ∷ []) in
    record {
      es = (m.es ++ (a ∷ [])) ++ (b ∷ []);
      held =
          emit_event-appended b (emit_event a h) c (m.es ++ (a ∷ [])) one
            (omega (arith, m.few, room, short));
      requests = counted is_request ∙ rw (is_a, is_b) (omega (arith, m.requests));
      selections = counted is_selection ∙ rw (is_a, is_b) (omega (arith, m.selections));
      responses = counted is_response ∙ rw (is_a, is_b) (omega (arith, m.responses));
      no_health = counted is_health ∙ rw (is_a, is_b) (omega (arith, m.no_health));
      few = omega (arith, m.few, short, longer);
    }
  where
    counted :
        (f : EventType → ℕ)
        → tally f ((m.es ++ (a ∷ [])) ++ (b ∷ [])) ≡ tally f m.es + f a.type + f b.type
    counted f =
        omega (arith, tally-append f (m.es ++ (a ∷ [])) (b ∷ []), tally-append f m.es (a ∷ []))

pub completes-Emitted :
    (a : MetricEvent) (c : Collector) (n k : ℕ) (h : LoadBalancerHandler)
    → a.type ≡ response_completed
    → length c.event_ch + n + 1 ≤ c.buffer_size
    → Emitted c n k 0 h
    → Emitted c (n + 1) k 1 (emit_event a h)
completes-Emitted a c n k h is_a room m =
    let longer = length-append m.es (a ∷ []) in
    record {
      es = m.es ++ (a ∷ []);
      held = emit_event-appended a h c m.es m.held (omega (arith, m.few, room));
      requests = counted is_request ∙ rw is_a (omega (arith, m.requests));
      selections = counted is_selection ∙ rw is_a (omega (arith, m.selections));
      responses = counted is_response ∙ rw is_a (omega (arith, m.responses));
      no_health = counted is_health ∙ rw is_a (omega (arith, m.no_health));
      few = omega (arith, m.few, longer);
    }
  where
    counted : (f : EventType → ℕ) → tally f (m.es ++ (a ∷ [])) ≡ tally f m.es + f a.type
    counted f = omega (arith, tally-append f m.es (a ∷ []))

pub moved :
    (c : Collector) (n k r : ℕ) (h g : LoadBalancerHandler)
    → g.metrics_collector ≡ h.metrics_collector
    → Emitted c n k r h
    → Emitted c n k r g
moved c n k r h g e m = record {
  es = m.es;
  held = e ∙ m.held;
  requests = m.requests;
  selections = m.selections;
  responses = m.responses;
  no_health = m.no_health;
  few = m.few;
}

pub more :
    (c : Collector) (n n' k r : ℕ) (h : LoadBalancerHandler)
    → n ≤ n'
    → Emitted c n k r h
    → Emitted c n' k r h
more c n n' k r h le m = record {
  es = m.es;
  held = m.held;
  requests = m.requests;
  selections = m.selections;
  responses = m.responses;
  no_health = m.no_health;
  few = omega (arith, m.few, le);
}
