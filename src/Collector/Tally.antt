-- ===== src/Collector/Tally.antt =====
-- What the metrics hold after any sequence of events (internal/metrics/metrics.go and collector.go).
use mathlib.Core.List.{append-nil, append_assoc}
use go_loadbalancer.Prelude.{
  ℕ, ◌+◌, ◌≤◌, ◌<◌, ◌^◌, ◌≡◌, refl, sym, ap, ◌∙◌, arith, Bool, true, false, List, [], ◌∷◌, ◌++◌,
  String, length, if◌then◌else◌,
}
use go_loadbalancer.Prelude.Int.{ℤ, pos}
use go_loadbalancer.Prelude.Map.{get, ◌==◌, string_key}
use go_loadbalancer.Metrics.{
  Metrics, increment_requests, record_backend_selection, record_response, update_health_status,
}
use go_loadbalancer.Metrics
use go_loadbalancer.Metrics.Counters.{
  window, increment_requests-get, record_backend_selection-get, record_response-get,
  update_health_status-get,
}
use go_loadbalancer.Collector.{
  EventType, request_received, backend_selected, response_completed, health_changed, MetricEvent,
  process_type, process_event, process_all,
}

-- What an event of a type says of an address, if it is the event's own.
abbrev pub request_of : EventType → Bool → ℕ
request_of request_received true = 1
request_of _ _ = 0

abbrev selection_of : EventType → Bool → ℕ
selection_of backend_selected true = 1
selection_of _ _ = 0

abbrev sample_of : EventType → Bool → ℤ → List ℤ
sample_of response_completed true d = d ∷ []
sample_of _ _ d = []

abbrev health_of : EventType → Bool → Bool → Bool → Bool
health_of health_changed true healthy old = healthy
health_of _ _ healthy old = old

-- The events of each type that name an address: how many, their durations in order, and the health
-- that the last of them reports.
abbrev pub requests_of : String → List MetricEvent → ℕ
requests_of url [] = 0
requests_of url (e ∷ es) = request_of e.type (e.backend == url) + requests_of url es

abbrev pub selections_of : String → List MetricEvent → ℕ
selections_of url [] = 0
selections_of url (e ∷ es) = selection_of e.type (e.backend == url) + selections_of url es

abbrev pub durations_of : String → List MetricEvent → List ℤ
durations_of url [] = []
durations_of url (e ∷ es) = sample_of e.type (e.backend == url) e.duration ++ durations_of url es

abbrev pub last_health : String → Bool → List MetricEvent → Bool
last_health url old [] = old
last_health url old (e ∷ es) =
    last_health url (health_of e.type (e.backend == url) e.healthy old) es

pub record Tallied (url : String) (requests selections : ℕ) (durations : List ℤ) (healthy : Bool)
    (m : Metrics) : Type 0 where
  pub requests_exact : get (pos 0) url m.requests ≡ pos requests
  pub selections_exact : get (pos 0) url m.selections ≡ pos selections
  pub times_exact : get [] url m.response_times ≡ window durations
  pub health_exact : get false url m.health_status ≡ healthy

if_request : (b : Bool) (n : ℕ) → (if b then n + 1 else n) ≡ n + request_of request_received b
if_request true n = refl
if_request false n = omega arith

if_selection : (b : Bool) (n : ℕ) → (if b then n + 1 else n) ≡ n + selection_of backend_selected b
if_selection true n = refl
if_selection false n = omega arith

if_sample :
    (b : Bool) (d : ℤ) (ds : List ℤ)
    → (if b then ds ++ (d ∷ []) else ds) ≡ ds ++ sample_of response_completed b d
if_sample true d ds = refl
if_sample false d ds = sym (append-nil ds)

if_health :
    (b healthy old : Bool) → (if b then healthy else old) ≡ health_of health_changed b healthy old
if_health true healthy old = refl
if_health false healthy old = refl

same_count : {a : ℤ} (n : ℕ) → a ≡ pos n → a ≡ pos (n + 0)
same_count n e = e ∙ ap pos (omega arith)

same_window : {xs : List ℤ} (ds : List ℤ) → xs ≡ window ds → xs ≡ window (ds ++ [])
same_window ds e = e ∙ ap window (sym (append-nil ds))

module _ (url : String) (e : MetricEvent) (r s : ℕ) (ds : List ℤ) (h : Bool) (m : Metrics) where
  process_type-Tallied :
      (t : EventType)
      → r + 1 < 2 ^ 63
      → s + 1 < 2 ^ 63
      → Tallied url r s ds h m
      → let own = e.backend == url in
        Tallied url
          (r + request_of t own)
          (s + selection_of t own)
          (ds ++ sample_of t own e.duration)
          (health_of t own e.healthy h)
          (process_type t e m)
  unfolding process_type increment_requests record_backend_selection record_response
      update_health_status
  process_type-Tallied request_received small_r small_s k = record {
    requests_exact =
        increment_requests-get url e.backend m r k.requests_exact small_r
        ∙ ap pos (if_request (e.backend == url) r);
    selections_exact = same_count s k.selections_exact;
    times_exact = same_window ds k.times_exact;
    health_exact = k.health_exact;
  }
  process_type-Tallied backend_selected small_r small_s k = record {
    requests_exact = same_count r k.requests_exact;
    selections_exact =
        record_backend_selection-get url e.backend m s k.selections_exact small_s
        ∙ ap pos (if_selection (e.backend == url) s);
    times_exact = same_window ds k.times_exact;
    health_exact = k.health_exact;
  }
  process_type-Tallied response_completed small_r small_s k = record {
    requests_exact = same_count r k.requests_exact;
    selections_exact = same_count s k.selections_exact;
    times_exact =
        record_response-get url e.backend e.duration e.status_code m ds k.times_exact
        ∙ ap window (if_sample (e.backend == url) e.duration ds);
    health_exact = k.health_exact;
  }
  process_type-Tallied health_changed small_r small_s k = record {
    requests_exact = same_count r k.requests_exact;
    selections_exact = same_count s k.selections_exact;
    times_exact = same_window ds k.times_exact;
    health_exact =
        update_health_status-get url e.backend e.healthy m
        ∙ ap (λ old. if e.backend == url then e.healthy else old) k.health_exact
        ∙ if_health (e.backend == url) e.healthy h;
  }

request_of-le : (t : EventType) (b : Bool) → request_of t b + selection_of t b ≤ 1
request_of-le request_received true = omega arith
request_of-le request_received false = omega arith
request_of-le backend_selected true = omega arith
request_of-le backend_selected false = omega arith
request_of-le response_completed b = omega arith
request_of-le health_changed b = omega arith

process_all-from :
    (url : String) (es : List MetricEvent) (r s : ℕ) (ds : List ℤ) (h : Bool) (m : Metrics)
    → r + length es < 2 ^ 63
    → s + length es < 2 ^ 63
    → Tallied url r s ds h m
    → Tallied url
        (r + requests_of url es)
        (s + selections_of url es)
        (ds ++ durations_of url es)
        (last_health url h es)
        (process_all es m)
unfolding process_all process_event
process_all-from url [] r s ds h m small_r small_s k = record {
  requests_exact = same_count r k.requests_exact;
  selections_exact = same_count s k.selections_exact;
  times_exact = same_window ds k.times_exact;
  health_exact = k.health_exact;
}
process_all-from url (e ∷ es) r s ds h m small_r small_s k =
    let own = e.backend == url in
    let one = request_of-le e.type own in
    let rest =
      process_all-from url es (r + request_of e.type own) (s + selection_of e.type own)
        (ds ++ sample_of e.type own e.duration) (health_of e.type own e.healthy h)
        (process_type e.type e m) (omega (arith, one)) (omega (arith, one))
        (process_type-Tallied url e r s ds h m e.type (omega arith) (omega arith) k) in
    record {
      requests_exact = rest.requests_exact ∙ ap pos (omega arith);
      selections_exact = rest.selections_exact ∙ ap pos (omega arith);
      times_exact =
          rest.times_exact
          ∙ ap window (append_assoc ds (sample_of e.type own e.duration) (durations_of url es));
      health_exact = rest.health_exact;
    }

-- After any sequence of fewer than 2^63 events, the metrics hold for every address the number of
-- its request and selection events, the last 1000 durations of its responses in order, and the
-- health that its last health event reported, or false.
pub process_all-Tallied :
    (url : String) (now : ℕ) (es : List MetricEvent)
    → length es < 2 ^ 63
    → Tallied url
        (requests_of url es)
        (selections_of url es)
        (durations_of url es)
        (last_health url false es)
        (process_all es (Metrics.new now))
unfolding Metrics.new get
process_all-Tallied url now es small =
    let from =
      process_all-from url es 0 0 [] false (Metrics.new now) (omega arith) (omega arith) (record {
        requests_exact = refl;
        selections_exact = refl;
        times_exact = refl;
        health_exact = refl;
      }) in
    record {
      requests_exact = from.requests_exact ∙ ap pos (omega arith);
      selections_exact = from.selections_exact ∙ ap pos (omega arith);
      times_exact = from.times_exact;
      health_exact = from.health_exact;
    }
