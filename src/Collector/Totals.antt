-- ===== src/Collector/Totals.antt =====
-- The total of a snapshot (internal/metrics/metrics.go), over any events.
use go_loadbalancer.Prelude.{
  ℕ, ◌+◌, ◌≤◌, ◌<◌, ◌^◌, ◌≡◌, ◌≢◌, refl, sym, ap, ◌∙◌, ◌⊎◌, inl, inr, arith, Bool, true, false,
  List, [], ◌∷◌, String, length, In, Distinct, Bool-cases,
}
use go_loadbalancer.Prelude.Int.{ℤ, pos, pos_part}
use go_loadbalancer.Prelude.Map.{get, ◌==◌, string_key, beq_refl}
use go_loadbalancer.Prelude.Keys.{keys}
use go_loadbalancer.Metrics.{Metrics, Snapshot, snapshot, all_backends}
use go_loadbalancer.Metrics
use go_loadbalancer.Metrics.Marks.{
  Distinct-all_backends, all_backends-covers, snapshot-total, sum_over,
}
use go_loadbalancer.Collector.{
  EventType, request_received, backend_selected, response_completed, health_changed, MetricEvent,
  process_all,
}
use go_loadbalancer.Collector.Tally.{request_of, requests_of, process_all-Tallied}

-- All the events of requests, whatever their address.
abbrev pub all_requests : List MetricEvent → ℕ
all_requests [] = 0
all_requests (e ∷ es) = request_of e.type true + all_requests es

sum_over-plus :
    (f g : String → ℕ) (us : List String)
    → sum_over (λ u. f u + g u) us ≡ sum_over f us + sum_over g us
sum_over-plus f g [] = omega arith
sum_over-plus f g (u ∷ us) = omega (arith, sum_over-plus f g us)

request_of-false : (t : EventType) → request_of t false ≡ 0
request_of-false request_received = refl
request_of-false backend_selected = refl
request_of-false response_completed = refl
request_of-false health_changed = refl

-- One event, over addresses that do not contain its own.
elsewhere :
    (t : EventType) (url : String) (us : List String)
    → ¬ In url us
    → sum_over (λ u. request_of t (url == u)) us ≡ 0
elsewhere t url [] out = refl
elsewhere t url (u ∷ us) out = elim (Bool-cases (url == u)) [
  | inl e ↦ absurd (out (inl ((string_key.beq_iff url u).0 e)))
  | inr ne ↦ rw ne (omega (arith, request_of-false t, elsewhere t url us (λ i. out (inr i))))
]

-- And over different addresses of which one is its own.
once :
    (t : EventType) (url : String) (us : List String)
    → Distinct us
    → In url us
    → sum_over (λ u. request_of t (url == u)) us ≡ request_of t true
once t url [] d i = elim i [ ]
once t url (u ∷ us) d (inl e) =
    rw ((string_key.beq_iff url u).1 e) (omega (arith, elsewhere t url us (λ j. d.0 (rw (← e) j))))
once t url (u ∷ us) d (inr i) = elim (Bool-cases (url == u)) [
  | inl e ↦ absurd (d.0 (rw (← (string_key.beq_iff url u).0 e) i))
  | inr ne ↦ rw ne (omega (arith, request_of-false t, once t url us d.1 i))
]

request_cases : (t : EventType) → (request_of t true ≡ 0) ⊎ (request_of t true ≡ 1)
request_cases request_received = inr refl
request_cases backend_selected = inl refl
request_cases response_completed = inl refl
request_cases health_changed = inl refl

silent : (t : EventType) (b : Bool) → request_of t true ≡ 0 → request_of t b ≡ 0
silent t true h = h
silent t false h = request_of-false t

sum_over-silent :
    (t : EventType) (url : String) (us : List String)
    → request_of t true ≡ 0
    → sum_over (λ u. request_of t (url == u)) us ≡ 0
sum_over-silent t url [] h = refl
sum_over-silent t url (u ∷ us) h = omega (arith, silent t (url == u) h, sum_over-silent t url us h)

-- The addresses of the requests are among `us`.
Covers : List String → List MetricEvent → Type 0
Covers us es = (url : String) → requests_of url es ≢ 0 → In url us

sum_over-requests :
    (us : List String) (es : List MetricEvent)
    → Distinct us
    → Covers us es
    → sum_over (λ u. requests_of u es) us ≡ all_requests es
unfolding Covers
sum_over-requests us [] d cover = nothing us
  where
    nothing : (us : List String) → sum_over (λ u. 0) us ≡ 0
    nothing [] = refl
    nothing (u ∷ us) = omega (arith, nothing us)
sum_over-requests us (e ∷ es) d cover =
    sum_over-plus (λ u. request_of e.type (e.backend == u)) (λ u. requests_of u es) us
    ∙ omega (arith, own, sum_over-requests us es d (λ url h. cover url (λ z. h (omega (arith, z)))))
  where
    own : sum_over (λ u. request_of e.type (e.backend == u)) us ≡ request_of e.type true
    own = elim (request_cases e.type) [
      | inl h ↦ sum_over-silent e.type e.backend us h ∙ sym h
      | inr h ↦ once e.type e.backend us d (
          cover e.backend (λ z.
            let mine = ap (request_of e.type) (beq_refl e.backend) in omega (arith, mine, h, z)))
    ]

all_requests-le : (es : List MetricEvent) → all_requests es ≤ length es
all_requests-le [] = omega arith
all_requests-le (e ∷ es) = elim (request_cases e.type) [
  | inl h ↦ omega (arith, h, all_requests-le es)
  | inr h ↦ omega (arith, h, all_requests-le es)
]

-- After fewer than 2^63 events, the total of a snapshot is the number of the events of requests,
-- whatever their addresses and the other events between them.
pub snapshot_total :
    (since : ℕ → ℕ → ℤ) (now begun : ℕ) (algorithm : String) (es : List MetricEvent)
    → length es < 2 ^ 63
    → (snapshot since now algorithm (process_all es (Metrics.new begun))).total_requests
      ≡ pos (all_requests es)
unfolding Covers
snapshot_total since now begun algorithm es small =
    let m = process_all es (Metrics.new begun) in
    let counts : (url : String) → get (pos 0) url m.requests ≡ pos (requests_of url es) =
      λ url. (process_all-Tallied url begun es small).requests_exact in
    let total =
      sum_over-requests (keys (all_backends m)) es (Distinct-all_backends m)
        (λ url h. all_backends-covers m url (λ z. h (ap pos_part (sym (counts url) ∙ z)))) in
    snapshot-total since now algorithm m (λ u. requests_of u es) counts
      (omega (arith, total, all_requests-le es, small))
    ∙ ap pos total
