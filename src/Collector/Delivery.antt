-- ===== src/Collector/Delivery.antt =====
-- No accepted event is lost or taken twice on its way through internal/metrics/collector.go, for any
-- interleaving of the senders with the goroutine that receives.
use mathlib.Core.List.{append-nil, append_assoc}
use go_loadbalancer.Prelude.{
  ℕ, ◌≤◌, ◌<◌, ◌≡◌, refl, sym, ap, ◌∙◌, arith, Bool, true, false, List, [], ◌∷◌, ◌++◌, some, length,
  length-append, ltb, ltb→lt, if◌then◌else◌, Bool-cases, inl, inr,
}
use go_loadbalancer.Metrics
use go_loadbalancer.Metrics.{Metrics}
use go_loadbalancer.Collector.{
  MetricEvent, Collector, new, process_event, process_all, try_send, receive_from, receive,
  drain_from, drain,
}

-- The collector with the events that its channel has accepted so far, oldest first.
pub record System : Type 0 where
  pub collector : Collector
  pub accepted : List MetricEvent
  pub stopped : Bool

-- Whether the buffer has room.
abbrev pub has_room : Collector → Bool
has_room c = ltb (length c.event_ch) c.buffer_size

-- A handler sends, the goroutine receives, or it sees the context cancelled, drains and returns.
pub data Step : System → System → Type 0 where
  sends :
      (s : System) (e : MetricEvent)
      → Step s (record s {
        collector = try_send e s.collector;
        accepted = if has_room s.collector then s.accepted ++ (e ∷ []) else s.accepted;
      })
  receives :
      (s : System) (c : Collector)
      → s.stopped ≡ false
      → receive s.collector ≡ some c
      → Step s (record s { collector = c })
  cancels :
      (s : System)
      → s.stopped ≡ false
      → Step s (record s { collector = drain s.collector; stopped = true })

pub data Reach (s : System) : System → Type 0 where
  here : Reach s s
  next : {t u : System} → Reach s t → Step t u → Reach s u

abbrev pub start : ℕ → ℕ → System
start buffer_size now = record { collector = new buffer_size now; accepted = []; stopped = false }

-- The accepted events are those processed, in order, and then those in the buffer, which is never
-- over its size.
pub record Delivered (now buffer_size : ℕ) (s : System) : Type 0 where
  pub processed : List MetricEvent
  pub in_order : s.accepted ≡ processed ++ s.collector.event_ch
  pub metrics_exact : s.collector.metrics ≡ process_all processed (Metrics.new now)
  pub size_kept : s.collector.buffer_size ≡ buffer_size
  pub bounded : length s.collector.event_ch ≤ buffer_size

process_all-append :
    (xs ys : List MetricEvent) (m : Metrics)
    → process_all (xs ++ ys) m ≡ process_all ys (process_all xs m)
unfolding process_all
process_all-append [] ys m = refl
process_all-append (x ∷ xs) ys m = process_all-append xs ys (process_event x m)

drain_from-all :
    (es : List MetricEvent) (c : Collector)
    → c.event_ch ≡ es
    → (drain_from es c ≡ record c { event_ch = []; metrics = process_all es c.metrics })
unfolding drain_from process_all
drain_from-all [] c e = ground arith
drain_from-all (x ∷ xs) c e =
    drain_from-all xs (record c { event_ch = xs; metrics = process_event x c.metrics }) refl

-- `drain` processes what the buffer holds, in order, and leaves it empty.
pub drain-all :
    (c : Collector)
    → drain c ≡ record c { event_ch = []; metrics = process_all c.event_ch c.metrics }
unfolding drain
drain-all c = drain_from-all c.event_ch c refl

receive_from-cons :
    (es : List MetricEvent) (c c' : Collector)
    → receive_from es c ≡ some c'
    → (e : MetricEvent) × (rest : List MetricEvent) × (es ≡ e ∷ rest)
      × (c' ≡ record c { event_ch = rest; metrics = process_event e c.metrics })
unfolding receive_from
receive_from-cons [] c c' h = cc
receive_from-cons (e ∷ rest) c c' h = (e, rest, refl, cc)

Step-Delivered : (now n : ℕ) {s t : System} → Step s t → Delivered now n s → Delivered now n t
unfolding try_send receive process_event process_all
Step-Delivered now n (sends s e) d = elim (Bool-cases (has_room s.collector)) [
  | inl room ↦
      let short : length s.collector.event_ch < s.collector.buffer_size = ltb→lt _ _ room in
      rw room (record {
        processed = d.processed;
        in_order =
            ap (λ es. es ++ (e ∷ [])) d.in_order
            ∙ append_assoc d.processed s.collector.event_ch (e ∷ []);
        metrics_exact = d.metrics_exact;
        size_kept = d.size_kept;
        bounded = omega (arith, length-append s.collector.event_ch (e ∷ []), d.size_kept);
      })
  | inr full ↦ rw full (record {
    processed = d.processed;
    in_order = d.in_order;
    metrics_exact = d.metrics_exact;
    size_kept = d.size_kept;
    bounded = d.bounded;
  })
]
Step-Delivered now n (receives s c running got) d =
    let (e, rest, held, same) = receive_from-cons s.collector.event_ch s.collector c got in
    rw same (record {
      processed = d.processed ++ (e ∷ []);
      in_order =
          d.in_order
          ∙ ap (λ es. d.processed ++ es) held
          ∙ sym (append_assoc d.processed (e ∷ []) rest);
      metrics_exact =
          ap (process_event e) d.metrics_exact
          ∙ sym (process_all-append d.processed (e ∷ []) (Metrics.new now));
      size_kept = d.size_kept;
      bounded = omega (arith, ap length held, d.bounded);
    })
Step-Delivered now n (cancels s running) d = rw (drain-all s.collector) (record {
  processed = d.processed ++ s.collector.event_ch;
  in_order = d.in_order ∙ sym (append-nil (d.processed ++ s.collector.event_ch));
  metrics_exact =
      ap (process_all s.collector.event_ch) d.metrics_exact
      ∙ sym (process_all-append d.processed s.collector.event_ch (Metrics.new now));
  size_kept = d.size_kept;
  bounded = omega arith;
})

-- From a new collector on, whatever the senders and the goroutine do in whatever order, the events
-- that the channel accepted are the ones processed, in order, followed by those in the buffer; the
-- metrics are those of the processed events, and the buffer never exceeds its size.
pub Reach-Delivered : (now n : ℕ) {s : System} → Reach (start n now) s → Delivered now n s
unfolding new process_all Metrics.new
Reach-Delivered now n here = record {
  processed = [];
  in_order = refl;
  metrics_exact = refl;
  size_kept = refl;
  bounded = omega arith;
}
Reach-Delivered now n (next r st) = Step-Delivered now n st (Reach-Delivered now n r)

-- When the goroutine drains the buffer, every event accepted until then has been processed.
pub drain_processes_all :
    (now n : ℕ) {s : System}
    → Reach (start n now) s
    → ((drain s.collector).metrics ≡ process_all s.accepted (Metrics.new now))
      × ((drain s.collector).event_ch ≡ [])
drain_processes_all now n {s} r =
    let d = Reach-Delivered now n r in
    rw (drain-all s.collector) (
      ap (process_all s.collector.event_ch) d.metrics_exact
          ∙ sym (process_all-append d.processed s.collector.event_ch (Metrics.new now))
          ∙ ap (λ es. process_all es (Metrics.new now)) (sym d.in_order),
      refl,
    )
