-- ===== src/Handler/Service/Connections.antt =====
-- The counts of active connections under load (internal/handler/handler.go with
-- internal/loadbalancer/loadbalancer.go and internal/backend/proxy.go).
use go_loadbalancer.Prelude.{
  ℕ, zero, suc, ◌+◌, ◌^◌, ◌≤◌, ◌<◌, ◌≡◌, refl, ap, ◌∙◌, inl, inr, arith, Bool, true, false, List,
  [], ◌∷◌, ◌++◌, Option, none, some, get_elem?, length, length-append, Bool-cases,
}
use go_loadbalancer.Prelude.Int.{pos}
use go_loadbalancer.Prelude.Map.{◌==◌, nat_key, string_key}
use go_loadbalancer.Prelude.Slots.{
  Holds-map, Holds, Holds-some, sum_of, sum_of-set_elem, sum_of-append, length-set_elem,
}
use go_loadbalancer.Backend.{Backend, Store, set_healthy}
use go_loadbalancer.Handler.State.{LoadBalancerHandler, Library, Exchange}
use go_loadbalancer.Handler.{max_attempts, rounds}
use go_loadbalancer.Handler.Goroutine.{Phase, proxying, releasing, Task, next_attempt, advance}
use go_loadbalancer.Handler.Service.{
  Request, Service, exchange_of, reservation, request_in, put_back, resume, arrived, collected,
  Event, arrives, proceeds, probes, collects, step, Reach, at_start, after,
}
use go_loadbalancer.Handler.Service.Kept.{collected-Kept}
use go_loadbalancer.Handler.Service.Counts.{same, count, active, kept-active}
use go_loadbalancer.Handler.Service.Flights.{in_flight, forwarding, Connected, advance_in-Connected}

-- The count of a backend is that of its reservations, and one more for each request on its way.
abbrev Balanced : ℕ → Service → Type 0
Balanced q s = active q s.store ≡ pos (count q s.reserved + sum_of (forwarding q) s.requests)

abbrev Grown : ℕ → Service → Service → Type 0
Grown q s t = (count q s.reserved ≤ count q t.reserved) × (length s.requests ≤ length t.requests)

same-le : (q b : ℕ) → same q b ≤ 1
same-le q b = elim (Bool-cases (q == b)) [
  | inl own ↦ rw own (omega arith)
  | inr other ↦ rw other (omega arith)
]

in_flight-le : (q : ℕ) (p : Phase) → in_flight q p ≤ 1
in_flight-le q (proxying b url) = same-le q b
in_flight-le q (releasing b url w e) = same-le q b
in_flight-le q p = omega arith

forwarding-le : (q : ℕ) (rs : List Request) → sum_of (forwarding q) rs ≤ length rs
forwarding-le q [] = omega arith
forwarding-le q (r ∷ rs) = omega (arith, in_flight-le q r.task.phase, forwarding-le q rs)

count-append : (q : ℕ) (xs ys : List ℕ) → count q (xs ++ ys) ≡ count q xs + count q ys
count-append q [] ys = omega arith
count-append q (x ∷ xs) ys = omega (arith, count-append q xs ys)

put_back-Grown :
    (q : ℕ) (s : Service) (k : ℕ) (r : Request) (a : Option (Exchange × Task))
    → Holds (Grown q s) (put_back s k r a)
put_back-Grown q s k r none = tt
put_back-Grown q s k r (some (x, t)) = (
  omega (arith, count-append q (reservation t.phase) s.reserved),
  omega (arith, length-set_elem s.requests k (request_in r x t)),
)

resume-Grown :
    (q : ℕ) (lib : Library) (s : Service) (k : ℕ) (r : Option Request)
    → Holds (Grown q s) (resume lib s k r)
resume-Grown q lib s k none = tt
resume-Grown q lib s k (some r) =
    put_back-Grown q s k r (advance lib r.client_ip r.outcomes (exchange_of s r) r.task)

step-Grown : (q : ℕ) (lib : Library) (e : Event) (s : Service) → Holds (Grown q s) (step lib e s)
unfolding step
step-Grown q lib (arrives ip method outcomes) s = (
  omega arith,
  omega (arith, length-append s.requests (arrived ip method outcomes s.handler ∷ [])),
)
step-Grown q lib (proceeds k) s = resume-Grown q lib s k (get_elem? s.requests k)
step-Grown q lib (probes b healthy) s = (omega arith, omega arith)
step-Grown q lib collects s =
    Holds-map _ (Grown q s) (collected s s.handler.metrics_collector)
      (λ t (e, f, g). (omega (arith, ap (count q) f), omega (arith, ap length g)))
      (collected-Kept s s.handler.metrics_collector)

put_back-Balanced :
    (q : ℕ) (s : Service) (k : ℕ) (r : Request) (a : Option (Exchange × Task))
    → get_elem? s.requests k ≡ some r
    → Holds (Connected q r.task.phase (count q s.reserved + sum_of (forwarding q) s.requests)) a
    → Holds (Balanced q) (put_back s k r a)
put_back-Balanced q s k r none found h = tt
put_back-Balanced q s k r (some (x, t)) found (m, e, moved) =
    let (others, was, now) =
      sum_of-set_elem (forwarding q) s.requests k (request_in r x t) r found in
    e ∙ ap pos (omega (arith, was, now, moved, count-append q (reservation t.phase) s.reserved))

resume-Balanced :
    (q : ℕ) (lib : Library) (s : Service) (k : ℕ) (found : Option Request)
    → get_elem? s.requests k ≡ found
    → count q s.reserved + length s.requests + 1 < 2 ^ 63
    → Balanced q s
    → Holds (Balanced q) (resume lib s k found)
unfolding advance
resume-Balanced q lib s k none found small b = tt
resume-Balanced q lib s k (some r) found small b =
    let (others, was, now) = sum_of-set_elem (forwarding q) s.requests k r r found in
    put_back-Balanced q s k r (advance lib r.client_ip r.outcomes (exchange_of s r) r.task) found (
      advance_in-Connected q (count q s.reserved + sum_of (forwarding q) s.requests) lib r.client_ip
        (r.outcomes r.task.number) r.task.phase (exchange_of s r) r.task b
        (omega (arith, small, forwarding-le q s.requests)) (omega (arith, was)))

first-idle : (q : ℕ) (bs : List ℕ) (k n : ℕ) → in_flight q (next_attempt bs k n).phase ≡ 0
first-idle q bs zero n = refl
first-idle q bs (suc k) n = refl

health-active :
    (healthy : Bool) (c : Backend)
    → (set_healthy healthy c).0.active_connections ≡ c.active_connections
unfolding set_healthy
health-active true c = ground arith
health-active false c = ground arith

step-Balanced :
    (q : ℕ) (lib : Library) (e : Event) (s : Service)
    → count q s.reserved + length s.requests + 1 < 2 ^ 63
    → Balanced q s
    → Holds (Balanced q) (step lib e s)
unfolding step
step-Balanced q lib (arrives ip method outcomes) s small b =
    b
    ∙ ap pos (
        omega (
          arith,
          sum_of-append (forwarding q) s.requests (arrived ip method outcomes s.handler ∷ []),
          first-idle q s.handler.backends (rounds (max_attempts method s.handler.max_retries)) 1,
        ))
step-Balanced q lib (proceeds k) s small b =
    resume-Balanced q lib s k (get_elem? s.requests k) refl small b
step-Balanced q lib (probes c healthy) s small b =
    kept-active q c (λ d. (set_healthy healthy d).0) s.store (health-active healthy) ∙ b
step-Balanced q lib collects s small b =
    Holds-map _ (Balanced q) (collected s s.handler.metrics_collector)
      (λ t (e, f, g).
        ap (active q) e ∙ b ∙ ap pos (omega (arith, ap (count q) f, ap (sum_of (forwarding q)) g)))
      (collected-Kept s s.handler.metrics_collector)

-- From a store where no connection is counted, and while the reservations of a backend and the requests
-- stay below 2^63 - 1, the count of active connections of the backend is the number of the reservations ever
-- made of it, and one more for each request that is being forwarded to it, however the requests, the
-- health checks and the collector interleave: no reservation is ever given back.
pub connections_counted :
    (lib : Library) (h : LoadBalancerHandler) (store : Store) (s : Service) (b : ℕ)
    → (store b).active_connections ≡ pos 0
    → Reach lib h store s
    → count b s.reserved + length s.requests + 1 < 2 ^ 63
    → (s.store b).active_connections ≡ pos (count b s.reserved + sum_of (forwarding b) s.requests)
connections_counted lib h store s b zero_ at_start small = zero_
connections_counted lib h store t b zero_ (after {s = s} r e i) small =
    let grown = Holds-some (Grown b s) (step lib e s) (step-Grown b lib e s) i in
    let smaller : count b s.reserved + length s.requests + 1 < 2 ^ 63 =
      omega (arith, small, grown.0, grown.1) in
    Holds-some (Balanced b) (step lib e s)
      (step-Balanced b lib e s smaller (connections_counted lib h store s b zero_ r smaller)) i
