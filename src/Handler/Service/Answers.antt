-- ===== src/Handler/Service/Answers.antt =====
-- What the clients receive under load (internal/handler/handler.go).
use go_loadbalancer.Prelude.{
  ℕ, zero, suc, ◌≡◌, refl, sym, subst, arith, [], ◌∷◌, Option, none, some, String, get_elem?,
  get_elem?-In, All, All-In,
}
use go_loadbalancer.Prelude.Map.{string_key}
use go_loadbalancer.Prelude.Slots.{Holds, Holds-some, Holds-map, All-set_elem, All-append}
use go_loadbalancer.Backend.{Store}
use go_loadbalancer.Handler.State.{LoadBalancerHandler, Library, Outcome, Exchange}
use go_loadbalancer.Handler.{max_attempts, rounds}
use go_loadbalancer.Handler.Goroutine.{returned, Task, next_attempt, advance}
use go_loadbalancer.Handler.Service.{
  Request, Service, exchange_of, request_in, put_back, resume, arrived, collected, Event, arrives,
  proceeds, probes, collects, step, Reach, at_start, after,
}
use go_loadbalancer.Handler.Service.Kept.{collected-Kept}
use go_loadbalancer.Handler.Service.Responses.{Answer, Sent, SentBy, advance_in-SentBy}

-- The same of a request, by its own variables.
abbrev pub RequestSent : Library → Request → Type 0
RequestSent lib r =
    Sent lib r.outcomes (rounds r.max_attempts) r.task.phase r.task.left r.task.number r.client

arrived-RequestSent :
    (lib : Library) (ip method : String) (outcomes : ℕ → Outcome) (h : LoadBalancerHandler)
    → RequestSent lib (arrived ip method outcomes h)
arrived-RequestSent lib ip method outcomes h =
    from_left (rounds (max_attempts method h.max_retries)) refl
  where
    from_left :
        (k : ℕ)
        → k ≡ rounds (max_attempts method h.max_retries)
        → let t = next_attempt h.backends k 1 in
          Sent lib outcomes (rounds (max_attempts method h.max_retries)) t.phase t.left t.number []
    from_left zero e = refl
    from_left (suc k) e = ((omega arith, omega (arith, e)), refl)

abbrev AllSent : Library → Service → Type 0
AllSent lib s = All (RequestSent lib) s.requests

put_back-AllSent :
    (lib : Library) (s : Service) (k : ℕ) (r : Request) (a : Option (Exchange × Task))
    → AllSent lib s
    → Holds (SentBy lib r.outcomes (rounds r.max_attempts)) a
    → Holds (AllSent lib) (put_back s k r a)
put_back-AllSent lib s k r none all h = tt
put_back-AllSent lib s k r (some (x, t)) all h =
    All-set_elem (RequestSent lib) s.requests k (request_in r x t) all h

resume-AllSent :
    (lib : Library) (s : Service) (k : ℕ) (found : Option Request)
    → get_elem? s.requests k ≡ found
    → AllSent lib s
    → Holds (AllSent lib) (resume lib s k found)
unfolding advance
resume-AllSent lib s k none found all = tt
resume-AllSent lib s k (some r) found all =
    put_back-AllSent lib s k r (advance lib r.client_ip r.outcomes (exchange_of s r) r.task) all (
      advance_in-SentBy lib r.outcomes (rounds r.max_attempts) r.client_ip r.task.phase
        (exchange_of s r) r.task
        (All-In (RequestSent lib) s.requests all (get_elem?-In s.requests k found)))

step-AllSent :
    (lib : Library) (e : Event) (s : Service) → AllSent lib s → Holds (AllSent lib) (step lib e s)
unfolding step
step-AllSent lib (arrives ip method outcomes) s all =
    All-append (RequestSent lib) s.requests (arrived ip method outcomes s.handler ∷ []) all
      (arrived-RequestSent lib ip method outcomes s.handler, tt)
step-AllSent lib (proceeds k) s all = resume-AllSent lib s k (get_elem? s.requests k) refl all
step-AllSent lib (probes c healthy) s all = all
step-AllSent lib collects s all =
    Holds-map _ (AllSent lib) (collected s s.handler.metrics_collector)
      (λ t (e, f, g). subst (All (RequestSent lib)) (sym g) all)
      (collected-Kept s s.handler.metrics_collector)

Reach-AllSent :
    (lib : Library) (h : LoadBalancerHandler) (store : Store) (s : Service)
    → Reach lib h store s
    → AllSent lib s
Reach-AllSent lib h store s at_start = tt
Reach-AllSent lib h store t (after {s = s} r e i) =
    Holds-some (AllSent lib) (step lib e s) (step-AllSent lib e s (Reach-AllSent lib h store s r)) i

-- However the requests under way, the health checks and the collector interleave, a request that has
-- returned has sent its client the calls that the reverse proxy made in exactly one of the attempts
-- that it was allowed, unchanged and in order, or nothing but the answer 503.
pub client_answered :
    (lib : Library) (h : LoadBalancerHandler) (store : Store) (s : Service) (k : ℕ) (r : Request)
    → Reach lib h store s
    → get_elem? s.requests k ≡ some r
    → r.task.phase ≡ returned
    → Answer lib r.outcomes (rounds r.max_attempts) r.client
client_answered lib h store s k r reached found done =
    let sent =
      All-In (RequestSent lib) s.requests (Reach-AllSent lib h store s reached)
        (get_elem?-In s.requests k found) in
    subst (λ p. Sent lib r.outcomes (rounds r.max_attempts) p r.task.left r.task.number r.client)
      done sent
