-- ===== src/Handler/Client.antt =====
-- What the client receives from `ServeHTTP` (internal/handler/handler.go), attempt by attempt.
use go_loadbalancer.Prelude.{
  ℕ, zero, suc, ◌≤◌, ◌<◌, ◌+◌, ◌≡◌, refl, ap, ◌∙◌, ◌⊎◌, inl, inr, Bool, true, false, [], ◌++◌,
  Option, none, some, String, arith, Bool-cases,
}
use mathlib.Core.List.{append-nil}
use go_loadbalancer.Prelude.Map.{insert, string_key}
use go_loadbalancer.Backend.{Store}
use go_loadbalancer.Handler.Writer.{wrap_writer, write_all, write_all-client, unwritten-nil}
use go_loadbalancer.Handler.State.{LoadBalancerHandler, Library, Outcome, Exchange}
use go_loadbalancer.Handler.Select.{Selected, chosen, failed, select_backend}
use go_loadbalancer.Handler.{
  Verdict, returns, retries, breaks, captured, finish, forward, proceed, selected, attempt,
  max_attempts, rounds, unavailable, attempts, begin, serve_http,
}
use go_loadbalancer.Handler.Effects.{allowed}

-- If the handler returns, the client got the calls of this attempt; if it goes on, nothing.
abbrev Sent : Outcome → Exchange → Exchange × Verdict → Type 0
Sent o x (y, returns) = y.client ≡ x.client ++ o.calls
Sent o x (y, retries) = y.client ≡ x.client
Sent o x (y, breaks) = y.client ≡ x.client

finish-Sent :
    (lib : Library) (o : Outcome) (b : ℕ) (url : String) (e : Option String) (x y : Exchange)
    → y.client ≡ (write_all o.calls (wrap_writer x.client)).client
    → Sent o x (finish lib o b url (write_all o.calls (wrap_writer x.client)) e y)
unfolding finish wrap_writer
finish-Sent lib o b url none x y h = h ∙ write_all-client o.calls (wrap_writer x.client)
finish-Sent lib o b url (some e) x y h =
    elim (Bool-cases (write_all o.calls (wrap_writer x.client)).header_written) [
      | inl written ↦ rw written (h ∙ write_all-client o.calls (wrap_writer x.client))
      | inr unwritten ↦ rw unwritten (
          h
          ∙ write_all-client o.calls (wrap_writer x.client)
          ∙ ap (λ cs. x.client ++ cs) (unwritten-nil o.calls x.client unwritten)
          ∙ append-nil x.client)
    ]

attempt-Sent :
    (lib : Library) (client_ip : String) (o : Outcome) (x : Exchange)
    → Sent o x (attempt lib client_ip o x)
unfolding attempt proceed forward selected
attempt-Sent lib client_ip o x =
    chosen-Sent
      (record x {
        handler = record x.handler { balancer = (select_backend o.draw client_ip x).strategy };
        store = (select_backend o.draw client_ip x).store;
      })
      refl (select_backend o.draw client_ip x).selected
  where
    proceed-Sent :
        (b : ℕ) (url : String) (y : Exchange)
        → y.client ≡ x.client
        → (a : LoadBalancerHandler × Bool) → Sent o x (proceed lib o b url y a)
    proceed-Sent b url y e (h, false) = e
    proceed-Sent b url y e (h, true) = rw (e) (finish-Sent lib o b url (captured o.error) x _ refl)

    chosen-Sent :
        (y : Exchange) → y.client ≡ x.client → (s : Selected) → Sent o x (selected lib o y s)
    chosen-Sent y e (failed cause) = e
    chosen-Sent y e (chosen b) =
        proceed-Sent b (y.store b).url (record y { tried = insert (y.store b).url true y.tried }) e
          (allowed lib o.allow_at (y.store b).url y.handler)

-- What a client may receive from attempt `n` on: the calls of exactly one of the attempts left, or
-- the answer 503 alone.
abbrev Answered : Library → (ℕ → Outcome) → ℕ → ℕ → Exchange → Type 0
Answered lib outcomes k n y =
    ((i : ℕ) × (n ≤ i) × (i < n + k) × (y.client ≡ (outcomes i).calls))
    ⊎ (y.client ≡ lib.http_error "Service unavailable" 503)

unavailable-client :
    (lib : Library) (y : Exchange)
    → y.client ≡ []
    → (unavailable lib y).client ≡ lib.http_error "Service unavailable" 503
unfolding unavailable
unavailable-client lib y e = rw e refl

later :
    (lib : Library) (outcomes : ℕ → Outcome) (k n : ℕ) (y : Exchange)
    → Answered lib outcomes k (suc n) y
    → Answered lib outcomes (suc k) n y
later lib outcomes k n y (inl (i, low, high, e)) = inl (i, omega arith, omega arith, e)
later lib outcomes k n y (inr e) = inr e

attempts-Answered :
    (lib : Library) (client_ip : String) (outcomes : ℕ → Outcome) (k n : ℕ) (x : Exchange)
    → x.client ≡ []
    → Answered lib outcomes k n (attempts lib client_ip outcomes k n x)
unfolding attempts
attempts-Answered lib client_ip outcomes zero n x e = inr (unavailable-client lib x e)
attempts-Answered lib client_ip outcomes (suc k) n x e =
    by_verdict (attempt lib client_ip (outcomes n) x) (attempt-Sent lib client_ip (outcomes n) x)
      (λ y h. attempts-Answered lib client_ip outcomes k (suc n) y h)
  where
    by_verdict :
        (t : Exchange × Verdict)
        → Sent (outcomes n) x t
        → ((y : Exchange)
            → y.client ≡ []
            → Answered lib outcomes k (suc n) (attempts lib client_ip outcomes k (suc n) y))
        → Answered lib outcomes (suc k) n (elim t.1 [
          | returns ↦ t.0
          | retries ↦ attempts lib client_ip outcomes k (suc n) t.0
          | breaks ↦ unavailable lib t.0
        ])
    by_verdict (y, returns) sent rest =
        inl (n, omega arith, omega arith, sent ∙ ap (λ c. c ++ (outcomes n).calls) e)
    by_verdict (y, retries) sent rest =
        later lib outcomes k n (attempts lib client_ip outcomes k (suc n) y) (rest y (sent ∙ e))
    by_verdict (y, breaks) sent rest = inr (unavailable-client lib y (sent ∙ e))

-- The client of `ServeHTTP` receives either the calls that the reverse proxy made in exactly one of
-- the attempts, unchanged and in order, or nothing but the answer 503: a failed attempt leaves no
-- trace in the response of the next.
pub serve_http-client :
    (lib : Library) (client_ip method : String) (outcomes : ℕ → Outcome) (h : LoadBalancerHandler)
    (store : Store)
    → ((i : ℕ) × (1 ≤ i)
        × (i ≤ rounds (max_attempts method h.max_retries))
        × ((serve_http lib client_ip method outcomes h store).client ≡ (outcomes i).calls))
      ⊎ ((serve_http lib client_ip method outcomes h store).client
          ≡ lib.http_error "Service unavailable" 503)
unfolding serve_http
serve_http-client lib client_ip method outcomes h store =
    elim (attempts-Answered lib client_ip outcomes (rounds (max_attempts method h.max_retries)) 1
      (begin h store) refl) [ inl (i, low, high, e) ↦ inl (i, low, omega arith, e) | inr e ↦ inr e ]
