-- ===== src/Handler/Connections.antt =====
-- The count of active connections over one attempt of `ServeHTTP` (internal/handler/handler.go): the
-- balancer counts a connection when it reserves the backend, and the handler counts another around
-- the call of the reverse proxy.
use go_loadbalancer.Prelude.{
  ℕ, suc, ◌+◌, ◌-◌, ◌^◌, ◌<◌, ◌≡◌, refl, ap, ◌∙◌, Bool, true, false, List, [], ◌∷◌, Option, none,
  some, String, arith, Bool-cases, inl, inr,
}
use go_loadbalancer.Prelude.Int.{ℤ, pos, add64, add64_pos, ◌≤ℤ◌, ◌<ℤ◌, int_laws, pos_part, neg_part}
use go_loadbalancer.Prelude.Map.{beq_refl, string_key, nat_key}
use go_loadbalancer.Backend.{
  Backend, Store, modify, increment_conn, decrement_conn, record_response,
}
use go_loadbalancer.Backend.Laws.{decrement_conn-increment_conn}
use go_loadbalancer.Strategy.{Strategy, takes_key}
use go_loadbalancer.LoadBalancer.{Result, ok, err}
use go_loadbalancer.LoadBalancer.Reserve.{get_and_reserve_server-ok}
use go_loadbalancer.Handler.Writer.{RetryableWriter, wrap_writer, write_all}
use go_loadbalancer.Handler.State.{LoadBalancerHandler, Library, Outcome, Exchange}
use go_loadbalancer.Handler.Select.{from_result, chosen, select_from, select_backend}
use go_loadbalancer.Handler.{captured, finish, forward, proceed, selected, attempt}

modify-at : (b : ℕ) (f : Backend → Backend) (s : Store) → modify b f s b ≡ f (s b)
unfolding modify
modify-at b f s = rw (beq_refl b) refl

response-active :
    (lib : Library) (d : ℤ) (c : Backend)
    → (record_response lib.float64 d c).active_connections ≡ c.active_connections
unfolding record_response
response-active lib d c = ground arith

increment-active :
    (c : Backend) (n : ℕ)
    → c.active_connections ≡ pos n
    → suc n < 2 ^ 63
    → (increment_conn c).active_connections ≡ pos (suc n)
unfolding increment_conn
increment-active c n e h =
    ap (λ a. add64 a (pos 1)) e ∙ add64_pos n 1 (omega (arith, h)) ∙ ap pos (omega arith)

finish-active :
    (lib : Library) (o : Outcome) (b : ℕ) (url : String) (w : RetryableWriter) (e : Option String)
    (x : Exchange)
    → ((finish lib o b url w e x).0.store b).active_connections ≡ (x.store b).active_connections
unfolding finish
finish-active lib o b url w none x =
    rw (modify-at b (record_response lib.float64 o.duration) x.store)
      (response-active lib o.duration (x.store b))
finish-active lib o b url w (some e) x = refl

-- Around the reverse proxy the count goes up and down again.
proceed-active :
    (lib : Library) (o : Outcome) (b : ℕ) (url : String) (x : Exchange)
    (a : LoadBalancerHandler × Bool)
    → pos 0 ≤ℤ (x.store b).active_connections
    → (x.store b).active_connections <ℤ pos (2 ^ 63 - 1)
    → ((proceed lib o b url x a).0.store b).active_connections ≡ (x.store b).active_connections
unfolding proceed forward
proceed-active lib o b url x (h, false) lo hi = refl
proceed-active lib o b url x (h, true) lo hi =
    finish-active lib o b url (write_all o.calls (wrap_writer x.client)) (captured o.error) _
    ∙ ap (λ c. c.active_connections)
        (modify-at b decrement_conn (modify b increment_conn x.store)
          ∙ ap decrement_conn (modify-at b increment_conn x.store)
          ∙ decrement_conn-increment_conn (x.store b) lo hi)

select_from-store :
    (draw : ℕ) (ip : String) (store : Store) (strategy : Strategy) (bs : List ℕ) (b : ℕ)
    → (select_from draw ip store strategy bs).selected ≡ chosen b
    → (select_from draw ip store strategy bs).store ≡ modify b increment_conn store
unfolding select_from
select_from-store draw ip store strategy [] b = λ e. cc
select_from-store draw ip store strategy (c ∷ cs) b = elim (Bool-cases (takes_key strategy)) [
  | inl keyed ↦
      rw keyed (λ e. (get_and_reserve_server-ok draw (c ∷ cs) ip strategy store b).1 (from_ok _ e))
  | inr plain ↦
      rw plain (λ e. (get_and_reserve_server-ok draw (c ∷ cs) ip strategy store b).0 (from_ok _ e))
]
  where
    from_ok : (r : Result) → from_result r ≡ chosen b → r ≡ ok b
    from_ok (ok d) e = cc
    from_ok (err d) e = cc

-- An attempt in which a backend is chosen leaves one connection more on its count, whether the
-- circuit breaker refuses the backend, the proxy fails, or the response is complete: the reservation
-- is never released. The count before is `n`, and two more fit the machine's integer.
pub attempt-leaves_connection :
    (lib : Library) (ip : String) (o : Outcome) (x : Exchange) (b n : ℕ)
    → (select_backend o.draw ip x).selected ≡ chosen b
    → (x.store b).active_connections ≡ pos n
    → n + 2 < 2 ^ 63
    → ((attempt lib ip o x).0.store b).active_connections ≡ pos (suc n)
unfolding attempt select_backend selected
attempt-leaves_connection lib ip o x b n e count small =
    let reserved : ((select_backend o.draw ip x).store b).active_connections ≡ pos (suc n) =
      ap (λ s. (s b).active_connections)
        (select_from-store o.draw ip x.store x.handler.balancer _ b e)
      ∙ ap (λ c. c.active_connections) (modify-at b increment_conn x.store)
      ∙ increment-active (x.store b) n count (omega arith) in
    rw e (
      proceed-active lib o b _ _ _ (omega (int_laws, ap pos_part reserved, ap neg_part reserved))
        (omega (int_laws, ap pos_part reserved, ap neg_part reserved))
      ∙ reserved)
