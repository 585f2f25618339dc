-- ===== src/Program/Assembly.antt =====
-- What `main` of cmd/main.go puts together once the backends are started.
use go_loadbalancer.Prelude.{
  ℕ, ◌<◌, ◌≡◌, refl, ◌↔◌, inl, inr, arith, Bool, true, List, Option, none, some, String, In, length,
  get_elem?,
}
use go_loadbalancer.Prelude.Int.{ℤ, pos}
use go_loadbalancer.Backend.{Backend}
use go_loadbalancer.Backend
use go_loadbalancer.Strategy.{Strategy, create_strategy}
use go_loadbalancer.Strategy
use go_loadbalancer.Registry.{Registry}
use go_loadbalancer.Config.{Config, BackendConfig, Parsers, strategies}
use go_loadbalancer.Config.Rules.{Ozzo}
use go_loadbalancer.Config.Checks.{Listens, HostOk}
use go_loadbalancer.Config.Accepted.{Accepted}
use go_loadbalancer.HttpServer.Accepts.{validate_host-none, new-created}
use go_loadbalancer.Handler.State.{new_load_balancer_handler}
use go_loadbalancer.Collector
use go_loadbalancer.Startup.{collect}
use go_loadbalancer.Program.{
  App, exits, runs, bad_reset_timeout, assemble, registry_of, address_of, store_of, pointers_from,
  serve, setup_router,
}
use go_loadbalancer.Program.Pointers.{MadeFrom, collect-at, pointers_from-In}

-- The strategy of each name.
pub data Named (type : String) (nodes : ℤ) (s : Strategy) : Type 0 where
  round_robin :
      type ≡ "round-robin" → s ≡ Strategy.round_robin Strategy.RoundRobin.new → Named type nodes s
  least_conn : type ≡ "least-conn" → s ≡ Strategy.least_conn → Named type nodes s
  least_response : type ≡ "least-response" → s ≡ Strategy.least_response → Named type nodes s
  random : type ≡ "random" → s ≡ Strategy.random → Named type nodes s
  consistent_hash :
      type ≡ "consistent_hash"
      → s ≡ Strategy.consistent_hash (Strategy.ConsistentHash.new nodes)
      → Named type nodes s
  weighted :
      type ≡ "weighted-round-robin"
      → s ≡ Strategy.weighted Strategy.Weighted.new
      → Named type nodes s

create_strategy-Named :
    (type : String) (nodes : ℤ) → In type strategies → Named type nodes (create_strategy type nodes)
unfolding create_strategy
create_strategy-Named type nodes (inl e) = round_robin e (rw e refl)
create_strategy-Named type nodes (inr (inl e)) = least_conn e (rw e refl)
create_strategy-Named type nodes (inr (inr (inl e))) = least_response e (rw e refl)
create_strategy-Named type nodes (inr (inr (inr (inl e)))) = random e (rw e refl)
create_strategy-Named type nodes (inr (inr (inr (inr (inl e))))) = consistent_hash e (rw e refl)
create_strategy-Named type nodes (inr (inr (inr (inr (inr (inl e)))))) = weighted e (rw e refl)
create_strategy-Named type nodes (inr (inr (inr (inr (inr (inr i)))))) = elim i [ ]

-- The program as the configuration describes it: every entry has its backend at its place, the
-- strategy is the one that is named, the breakers are as configured, and the server has the address.
pub record Assembled (p : Parsers) (c : Config) (a : App) : Type 0 where
  pub backend_at :
      (i : ℕ) (b : BackendConfig) → get_elem? c.backends i ≡ some b → MadeFrom p b (a.store i)
  pub listed : (i : ℕ) → In i a.handler.backends ↔ (i < length c.backends)
  pub strategy_named : Named c.strategy.type c.strategy.virtual_nodes a.handler.balancer
  pub breakers : registry_of p c.circuit_breaker ≡ some a.handler.circuit_registry
  pub retries : a.handler.max_retries ≡ c.retry.max_retries
  pub address : a.server.addr ≡ c.server.address
  pub interval : p.parse_duration c.health_check.interval ≡ some a.check_interval

Listens-agree :
    (Ok Fine : String → Type 0) (addr : String)
    → ((h : String) → Ok h → Fine h)
    → Listens Ok addr
    → Listens Fine addr
Listens-agree Ok Fine addr agrees (host, port, found, some_port, inl e) =
    (host, port, found, some_port, inl e)
Listens-agree Ok Fine addr agrees (host, port, found, some_port, inr fine) =
    (host, port, found, some_port, inr (agrees host fine))

pub assemble-none :
    (is_host : String → Bool) (now : ℕ) (c : Config) (t : ℤ) (bs : List Backend)
    → assemble is_host now c t bs none ≡ exits bad_reset_timeout
unfolding assemble
assemble-none is_host now c t bs = refl

pub assemble-Assembled :
    (o : Ozzo) (p : Parsers) (is_host : String → Bool) (now : ℕ) (c : Config) (t : ℤ)
    (registry : Option Registry)
    → ((h : String) → o.host h ≡ none → is_host h ≡ true)
    → Accepted (HostOk o) p c
    → registry_of p c.circuit_breaker ≡ some registry
    → p.parse_duration c.health_check.interval ≡ some t
    → (a : App) × (assemble is_host now c t (collect (address_of p) c.backends) (some registry)
        ≡ runs a)
      × Assembled p c a
unfolding assemble serve new_load_balancer_handler
assemble-Assembled o p is_host now c t registry agrees accepted breakers interval =
    let bs = collect (address_of p) c.backends in
    let (len, at) = collect-at p c.backends (Backend.new "" (pos 0)) accepted.all_usable in
    let listens = Listens-agree (HostOk o) _ c.server.address agrees accepted.listens in
    let (server, made, addr, _) =
      new-created is_host c.server.address (setup_router c.strategy.type)
        ((validate_host-none is_host c.server.address).1 listens) in
    (
      record {
        handler =
            new_load_balancer_handler (create_strategy c.strategy.type c.strategy.virtual_nodes)
              (pointers_from 0 bs) (some (Collector.new 1000 now)) registry c.retry.max_retries;
        store = store_of bs;
        server = server;
        check_interval = t;
      },
      rw made refl,
      record {
        backend_at = at;
        listed = λ i.
            let (there, back) = pointers_from-In bs 0 i in
            (
              (λ h. let (_, hi) = there h in omega (arith, hi, len)),
              (λ h. back (omega arith, omega (arith, h, len))),
            );
        strategy_named =
            create_strategy-Named c.strategy.type c.strategy.virtual_nodes accepted.strategy_known;
        breakers = breakers;
        retries = refl;
        address = addr;
        interval = interval;
      },
    )
