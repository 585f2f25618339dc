-- ===== src/Handler/Service/Flights.antt =====
-- A step of one goroutine of `ServeHTTP` (internal/handler/handler.go), on the count of a backend's
-- connections.
use go_loadbalancer.Prelude.{
  ℕ, zero, suc, ◌+◌, ◌-◌, ◌^◌, ◌≤◌, ◌<◌, ◌≡◌, refl, ap, ◌∙◌, inl, inr, arith, true, false, not,
  ◌&&◌, List, [], ◌∷◌, Option, none, some, String, Bool-cases,
}
use go_loadbalancer.Prelude.Int.{ℤ, pos}
use go_loadbalancer.Prelude.Map.{get, insert, nat_key, string_key}
use go_loadbalancer.Prelude.Slots.{Holds}
use go_loadbalancer.Backend.{Backend, Store, record_response}
use go_loadbalancer.Registry.{Registry}
use go_loadbalancer.Breaker.{allow}
use go_loadbalancer.Strategy.{Strategy, takes_key}
use go_loadbalancer.LoadBalancer.{Result, ok, err, pick, get_and_reserve_server_with_key}
use go_loadbalancer.LoadBalancer.Sections.{Booked, get_and_reserve_server_with_key-Booked}
use go_loadbalancer.Handler.Writer.{RetryableWriter}
use go_loadbalancer.Handler.State.{Library, Outcome, Exchange}
use go_loadbalancer.Handler.{unavailable}
use go_loadbalancer.Handler.Goroutine.{
  Phase, looking, choosing, reserving, asking, deciding, announcing, naming, counting, proxying,
  releasing, fetching, noting, completing, storing, failing, returned, Task, next_attempt, again,
  to, settled, after_pick, reserved_or_failed, after_asking, after_deciding, after_fetching,
  after_noting, advance_in,
}
use go_loadbalancer.Handler.Service.{Request, reservation}
use go_loadbalancer.Handler.Service.Counts.{
  same, count, active, increment-active, decrement-active, kept-active,
}

-- Whether a goroutine is between its own count of a connection on `q` and the release.
abbrev pub in_flight : ℕ → Phase → ℕ
in_flight q (proxying b url) = same q b
in_flight q (releasing b url w e) = same q b
in_flight q _ = 0

abbrev pub forwarding : ℕ → Request → ℕ
forwarding q r = in_flight q r.task.phase

-- One step of a goroutine, on the count `n` of a backend.
abbrev Linked : ℕ → Phase → ℕ → Store → Phase → Type 0
Linked q p n store later =
    (m : ℕ) × (active q store ≡ pos m)
    × (m + in_flight q p ≡ n + in_flight q later + count q (reservation later))

abbrev pub Connected : ℕ → Phase → ℕ → Exchange × Task → Type 0
Connected q p n a = Linked q p n a.0.store a.1.phase

-- Phases with no connection of their own, and no reservation made.
abbrev Idle : ℕ → Phase → Type 0
Idle q p = (in_flight q p ≡ 0) × (count q (reservation p) ≡ 0)

again-Idle : (q : ℕ) (bs : List ℕ) (k n : ℕ) → Idle q (next_attempt bs k n).phase
again-Idle q bs zero n = (refl, refl)
again-Idle q bs (suc k) n = (refl, refl)

settled-Idle :
    (q b : ℕ) (url : String) (w : RetryableWriter) (e : Option String) (x : Exchange) (t : Task)
    → Idle q (settled b url w e x t).phase
settled-Idle q b url w none x t = (refl, refl)
settled-Idle q b url w (some e) x t = elim (Bool-cases w.header_written) [
  | inl sent ↦ rw sent (refl, refl)
  | inr unsent ↦ rw unsent (again-Idle q x.handler.backends t.left (suc t.number))
]

module _ (q n : ℕ) (x : Exchange) (t : Task) (e : active q x.store ≡ pos n)
    (small : n + 1 < 2 ^ 63) where
  rests : (p later : Phase) → in_flight q p ≡ 0 → Idle q later → Linked q p n x.store later
  rests p later none_before (none_after, unreserved) =
      (n, e, omega (arith, none_before, none_after, unreserved))

  picked :
      (found : List ℕ) (s : Strategy × Option ℕ) → Connected q (choosing found) n (after_pick x t s)
  picked found (s, none) = (n, e, omega arith)
  picked found (s, some b) = (n, e, omega arith)

  booked :
      (found : List ℕ) (s : Strategy) (r : Result) (store : Store)
      → Booked x.store r store
      → Connected q (choosing found) n (
        record x { handler = record x.handler { balancer = s }; store = store },
        to (reserved_or_failed r) t,
      )
  booked found s (ok b) store stored =
      (n + same q b, ap (active q) stored ∙ increment-active q b n x.store e small, omega arith)
  booked found s (err f) store stored = (n, ap (active q) stored ∙ e, omega arith)

  asked :
      (b : ℕ) (url : String) (r : Option Registry)
      → Connected q (asking b) n (after_asking b url x t r)
  asked b url none = (n, e, omega arith)
  asked b url (some r) = (n, e, omega arith)

  decided :
      (lib : Library) (now b : ℕ) (url : String) (p : ℕ) (r : Option Registry)
      → Connected q (deciding b url p) n (after_deciding lib now b url p x t r)
  decided lib now b url p none = (n, e, omega arith)
  decided lib now b url p (some r) = elim (Bool-cases (allow lib.since now (r.heap p)).1) [
    | inl admits ↦ rw admits (n, e, omega arith)
    | inr refuses ↦ rw refuses (
        rests (deciding b url p) (again x t).phase refl
          (again-Idle q x.handler.backends t.left (suc t.number)))
  ]

  fetched :
      (b : ℕ) (url : String) (w : RetryableWriter) (c : Option String) (r : Option Registry)
      → Connected q (fetching b url w c) n (after_fetching b url w c x t r)
  fetched b url w c none =
      rests (fetching b url w c) (settled b url w c x t).phase refl (settled-Idle q b url w c x t)
  fetched b url w c (some r) = (n, e, omega arith)

  noted :
      (now b : ℕ) (url : String) (p : ℕ) (w : RetryableWriter) (c : Option String)
      (r : Option Registry)
      → Connected q (noting b url p w c) n (after_noting now b url p w c x t r)
  noted now b url p w none none = (n, e, omega arith)
  noted now b url p w (some c) none =
      rests (noting b url p w (some c)) (settled b url w (some c) x t).phase refl
        (settled-Idle q b url w (some c) x t)
  noted now b url p w none (some r) = (n, e, omega arith)
  noted now b url p w (some c) (some r) =
      rests (noting b url p w (some c)) (settled b url w (some c) x t).phase refl
        (settled-Idle q b url w (some c) x t)

response-active :
    (lib : Library) (d : ℤ) (c : Backend)
    → (record_response lib.float64 d c).active_connections ≡ c.active_connections
unfolding record_response
response-active lib d c = ground arith

pub advance_in-Connected :
    (q n : ℕ) (lib : Library) (ip : String) (o : Outcome) (p : Phase) (x : Exchange) (t : Task)
    → active q x.store ≡ pos n
    → n + 1 < 2 ^ 63
    → in_flight q p ≤ n
    → Holds (Connected q p n) (advance_in lib ip o p x t)
unfolding advance_in unavailable
advance_in-Connected q n lib ip o (looking [] []) x t e small own = (n, e, omega arith)
advance_in-Connected q n lib ip o (looking [] (c ∷ cs)) x t e small own = (n, e, omega arith)
advance_in-Connected q n lib ip o (looking (b ∷ bs) found) x t e small own =
    elim (Bool-cases (not (get false (x.store b).url x.tried) && (x.store b).is_healthy)) [
      | inl good ↦ rw good (n, e, omega arith)
      | inr bad ↦ rw bad (n, e, omega arith)
    ]
advance_in-Connected q n lib ip o (choosing found) x t e small own =
    elim (Bool-cases (takes_key x.handler.balancer)) [
      | inl keyed ↦
          let r = get_and_reserve_server_with_key o.draw found ip x.handler.balancer x.store in
          rw keyed (
            booked q n x t e small found r.strategy r.result r.store
              (get_and_reserve_server_with_key-Booked o.draw found ip x.handler.balancer x.store))
      | inr plain ↦
          rw plain (picked q n x t e small found (pick o.draw found x.handler.balancer x.store))
    ]
advance_in-Connected q n lib ip o (reserving b) x t e small own =
    (n + same q b, increment-active q b n x.store e small, omega arith)
advance_in-Connected q n lib ip o (asking b) x t e small own =
    asked q n (record x { tried = insert (x.store b).url true x.tried }) t e small b (x.store b).url
      x.handler.circuit_registry
advance_in-Connected q n lib ip o (deciding b url p) x t e small own =
    decided q n x t e small lib o.allow_at b url p x.handler.circuit_registry
advance_in-Connected q n lib ip o (announcing b url) x t e small own = (n, e, omega arith)
advance_in-Connected q n lib ip o (naming b url) x t e small own = (n, e, omega arith)
advance_in-Connected q n lib ip o (counting b url) x t e small own =
    (n + same q b, increment-active q b n x.store e small, omega arith)
advance_in-Connected q n lib ip o (proxying b url) x t e small own = (n, e, omega arith)
advance_in-Connected q n lib ip o (releasing b url w c) x t e small own =
    let rest : n - same q b + same q b ≡ n = omega (arith, own) in
    (n - same q b, decrement-active q b n (n - same q b) x.store e rest (omega arith), omega arith)
advance_in-Connected q n lib ip o (fetching b url w c) x t e small own =
    fetched q n x t e small b url w c x.handler.circuit_registry
advance_in-Connected q n lib ip o (noting b url p w c) x t e small own =
    noted q n x t e small o.finished_at b url p w c x.handler.circuit_registry
advance_in-Connected q n lib ip o (completing b url w) x t e small own = (n, e, omega arith)
advance_in-Connected q n lib ip o (storing b) x t e small own = (
  n,
  kept-active q b (record_response lib.float64 o.duration) x.store (response-active lib o.duration)
      ∙ e,
  omega arith,
)
advance_in-Connected q n lib ip o failing x t e small own = (n, e, omega arith)
advance_in-Connected q n lib ip o returned x t e small own = tt
