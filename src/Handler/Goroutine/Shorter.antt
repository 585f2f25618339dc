-- ===== src/Handler/Goroutine/Shorter.antt =====
-- What a step of a goroutine of `ServeHTTP` (internal/handler/handler.go) leaves to do.
use go_loadbalancer.Prelude.{
  ℕ, zero, suc, ◌+◌, ◌≤◌, ◌<◌, inl, inr, arith, true, false, not, ◌&&◌, List, [], ◌∷◌, Option, none,
  some, String, length, Bool-cases,
}
use go_loadbalancer.Prelude.Map.{get, insert, string_key}
use go_loadbalancer.Prelude.Slots.{Holds}
use go_loadbalancer.Breaker.{allow}
use go_loadbalancer.Registry.{Registry}
use go_loadbalancer.Strategy.{Strategy, takes_key}
use go_loadbalancer.LoadBalancer.{Result, ok, err, pick, get_and_reserve_server_with_key}
use go_loadbalancer.Handler.Writer.{RetryableWriter}
use go_loadbalancer.Handler.State.{Library, Outcome, Exchange}
use go_loadbalancer.Handler.Goroutine.{
  Phase, looking, choosing, reserving, asking, deciding, announcing, naming, counting, proxying,
  releasing, fetching, noting, completing, storing, failing, returned, Task, next_attempt, again,
  settled, after_pick, reserved_or_failed, after_asking, after_deciding, after_fetching,
  after_noting, advance_in,
}

-- The most steps that a phase has before it in its attempt, with the one after the loop.
abbrev pub phase_steps : Phase → ℕ
phase_steps (looking bs found) = length bs + 18
phase_steps (choosing found) = 17
phase_steps (reserving b) = 16
phase_steps (asking b) = 15
phase_steps (deciding b url p) = 14
phase_steps (announcing b url) = 13
phase_steps (naming b url) = 12
phase_steps (counting b url) = 11
phase_steps (proxying b url) = 10
phase_steps (releasing b url w e) = 9
phase_steps (fetching b url w e) = 8
phase_steps (noting b url p w e) = 7
phase_steps (completing b url w) = 6
phase_steps (storing b) = 5
phase_steps failing = 1
phase_steps returned = 0

-- The steps of the attempts that are left, over `backends` backends.
abbrev pub later_steps : ℕ → ℕ → ℕ
later_steps backends zero = 0
later_steps backends (suc k) = backends + 20 + later_steps backends k

abbrev pub steps : ℕ → Task → ℕ
steps backends t = phase_steps t.phase + later_steps backends t.left

again_shorter :
    (x : Exchange) (t : Task)
    → steps (length x.handler.backends) (again x t)
      ≤ later_steps (length x.handler.backends) t.left + 1
again_shorter x t = by_left t.left
  where
    by_left :
        (k : ℕ)
        → steps (length x.handler.backends) (next_attempt x.handler.backends k (suc t.number))
          ≤ later_steps (length x.handler.backends) k + 1
    by_left zero = omega arith
    by_left (suc k) = omega arith

settled_shorter :
    (b : ℕ) (url : String) (w : RetryableWriter) (e : Option String) (x : Exchange) (t : Task)
    → steps (length x.handler.backends) (settled b url w e x t)
      < 7 + later_steps (length x.handler.backends) t.left
settled_shorter b url w none x t = omega arith
settled_shorter b url w (some e) x t = elim (Bool-cases w.header_written) [
  | inl sent ↦ rw sent (omega arith)
  | inr unsent ↦ rw unsent (omega (arith, again_shorter x t))
]

-- A step is shorter than what stood before.
abbrev pub Shorter : Phase → Exchange → Task → Exchange × Task → Type 0
Shorter p x t a =
    steps (length x.handler.backends) a.1
    < phase_steps p + later_steps (length x.handler.backends) t.left

pick-Shorter :
    (found : List ℕ) (x : Exchange) (t : Task) (s : Strategy × Option ℕ)
    → Shorter (choosing found) x t (after_pick x t s)
pick-Shorter found x t (s, none) = omega arith
pick-Shorter found x t (s, some b) = omega arith

result_shorter : (r : Result) → phase_steps (reserved_or_failed r) < 17
result_shorter (ok b) = omega arith
result_shorter (err e) = omega arith

asking-Shorter :
    (b : ℕ) (url : String) (x : Exchange) (t : Task) (r : Option Registry)
    → Shorter (asking b) x t (after_asking b url x t r)
asking-Shorter b url x t none = omega arith
asking-Shorter b url x t (some r) = omega arith

deciding-Shorter :
    (lib : Library) (now b : ℕ) (url : String) (p : ℕ) (x : Exchange) (t : Task)
    (r : Option Registry)
    → Shorter (deciding b url p) x t (after_deciding lib now b url p x t r)
deciding-Shorter lib now b url p x t none = omega arith
deciding-Shorter lib now b url p x t (some r) =
    elim (Bool-cases (allow lib.since now (r.heap p)).1) [
      | inl admits ↦ rw admits (omega arith)
      | inr refuses ↦ rw refuses (omega (arith, again_shorter x t))
    ]

fetching-Shorter :
    (b : ℕ) (url : String) (w : RetryableWriter) (e : Option String) (x : Exchange) (t : Task)
    (r : Option Registry)
    → Shorter (fetching b url w e) x t (after_fetching b url w e x t r)
fetching-Shorter b url w e x t none = omega (arith, settled_shorter b url w e x t)
fetching-Shorter b url w e x t (some r) = omega arith

noting-Shorter :
    (now b : ℕ) (url : String) (p : ℕ) (w : RetryableWriter) (e : Option String) (x : Exchange)
    (t : Task) (r : Option Registry)
    → Shorter (noting b url p w e) x t (after_noting now b url p w e x t r)
noting-Shorter now b url p w none x t none = settled_shorter b url w none x t
noting-Shorter now b url p w (some e) x t none = settled_shorter b url w (some e) x t
noting-Shorter now b url p w none x t (some r) = settled_shorter b url w none x t
noting-Shorter now b url p w (some e) x t (some r) = settled_shorter b url w (some e) x t

pub advance_in-Shorter :
    (lib : Library) (ip : String) (o : Outcome) (p : Phase) (x : Exchange) (t : Task)
    → Holds (Shorter p x t) (advance_in lib ip o p x t)
unfolding advance_in
advance_in-Shorter lib ip o (looking [] []) x t = omega arith
advance_in-Shorter lib ip o (looking [] (c ∷ cs)) x t = omega arith
advance_in-Shorter lib ip o (looking (b ∷ bs) found) x t =
    elim (Bool-cases (not (get false (x.store b).url x.tried) && (x.store b).is_healthy)) [
      | inl good ↦ rw good (omega arith)
      | inr bad ↦ rw bad (omega arith)
    ]
advance_in-Shorter lib ip o (choosing found) x t =
    elim (Bool-cases (takes_key x.handler.balancer)) [
      | inl keyed ↦
          let r = get_and_reserve_server_with_key o.draw found ip x.handler.balancer x.store in
          rw keyed (omega (arith, result_shorter r.result))
      | inr plain ↦ rw plain (pick-Shorter found x t (pick o.draw found x.handler.balancer x.store))
    ]
advance_in-Shorter lib ip o (reserving b) x t = omega arith
advance_in-Shorter lib ip o (asking b) x t =
    asking-Shorter b (x.store b).url (record x { tried = insert (x.store b).url true x.tried }) t
      x.handler.circuit_registry
advance_in-Shorter lib ip o (deciding b url p) x t =
    deciding-Shorter lib o.allow_at b url p x t x.handler.circuit_registry
advance_in-Shorter lib ip o (announcing b url) x t = omega arith
advance_in-Shorter lib ip o (naming b url) x t = omega arith
advance_in-Shorter lib ip o (counting b url) x t = omega arith
advance_in-Shorter lib ip o (proxying b url) x t = omega arith
advance_in-Shorter lib ip o (releasing b url w e) x t = omega arith
advance_in-Shorter lib ip o (fetching b url w e) x t =
    fetching-Shorter b url w e x t x.handler.circuit_registry
advance_in-Shorter lib ip o (noting b url p w e) x t =
    noting-Shorter o.finished_at b url p w e x t x.handler.circuit_registry
advance_in-Shorter lib ip o (completing b url w) x t = omega arith
advance_in-Shorter lib ip o (storing b) x t = omega arith
advance_in-Shorter lib ip o failing x t = omega arith
advance_in-Shorter lib ip o returned x t = tt
