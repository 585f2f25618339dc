-- ===== src/Scripts/LoadTest.antt =====
-- scripts/loadtest.go: the sender of the jobs and the workers that send the requests. What the HTTP
-- client answers is an argument of each step.
pub mod Workers
pub mod Balance
pub mod Ends
pub mod Rows
pub mod Table
pub mod Summary
pub mod Report
mod Tests
use Prim.Native.String.{String}
use go_loadbalancer.Prelude.Slots.{set_elem}
use go_loadbalancer.Go.Itoa.{itoa}
use go_loadbalancer.Prelude.{
  ℕ, zero, suc, ◌≡◌, ◌+◌, ◌%◌, ◌^◌, Bool, true, false, not, ◌&&◌, ◌||◌, List, [], ◌∷◌, ◌++◌, Option,
  none, some, map, get_elem?, ltb, leb, if◌then◌else◌,
}
use go_loadbalancer.Prelude.Int.{ℤ, pos, negsuc, ltb_ℤ, leb_ℤ}
use go_loadbalancer.Prelude.Map.{Map, get, insert, ◌==◌, string_key, int_key}

pub record BackendStats : Type 0 where
  pub count : ℕ
  pub success : ℕ
  pub failure : ℕ
  pub latencies : List ℤ

-- What a worker keeps of an answer; it writes one row of it.
pub record Response : Type 0 where
  pub idx : ℕ
  pub backend : String
  pub status : ℤ
  pub duration : ℤ

-- `requests` is the number of turns of the sender's loop, 0 for a negative flag.
pub record Settings : Type 0 where
  pub requests : ℕ
  pub kill_port : ℤ
  pub kill_after : ℤ
  pub csv : Bool

-- The variables that the goroutines share; `next` is the sender's `i`, `closed` the channel's.
pub record Shared : Type 0 where
  pub next : ℕ
  pub closed : Bool
  pub backend_killed : Bool
  pub total : ℕ
  pub success : ℕ
  pub failure : ℕ
  pub all_latencies : List ℤ
  pub status_codes : Map ℤ ℕ
  pub backend_stats : Map String BackendStats
  pub rows : List Response

-- Where a worker is in its loop, by the shared variable that it changes next.
pub data Worker : Type 0 where
  waiting finished refused : Worker
  took ready sending : ℕ → Worker
  timed coded judged noted : Response → Worker

-- `http.NewRequest` fails, `client.Do` fails after a time, or there is an answer.
pub data Reply : Type 0 where
  bad_request : Reply
  no_answer : ℤ → Reply
  answer : String → ℤ → ℤ → Reply

-- `atomic.AddInt32` of 1, on the 32 bits of the counter.
abbrev pub add_one : ℕ → ℕ
add_one n = (n + 1) % 2 ^ 32

abbrev pub is_success : ℤ → Bool
is_success status = leb_ℤ (pos 200) status && leb_ℤ status (pos 299)

abbrev no_stats : BackendStats
no_stats = record { count = 0; success = 0; failure = 0; latencies = [] }

-- `bs.Count++` and what follows.
unfoldable pub note_response : Response → BackendStats → BackendStats
note_response r bs = record {
  count = add_one bs.count;
  success = if is_success r.status then add_one bs.success else bs.success;
  failure = if is_success r.status then bs.failure else add_one bs.failure;
  latencies = bs.latencies ++ (r.duration ∷ []);
}

abbrev name_of : String → String
name_of backend = if backend == "" then "(unknown)" else backend

replied : ℕ → Reply → Shared → Worker × Shared
replied idx bad_request s = (refused, s)
replied idx (no_answer d) s = (refused, record s { all_latencies = s.all_latencies ++ (d ∷ []) })
replied idx (answer backend status d) s = (
  timed (record { idx = idx; backend = name_of backend; status = status; duration = d }),
  record s { all_latencies = s.all_latencies ++ (d ∷ []) },
)

-- One step of a worker, none if it has to wait for the sender or has returned. The channel has no
-- buffer, so a worker takes a job at the moment when the sender sends it.
unfoldable pub advance : Settings → Reply → Worker → Shared → Option (Worker × Shared)
unfolding replied note_response
advance st reply waiting s =
    if ltb s.next st.requests
    then some (took s.next, record s { next = suc s.next })
    else if s.closed
    then some (finished, s)
    else none
advance st reply finished s = none
advance st reply refused s = some (waiting, record s { failure = add_one s.failure })
advance st reply (took idx) s = some (
  ready idx,
  record s {
    backend_killed = (ltb_ℤ (pos 0) st.kill_port && pos idx == st.kill_after) || s.backend_killed;
  },
)
advance st reply (ready idx) s = some (sending idx, record s { total = add_one s.total })
advance st reply (sending idx) s = some (replied idx reply s)
advance st reply (timed r) s = some (
  coded r,
  record s {
    status_codes = insert r.status (add_one (get 0 r.status s.status_codes)) s.status_codes;
  },
)
advance st reply (coded r) s = some (
  judged r,
  if is_success r.status
      then record s { success = add_one s.success }
      else record s { failure = add_one s.failure },
)
advance st reply (judged r) s = some (
  noted r,
  record s {
    backend_stats =
        insert r.backend (note_response r (get no_stats r.backend s.backend_stats)) s.backend_stats;
  },
)
advance st reply (noted r) s =
    some (waiting, if st.csv then record s { rows = s.rows ++ (r ∷ []) } else s)

pub record Pool : Type 0 where
  pub shared : Shared
  pub workers : List Worker

-- Worker number `k` makes a step, or the sender closes the channel after its loop.
pub data Move : Type 0 where
  work : ℕ → Reply → Move
  close_jobs : Move

abbrev pub put : ℕ → List Worker → Option (Worker × Shared) → Option Pool
put k ws none = none
put k ws (some (w, s)) = some (record { shared = s; workers = set_elem ws k w })

abbrev pub turn : Settings → ℕ → Reply → Pool → Option Worker → Option Pool
turn st k reply p none = none
turn st k reply p (some w) = put k p.workers (advance st reply w p.shared)

unfoldable pub step : Settings → Move → Pool → Option Pool
step st (work k reply) p = turn st k reply p (get_elem? p.workers k)
step st close_jobs p =
    if leb st.requests p.shared.next && not p.shared.closed
    then some (record p { shared = record p.shared { closed = true } })
    else none

abbrev empty_shared : Shared
empty_shared = record {
  next = 0;
  closed = false;
  backend_killed = false;
  total = 0;
  success = 0;
  failure = 0;
  all_latencies = [];
  status_codes = [];
  backend_stats = [];
  rows = [];
}

abbrev pub waiting_workers : ℕ → List Worker
waiting_workers zero = []
waiting_workers (suc c) = waiting ∷ waiting_workers c

-- Before the first step, with `concurrency` workers.
abbrev pub start : ℕ → Pool
start concurrency = record { shared = empty_shared; workers = waiting_workers concurrency }

-- The pools that some interleaving reaches in a number of steps.
pub data Reach (st : Settings) (concurrency : ℕ) : ℕ → Pool → Type 0 where
  at_start : Reach st concurrency 0 (start concurrency)
  after :
      {n : ℕ} {p q : Pool}
      → Reach st concurrency n p
      → (m : Move) → step st m p ≡ some q
      → Reach st concurrency (suc n) q

abbrev pub print_int : ℤ → String
print_int (pos n) = itoa n
print_int (negsuc n) = String.◌∷◌ "-" (itoa (suc n))

-- A row of the table; the time of writing and the milliseconds are printed by the arguments.
unfoldable pub written : (Response → String) → (Response → String) → Response → List String
written time duration r = itoa r.idx ∷ time r ∷ r.backend ∷ print_int r.status ∷ duration r ∷ []

abbrev pub header : List String
header = "idx" ∷ "timestamp" ∷ "backend" ∷ "status" ∷ "duration_ms" ∷ []

abbrev pub all_returned : List Worker → Bool
all_returned [] = true
all_returned (finished ∷ ws) = all_returned ws
all_returned (w ∷ ws) = false

-- The whole table in the file, as package encoding/csv reads it back. The writer holds rows in a buffer
-- until it is flushed, which is after all workers have returned. Before that the file may be cut
-- anywhere, and none stands for this; so it does where no table is asked for.
unfoldable pub table :
    Settings → (Response → String) → (Response → String) → Pool → Option (List (List String))
unfolding written
table st time duration p =
    if st.csv && all_returned p.workers
    then some (header ∷ map (written time duration) p.shared.rows)
    else none
