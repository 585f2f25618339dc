-- ===== src/Backend/Laws.antt =====
-- Connection counting, health flags and response averages of internal/backend/proxy.go.
use go_loadbalancer.Prelude.{
  ℕ, suc, ◌-◌, ◌≤◌, ◌∙◌, ◌+◌, ◌<◌, ◌^◌, ◌≡◌, refl, ◌↔◌, ◌≢◌, Bool, true, false, arith, List, [],
  ◌∷◌, String,
}
use go_loadbalancer.Prelude.Int.{ℤ, pos, ◌≤ℤ◌, ◌<ℤ◌, pos_part}
use go_loadbalancer.Backend.{
  Backend, Float64, new, increment_conn, decrement_conn, set_healthy, blend, record_response,
  ewma_time,
}

-- Below the largest `int`, a decrement undoes an increment of a count that is not negative.
pub decrement_conn-increment_conn :
    (b : Backend)
    → pos 0 ≤ℤ b.active_connections
    → b.active_connections <ℤ pos (2 ^ 63 - 1)
    → decrement_conn (increment_conn b) ≡ b
unfolding decrement_conn increment_conn
decrement_conn-increment_conn b lo hi = ground arith

-- The flag becomes the argument, `changed` is true exactly when the flag was different, and nothing
-- else of the backend changes.
pub set_healthy_lem :
    (healthy : Bool) (b : Backend)
    → ((set_healthy healthy b).0 ≡ record b { is_healthy = healthy })
      × (((set_healthy healthy b).1 ≡ true) ↔ (b.is_healthy ≢ healthy))
unfolding set_healthy
set_healthy_lem true b = grind arith
set_healthy_lem false b = grind arith

-- The calls that change a backend.
pub data Call : Type 0 where
  increments decrements : Call
  sets_health : Bool → Call
  records : ℤ → Call

apply : Float64 → Call → Backend → Backend
apply f increments b = increment_conn b
apply f decrements b = decrement_conn b
apply f (sets_health healthy) b = (set_healthy healthy b).0
apply f (records duration) b = record_response f duration b

unfoldable pub apply_all : Float64 → List Call → Backend → Backend
unfolding apply
apply_all f [] b = b
apply_all f (c ∷ cs) b = apply_all f cs (apply f c b)

-- The number of `IncrementConn` calls among the calls.
abbrev pub increments_of : List Call → ℕ
increments_of [] = 0
increments_of (increments ∷ cs) = suc (increments_of cs)
increments_of (decrements ∷ cs) = increments_of cs
increments_of (sets_health _ ∷ cs) = increments_of cs
increments_of (records _ ∷ cs) = increments_of cs

increments_of-cons :
    (c : Call) (cs : List Call) → increments_of (c ∷ cs) ≡ increments_of (c ∷ []) + increments_of cs
increments_of-cons increments cs = omega arith
increments_of-cons decrements cs = omega arith
increments_of-cons (sets_health x) cs = omega arith
increments_of-cons (records d) cs = omega arith

apply-active :
    (f : Float64) (c : Call) (b : Backend)
    → pos 0 ≤ℤ b.active_connections
    → pos_part b.active_connections + increments_of (c ∷ []) < 2 ^ 63
    → (pos 0 ≤ℤ (apply f c b).active_connections)
      × (pos_part (apply f c b).active_connections
          ≤ pos_part b.active_connections + increments_of (c ∷ []))
unfolding apply increment_conn decrement_conn set_healthy record_response
apply-active f increments b lo hi = ground arith
apply-active f decrements b lo hi = ground arith
apply-active f (sets_health h) b lo hi = ground arith
apply-active f (records d) b lo hi = ground arith

apply_all-active :
    (f : Float64) (cs : List Call) (b : Backend)
    → pos 0 ≤ℤ b.active_connections
    → pos_part b.active_connections + increments_of cs < 2 ^ 63
    → (pos 0 ≤ℤ (apply_all f cs b).active_connections)
      × (pos_part (apply_all f cs b).active_connections
          ≤ pos_part b.active_connections + increments_of cs)
unfolding apply_all
apply_all-active f [] b lo hi = omega arith
apply_all-active f (c ∷ cs) b lo hi =
    let (lo', up) = apply-active f c b lo (omega (arith, increments_of-cons c cs)) in
    omega (
      arith,
      increments_of-cons c cs,
      apply_all-active f cs (apply f c b) lo' (omega (arith, increments_of-cons c cs)),
    )

-- The durations that the calls record, oldest first.
abbrev pub responses : List Call → List ℤ
responses [] = []
responses (increments ∷ cs) = responses cs
responses (decrements ∷ cs) = responses cs
responses (sets_health _ ∷ cs) = responses cs
responses (records d ∷ cs) = d ∷ responses cs

-- Eight tenths of the average so far and two tenths of the latest sample.
abbrev pub eight_to_two : Float64 → ℤ → ℤ → ℤ
eight_to_two f average d =
    let eight = f.mul (f.constant 8) (f.of_int average) in
    let two = f.mul (f.constant 2) (f.of_int d) in f.to_int (f.add eight two)

-- The average of the samples seen so far: the first one as it is, each later one mixed in.
abbrev pub mixed : Float64 → ℤ → List ℤ → ℤ
mixed f average [] = average
mixed f average (d ∷ ds) = mixed f (eight_to_two f average d) ds

abbrev pub moving_average : Float64 → List ℤ → ℤ
moving_average f [] = pos 0
moving_average f (d ∷ ds) = mixed f d ds

-- The fields that the average reads.
SameAverage : Backend → Backend → Type 0
SameAverage b c = (b.has_ewma ≡ c.has_ewma) × (b.ewma_response_time ≡ c.ewma_response_time)

decrement_conn-average : (b : Backend) → SameAverage (decrement_conn b) b
unfolding SameAverage decrement_conn
decrement_conn-average b = ground arith

set_healthy-average : (h : Bool) (b : Backend) → SameAverage (set_healthy h b).0 b
unfolding SameAverage set_healthy
set_healthy-average h b = ground arith

apply_all-sampled :
    (f : Float64) (cs : List Call) (b : Backend)
    → b.has_ewma ≡ true
    → ewma_time (apply_all f cs b) ≡ mixed f b.ewma_response_time (responses cs)
unfolding apply_all increment_conn record_response blend ewma_time SameAverage
apply_all-sampled f [] b h = ground arith
apply_all-sampled f (increments ∷ cs) b h = apply_all-sampled f cs (increment_conn b) h
apply_all-sampled f (decrements ∷ cs) b h =
    let (had, same) = decrement_conn-average b in
    ground (arith, apply_all-sampled f cs (decrement_conn b) (had ∙ h), had, same)
apply_all-sampled f (sets_health x ∷ cs) b h =
    let (had, same) = set_healthy-average x b in
    ground (arith, apply_all-sampled f cs (set_healthy x b).0 (had ∙ h), had, same)
apply_all-sampled f (records d ∷ cs) b h =
    ground (arith, apply_all-sampled f cs (record_response f d b))

apply_all-unsampled :
    (f : Float64) (cs : List Call) (b : Backend)
    → b.has_ewma ≡ false
    → ewma_time (apply_all f cs b) ≡ moving_average f (responses cs)
unfolding apply_all increment_conn record_response blend ewma_time SameAverage
apply_all-unsampled f [] b h = ground arith
apply_all-unsampled f (increments ∷ cs) b h = apply_all-unsampled f cs (increment_conn b) h
apply_all-unsampled f (decrements ∷ cs) b h =
    apply_all-unsampled f cs (decrement_conn b) ((decrement_conn-average b).0 ∙ h)
apply_all-unsampled f (sets_health x ∷ cs) b h =
    apply_all-unsampled f cs (set_healthy x b).0 ((set_healthy-average x b).0 ∙ h)
apply_all-unsampled f (records d ∷ cs) b h =
    ground (arith, apply_all-sampled f cs (record_response f d b))

-- From a new backend on, whatever other calls stand between, `EWMATime` is 0 until the first
-- response, then that response's duration, and from there on, for each later response, eight tenths of
-- the average and two tenths of the duration, added as floats and converted back.
pub ewma_time-moving_average :
    (f : Float64) (url : String) (weight : ℤ) (cs : List Call)
    → ewma_time (apply_all f cs (new url weight)) ≡ moving_average f (responses cs)
unfolding new
ewma_time-moving_average f url weight cs = apply_all-unsampled f cs (new url weight) refl

-- From a new backend on, through fewer than 2^63 increments and any other calls, the count of
-- active connections is never negative and never above the number of increments.
pub active_connections_bounded :
    (f : Float64) (url : String) (weight : ℤ) (cs : List Call)
    → increments_of cs < 2 ^ 63
    → let b = apply_all f cs (new url weight) in
      (pos 0 ≤ℤ b.active_connections) × (b.active_connections ≤ℤ pos (increments_of cs))
unfolding new
active_connections_bounded f url weight cs h =
    let (lo, hi) = apply_all-active f cs (new url weight) (omega arith) (omega arith) in omega arith

-- What IEEE 754 arithmetic with a fixed rounding gives: each operation is monotone.
pub record IsMonotone (f : Float64) : Type 1 where
  pub le : f.F → f.F → Type 0
  pub of_int_mono : (x y : ℤ) → x ≤ℤ y → le (f.of_int x) (f.of_int y)
  pub to_int_mono : (x y : f.F) → le x y → f.to_int x ≤ℤ f.to_int y
  pub add_mono : (x y z w : f.F) → le x y → le z w → le (f.add x z) (f.add y w)
  pub keep_mono : (x y : f.F) → le x y → le (f.mul (f.constant 8) x) (f.mul (f.constant 8) y)
  pub alpha_mono : (x y : f.F) → le x y → le (f.mul (f.constant 2) x) (f.mul (f.constant 2) y)

-- With monotone floats, of two sampled backends the one with the larger average that gets the
-- slower response has the larger average afterwards.
pub record_response_mono :
    (f : Float64)
    → IsMonotone f
    → (b c : Backend) (d e : ℤ) → b.has_ewma ≡ true
    → c.has_ewma ≡ true
    → ewma_time b ≤ℤ ewma_time c
    → d ≤ℤ e
    → ewma_time (record_response f d b) ≤ℤ ewma_time (record_response f e c)
unfolding record_response ewma_time blend
record_response_mono f m b c d e hb hc old latest =
    rw (hb, hc)
      (m.to_int_mono _ _ (
        m.add_mono _ _ _ _ (m.keep_mono _ _ (m.of_int_mono _ _ (rw (hb, hc) at old)))
          (m.alpha_mono _ _ (m.of_int_mono _ _ latest))))
