-- ===== src/Backend.antt =====
-- internal/backend/proxy.go: a backend server, and the store of the backends that pointers reach.
-- `int` and `time.Duration` are integers of 64 bits (Prelude/Int). The methods lock the backend's
-- mutex for their whole body, so each is one atomic step on its record.
pub mod Laws
mod Tests
use go_loadbalancer.Prelude.{
  ℕ, ◌-◌, Bool, true, false, not, Option, none, some, String, if◌then◌else◌,
}
use go_loadbalancer.Prelude.Int.{ℤ, pos, ltb_ℤ, add64, sub64}
use go_loadbalancer.Prelude.Map.{◌==◌, nat_key}

pub record Backend : Type 0 where
  pub url : String  -- `url.String()` of the parsed address
  pub is_healthy : Bool
  pub active_connections : ℤ
  pub weight : ℤ
  pub ewma_response_time : ℤ
  pub has_ewma : Bool

-- Go's `float64`, as far as `RecordResponse` uses it: conversions, a sum, a product and constants.
-- `constant n` is the float that stands for the constant of `n` tenths.
pub record Float64 : Type 1 where
  pub F : Type 0
  pub of_int : ℤ → F
  pub to_int : F → ℤ
  pub add : F → F → F
  pub mul : F → F → F
  pub constant : ℕ → F

unfoldable pub new : String → ℤ → Backend
new url weight = record {
  url = url;
  is_healthy = false;
  active_connections = pos 0;
  weight = weight;
  ewma_response_time = pos 0;
  has_ewma = false;
}

unfoldable pub increment_conn : Backend → Backend
unfolding add64
increment_conn b = record b { active_connections = add64 b.active_connections (pos 1) }

unfoldable pub decrement_conn : Backend → Backend
unfolding sub64
decrement_conn b =
    if ltb_ℤ (pos 0) b.active_connections
    then record b { active_connections = sub64 b.active_connections (pos 1) }
    else b

abbrev bool_eq : Bool → Bool → Bool
bool_eq true c = c
bool_eq false c = not c

-- The Boolean result is `changed`.
unfoldable pub set_healthy : Bool → Backend → Backend × Bool
set_healthy healthy b =
    if bool_eq b.is_healthy healthy then (b, false) else (record b { is_healthy = healthy }, true)

-- In tenths; Go computes with constants exactly, so `1-ewmaAlpha` is rounded once.
abbrev ewma_alpha : ℕ
ewma_alpha = 2

-- `time.Duration((1-ewmaAlpha)*float64(old) + ewmaAlpha*float64(latest))`
unfoldable pub blend : Float64 → ℤ → ℤ → ℤ
blend f old latest = f.to_int (
    f.add (f.mul (f.constant (10 - ewma_alpha)) (f.of_int old))
      (f.mul (f.constant ewma_alpha) (f.of_int latest)))

unfoldable pub record_response : Float64 → ℤ → Backend → Backend
record_response f duration b =
    if b.has_ewma
    then record b { ewma_response_time = blend f b.ewma_response_time duration }
    else record b { ewma_response_time = duration; has_ewma = true }

unfoldable pub ewma_time : Backend → ℤ
ewma_time b = if b.has_ewma then b.ewma_response_time else pos 0

-- The error cell that `WithProxyErrorCapture` puts into the request's context.
pub record ProxyError : Type 0 where
  pub err : Option String

unfoldable pub with_proxy_error_capture : ProxyError
with_proxy_error_capture = record { err = none }

-- `proxy.ErrorHandler`: it only fills the cell, if the context carries one.
unfoldable pub error_handler : Option ProxyError → String → Option ProxyError
error_handler none e = none
error_handler (some cell) e = some (record { err = some e })

-- Pointers to backends are numbers; every pointer that the program holds is allocated.
abbrev pub Store : Type 0
Store = ℕ → Backend

unfoldable pub modify : ℕ → (Backend → Backend) → Store → Store
modify p f s q = if q == p then f (s q) else s q
