-- ===== src/HttpServer.antt =====
-- internal/httpserver/server.go: the server of the balancer. `Host` of package
-- github.com/go-ozzo/ozzo-validation/is is the parameter `host_error`; it is another version than the
-- one that config/config.go uses. Listening is what `net/http` does, and an outcome here.
pub mod Accepts
use go_loadbalancer.Prelude.{
  ℕ, ◌*◌, ◌^◌, Bool, true, false, Option, none, some, String, if◌then◌else◌,
}
use go_loadbalancer.Prelude.Map.{◌==◌, string_key}
use go_loadbalancer.Go.Net.{split_host_port}

-- The codes of the errors that `validation.NewError` makes.
pub data HostError : Type 0 where
  invalid_hostport invalid_port invalid_host : HostError

-- What follows `net.SplitHostPort`. The `err` that the code returns at the end is nil.
checked_host : (String → Bool) → Option (String × String) → Option HostError
checked_host is_host none = some invalid_hostport
checked_host is_host (some (host, port)) =
    if port == ""
    then some invalid_port
    else if host == ""
    then none
    else if is_host host
    then none
    else some invalid_host

unfoldable pub validate_host : (String → Bool) → String → Option HostError
unfolding checked_host
validate_host is_host addr = checked_host is_host (split_host_port addr)

abbrev seconds : ℕ → ℕ
seconds n = n * 10 ^ 9

-- The fields of `http.Server` that are set; the handler is of the type `H`.
pub record Server (H : Type 0) : Type 0 where
  pub addr : String
  pub handler : H
  pub read_timeout : ℕ
  pub write_timeout : ℕ
  pub idle_timeout : ℕ

pub data Created (H : Type 0) : Type 0 where
  created : Server H → Created H
  refused : HostError → Created H

abbrev create : {H : Type 0} → String → H → Option HostError → Created H
create addr handler (some e) = refused e
create addr handler none = created (record {
  addr = addr;
  handler = handler;
  read_timeout = seconds 15;
  write_timeout = seconds 15;
  idle_timeout = seconds 60;
})

unfoldable pub new : {H : Type 0} → (String → Bool) → String → H → Created H
new is_host addr handler = create addr handler (validate_host is_host addr)

-- How `ListenAndServe` ends.
pub data Ended : Type 0 where
  nil server_closed : Ended
  listen_error : String → Ended

-- `Start`: the error that it returns.
unfoldable pub start : Ended → Option String
start nil = none
start server_closed = none
start (listen_error e) = some e
