-- ===== src/Go/Net.antt =====
-- What the code uses of packages net and net/url: `net.SplitHostPort`, and the parts of a parsed
-- address.
pub mod Joined
use Prim.Native.Char.{code}
use Prim.Native.String.{String}
use go_loadbalancer.Prelude.{Bool, ◌||◌, Option, none, some, if◌then◌else◌}
use go_loadbalancer.Prelude.Map.{◌==◌, nat_key}
use go_loadbalancer.Go.Text.{append, contains, cut, cut_last}

-- A `url.URL`, as far as the code reads it; `text` is its `String()`.
pub record Url : Type 0 where
  pub scheme : String
  pub host : String
  pub text : String

-- The last two checks: a bracket out of place.
unless_bracket : Bool → String → String → Option (String × String)
unless_bracket found host port = if found then none else some (host, port)

-- `host:port`, cut at the last colon.
plain : Option (String × String) → Option (String × String)
unfolding unless_bracket
plain none = none
plain (some (host, port)) =
    if contains b':' host
    then none
    else unless_bracket
        (contains b'[' host || contains b'[' port || contains b']' host || contains b']' port) host
        port

-- What stands behind the first `]`: a colon that is the last one, and the port.
after_bracket : String → String → Option (String × String)
unfolding unless_bracket
after_bracket host String.[] = none
after_bracket host (String.◌∷◌ c port) =
    if code c == b':'
    then (if contains b':' port
        then none
        else unless_bracket (contains b'[' host || contains b'[' port || contains b']' port) host
            port)
    else none

bracketed : Option (String × String) → Option (String × String)
unfolding after_bracket
bracketed none = none
bracketed (some (host, rest)) = after_bracket host rest

-- `net.SplitHostPort`, `none` for its error.
unfoldable pub split_host_port : String → Option (String × String)
unfolding plain bracketed
split_host_port String.[] = none
split_host_port (String.◌∷◌ c s) =
    if code c == b'[' then bracketed (cut b']' s) else plain (cut_last b':' (String.◌∷◌ c s))

-- `net.JoinHostPort`, as package net documents it.
unfoldable pub join_host_port : String → String → String
join_host_port host port =
    if contains b':' host
    then append "[" (append host (append "]:" port))
    else append host (append ":" port)
