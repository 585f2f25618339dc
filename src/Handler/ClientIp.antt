-- ===== src/Handler/ClientIp.antt =====
-- `extractClientIP` of internal/handler/handler.go: the key of a client.
use Prim.Native.Char.{Char}
use Prim.Native.String.{String}
use go_loadbalancer.Prelude.{
  ◌≡◌, refl, ap, false, Option, none, some, if◌then◌else◌, Bool-cases, inl, inr,
}
use text.Mathlib.TextEquality.{eq_iff}
use go_loadbalancer.Prelude.Map.{◌==◌, string_key}
use go_loadbalancer.Go.Text.{append, cut, first_part, trim_space}
use go_loadbalancer.Go.Net.{split_host_port, join_host_port}
use go_loadbalancer.Go.Net.Joined.{Lacks, cut-append, cut-missing, split-join}

-- On an error the host is empty, and the error is not looked at.
host_of : Option (String × String) → String
host_of none = ""
host_of (some p) = p.0

-- `forwarded_for` is the header X-Forwarded-For, empty if there is none.
unfoldable pub extract_client_ip : String → String → String
unfolding host_of split_host_port
extract_client_ip forwarded_for remote_addr =
    if forwarded_for == ""
    then host_of (split_host_port remote_addr)
    else trim_space (first_part b',' forwarded_for)

cons_nonempty : (c : Char) (s : String) → (String.◌∷◌ c s == "") ≡ false
cons_nonempty c s = elim (Bool-cases (String.◌∷◌ c s == "")) [
  | inl e ↦ let h = (eq_iff (String.◌∷◌ c s) "").0 e in cc
  | inr e ↦ e
]

-- Without the header, the key is the host of the connection, with any port and also for an address of
-- IPv6; with it, whatever the connection is, the key is its one address, trimmed, or, where proxies have
-- appended others, the first address of the list, trimmed.
pub extract_client_ip-first :
    (host port remote : String) (c : Char) (first rest : String)
    → Lacks b'[' host
    → Lacks b']' host
    → Lacks b':' port
    → Lacks b'[' port
    → Lacks b']' port
    → Lacks b',' (String.◌∷◌ c first)
    → (extract_client_ip "" (join_host_port host port) ≡ host)
      × (extract_client_ip (String.◌∷◌ c first) remote ≡ trim_space (String.◌∷◌ c first))
      × (extract_client_ip (append (String.◌∷◌ c first) (append "," rest)) remote
          ≡ trim_space (String.◌∷◌ c first))
unfolding extract_client_ip first_part
extract_client_ip-first host port remote c first rest b d e f g no_comma = (
  ap host_of (split-join host port b d e f g),
  rw (cons_nonempty c first)
      (ap trim_space (alone (cut-missing b',' (String.◌∷◌ c first) no_comma))),
  rw (cons_nonempty c (append first (append "," rest)))
      (ap trim_space (part (cut-append b',' _ (String.◌∷◌ c first) rest refl no_comma))),
)
  where
    alone :
        cut b',' (String.◌∷◌ c first) ≡ none
        → first_part b',' (String.◌∷◌ c first) ≡ String.◌∷◌ c first
    alone h = rw (first_part, h) refl

    part :
        cut b',' (append (String.◌∷◌ c first) (append "," rest)) ≡ some (String.◌∷◌ c first, rest)
        → first_part b',' (append (String.◌∷◌ c first) (append "," rest)) ≡ String.◌∷◌ c first
    part h = rw (first_part, h) refl
