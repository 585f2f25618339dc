-- ===== src/Go/Net/Joined.antt =====
-- Taking apart what was joined.
use Prim.Native.Char.{Char, code}
use Prim.Native.String.{String}
use go_loadbalancer.Prelude.{ℕ, ◌≡◌, refl, arith, false, none, some, Bool-cases, inl, inr}
use go_loadbalancer.Prelude.Map.{◌==◌, nat_key, beq_refl}
use go_loadbalancer.Go.Text.{append, contains, cut, cut_last}
use go_loadbalancer.Go.Net.{
  plain, bracketed, after_bracket, unless_bracket, split_host_port, join_host_port,
}

cut_last-missing : (b : ℕ) (s : String) → contains b s ≡ false → cut_last b s ≡ none
unfolding contains cut_last
cut_last-missing b String.[] e = refl
cut_last-missing b (String.◌∷◌ c s) e =
    let rest = cut_last-missing b s (ground (arith, e)) in rw rest (ground (arith, e))

pub cut_last-append :
    (b : ℕ) (c : Char) (s t : String)
    → code c ≡ b
    → contains b t ≡ false
    → cut_last b (append s (String.◌∷◌ c t)) ≡ some (s, t)
unfolding cut_last
cut_last-append b c String.[] t same none_there =
    rw (cut_last-missing b t none_there, same, beq_refl b) refl
cut_last-append b c (String.◌∷◌ d s) t same none_there =
    rw (cut_last-append b c s t same none_there) refl

pub cut-append :
    (b : ℕ) (c : Char) (s t : String)
    → code c ≡ b
    → contains b s ≡ false
    → cut b (append s (String.◌∷◌ c t)) ≡ some (s, t)
unfolding cut contains
cut-append b c String.[] t same none_there = rw (same, beq_refl b) refl
cut-append b c (String.◌∷◌ d s) t same none_there =
    rw (cut-append b c s t same (ground (arith, none_there))) (ground (arith, none_there))

pub cut-missing : (b : ℕ) (s : String) → contains b s ≡ false → cut b s ≡ none
unfolding contains cut
cut-missing b String.[] e = refl
cut-missing b (String.◌∷◌ c s) e =
    let rest = cut-missing b s (ground (arith, e)) in rw rest (ground (arith, e))

-- A text without brackets and colons, or with a part of them.
abbrev pub Lacks : ℕ → String → Type 0
Lacks b s = contains b s ≡ false

plain-host :
    (host port : String)
    → Lacks b':' host
    → Lacks b'[' host
    → Lacks b']' host
    → Lacks b':' port
    → Lacks b'[' port
    → Lacks b']' port
    → plain (cut_last b':' (append host (append ":" port))) ≡ some (host, port)
unfolding plain unless_bracket
plain-host host port a b c d e f = rw (cut_last-append b':' _ host port refl d, a, b, c, e, f) refl

-- Any host without brackets and any port without brackets and colons are read back as they were
-- joined.
pub split-join :
    (host port : String)
    → Lacks b'[' host
    → Lacks b']' host
    → Lacks b':' port
    → Lacks b'[' port
    → Lacks b']' port
    → split_host_port (join_host_port host port) ≡ some (host, port)
unfolding split_host_port join_host_port bracketed after_bracket unless_bracket contains
split-join host port b c d e f = elim (Bool-cases (contains b':' host)) [
  | inl colon ↦ rw (colon, cut-append b']' _ host (append ":" port) refl c, d, b, e, f) refl
  | inr a ↦ rw a (no_bracket host a b c)
]
  where
    no_bracket :
        (h : String)
        → Lacks b':' h
        → Lacks b'[' h
        → Lacks b']' h
        → split_host_port (append h (append ":" port)) ≡ some (h, port)
    no_bracket String.[] a b c = plain-host String.[] port a b c d e f
    no_bracket (String.◌∷◌ x h) a b c =
        let not_open : (code x == b'[') ≡ false = ground (arith, b) in
        rw not_open (plain-host (String.◌∷◌ x h) port a b c d e f)
