-- ===== src/Registry/Sharing.antt =====
-- Goroutines that call `GetBreaker` of internal/circuitbreaker/registry.go at the same time. Between
-- a goroutine's two critical sections the others may take any steps of their own.
use go_loadbalancer.Prelude.{
  ℕ, ◌≡◌, refl, sym, ap, subst, ◌↔◌, ◌∙◌, arith, none, some, String, Bool-cases, Option-cases,
  if◌then◌else◌, inl, inr,
}
use go_loadbalancer.Prelude.Map.{lookup, ◌==◌, nat_key, string_key, beq_refl}
use go_loadbalancer.Prelude.Int.{ℤ}
use go_loadbalancer.Breaker.{Breaker}
use go_loadbalancer.Registry.{Registry, new, write, read_locked, write_locked}
use go_loadbalancer.Registry.Laws.{
  write-IsValid, IsValid, new-IsValid, write_locked-IsValid, write_locked-lookup,
}

-- Where a goroutine stands in `GetBreaker(url)`.
pub data Thread : Type 0 where
  called : String → Thread  -- before the read lock
  missed : String → Thread  -- between the locks
  holds : String → ℕ → Thread  -- returned

pub record System : Type 0 where
  pub registry : Registry
  pub threads : ℕ → Thread

unfoldable pub set_thread : ℕ → Thread → (ℕ → Thread) → ℕ → Thread
set_thread i t threads j = if j == i then t else threads j

-- One critical section of one goroutine, or a call on a breaker that some goroutine holds.
pub data Step : System → System → Type 0 where
  hit :
      (s : System) (i : ℕ) (url : String) (p : ℕ)
      → s.threads i ≡ called url
      → read_locked url s.registry ≡ some p
      → Step s (record s { threads = set_thread i (holds url p) s.threads })
  miss :
      (s : System) (i : ℕ) (url : String)
      → s.threads i ≡ called url
      → read_locked url s.registry ≡ none
      → Step s (record s { threads = set_thread i (missed url) s.threads })
  locked :
      (s : System) (i : ℕ) (url : String)
      → s.threads i ≡ missed url
      → Step s (record {
        registry = (write_locked url s.registry).0;
        threads = set_thread i (holds url (write_locked url s.registry).1) s.threads;
      })
  uses : (s : System) (p : ℕ) (b : Breaker) → Step s (record s { registry = write p b s.registry })
  calls_again :
      (s : System) (i : ℕ) (url other : String) (p : ℕ)
      → s.threads i ≡ holds other p
      → Step s (record s { threads = set_thread i (called url) s.threads })

pub data Reach (s : System) : System → Type 0 where
  here : Reach s s
  next : {t u : System} → Reach s t → Step t u → Reach s u

-- What a goroutine holds is what the map holds.
abbrev Held : Registry → Thread → Type 0
Held r (called url) = Unit {0}
Held r (missed url) = Unit {0}
Held r (holds url p) = lookup url r.breakers ≡ some p

record Agrees (s : System) : Type 0 where
  valid : IsValid s.registry
  held : (i : ℕ) → Held s.registry (s.threads i)

Held-write_locked :
    (url : String) (r : Registry) (t : Thread) → Held r t → Held (write_locked url r).0 t
unfolding write_locked
Held-write_locked url r (called u) h = tt
Held-write_locked url r (missed u) h = tt
Held-write_locked url r (holds u p) h = elim (Option-cases (lookup url r.breakers)) [
  | inl none_yet ↦ ground (arith, write_locked-lookup url u r, string_key.beq_iff url u)
  | inr (q, there) ↦ rw (there, write_locked) h
]

Held-write : (p : ℕ) (b : Breaker) (r : Registry) (t : Thread) → Held r t → Held (write p b r) t
unfolding write
Held-write p b r (called u) h = tt
Held-write p b r (missed u) h = tt
Held-write p b r (holds u q) h = h

Held-set_thread :
    (r : Registry) (i j : ℕ) (t : Thread) (threads : ℕ → Thread)
    → Held r t
    → Held r (threads j)
    → Held r (set_thread i t threads j)
unfolding set_thread
Held-set_thread r i j t threads new_held old_held = elim (Bool-cases (j == i)) [
  | inl e ↦ rw e new_held
  | inr e ↦ rw e old_held
]

Step-Agrees : {s t : System} → Step s t → Agrees s → Agrees t
unfolding read_locked
Step-Agrees (hit s i url p at found) a = record {
  valid = a.valid;
  held = λ j. Held-set_thread s.registry i j (holds url p) s.threads found (a.held j);
}
Step-Agrees (miss s i url at found) a = record {
  valid = a.valid;
  held = λ j. Held-set_thread s.registry i j (missed url) s.threads tt (a.held j);
}
Step-Agrees (locked s i url at) a = record {
  valid = write_locked-IsValid url s.registry a.valid;
  held = λ j.
      Held-set_thread (write_locked url s.registry).0 i j
        (holds url (write_locked url s.registry).1) s.threads
        (rw (write_locked-lookup url url s.registry, beq_refl url) refl)
        (Held-write_locked url s.registry (s.threads j) (a.held j));
}
Step-Agrees (uses s p b) a = record {
  valid = write-IsValid p b s.registry a.valid;
  held = λ j. Held-write p b s.registry (s.threads j) (a.held j);
}
Step-Agrees (calls_again s i url other p at) a = record {
  valid = a.valid;
  held = λ j. Held-set_thread s.registry i j (called url) s.threads tt (a.held j);
}

-- All goroutines stand before `GetBreaker`, over a new registry.
abbrev pub start : ℤ → ℤ → (ℕ → String) → System
start threshold timeout urls = record {
  registry = new threshold timeout;
  threads = λ i. called (urls i);
}

Reach-Agrees : {s t : System} → Agrees s → Reach s t → Agrees t
Reach-Agrees a here = a
Reach-Agrees a (next r st) = Step-Agrees st (Reach-Agrees a r)

-- However the critical sections of any number of goroutines interleave, and whatever they do to
-- the breakers in between, two goroutines that hold the breaker of the same address hold the same
-- one, which is the one in the map, and two that hold the same breaker asked for the same address.
pub one_breaker_per_address :
    (threshold timeout : ℤ) (urls : ℕ → String) {s : System} (i j : ℕ) (url other : String)
    (p q : ℕ)
    → Reach (start threshold timeout urls) s
    → s.threads i ≡ holds url p
    → s.threads j ≡ holds other q
    → (lookup url s.registry.breakers ≡ some p) × ((url ≡ other) ↔ (p ≡ q))
one_breaker_per_address threshold timeout urls {s} i j url other p q r hi hj =
    let a = Reach-Agrees (record { valid = new-IsValid threshold timeout; held = λ k. tt }) r in
    let mine : lookup url s.registry.breakers ≡ some p = subst (Held s.registry) hi (a.held i) in
    let yours : lookup other s.registry.breakers ≡ some q = subst (Held s.registry) hj (a.held j) in
    (mine, ((λ e. cc), (λ e. a.valid.apart url other p mine (yours ∙ ap some (sym e)))))
