-- ===== src/Handler/Routing.antt =====
-- Where `ServeHTTP` (internal/handler/handler.go) sends a request, for every strategy but consistent
-- hashing.
use go_loadbalancer.Prelude.{
  ℕ, zero, suc, ◌≤◌, ◌+◌, ◌≡◌, refl, sym, ap, ◌∙◌, inl, inr, Bool, true, false, List, [], ◌∷◌,
  String, arith, In, All, Distinct, map, length,
}
use go_loadbalancer.Prelude.Map.{Map, get, insert, get-insert, beq_refl, string_key, nat_key}
use go_loadbalancer.Backend.{Store}
use go_loadbalancer.Strategy.{takes_key}
use go_loadbalancer.LoadBalancer.Reserve.{Healthy}
use go_loadbalancer.Handler.State.{LoadBalancerHandler, Library, Outcome, Exchange}
use go_loadbalancer.Handler.{
  Verdict, returns, retries, breaks, captured, event, finish, forward, proceed, selected, attempt,
  is_idempotent, max_attempts, rounds, attempts, begin, serve_http,
}
use go_loadbalancer.Handler
use go_loadbalancer.Handler.Kept.{Same, Same-trans}
use go_loadbalancer.Handler.Turn.{Turn, idle, tries, attempt-Turn}

-- The requests that have been forwarded after at most `k` attempts, from the first store on: to
-- backends of the handler, healthy, of different addresses, which are all noted as tried.
record Routed (h : LoadBalancerHandler) (store : Store) (k : ℕ) (x : Exchange) : Type 0 where
  same : Same store x.store
  keyless : takes_key x.handler.balancer ≡ false
  backends : x.handler.backends ≡ h.backends
  noted : All (λ b. get false (store b).url x.tried ≡ true) x.forwarded
  members : All (λ b. In b h.backends × Healthy store b) x.forwarded
  different : Distinct (map (λ b. (store b).url) x.forwarded)
  count : length x.forwarded ≤ k

noted_before :
    (store : Store) (tried : Map String Bool) (url : String) (bs : List ℕ)
    → All (λ b. get false (store b).url tried ≡ true) bs
    → get false url tried ≡ false
    → ¬ In url (map (λ b. (store b).url) bs)
noted_before store tried url [] all new i = elim i [ ]
noted_before store tried url (b ∷ bs) all new (inl e) = let h = ap (λ u. get false u tried) e in cc
noted_before store tried url (b ∷ bs) all new (inr i) = noted_before store tried url bs all.1 new i

still_noted :
    (store : Store) (tried : Map String Bool) (url : String) (bs : List ℕ)
    → All (λ b. get false (store b).url tried ≡ true) bs
    → All (λ b. get false (store b).url (insert url true tried) ≡ true) bs
still_noted store tried url [] all = tt
still_noted store tried url (b ∷ bs) all = (
  ground (arith, get-insert false url (store b).url true tried, all.0),
  still_noted store tried url bs all.1,
)

Turn-Routed :
    (h : LoadBalancerHandler) (store : Store) (k : ℕ) (x y : Exchange)
    → Turn x y
    → Routed h store k x
    → Routed h store (suc k) y
Turn-Routed h store k x y (idle kept t f) r = record {
  same = Same-trans store x.store y.store r.same kept.same;
  keyless = kept.keyless ∙ r.keyless;
  backends = kept.backends ∙ r.backends;
  noted = rw (t, f) r.noted;
  members = rw f r.members;
  different = rw f r.different;
  count = rw f (omega (arith, r.count));
}
Turn-Routed h store k x y (tries b (i, new, up) kept t (inl f)) r = record {
  same = Same-trans store x.store y.store r.same kept.same;
  keyless = kept.keyless ∙ r.keyless;
  backends = kept.backends ∙ r.backends;
  noted = rw (t, f) (still_noted store x.tried _ x.forwarded r.noted);
  members = rw f r.members;
  different = rw f r.different;
  count = rw f (omega (arith, r.count));
}
Turn-Routed h store k x y (tries b (i, new, up) kept t (inr f)) r = record {
  same = Same-trans store x.store y.store r.same kept.same;
  keyless = kept.keyless ∙ r.keyless;
  backends = kept.backends ∙ r.backends;
  noted =
      rw (t, f, (r.same b).0)
        (
          rw (get-insert false (store b).url (store b).url true x.tried, beq_refl (store b).url)
              refl,
          still_noted store x.tried _ x.forwarded r.noted,
        );
  members = rw f ((rw (← r.backends) i, sym (r.same b).1 ∙ up), r.members);
  different = rw f (
    noted_before store x.tried (store b).url x.forwarded r.noted
        (ap (λ u. get false u x.tried) (sym (r.same b).0) ∙ new),
    r.different,
  );
  count = rw f (omega (arith, r.count));
}

weaken :
    (h : LoadBalancerHandler) (store : Store) (j k : ℕ) (x : Exchange)
    → j ≤ k
    → Routed h store j x
    → Routed h store k x
weaken h store j k x low r = record {
  same = r.same;
  keyless = r.keyless;
  backends = r.backends;
  noted = r.noted;
  members = r.members;
  different = r.different;
  count = omega (arith, r.count);
}

answered :
    (lib : Library) (h : LoadBalancerHandler) (store : Store) (j : ℕ) (x : Exchange)
    → Routed h store j x
    → Routed h store j (Handler.unavailable lib x)
unfolding Handler.unavailable
answered lib h store j x r = record {
  same = r.same;
  keyless = r.keyless;
  backends = r.backends;
  noted = r.noted;
  members = r.members;
  different = r.different;
  count = r.count;
}

attempts-Routed :
    (lib : Library) (ip : String) (outcomes : ℕ → Outcome) (h : LoadBalancerHandler) (store : Store)
    (j k n : ℕ) (x : Exchange)
    → Routed h store j x
    → Routed h store (j + k) (attempts lib ip outcomes k n x)
unfolding attempts Handler.unavailable
attempts-Routed lib ip outcomes h store j zero n x r =
    weaken h store j (j + 0) (Handler.unavailable lib x) (omega arith) (answered lib h store j x r)
attempts-Routed lib ip outcomes h store j (suc k) n x r =
    by_verdict (attempt lib ip (outcomes n) x)
      (Turn-Routed h store j x _ (attempt-Turn lib ip (outcomes n) x r.keyless) r)
      (λ y q. attempts-Routed lib ip outcomes h store (suc j) k (suc n) y q)
  where
    by_verdict :
        (t : Exchange × Verdict)
        → Routed h store (suc j) t.0
        → ((y : Exchange)
            → Routed h store (suc j) y
            → Routed h store (suc j + k) (attempts lib ip outcomes k (suc n) y))
        → Routed h store (j + suc k) (elim t.1 [
          | returns ↦ t.0
          | retries ↦ attempts lib ip outcomes k (suc n) t.0
          | breaks ↦ Handler.unavailable lib t.0
        ])
    by_verdict (y, returns) q rest = weaken h store (suc j) (j + suc k) y (omega arith) q
    by_verdict (y, retries) q rest =
        weaken h store (suc j + k) (j + suc k) (attempts lib ip outcomes k (suc n) y) (omega arith)
          (rest y q)
    by_verdict (y, breaks) q rest =
        weaken h store (suc j) (j + suc k) (Handler.unavailable lib y) (omega arith)
          (answered lib h store (suc j) y q)

-- With every strategy but consistent hashing, the backends to which `ServeHTTP` forwards one request
-- are backends of the handler that were healthy, no two of them have the same address, and there
-- are at most as many as `maxAttempts` says.
pub serve_http-forwarded :
    (lib : Library) (ip method : String) (outcomes : ℕ → Outcome) (h : LoadBalancerHandler)
    (store : Store)
    → takes_key h.balancer ≡ false
    → let forwarded = (serve_http lib ip method outcomes h store).forwarded in
      All (λ b. In b h.backends × Healthy store b) forwarded
      × Distinct (map (λ b. (store b).url) forwarded)
      × (length forwarded ≤ rounds (max_attempts method h.max_retries))
unfolding serve_http
serve_http-forwarded lib ip method outcomes h store keyless =
    let r =
      attempts-Routed lib ip outcomes h store 0 (rounds (max_attempts method h.max_retries)) 1
        (begin h store)
        (record {
          same = λ p. (refl, refl);
          keyless = keyless;
          backends = refl;
          noted = tt;
          members = tt;
          different = tt;
          count = omega arith;
        }) in
    (r.members, r.different, omega (arith, r.count))

-- A request whose method is not idempotent is forwarded once at most, whatever `maxRetries` is.
pub serve_http-forwarded_once :
    (lib : Library) (ip method : String) (outcomes : ℕ → Outcome) (h : LoadBalancerHandler)
    (store : Store)
    → takes_key h.balancer ≡ false
    → is_idempotent method ≡ false
    → length (serve_http lib ip method outcomes h store).forwarded ≤ 1
unfolding max_attempts
serve_http-forwarded_once lib ip method outcomes h store keyless unsafe =
    let (_, _, count) = serve_http-forwarded lib ip method outcomes h store keyless in
    let one : rounds (max_attempts method h.max_retries) ≡ 1 = rw unsafe refl in rw (← one) count
