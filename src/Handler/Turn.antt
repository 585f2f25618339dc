-- ===== src/Handler/Turn.antt =====
-- One attempt of `ServeHTTP` (internal/handler/handler.go): which backend `selectBackend` answers.
use go_loadbalancer.Prelude.{
  ℕ, ◌≡◌, refl, sym, ap, ◌∙◌, ◌⊎◌, inl, inr, Bool, true, false, List, [], ◌∷◌, String, Bool-cases,
  In,
}
use go_loadbalancer.Prelude.Map.{Map, get, insert, string_key, nat_key}
use go_loadbalancer.Backend.{Store, increment_conn}
use go_loadbalancer.Strategy.{Strategy, takes_key}
use go_loadbalancer.LoadBalancer.{get_and_reserve_server, Reply}
use go_loadbalancer.LoadBalancer.Reserve.{
  get_and_reserve_server-takes_key, Healthy, Reserved, unavailable, refused, reserved,
  get_and_reserve_server-Reserved,
}
use go_loadbalancer.Handler.State.{Library, Outcome, Exchange}
use go_loadbalancer.Handler.Select.{
  Selected, Selection, from_result, from_reply, chosen, failed, available, select_from,
  select_backend,
}
use go_loadbalancer.Handler.Effects.{allowed}
use go_loadbalancer.Handler.{selected, attempt}
use go_loadbalancer.Handler.Kept.{
  Same, modify-Same, increment-keeps, allowed-keeps, proceed-Kept, Kept,
}

abbrev pub Usable : Store → Map String Bool → List ℕ → ℕ → Type 0
Usable store tried bs b = In b bs × (get false (store b).url tried ≡ false) × Healthy store b

available-In :
    (store : Store) (tried : Map String Bool) (bs : List ℕ) (b : ℕ)
    → In b (available store tried bs)
    → Usable store tried bs b
unfolding available
available-In store tried [] b = λ i. elim i [ ]
available-In store tried (x ∷ xs) b = elim (Bool-cases (get false (store x).url tried)) [
  | inl used ↦ rw used (λ i. passed (available-In store tried xs b i))
  | inr new ↦ elim (Bool-cases (store x).is_healthy) [
    | inl up ↦ rw (new, up) (λ i. taken new up (λ j. available-In store tried xs b j) i)
    | inr down ↦ rw (new, down) (λ i. passed (available-In store tried xs b i))
  ]
]
  where
    passed : Usable store tried xs b → Usable store tried (x ∷ xs) b
    passed (k, new, up) = (inr k, new, up)

    taken :
        get false (store x).url tried ≡ false
        → Healthy store x
        → (In b (available store tried xs) → Usable store tried xs b)
        → (b ≡ x) ⊎ In b (available store tried xs)
        → Usable store tried (x ∷ xs) b
    taken new up rest (inl e) = rw e (inl refl, new, up)
    taken new up rest (inr j) = passed (rest j)

-- What an attempt may do: no backend is chosen, or `b` is, which was healthy and whose address had
-- not been tried; then the request is forwarded to `b` or to nobody.
pub data Turn (x y : Exchange) : Type 0 where
  idle : Kept x y → y.tried ≡ x.tried → y.forwarded ≡ x.forwarded → Turn x y
  tries :
      (b : ℕ)
      → Usable x.store x.tried x.handler.backends b
      → Kept x y
      → y.tried ≡ insert (x.store b).url true x.tried
      → (y.forwarded ≡ x.forwarded) ⊎ (y.forwarded ≡ b ∷ x.forwarded)
      → Turn x y

-- What `selectBackend` leaves and answers.
record Selects (x : Exchange) (s : Selection) : Type 0 where
  same : Same x.store s.store
  keyless : takes_key s.strategy ≡ false
  usable : (b : ℕ) → s.selected ≡ chosen b → Usable x.store x.tried x.handler.backends b

select_from-Selects :
    (draw : ℕ) (ip : String) (x : Exchange) (bs : List ℕ)
    → takes_key x.handler.balancer ≡ false
    → available x.store x.tried x.handler.backends ≡ bs
    → Selects x (select_from draw ip x.store x.handler.balancer bs)
unfolding select_from
select_from-Selects draw ip x [] keyless e = record {
  same = λ p. (refl, refl);
  keyless = keyless;
  usable = λ b f. cc;
}
select_from-Selects draw ip x (c ∷ cs) keyless e = rw keyless (
    by_contract (get_and_reserve_server draw (c ∷ cs) x.handler.balancer x.store)
      (get_and_reserve_server-takes_key draw (c ∷ cs) x.handler.balancer x.store ∙ keyless)
      (get_and_reserve_server-Reserved draw (c ∷ cs) ip x.handler.balancer x.store keyless).0)
  where
    by_contract :
        (r : Reply)
        → takes_key r.strategy ≡ false
        → Reserved x.store x.handler.balancer (c ∷ cs) r
        → Selects x (from_reply r)
    by_contract r k (unavailable f down same kept) = record {
      same = rw same (λ p. (refl, refl));
      keyless = k;
      usable = λ b g. let h = ap from_result f in cc;
    }
    by_contract r k (refused f b i up same) = record {
      same = rw same (λ p. (refl, refl));
      keyless = k;
      usable = λ b g. let h = ap from_result f in cc;
    }
    by_contract r k (reserved b f i up same) = record {
      same = rw same (modify-Same x.store b increment_conn increment-keeps);
      keyless = k;
      usable = λ d g.
          let h : b ≡ d = (let h = ap from_result f in cc) in
          rw (← h) (available-In x.store x.tried x.handler.backends b (rw e i));
    }

pub attempt-Turn :
    (lib : Library) (ip : String) (o : Outcome) (x : Exchange)
    → takes_key x.handler.balancer ≡ false
    → Turn x (attempt lib ip o x).0
unfolding attempt select_backend selected
attempt-Turn lib ip o x keyless =
    by_selection (select_backend o.draw ip x).strategy (select_backend o.draw ip x).store
      (select_backend o.draw ip x).selected (select_from-Selects o.draw ip x _ keyless refl)
  where
    by_selection :
        (strategy : Strategy) (store : Store) (s : Selected)
        → Selects x (record { strategy = strategy; store = store; selected = s })
        → Turn x
            (selected lib o
              (record x { handler = record x.handler { balancer = strategy }; store = store })
              s).0
    by_selection strategy store (failed cause) h =
        idle (record { same = h.same; keyless = h.keyless ∙ sym keyless; backends = refl }) refl
          refl
    by_selection strategy store (chosen b) h =
        let (kept, t, f) =
          proceed-Kept lib o b (store b).url
            (record x {
              handler = record x.handler { balancer = strategy };
              store = store;
              tried = insert (store b).url true x.tried;
            })
            (allowed lib o.allow_at (store b).url (record x.handler { balancer = strategy }))
            (allowed-keeps lib o.allow_at (store b).url
              (record x.handler { balancer = strategy })) in
        tries b (h.usable b refl)
          (record {
            same = λ p. ((kept.same p).0 ∙ (h.same p).0, (kept.same p).1 ∙ (h.same p).1);
            keyless = kept.keyless ∙ h.keyless ∙ sym keyless;
            backends = kept.backends;
          })
          (t ∙ ap (λ u. insert u true x.tried) (h.same b).0) f
