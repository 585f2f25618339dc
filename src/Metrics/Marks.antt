-- ===== src/Metrics/Marks.antt =====
-- The addresses that a snapshot (internal/metrics/metrics.go) goes through.
use go_loadbalancer.Prelude.{
  ℕ, ◌+◌, ◌<◌, ◌^◌, ◌≡◌, ◌≢◌, refl, sym, ap, ◌∙◌, inl, inr, arith, Bool, true, List, [], ◌∷◌,
  String, In, Distinct, Bool-cases,
}
use go_loadbalancer.Prelude.Int.{ℤ, pos, add64_pos}
use go_loadbalancer.Prelude.Map.{Map, get, insert, ◌==◌, string_key}
use go_loadbalancer.Prelude.Keys.{keys, insert-In, insert-keeps, Distinct-insert}
use go_loadbalancer.Metrics.{Metrics, Snapshot, mark, all_backends, summarize, snapshot}

Distinct-mark :
    {V : Type 0} (m : Map String V) (all : Map String Bool)
    → Distinct (keys all)
    → Distinct (keys (mark m all))
unfolding mark
Distinct-mark [] all d = d
Distinct-mark ((k, v) ∷ m) all d =
    Distinct-mark m (insert k true all) (Distinct-insert k true all d)

mark-keeps :
    {V : Type 0} (m : Map String V) (all : Map String Bool) (j : String)
    → In j (keys all)
    → In j (keys (mark m all))
unfolding mark
mark-keeps [] all j i = i
mark-keeps ((k, v) ∷ m) all j i = mark-keeps m (insert k true all) j (insert-keeps k true all j i)

mark-In :
    {V : Type 0} (m : Map String V) (all : Map String Bool) (j : String)
    → In j (keys m)
    → In j (keys (mark m all))
unfolding mark
mark-In [] all j i = elim i [ ]
mark-In ((k, v) ∷ m) all j (inl e) =
    mark-keeps m (insert k true all) j (rw e (insert-In k true all))
mark-In ((k, v) ∷ m) all j (inr i) = mark-In m (insert k true all) j i

get-In : (m : Map String ℤ) (k : String) → get (pos 0) k m ≢ pos 0 → In k (keys m)
unfolding get
get-In [] k = λ h. absurd (h refl)
get-In ((j, v) ∷ m) k = elim (Bool-cases (j == k)) [
  | inl same ↦ λ h. inl (sym ((string_key.beq_iff j k).0 same))
  | inr apart ↦ rw apart (λ h. inr (get-In m k h))
]

-- No address stands twice among those of a snapshot.
pub Distinct-all_backends : (m : Metrics) → Distinct (keys (all_backends m))
unfolding all_backends
Distinct-all_backends m = Distinct-mark m.health_status _ (
    Distinct-mark m.response_times _
      (Distinct-mark m.selections _ (Distinct-mark m.requests [] tt)))

-- Every address with a request is among them.
pub all_backends-covers :
    (m : Metrics) (url : String)
    → get (pos 0) url m.requests ≢ pos 0
    → In url (keys (all_backends m))
unfolding all_backends
all_backends-covers m url h = mark-keeps m.health_status _ url (
    mark-keeps m.response_times _ url
      (mark-keeps m.selections _ url (mark-In m.requests [] url (get-In m.requests url h))))

abbrev pub sum_over : (String → ℕ) → List String → ℕ
sum_over f [] = 0
sum_over f (u ∷ us) = f u + sum_over f us

-- The loop adds up the requests, as long as the sum fits.
summarize-total :
    (m : Metrics) (f : String → ℕ) (all : Map String Bool) (snap : Snapshot) (t : ℕ)
    → ((url : String) → get (pos 0) url m.requests ≡ pos (f url))
    → snap.total_requests ≡ pos t
    → t + sum_over f (keys all) < 2 ^ 63
    → (summarize m all snap).total_requests ≡ pos (t + sum_over f (keys all))
unfolding summarize
summarize-total m f [] snap t counts e small = e ∙ ap pos (omega arith)
summarize-total m f ((k, b) ∷ all) snap t counts e small =
    summarize-total m f all _ (t + f k) counts
      (rw (e, counts k) (add64_pos t (f k) (omega (arith, small)))) (omega (arith, small))
    ∙ ap pos (omega arith)

pub snapshot-total :
    (since : ℕ → ℕ → ℤ) (now : ℕ) (algorithm : String) (m : Metrics) (f : String → ℕ)
    → ((url : String) → get (pos 0) url m.requests ≡ pos (f url))
    → sum_over f (keys (all_backends m)) < 2 ^ 63
    → (snapshot since now algorithm m).total_requests ≡ pos (sum_over f (keys (all_backends m)))
unfolding snapshot
snapshot-total since now algorithm m f counts small =
    summarize-total m f (all_backends m) _ 0 counts refl (omega (arith, small))
    ∙ ap pos (omega arith)
