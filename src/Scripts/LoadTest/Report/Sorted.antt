-- ===== src/Scripts/LoadTest/Report/Sorted.antt =====
-- The ends and the sum of the sorted latencies of scripts/loadtest.go.
use go_loadbalancer.Prelude.{
  ℕ, ◌+◌, ◌-◌, ◌*◌, ◌^◌, ◌≤◌, ◌<◌, ◌≡◌, refl, sym, ap, subst, ◌∙◌, arith, List, [], ◌∷◌, length,
  get_or, All,
}
use go_loadbalancer.Prelude.Int.{ℤ, pos, negsuc, pos_part, ◌≤ℤ◌, add64_pos, eq_of_parts}
use go_loadbalancer.Prelude.Slots.{sum_of}
use go_loadbalancer.Go.Sort.{sort, int_order, sum_of-sort, All-sort, Ascending}
use go_loadbalancer.Metrics.{sum64}

-- In an ascending list the first element is the least, the last one the greatest.
pub first-least :
    (tmp : List ℤ) → Ascending int_order tmp → All (λ d. get_or tmp 0 (pos 0) ≤ℤ d) tmp
first-least [] asc = tt
first-least (x ∷ xs) asc = (int_order.reflexive x, asc.0)

abbrev last_of : ℤ → List ℤ → ℤ
last_of x [] = x
last_of x (y ∷ ys) = last_of y ys

get_or-last : (x : ℤ) (xs : List ℤ) → get_or (x ∷ xs) (length xs) (pos 0) ≡ last_of x xs
get_or-last x [] = refl
get_or-last x (y ∷ ys) = get_or-last y ys

last_of-greatest :
    (x : ℤ) (xs : List ℤ) → Ascending int_order (x ∷ xs) → All (λ d. d ≤ℤ last_of x xs) (x ∷ xs)
last_of-greatest x [] asc = (int_order.reflexive x, tt)
last_of-greatest x (y ∷ ys) asc =
    let rest = last_of-greatest y ys asc.1 in
    (int_order.trans x y (last_of y ys) asc.0.0 rest.0, rest)

pub last-greatest :
    (tmp : List ℤ)
    → Ascending int_order tmp
    → All (λ d. d ≤ℤ get_or tmp (length tmp - 1) (pos 0)) tmp
last-greatest [] asc = tt
last-greatest (x ∷ xs) asc =
    let at_end : get_or (x ∷ xs) (length (x ∷ xs) - 1) (pos 0) ≡ last_of x xs =
      ap (λ i. get_or (x ∷ xs) i (pos 0)) (omega arith) ∙ get_or-last x xs in
    subst (λ m. All (λ d. d ≤ℤ m) (x ∷ xs)) (sym at_end) (last_of-greatest x xs asc)

abbrev pub parts : List ℤ → ℕ
parts = sum_of pos_part

sum64-parts :
    (sum : ℕ) (xs : List ℤ)
    → All (λ d. pos 0 ≤ℤ d) xs
    → sum + parts xs < 2 ^ 63
    → sum64 (pos sum) xs ≡ pos (sum + parts xs)
unfolding sum64
sum64-parts sum [] low small = ap pos (omega arith)
sum64-parts sum (pos d ∷ ds) low small =
    rw (add64_pos sum d (omega (arith, small)))
      (sum64-parts (sum + d) ds low.1 (omega (arith, small)) ∙ ap pos (omega arith))
sum64-parts sum (negsuc d ∷ ds) low small = absurd (omega (arith, low.0))

-- The sum of the sorted latencies is that of the latencies.
pub sum64-sort :
    (xs : List ℤ)
    → All (λ d. pos 0 ≤ℤ d) xs
    → parts xs < 2 ^ 63
    → sum64 (pos 0) (sort int_order xs) ≡ sum64 (pos 0) xs
sum64-sort xs low small =
    let same = sum_of-sort int_order pos_part xs in
    sum64-parts 0 (sort int_order xs) (All-sort int_order (λ d. pos 0 ≤ℤ d) xs low)
      (omega (arith, same, small))
    ∙ ap pos (omega (arith, same))
    ∙ sym (sum64-parts 0 xs low (omega (arith, small)))

pos_part_mono : (a b : ℤ) → a ≤ℤ b → pos_part a ≤ pos_part b
pos_part_mono (pos a) (pos b) h = omega (arith, h)
pos_part_mono (pos a) (negsuc b) h = absurd (omega (arith, h))
pos_part_mono (negsuc a) b h = omega arith

pub parts-le : (m : ℤ) (xs : List ℤ) → All (λ d. d ≤ℤ m) xs → parts xs ≤ length xs * pos_part m
parts-le m [] all = omega arith
parts-le m (x ∷ xs) all =
    let product : length (x ∷ xs) * pos_part m ≡ length xs * pos_part m + pos_part m =
      grind arith in
    omega (arith, pos_part_mono x m all.0, parts-le m xs all.1, product)

pub antisym : (a b : ℤ) → a ≤ℤ b → b ≤ℤ a → a ≡ b
antisym a b le ge = eq_of_parts a b (omega (arith, le, ge))
