-- ===== src/Go/Sort.antt =====
-- `sort.Slice` of Go's standard library, for a total order. The result is fixed by being ascending with
-- the same elements, so an insertion sort stands for it.
use mathlib.Core.List.{Perm}
use mathlib.Core.List.Perm
use go_loadbalancer.Prelude.{
  ℕ, zero, suc, ◌+◌, ◌≤◌, ◌<◌, ◌≡◌, refl, arith, Bool, true, false, List, [], ◌∷◌, leb,
  if◌then◌else◌, All, All-In, In, inl, inr, length, get_or, Bool-cases,
}
use go_loadbalancer.Prelude.Slots.{sum_of}
use go_loadbalancer.Prelude.Int.{ℤ, ◌≤ℤ◌, leb_ℤ}

-- The test that the sort is given, and the order that it decides.
pub record Order (A : Type 0) : Type 1 where
  pub test : A → A → Bool
  pub Le : A → A → Type 0
  pub sound : (a b : A) → test a b ≡ true → Le a b
  pub complete : (a b : A) → test a b ≡ false → Le b a
  pub trans : (a b c : A) → Le a b → Le b c → Le a c
  pub reflexive : (a : A) → Le a a

pub nat_sound : (a b : ℕ) → leb a b ≡ true → a ≤ b
nat_sound a b h = ground arith

pub nat_complete : (a b : ℕ) → leb a b ≡ false → b ≤ a
nat_complete a b h = ground arith

abbrev pub nat_order : Order ℕ
nat_order = record {
  test = leb;
  Le = ◌≤◌;
  sound = nat_sound;
  complete = nat_complete;
  trans = λ a b c h k. omega arith;
  reflexive = λ a. omega arith;
}

pub int_sound : (a b : ℤ) → leb_ℤ a b ≡ true → a ≤ℤ b
int_sound a b h = ground arith

pub int_complete : (a b : ℤ) → leb_ℤ a b ≡ false → b ≤ℤ a
int_complete a b h = ground arith

abbrev pub int_order : Order ℤ
int_order = record {
  test = leb_ℤ;
  Le = ◌≤ℤ◌;
  sound = int_sound;
  complete = int_complete;
  trans = λ a b c h k. omega arith;
  reflexive = λ a. omega arith;
}

module _ {A : Type 0} (o : Order A) where
  insert : A → List A → List A
  insert a [] = a ∷ []
  insert a (x ∷ xs) = if o.test a x then a ∷ x ∷ xs else x ∷ insert a xs

  unfoldable pub sort : List A → List A
  unfolding insert
  sort [] = []
  sort (x ∷ xs) = insert x (sort xs)

  abbrev pub Ascending : List A → Type 0
  Ascending [] = Unit {0}
  Ascending (x ∷ xs) = All (λ y. o.Le x y) xs × Ascending xs

  All-insert : (P : A → Type 0) (a : A) (xs : List A) → P a → All P xs → All P (insert a xs)
  unfolding insert
  All-insert P a [] h all = (h, tt)
  All-insert P a (x ∷ xs) h all = elim (Bool-cases (o.test a x)) [
    | inl le ↦ rw le (h, all)
    | inr gt ↦ rw gt (all.0, All-insert P a xs h all.1)
  ]

  All-le : (a x : A) (xs : List A) → o.Le a x → All (λ y. o.Le x y) xs → All (λ y. o.Le a y) xs
  All-le a x [] h all = tt
  All-le a x (y ∷ ys) h all = (o.trans a x y h all.0, All-le a x ys h all.1)

  insert-Ascending : (a : A) (xs : List A) → Ascending xs → Ascending (insert a xs)
  unfolding insert
  insert-Ascending a [] asc = (tt, tt)
  insert-Ascending a (x ∷ xs) asc = elim (Bool-cases (o.test a x)) [
    | inl le ↦ rw le ((o.sound a x le, All-le a x xs (o.sound a x le) asc.0), asc)
    | inr gt ↦
        rw gt
          (All-insert (λ y. o.Le x y) a xs (o.complete a x gt) asc.0, insert-Ascending a xs asc.1)
  ]

  pub sort-Ascending : (xs : List A) → Ascending (sort xs)
  unfolding sort
  sort-Ascending [] = tt
  sort-Ascending (x ∷ xs) = insert-Ascending x (sort xs) (sort-Ascending xs)

  pub All-sort : (P : A → Type 0) (xs : List A) → All P xs → All P (sort xs)
  unfolding sort
  All-sort P [] all = tt
  All-sort P (x ∷ xs) all = All-insert P x (sort xs) all.0 (All-sort P xs all.1)

  length-insert : (a : A) (xs : List A) → length (insert a xs) ≡ suc (length xs)
  unfolding insert
  length-insert a [] = refl
  length-insert a (x ∷ xs) = ground (arith, length-insert a xs)

  pub length-sort : (xs : List A) → length (sort xs) ≡ length xs
  unfolding sort
  length-sort [] = refl
  length-sort (x ∷ xs) = omega (arith, length-insert x (sort xs), length-sort xs)

  insert-perm : (a : A) (xs : List A) → Perm (insert a xs) (a ∷ xs)
  unfolding insert
  insert-perm a [] = Perm.refl (a ∷ [])
  insert-perm a (x ∷ xs) = elim (Bool-cases (o.test a x)) [
    | inl le ↦ rw le (Perm.refl (a ∷ x ∷ xs))
    | inr gt ↦ rw gt (Perm.trans (Perm.cons x (insert-perm a xs)) (Perm.swap a x xs))
  ]

  pub sort-perm : (xs : List A) → Perm (sort xs) xs
  unfolding sort
  sort-perm [] = Perm.refl []
  sort-perm (x ∷ xs) = Perm.trans (insert-perm x (sort xs)) (Perm.cons x (sort-perm xs))

module _ {A : Type 0} (o : Order A) where
  In-insert : (a b : A) (xs : List A) → In b (a ∷ xs) → In b (insert o a xs)
  unfolding insert
  In-insert a b [] i = i
  In-insert a b (x ∷ xs) i = elim (Bool-cases (o.test a x)) [
    | inl le ↦ rw le i
    | inr gt ↦ rw gt (elim i [
      | inl same ↦ inr (In-insert a b xs (inl same))
      | inr (inl same) ↦ inl same
      | inr (inr j) ↦ inr (In-insert a b xs (inr j))
    ])
  ]

  pub In-sort : (b : A) (xs : List A) → In b xs → In b (sort o xs)
  unfolding sort
  In-sort b [] i = i
  In-sort b (x ∷ xs) (inl same) = In-insert x b (sort o xs) (inl same)
  In-sort b (x ∷ xs) (inr i) = In-insert x b (sort o xs) (inr (In-sort b xs i))

module _ {A : Type 0} (o : Order A) (f : A → ℕ) where
  sum_of-insert : (a : A) (xs : List A) → sum_of f (insert o a xs) ≡ f a + sum_of f xs
  unfolding insert
  sum_of-insert a [] = refl
  sum_of-insert a (x ∷ xs) = elim (Bool-cases (o.test a x)) [
    | inl le ↦ rw le refl
    | inr gt ↦ rw gt (omega (arith, sum_of-insert a xs))
  ]

  pub sum_of-sort : (xs : List A) → sum_of f (sort o xs) ≡ sum_of f xs
  unfolding sort
  sum_of-sort [] = refl
  sum_of-sort (x ∷ xs) = omega (arith, sum_of-insert x (sort o xs), sum_of-sort xs)

pub get_or-In : {A : Type 0} (xs : List A) (i : ℕ) (d : A) → i < length xs → In (get_or xs i d) xs
get_or-In [] i d h = elim h [ ]
get_or-In (x ∷ xs) zero d h = inl refl
get_or-In (x ∷ xs) (suc i) d h = inr (get_or-In xs i d (omega arith))

module _ {A : Type 0} (o : Order A) where
  -- In an ascending list a later index holds no lesser element.
  pub get_or-mono :
      (xs : List A) (i j : ℕ) (d : A)
      → Ascending o xs
      → i ≤ j
      → j < length xs
      → o.Le (get_or xs i d) (get_or xs j d)
  get_or-mono [] i j d asc le lt = elim lt [ ]
  get_or-mono (x ∷ xs) zero zero d asc le lt = o.reflexive x
  get_or-mono (x ∷ xs) zero (suc j) d asc le lt =
      All-In (λ y. o.Le x y) xs asc.0 (get_or-In xs j d (omega arith))
  get_or-mono (x ∷ xs) (suc i) zero d asc le lt = absurd (omega arith)
  get_or-mono (x ∷ xs) (suc i) (suc j) d asc le lt =
      get_or-mono xs i j d asc.1 (omega arith) (omega arith)
