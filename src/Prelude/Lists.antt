-- ===== src/Prelude/Lists.antt =====
-- Lists as the program's queries and comprehensions use them: filters by a Boolean test, search,
-- and membership that computes to sums.
use Prim.Native.Nat.{ℕ, zero, suc, ◌+◌, ◌≤◌, ◌<◌}
use mathlib.Core.Path.{◌≡◌, refl}
use mathlib.Core.Logic.{◌⊎◌, inl, inr}
use mathlib.Core.Bool.{Bool, true, false, ◌||◌, ◌&&◌}
use mathlib.Core.Option.{Option, none, some}
use mathlib.Core.List.{List, [], ◌∷◌, ◌++◌}
use native.Mathlib.Omega.{arith}
use on_track_rostering.Prelude.Tests.{if◌then◌else◌, Bool-cases, ◌==◌}

module _ {ℓ} {A : Type ℓ} where
  abbrev pub length : List A → ℕ
  length [] = 0
  length (x ∷ xs) = suc (length xs)

  -- `any(test(row) for row in rows)`.
  abbrev pub any : (A → Bool) → List A → Bool
  any test [] = false
  any test (x ∷ xs) = test x || any test xs

  -- `all(test(row) for row in rows)`.
  abbrev pub all : (A → Bool) → List A → Bool
  all test [] = true
  all test (x ∷ xs) = test x && all test xs

  -- `[row for row in rows if test(row)]`, and a WHERE clause.
  abbrev pub filter : (A → Bool) → List A → List A
  filter test [] = []
  filter test (x ∷ xs) = let rest = filter test xs in if test x then x ∷ rest else rest

  -- The first row that passes, as `db.scalar` and `db.get` return it.
  abbrev pub find? : (A → Bool) → List A → Option A
  find? test [] = none
  find? test (x ∷ xs) = let rest = find? test xs in if test x then some x else rest

  -- A stable sort: `sorted` and ORDER BY, by a test that says that a row may stand before another.
  abbrev pub insert_by : (A → A → Bool) → A → List A → List A
  insert_by before a [] = a ∷ []
  insert_by before a (x ∷ xs) =
      let rest = insert_by before a xs in if before a x then a ∷ (x ∷ xs) else x ∷ rest

  abbrev pub sort_by : (A → A → Bool) → List A → List A
  sort_by before [] = []
  sort_by before (x ∷ xs) = insert_by before x (sort_by before xs)

-- Nested loops over lists.
abbrev pub flat_map {ℓ κ} : {A : Type ℓ} {B : Type κ} → (A → List B) → List A → List B
flat_map f [] = []
flat_map f (x ∷ xs) = f x ++ flat_map f xs

-- Membership.
abbrev pub Has : {A : Type 0} → A → List A → Type 0
Has a [] = ⊥
Has a (x ∷ xs) = (a ≡ x) ⊎ Has a xs

-- What holds of every element.
abbrev pub All : {A : Type 0} → (A → Type 0) → List A → Type 0
All P [] = Unit
All P (x ∷ xs) = P x × All P xs

module _ {A : Type 0} (test : A → Bool) where
  pub any→Has : (xs : List A) → any test xs ≡ true → (a : A) × Has a xs × (test a ≡ true)
  any→Has (x ∷ xs) h = elim (Bool-cases (test x)) [
    | inl e ↦ (x, inl refl, e)
    | inr e ↦ let (a, m, t) = any→Has xs (rw e at h) in (a, inr m, t)
  ]
  any→Has [] h = cc

  pub Has→any : (a : A) (xs : List A) → Has a xs → test a ≡ true → any test xs ≡ true
  Has→any a (x ∷ xs) (inl e) t = rw (← e) (rw t)
  Has→any a (x ∷ xs) (inr m) t = ground (arith, Has→any a xs m t)
  Has→any a [] m t = absurd m

  pub Has-filter : (a : A) (xs : List A) → Has a xs → test a ≡ true → Has a (filter test xs)
  Has-filter a (x ∷ xs) (inl e) t = rw (← e) (rw t (inl refl))
  Has-filter a (x ∷ xs) (inr m) t = elim (Bool-cases (test x)) [
    | inl e ↦ rw e (inr (Has-filter a xs m t))
    | inr e ↦ rw e (Has-filter a xs m t)
  ]
  Has-filter a [] m t = absurd m

  Has-kept :
      {a x : A} (xs : List A)
      → test x ≡ true
      → (Has a (filter test xs) → Has a xs × (test a ≡ true))
      → Has a (x ∷ filter test xs)
      → Has a (x ∷ xs) × (test a ≡ true)
  Has-kept xs e rest (inl p) = (inl p, rw p e)
  Has-kept xs e rest (inr n) = let (r, t) = rest n in (inr r, t)

  pub filter-Has : (a : A) (xs : List A) → Has a (filter test xs) → Has a xs × (test a ≡ true)
  filter-Has a (x ∷ xs) m = elim (Bool-cases (test x)) [
    | inl e ↦ Has-kept xs e (filter-Has a xs) (rw e at m)
    | inr e ↦ let (n, t) = filter-Has a xs (rw e at m) in (inr n, t)
  ]
  filter-Has a [] m = absurd m

  pub find?-some : (xs : List A) (a : A) → find? test xs ≡ some a → Has a xs × (test a ≡ true)
  find?-some (x ∷ xs) a h = elim (Bool-cases (test x)) [
    | inl e ↦ (inl (ground arith), ground arith)
    | inr e ↦ let (n, t) = find?-some xs a (rw e at h) in (inr n, t)
  ]
  find?-some [] a h = cc

under : {P Q R : Type 0} → (P → Q) → R ⊎ P → R ⊎ Q
under f (inl r) = inl r
under f (inr p) = inr (f p)

module _ {A : Type 0} where
  pub Has-append_left : (a : A) (xs ys : List A) → Has a xs → Has a (xs ++ ys)
  Has-append_left a (x ∷ xs) ys (inl e) = inl e
  Has-append_left a (x ∷ xs) ys (inr m) = inr (Has-append_left a xs ys m)
  Has-append_left a [] ys m = absurd m

  pub Has-append_right : (a : A) (xs ys : List A) → Has a ys → Has a (xs ++ ys)
  Has-append_right a [] ys m = m
  Has-append_right a (x ∷ xs) ys m = inr (Has-append_right a xs ys m)

  pub append-Has : (a : A) (xs ys : List A) → Has a (xs ++ ys) → Has a xs ⊎ Has a ys
  append-Has a [] ys m = inr m
  append-Has a (x ∷ xs) ys (inl e) = inl (inl e)
  append-Has a (x ∷ xs) ys (inr m) = elim (append-Has a xs ys m) [
    | inl n ↦ inl (inr n)
    | inr n ↦ inr n
  ]

  swap_sum : {x y : A} {P : Type 0} {a : A} → (a ≡ x) ⊎ ((a ≡ y) ⊎ P) → (a ≡ y) ⊎ ((a ≡ x) ⊎ P)
  swap_sum (inl e) = inr (inl e)
  swap_sum (inr (inl e)) = inl e
  swap_sum (inr (inr m)) = inr (inr m)

  pub Has-insert_by :
      (before : A → A → Bool) (a x : A) (xs : List A)
      → Has a (x ∷ xs)
      → Has a (insert_by before x xs)
  Has-insert_by before a x [] m = m
  Has-insert_by before a x (y ∷ ys) m = elim (Bool-cases (before x y)) [
    | inl e ↦ rw e m
    | inr e ↦ rw e (under (Has-insert_by before a x ys) (swap_sum m))
  ]

  pub insert_by-Has :
      (before : A → A → Bool) (a x : A) (xs : List A)
      → Has a (insert_by before x xs)
      → Has a (x ∷ xs)
  insert_by-Has before a x [] m = m
  insert_by-Has before a x (y ∷ ys) m = elim (Bool-cases (before x y)) [
    | inl e ↦ rw e at m
    | inr e ↦ swap_sum (under (insert_by-Has before a x ys) (rw e at m))
  ]

  pub Has-sort_by :
      (before : A → A → Bool) (a : A) (xs : List A) → Has a xs → Has a (sort_by before xs)
  Has-sort_by before a [] m = m
  Has-sort_by before a (x ∷ xs) m =
      Has-insert_by before a x (sort_by before xs) (under (Has-sort_by before a xs) m)

  pub sort_by-Has :
      (before : A → A → Bool) (a : A) (xs : List A) → Has a (sort_by before xs) → Has a xs
  sort_by-Has before a [] m = m
  sort_by-Has before a (x ∷ xs) m =
      under (sort_by-Has before a xs) (insert_by-Has before a x (sort_by before xs) m)

module _ {A B : Type 0} (f : A → List B) where
  pub Has-flat_map : (a : A) (b : B) (xs : List A) → Has a xs → Has b (f a) → Has b (flat_map f xs)
  Has-flat_map a b (x ∷ xs) (inl e) n = Has-append_left b (f x) (flat_map f xs) (rw (← e) n)
  Has-flat_map a b (x ∷ xs) (inr m) n =
      Has-append_right b (f x) (flat_map f xs) (Has-flat_map a b xs m n)
  Has-flat_map a b [] m n = absurd m

  pub flat_map-Has :
      (b : B) (xs : List A) → Has b (flat_map f xs) → (a : A) × Has a xs × Has b (f a)
  flat_map-Has b (x ∷ xs) m = elim (append-Has b (f x) (flat_map f xs) m) [
    | inl n ↦ (x, inl refl, n)
    | inr n ↦ let (a, h, k) = flat_map-Has b xs n in (a, inr h, k)
  ]
  flat_map-Has b [] m = absurd m

-- A test that holds on each of some consecutive numbers.
abbrev pub holds_from : (ℕ → Bool) → ℕ → ℕ → Bool
holds_from test start zero = true
holds_from test start (suc n) = test start && holds_from test (suc start) n

pub holds_from-each :
    (test : ℕ → Bool) (start n : ℕ)
    → holds_from test start n ≡ true
    → (i : ℕ) → start ≤ i
    → i < start + n
    → test i ≡ true
holds_from-each test start zero h i le lt = absurd (omega arith)
holds_from-each test start (suc n) h i le lt = elim (Bool-cases (i == start)) [
  | inl e ↦ ground arith
  | inr e ↦ holds_from-each test (suc start) n (ground arith) i (ground arith) (omega arith)
]
