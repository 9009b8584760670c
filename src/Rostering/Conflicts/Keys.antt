-- ===== src/Rostering/Conflicts/Keys.antt =====
-- Every conflict is reported once, and none is lost by comparing keys.
use on_track_rostering.Prelude.{
  Bool, true, false, List, [], ◌∷◌, ◌++◌, ◌≡◌, ◌⊎◌, inl, inr, refl, arith, any, Has, Bool-cases,
  if◌then◌else◌, append-Has,
}
use on_track_rostering.Rostering.Conflicts.{RosterConflict, same_key, append_new}

-- The key of a conflict does not match the key of any other that stands before it.
abbrev pub IsUnique : List RosterConflict → Type 0
IsUnique [] = Unit
IsUnique (c ∷ cs) = (any (λ d. same_key d c) cs ≡ false) × IsUnique cs

-- Some conflict of the list has the key.
abbrev pub IsReported : RosterConflict → List RosterConflict → Type 0
IsReported c cs = any (same_key c) cs ≡ true

pub same_key_refl : (c : RosterConflict) → same_key c c ≡ true
same_key_refl c = ground arith

pub same_key-sym : (c d : RosterConflict) → same_key c d ≡ same_key d c
same_key-sym c d = ground arith

any-append :
    (test : RosterConflict → Bool) (xs ys : List RosterConflict)
    → any test (xs ++ ys) ≡ (if any test xs then true else any test ys)
any-append test [] ys = refl
any-append test (x ∷ xs) ys = ground (arith, any-append test xs ys)

IsUnique-snoc :
    (c : RosterConflict) (cs : List RosterConflict)
    → IsUnique cs
    → any (same_key c) cs ≡ false
    → IsUnique (cs ++ c ∷ [])
IsUnique-snoc c [] u h = (refl, tt)
IsUnique-snoc c (d ∷ cs) u h = (
  rw (any-append (λ e. same_key e d) cs (c ∷ [])) (ground arith),
  IsUnique-snoc c cs u.1 (ground arith),
)

pub append_new-IsUnique :
    (acc cs : List RosterConflict) → IsUnique acc → IsUnique (append_new acc cs)
unfolding append_new
append_new-IsUnique acc [] u = u
append_new-IsUnique acc (c ∷ cs) u = elim (Bool-cases (any (same_key c) acc)) [
  | inl e ↦ rw e (append_new-IsUnique acc cs u)
  | inr e ↦ rw e (append_new-IsUnique (acc ++ c ∷ []) cs (IsUnique-snoc c acc u e))
]

-- What was reported stays reported.
append_new-keeps :
    (c : RosterConflict) (acc cs : List RosterConflict)
    → IsReported c acc
    → IsReported c (append_new acc cs)
unfolding append_new
append_new-keeps c acc [] h = h
append_new-keeps c acc (d ∷ cs) h = elim (Bool-cases (any (same_key d) acc)) [
  | inl e ↦ rw e (append_new-keeps c acc cs h)
  | inr e ↦
      rw e (append_new-keeps c (acc ++ d ∷ []) cs (rw (any-append (same_key c) acc (d ∷ []), h)))
]

-- The key of every conflict that is offered is in the result.
pub append_new-reports :
    (c : RosterConflict) (acc cs : List RosterConflict)
    → Has c cs
    → IsReported c (append_new acc cs)
unfolding append_new
append_new-reports c acc (d ∷ cs) (inl e) = elim (Bool-cases (any (same_key d) acc)) [
  | inl seen ↦ rw (e, seen) (append_new-keeps d acc cs seen)
  | inr fresh ↦
      rw (e, fresh)
        (append_new-keeps d (acc ++ d ∷ []) cs
          (rw (any-append (same_key d) acc (d ∷ []), fresh, same_key_refl d)))
]
append_new-reports c acc (d ∷ cs) (inr m) =
    append_new-reports c (if any (same_key d) acc then acc else acc ++ d ∷ []) cs m
append_new-reports c acc [] m = absurd m

-- Nothing is reported that was not offered.
pub append_new-Has :
    (c : RosterConflict) (acc cs : List RosterConflict)
    → Has c (append_new acc cs)
    → Has c acc ⊎ Has c cs
unfolding append_new
append_new-Has c acc [] m = inl m
append_new-Has c acc (d ∷ cs) m = elim (Bool-cases (any (same_key d) acc)) [
  | inl e ↦ elim (append_new-Has c acc cs (rw e at m)) [ inl n ↦ inl n | inr n ↦ inr (inr n) ]
  | inr e ↦ elim (append_new-Has c (acc ++ d ∷ []) cs (rw e at m)) [
    | inl n ↦ elim (append-Has c acc (d ∷ []) n) [
      | inl k ↦ inl k
      | inr (inl k) ↦ inr (inl k)
      | inr (inr k) ↦ absurd k
    ]
    | inr n ↦ inr (inr n)
  ]
]
