-- ===== src/Rostering/Conflicts/Matches.antt =====
-- What two rows share when the code matches them, a person or a vehicle, and when they meet.
use on_track_rostering.Prelude.{
  ℕ, ◌<◌, true, Option, List, [], ◌∷◌, ◌++◌, ◌≡◌, ◌⊎◌, inl, inr, refl, sym, ◌∙◌, some, none, opt_eq,
  arith, String, Has, Bool-cases, ap,
}
use on_track_rostering.Enums.{is_vehicle}
use on_track_rostering.Rostering.Models.{Assignment}
use on_track_rostering.Clock.{Date, DateTime}
use on_track_rostering.Rostering.Travel.Interval.{EffectivePersonInterval}
use on_track_rostering.Rostering.Conflicts.{
  overlap, matches, person_match, vehicle_match, ConflictKind, person, vehicle,
}

-- The two rows have the person, or both travel in the vehicle, of an identifier.
abbrev pub IsShared : Assignment → Assignment → ConflictKind → ℕ → Type 0
IsShared row other kind subject =
    ((kind ≡ person) × (row.person_id ≡ some subject) × (other.person_id ≡ some subject))
    ⊎ ((kind ≡ vehicle)
        × (row.vehicle_id ≡ some subject)
        × (other.vehicle_id ≡ some subject)
        × (is_vehicle row.transport_mode ≡ true)
        × (is_vehicle other.transport_mode ≡ true))

opt_eq-some : (o : Option ℕ) (n : ℕ) → opt_eq o (some n) ≡ true → o ≡ some n
opt_eq-some none n h = cc
opt_eq-some (some m) n h = ground arith

person_match-IsShared :
    (row other : Assignment) (o : Option ℕ) (kind : ConflictKind) (subject : ℕ) (name : String)
    → row.person_id ≡ o
    → Has (kind, subject, name) (person_match row other)
    → IsShared row other kind subject
person_match-IsShared row other none kind subject name e m = absurd (rw e at m)
person_match-IsShared row other (some p) kind subject name e m =
    elim (Bool-cases (opt_eq other.person_id (some p))) [
      | inr n ↦ absurd (rw (e, n) at m)
      | inl h ↦ elim (rw (e, h) at m) [
        | inr n ↦ absurd n
        | inl q ↦
            let same : subject ≡ p = ap (λ (x : ConflictKind × ℕ × String). x.1) q in
            inl (
              ap (λ (x : ConflictKind × ℕ × String). x.0) q,
              e ∙ ap some (sym same),
              opt_eq-some other.person_id p h ∙ ap some (sym same),
            )
      ]
    ]

vehicle_match-IsShared :
    (row other : Assignment) (o : Option ℕ) (kind : ConflictKind) (subject : ℕ) (name : String)
    → row.vehicle_id ≡ o
    → Has (kind, subject, name) (vehicle_match row other)
    → IsShared row other kind subject
vehicle_match-IsShared row other none kind subject name e m = absurd (rw e at m)
vehicle_match-IsShared row other (some v) kind subject name e m =
    elim (Bool-cases (is_vehicle row.transport_mode)) [
      | inr n ↦ absurd (rw (e, n) at m)
      | inl mine ↦ elim (Bool-cases (is_vehicle other.transport_mode)) [
        | inr n ↦ absurd (rw (e, mine, n) at m)
        | inl theirs ↦ elim (Bool-cases (opt_eq other.vehicle_id (some v))) [
          | inr n ↦ absurd (rw (e, mine, theirs, n) at m)
          | inl h ↦ elim (rw (e, mine, theirs, h) at m) [
            | inr n ↦ absurd n
            | inl q ↦
                let same : subject ≡ v = ap (λ (x : ConflictKind × ℕ × String). x.1) q in
                inr (
                  ap (λ (x : ConflictKind × ℕ × String). x.0) q,
                  e ∙ ap some (sym same),
                  opt_eq-some other.vehicle_id v h ∙ ap some (sym same),
                  mine,
                  theirs,
                )
          ]
        ]
      ]
    ]

append-Has : {A : Type 0} (x : A) (xs ys : List A) → Has x (xs ++ ys) → Has x xs ⊎ Has x ys
append-Has x [] ys m = inr m
append-Has x (y ∷ xs) ys (inl e) = inl (inl e)
append-Has x (y ∷ xs) ys (inr m) = elim (append-Has x xs ys m) [
  | inl n ↦ inl (inr n)
  | inr n ↦ inr n
]

pub matches-IsShared :
    (row other : Assignment) (kind : ConflictKind) (subject : ℕ) (name : String)
    → Has (kind, subject, name) (matches row other)
    → IsShared row other kind subject
unfolding matches
matches-IsShared row other kind subject name m =
    elim (append-Has (kind, subject, name) (person_match row other) (vehicle_match row other) m) [
      | inl n ↦ person_match-IsShared row other row.person_id kind subject name refl n
      | inr n ↦ vehicle_match-IsShared row other row.vehicle_id kind subject name refl n
    ]

-- Two intervals meet: each starts before the other finishes, and where an end is not known the two
-- work dates are the same.
abbrev pub IsMeeting : EffectivePersonInterval → EffectivePersonInterval → Date → Date → Type 0
IsMeeting left right left_date right_date =
    ((ls lf rs rf : DateTime)
      → left.start ≡ some ls
      → left.finish ≡ some lf
      → right.start ≡ some rs
      → right.finish ≡ some rf
      → (ls < rf) × (rs < lf))
    × (((left.start ≡ none)
          ⊎ ((left.finish ≡ none) ⊎ ((right.start ≡ none) ⊎ (right.finish ≡ none))))
        → left_date ≡ right_date)

pub overlap-IsMeeting :
    (left right : EffectivePersonInterval) (left_date right_date : Date)
    → (overlap left right left_date right_date).0 ≡ true
    → IsMeeting left right left_date right_date
unfolding overlap
overlap-IsMeeting left right left_date right_date h = (
  λ ls lf rs rf a b c d. (ground arith, ground arith),
  λ missing. elim missing [
    | inl a ↦ ground arith
    | inr (inl b) ↦ ground arith
    | inr (inr (inl c)) ↦ ground arith
    | inr (inr (inr d)) ↦ ground arith
  ],
)
