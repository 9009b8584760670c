-- ===== src/Participation/Travellers.antt =====
-- Who travels by the standard plan of a parent workday, as the tables say it.
use on_track_rostering.Prelude.{
  ℕ, Bool, true, false, ◌&&◌, Option, none, some, List, [], ◌∷◌, ◌≡◌, refl, subst, arith, inl, inr,
  Has, opt_eq, any, Bool-cases, ◌==◌, ==_iff,
}
use on_track_rostering.Enums.{WorkdayStatus, AssignmentStatus, is_scheduled, is_assigned}
use on_track_rostering.Rostering.Models.{Assignment, PersonalWorkdayEntry}
use on_track_rostering.Rostering.Store.{Store}
use on_track_rostering.Participation.{is_travel_candidate, is_participant, is_opted_out}

module _ {A : Type 0} (p : A → Bool) where
  any-Has : (xs : List A) → any p xs ≡ true → (x : A) × Has x xs × (p x ≡ true)
  any-Has [] h = cc
  any-Has (x ∷ xs) h = elim (Bool-cases (p x)) [
    | inl e ↦ (x, inl refl, e)
    | inr e ↦ let (y, m, t) = any-Has xs (rw e at h) in (y, inr m, t)
  ]

  Has-any : (x : A) (xs : List A) → Has x xs → p x ≡ true → any p xs ≡ true
  Has-any x (y ∷ ys) (inl e) t =
      let found : p y ≡ true = subst (λ z. p z ≡ true) e t in rw found refl
  Has-any x (y ∷ ys) (inr m) t = elim (Bool-cases (p y)) [
    | inl e ↦ rw e refl
    | inr e ↦ rw e (Has-any x ys m t)
  ]
  Has-any x [] m t = absurd m

  any-none : (xs : List A) → ((x : A) → Has x xs → p x ≡ false) → any p xs ≡ false
  any-none [] h = refl
  any-none (x ∷ xs) h = rw (h x (inl refl)) (any-none xs (λ y m. h y (inr m)))

pub is_scheduled-status : (s : WorkdayStatus) → is_scheduled s ≡ true → s ≡ WorkdayStatus.scheduled
is_scheduled-status WorkdayStatus.scheduled h = refl
is_scheduled-status WorkdayStatus.cancelled h = cc
is_scheduled-status WorkdayStatus.abandoned h = cc

is_assigned-status : (s : AssignmentStatus) → is_assigned s ≡ true → s ≡ AssignmentStatus.assigned
is_assigned-status AssignmentStatus.assigned h = refl
is_assigned-status AssignmentStatus.open_slot h = cc
is_assigned-status AssignmentStatus.tbc h = cc
is_assigned-status AssignmentStatus.manager_action_required h = cc

pub opt_eq-some : (o : Option ℕ) (n : ℕ) → opt_eq o (some n) ≡ true → o ≡ some n
opt_eq-some none n h = cc
opt_eq-some (some m) n h = ground arith

pub opt_eq_refl : (o : Option ℕ) (n : ℕ) → o ≡ some n → opt_eq o (some n) ≡ true
opt_eq_refl none n h = cc
opt_eq_refl (some m) n h = ground arith

-- One of the rows is assigned to the person.
abbrev pub IsCandidate : List Assignment → ℕ → Type 0
IsCandidate rows person =
    (a : Assignment) × Has a rows
    × (a.person_id ≡ some person)
    × (a.status ≡ AssignmentStatus.assigned)

-- A stored row of the revision is assigned to the person and uses the standard travel.
abbrev pub IsTraveller : Store → ℕ → ℕ → Type 0
IsTraveller db revision person =
    (a : Assignment) × Has a db.assignments
    × (a.revision_id ≡ revision)
    × (a.person_id ≡ some person)
    × (a.status ≡ AssignmentStatus.assigned)
    × (a.uses_standard_travel ≡ true)

-- No stored entry of the person for the workday opts out.
abbrev pub IsWithoutOptOut : Store → ℕ → ℕ → Type 0
IsWithoutOptOut db parent person =
    (e : PersonalWorkdayEntry)
    → Has e db.entries
    → e.workday_id ≡ parent
    → e.person_id ≡ person
    → e.standard_travel_opt_out ≡ false

pub is_travel_candidate-IsCandidate :
    (rows : List Assignment) (person : ℕ)
    → is_travel_candidate rows person ≡ true
    → IsCandidate rows person
is_travel_candidate-IsCandidate rows person h =
    let test = λ (a : Assignment). is_assigned a.status && opt_eq a.person_id (some person) in
    let (a, m, t) = any-Has test rows h in
    let held : opt_eq a.person_id (some person) ≡ true = ground arith in
    let status : is_assigned a.status ≡ true = ground arith in
    (a, m, opt_eq-some a.person_id person held, is_assigned-status a.status status)

pub IsCandidate-is_travel_candidate :
    (rows : List Assignment) (person : ℕ)
    → IsCandidate rows person
    → is_travel_candidate rows person ≡ true
IsCandidate-is_travel_candidate rows person (a, m, held, status) =
    Has-any (λ (a : Assignment). is_assigned a.status && opt_eq a.person_id (some person)) a rows m
      (rw (status, opt_eq_refl a.person_id person held) refl)

pub is_participant-IsTraveller :
    (db : Store) (revision person : ℕ)
    → is_participant db revision person ≡ true
    → IsTraveller db revision person
is_participant-IsTraveller db revision person h =
    let test = λ (a : Assignment).
      a.revision_id == revision
      && opt_eq a.person_id (some person)
      && is_assigned a.status
      && a.uses_standard_travel in
    let (a, m, t) = any-Has test db.assignments h in
    let held : opt_eq a.person_id (some person) ≡ true = ground arith in
    let status : is_assigned a.status ≡ true = ground arith in
    (
      a,
      m,
      ground arith,
      opt_eq-some a.person_id person held,
      is_assigned-status a.status status,
      ground arith,
    )

pub IsTraveller-is_participant :
    (db : Store) (revision person : ℕ)
    → IsTraveller db revision person
    → is_participant db revision person ≡ true
IsTraveller-is_participant db revision person (a, m, own, held, status, standard) =
    Has-any
      (λ (a : Assignment).
        a.revision_id == revision
        && opt_eq a.person_id (some person)
        && is_assigned a.status
        && a.uses_standard_travel)
      a db.assignments m
      (rw
        (
          (==_iff a.revision_id revision).1 own,
          opt_eq_refl a.person_id person held,
          status,
          standard,
        )
        refl)

pub is_opted_out-IsWithoutOptOut :
    (db : Store) (parent person : ℕ)
    → is_opted_out db parent person ≡ false
    → IsWithoutOptOut db parent person
is_opted_out-IsWithoutOptOut db parent person h e m at_parent of_person =
    elim (Bool-cases e.standard_travel_opt_out) [
      | inr out ↦ out
      | inl out ↦
          let found : is_opted_out db parent person ≡ true =
            Has-any
              (λ (e : PersonalWorkdayEntry).
                e.workday_id == parent && e.person_id == person && e.standard_travel_opt_out)
              e db.entries m
              (rw
                (
                  (==_iff e.workday_id parent).1 at_parent,
                  (==_iff e.person_id person).1 of_person,
                  out,
                )
                refl) in
          cc
    ]

pub IsWithoutOptOut-is_opted_out :
    (db : Store) (parent person : ℕ)
    → IsWithoutOptOut db parent person
    → is_opted_out db parent person ≡ false
IsWithoutOptOut-is_opted_out db parent person stays =
    any-none
      (λ (e : PersonalWorkdayEntry).
        e.workday_id == parent && e.person_id == person && e.standard_travel_opt_out)
      db.entries λ e m. left_out e m
  where
    left_out :
        (e : PersonalWorkdayEntry)
        → Has e db.entries
        → (e.workday_id == parent && e.person_id == person && e.standard_travel_opt_out) ≡ false
    left_out e m = elim (Bool-cases (e.workday_id == parent)) [
      | inr n ↦ rw n refl
      | inl w ↦ elim (Bool-cases (e.person_id == person)) [
        | inr n ↦ rw (w, n) refl
        | inl p ↦
            rw (w, p)
              (stays e m ((==_iff e.workday_id parent).0 w) ((==_iff e.person_id person).0 p))
      ]
    ]
