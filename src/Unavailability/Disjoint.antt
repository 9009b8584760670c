-- ===== src/Unavailability/Disjoint.antt =====
-- The active leave of a person never overlaps.
use on_track_rostering.Prelude.{
  ℕ, ◌≤◌, Bool, false, ◌&&◌, not, List, [], ◌∷◌, ◌++◌, String, ◌≡◌, subst, arith, inl, inr, All,
  Bool-cases, filter, find?, leb, is_none, ltb, length, ◌==◌,
}
use on_track_rostering.Text.{strip, codes}
use on_track_rostering.Errors.{ok, >>=-eq-ok, ok-injective, reject_if-eq-ok}
use on_track_rostering.Clock.{Date, DateTime}
use on_track_rostering.Identity.{Person}
use on_track_rostering.Rostering.Drafts.Copy.{require}
use on_track_rostering.Unavailability.{
  PersonUnavailability, LeaveTables, is_overlapping, active_overlapping, is_any, new_leave,
  add_leave, create_unavailability, cancelled_leave, cancel_row, cancel_unavailability,
  ends_before_start, note_too_long, no_such_person, already_on_leave, already_cancelled,
}

-- Two records that are both active, of one person, and share a day.
abbrev pub clash : PersonUnavailability → PersonUnavailability → Bool
clash x y =
    x.person_id == y.person_id
    && is_none x.cancelled_at
    && is_none y.cancelled_at
    && leb x.start_date y.end_date
    && leb y.start_date x.end_date

-- No record clashes with a later one, and every record ends on or after its start.
abbrev pub IsDisjoint : List PersonUnavailability → Type 0
IsDisjoint [] = Unit
IsDisjoint (x ∷ xs) =
    (x.start_date ≤ x.end_date)
    × All (λ (y : PersonUnavailability). clash x y ≡ false) xs
    × IsDisjoint xs

none_overlap :
    (test : PersonUnavailability → Bool) (x : PersonUnavailability) (xs : List PersonUnavailability)
    → is_any (filter test (x ∷ xs)) ≡ false
    → (test x ≡ false) × (is_any (filter test xs) ≡ false)
none_overlap test x xs h = elim (Bool-cases (test x)) [
  | inl e ↦ cc (rw e at h)
  | inr e ↦ (e, rw e at h)
]

All-append :
    (P : PersonUnavailability → Type 0) (xs : List PersonUnavailability) (y : PersonUnavailability)
    → All P xs
    → P y
    → All P (xs ++ y ∷ [])
All-append P [] y h p = (p, tt)
All-append P (x ∷ xs) y h p = (h.0, All-append P xs y h.1 p)

append-IsDisjoint :
    (xs : List PersonUnavailability) (y : PersonUnavailability)
    → IsDisjoint xs
    → y.start_date ≤ y.end_date
    → is_any (filter (is_overlapping y.person_id y.start_date y.end_date) xs) ≡ false
    → IsDisjoint (xs ++ y ∷ [])
append-IsDisjoint [] y d v h = (v, tt, tt)
append-IsDisjoint (x ∷ xs) y (own, apart, rest) v h =
    let (free, more) = none_overlap (is_overlapping y.person_id y.start_date y.end_date) x xs h in
    (
      own,
      All-append (λ (z : PersonUnavailability). clash x z ≡ false) xs y apart (ground arith),
      append-IsDisjoint xs y rest v more,
    )

cancel_row-apart :
    (x : PersonUnavailability) (id : ℕ) (now : DateTime) (actor : ℕ)
    (ys : List PersonUnavailability)
    → All (λ (y : PersonUnavailability). clash x y ≡ false) ys
    → All (λ (y : PersonUnavailability). clash x y ≡ false) (cancel_row id now actor ys)
cancel_row-apart x id now actor [] h = tt
cancel_row-apart x id now actor (y ∷ ys) h = elim (Bool-cases (y.id == id)) [
  | inl e ↦ rw e (ground arith, cancel_row-apart x id now actor ys h.1)
  | inr e ↦ rw e (h.0, cancel_row-apart x id now actor ys h.1)
]

cancelled_leave-apart :
    (x : PersonUnavailability) (now : DateTime) (actor : ℕ) (ys : List PersonUnavailability)
    → All (λ (y : PersonUnavailability). clash x y ≡ false) ys
    → All (λ (y : PersonUnavailability). clash (cancelled_leave now actor x) y ≡ false) ys
cancelled_leave-apart x now actor [] h = tt
cancelled_leave-apart x now actor (y ∷ ys) h =
    (ground arith, cancelled_leave-apart x now actor ys h.1)

cancel_row-IsDisjoint :
    (id : ℕ) (now : DateTime) (actor : ℕ) (xs : List PersonUnavailability)
    → IsDisjoint xs
    → IsDisjoint (cancel_row id now actor xs)
cancel_row-IsDisjoint id now actor [] d = tt
cancel_row-IsDisjoint id now actor (x ∷ xs) (own, apart, rest) =
    let later = cancel_row-apart x id now actor xs apart in
    let more = cancel_row-IsDisjoint id now actor xs rest in
    elim (Bool-cases (x.id == id)) [
      | inl e ↦
          rw e (own, cancelled_leave-apart x now actor (cancel_row id now actor xs) later, more)
      | inr e ↦ rw e (own, later, more)
    ]

create-IsDisjoint :
    (db : LeaveTables) (person : ℕ) (start end : Date) (note : String) (actor : ℕ)
    (after : LeaveTables) (row : PersonUnavailability)
    → create_unavailability db person start end note actor ≡ ok (after, row)
    → IsDisjoint db.leave
    → IsDisjoint after.leave
unfolding create_unavailability active_overlapping add_leave
create-IsDisjoint db person_id start end note actor after row h d =
    let (valid, r1) = reject_if-eq-ok (ltb end start) ends_before_start _ h in
    let (_, r2) = reject_if-eq-ok (ltb 1000 (length (codes (strip note)))) note_too_long _ r1 in
    let (person, _, r3) =
      >>=-eq-ok (require (find? (λ (p : Person). p.id == person_id) db.people) no_such_person) _
        r2 in
    let (free, done) =
      reject_if-eq-ok (is_any (active_overlapping db person.id start end)) already_on_leave _ r3 in
    subst (λ (p : LeaveTables × PersonUnavailability). IsDisjoint p.0.leave) (ok-injective done)
      (append-IsDisjoint db.leave (new_leave db.next_id person.id start end (strip note) actor) d
        (ground arith) free)

cancel-IsDisjoint :
    (db : LeaveTables) (row : PersonUnavailability) (actor : ℕ) (now : DateTime)
    (after : LeaveTables)
    → cancel_unavailability db row actor now ≡ ok after
    → IsDisjoint db.leave
    → IsDisjoint after.leave
unfolding cancel_unavailability
cancel-IsDisjoint db row actor now after h d =
    let (_, done) = reject_if-eq-ok (not (is_none row.cancelled_at)) already_cancelled _ h in
    subst (λ (x : LeaveTables). IsDisjoint x.leave) (ok-injective done)
      (cancel_row-IsDisjoint row.id now actor db.leave d)

-- One successful operation on the leave, and any number of them.
pub data LeaveSteps : LeaveTables → LeaveTables → Type 0 where
  stay : {db : LeaveTables} → LeaveSteps db db
  creates :
      {db mid after : LeaveTables} (person : ℕ) (start end : Date) (note : String) (actor : ℕ)
      (row : PersonUnavailability)
      → LeaveSteps db mid
      → create_unavailability mid person start end note actor ≡ ok (after, row)
      → LeaveSteps db after
  cancels :
      {db mid after : LeaveTables} (row : PersonUnavailability) (actor : ℕ) (now : DateTime)
      → LeaveSteps db mid
      → cancel_unavailability mid row actor now ≡ ok after
      → LeaveSteps db after

-- Whatever leave is created and cancelled from a table in which no two active records of a person
-- share a day and every record ends on or after its start, the table that is reached is one.
pub LeaveSteps-IsDisjoint :
    {db after : LeaveTables} → LeaveSteps db after → IsDisjoint db.leave → IsDisjoint after.leave
LeaveSteps-IsDisjoint stay d = d
LeaveSteps-IsDisjoint (creates person start end note actor row before h) d =
    create-IsDisjoint _ person start end note actor _ row h (LeaveSteps-IsDisjoint before d)
LeaveSteps-IsDisjoint (cancels row actor now before h) d =
    cancel-IsDisjoint _ row actor now _ h (LeaveSteps-IsDisjoint before d)
