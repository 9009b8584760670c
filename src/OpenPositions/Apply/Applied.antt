-- ===== src/OpenPositions/Apply/Applied.antt =====
-- What a successful application has checked, and what it leaves.
use on_track_rostering.Prelude.{
  ℕ, true, false, ◌&&◌, ◌||◌, not, Option, none, some, [], ◌∷◌, String, ◌≡◌, refl, subst, arith,
  inl, inr, Has, Has-append_right, Bool-cases, find?-some, opt_eq, ◌==◌, is_none, is_some,
}
use on_track_rostering.Enums.{is_scheduled, is_open_slot}
use on_track_rostering.Errors.{ok, >>=-eq-ok, ok-injective, permission_error, reject_if-eq-ok}
use on_track_rostering.Auth.Policy.{Actor}
use on_track_rostering.Positions.Bulk.{eligibility}
use on_track_rostering.Rostering.Models.{Workday, Assignment, OpenPositionApplication}
use on_track_rostering.Rostering.Store.{Store, SameRoster, SameRoster-refl, get_workday}
use on_track_rostering.Rostering.Drafts.Copy.{require, require-eq-ok}
use on_track_rostering.OpenPositions.Apply.{
  no_longer_available, no_access, reason_text, applicant, open_slot, existing_application,
  is_open_application, new_application, add_application, applied_or_new, apply_for_position,
}

-- The application stands in the store, is open, and is the person's for the slot.
pub record IsApplied (db after : Store) (slot : Assignment) (person : ℕ)
    (application : OpenPositionApplication) : Type 0 where
  pub stored : Has application after.applications
  pub is_open : is_open_application application.status ≡ true
  pub of_revision : application.revision_id ≡ slot.revision_id
  pub of_slot : application.slot_key ≡ slot.slot_key
  pub of_person : application.person_id ≡ person
  pub roster : SameRoster db after

applied_or_new-IsApplied :
    (db : Store) (slot : Assignment) (person : ℕ) (old : Option OpenPositionApplication)
    (after : Store) (application : OpenPositionApplication)
    → existing_application db slot person ≡ old
    → applied_or_new db slot person old ≡ ok (after, application)
    → IsApplied db after slot person application
unfolding add_application existing_application
applied_or_new-IsApplied db slot person none after application h done =
    let new = new_application db.next_id slot person in
    subst (λ (p : Store × OpenPositionApplication). IsApplied db p.0 slot person p.1)
      (ok-injective done)
      (record {
        stored = Has-append_right new db.applications (new ∷ []) (inl refl);
        is_open = refl;
        of_revision = refl;
        of_slot = refl;
        of_person = refl;
        roster = record {
          workdays = refl;
          revisions = refl;
          assignments = refl;
          next_id = omega arith;
        };
      })
applied_or_new-IsApplied db slot person (some a) after application h done =
    elim (Bool-cases (is_open_application a.status)) [
      | inr e ↦ cc (rw e at done)
      | inl e ↦
          let (held, test) = found_row h in
          subst (λ (p : Store × OpenPositionApplication). IsApplied db p.0 slot person p.1)
            (ok-injective (rw e at done))
            (record {
              stored = held;
              is_open = e;
              of_revision = ground arith;
              of_slot = ground arith;
              of_person = ground arith;
              roster = SameRoster-refl db;
            })
    ]
  where
    found_row :
        existing_application db slot person ≡ some a
        → Has a db.applications
          × ((a.revision_id == slot.revision_id
                && a.slot_key == slot.slot_key
                && a.person_id == person)
              ≡ true)
    found_row e =
        find?-some
          (λ (x : OpenPositionApplication).
            x.revision_id == slot.revision_id
            && x.slot_key == slot.slot_key
            && x.person_id == person)
          db.applications a e

open_slot-Has :
    (db : Store) (workday : Workday) (slot_key : ℕ) (a : Assignment)
    → open_slot db workday slot_key ≡ some a
    → Has a db.assignments
      × (workday.current_published_revision_id ≡ some a.revision_id)
      × (a.slot_key ≡ slot_key)
      × (is_open_slot a.status ≡ true)
unfolding open_slot
open_slot-Has db workday slot_key a h =
    let (m, t) =
      find?-some
        (λ (x : Assignment).
          opt_eq workday.current_published_revision_id (some x.revision_id)
          && x.slot_key == slot_key
          && is_open_slot x.status
          && is_some x.base_position_id)
        db.assignments a h in
    (m, names workday.current_published_revision_id (ground arith), ground arith, ground arith)
  where
    names : (o : Option ℕ) → opt_eq o (some a.revision_id) ≡ true → o ≡ some a.revision_id
    names none e = cc
    names (some n) e = ground arith

-- An application that succeeds is of a person who may apply in the region and is eligible for the
-- position, for an open slot of the current publication of a scheduled workday. It then stands in the
-- store, open, for that person and slot, and the roster is as it was.
pub apply_for_position_applies :
    (canonical : String → String) (db : Store) (actor : Actor) (w slot_key : ℕ) (after : Store)
    (application : OpenPositionApplication)
    → apply_for_position canonical db actor w slot_key ≡ ok (after, application)
    → (workday : Workday) × (slot : Assignment) × (person : ℕ) × (position : ℕ) × (get_workday db w
        ≡ some workday)
      × (is_scheduled workday.status ≡ true)
      × (applicant actor workday.region_id ≡ some person)
      × (Has slot db.assignments
          × (workday.current_published_revision_id ≡ some slot.revision_id)
          × (slot.slot_key ≡ slot_key)
          × (is_open_slot slot.status ≡ true))
      × (slot.base_position_id ≡ some position)
      × ((eligibility canonical db person position).0 ≡ true)
      × IsApplied db after slot person application
unfolding apply_for_position
apply_for_position_applies canonical db actor w slot_key after application h =
    let (workday, found, r1) = >>=-eq-ok (require (get_workday db w) no_longer_available) _ h in
    let (there, r2) =
      reject_if-eq-ok
        (is_none workday.current_published_revision_id || not (is_scheduled workday.status))
        no_longer_available _ r1 in
    let (person, who, r3) =
      >>=-eq-ok (require (applicant actor workday.region_id) no_access) _ r2 in
    let (slot, opened, r4) =
      >>=-eq-ok (require (open_slot db workday slot_key) no_longer_available) _ r3 in
    let (position, held, r5) = >>=-eq-ok (require slot.base_position_id no_longer_available) _ r4 in
    let answer = eligibility canonical db person position in
    let (eligible, done) =
      reject_if-eq-ok (not answer.0) (permission_error (reason_text answer.1)) _ r5 in
    let first : not answer.0 ≡ false = eligible in
    (
      workday,
      slot,
      person,
      position,
      require-eq-ok _ no_longer_available workday found,
      ground arith,
      require-eq-ok _ no_access person who,
      open_slot-Has db workday slot_key slot (require-eq-ok _ no_longer_available slot opened),
      require-eq-ok _ no_longer_available position held,
      ground arith,
      applied_or_new-IsApplied db slot person (existing_application db slot person) after
          application refl done,
    )

pub apply_for_position-SameRoster :
    (canonical : String → String) (db : Store) (actor : Actor) (w slot_key : ℕ) (after : Store)
    (application : OpenPositionApplication)
    → apply_for_position canonical db actor w slot_key ≡ ok (after, application)
    → SameRoster db after
apply_for_position-SameRoster canonical db actor w slot_key after application h =
    let (_, _, _, _, _, _, _, _, _, _, applied) =
      apply_for_position_applies canonical db actor w slot_key after application h in
    applied.roster
