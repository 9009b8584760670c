-- ===== src/OpenPositions/Selection.antt =====
-- What a successful selection has checked, and what it leaves.
use on_track_rostering.Prelude.{
  ℕ, ◌+◌, true, false, ◌&&◌, not, Option, none, some, List, [], ◌∷◌, ◌≡◌, inl, inr, refl, subst,
  arith, ap, ◌==◌, ==_iff, opt_eq, find?-some, Has, is_none,
}
use on_track_rostering.Rostering.Drafts.Pointers.{Refers}
use on_track_rostering.Enums.{
  RevisionState, OpenApplicationStatus, AssignmentStatus, is_applied, is_active,
}
use on_track_rostering.Errors.{ok, >>=-eq-ok, ok-injective, reject_if-eq-ok}
use on_track_rostering.Identity.{Person}
use on_track_rostering.Rostering.Models.{
  Workday, WorkdayRevision, Assignment, OpenPositionApplication,
}
use on_track_rostering.Rostering.Store.{
  Store, get_workday, get_revision, get_person, assignments_of, put_assignment, set_assignment,
}
use on_track_rostering.Rostering.Drafts.Copy.{require, require-eq-ok}
use on_track_rostering.Rostering.Drafts.Edit.{bump}
use on_track_rostering.Rostering.Drafts.Fresh.{IsFresh, get_revision-fresh, put_assignment-IsFresh}
use on_track_rostering.Rostering.Drafts.Immutable.{
  KeepsPublished, IsLocked, bump-KeepsPublished, put_assignment-KeepsPublished,
}
use on_track_rostering.Rostering.Drafts.Commands.{IsEdited, IsLocked-body, bumped_workday}
use on_track_rostering.OpenPositions.{
  published_slot, draft_slot, given_to, selected_for, set_application, put_application,
  select_application, publication_changed, already_decided, unavailable,
}

-- The parts of a successful selection.
pub record IsSelection (db : Store) (w i v : ℕ) (application : OpenPositionApplication)
    (after : Store) : Type 0 where
  pub workday : Workday
  pub draft : WorkdayRevision
  pub slot : Assignment
  pub person : Person
  pub locked : IsLocked db w i v workday draft
  pub current : workday.current_published_revision_id ≡ some application.revision_id
  pub applied : is_applied application.status ≡ true
  pub slot_found : draft_slot db draft.id application.slot_key ≡ some slot
  pub person_found : get_person db application.person_id ≡ some person
  pub active : is_active person.lifecycle ≡ true
  pub written :
      bump workday (
        put_application
          (selected_for draft.id application)
          (put_assignment (given_to person slot) db))
      ≡ after

opt_eq-some : (o : Option ℕ) (n : ℕ) → not (opt_eq o (some n)) ≡ false → o ≡ some n
opt_eq-some none n h = cc
opt_eq-some (some m) n h = ground arith

pub select_application-IsSelection :
    (db : Store) (w i v : ℕ) (application : OpenPositionApplication) (after : Store)
    → select_application db w i application v ≡ ok after
    → IsSelection db w i v application after
unfolding select_application
select_application-IsSelection db w i v application after h =
    let (workday, draft, l, r1) = IsLocked-body db w i v _ after h in
    let (same, r2) =
      reject_if-eq-ok
        (not (opt_eq workday.current_published_revision_id (some application.revision_id)))
        publication_changed _ r1 in
    let (awaiting, r3) =
      reject_if-eq-ok (not (is_applied application.status)) already_decided _ r2 in
    let (_, r4) = reject_if-eq-ok (is_none (published_slot db application)) unavailable _ r3 in
    let (slot, found, r5) =
      >>=-eq-ok (require (draft_slot db draft.id application.slot_key) unavailable) _ r4 in
    let (person, known, r6) =
      >>=-eq-ok (require (get_person db application.person_id) unavailable) _ r5 in
    let (lives, done) = reject_if-eq-ok (not (is_active person.lifecycle)) unavailable _ r6 in
    record {
      workday = workday;
      draft = draft;
      slot = slot;
      person = person;
      locked = l;
      current = opt_eq-some _ application.revision_id same;
      applied = ground arith;
      slot_found = require-eq-ok _ unavailable slot found;
      person_found = require-eq-ok _ unavailable person known;
      active = ground arith;
      written = ok-injective done;
    }

draft_slot-revision :
    (db : Store) (draft_id slot_key : ℕ) (a : Assignment)
    → draft_slot db draft_id slot_key ≡ some a
    → Has a db.assignments × (a.revision_id ≡ draft_id) × (a.slot_key ≡ slot_key)
unfolding draft_slot
draft_slot-revision db draft_id slot_key a h =
    let (m, t) =
      find?-some (λ (x : Assignment). x.revision_id == draft_id && x.slot_key == slot_key)
        db.assignments a h in
    (m, ground arith, ground arith)

get_person-id : (db : Store) (id : ℕ) (p : Person) → get_person db id ≡ some p → p.id ≡ id
unfolding get_person
get_person-id db id p h =
    (==_iff p.id id).0 (find?-some (λ (x : Person). x.id == id) db.people p h).1

applied-status :
    (s : OpenApplicationStatus) → is_applied s ≡ true → s ≡ OpenApplicationStatus.applied
applied-status OpenApplicationStatus.applied h = refl
applied-status OpenApplicationStatus.selected h = cc
applied-status OpenApplicationStatus.accepted h = cc
applied-status OpenApplicationStatus.not_selected h = cc
applied-status OpenApplicationStatus.withdrawn h = cc
applied-status OpenApplicationStatus.closed h = cc

Has-set_assignment :
    (x : Assignment) (a : Assignment) (rows : List Assignment)
    → Has a rows
    → a.id ≡ x.id
    → a.revision_id ≡ x.revision_id
    → Has x (set_assignment x rows)
Has-set_assignment x a (y ∷ ys) (inl p) e r = inl (ground arith)
Has-set_assignment x a (y ∷ ys) (inr m) e r = inr (Has-set_assignment x a ys m e r)
Has-set_assignment x a [] m e r = absurd m

Has-set_application :
    (x a : OpenPositionApplication) (rows : List OpenPositionApplication)
    → Has a rows
    → a.id ≡ x.id
    → Has x (set_application x rows)
Has-set_application x a (y ∷ ys) (inl p) e = inl (ground arith)
Has-set_application x a (y ∷ ys) (inr m) e = inr (Has-set_application x a ys m e)
Has-set_application x a [] m e = absurd m

module _ {db : Store} {w i v : ℕ} {application : OpenPositionApplication} {after : Store}
    (done : IsSelection db w i v application after) where
  abbrev selected_store : Store
  selected_store =
      put_application (selected_for done.draft.id application)
        (put_assignment (given_to done.person done.slot) db)

  selected_store-KeepsPublished : KeepsPublished db selected_store
  unfolding put_application put_assignment get_revision assignments_of
  selected_store-KeepsPublished =
      put_assignment-KeepsPublished db i done.draft (given_to done.person done.slot)
        done.locked.draft_found done.locked.is_draft
        (draft_slot-revision db done.draft.id application.slot_key done.slot done.slot_found).1

  selected_store-workdays : selected_store.workdays ≡ db.workdays
  unfolding put_application put_assignment
  selected_store-workdays = refl

  selected_store-IsFresh : IsFresh db → IsFresh selected_store
  unfolding put_application
  selected_store-IsFresh f =
      let below = get_revision-fresh db i done.draft f done.locked.draft_found in
      let own =
        (draft_slot-revision db done.draft.id application.slot_key done.slot done.slot_found).1 in
      let rows =
        put_assignment-IsFresh (given_to done.person done.slot) db f (omega (arith, below, own)) in
      unfold put_assignment in
      record {
        revisions = (unfold put_assignment in rows.revisions);
        rows = (unfold put_assignment in rows.rows);
      }

  selected_store-refers :
      (id n : ℕ) (s : RevisionState) → Refers db id n s → Refers selected_store id n s
  unfolding put_application put_assignment get_revision
  selected_store-refers id n s r = r

  abbrev edited : IsEdited db w i v after
  edited = record {
    workday = done.workday;
    draft = done.draft;
    locked = done.locked;
    written = selected_store;
    bumped = done.written;
    kept = selected_store-KeepsPublished;
    same_workdays = selected_store-workdays;
    fresh = selected_store-IsFresh;
    refers = selected_store-refers;
  }

  pub IsSelection-IsEdited : IsEdited db w i v after
  IsSelection-IsEdited = edited

-- A selection that succeeds was of an application that awaits a decision on the current publication.
-- The applicant then holds an assigned row of the application's slot in the draft, the stored
-- application has the status selected and names that draft, and is otherwise as it was, the workday stands at the next version, and every
-- published revision stays as it was, with its assignments.
pub select_application-assigns :
    (db : Store) (w i v : ℕ) (application : OpenPositionApplication) (after : Store)
    → Has application db.applications
    → select_application db w i application v ≡ ok after
    → (application.status ≡ OpenApplicationStatus.applied)
      × ((workday : Workday) × (draft : WorkdayRevision) × (row : Assignment) × (get_workday db w
            ≡ some workday)
          × (workday.current_published_revision_id ≡ some application.revision_id)
          × (get_revision db i ≡ some draft)
          × Has row after.assignments
          × (row.revision_id ≡ draft.id)
          × (row.slot_key ≡ application.slot_key)
          × (row.person_id ≡ some application.person_id)
          × (row.status ≡ AssignmentStatus.assigned)
          × Has
              (record application {
                status = OpenApplicationStatus.selected;
                selected_draft_revision_id = some draft.id;
              })
              after.applications
          × (get_workday after w ≡ some (record workday { lock_version = v + 1 })))
      × KeepsPublished db after
select_application-assigns db w i v application after own h =
    let s = select_application-IsSelection db w i v application after h in
    let (held, placed, keyed) =
      draft_slot-revision db s.draft.id application.slot_key s.slot s.slot_found in
    (
      applied-status application.status s.applied,
      (
        s.workday,
        s.draft,
        given_to s.person s.slot,
        s.locked.workday_found,
        s.current,
        s.locked.draft_found,
        subst (λ (x : Store). Has (given_to s.person s.slot) x.assignments) s.written
            (unfold bump put_application put_assignment in
              Has-set_assignment (given_to s.person s.slot) s.slot db.assignments held refl refl),
        placed,
        keyed,
        ap some (get_person-id db application.person_id s.person s.person_found),
        refl,
        subst (λ (x : Store). Has (selected_for s.draft.id application) x.applications) s.written
            (unfold bump put_application put_assignment in
              Has-set_application (selected_for s.draft.id application) application db.applications
                own refl),
        subst (λ x. get_workday x w ≡ some (record s.workday { lock_version = v + 1 }))
            (edited s).bumped (bumped_workday (edited s)),
      ),
      subst (KeepsPublished db) (edited s).bumped
          (bump-KeepsPublished (edited s).workday db (edited s).written (edited s).kept),
    )
