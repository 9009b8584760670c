-- ===== src/OpenPositions.antt =====
-- app/open_positions/service.py: `select_application`, by which a manager gives an open position of
-- the publication to an applicant, in the current draft.
pub mod Selection
pub mod Apply
use on_track_rostering.Prelude.{
  ℕ, ◌&&◌, ◌||◌, not, Bool, true, false, Option, none, some, List, [], ◌∷◌, ◌==◌, opt_eq, find?,
  is_none, if◌then◌else◌,
}
use on_track_rostering.Enums.{
  OpenApplicationStatus, AssignmentStatus, is_applied, is_open_slot, is_active,
}
use on_track_rostering.Errors.{Error, Result, ok, err, value_error, ◌>>=◌, ◌>>◌, reject_if}
use on_track_rostering.Identity.{Person}
use on_track_rostering.Rostering.Models.{
  Workday, WorkdayRevision, Assignment, OpenPositionApplication,
}
use on_track_rostering.Rostering.Store.{Store, get_person, put_assignment}
use on_track_rostering.Rostering.Drafts.Copy.{require, lock_current_draft}
use on_track_rostering.Rostering.Drafts.Edit.{bump}

abbrev pub publication_changed : Error
publication_changed = value_error "The published roster changed after this application was made."

abbrev pub already_decided : Error
already_decided = value_error "This application is no longer awaiting a decision."

abbrev pub unavailable : Error
unavailable = value_error "The position or applicant is no longer available."

-- `select(Assignment)` by revision, slot and open status.
unfoldable pub published_slot : Store → OpenPositionApplication → Option Assignment
published_slot db application =
    find?
      (λ a.
        a.revision_id == application.revision_id
        && a.slot_key == application.slot_key
        && is_open_slot a.status)
      db.assignments

-- `select(Assignment)` by revision and slot.
unfoldable pub draft_slot : Store → ℕ → ℕ → Option Assignment
draft_slot db draft_id slot_key =
    find? (λ a. a.revision_id == draft_id && a.slot_key == slot_key) db.assignments

abbrev pub given_to : Person → Assignment → Assignment
given_to person slot = record slot {
  person_id = some person.id;
  person_name_snapshot = some person.display_name;
  status = AssignmentStatus.assigned;
}

abbrev pub selected_for : ℕ → OpenPositionApplication → OpenPositionApplication
selected_for draft_id application = record application {
  status = OpenApplicationStatus.selected;
  selected_draft_revision_id = some draft_id;
}

abbrev pub set_application :
    OpenPositionApplication → List OpenPositionApplication → List OpenPositionApplication
set_application a [] = []
set_application a (x ∷ xs) = (if x.id == a.id then a else x) ∷ set_application a xs

unfoldable pub put_application : OpenPositionApplication → Store → Store
put_application a db = record db { applications = set_application a db.applications }

-- The application is the row of the session.
unfoldable pub select_application : Store → ℕ → ℕ → OpenPositionApplication → ℕ → Result Store
unfolding published_slot draft_slot put_application bump put_assignment
select_application db workday_id draft_id application expected_version = do
  (workday, draft) ← lock_current_draft db workday_id draft_id expected_version
  reject_if (not (opt_eq workday.current_published_revision_id (some application.revision_id)))
      publication_changed
  reject_if (not (is_applied application.status)) already_decided
  reject_if (is_none (published_slot db application)) unavailable
  slot ← require (draft_slot db draft.id application.slot_key) unavailable
  person ← require (get_person db application.person_id) unavailable
  reject_if (not (is_active person.lifecycle)) unavailable
  ok (
      bump workday (
        put_application (selected_for draft.id application)
          (put_assignment (given_to person slot) db)))
