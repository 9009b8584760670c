-- ===== src/OpenPositions/Apply.antt =====
-- app/open_positions/service.py: `apply_for_position`, by which a person applies for an open slot of
-- the publication.
pub mod Applied
use on_track_rostering.Prelude.{
  ℕ, suc, Bool, true, false, ◌&&◌, ◌||◌, not, Option, none, some, List, [], ◌∷◌, ◌++◌, String, ◌==◌,
  opt_eq, leb, find?, filter, map, flat_map, is_none, is_some, if◌then◌else◌,
}
use on_track_rostering.Enums.{OpenApplicationStatus, is_scheduled, is_open_slot}
use on_track_rostering.Errors.{
  Error, Result, ok, err, value_error, permission_error, ◌>>=◌, ◌>>◌, reject_if,
}
use on_track_rostering.Clock.{Date}
use on_track_rostering.Auth.Policy.{Actor, can_apply_for_open_position}
use on_track_rostering.Positions.{
  Reason, manager_restricted, employee_opted_out, allowed, worked_before, no_signal,
}
use on_track_rostering.Positions.Bulk.{eligibility}
use on_track_rostering.Rostering.Models.{
  Workday, WorkdayRevision, Assignment, OpenPositionApplication, BasePosition,
}
use on_track_rostering.Rostering.Store.{Store, get_workday}
use on_track_rostering.Rostering.Drafts.Copy.{require}

abbrev pub no_longer_available : Error
no_longer_available = value_error "Open position is no longer available."

abbrev pub no_access : Error
no_access = permission_error "Employee regional access is required."

abbrev pub already_closed : Error
already_closed = value_error "This application is already closed."

abbrev pub reason_text : Reason → String
reason_text manager_restricted = "Manager restricted"
reason_text employee_opted_out = "Employee opted out"
reason_text allowed = "Allowed"
reason_text worked_before = "Worked before"
reason_text no_signal = "No capability signal"

-- The person who may apply in a region.
abbrev pub applicant : Actor → ℕ → Option ℕ
applicant actor region = if can_apply_for_open_position actor region then actor.person_id else none

-- `select(Assignment)` by the publication, the slot and the open status, with a position.
unfoldable pub open_slot : Store → Workday → ℕ → Option Assignment
open_slot db workday slot_key =
    find?
      (λ a.
        opt_eq workday.current_published_revision_id (some a.revision_id)
        && a.slot_key == slot_key
        && is_open_slot a.status
        && is_some a.base_position_id)
      db.assignments

unfoldable pub existing_application : Store → Assignment → ℕ → Option OpenPositionApplication
existing_application db slot person =
    find?
      (λ a.
        a.revision_id == slot.revision_id && a.slot_key == slot.slot_key && a.person_id == person)
      db.applications

-- `status in {APPLIED, SELECTED}`.
abbrev pub is_open_application : OpenApplicationStatus → Bool
is_open_application OpenApplicationStatus.applied = true
is_open_application OpenApplicationStatus.selected = true
is_open_application _ = false

abbrev pub new_application : ℕ → Assignment → ℕ → OpenPositionApplication
new_application id slot person = record {
  id = id;
  revision_id = slot.revision_id;
  slot_key = slot.slot_key;
  person_id = person;
  status = OpenApplicationStatus.applied;
  selected_draft_revision_id = none;
  decided_at = none;
}

unfoldable pub add_application : OpenPositionApplication → Store → Store
add_application a db = record db {
  applications = db.applications ++ a ∷ [];
  next_id = suc db.next_id;
}

-- The application that there is, if it is still open, or a new one.
abbrev pub applied_or_new :
    Store
    → Assignment
    → ℕ
    → Option OpenPositionApplication
    → Result (Store × OpenPositionApplication)
applied_or_new db slot person none =
    let new = new_application db.next_id slot person in ok (add_application new db, new)
applied_or_new db slot person (some application) =
    if is_open_application application.status then ok (db, application) else err already_closed

unfoldable pub apply_for_position :
    (String → String) → Store → Actor → ℕ → ℕ → Result (Store × OpenPositionApplication)
unfolding add_application
apply_for_position canonical db actor workday_id slot_key = do
  workday ← require (get_workday db workday_id) no_longer_available
  reject_if (is_none workday.current_published_revision_id || not (is_scheduled workday.status))
      no_longer_available
  person ← require (applicant actor workday.region_id) no_access
  slot ← require (open_slot db workday slot_key) no_longer_available
  position ← require slot.base_position_id no_longer_available
  let answer = eligibility canonical db person position
  reject_if (not answer.0) (permission_error (reason_text answer.1))
  applied_or_new db slot person (existing_application db slot person)
