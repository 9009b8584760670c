-- ===== src/Rostering/Decline.antt =====
-- app/rostering/service.py: `decline_published_assignment` and `respond_to_reschedule`.
pub mod Outcome
pub mod Responses
use on_track_rostering.Prelude.{
  ℕ, suc, ◌+◌, Bool, true, false, ◌&&◌, ◌||◌, not, Option, none, some, List, [], ◌∷◌, ◌++◌, String,
  ltb, ◌==◌, opt_eq, find?, filter, any, map, length, is_none, if◌then◌else◌,
}
use on_track_rostering.Enums.{
  RevisionState, AssignmentStatus, DeclinePolicy, OpenApplicationStatus, WorkdayStatus, is_assigned,
  is_applied, is_selected, is_scheduled,
}
use on_track_rostering.Errors.{Error, Result, ok, err, value_error, ◌>>=◌, ◌>>◌, reject_if}
use on_track_rostering.Clock.{DateTime}
use on_track_rostering.Rostering.Models.{
  Workday, WorkdayRevision, Assignment, OpenPositionApplication, PersonalWorkdayEntry,
  ReplacementResponse, Region,
}
use on_track_rostering.Rostering.Store.{
  Store, Notice, audit, event, human_change, get_workday, get_revision, get_region, get_optional,
  assignments_of, add_revision, put_workday, notify, numbered,
}
use on_track_rostering.Rostering.Drafts.Copy.{require, copy_revision_children}

abbrev pub not_published : Error
not_published = value_error "Published assignment not found."

abbrev pub not_declinable : Error
not_declinable = value_error "This assignment is no longer available to decline."

-- `max(revision_number)` over the revisions of a workday, or 0.
abbrev pub last_number : ℕ → List WorkdayRevision → ℕ
last_number w [] = 0
last_number w (r ∷ rs) =
    let rest = last_number w rs in
    if r.workday_id == w && ltb rest r.revision_number then r.revision_number else rest

abbrev pub declined_revision : Store → Workday → WorkdayRevision → ℕ → DateTime → WorkdayRevision
declined_revision db workday published actor now = record published {
  id = db.next_id;
  workday_id = workday.id;
  revision_number = last_number workday.id db.revisions + 1;
  state = RevisionState.published;
  based_on_revision_id = some published.id;
  change_reason = "Employee declined assignment";
  created_by_user_id = actor;
  published_by_user_id = some actor;
  published_at = some now;
}

abbrev pub declined_status : DeclinePolicy → AssignmentStatus
declined_status DeclinePolicy.open_immediately = AssignmentStatus.open_slot
declined_status DeclinePolicy.manager_review = AssignmentStatus.manager_action_required

-- The copy of a row in the new publication, which the person leaves if it has the declined slot.
abbrev pub declined_row : DeclinePolicy → ℕ → ℕ → ℕ → Assignment → Assignment
declined_row policy slot_key revision id old =
    if old.slot_key == slot_key
    then record old {
      id = id;
      revision_id = revision;
      person_id = none;
      person_name_snapshot = none;
      status = declined_status policy;
    }
    else record old { id = id; revision_id = revision }

unfoldable pub copy_declined : DeclinePolicy → ℕ → ℕ → ℕ → Store → Store
copy_declined policy slot_key source target db =
    let rows = assignments_of db source in
    record db {
      assignments =
          db.assignments ++ numbered (declined_row policy slot_key target) db.next_id rows;
      next_id = db.next_id + length rows;
    }

-- The applications that move to the new publication: those still undecided for another slot.
abbrev pub moves_on : ℕ → ℕ → OpenPositionApplication → Bool
moves_on source slot_key a =
    a.revision_id == source
    && (is_applied a.status || is_selected a.status)
    && not (a.slot_key == slot_key)

abbrev pub renewed : ℕ → ℕ → OpenPositionApplication → OpenPositionApplication
renewed target id old = record old {
  id = id;
  revision_id = target;
  status = OpenApplicationStatus.applied;
  selected_draft_revision_id = none;
  decided_at = none;
}

abbrev pub closed_if :
    (OpenPositionApplication → Bool) → DateTime → OpenPositionApplication → OpenPositionApplication
closed_if test now a =
    if test a then record a { status = OpenApplicationStatus.closed; decided_at = some now } else a

unfoldable pub move_applications : ℕ → ℕ → ℕ → DateTime → Store → Store
move_applications source target slot_key now db =
    let moving = filter (moves_on source slot_key) db.applications in
    record db {
      applications =
          map (closed_if (moves_on source slot_key) now) db.applications
          ++ numbered (renewed target) db.next_id moving;
      next_id = db.next_id + length moving;
    }

abbrev pub declined_event : DeclinePolicy → String
declined_event DeclinePolicy.open_immediately = "OPEN_POSITION_AVAILABLE"
declined_event DeclinePolicy.manager_review = "MANAGER_ACTION_REQUIRED"

abbrev pub republished : Workday → ℕ → Workday
republished workday revision = record workday {
  current_published_revision_id = some revision;
  current_draft_revision_id = none;
  lock_version = workday.lock_version + 1;
}

-- The store after the assignment has been declined.
unfoldable pub decline_into : Store → Workday → WorkdayRevision → Region → ℕ → ℕ → DateTime → Store
unfolding add_revision copy_declined copy_revision_children move_applications put_workday notify
decline_into db workday published region slot_key actor now =
    let id = db.next_id in
    let policy = region.decline_policy in
    let revised = add_revision (declined_revision db workday published actor now) db in
    let with_rows = copy_declined policy slot_key published.id id revised in
    let with_children = copy_revision_children published.id id true true true with_rows in
    let with_applications = move_applications published.id id slot_key now with_children in
    notify
      (human_change workday.id id actor
        ∷ audit "assignment.declined" workday.id actor
        ∷ event (declined_event policy) workday.id id (some slot_key)
        ∷ [])
      (put_workday (republished workday id) with_applications)

-- The row that is declined: `select(Assignment)` by revision, slot, person and status.
unfoldable pub declined_target : Store → ℕ → ℕ → ℕ → Option Assignment
declined_target db revision slot_key person =
    find?
      (λ a.
        a.revision_id == revision
        && a.slot_key == slot_key
        && opt_eq a.person_id (some person)
        && is_assigned a.status)
      db.assignments

unfoldable pub decline_published_assignment :
    Store → ℕ → ℕ → ℕ → ℕ → DateTime → Result (Store × WorkdayRevision)
unfolding decline_into declined_target
decline_published_assignment db workday_id slot_key person actor now = do
  workday ← require (get_workday db workday_id) not_published
  reject_if (is_none workday.current_published_revision_id) not_published
  published ←
      require (get_optional (get_revision db) workday.current_published_revision_id) not_declinable
  region ← require (get_region db workday.region_id) not_declinable
  target ← require (declined_target db published.id slot_key person) not_declinable
  ok (
    decline_into db workday published region slot_key actor now,
    declined_revision db workday published actor now,
  )

abbrev pub replacement_not_found : Error
replacement_not_found = value_error "Replacement assignment not found."

-- Whether the person has an assigned row in the published revision.
unfoldable pub assigned_in : Store → ℕ → ℕ → Bool
assigned_in db revision person =
    any (λ a. a.revision_id == revision && opt_eq a.person_id (some person) && is_assigned a.status)
      db.assignments

abbrev pub own_entry : ℕ → ℕ → PersonalWorkdayEntry → Bool
own_entry workday person e = e.workday_id == workday && e.person_id == person

abbrev pub answered : ReplacementResponse → DateTime → PersonalWorkdayEntry → PersonalWorkdayEntry
answered response now e = record e {
  replacement_response = some response;
  replacement_responded_at = some now;
}

abbrev pub fresh_entry : ℕ → ℕ → ℕ → PersonalWorkdayEntry
fresh_entry id workday person = record {
  id = id;
  workday_id = workday;
  person_id = person;
  standard_travel_opt_out = false;
  replacement_response = none;
  replacement_responded_at = none;
}

-- The answer is written to the person's entry for the workday, which is made if there is none.
unfoldable pub answer : ℕ → ℕ → ReplacementResponse → DateTime → Store → Store
answer workday person response now db =
    if any (own_entry workday person) db.entries
    then record db {
      entries =
          map (λ e. if own_entry workday person e then answered response now e else e) db.entries;
    }
    else record db {
      entries = db.entries ++ answered response now (fresh_entry db.next_id workday person) ∷ [];
      next_id = suc db.next_id;
    }

abbrev pub response_notices : ReplacementResponse → ℕ → ℕ → ℕ → List Notice
response_notices ReplacementResponse.accepted workday revision actor =
    audit "workday.replacement_response_changed" workday actor ∷ []
response_notices ReplacementResponse.declined workday revision actor =
    audit "workday.replacement_response_changed" workday actor
    ∷ event "MANAGER_ACTION_REQUIRED" workday revision none
    ∷ []

-- The response is one of the two values here, so the test for another is void.
unfoldable pub respond_to_reschedule :
    Store → ℕ → ℕ → ReplacementResponse → ℕ → DateTime → Result Store
unfolding assigned_in answer notify
respond_to_reschedule db workday_id person response actor now = do
  workday ← require (get_workday db workday_id) replacement_not_found
  revision ←
      require (get_optional (get_revision db) workday.current_published_revision_id)
        replacement_not_found
  reject_if
      (not (is_scheduled workday.status)
        || is_none workday.rescheduled_from_workday_id
        || not (assigned_in db revision.id person))
      replacement_not_found
  ok (
      notify (response_notices response workday.id revision.id actor)
        (answer workday.id person response now db))
