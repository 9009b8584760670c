-- ===== src/Rostering/Drafts/Edit.antt =====
-- The edits of single rows of the current draft: `update_draft_details`, `add_assignment`,
-- `update_assignment` and `remove_assignment`.
use Prim.Native.String.{◌++◌ as ◌+++◌}
use on_track_rostering.Prelude.{
  ℕ, ◌+◌, Bool, true, false, ◌&&◌, ◌||◌, not, Option, none, some, String, ◌==◌, find?, find?-some,
  ◌≡◌, arith, is_some, if◌then◌else◌,
}
use on_track_rostering.Text.{strip, text_or, decimal}
use on_track_rostering.Enums.{AssignmentStatus, TransportMode, is_active}
use on_track_rostering.Errors.{Error, Result, ok, value_error, ◌>>=◌, ◌>>◌, reject_if}
use on_track_rostering.Clock.{Date, Time}
use on_track_rostering.Identity.{Person}
use on_track_rostering.Rostering.Models.{Workday, WorkdayRevision, Assignment, BasePosition, Track}
use on_track_rostering.Rostering.Store.{
  Store, get_track, get_position, get_person, get_optional, put_workday, put_revision,
  put_assignment, add_assignment as add_row, delete_assignment,
}
use on_track_rostering.Rostering.Drafts.Copy.{require, lock_current_draft}

-- `workday.lock_version += 1`.
unfoldable pub bump : Workday → Store → Store
unfolding put_workday
bump workday db = put_workday (record workday { lock_version = workday.lock_version + 1 }) db

abbrev pub inactive_track : Error
inactive_track = value_error "Select an active track from the workday region."

-- `_validated_track_record`.
unfoldable pub validated_track_record : Store → Option ℕ → ℕ → Result (Option Track)
validated_track_record db none region_id = ok none
validated_track_record db (some id) region_id = do
  track ← require (get_track db id) inactive_track
  reject_if (not (is_active track.lifecycle) || not (track.region_id == region_id)) inactive_track
  ok (some track)

-- `_validated_track`.
unfoldable pub validated_track : Store → Option ℕ → ℕ → Result String
unfolding validated_track_record
validated_track db track_id region_id = do
  track ← validated_track_record db track_id region_id
  ok (elim track [ none ↦ "To be confirmed" | some t ↦ t.name ])

-- The arguments of `update_draft_details` that it writes.
pub record DraftDetails : Type 0 where
  pub work_date : Date
  pub track_id : Option ℕ
  pub title : String
  pub start_time : Option Time
  pub end_time : Option Time
  pub on_track_time : Option Time
  pub first_trial_time : Option Time
  pub last_trial_time : Option Time
  pub first_race_time : Option Time
  pub last_race_time : Option Time
  pub race_count : Option ℕ
  pub day_note : String
  pub change_reason : String

abbrev pub detailed : WorkdayRevision → DraftDetails → String → WorkdayRevision
detailed draft d track_name = record draft {
  work_date = d.work_date;
  track_id = d.track_id;
  track_name_snapshot = track_name;
  title = text_or (strip d.title) "Workday";
  start_time = d.start_time;
  end_time = d.end_time;
  on_track_time = d.on_track_time;
  first_trial_time = d.first_trial_time;
  last_trial_time = d.last_trial_time;
  first_race_time = d.first_race_time;
  last_race_time = d.last_race_time;
  race_count = d.race_count;
  day_note = strip d.day_note;
  change_reason = strip d.change_reason;
}

unfoldable pub update_draft_details : Store → ℕ → ℕ → ℕ → DraftDetails → Result Store
unfolding validated_track bump put_revision
update_draft_details db workday_id draft_id expected_version d = do
  (workday, draft) ← lock_current_draft db workday_id draft_id expected_version
  track_name ← validated_track db d.track_id workday.region_id
  ok (bump workday (put_revision (detailed draft d track_name) db))

-- `AssignmentInput`, as far as the two single-row edits read it.
pub record AssignmentInput : Type 0 where
  pub base_position_id : Option ℕ
  pub slot_index : Option ℕ
  pub person_id : Option ℕ
  pub status : AssignmentStatus
  pub note : String
  pub note_private : Bool
  pub start_time : Option Time
  pub end_time : Option Time

-- `f"{name} {index}" if index else name`, where a missing position is "Crew".
unfoldable pub display_name : Option BasePosition → Option ℕ → String
display_name position slot_index =
    let name : String = elim position [ none ↦ "Crew" | some p ↦ p.name ] in
    elim slot_index [
      | none ↦ name
      | some index ↦ if index == 0 then name else name +++ (" " +++ decimal index)
    ]

abbrev pub inactive_position : Error
inactive_position = value_error "Select an active base position."

abbrev pub inactive_person : Error
inactive_person = value_error "Select an active person."

abbrev pub position_inactive : Option BasePosition → Bool
position_inactive none = false
position_inactive (some p) = not (is_active p.lifecycle)

abbrev pub person_inactive : Option Person → Bool
person_inactive none = false
person_inactive (some p) = not (is_active p.lifecycle)

-- `ASSIGNED if person else status`.
abbrev pub status_with : Option Person → AssignmentStatus → AssignmentStatus
status_with none status = status
status_with (some p) status = AssignmentStatus.assigned

abbrev pub name_of : Option Person → Option String
name_of none = none
name_of (some p) = some p.display_name

-- The store once an identifier has been drawn.
abbrev pub drawn : Store → Store
drawn db = record db { next_id = db.next_id + 1 }

-- The row that `add_assignment` adds, with an identifier and a slot key of its own; the columns that it does not give have their defaults.
abbrev pub new_assignment :
    ℕ → ℕ → ℕ → AssignmentInput → Option BasePosition → Option Person → Assignment
new_assignment id slot_key revision item position person = record {
  id = id;
  revision_id = revision;
  slot_key = slot_key;
  base_position_id = item.base_position_id;
  slot_index = item.slot_index;
  display_name_snapshot = display_name position item.slot_index;
  person_id = item.person_id;
  person_name_snapshot = name_of person;
  status = status_with person item.status;
  start_time = item.start_time;
  end_time = item.end_time;
  note = strip item.note;
  note_private = item.note_private;
  vehicle_id = none;
  vehicle_name_snapshot = none;
  is_vehicle_driver = false;
  vehicle = none;
  transport_mode = TransportMode.unassigned;
  custom_transport_text = "";
  accommodation_name = none;
  accommodation_address = none;
  uses_standard_travel = true;
  hotel_to_track_minutes_override = none;
  finish_destination_override = none;
  return_travel_minutes_override = none;
}

unfoldable pub add_assignment : Store → ℕ → ℕ → ℕ → AssignmentInput → Result Store
unfolding bump add_row
add_assignment db workday_id draft_id expected_version item = do
  (workday, draft) ← lock_current_draft db workday_id draft_id expected_version
  let position = get_optional (get_position db) item.base_position_id
  let person = get_optional (get_person db) item.person_id
  reject_if (position_inactive position) inactive_position
  reject_if (person_inactive person) inactive_person
  ok (
      bump workday (
        add_row (new_assignment (db.next_id + 1) db.next_id draft.id item position person)
          (drawn db)))

abbrev pub assignment_not_found : Error
assignment_not_found = value_error "Assignment not found in this draft."

-- `select(Assignment).where(Assignment.id == id, Assignment.revision_id == draft.id)`.
unfoldable pub draft_row : Store → ℕ → ℕ → Option Assignment
draft_row db draft_id id = find? (λ a. a.id == id && a.revision_id == draft_id) db.assignments

pub draft_row-revision :
    (db : Store) (draft_id id : ℕ) (a : Assignment)
    → require (draft_row db draft_id id) assignment_not_found ≡ ok a
    → a.revision_id ≡ draft_id
unfolding draft_row
draft_row-revision db draft_id id a h =
    let found : find? (λ (x : Assignment). x.id == id && x.revision_id == draft_id) db.assignments
        ≡ some a =
      ground arith in
    let (_, test) =
      find?-some (λ (x : Assignment). x.id == id && x.revision_id == draft_id) db.assignments a
        found in
    ground arith

-- The two arguments of `update_assignment` that may be `_UNCHANGED`, which is `none` here.
pub record RowChange : Type 0 where
  pub base_position_id : Option (Option ℕ)
  pub slot_index : Option (Option ℕ)
  pub person_id : Option ℕ
  pub status : AssignmentStatus
  pub note : String
  pub note_private : Bool
  pub start_time : Option Time
  pub end_time : Option Time

abbrev kept {ℓ} : {A : Type ℓ} → Option A → A → A
kept none old = old
kept (some new) old = new

-- A position that is given must be found, and must be active.
abbrev pub given_position_rejected : Store → Option (Option ℕ) → Bool
given_position_rejected db none = false
given_position_rejected db (some none) = false
given_position_rejected db (some (some id)) = elim (get_position db id) [
  | none ↦ true
  | some p ↦ not (is_active p.lifecycle)
]

abbrev pub changed_row : Store → Assignment → RowChange → Option Person → Assignment
changed_row db old c person =
    let position_id = kept c.base_position_id old.base_position_id in
    let index = kept c.slot_index old.slot_index in
    record old {
      base_position_id = position_id;
      slot_index = index;
      display_name_snapshot =
          if is_some c.base_position_id || is_some c.slot_index
          then display_name (get_optional (get_position db) position_id) index
          else old.display_name_snapshot;
      person_id = c.person_id;
      person_name_snapshot = name_of person;
      status = status_with person c.status;
      note = strip c.note;
      note_private = c.note_private;
      start_time = c.start_time;
      end_time = c.end_time;
    }

unfoldable pub update_assignment : Store → ℕ → ℕ → ℕ → ℕ → RowChange → Result Store
unfolding bump draft_row put_assignment
update_assignment db workday_id draft_id expected_version assignment_id c = do
  (workday, draft) ← lock_current_draft db workday_id draft_id expected_version
  old ← require (draft_row db draft.id assignment_id) assignment_not_found
  reject_if (given_position_rejected db c.base_position_id) inactive_position
  let person = get_optional (get_person db) c.person_id
  reject_if (person_inactive person) inactive_person
  ok (bump workday (put_assignment (changed_row db old c person) db))

unfoldable pub remove_assignment : Store → ℕ → ℕ → ℕ → ℕ → Result Store
unfolding bump draft_row delete_assignment
remove_assignment db workday_id draft_id expected_version assignment_id = do
  (workday, draft) ← lock_current_draft db workday_id draft_id expected_version
  old ← require (draft_row db draft.id assignment_id) assignment_not_found
  ok (bump workday (delete_assignment old db))
