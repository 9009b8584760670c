-- ===== src/Examples.antt =====
-- Concrete rows, and the theorems at inputs that meet their hypotheses.
mod Timing
mod Access
mod Roster
mod Overlaps
mod Applications
mod Publication
mod Calendar
mod Days
mod Openings
mod Leave
use on_track_rostering.Prelude.{
  ℕ, ◌*◌, Bool, true, false, Option, none, some, List, [], ◌∷◌, String,
}
use on_track_rostering.Enums.{
  Lifecycle, WorkdayCategory, RacingDiscipline, RevisionState, WorkdayStatus, AssignmentStatus,
  DeclinePolicy, TransportMode,
}
use on_track_rostering.Clock.{minute}
use on_track_rostering.Rostering.Models.{Workday, WorkdayRevision, Assignment, Region, Vehicle}
use on_track_rostering.Rostering.Store.{Store}

abbrev pub workday : ℕ → Option ℕ → Option ℕ → Workday
workday id published draft = record {
  id = id;
  region_id = 5;
  operation_id = none;
  generated_from_workday_id = none;
  rescheduled_from_workday_id = none;
  external_event_id = none;
  category = WorkdayCategory.race_day;
  racing_discipline = some RacingDiscipline.harness;
  status = WorkdayStatus.scheduled;
  current_published_revision_id = published;
  current_draft_revision_id = draft;
  created_by_user_id = 90;
  lock_version = 3;
}

-- A day from 10:00 to 18:00, on track at 11:00.
abbrev pub revision : ℕ → ℕ → RevisionState → WorkdayRevision
revision id workday_id state = record {
  id = id;
  workday_id = workday_id;
  revision_number = 1;
  state = state;
  based_on_revision_id = none;
  work_date = 20000;
  track_id = none;
  track_name_snapshot = "Ellerslie";
  track_address_snapshot = "";
  title = "Race Day";
  start_time = some (600 * minute);
  start_time_is_override = false;
  end_time = some (1080 * minute);
  end_time_is_override = false;
  on_track_time = some (660 * minute);
  on_track_time_is_override = false;
  track_travel_minutes = some 45;
  track_travel_minutes_is_override = false;
  first_trial_time = none;
  last_trial_time = none;
  first_race_time = some (720 * minute);
  last_race_time = some (1000 * minute);
  race_count = some 8;
  start_origin = "Base";
  start_address_snapshot = "";
  finish_destination = "Base";
  finish_address_snapshot = "";
  standard_travel_enabled = false;
  travel_departure_time = none;
  travel_to_hotel_minutes = none;
  default_hotel = "";
  default_hotel_address_snapshot = "";
  hotel_to_track_minutes = none;
  return_travel_minutes = some 45;
  pack_up_minutes = 60;
  truck_start_offset_minutes = 15;
  day_note = "";
  change_reason = "";
  created_by_user_id = 90;
  published_by_user_id = none;
  published_at = none;
}

abbrev pub assignment : ℕ → ℕ → Assignment
assignment id revision_id = record {
  id = id;
  revision_id = revision_id;
  slot_key = 70;
  base_position_id = some 40;
  slot_index = some 1;
  display_name_snapshot = "Side 1";
  person_id = some 7;
  person_name_snapshot = some "Ana";
  status = AssignmentStatus.assigned;
  start_time = none;
  end_time = none;
  note = "";
  note_private = true;
  vehicle_id = none;
  vehicle_name_snapshot = none;
  is_vehicle_driver = false;
  vehicle = none;
  transport_mode = TransportMode.unassigned;
  custom_transport_text = "";
  accommodation_name = none;
  accommodation_address = none;
  uses_standard_travel = true;
  hotel_to_track_minutes_override = none;
  finish_destination_override = none;
  return_travel_minutes_override = none;
}

abbrev pub truck : Vehicle
truck = record { id = 60; name = "Truck"; is_truck = true }

abbrev pub driver : Assignment
driver = record (assignment 21 1) {
  vehicle_id = some 60;
  vehicle = some truck;
  transport_mode = TransportMode.vehicle;
}

abbrev pub region : Region
region = record {
  id = 5;
  lifecycle = Lifecycle.active;
  decline_policy = DeclinePolicy.open_immediately;
  base_name = "Base";
  base_address = "";
}

abbrev pub published_day : WorkdayRevision
published_day = revision 1 11 RevisionState.published

abbrev pub draft_day : WorkdayRevision
draft_day = revision 2 12 RevisionState.draft

-- Workday 11 is published as revision 1 with one row, and workday 12 is a draft with one row of the
-- same person.
abbrev pub store : Store
store = record {
  workdays = workday 11 (some 1) none ∷ workday 12 none (some 2) ∷ [];
  revisions = published_day ∷ draft_day ∷ [];
  assignments = assignment 21 1 ∷ assignment 22 2 ∷ [];
  programme_items = [];
  allowances = [];
  equipment = [];
  applications = [];
  entries = [];
  regions = region ∷ [];
  tracks = [];
  positions = [];
  people = [];
  capabilities = [];
  users = [];
  links = [];
  grants = [];
  devices = [];
  contractor_inactivity_days = 30;
  operations = [];
  notices = [];
  next_id = 100;
}
