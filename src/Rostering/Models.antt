-- ===== src/Rostering/Models.antt =====
-- app/rostering/models.py: the rows of the rostering tables. Identifiers are numbers, and a column
-- that may be NULL is an `Option`. Creation timestamps are left out: no rule reads them.
use on_track_rostering.Prelude.{ℕ, Bool, Option, String}
use on_track_rostering.Enums.{
  WorkdayCategory, RacingDiscipline, RevisionState, WorkdayStatus, AssignmentStatus, TransportMode,
  OpenApplicationStatus, Lifecycle, CapabilitySignal, DeclinePolicy,
}
use on_track_rostering.Clock.{Date, Time, DateTime}

-- `Vehicle` of app/catalog/models.py, as far as an assignment reads it.
pub record Vehicle : Type 0 where
  pub id : ℕ
  pub name : String
  pub is_truck : Bool

pub record Workday : Type 0 where
  pub id : ℕ
  pub region_id : ℕ
  pub operation_id : Option ℕ
  pub generated_from_workday_id : Option ℕ
  pub rescheduled_from_workday_id : Option ℕ
  pub external_event_id : Option ℕ
  pub category : WorkdayCategory
  pub racing_discipline : Option RacingDiscipline
  pub status : WorkdayStatus
  pub current_published_revision_id : Option ℕ
  pub current_draft_revision_id : Option ℕ
  pub created_by_user_id : ℕ
  pub lock_version : ℕ

pub record WorkdayRevision : Type 0 where
  pub id : ℕ
  pub workday_id : ℕ
  pub revision_number : ℕ
  pub state : RevisionState
  pub based_on_revision_id : Option ℕ
  pub work_date : Date
  pub track_id : Option ℕ
  pub track_name_snapshot : String
  pub track_address_snapshot : String
  pub title : String
  pub start_time : Option Time
  pub start_time_is_override : Bool
  pub end_time : Option Time
  pub end_time_is_override : Bool
  pub on_track_time : Option Time
  pub on_track_time_is_override : Bool
  pub track_travel_minutes : Option ℕ
  pub track_travel_minutes_is_override : Bool
  pub first_trial_time : Option Time
  pub last_trial_time : Option Time
  pub first_race_time : Option Time
  pub last_race_time : Option Time
  pub race_count : Option ℕ
  pub start_origin : String
  pub start_address_snapshot : String
  pub finish_destination : String
  pub finish_address_snapshot : String
  pub standard_travel_enabled : Bool
  pub travel_departure_time : Option Time
  pub travel_to_hotel_minutes : Option ℕ
  pub default_hotel : String
  pub default_hotel_address_snapshot : String
  pub hotel_to_track_minutes : Option ℕ
  pub return_travel_minutes : Option ℕ
  pub pack_up_minutes : ℕ
  pub truck_start_offset_minutes : ℕ
  pub day_note : String
  pub change_reason : String
  pub created_by_user_id : ℕ
  pub published_by_user_id : Option ℕ
  pub published_at : Option DateTime

pub record Assignment : Type 0 where
  pub id : ℕ
  pub revision_id : ℕ
  pub slot_key : ℕ
  pub base_position_id : Option ℕ
  pub slot_index : Option ℕ
  pub display_name_snapshot : String
  pub person_id : Option ℕ
  pub person_name_snapshot : Option String
  pub status : AssignmentStatus
  pub start_time : Option Time
  pub end_time : Option Time
  pub note : String
  pub note_private : Bool
  pub vehicle_id : Option ℕ
  pub vehicle_name_snapshot : Option String
  pub is_vehicle_driver : Bool
  -- the relationship: the row that `vehicle_id` names
  pub vehicle : Option Vehicle
  pub transport_mode : TransportMode
  pub custom_transport_text : String
  pub accommodation_name : Option String
  pub accommodation_address : Option String
  pub uses_standard_travel : Bool
  pub hotel_to_track_minutes_override : Option ℕ
  pub finish_destination_override : Option String
  pub return_travel_minutes_override : Option ℕ

pub data ReplacementResponse : Type 0 where
  accepted declined : ReplacementResponse

pub record PersonalWorkdayEntry : Type 0 where
  pub id : ℕ
  pub workday_id : ℕ
  pub person_id : ℕ
  pub standard_travel_opt_out : Bool
  pub replacement_response : Option ReplacementResponse
  pub replacement_responded_at : Option DateTime

pub record OpenPositionApplication : Type 0 where
  pub id : ℕ
  pub revision_id : ℕ
  pub slot_key : ℕ
  pub person_id : ℕ
  pub status : OpenApplicationStatus
  pub selected_draft_revision_id : Option ℕ
  pub decided_at : Option DateTime

pub record ProgrammeItem : Type 0 where
  pub id : ℕ
  pub revision_id : ℕ
  pub kind : String
  pub sequence : ℕ
  pub operational_time : Option Time
  pub source_time : Option Time
  pub source_provider : Option String
  pub source_retrieved_at : Option DateTime
  pub manual_override : Bool

pub record AllowanceIndicator : Type 0 where
  pub id : ℕ
  pub revision_id : ℕ
  pub person_id : ℕ
  pub kind : String
  -- NUMERIC(5, 2), in hundredths
  pub entitlement_hours : Option ℕ
  pub explanation : String

pub record WorkdayEquipmentItem : Type 0 where
  pub id : ℕ
  pub revision_id : ℕ
  pub item_key : ℕ
  pub setup_id : Option ℕ
  pub setup_name_snapshot : String
  pub name : String
  pub quantity : ℕ
  pub notes : String
  pub display_order : ℕ

pub record PositionCapability : Type 0 where
  pub id : ℕ
  pub person_id : ℕ
  pub base_position_id : ℕ
  pub signal : CapabilitySignal
  pub source_revision_id : Option ℕ
  pub changed_by_user_id : Option ℕ

-- The catalogue and identity rows that the rostering services read (app/catalog/models.py,
-- app/identity/models.py), with the columns that they read.
pub record Region : Type 0 where
  pub id : ℕ
  pub lifecycle : Lifecycle
  pub decline_policy : DeclinePolicy
  pub base_name : String
  pub base_address : String

pub record Track : Type 0 where
  pub id : ℕ
  pub region_id : ℕ
  pub lifecycle : Lifecycle
  pub name : String
  pub address : String
  pub default_travel_minutes : Option ℕ

pub record BasePosition : Type 0 where
  pub id : ℕ
  pub name : String
  pub lifecycle : Lifecycle
