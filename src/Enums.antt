-- ===== src/Enums.antt =====
-- app/core/enums.py: the enumerations, and the equality tests that the code makes on them.
use on_track_rostering.Prelude.{Bool, true, false}

pub data Lifecycle : Type 0 where
  active archived : Lifecycle

pub data Role : Type 0 where
  contractor casual employee sub_manager manager viewer admin : Role

pub data WorkdayCategory : Type 0 where
  race_day trials travel_day rig_day office_day training_day other : WorkdayCategory

pub data RacingDiscipline : Type 0 where
  thoroughbred harness : RacingDiscipline

pub data RevisionState : Type 0 where
  draft published : RevisionState

pub data WorkdayStatus : Type 0 where
  scheduled cancelled abandoned : WorkdayStatus

pub data AssignmentStatus : Type 0 where
  assigned open_slot tbc manager_action_required : AssignmentStatus

pub data CapabilitySignal : Type 0 where
  worked employee_allow employee_opt_out manager_allow manager_block : CapabilitySignal

pub data DeclinePolicy : Type 0 where
  open_immediately manager_review : DeclinePolicy

pub data OpenApplicationStatus : Type 0 where
  applied selected accepted not_selected withdrawn closed : OpenApplicationStatus

-- The transport modes of app/rostering/travel.py.
pub data TransportMode : Type 0 where
  unassigned vehicle self_travel not_required custom : TransportMode

abbrev pub is_active : Lifecycle → Bool
is_active Lifecycle.active = true
is_active Lifecycle.archived = false

abbrev pub is_draft : RevisionState → Bool
is_draft RevisionState.draft = true
is_draft RevisionState.published = false

abbrev pub is_scheduled : WorkdayStatus → Bool
is_scheduled WorkdayStatus.scheduled = true
is_scheduled _ = false

abbrev pub is_assigned : AssignmentStatus → Bool
is_assigned AssignmentStatus.assigned = true
is_assigned _ = false

abbrev pub is_open_slot : AssignmentStatus → Bool
is_open_slot AssignmentStatus.open_slot = true
is_open_slot _ = false

abbrev pub is_applied : OpenApplicationStatus → Bool
is_applied OpenApplicationStatus.applied = true
is_applied _ = false

abbrev pub is_selected : OpenApplicationStatus → Bool
is_selected OpenApplicationStatus.selected = true
is_selected _ = false

abbrev pub is_vehicle : TransportMode → Bool
is_vehicle TransportMode.vehicle = true
is_vehicle _ = false

-- `mode in {TRANSPORT_SELF, TRANSPORT_NOT_REQUIRED}`.
abbrev pub is_self_or_not_required : TransportMode → Bool
is_self_or_not_required TransportMode.self_travel = true
is_self_or_not_required TransportMode.not_required = true
is_self_or_not_required _ = false

-- `category in {RACE_DAY, TRIALS}`.
abbrev pub is_racing : WorkdayCategory → Bool
is_racing WorkdayCategory.race_day = true
is_racing WorkdayCategory.trials = true
is_racing _ = false

abbrev pub is_race_day : WorkdayCategory → Bool
is_race_day WorkdayCategory.race_day = true
is_race_day _ = false
