-- ===== src/Rostering/Conflicts.antt =====
-- app/rostering/conflicts.py: a draft against the current rosters whose intervals may meet it.
pub mod Keys
pub mod Matches
pub mod Reports
pub mod Complete
use on_track_rostering.Prelude.{
  ℕ, ◌+◌, ◌-◌, Bool, true, false, ◌&&◌, ◌||◌, not, Option, none, some, List, [], ◌∷◌, ◌++◌, String,
  ltb, leb, ◌==◌, opt_eq, is_none, get_or, any, filter, find?, flat_map, sort_by, map,
  if◌then◌else◌,
}
use on_track_rostering.Enums.{is_scheduled, is_assigned, is_vehicle}
use on_track_rostering.Clock.{Date, DateTime, date_of}
use on_track_rostering.Rostering.Models.{Workday, WorkdayRevision, Assignment}
use on_track_rostering.Rostering.Candidates.{Candidate, current_rows, candidates, draft_candidates}
use on_track_rostering.Rostering.Store.{Store, get_revision, get_optional, assignments_of}
use on_track_rostering.Rostering.Travel.Effective.{given_text}
use on_track_rostering.Rostering.Travel.Interval.{
  EffectivePersonInterval, effective_person_interval,
}

pub data ConflictKind : Type 0 where
  person vehicle : ConflictKind

-- The text of a conflict's timing, by its form and the values in it.
pub data ConflictTiming : Type 0 where
  same_day : Date → Option DateTime → Option DateTime → ConflictTiming
  overlapping : DateTime → DateTime → ConflictTiming
  apart : DateTime → DateTime → ConflictTiming

pub record RosterConflict : Type 0 where
  pub kind : ConflictKind
  pub subject_id : ℕ
  pub subject : String
  pub other_workday_id : ℕ
  pub other_title : String
  pub other_location : String
  pub timing : ConflictTiming
  pub detail_visible : Bool

-- `_overlap`.
unfoldable pub overlap :
    EffectivePersonInterval → EffectivePersonInterval → Date → Date → Bool × ConflictTiming
overlap left right left_date right_date =
    let unknown : Bool × ConflictTiming =
      (left_date == right_date, same_day right_date right.start right.finish) in
    elim left.start [
      | none ↦ unknown
      | some ls ↦ elim left.finish [
        | none ↦ unknown
        | some lf ↦ elim right.start [
          | none ↦ unknown
          | some rs ↦ elim right.finish [
            | none ↦ unknown
            | some rf ↦
                if ltb ls rf && ltb rs lf then (true, overlapping rs rf) else (false, apart rs rf)
          ]
        ]
      ]
    ]

-- `_operation_related`.
unfoldable pub operation_related : Workday → Workday → Bool
operation_related left right =
    opt_eq left.generated_from_workday_id (some right.id)
    || opt_eq right.generated_from_workday_id (some left.id)

abbrev pub person_match : Assignment → Assignment → List (ConflictKind × ℕ × String)
person_match current other = elim current.person_id [
  | none ↦ []
  | some p ↦
      if opt_eq other.person_id (some p)
      then (person, p, get_or (given_text current.person_name_snapshot) "Crew member") ∷ []
      else []
]

abbrev pub vehicle_match : Assignment → Assignment → List (ConflictKind × ℕ × String)
vehicle_match current other = elim current.vehicle_id [
  | none ↦ []
  | some v ↦
      if is_vehicle current.transport_mode
        && is_vehicle other.transport_mode
        && opt_eq other.vehicle_id (some v)
      then (vehicle, v, get_or (given_text current.vehicle_name_snapshot) "Vehicle") ∷ []
      else []
]

-- The matches of two rows: their person, and the vehicle in which both travel.
unfoldable pub matches : Assignment → Assignment → List (ConflictKind × ℕ × String)
matches current other = person_match current other ++ vehicle_match current other

abbrev kind_code : ConflictKind → ℕ
kind_code person = 0
kind_code vehicle = 1

-- Equality of the keys (kind, subject, other workday).
abbrev pub same_key : RosterConflict → RosterConflict → Bool
same_key c d =
    kind_code c.kind == kind_code d.kind
    && c.subject_id == d.subject_id
    && c.other_workday_id == d.other_workday_id

-- `visible_region_ids is None or region_id in visible_region_ids`.
abbrev pub is_visible : Option (List ℕ) → ℕ → Bool
is_visible none region = true
is_visible (some regions) region = any (λ r. r == region) regions

abbrev pub report :
    Option (List ℕ) → Candidate → ConflictTiming → ConflictKind × ℕ × String → RosterConflict
report visible c timing (kind, id, subject) = record {
  kind = kind;
  subject_id = id;
  subject = subject;
  other_workday_id = c.workday.id;
  other_title = c.revision.title;
  other_location = c.revision.track_name_snapshot;
  timing = timing;
  detail_visible = is_visible visible c.workday.region_id;
}

-- The conflicts of one current row with one candidate, before their keys are compared.
unfoldable pub row_conflicts :
    Workday → WorkdayRevision → Option (List ℕ) → Assignment → Candidate → List RosterConflict
row_conflicts workday draft visible current c =
    let met =
      overlap (effective_person_interval draft current)
        (effective_person_interval c.revision c.assignment) draft.work_date c.revision.work_date in
    if operation_related workday c.workday
    then []
    else if met.0
    then map (report visible c met.1) (matches current c.assignment)
    else []

-- `if key not in seen: seen.add(key); conflicts.append(conflict)`: the keys seen are those of the
-- conflicts so far.
unfoldable pub append_new : List RosterConflict → List RosterConflict → List RosterConflict
append_new conflicts [] = conflicts
append_new conflicts (c ∷ cs) =
    append_new (if any (same_key c) conflicts then conflicts else conflicts ++ c ∷ []) cs

-- The nested loops of `publication_conflicts` over the current rows and the candidates.
unfoldable pub offered_conflicts :
    Store → Workday → WorkdayRevision → Option (List ℕ) → List RosterConflict
unfolding draft_candidates
offered_conflicts db workday draft visible =
    flat_map
      (λ current.
        flat_map (row_conflicts workday draft visible current) (draft_candidates db workday draft))
      (current_rows db draft)

unfoldable pub publication_conflicts :
    Store → Workday → WorkdayRevision → Option (List ℕ) → Bool → List RosterConflict
publication_conflicts db workday draft visible include_inactive_current =
    if not include_inactive_current && not (is_scheduled workday.status)
    then []
    else append_new [] (offered_conflicts db workday draft visible)

-- The generated Travel workday of a workday, and its draft.
unfoldable pub generated_travel : Store → ℕ → Option Workday
generated_travel db id = find? (λ w. opt_eq w.generated_from_workday_id (some id)) db.workdays

abbrev pub travel_draft : Store → Workday → Option WorkdayRevision
travel_draft db travel = get_optional (get_revision db) travel.current_draft_revision_id

unfoldable pub generated_conflicts :
    Store → Workday → WorkdayRevision → Option (List ℕ) → List RosterConflict
generated_conflicts db workday draft visible =
    if draft.standard_travel_enabled
    then elim (generated_travel db workday.id) [
      | none ↦ []
      | some travel ↦ elim (travel_draft db travel) [
        | none ↦ []
        | some travel_draft ↦ publication_conflicts db travel travel_draft visible true
      ]
    ]
    else []

-- The dictionary keeps the first conflict of each key, in their order.
unfoldable pub operation_publication_conflicts :
    Store → Workday → WorkdayRevision → Option (List ℕ) → List RosterConflict
operation_publication_conflicts db workday draft visible = append_new [] (
    publication_conflicts db workday draft visible false
    ++ generated_conflicts db workday draft visible)
