-- ===== src/Participation.antt =====
-- app/rostering/participation.py: the assignments that still count, and a person's day over them.
-- The order of rows by their position's name (`position_order`, over Unicode normalisation) is a
-- parameter.
pub mod Active
pub mod Travellers
pub mod Day
use Prim.Native.String.{◌++◌ as ◌+++◌}
use text.Mathlib.Text.{◌==◌ as str_eq}
use on_track_rostering.Prelude.{
  ℕ, ◌+◌, ◌-◌, ◌/◌, Bool, true, false, ◌&&◌, ◌||◌, not, Option, none, some, List, [], ◌∷◌, String,
  ◌==◌, opt_eq, ltb, any, filter, map, sort_by, is_none, if◌then◌else◌,
}
use on_track_rostering.Enums.{AssignmentStatus, is_assigned, is_scheduled}
use on_track_rostering.Clock.{Date, Time, DateTime, time_of, minute}
use on_track_rostering.Rostering.Models.{Workday, WorkdayRevision, Assignment, PersonalWorkdayEntry}
use on_track_rostering.Rostering.Store.{Store, get_workday, get_optional}
use on_track_rostering.Rostering.Diff.Fields.{status_code}
use on_track_rostering.Rostering.Travel.Effective.{effective_person_travel}
use on_track_rostering.Rostering.Travel.Interval.{effective_person_interval}

-- Whether a person holds an assigned row among the given ones.
abbrev pub is_travel_candidate : List Assignment → ℕ → Bool
is_travel_candidate rows person =
    any (λ a. is_assigned a.status && opt_eq a.person_id (some person)) rows

-- Whether the person travels by the standard plan of the parent's publication.
abbrev pub is_participant : Store → ℕ → ℕ → Bool
is_participant db revision person =
    any
      (λ a.
        a.revision_id == revision
        && opt_eq a.person_id (some person)
        && is_assigned a.status
        && a.uses_standard_travel)
      db.assignments

abbrev pub is_opted_out : Store → ℕ → ℕ → Bool
is_opted_out db parent person =
    any (λ e. e.workday_id == parent && e.person_id == person && e.standard_travel_opt_out)
      db.entries

-- Whether the person of a row travels with the parent.
abbrev pub travels_with : Store → List Assignment → ℕ → ℕ → Option ℕ → Bool
travels_with db rows parent revision none = false
travels_with db rows parent revision (some person) =
    is_travel_candidate rows person
    && is_participant db revision person
    && not (is_opted_out db parent person)

abbrev pub active_under : Store → List Assignment → Workday → Option ℕ → List Assignment
active_under db rows parent none = []
active_under db rows parent (some revision) =
    if is_scheduled parent.status
    then filter (λ a. travels_with db rows parent.id revision a.person_id) rows
    else []

abbrev pub active_of : Store → List Assignment → Option Workday → List Assignment
active_of db rows none = []
active_of db rows (some parent) = active_under db rows parent parent.current_published_revision_id

unfoldable pub active_published_assignments :
    Store → Workday → WorkdayRevision → List Assignment → List Assignment
active_published_assignments db workday revision rows =
    if not (opt_eq workday.current_published_revision_id (some revision.id))
    then []
    else if is_none workday.generated_from_workday_id
    then rows
    else if not (is_scheduled workday.status)
    then []
    else active_of db rows (get_optional (get_workday db) workday.generated_from_workday_id)

pub record PersonDayParticipation : Type 0 where
  pub start : Option Time
  pub end : Option Time
  pub minutes : ℕ
  pub role_summary : String
  pub statuses : List AssignmentStatus

abbrev pub both : Option DateTime → Option DateTime → Option (DateTime × DateTime)
both (some start) (some finish) = some (start, finish)
both none finish = none
both (some start) none = none

-- `_span`.
unfoldable pub span : WorkdayRevision → Assignment → Option (DateTime × DateTime)
unfolding effective_person_interval
span revision a =
    let effective = effective_person_interval revision a in both effective.start effective.finish

abbrev pub with_span :
    Option (DateTime × DateTime) → List (DateTime × DateTime) → List (DateTime × DateTime)
with_span none rest = rest
with_span (some s) rest = s ∷ rest

-- `spans`.
abbrev pub spans : WorkdayRevision → List Assignment → List (DateTime × DateTime)
spans revision [] = []
spans revision (a ∷ rows) = with_span (span revision a) (spans revision rows)

-- `min(span[0] for span in spans)`, with the first span given apart.
abbrev pub first_start : DateTime → List (DateTime × DateTime) → DateTime
first_start least [] = least
first_start least ((start, finish) ∷ rest) =
    first_start (if ltb start least then start else least) rest

abbrev pub last_finish : DateTime → List (DateTime × DateTime) → DateTime
last_finish most [] = most
last_finish most ((start, finish) ∷ rest) =
    last_finish (if ltb most finish then finish else most) rest

-- `dict.fromkeys`: the first of each value.
abbrev pub fromkeys {ℓ} : {A : Type ℓ} → (A → A → Bool) → List A → List A
fromkeys same [] = []
fromkeys same (x ∷ xs) = x ∷ filter (λ y. not (same x y)) (fromkeys same xs)

abbrev pub joined : List String → String
joined [] = ""
joined (name ∷ []) = name
joined (name ∷ other ∷ names) = name +++ (" + " +++ joined (other ∷ names))

abbrev pub summary_of : List String → String
summary_of [] = "Crew"
summary_of (name ∷ names) = joined (name ∷ names)

-- The start and the finish where no row has a span: those of the first row, or of the revision where
-- there is no row.
abbrev pub fallback_start : WorkdayRevision → List Assignment → Option Time
fallback_start revision [] = revision.start_time
fallback_start revision (a ∷ rows) = (effective_person_travel revision a).start

abbrev pub fallback_end : WorkdayRevision → List Assignment → Option Time
fallback_end revision [] = revision.end_time
fallback_end revision (a ∷ rows) = (effective_person_travel revision a).finish

abbrev pub over_spans :
    List (DateTime × DateTime)
    → Option Time
    → Option Time
    → String
    → List AssignmentStatus
    → PersonDayParticipation
over_spans [] start end roles statuses = record {
  start = start;
  end = end;
  minutes = 0;
  role_summary = roles;
  statuses = statuses;
}
over_spans ((s, f) ∷ rest) start end roles statuses =
    let start_at = first_start s rest in
    let end_at = last_finish f rest in
    record {
      start = some (time_of start_at);
      end = some (time_of end_at);
      minutes = (end_at - start_at) / minute;
      role_summary = roles;
      statuses = statuses;
    }

unfoldable pub person_day_participation :
    (Assignment → Assignment → Bool) → WorkdayRevision → List Assignment → PersonDayParticipation
unfolding span effective_person_travel
person_day_participation before revision rows =
    let ordered = sort_by before rows in
    over_spans (spans revision ordered) (fallback_start revision ordered)
      (fallback_end revision ordered)
      (summary_of (fromkeys str_eq (map (λ a. a.display_name_snapshot) ordered)))
      (fromkeys (λ a b. status_code a == status_code b) (map (λ a. a.status) ordered))
