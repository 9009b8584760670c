-- ===== src/Rostering/Travel/Effective.antt =====
-- `effective_person_travel`: the defaults of the revision under the overrides of the person.
use mathlib.Core.Option
use text.Mathlib.Text.{◌==◌ as str_eq}
use on_track_rostering.Prelude.{
  ℕ, ◌+◌, Bool, false, ◌&&◌, ◌||◌, not, Option, none, some, String, ltb, ◌==◌, is_some, is_none,
  or_else, if◌then◌else◌,
}
use on_track_rostering.Enums.{is_vehicle, is_self_or_not_required}
use on_track_rostering.Clock.{Time, DateTime, day, combine, time_of, plus_minutes, minus_minutes}
use on_track_rostering.Rostering.Models.{WorkdayRevision, Assignment}
use on_track_rostering.Rostering.Timing.{clock_after, race_clear_at, ceil_to_quarter}

pub record EffectivePersonTravel : Type 0 where
  pub uses_standard_travel : Bool
  pub accommodation : Option String
  pub hotel_to_track_minutes : Option ℕ
  pub start : Option Time
  pub finish : Option Time
  pub finish_destination : Option String
  pub return_travel_minutes : Option ℕ

-- `_clock_on_workday`.
unfoldable pub clock_on_workday : WorkdayRevision → Time → DateTime
clock_on_workday revision value =
    let result = combine revision.work_date value in
    elim revision.start_time [
      | none ↦ result
      | some start ↦ elim revision.end_time [
        | none ↦ result
        | some end ↦ if ltb end start && ltb value start then result + day else result
      ]
    ]

-- An optional text where the empty one counts as absent, as Python's `or` reads it.
abbrev pub text_or_none : String → Option String
text_or_none s = if str_eq s "" then none else some s

abbrev pub given_text : Option String → Option String
given_text none = none
given_text (some s) = text_or_none s

abbrev pub uses_standard : WorkdayRevision → Assignment → Bool
uses_standard revision assignment =
    revision.standard_travel_enabled && assignment.uses_standard_travel

-- `bool(getattr(getattr(assignment, "vehicle", None), "is_truck", False))`.
abbrev pub in_truck : Assignment → Bool
in_truck assignment = elim assignment.vehicle [ none ↦ false | some v ↦ v.is_truck ]

abbrev pub accommodation_of : WorkdayRevision → Assignment → Option String
accommodation_of revision assignment =
    or_else (given_text assignment.accommodation_name)
      (if uses_standard revision assignment then text_or_none revision.default_hotel else none)

abbrev pub hotel_minutes_of : WorkdayRevision → Assignment → Option ℕ
hotel_minutes_of revision assignment =
    if uses_standard revision assignment
    then or_else assignment.hotel_to_track_minutes_override revision.hotel_to_track_minutes
    else none

-- The start by the hotel: on track less the way from the hotel, on the clock.
abbrev pub hotel_start : WorkdayRevision → Assignment → Option Time
hotel_start revision assignment =
    if uses_standard revision assignment
    then elim revision.on_track_time [
      | none ↦ none
      | some on_track ↦ elim (hotel_minutes_of revision assignment) [
        | none ↦ none
        | some minutes ↦
            some (time_of (minus_minutes (combine revision.work_date on_track) minutes))
      ]
    ]
    else none

-- The start of a person who makes their own way to a race day.
abbrev pub own_way_start : WorkdayRevision → Assignment → Option Time
own_way_start revision assignment =
    if is_self_or_not_required assignment.transport_mode
      && (is_some revision.first_race_time
          || is_some revision.last_race_time
          || is_some revision.race_count)
    then revision.on_track_time
    else none

abbrev pub resolved_start : WorkdayRevision → Assignment → Option Time
resolved_start revision assignment = or_else assignment.start_time (
    or_else (hotel_start revision assignment)
      (or_else (own_way_start revision assignment) revision.start_time))

-- The tests under which the truck leaves early, but for the start itself.
abbrev pub leaves_early : WorkdayRevision → Assignment → Bool
leaves_early revision assignment =
    is_none assignment.start_time
    && not (uses_standard revision assignment)
    && is_vehicle assignment.transport_mode
    && in_truck assignment
    && not (revision.truck_start_offset_minutes == 0)

abbrev pub start_of : WorkdayRevision → Assignment → Option Time
start_of revision assignment =
    if leaves_early revision assignment
    then Option.map
        (λ start.
          time_of
            (minus_minutes (combine revision.work_date start) revision.truck_start_offset_minutes))
        (resolved_start revision assignment)
    else resolved_start revision assignment

abbrev pub last_event_of : WorkdayRevision → Option Time
last_event_of revision = or_else revision.last_race_time revision.last_trial_time

-- `race_clear_at(event_at) if revision.last_race_time else ceil_to_quarter(event_at)`.
abbrev pub cleared_at : WorkdayRevision → DateTime → DateTime
cleared_at revision event_at =
    if is_some revision.last_race_time then race_clear_at event_at else ceil_to_quarter event_at

-- The finish that an override of the return travel derives from the last event, given the instant
-- at which the person's track day begins; `none` where the code's condition fails.
abbrev pub returned_at : (Time → DateTime) → WorkdayRevision → Assignment → Option DateTime
returned_at reference revision assignment =
    if is_none assignment.end_time
      && uses_standard revision assignment
      && not revision.end_time_is_override
    then elim assignment.return_travel_minutes_override [
      | none ↦ none
      | some minutes ↦ elim (last_event_of revision) [
        | none ↦ none
        | some last_event ↦ elim revision.on_track_time [
          | none ↦ none
          | some on_track ↦ some (
              plus_minutes
                (plus_minutes (cleared_at revision (clock_after last_event (reference on_track)))
                  revision.pack_up_minutes)
                minutes)
        ]
      ]
    ]
    else none

abbrev pub finish_of : WorkdayRevision → Assignment → Option Time
finish_of revision assignment =
    or_else (Option.map time_of (returned_at (combine revision.work_date) revision assignment))
      (or_else assignment.end_time revision.end_time)

unfoldable pub effective_person_travel : WorkdayRevision → Assignment → EffectivePersonTravel
effective_person_travel revision assignment = record {
  uses_standard_travel = uses_standard revision assignment;
  accommodation = accommodation_of revision assignment;
  hotel_to_track_minutes = hotel_minutes_of revision assignment;
  start = start_of revision assignment;
  finish = finish_of revision assignment;
  finish_destination =
      or_else (given_text assignment.finish_destination_override)
        (text_or_none revision.finish_destination);
  return_travel_minutes =
      or_else assignment.return_travel_minutes_override revision.return_travel_minutes;
}
