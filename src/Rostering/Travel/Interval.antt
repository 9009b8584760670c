-- ===== src/Rostering/Travel/Interval.antt =====
-- `effective_person_interval`: the effective clock times as instants, with the days that they roll
-- over to.
use on_track_rostering.Prelude.{
  ℕ, zero, suc, ◌+◌, ◌/◌, ◌&&◌, Option, none, some, leb, is_none, or_else, if◌then◌else◌,
}
use on_track_rostering.Clock.{Time, DateTime, day, minus_minutes}
use on_track_rostering.Rostering.Models.{WorkdayRevision, Assignment}
use on_track_rostering.Rostering.Travel.Effective.{
  EffectivePersonTravel, effective_person_travel, clock_on_workday, leaves_early, returned_at,
}

pub record EffectivePersonInterval : Type 0 where
  pub start : Option DateTime
  pub finish : Option DateTime

-- The start by the hotel, on its date.
abbrev pub hotel_start_at : WorkdayRevision → Assignment → EffectivePersonTravel → Option DateTime
hotel_start_at revision assignment effective =
    if is_none assignment.start_time && effective.uses_standard_travel
    then elim revision.on_track_time [
      | none ↦ none
      | some on_track ↦ elim effective.hotel_to_track_minutes [
        | none ↦ none
        | some minutes ↦ some (minus_minutes (clock_on_workday revision on_track) minutes)
      ]
    ]
    else none

abbrev pub clock_start_at : WorkdayRevision → Assignment → Time → DateTime
clock_start_at revision assignment start =
    let start_at = clock_on_workday revision start in
    if leaves_early revision assignment
    then minus_minutes start_at revision.truck_start_offset_minutes
    else start_at

unfoldable pub interval_start :
    WorkdayRevision → Assignment → EffectivePersonTravel → Option DateTime
interval_start revision assignment effective = elim effective.start [
  | none ↦ none
  | some start ↦
      or_else (hotel_start_at revision assignment effective)
        (some (clock_start_at revision assignment start))
]

unfoldable pub interval_finish :
    WorkdayRevision → Assignment → EffectivePersonTravel → Option DateTime
interval_finish revision assignment effective = elim effective.finish [
  | none ↦ none
  | some finish ↦
      or_else (returned_at (clock_on_workday revision) revision assignment)
        (some (clock_on_workday revision finish))
]

-- `while finish_at <= start_at: finish_at += timedelta(days=1)`, on fuel.
unfoldable pub roll_past : ℕ → DateTime → DateTime → DateTime
roll_past zero start_at finish_at = finish_at
roll_past (suc fuel) start_at finish_at =
    let rest = roll_past fuel start_at (finish_at + day) in
    if leb finish_at start_at then rest else finish_at

-- One round for every day of the start is enough: `roll_past-gt`.
abbrev pub rounds : DateTime → ℕ
rounds start_at = start_at / day + 1

abbrev pub rolled : Option DateTime → Option DateTime → Option DateTime
rolled (some start_at) (some finish_at) = some (roll_past (rounds start_at) start_at finish_at)
rolled none finish = finish
rolled (some _) none = none

unfoldable pub effective_person_interval : WorkdayRevision → Assignment → EffectivePersonInterval
unfolding effective_person_travel
effective_person_interval revision assignment =
    let effective = effective_person_travel revision assignment in
    let start = interval_start revision assignment effective in
    record { start = start; finish = rolled start (interval_finish revision assignment effective) }
