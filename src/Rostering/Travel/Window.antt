-- ===== src/Rostering/Travel/Window.antt =====
-- How far from its work date an effective interval can reach: the bounds behind the dates in which
-- conflicts are looked for.
use on_track_rostering.Prelude.{
  ◌+◌, ◌*◌, ◌≤◌, ◌<◌, ◌≡◌, inl, inr, Option, none, some, arith, get_or, Option-cases,
}
use on_track_rostering.Clock.{Time, DateTime, IsClock, day, minute, date_of, combine}
use on_track_rostering.Rostering.Models.{WorkdayRevision, Assignment}
use on_track_rostering.Rostering.Timing.{clock_after}
use on_track_rostering.Rostering.Timing.Quarters.{
  clock_after-bounds, race_clear_at-bounds, ceil_to_quarter-lt,
}
use on_track_rostering.Rostering.Travel.Effective.{
  effective_person_travel, resolved_start, clock_on_workday, last_event_of, returned_at, cleared_at,
  start_of, finish_of,
}
use on_track_rostering.Rostering.Travel.Interval.{
  interval_start, interval_finish, effective_person_interval,
}
use on_track_rostering.Rostering.Travel.Rollover.{interval_ordered}

-- The finish is not before the start on the clock, so no clock time rolls over to the next day.
abbrev pub IsSameDay : WorkdayRevision → Type 0
IsSameDay revision =
    (start end : Time)
    → revision.start_time ≡ some start
    → revision.end_time ≡ some end
    → start ≤ end

-- On track twenty-five minutes before midnight at the latest, where that is known.
abbrev pub IsEarly : Option Time → Type 0
IsEarly none = Unit
IsEarly (some t) = t + 25 * minute ≤ day

-- What saving a draft validates of the minutes, for clock times within a day and a crew that is on
-- track twenty-five minutes before midnight at the latest.
pub record IsWithin (revision : WorkdayRevision) (assignment : Assignment) : Type 0 where
  pub same_day : IsSameDay revision
  pub start : IsClock revision.start_time
  pub end : IsClock revision.end_time
  pub last_race : IsClock revision.last_race_time
  pub last_trial : IsClock revision.last_trial_time
  pub on_track : IsEarly revision.on_track_time
  pub own_start : IsClock assignment.start_time
  pub own_end : IsClock assignment.end_time
  pub hotel : get_or revision.hotel_to_track_minutes 0 ≤ 1440
  pub own_hotel : get_or assignment.hotel_to_track_minutes_override 0 ≤ 1440
  pub pack_up : revision.pack_up_minutes ≤ 1440
  pub truck : revision.truck_start_offset_minutes ≤ 1440
  pub own_return : get_or assignment.return_travel_minutes_override 0 ≤ 1440

clock_on_workday-same_day :
    (revision : WorkdayRevision) (t : Time)
    → IsSameDay revision
    → clock_on_workday revision t ≡ combine revision.work_date t
unfolding clock_on_workday
clock_on_workday-same_day revision t same = elim (Option-cases revision.start_time) [
  | inl a ↦ ground arith
  | inr (start, a) ↦ elim (Option-cases revision.end_time) [
    | inl b ↦ ground arith
    | inr (end, b) ↦ ground (arith, same start end)
  ]
]

cleared_at-lt :
    (revision : WorkdayRevision) (event : DateTime)
    → cleared_at revision event < event + 25 * minute
cleared_at-lt revision event =
    let (_, _, hi) = race_clear_at-bounds event in ground (arith, ceil_to_quarter-lt event)

module _ {revision : WorkdayRevision} {assignment : Assignment}
    (within : IsWithin revision assignment) where
  last_event-IsClock : IsClock (last_event_of revision)
  last_event-IsClock = ground arith

  resolved_start-IsClock : IsClock (resolved_start revision assignment)
  resolved_start-IsClock = ground arith

  start_of-IsClock : IsClock (start_of revision assignment)
  start_of-IsClock = ground (arith, resolved_start-IsClock)

  returned_at-lt :
      (e : DateTime)
      → returned_at (clock_on_workday revision) revision assignment ≡ some e
      → e < (revision.work_date + 4) * day
  returned_at-lt e h = elim (Option-cases assignment.return_travel_minutes_override) [
    | inl a ↦ ground arith
    | inr (minutes, a) ↦ elim (Option-cases (last_event_of revision)) [
      | inl b ↦ ground arith
      | inr (last, b) ↦ elim (Option-cases revision.on_track_time) [
        | inl c ↦ ground arith
        | inr (on_track, c) ↦
            let at = clock_on_workday revision on_track in
            let early : on_track + 25 * minute ≤ day = rw c at within.on_track in
            let same = clock_on_workday-same_day revision on_track within.same_day in
            let clock : last < day = rw b at last_event-IsClock in
            let (_, hi) = clock_after-bounds last at clock in
            let lt = cleared_at-lt revision (clock_after last at) in
            let own : minutes ≤ 1440 = rw a at within.own_return in
            let pack : revision.pack_up_minutes ≤ 1440 = within.pack_up in ground arith
      ]
    ]
  ]

  interval_start-bounds :
      (s : DateTime)
      → (effective_person_interval revision assignment).start ≡ some s
      → (revision.work_date * day ≤ s + day) × (s < (revision.work_date + 2) * day)
  unfolding effective_person_interval interval_start
  interval_start-bounds s h = elim (Option-cases (start_of revision assignment)) [
    | inl a ↦ ground arith
    | inr (t, a) ↦ elim (Option-cases revision.on_track_time) [
      | inl c ↦
          let same = clock_on_workday-same_day revision t within.same_day in
          let clock : t < day = rw a at start_of-IsClock in
          let truck : revision.truck_start_offset_minutes ≤ 1440 = within.truck in ground arith
      | inr (on_track, c) ↦
          let same = clock_on_workday-same_day revision t within.same_day in
          let at_track = clock_on_workday-same_day revision on_track within.same_day in
          let early : on_track + 25 * minute ≤ day = rw c at within.on_track in
          let clock : t < day = rw a at start_of-IsClock in
          let truck : revision.truck_start_offset_minutes ≤ 1440 = within.truck in
          let hotel : get_or revision.hotel_to_track_minutes 0 ≤ 1440 = within.hotel in
          let own : get_or assignment.hotel_to_track_minutes_override 0 ≤ 1440 = within.own_hotel in
          ground arith
    ]
  ]

  finish_of-IsClock : IsClock (finish_of revision assignment)
  finish_of-IsClock =
      elim (Option-cases (returned_at (combine revision.work_date) revision assignment)) [
        | inl a ↦ rw a (ground arith)
        | inr (e, a) ↦ rw a (omega arith)
      ]

  interval_finish-lt :
      (f : DateTime)
      → interval_finish revision assignment (effective_person_travel revision assignment) ≡ some f
      → f < (revision.work_date + 4) * day
  unfolding interval_finish effective_person_travel
  interval_finish-lt f h =
      elim (Option-cases (returned_at (clock_on_workday revision) revision assignment)) [
        | inr (e, b) ↦ ground (arith, returned_at-lt e)
        | inl b ↦ elim (Option-cases (finish_of revision assignment)) [
          | inl c ↦ ground arith
          | inr (finish, c) ↦
              let same = clock_on_workday-same_day revision finish within.same_day in
              let clock : finish < day = rw c at finish_of-IsClock in ground arith
        ]
      ]

-- The effective interval of an assignment whose minutes are in their range, on a day that does not
-- end before it starts on the clock and is on track by 23:35, starts at most one day before its work
-- date and finishes at most three days after it.
pub interval_window :
    (revision : WorkdayRevision) (assignment : Assignment) (s e : DateTime)
    → IsWithin revision assignment
    → (effective_person_interval revision assignment).start ≡ some s
    → (effective_person_interval revision assignment).finish ≡ some e
    → (revision.work_date ≤ date_of s + 1) × (date_of e ≤ revision.work_date + 3)
interval_window revision assignment s e within hs he =
    let (f, ef, ordered, clock, moved) = interval_ordered revision assignment s e hs he in
    let (lo, hi) = interval_start-bounds within s hs in
    let last = interval_finish-lt within f ef in ground arith
