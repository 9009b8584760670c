-- ===== src/Rostering/Travel/Rollover.antt =====
-- What an interval's roll-over guarantees.
use on_track_rostering.Prelude.{
  ℕ, zero, suc, ◌+◌, ◌-◌, ◌*◌, ◌≤◌, ◌<◌, ◌≡◌, ◌⊎◌, inl, refl, true, Option, none, some, arith,
}
use on_track_rostering.Clock.{Time, DateTime, day, minute, time_of, combine}
use on_track_rostering.Rostering.Models.{WorkdayRevision, Assignment}
use on_track_rostering.Rostering.Travel.Effective.{
  effective_person_travel, leaves_early, resolved_start, clock_on_workday,
}
use on_track_rostering.Rostering.Travel.Interval.{
  roll_past, rounds, rolled, interval_start, interval_finish, effective_person_interval,
}

-- Enough rounds end the loop by its test, at the first instant after the start that the clock
-- shows like the finish.
pub roll_past_lem :
    (fuel : ℕ) (s f : DateTime)
    → s < f + fuel * day
    → (s < roll_past fuel s f)
      × (time_of (roll_past fuel s f) ≡ time_of f)
      × ((roll_past fuel s f ≡ f) ⊎ (roll_past fuel s f ≤ s + day))
unfolding roll_past
roll_past_lem zero s f h = (omega arith, refl, inl refl)
roll_past_lem (suc fuel) s f h =
    ground (arith, λ (p : s < (f + day) + fuel * day). roll_past_lem fuel s (f + day) p)

rolled_lem :
    (start finish : Option DateTime) (s e : DateTime)
    → start ≡ some s
    → rolled start finish ≡ some e
    → (f : DateTime) × (finish ≡ some f)
      × (s < e)
      × (time_of e ≡ time_of f)
      × ((e ≡ f) ⊎ (e ≤ s + day))
rolled_lem (some a) (some f) s e hs he = (
  f,
  refl,
  ground (arith, roll_past_lem (rounds a) a f),
  ground (arith, roll_past_lem (rounds a) a f),
  ground (arith, roll_past_lem (rounds a) a f),
)
rolled_lem (some a) none s e hs he = cc
rolled_lem none finish s e hs he = cc

-- An effective interval with known ends ends after it starts, whatever its clock times, and at the
-- clock time of its finish before the roll-over; if the roll-over moved the finish at all, it is
-- within a day of the start.
pub interval_ordered :
    (revision : WorkdayRevision) (assignment : Assignment) (s e : DateTime)
    → (effective_person_interval revision assignment).start ≡ some s
    → (effective_person_interval revision assignment).finish ≡ some e
    → (f : DateTime) × (interval_finish revision assignment
          (effective_person_travel revision assignment)
        ≡ some f)
      × (s < e)
      × (time_of e ≡ time_of f)
      × ((e ≡ f) ⊎ (e ≤ s + day))
unfolding effective_person_interval
interval_ordered revision assignment s e hs he =
    let effective = effective_person_travel revision assignment in
    rolled_lem (interval_start revision assignment effective)
      (interval_finish revision assignment effective) s e hs he

-- Where a truck leaves early on a day that does not end before it starts on the clock, and the
-- offset does not reach the day before, the person's effective start is the resolved start less the
-- truck offset, and the interval starts earlier than that by the truck offset once more.
pub truck_interval-offset_again :
    (revision : WorkdayRevision) (assignment : Assignment) (start end clock : Time)
    → leaves_early revision assignment ≡ true
    → resolved_start revision assignment ≡ some clock
    → revision.start_time ≡ some start
    → revision.end_time ≡ some end
    → start ≤ end
    → clock < day
    → revision.truck_start_offset_minutes * minute ≤ clock
    → 1 ≤ revision.work_date
    → (t : Time) × (s : DateTime) × ((effective_person_travel revision assignment).start ≡ some t)
      × ((effective_person_interval revision assignment).start ≡ some s)
      × (t + revision.truck_start_offset_minutes * minute ≡ clock)
      × (s + revision.truck_start_offset_minutes * minute ≡ combine revision.work_date t)
unfolding effective_person_interval interval_start clock_on_workday
truck_interval-offset_again revision assignment start end clock early resolved hs he ordered h
      offset late =
    (
      clock - o,
      combine revision.work_date (clock - o) - o,
      ground arith,
      ground arith,
      omega arith,
      omega arith,
    )
  where
    o : ℕ
    o = revision.truck_start_offset_minutes * minute
