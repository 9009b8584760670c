-- ===== src/Examples/Days.antt =====
-- A person's day over two rows, the participation of a workday, and a fortnight.
use on_track_rostering.Prelude.{
  ◌+◌, ◌*◌, ◌%◌, ◌≤◌, ◌≡◌, ◌↔◌, Bool, leb, none, some, [], ◌∷◌, Has, inl, refl, arith,
}
use on_track_rostering.Clock.{DateTime, minute, combine}
use on_track_rostering.Rostering.Models.{Workday, WorkdayRevision, Assignment}
use on_track_rostering.Rostering.Store.{Store, get_workday}
use on_track_rostering.Rostering.Travel.Effective.{clock_on_workday}
use on_track_rostering.Rostering.Travel.Interval.{
  effective_person_interval, interval_start, interval_finish, roll_past,
}
use on_track_rostering.Participation.{span, person_day_participation, active_published_assignments}
use on_track_rostering.Participation.Active.{IsActive, active_published_assignments_iff}
use on_track_rostering.Participation.Day.{IsDay, person_day_participation-IsDay}
use on_track_rostering.Hours.{ahead, back, fortnight_bounds, format_minutes}
use on_track_rostering.Hours.Fortnights.{fortnight_bounds_tile}
use on_track_rostering.Text.{decimal}
use on_track_rostering.Examples.{workday, assignment, published_day, store}

abbrev by_slot : Assignment → Assignment → Bool
by_slot a b = leb a.slot_key b.slot_key

own_span :
    span published_day (assignment 21 1)
    ≡ some (combine 20000 (600 * minute), combine 20000 (1080 * minute))
unfolding span effective_person_interval interval_start interval_finish clock_on_workday roll_past
own_span = refl

person_day_participation-IsDay_example :
    (lo : DateTime) × (hi : DateTime) × IsDay published_day
      (assignment 21 1 ∷ assignment 23 1 ∷ [])
      (person_day_participation by_slot published_day (assignment 21 1 ∷ assignment 23 1 ∷ []))
      lo
      hi
person_day_participation-IsDay_example =
    person_day_participation-IsDay by_slot published_day (assignment 21 1 ∷ assignment 23 1 ∷ [])
      (assignment 21 1) (combine 20000 (600 * minute), combine 20000 (1080 * minute)) (inl refl)
      own_span

-- The Travel workday 13 that workday 11 has generated.
abbrev travel : Workday
travel = record (workday 13 (some 4) none) { generated_from_workday_id = some 11 }

abbrev travel_day : WorkdayRevision
travel_day = record published_day { id = 4; workday_id = 13 }

abbrev travelling : Store
travelling = record store {
  workdays = workday 11 (some 1) none ∷ travel ∷ [];
  revisions = published_day ∷ travel_day ∷ [];
  assignments = assignment 21 1 ∷ assignment 24 4 ∷ [];
}

still_travels :
    active_published_assignments travelling travel travel_day (assignment 24 4 ∷ [])
    ≡ assignment 24 4 ∷ []
unfolding active_published_assignments get_workday
still_travels = refl

active_published_assignments_iff_example :
    Has
      (assignment 24 4)
      (active_published_assignments travelling travel travel_day (assignment 24 4 ∷ []))
    ↔ IsActive travelling travel travel_day (assignment 24 4 ∷ []) (assignment 24 4)
active_published_assignments_iff_example =
    active_published_assignments_iff travelling travel travel_day (assignment 24 4 ∷ [])
      (assignment 24 4)

eight_and_a_half : format_minutes 510 ≡ "8h 30m"
unfolding format_minutes decimal
eight_and_a_half = refl

fortnight_bounds_tile_example :
    ((fortnight_bounds (ahead 0) 740000 740100).0 ≤ 740000)
    × (740000 ≤ (fortnight_bounds (ahead 0) 740000 740100).1)
    × ((fortnight_bounds (ahead 0) 740000 740100).0 % 14 ≡ 740100 % 14)
    × ((fortnight_bounds (ahead 2) 740000 740100).1
        ≡ (fortnight_bounds (ahead 2) 740000 740100).0 + 13)
    × ((fortnight_bounds (ahead 3) 740000 740100).0
        ≡ (fortnight_bounds (ahead 2) 740000 740100).1 + 1)
    × (2 * 14 + 27 ≤ 740000
        → (fortnight_bounds (back 3) 740000 740100).1 + 1
          ≡ (fortnight_bounds (back 2) 740000 740100).0)
fortnight_bounds_tile_example = fortnight_bounds_tile 740000 740100 2 (omega arith)
