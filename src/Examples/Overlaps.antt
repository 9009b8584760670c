-- ===== src/Examples/Overlaps.antt =====
-- The conflicts of the example store's draft: person 7 is rostered on both days.
use on_track_rostering.Prelude.{
  ◌≡◌, ◌*◌, ◌⊎◌, refl, inl, true, false, none, some, [], ◌∷◌, Has, arith,
}
use on_track_rostering.Clock.{DateTime, minute, combine}
use on_track_rostering.Rostering.Store.{assignments_of}
use on_track_rostering.Rostering.Travel.Effective.{clock_on_workday}
use on_track_rostering.Rostering.Travel.Interval.{
  effective_person_interval, interval_start, interval_finish, roll_past,
}
use on_track_rostering.Rostering.Travel.Window.{IsWithin}
use on_track_rostering.Rostering.Candidates.{
  Candidate, current_rows, known_dates, earliest, latest, candidates, draft_candidates,
}
use on_track_rostering.Rostering.Conflicts.{
  RosterConflict, person, overlapping, publication_conflicts, operation_publication_conflicts,
  generated_conflicts, operation_related, overlap, offered_conflicts, row_conflicts, matches,
  append_new,
}
use on_track_rostering.Rostering.Conflicts.Keys.{IsUnique, IsReported}
use on_track_rostering.Rostering.Conflicts.Reports.{
  IsClash, publication_conflicts-IsClash, operation_publication_conflicts-keys,
}
use on_track_rostering.Rostering.Candidates.Dates.{IsRostered}
use on_track_rostering.Rostering.Conflicts.Complete.{IsTimedRow, publication_conflicts_complete}
use on_track_rostering.Examples.{workday, assignment, published_day, draft_day, store}

abbrev starts : DateTime
starts = combine 20000 (600 * minute)

abbrev ends : DateTime
ends = combine 20000 (1080 * minute)

abbrev other : Candidate
other = record {
  workday = workday 11 (some 1) none;
  revision = published_day;
  assignment = assignment 21 1;
}

other_starts : (effective_person_interval published_day (assignment 21 1)).start ≡ some starts
unfolding effective_person_interval interval_start clock_on_workday
other_starts = refl

other_ends : (effective_person_interval published_day (assignment 21 1)).finish ≡ some ends
unfolding effective_person_interval interval_start interval_finish clock_on_workday roll_past
other_ends = refl

other-IsWithin : IsWithin published_day (assignment 21 1)
other-IsWithin = record {
  same_day = λ start end hs he. ground arith;
  start = omega arith;
  end = omega arith;
  last_race = omega arith;
  last_trial = tt;
  on_track = omega arith;
  own_start = tt;
  own_end = tt;
  hotel = omega arith;
  own_hotel = omega arith;
  pack_up = omega arith;
  truck = omega arith;
  own_return = omega arith;
}

row-IsTimedRow : IsTimedRow store draft_day (assignment 22 2) starts ends
unfolding assignments_of effective_person_interval interval_start interval_finish clock_on_workday
    roll_past
row-IsTimedRow = record { own = inl refl; assigned = refl; start = refl; finish = refl }

other-IsRostered : IsRostered store other
other-IsRostered = record {
  workday_stored = inl refl;
  revision_stored = inl refl;
  row_stored = inl refl;
  current = refl;
  in_revision = refl;
  scheduled = refl;
  assigned = refl;
}

unrelated : operation_related (workday 12 none (some 2)) (workday 11 (some 1) none) ≡ false
unfolding operation_related
unrelated = refl

publication_conflicts_complete_example :
    (c : RosterConflict) × (c.kind ≡ person)
    × (c.subject_id ≡ 7)
    × (c.other_workday_id ≡ 11)
    × IsReported c
        (publication_conflicts store (workday 12 none (some 2)) draft_day (some (5 ∷ [])) false)
publication_conflicts_complete_example =
    publication_conflicts_complete store (workday 12 none (some 2)) draft_day (some (5 ∷ []))
      (assignment 22 2) other starts ends starts ends 7 refl row-IsTimedRow other-IsRostered
      other-IsWithin (omega arith) unrelated other_starts other_ends (omega arith) (omega arith)
      refl refl

abbrev conflict : RosterConflict
conflict = record {
  kind = person;
  subject_id = 7;
  subject = "Ana";
  other_workday_id = 11;
  other_title = "Race Day";
  other_location = "Ellerslie";
  timing = overlapping starts ends;
  detail_visible = true;
}

conflicts :
    publication_conflicts store (workday 12 none (some 2)) draft_day (some (5 ∷ [])) false
    ≡ conflict ∷ []
unfolding publication_conflicts offered_conflicts draft_candidates candidates current_rows
    known_dates earliest latest row_conflicts matches append_new operation_related overlap
    assignments_of effective_person_interval interval_start interval_finish clock_on_workday
    roll_past
conflicts = refl

reported :
    Has conflict
      (publication_conflicts store (workday 12 none (some 2)) draft_day (some (5 ∷ [])) false)
reported = rw conflicts (inl refl)

publication_conflicts-IsClash_example : IsClash store (workday 12 none (some 2)) draft_day conflict
publication_conflicts-IsClash_example =
    publication_conflicts-IsClash store (workday 12 none (some 2)) draft_day (some (5 ∷ [])) false
      conflict reported

operation_publication_conflicts-keys_example :
    IsUnique
      (operation_publication_conflicts store (workday 12 none (some 2)) draft_day (some (5 ∷ [])))
    × ((c : RosterConflict)
        → Has c
            (publication_conflicts store (workday 12 none (some 2)) draft_day (some (5 ∷ [])) false)
          ⊎ Has c (generated_conflicts store (workday 12 none (some 2)) draft_day (some (5 ∷ [])))
        → IsReported c (
            operation_publication_conflicts store
              (workday 12 none (some 2))
              draft_day
              (some (5 ∷ []))))
operation_publication_conflicts-keys_example =
    operation_publication_conflicts-keys store (workday 12 none (some 2)) draft_day (some (5 ∷ []))
