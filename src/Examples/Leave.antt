-- ===== src/Examples/Leave.antt =====
-- Leave of one person, created and then cancelled.
use on_track_rostering.Prelude.{some, [], ◌∷◌, ◌≡◌, refl}
use on_track_rostering.Enums.{Lifecycle}
use on_track_rostering.Errors.{ok, err}
use on_track_rostering.Text.{strip, codes}
use on_track_rostering.Identity.{Person}
use on_track_rostering.Unavailability.{
  LeaveTables, PersonUnavailability, new_leave, create_unavailability, cancel_unavailability,
  already_on_leave, active_overlapping, add_leave,
}
use on_track_rostering.Unavailability.Disjoint.{
  IsDisjoint, stay, creates, cancels, LeaveSteps-IsDisjoint,
}

abbrev ana : Person
ana = record { id = 7; display_name = "Ana"; lifecycle = Lifecycle.active; home_region_id = some 5 }

abbrev no_leave : LeaveTables
no_leave = record { people = ana ∷ []; leave = []; audits = []; next_id = 100 }

abbrev week : PersonUnavailability
week = new_leave 100 7 20000 20006 "Away" 90

abbrev on_leave : LeaveTables
on_leave = record no_leave {
  leave = week ∷ [];
  audits = ("person_unavailability.created", 100) ∷ [];
  next_id = 101;
}

created : create_unavailability no_leave 7 20000 20006 " Away " 90 ≡ ok (on_leave, week)
unfolding create_unavailability active_overlapping add_leave strip codes
created = refl

refused : create_unavailability on_leave 7 20006 20008 "" 90 ≡ err already_on_leave
unfolding create_unavailability active_overlapping add_leave strip codes
refused = refl

abbrev off_leave : LeaveTables
off_leave = record on_leave {
  leave = record week { cancelled_at = some 5000; cancelled_by_user_id = some 90 } ∷ [];
  audits = ("person_unavailability.created", 100) ∷ ("person_unavailability.cancelled", 100) ∷ [];
}

ended : cancel_unavailability on_leave week 90 5000 ≡ ok off_leave
unfolding cancel_unavailability
ended = refl

LeaveSteps-IsDisjoint_example : IsDisjoint off_leave.leave
LeaveSteps-IsDisjoint_example =
    LeaveSteps-IsDisjoint
      (cancels week 90 5000 (creates 7 20000 20006 " Away " 90 week stay created) ended) tt
