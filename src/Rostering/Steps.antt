-- ===== src/Rostering/Steps.antt =====
-- The operations of the rostering services as steps of one system, in any order: edits, new
-- drafts, publications, declines and responses of app/rostering/service.py, applications and selections of
-- app/open_positions/service.py, preferences of app/positions/service.py and the scheduled refresh of
-- app/identity/contractor_access.py.
pub mod History
pub mod Pointed
use on_track_rostering.Prelude.{ℕ, Option, List, String, ◌≡◌}
use on_track_rostering.Errors.{ok}
use on_track_rostering.Clock.{DateTime}
use on_track_rostering.Rostering.Models.{
  WorkdayRevision, OpenPositionApplication, ReplacementResponse,
}
use on_track_rostering.Rostering.Store.{Store}
use on_track_rostering.Rostering.Drafts.Copy.{ensure_draft}
use on_track_rostering.Rostering.Drafts.Commands.{Edit, apply_edit}
use on_track_rostering.Rostering.Decline.{decline_published_assignment, respond_to_reschedule}
use on_track_rostering.Auth.Policy.{Actor}
use on_track_rostering.OpenPositions.{select_application}
use on_track_rostering.OpenPositions.Apply.{apply_for_position}
use on_track_rostering.ContractorAccess.{Zone, AccessCounts, refresh_all_contractor_access}
use on_track_rostering.Positions.Signals.{Preference, Family, set_preference_signal}
use on_track_rostering.Rostering.Conflicts.{RosterConflict}
use on_track_rostering.Rostering.Publication.{publish}
use on_track_rostering.Rostering.Publication.Checks.{PublishInput}

-- One successful operation.
pub data Step : Store → Store → Type 0 where
  edits :
      {db after : Store} (e : Edit) (w i v : ℕ) → apply_edit e db w i v ≡ ok after → Step db after
  starts :
      {db after : Store} (w actor : ℕ) (draft : Option WorkdayRevision)
      → ensure_draft db w actor ≡ ok (after, draft)
      → Step db after
  declines :
      {db after : Store} (w slot person actor : ℕ) (now : DateTime) (new : WorkdayRevision)
      → decline_published_assignment db w slot person actor now ≡ ok (after, new)
      → Step db after
  responds :
      {db after : Store} (w person actor : ℕ) (response : ReplacementResponse) (now : DateTime)
      → respond_to_reschedule db w person response actor now ≡ ok after
      → Step db after
  selects :
      {db after : Store} (w i v : ℕ) (application : OpenPositionApplication)
      → select_application db w i application v ≡ ok after
      → Step db after
  applies :
      {db after : Store} (canonical : String → String) (actor : Actor) (w slot : ℕ)
      (application : OpenPositionApplication)
      → apply_for_position canonical db actor w slot ≡ ok (after, application)
      → Step db after
  publishes :
      {db after : Store} (zone : Zone) (state_of : List RosterConflict → String) (t : PublishInput)
      (now : DateTime) (revision : WorkdayRevision)
      → publish zone state_of t now db ≡ ok (after, revision)
      → Step db after
  refreshes :
      {db after : Store} (zone : Zone) (now : DateTime) (counts : AccessCounts)
      → refresh_all_contractor_access zone now db ≡ (after, counts)
      → Step db after
  prefers :
      {db after : Store} (person position actor : ℕ) (preference : Preference) (family : Family)
      → set_preference_signal person position preference actor family db ≡ ok after
      → Step db after

-- Any number of operations, one after the other.
pub data Reach : Store → Store → Type 0 where
  stay : {db : Store} → Reach db db
  then_step : {db mid after : Store} → Reach db mid → Step mid after → Reach db after
