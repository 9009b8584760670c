-- ===== src/Rostering/Publication.antt =====
-- app/rostering/service.py: `_publish`. The fingerprint of a set of conflicts (`_conflict_state`, a
-- SHA-256 digest of its text) and the time zone are parameters. An exception is its message.
pub mod Checks
pub mod Travel
pub mod Crew
pub mod Promotion
pub mod Sent
pub mod Outcome
pub mod Kept
pub mod Published
pub mod Succeeds
use on_track_rostering.Prelude.{
  ℕ, suc, ◌+◌, Bool, true, false, ◌&&◌, ◌||◌, not, Option, none, some, List, [], ◌∷◌, ◌++◌, String,
  ◌==◌, opt_eq, any, filter, map, flat_map, is_some, is_none, length, if◌then◌else◌,
}
use text.Mathlib.Text.{◌==◌ as str_eq}
use on_track_rostering.Enums.{
  RevisionState, is_scheduled, is_open_slot, OpenApplicationStatus, is_selected,
}
use on_track_rostering.Errors.{Result, ok, err, ◌>>=◌, ◌>>◌}
use on_track_rostering.Clock.{DateTime}
use on_track_rostering.ContractorAccess.{Zone}
use on_track_rostering.Rostering.Models.{
  Workday, WorkdayRevision, Assignment, OpenPositionApplication,
}
use on_track_rostering.Rostering.Store.{
  Store, Notice, audit, event, human_change, get_revision, get_optional, assignments_of,
  put_workday, put_revision, notify,
}
use on_track_rostering.Rostering.Conflicts.{RosterConflict}
use on_track_rostering.Rostering.Diff.{PublicationChange, row_at, publication_diff}
use on_track_rostering.Rostering.Publication.Checks.{
  PublishInput, publish_checks, published_revision, published_workday,
}
use on_track_rostering.Rostering.Publication.Travel.{publish_travel}
use on_track_rostering.Rostering.Publication.Crew.{record_all_worked, refresh_crew}

-- Whether an application was selected for the person who now holds its slot in the draft.
abbrev pub is_accepted : List Assignment → ℕ → OpenPositionApplication → Bool
is_accepted rows draft_id a =
    is_selected a.status
    && opt_eq a.selected_draft_revision_id (some draft_id)
    && (elim (row_at a.slot_key rows) [
      | none ↦ false
      | some row ↦ opt_eq row.person_id (some a.person_id)
    ])

abbrev pub decided :
    List Assignment → ℕ → DateTime → OpenPositionApplication → OpenPositionApplication
decided rows draft_id now a = record a {
  status =
      if is_accepted rows draft_id a
      then OpenApplicationStatus.accepted
      else OpenApplicationStatus.not_selected;
  decided_at = some now;
}

-- The applications for the publication that the draft replaces are decided.
unfoldable pub decide_applications : WorkdayRevision → DateTime → Store → Store
decide_applications draft now db = record db {
  applications =
      map
        (λ a.
          if opt_eq draft.based_on_revision_id (some a.revision_id)
          then decided (assignments_of db draft.id) draft.id now a
          else a)
        db.applications;
}

-- One line of history for each change, or one where there is none, and one for the reason.
abbrev pub change_notices : List PublicationChange → Workday → WorkdayRevision → ℕ → List Notice
change_notices changes workday draft actor =
    (elim changes [
      | [] ↦ human_change workday.id draft.id actor ∷ []
      | c ∷ cs ↦ map (λ x. human_change workday.id draft.id actor) (c ∷ cs)
    ])
    ++ (if str_eq draft.change_reason "" then [] else human_change workday.id draft.id actor ∷ [])

abbrev pub published_notices : ℕ → ℕ → ℕ → List Notice
published_notices workday revision actor =
    audit "workday.published" workday actor ∷ event "ROSTER_PUBLISHED" workday revision none ∷ []

abbrev pub travel_notices : Option (Workday × WorkdayRevision) → ℕ → List Notice
travel_notices none actor = []
travel_notices (some (w, r)) actor = published_notices w.id r.id actor

-- The events for the positions that the publication leaves open.
abbrev pub open_notices : Workday → ℕ → List Assignment → List Notice
open_notices workday draft_id rows =
    if is_scheduled workday.status
    then map (λ row. event "OPEN_POSITION_AVAILABLE" workday.id draft_id (some row.slot_key))
        (filter (λ row. is_open_slot row.status && is_some row.base_position_id) rows)
    else []

-- What follows once the revision and its Travel are published.
unfoldable pub after_publication :
    Zone
    → Workday
    → WorkdayRevision
    → Option (Workday × WorkdayRevision)
    → List PublicationChange
    → ℕ
    → DateTime
    → Store
    → Store
unfolding notify record_all_worked decide_applications refresh_crew
after_publication zone workday draft travel changes actor now db =
    let worked = record_all_worked draft.id actor (assignments_of db draft.id) db in
    let decided_all = decide_applications draft now worked in
    let noticed =
      notify
        (change_notices changes workday draft actor
          ++ (published_notices workday.id draft.id actor
              ++ (travel_notices travel actor
                  ++ open_notices workday draft.id (assignments_of db draft.id))))
        decided_all in
    refresh_crew zone draft.id actor now noticed

-- `_publish`: the store after it, and the published revision.
unfoldable pub publish :
    Zone
    → (List RosterConflict → String)
    → PublishInput
    → DateTime
    → Store
    → Result (Store × WorkdayRevision)
unfolding after_publication
publish zone state_of t now db = do
  (workday, draft) ← publish_checks state_of t db
  let previous = get_optional (get_revision db) workday.current_published_revision_id
  let changes = publication_diff db previous draft
  let published = published_revision draft t.actor_user_id now
  let current = published_workday workday draft.id
  (sent, travel) ←
      publish_travel current published t.actor_user_id now
        (put_workday current (put_revision published db))
  ok (after_publication zone current published travel changes t.actor_user_id now sent, published)
