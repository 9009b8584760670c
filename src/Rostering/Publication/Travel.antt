-- ===== src/Rostering/Publication/Travel.antt =====
-- `_publish` of app/rostering/service.py: the generated Travel workday of an operation is cancelled
-- or published with its parent.
use on_track_rostering.Prelude.{
  ℕ, ◌+◌, Bool, true, false, not, Option, none, some, List, [], ◌∷◌, is_none, get_or, if◌then◌else◌,
}
use on_track_rostering.Enums.{WorkdayStatus, is_scheduled, is_draft}
use on_track_rostering.Errors.{Error, Result, ok, publish_conflict, ◌>>◌, reject_if}
use on_track_rostering.Clock.{DateTime}
use on_track_rostering.Rostering.Models.{Workday, WorkdayRevision}
use on_track_rostering.Rostering.Store.{
  Store, Notice, audit, event, put_workday, put_revision, notify,
}
use on_track_rostering.Rostering.Conflicts.{generated_travel, travel_draft}
use on_track_rostering.Rostering.Publication.Checks.{published_revision, published_workday}

abbrev pub is_cancelled : WorkdayStatus → Bool
is_cancelled WorkdayStatus.cancelled = true
is_cancelled _ = false

abbrev pub cancelled : Workday → Workday
cancelled travel = record travel {
  status = WorkdayStatus.cancelled;
  lock_version = travel.lock_version + 1;
}

-- The event names the publication of the Travel, with 0 where there is none.
abbrev pub cancelled_notices : Workday → ℕ → List Notice
cancelled_notices travel actor =
    audit "workday.status_changed" travel.id actor
    ∷ event "ROSTER_PUBLISHED" travel.id (get_or travel.current_published_revision_id 0) none
    ∷ []

abbrev pub travel_not_draft : Error
travel_not_draft = publish_conflict "The generated Travel Day is no longer an editable draft."

abbrev pub scheduled : Workday → Workday
scheduled travel = record travel { status = WorkdayStatus.scheduled }

abbrev pub reinstated_notices : Workday → ℕ → List Notice
reinstated_notices travel actor =
    if is_scheduled travel.status then [] else audit "workday.status_changed" travel.id actor ∷ []

unfoldable pub cancel_travel : Workday → ℕ → Store → Store
unfolding put_workday notify
cancel_travel travel actor db =
    if is_cancelled travel.status
    then db
    else notify (cancelled_notices travel actor) (put_workday (cancelled travel) db)

unfoldable pub send_travel :
    Workday
    → WorkdayRevision
    → ℕ
    → DateTime
    → Store
    → Result (Store × Option (Workday × WorkdayRevision))
unfolding put_workday put_revision notify
send_travel travel draft actor now db =
    let sent = published_workday (scheduled travel) draft.id in
    let revision = published_revision draft actor now in
    do
      reject_if (not (is_draft draft.state)) travel_not_draft
      ok (
        notify (reinstated_notices travel actor) (put_workday sent (put_revision revision db)),
        some (sent, revision),
      )

-- The current draft of the Travel, if there is one.
abbrev pub send_found :
    Workday
    → Option WorkdayRevision
    → ℕ
    → DateTime
    → Store
    → Result (Store × Option (Workday × WorkdayRevision))
send_found travel none actor now db = ok (db, none)
send_found travel (some revision) actor now db = send_travel travel revision actor now db

abbrev pub travel_with :
    Option Workday
    → Bool
    → ℕ
    → DateTime
    → Store
    → Result (Store × Option (Workday × WorkdayRevision))
travel_with none enabled actor now db = ok (db, none)
travel_with (some travel) false actor now db = ok (cancel_travel travel actor db, none)
travel_with (some travel) true actor now db =
    send_found travel (travel_draft db travel) actor now db

-- The Travel that is published with the workday, if any.
unfoldable pub publish_travel :
    Workday
    → WorkdayRevision
    → ℕ
    → DateTime
    → Store
    → Result (Store × Option (Workday × WorkdayRevision))
publish_travel workday draft actor now db =
    if is_none workday.operation_id
    then ok (db, none)
    else travel_with (generated_travel db workday.id) draft.standard_travel_enabled actor now db
