-- ===== src/Rostering/Publication/Succeeds.antt =====
-- A `_publish` of app/rostering/service.py that passes its checks goes through.
use on_track_rostering.Prelude.{
  ℕ, String, Bool, true, false, Option, none, some, List, ◌≡◌, inl, inr, refl, subst, sym,
  Bool-cases, is_none,
}
use on_track_rostering.Enums.{RevisionState, is_draft}
use on_track_rostering.Errors.{Result, ok}
use on_track_rostering.Clock.{DateTime}
use on_track_rostering.ContractorAccess.{Zone}
use on_track_rostering.Rostering.Models.{Workday, WorkdayRevision}
use on_track_rostering.Rostering.Store.{Store}
use on_track_rostering.Rostering.Conflicts.{RosterConflict, generated_travel, travel_draft}
use on_track_rostering.Rostering.Drafts.Pointers.{IsPointed}
use on_track_rostering.Rostering.Publication.{publish}
use on_track_rostering.Rostering.Publication.Checks.{
  PublishInput, published_revision, published_workday,
}
use on_track_rostering.Rostering.Publication.Kept.{generated_travel-Has, travel_draft-found}
use on_track_rostering.Rostering.Publication.Outcome.{IsPublishable, publish_checks-ok_iff}
use on_track_rostering.Rostering.Publication.Published.{promoted_publishable-IsPointed}
use on_track_rostering.Rostering.Publication.Promotion.{promoted}
use on_track_rostering.Rostering.Publication.Travel.{
  publish_travel, travel_with, send_found, send_travel, cancel_travel,
}

-- A result that is a value.
abbrev Gives : Result (Store × Option (Workday × WorkdayRevision)) → Type 0
Gives r = (p : Store × Option (Workday × WorkdayRevision)) × (r ≡ ok p)

send_found-Gives :
    (travel : Workday) (draft : Option WorkdayRevision) (actor : ℕ) (now : DateTime) (db : Store)
    → ((d : WorkdayRevision) → draft ≡ some d → d.state ≡ RevisionState.draft)
    → Gives (send_found travel draft actor now db)
unfolding send_travel
send_found-Gives travel none actor now db h = ((db, none), refl)
send_found-Gives travel (some d) actor now db h =
    let e : is_draft d.state ≡ true = subst (λ s. is_draft s ≡ true) (sym (h d refl)) refl in
    rw e (_, refl)

travel_with-Gives :
    (travel : Option Workday) (enabled : Bool) (actor : ℕ) (now : DateTime) (db : Store)
    → ((w : Workday) (d : WorkdayRevision)
        → travel ≡ some w
        → travel_draft db w ≡ some d
        → d.state ≡ RevisionState.draft)
    → Gives (travel_with travel enabled actor now db)
travel_with-Gives none enabled actor now db h = ((db, none), refl)
travel_with-Gives (some w) false actor now db h = ((cancel_travel w actor db, none), refl)
travel_with-Gives (some w) true actor now db h =
    send_found-Gives w (travel_draft db w) actor now db (λ d e. h w d refl e)

publish_travel-Gives :
    (workday : Workday) (draft : WorkdayRevision) (actor : ℕ) (now : DateTime) (db : Store)
    → IsPointed db
    → Gives (publish_travel workday draft actor now db)
unfolding publish_travel
publish_travel-Gives workday draft actor now db pointed =
    elim (Bool-cases (is_none workday.operation_id)) [
      | inl e ↦ ((db, none), rw e refl)
      | inr e ↦ rw e (
          travel_with-Gives (generated_travel db workday.id) draft.standard_travel_enabled actor now
            db
            (λ w d h hd.
              let own = pointed w (generated_travel-Has db workday.id w h).0 in
              let (found, current) = travel_draft-found db w d hd in
              let (r, hr, state, _) = own.draft d.id current in
              let is_it : r ≡ d = cc (hr, found) in cc (is_it, state)))
    ]

-- In a store whose workdays point to their own revisions, a publication that passes its checks always
-- goes through: nothing that it does for the Travel, the people and the applications can refuse it.
pub publish_succeeds :
    (zone : Zone) (state_of : List RosterConflict → String) (t : PublishInput) (now : DateTime)
    (db : Store) (workday : Workday) (draft : WorkdayRevision)
    → IsPointed db
    → IsPublishable state_of t db workday draft
    → (after : Store) × (revision : WorkdayRevision) × (publish zone state_of t now db
        ≡ ok (after, revision))
unfolding publish
publish_succeeds zone state_of t now db workday draft pointed checked =
    let mid = promoted workday draft t.actor_user_id now db in
    let current = published_workday workday draft.id in
    let revision = published_revision draft t.actor_user_id now in
    let (p, e) =
      publish_travel-Gives current revision t.actor_user_id now mid
        (promoted_publishable-IsPointed now checked pointed) in
    rw ((publish_checks-ok_iff state_of t db workday draft).1 checked, e) (_, revision, refl)
