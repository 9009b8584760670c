-- ===== src/Rostering/Publication/Sent.antt =====
-- What `_publish` of app/rostering/service.py does to the generated Travel of a workday, and what
-- follows the publication.
use on_track_rostering.Prelude.{
  ℕ, true, false, not, Option, none, some, List, [], ◌∷◌, ◌≡◌, inl, inr, refl, subst, ap,
  Bool-cases, Option-cases, is_none, Bool,
}
use on_track_rostering.Enums.{RevisionState, is_draft, is_assigned}
use on_track_rostering.Errors.{ok, reject_if-eq-ok, ok-injective}
use on_track_rostering.Clock.{DateTime}
use on_track_rostering.Identity.{User}
use on_track_rostering.ContractorAccess.{Zone, refresh_contractor_access}
use on_track_rostering.ContractorAccess.Expiry.{refresh-SameRoster}
use on_track_rostering.Positions.Preferences.{record_worked-SameRoster}
use on_track_rostering.Rostering.Models.{Workday, WorkdayRevision, Assignment}
use on_track_rostering.Rostering.Store.{
  Store, SameRoster, SameRoster-refl, SameRoster-trans, put_workday, notify,
}
use on_track_rostering.Rostering.Conflicts.{generated_travel, travel_draft}
use on_track_rostering.Rostering.Publication.Crew.{
  record_row_worked, record_all_worked, refresh_users,
}
use on_track_rostering.Rostering.Publication.Travel.{
  is_cancelled, cancelled, scheduled, cancelled_notices, reinstated_notices, cancel_travel,
  send_travel, send_found, travel_with, publish_travel, travel_not_draft,
}
use on_track_rostering.Rostering.Publication.Promotion.{promoted}

record_row-SameRoster :
    (draft actor : ℕ) (row : Assignment) (db : Store)
    → SameRoster db (record_row_worked draft actor row db)
record_row-SameRoster draft actor row db = elim (Option-cases row.person_id) [
  | inl e ↦ rw e (SameRoster-refl db)
  | inr (person, e) ↦ elim (Option-cases row.base_position_id) [
    | inl n ↦ rw (e, n) (SameRoster-refl db)
    | inr (position, n) ↦ elim (Bool-cases (is_assigned row.status)) [
      | inl s ↦ rw (e, n, s) (record_worked-SameRoster person position actor draft db)
      | inr s ↦ rw (e, n, s) (SameRoster-refl db)
    ]
  ]
]

pub record_all_worked-SameRoster :
    (draft actor : ℕ) (rows : List Assignment) (db : Store)
    → SameRoster db (record_all_worked draft actor rows db)
unfolding record_all_worked
record_all_worked-SameRoster draft actor [] db = SameRoster-refl db
record_all_worked-SameRoster draft actor (row ∷ rows) db =
    SameRoster-trans (record_row-SameRoster draft actor row db)
      (record_all_worked-SameRoster draft actor rows (record_row_worked draft actor row db))

pub refresh_users-SameRoster :
    (zone : Zone) (actor : ℕ) (now : DateTime) (users : List User) (db : Store)
    → SameRoster db (refresh_users zone actor now users db)
unfolding refresh_users
refresh_users-SameRoster zone actor now [] db = SameRoster-refl db
refresh_users-SameRoster zone actor now (u ∷ us) db =
    SameRoster-trans (refresh-SameRoster zone none (some actor) now u db) (
      refresh_users-SameRoster zone actor now us
        (refresh_contractor_access zone none (some actor) now u db))

-- The Travel of a workday is left alone, is cancelled, or is published with its current draft.
pub data TravelOutcome (workday actor : ℕ) (now : DateTime) (db : Store) : Store → Type 0 where
  left : TravelOutcome workday actor now db db
  cancels :
      (travel : Workday)
      → generated_travel db workday ≡ some travel
      → TravelOutcome workday actor now db
          (notify (cancelled_notices travel actor) (put_workday (cancelled travel) db))
  sends :
      (travel : Workday) (draft : WorkdayRevision)
      → generated_travel db workday ≡ some travel
      → travel_draft db travel ≡ some draft
      → draft.state ≡ RevisionState.draft
      → TravelOutcome workday actor now db (
          notify (reinstated_notices travel actor) (promoted (scheduled travel) draft actor now db))

draft_state : (s : RevisionState) → not (is_draft s) ≡ false → s ≡ RevisionState.draft
draft_state RevisionState.draft h = refl
draft_state RevisionState.published h = cc

cancel_travel-TravelOutcome :
    (workday actor : ℕ) (now : DateTime) (db : Store) (travel : Workday)
    → generated_travel db workday ≡ some travel
    → TravelOutcome workday actor now db (cancel_travel travel actor db)
unfolding cancel_travel
cancel_travel-TravelOutcome workday actor now db travel h =
    elim (Bool-cases (is_cancelled travel.status)) [
      | inl e ↦ rw e left
      | inr e ↦ rw e (cancels travel h)
    ]

send_travel-TravelOutcome :
    (workday actor : ℕ) (now : DateTime) (db : Store) (travel : Workday) (draft : WorkdayRevision)
    (sent : Store) (out : Option (Workday × WorkdayRevision))
    → generated_travel db workday ≡ some travel
    → travel_draft db travel ≡ some draft
    → send_travel travel draft actor now db ≡ ok (sent, out)
    → TravelOutcome workday actor now db sent
unfolding send_travel
send_travel-TravelOutcome workday actor now db travel draft sent out h hd done =
    let (state, rest) = reject_if-eq-ok (not (is_draft draft.state)) travel_not_draft _ done in
    subst (TravelOutcome workday actor now db)
      (ap (λ (p : Store × Option (Workday × WorkdayRevision)). p.0) (ok-injective rest))
      (sends travel draft h hd (draft_state draft.state state))

stored :
    (before after : Store × Option (Workday × WorkdayRevision))
    → ok before ≡ ok after
    → before.0 ≡ after.0
stored before after e =
    ap (λ (p : Store × Option (Workday × WorkdayRevision)). p.0) (ok-injective e)

send_found-TravelOutcome :
    (workday actor : ℕ) (now : DateTime) (db : Store) (travel : Workday)
    (draft : Option WorkdayRevision) (sent : Store) (out : Option (Workday × WorkdayRevision))
    → generated_travel db workday ≡ some travel
    → travel_draft db travel ≡ draft
    → send_found travel draft actor now db ≡ ok (sent, out)
    → TravelOutcome workday actor now db sent
send_found-TravelOutcome workday actor now db travel none sent out h hd done =
    subst (TravelOutcome workday actor now db) (stored (db, none) (sent, out) done) left
send_found-TravelOutcome workday actor now db travel (some draft) sent out h hd done =
    send_travel-TravelOutcome workday actor now db travel draft sent out h hd done

travel_with-TravelOutcome :
    (workday actor : ℕ) (now : DateTime) (db : Store) (travel : Option Workday) (enabled : Bool)
    (sent : Store) (out : Option (Workday × WorkdayRevision))
    → generated_travel db workday ≡ travel
    → travel_with travel enabled actor now db ≡ ok (sent, out)
    → TravelOutcome workday actor now db sent
travel_with-TravelOutcome workday actor now db none enabled sent out h done =
    subst (TravelOutcome workday actor now db) (stored (db, none) (sent, out) done) left
travel_with-TravelOutcome workday actor now db (some travel) false sent out h done =
    subst (TravelOutcome workday actor now db)
      (stored (cancel_travel travel actor db, none) (sent, out) done)
      (cancel_travel-TravelOutcome workday actor now db travel h)
travel_with-TravelOutcome workday actor now db (some travel) true sent out h done =
    send_found-TravelOutcome workday actor now db travel (travel_draft db travel) sent out h refl
      done

pub publish_travel-TravelOutcome :
    (workday : Workday) (draft : WorkdayRevision) (actor : ℕ) (now : DateTime) (db sent : Store)
    (out : Option (Workday × WorkdayRevision))
    → publish_travel workday draft actor now db ≡ ok (sent, out)
    → TravelOutcome workday.id actor now db sent
unfolding publish_travel
publish_travel-TravelOutcome workday draft actor now db sent out h =
    elim (Bool-cases (is_none workday.operation_id)) [
      | inl e ↦
          subst (TravelOutcome workday.id actor now db) (stored (db, none) (sent, out) (rw e at h))
            left
      | inr e ↦
          travel_with-TravelOutcome workday.id actor now db (generated_travel db workday.id)
            draft.standard_travel_enabled sent out refl (rw e at h)
    ]
