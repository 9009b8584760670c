-- ===== src/Examples/Publication.antt =====
-- The draft of the example store is published; the changes of a draft; a preference for a position;
-- and the account of a contractor.
use on_track_rostering.Prelude.{
  ◌+◌, ◌*◌, ◌≡◌, ◌≢◌, ◌≤◌, ◌<◌, ◌↔◌, refl, inl, inr, none, some, List, [], ◌∷◌, Has, true, false,
  any, String, arith, subst,
}
use on_track_rostering.Enums.{Role, RevisionState, CapabilitySignal}
use on_track_rostering.Errors.{ok}
use on_track_rostering.Clock.{Date, DateTime, day}
use on_track_rostering.Identity.{User, UserStatus, RoleGrant, GrantStatus, TrustedDevice}
use on_track_rostering.ContractorAccess.{
  Zone, latest_future_participation_date, refresh_contractor_access,
}
use on_track_rostering.ContractorAccess.Refreshed.{refresh_contractor_access-stores}
use on_track_rostering.Positions.Signals.{
  manager, signal, in_family, is_row, signal_eq, set_signal, set_preference_signal,
}
use on_track_rostering.Positions.Preferences.{set_preference_signal-exclusive}
use on_track_rostering.Rostering.Models.{Workday, WorkdayRevision, PositionCapability}
use on_track_rostering.Rostering.Store.{
  Store, get_user, get_workday, get_revision, assignments_of, put_workday, put_revision, numbered,
}
use on_track_rostering.Rostering.Conflicts.{RosterConflict}
use on_track_rostering.Rostering.Drafts.Copy.{draft_from, copy_assignment}
use on_track_rostering.Rostering.Drafts.Immutable.{KeepsPublished, IsLocked}
use on_track_rostering.Rostering.Drafts.Pointers.{IsPointed, Refers}
use on_track_rostering.Rostering.Diff.{publication_diff, row_at}
use on_track_rostering.Rostering.Diff.Unchanged.{publication_diff-unchanged}
use on_track_rostering.Rostering.Diff.Reported.{IsReportedSlot, publication_diff-reports}
use on_track_rostering.Rostering.Publication.{after_publication, publish}
use on_track_rostering.Rostering.Publication.Checks.{
  PublishInput, publish_checks, published_revision, published_workday,
}
use on_track_rostering.Rostering.Publication.Outcome.{IsPublishable, publish_checks-ok_iff}
use on_track_rostering.Rostering.Publication.Published.{IsPublished, publish_publishes}
use on_track_rostering.Rostering.Publication.Succeeds.{publish_succeeds}
use on_track_rostering.Rostering.Publication.Travel.{publish_travel}
use on_track_rostering.Rostering.Steps.{publishes, stay, then_step}
use on_track_rostering.Rostering.Steps.Pointed.{Reach-IsPointed}
use on_track_rostering.Examples.{workday, revision, assignment, published_day, draft_day, store}

-- A zone at UTC, and a fingerprint that tells no conflicts apart.
abbrev utc : Zone
utc = record { local_date = λ t. 20000; day_end = λ d. (d + 1) * day }

abbrev one_state : List RosterConflict → String
one_state cs = ""

abbrev request : PublishInput
request = record {
  workday_id = 12;
  draft_id = 2;
  actor_user_id = 90;
  expected_version = 3;
  confirm_conflicts = true;
  reviewed_conflict_state = none;
  require_stable_conflict_state = false;
}

abbrev drafted_day : Workday
drafted_day = workday 12 none (some 2)

draft-IsLocked : IsLocked store 12 2 3 drafted_day draft_day
unfolding get_workday get_revision
draft-IsLocked = record {
  workday_found = refl;
  same_version = refl;
  draft_found = refl;
  is_current = refl;
  is_draft = refl;
}

draft-IsPublishable : IsPublishable one_state request store drafted_day draft_day
draft-IsPublishable = record {
  locked = draft-IsLocked;
  same_base = refl;
  agreed = inr refl;
  stable = inr (inl refl);
}

publish_checks-ok_iff_example :
    (publish_checks one_state request store ≡ ok (drafted_day, draft_day))
    ↔ IsPublishable one_state request store drafted_day draft_day
publish_checks-ok_iff_example = publish_checks-ok_iff one_state request store drafted_day draft_day

abbrev publication : WorkdayRevision
publication = published_revision draft_day 90 5000

-- The store once revision 2 is published.
abbrev published_store : Store
published_store =
    after_publication utc (published_workday drafted_day 2) publication none
      (publication_diff store none draft_day) 90 5000
      (put_workday (published_workday drafted_day 2) (put_revision publication store))

published : publish utc one_state request 5000 store ≡ ok (published_store, publication)
unfolding publish publish_travel
published =
    rw ((publish_checks-ok_iff one_state request store drafted_day draft_day).1 draft-IsPublishable)
      refl

own_travel : (w : Workday) → Has w store.workdays → w.generated_from_workday_id ≢ some w.id
own_travel w (inl e) = rw e cc
own_travel w (inr (inl e)) = rw e cc
own_travel w (inr (inr m)) = absurd m

publish_publishes_example :
    (w : Workday) × (draft : WorkdayRevision) × IsPublishable one_state request store w draft
    × IsPublished request 5000 store published_store w draft publication
    × KeepsPublished store published_store
publish_publishes_example =
    publish_publishes utc one_state request 5000 store published_store publication own_travel
      published

store-IsPointed : IsPointed store
unfolding get_revision
store-IsPointed w (inl e) = rw e (record {
  published = λ id h.
      let e : 1 ≡ id = cc h in
      subst (λ n. Refers store n 11 RevisionState.published) e (published_day, refl, refl, refl);
  draft = λ id h. cc h;
})
store-IsPointed w (inr (inl e)) = rw e (record {
  published = λ id h. cc h;
  draft = λ id h.
      let e : 2 ≡ id = cc h in
      subst (λ n. Refers store n 12 RevisionState.draft) e (draft_day, refl, refl, refl);
})
store-IsPointed w (inr (inr m)) = absurd m

Reach-IsPointed_example : IsPointed published_store
Reach-IsPointed_example =
    Reach-IsPointed (then_step stay (publishes utc one_state request 5000 publication published))
      (record { revisions = omega arith; rows = omega arith }) store-IsPointed

publish_succeeds_example :
    (after : Store) × (revision : WorkdayRevision) × (publish utc one_state request 5000 store
      ≡ ok (after, revision))
publish_succeeds_example =
    publish_succeeds utc one_state request 5000 store drafted_day draft_day store-IsPointed
      draft-IsPublishable

-- A draft of revision 1, with a copy of its row.
abbrev copied : Store
copied = record store {
  revisions = published_day ∷ draft_from 11 published_day 100 90 ∷ [];
  assignments = assignment 21 1 ∷ copy_assignment 100 101 (assignment 21 1) ∷ [];
}

copied_rows :
    assignments_of copied 100 ≡ numbered (copy_assignment 100) 101 (assignments_of copied 1)
unfolding assignments_of
copied_rows = refl

publication_diff-unchanged_example :
    publication_diff copied (some published_day) (draft_from 11 published_day 100 90) ≡ []
publication_diff-unchanged_example =
    publication_diff-unchanged copied 11 published_day 100 90 101 102 copied_rows refl

row_added :
    (row_at 70 (assignments_of store 9) ≡ none)
    × (row_at 70 (assignments_of store 2) ≡ some (assignment 22 2))
unfolding assignments_of
row_added = (refl, refl)

publication_diff-reports_example :
    IsReportedSlot 70
      (publication_diff store (some (revision 9 12 RevisionState.published)) draft_day)
publication_diff-reports_example =
    publication_diff-reports store (revision 9 12 RevisionState.published) draft_day 70
      (unfold assignments_of in tt)

abbrev allowed : Store
allowed = set_signal 7 40 CapabilitySignal.manager_allow 90 none store

preferred :
    set_preference_signal 7 40 (signal CapabilitySignal.manager_allow) 90 manager store ≡ ok allowed
unfolding set_preference_signal
preferred = refl

set_preference_signal-exclusive_example :
    (any (is_row 7 40 CapabilitySignal.manager_allow) allowed.capabilities ≡ true)
    × ((c : PositionCapability)
        → Has c allowed.capabilities
        → in_family 7 40 manager c ≡ true
        → signal_eq c.signal CapabilitySignal.manager_allow ≡ true)
    × ((c : PositionCapability)
        → Has c store.capabilities
        → in_family 7 40 manager c ≡ false
        → Has c allowed.capabilities)
set_preference_signal-exclusive_example =
    set_preference_signal-exclusive 7 40 90 CapabilitySignal.manager_allow manager store allowed
      preferred

abbrev contractor : User
contractor = record {
  id = 30;
  status = UserStatus.expired;
  auth_epoch = 2;
  contractor_manual_extension_at = none;
  contractor_access_expires_at = some 400;
}

abbrev contractor_grant : RoleGrant
contractor_grant = record {
  user_id = 30;
  role = Role.contractor;
  region_id = some 5;
  status = GrantStatus.active;
}

abbrev with_contractor : Store
with_contractor = record store { users = contractor ∷ []; grants = contractor_grant ∷ [] }

found_user : get_user with_contractor 30 ≡ some contractor
unfolding get_user
found_user = refl

refresh_contractor_access-stores_example :
    (after : Store) × (row : User) × (after
      ≡ refresh_contractor_access utc (some 600) none 500 contractor with_contractor)
    × (get_user after 30 ≡ some row)
    × ((t : DateTime)
        → some 400 ≡ some t
        → (e : DateTime) × (row.contractor_access_expires_at ≡ some e) × (t ≤ e))
    × ((d : Date)
        → latest_future_participation_date with_contractor 30 (utc.local_date 500) ≡ some d
        → (e : DateTime) × (row.contractor_access_expires_at ≡ some e)
          × (utc.day_end d + 30 * day ≤ e))
    × ((e : DateTime)
        → row.contractor_access_expires_at ≡ some e
        → (e ≤ 500
            → UserStatus.expired ≡ UserStatus.active
            → (row.status ≡ UserStatus.expired)
              × ((d : TrustedDevice) → Has d after.devices → d.user_id ≡ 30 → d.revoked_at ≢ none))
          × (500 < e → UserStatus.expired ≡ UserStatus.expired → row.status ≡ UserStatus.active)
          × (e ≤ 500 → UserStatus.expired ≢ UserStatus.active → row.status ≡ UserStatus.expired)
          × (500 < e → UserStatus.expired ≢ UserStatus.expired → row.status ≡ UserStatus.expired))
    × (row.contractor_access_expires_at ≡ none → row.status ≡ UserStatus.expired)
refresh_contractor_access-stores_example =
    refresh_contractor_access-stores with_contractor utc contractor (some 600) none 500
      contractor_grant found_user (inl refl) refl refl refl
