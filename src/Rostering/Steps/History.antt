-- ===== src/Rostering/Steps/History.antt =====
-- What every sequence of steps keeps: the history of publications.
use on_track_rostering.Prelude.{
  ℕ, suc, Option, ◌≡◌, inl, inr, refl, subst, arith, ap, Option-cases, is_none,
}
use on_track_rostering.Errors.{ok, >>=-eq-ok, ok-injective, value_error, reject_if-eq-ok}
use on_track_rostering.Clock.{DateTime}
use on_track_rostering.Rostering.Models.{Workday, WorkdayRevision, Region}
use on_track_rostering.Rostering.Store.{
  Store, SameRoster, get_workday, get_revision, get_region, get_optional,
}
use on_track_rostering.Rostering.Drafts.Copy.{
  require, start_draft, ensure_draft, draft_from, copy_assignment,
}
use on_track_rostering.Rostering.Drafts.Immutable.{KeepsPublished, bump-KeepsPublished}
use on_track_rostering.Rostering.Drafts.Fresh.{
  IsFresh, bump-IsFresh, RevisionsBelow-append, RowsBelow-append, RowsBelow-numbered,
}
use on_track_rostering.Rostering.Drafts.Commands.{IsEdited, apply_edit-IsEdited}
use on_track_rostering.Rostering.Drafts.Started.{start_draft-KeepsPublished}
use on_track_rostering.Rostering.Decline.{
  decline_into, decline_published_assignment, declined_revision, declined_row, declined_target,
  not_published, not_declinable,
}
use on_track_rostering.Rostering.Decline.Outcome.{
  declined_row-revision, decline_into-KeepsPublished,
}
use on_track_rostering.Rostering.Decline.Responses.{respond_to_reschedule-SameRoster}
use on_track_rostering.OpenPositions.Apply.Applied.{apply_for_position-SameRoster}
use on_track_rostering.OpenPositions.Selection.{
  select_application-IsSelection, IsSelection-IsEdited,
}
use on_track_rostering.Rostering.Drafts.Same.{
  KeepsPublished-trans, SameRoster-IsFresh, SameRoster-KeepsPublished,
}
use on_track_rostering.Rostering.Publication.Published.{publish-IsFresh, publish-KeepsPublished}
use on_track_rostering.ContractorAccess.{Zone, AccessCounts, refresh_all_contractor_access}
use on_track_rostering.ContractorAccess.Expiry.{refresh_all-SameRoster}
use on_track_rostering.Positions.Preferences.{set_preference_signal-SameRoster}
use on_track_rostering.Rostering.Steps.{
  Step, Reach, edits, starts, declines, responds, selects, applies, publishes, refreshes, prefers,
  stay, then_step,
}

-- A step from a fresh store leads to one, and keeps what is published.
abbrev pub IsKept : Store → Store → Type 0
IsKept db after = IsFresh db → IsFresh after × KeepsPublished db after

IsEdited-IsKept :
    {db : Store} {w i v : ℕ} {after : Store} → IsEdited db w i v after → IsKept db after
IsEdited-IsKept {db} done f = (
  subst IsFresh done.bumped (bump-IsFresh done.workday done.written (done.fresh f)),
  subst (KeepsPublished db) done.bumped
      (bump-KeepsPublished done.workday db done.written done.kept),
)

start_draft-IsFresh :
    (db : Store) (workday : Workday) (published : WorkdayRevision) (actor : ℕ)
    → IsFresh db
    → IsFresh (start_draft db workday published actor)
unfolding start_draft
start_draft-IsFresh db workday published actor f = record {
  revisions =
      RevisionsBelow-append db.next_id _ db.revisions
        (draft_from workday.id published db.next_id actor) f.revisions (omega arith) (omega arith);
  rows = RowsBelow-append db.next_id _ db.assignments _ f.rows (omega arith) (
      RowsBelow-numbered (copy_assignment db.next_id) db.next_id (suc db.next_id) _ _ (λ m a. refl)
        (omega arith));
}

decline_into-IsFresh :
    (db : Store) (workday : Workday) (published : WorkdayRevision) (region : Region)
    (slot actor : ℕ) (now : DateTime)
    → IsFresh db
    → IsFresh (decline_into db workday published region slot actor now)
unfolding decline_into
decline_into-IsFresh db workday published region slot actor now f = record {
  revisions =
      RevisionsBelow-append db.next_id _ db.revisions
        (declined_revision db workday published actor now) f.revisions (omega arith) (omega arith);
  rows = RowsBelow-append db.next_id _ db.assignments _ f.rows (omega arith) (
      RowsBelow-numbered (declined_row region.decline_policy slot db.next_id) db.next_id
        (suc db.next_id) _ _ (declined_row-revision region.decline_policy slot db.next_id)
        (omega arith));
}

ensure_draft-IsKept :
    (db : Store) (w actor : ℕ) (draft : Option WorkdayRevision) (after : Store)
    → ensure_draft db w actor ≡ ok (after, draft)
    → IsKept db after
unfolding ensure_draft
ensure_draft-IsKept db w actor draft after h f =
    let (workday, _, rest) =
      >>=-eq-ok (require (get_workday db w) (value_error "Workday not found.")) _ h in
    elim (Option-cases workday.current_draft_revision_id) [
      | inr (id, e) ↦
          let same : db ≡ after =
            ap (λ (p : Store × Option WorkdayRevision). p.0) (ok-injective (rw e at rest)) in
          subst (IsKept db) same (λ g. (g, λ i r hr sr. (hr, refl))) f
      | inl e ↦
          let (published, _, done) =
            >>=-eq-ok
              (require (get_optional (get_revision db) workday.current_published_revision_id)
                (value_error "Workday has no draft or published revision."))
              _ (rw e at rest) in
          subst (IsKept db) (ap (λ (p : Store × Option WorkdayRevision). p.0) (ok-injective done))
            (λ g. (
              start_draft-IsFresh db workday published actor g,
              start_draft-KeepsPublished db workday published actor g,
            ))
            f
    ]

decline-IsKept :
    (db : Store) (w slot person actor : ℕ) (now : DateTime) (new : WorkdayRevision) (after : Store)
    → decline_published_assignment db w slot person actor now ≡ ok (after, new)
    → IsKept db after
unfolding decline_published_assignment
decline-IsKept db w slot person actor now new after h f =
    let (workday, _, r1) = >>=-eq-ok (require (get_workday db w) not_published) _ h in
    let (_, r2) =
      reject_if-eq-ok (is_none workday.current_published_revision_id) not_published _ r1 in
    let (published, _, r3) =
      >>=-eq-ok
        (require (get_optional (get_revision db) workday.current_published_revision_id)
          not_declinable)
        _ r2 in
    let (region, _, r4) =
      >>=-eq-ok (require (get_region db workday.region_id) not_declinable) _ r3 in
    let (_, _, done) =
      >>=-eq-ok (require (declined_target db published.id slot person) not_declinable) _ r4 in
    subst (IsKept db) (ap (λ (p : Store × WorkdayRevision). p.0) (ok-injective done))
      (λ g. (
        decline_into-IsFresh db workday published region slot actor now g,
        decline_into-KeepsPublished db workday published region slot actor now g,
      ))
      f

pub refreshes-SameRoster :
    (zone : Zone) (now : DateTime) (db after : Store) (counts : AccessCounts)
    → refresh_all_contractor_access zone now db ≡ (after, counts)
    → SameRoster db after
refreshes-SameRoster zone now db after counts h =
    subst (SameRoster db) (ap (λ (p : Store × AccessCounts). p.0) h)
      (refresh_all-SameRoster zone now db)

Step-IsKept : {db after : Store} → Step db after → IsKept db after
Step-IsKept (edits e w i v h) f = IsEdited-IsKept (apply_edit-IsEdited e _ w i v _ h) f
Step-IsKept (starts w actor draft h) f = ensure_draft-IsKept _ w actor draft _ h f
Step-IsKept (declines w slot person actor now new h) f =
    decline-IsKept _ w slot person actor now new _ h f
Step-IsKept (responds w person actor response now h) f =
    let same = respond_to_reschedule-SameRoster _ w person actor response now _ h in
    (SameRoster-IsFresh same f, SameRoster-KeepsPublished same)
Step-IsKept (selects w i v application h) f =
    IsEdited-IsKept (IsSelection-IsEdited (select_application-IsSelection _ w i v application _ h))
      f
Step-IsKept (publishes zone state_of t now revision h) f = (
  publish-IsFresh zone state_of t now _ _ revision h f,
  publish-KeepsPublished zone state_of t now _ _ revision h,
)
Step-IsKept (prefers person position actor preference family h) f =
    let same = set_preference_signal-SameRoster person position actor preference family _ _ h in
    (SameRoster-IsFresh same f, SameRoster-KeepsPublished same)
Step-IsKept (applies canonical actor w slot application h) f =
    let same = apply_for_position-SameRoster canonical _ actor w slot _ application h in
    (SameRoster-IsFresh same f, SameRoster-KeepsPublished same)
Step-IsKept (refreshes zone now counts h) f =
    let same = refreshes-SameRoster zone now _ _ counts h in
    (SameRoster-IsFresh same f, SameRoster-KeepsPublished same)

-- Whatever sequence of edits, new drafts, publications, declines, responses,
-- applications, selections, preferences and refreshes of contractor access runs from a store whose
-- next identifier is unused, every revision published before it is still there as it was, with the
-- same assignments, and the next identifier is unused in the store that it reaches.
pub Reach-KeepsPublished :
    {db after : Store} → Reach db after → IsFresh db → IsFresh after × KeepsPublished db after
Reach-KeepsPublished stay f = (f, λ i r hr sr. (hr, refl))
Reach-KeepsPublished (then_step before last) f =
    let (mid, kept) = Reach-KeepsPublished before f in
    let (end, more) = Step-IsKept last mid in (end, KeepsPublished-trans _ _ _ kept more)
