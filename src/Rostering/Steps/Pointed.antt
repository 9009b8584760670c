-- ===== src/Rostering/Steps/Pointed.antt =====
-- The pointers of the workdays of app/rostering/models.py over any sequence of steps.
use on_track_rostering.Prelude.{
  ℕ, Option, ◌≡◌, inl, inr, refl, subst, ap, Has, Option-cases, is_none, ◌+◌,
}
use on_track_rostering.Enums.{RevisionState}
use on_track_rostering.Errors.{ok, >>=-eq-ok, ok-injective, value_error, reject_if-eq-ok}
use on_track_rostering.Clock.{DateTime}
use on_track_rostering.Rostering.Models.{Workday, WorkdayRevision, Region}
use on_track_rostering.Rostering.Store.{Store, get_workday, get_revision, get_region, get_optional}
use on_track_rostering.Rostering.Store.Frames.{get_workday-Has}
use on_track_rostering.Rostering.Drafts.Copy.{
  require, require-eq-ok, start_draft, ensure_draft, draft_from, drafting,
}
use on_track_rostering.Rostering.Drafts.Edit.{bump}
use on_track_rostering.Rostering.Drafts.Fresh.{IsFresh}
use on_track_rostering.Rostering.Drafts.Commands.{IsEdited, apply_edit-IsEdited}
use on_track_rostering.Rostering.Drafts.Pointers.{
  Refers, PointsOf, IsPointed, PointsOf-map, put_workday-IsPointed, Refers-new, Refers-appended,
  appended-IsPointed, SameRoster-IsPointed,
}
use on_track_rostering.Rostering.Decline.{
  decline_into, decline_published_assignment, declined_revision, republished, declined_target,
  not_published, not_declinable,
}
use on_track_rostering.Rostering.Decline.Responses.{respond_to_reschedule-SameRoster}
use on_track_rostering.Rostering.Publication.Published.{publish-IsPointed}
use on_track_rostering.Positions.Preferences.{set_preference_signal-SameRoster}
use on_track_rostering.OpenPositions.Apply.Applied.{apply_for_position-SameRoster}
use on_track_rostering.OpenPositions.Selection.{
  select_application-IsSelection, IsSelection-IsEdited,
}
use on_track_rostering.Rostering.Steps.{
  Step, Reach, edits, starts, declines, responds, selects, applies, publishes, refreshes, prefers,
  stay, then_step,
}
use on_track_rostering.Rostering.Steps.History.{refreshes-SameRoster, Reach-KeepsPublished}

-- An edit writes its draft and the version of its workday, and neither pointer.
IsEdited-IsPointed :
    {db : Store} {w i v : ℕ} {after : Store}
    → IsEdited db w i v after
    → IsPointed db
    → IsPointed after
IsEdited-IsPointed {db} {w} {i} {v} done pointed =
    let carries : (x : Workday) → PointsOf db x → PointsOf done.written x =
      λ x p. PointsOf-map (λ id s r. done.refers id x.id s r) p in
    let each : IsPointed done.written =
      λ x m. carries x (pointed x (subst (Has x) done.same_workdays m)) in
    let held = get_workday-Has db w done.workday done.locked.workday_found in
    let own = carries done.workday (pointed done.workday held) in
    subst IsPointed done.bumped (
      unfold bump in
      put_workday-IsPointed (record done.workday { lock_version = done.workday.lock_version + 1 })
        done.written each (record { published = own.published; draft = own.draft }))

start_draft-IsPointed :
    (db : Store) (workday : Workday) (published : WorkdayRevision) (actor : ℕ)
    → IsFresh db
    → Has workday db.workdays
    → IsPointed db
    → IsPointed (start_draft db workday published actor)
unfolding start_draft
start_draft-IsPointed db workday published actor fresh held pointed =
    let after = start_draft db workday published actor in
    let x = draft_from workday.id published db.next_id actor in
    let own = pointed workday held in
    appended-IsPointed db after x refl (drafting workday db.next_id) refl
      (record {
        published = λ id h. Refers-appended db after x refl id workday.id _ (own.published id h);
        draft = λ id h.
            subst (λ n. Refers after n workday.id RevisionState.draft) (cc h)
              (Refers-new db after x refl fresh refl);
      })
      pointed

decline_into-IsPointed :
    (db : Store) (workday : Workday) (published : WorkdayRevision) (region : Region)
    (slot actor : ℕ) (now : DateTime)
    → IsFresh db
    → IsPointed db
    → IsPointed (decline_into db workday published region slot actor now)
unfolding decline_into
decline_into-IsPointed db workday published region slot actor now fresh pointed =
    let after = decline_into db workday published region slot actor now in
    let x = declined_revision db workday published actor now in
    appended-IsPointed db after x refl (republished workday db.next_id) refl
      (record {
        published = λ id h.
            subst (λ n. Refers after n workday.id RevisionState.published) (cc h)
              (Refers-new db after x refl fresh refl);
        draft = λ id h. cc h;
      })
      pointed

ensure_draft-IsPointed :
    (db : Store) (w actor : ℕ) (draft : Option WorkdayRevision) (after : Store)
    → ensure_draft db w actor ≡ ok (after, draft)
    → IsFresh db
    → IsPointed db
    → IsPointed after
unfolding ensure_draft
ensure_draft-IsPointed db w actor draft after h fresh pointed =
    let (workday, got, rest) =
      >>=-eq-ok (require (get_workday db w) (value_error "Workday not found.")) _ h in
    let found = require-eq-ok (get_workday db w) (value_error "Workday not found.") workday got in
    elim (Option-cases workday.current_draft_revision_id) [
      | inr (id, e) ↦
          subst IsPointed
            (ap (λ (p : Store × Option WorkdayRevision). p.0) (ok-injective (rw e at rest))) pointed
      | inl e ↦
          let (published, _, done) =
            >>=-eq-ok
              (require (get_optional (get_revision db) workday.current_published_revision_id)
                (value_error "Workday has no draft or published revision."))
              _ (rw e at rest) in
          let held = get_workday-Has db w workday found in
          subst IsPointed (ap (λ (p : Store × Option WorkdayRevision). p.0) (ok-injective done))
            (start_draft-IsPointed db workday published actor fresh held pointed)
    ]

decline-IsPointed :
    (db : Store) (w slot person actor : ℕ) (now : DateTime) (new : WorkdayRevision) (after : Store)
    → decline_published_assignment db w slot person actor now ≡ ok (after, new)
    → IsFresh db
    → IsPointed db
    → IsPointed after
unfolding decline_published_assignment
decline-IsPointed db w slot person actor now new after h fresh pointed =
    let (workday, _, r1) = >>=-eq-ok (require (get_workday db w) not_published) _ h in
    let (_, r2) =
      reject_if-eq-ok (is_none workday.current_published_revision_id) not_published _ r1 in
    let (published, _, r3) =
      >>=-eq-ok
        (require (get_optional (get_revision db) workday.current_published_revision_id)
          not_declinable)
        _ r2 in
    let (region, _, r4) =
      >>=-eq-ok (require (get_region db workday.region_id) not_declinable) _ r3 in
    let (_, _, done) =
      >>=-eq-ok (require (declined_target db published.id slot person) not_declinable) _ r4 in
    subst IsPointed (ap (λ (p : Store × WorkdayRevision). p.0) (ok-injective done))
      (decline_into-IsPointed db workday published region slot actor now fresh pointed)

Step-IsPointed : {db after : Store} → Step db after → IsFresh db → IsPointed db → IsPointed after
Step-IsPointed (edits e w i v h) f = IsEdited-IsPointed (apply_edit-IsEdited e _ w i v _ h)
Step-IsPointed (starts w actor draft h) f = ensure_draft-IsPointed _ w actor draft _ h f
Step-IsPointed (declines w slot person actor now new h) f =
    decline-IsPointed _ w slot person actor now new _ h f
Step-IsPointed (responds w person actor response now h) f =
    SameRoster-IsPointed (respond_to_reschedule-SameRoster _ w person actor response now _ h)
Step-IsPointed (selects w i v application h) f =
    IsEdited-IsPointed
      (IsSelection-IsEdited (select_application-IsSelection _ w i v application _ h))
Step-IsPointed (publishes zone state_of t now revision h) f =
    publish-IsPointed zone state_of t now _ _ revision h
Step-IsPointed (applies canonical actor w slot application h) f =
    SameRoster-IsPointed (apply_for_position-SameRoster canonical _ actor w slot _ application h)
Step-IsPointed (refreshes zone now counts h) f =
    SameRoster-IsPointed (refreshes-SameRoster zone now _ _ counts h)
Step-IsPointed (prefers person position actor preference family h) f =
    SameRoster-IsPointed
      (set_preference_signal-SameRoster person position actor preference family _ _ h)

-- Whatever sequence of edits, new drafts, publications, declines, responses,
-- applications, selections, preferences and refreshes of contractor access runs from a store whose
-- next identifier is unused and whose workdays point to their own revisions, the published pointer of a workday to a publication and the draft pointer to a draft,
-- the workdays of the store that it reaches point so too.
pub Reach-IsPointed :
    {db after : Store} → Reach db after → IsFresh db → IsPointed db → IsPointed after
Reach-IsPointed stay f p = p
Reach-IsPointed (then_step before last) f p =
    Step-IsPointed last (Reach-KeepsPublished before f).0 (Reach-IsPointed before f p)
