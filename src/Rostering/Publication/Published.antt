-- ===== src/Rostering/Publication/Published.antt =====
-- What a successful `_publish` of app/rostering/service.py leaves of the roster.
use on_track_rostering.Prelude.{
  ℕ, none, ◌+◌, String, some, List, ◌≡◌, ◌≢◌, ◌⊎◌, inl, inr, refl, subst, sym, ◌∙◌, ap, Has, ==_iff,
}
use on_track_rostering.Enums.{RevisionState}
use on_track_rostering.Errors.{ok}
use on_track_rostering.Clock.{DateTime}
use on_track_rostering.ContractorAccess.{Zone}
use on_track_rostering.Rostering.Models.{Workday, WorkdayRevision}
use on_track_rostering.Rostering.Store.{
  Store, get_workday, get_revision, assignments_of, put_workday, put_revision,
}
use on_track_rostering.Rostering.Store.Frames.{
  get_workday-Has, get_workday-put, get_workday-id, get_revision-id,
}
use on_track_rostering.Rostering.Conflicts.{RosterConflict, generated_travel}
use on_track_rostering.Rostering.Drafts.Fresh.{IsFresh}
use on_track_rostering.Rostering.Drafts.Immutable.{KeepsPublished, IsLocked}
use on_track_rostering.Rostering.Drafts.Pointers.{IsPointed, set_workday-Has, SameRoster-IsPointed}
use on_track_rostering.Rostering.Drafts.Same.{
  SameRoster-workday, SameRoster-KeepsPublished, SameRoster-IsFresh, KeepsPublished-trans,
}
use on_track_rostering.Rostering.Publication.{publish}
use on_track_rostering.Rostering.Publication.Checks.{
  PublishInput, published_revision, published_workday,
}
use on_track_rostering.Rostering.Publication.Outcome.{
  IsPublishable, IsPublication, publish-IsPublication,
}
use on_track_rostering.Rostering.Publication.Kept.{
  generated_travel-Has, sent-KeepsPublished, sent-IsFresh, sent-IsPointed, sent-workday,
}
use on_track_rostering.Rostering.Publication.Promotion.{
  promoted, promoted-revision, promoted-IsFresh, promoted-KeepsPublished, promoted-IsPointed,
}

promoted-rows :
    (w : Workday) (draft : WorkdayRevision) (actor : ℕ) (now : DateTime) (db : Store) (id : ℕ)
    → assignments_of (promoted w draft actor now db) id ≡ assignments_of db id
unfolding put_workday put_revision assignments_of
promoted-rows w draft actor now db id = refl

put_revision-workday :
    (r : WorkdayRevision) (db : Store) (id : ℕ)
    → get_workday (put_revision r db) id ≡ get_workday db id
unfolding put_revision get_workday
put_revision-workday r db id = refl

promoted-Has :
    (w : Workday) (draft : WorkdayRevision) (actor : ℕ) (now : DateTime) (db : Store) (x : Workday)
    → Has x (promoted w draft actor now db).workdays
    → (x ≡ published_workday w draft.id) ⊎ (x.id ≢ w.id)
unfolding put_workday put_revision
promoted-Has w draft actor now db x m =
    elim (set_workday-Has (published_workday w draft.id) x db.workdays m) [
      | inl e ↦ inl e
      | inr (_, n) ↦ inr n
    ]

promoted-workday :
    (w : Workday) (draft : WorkdayRevision) (actor : ℕ) (now : DateTime) (db : Store)
    → get_workday db w.id ≡ some w
    → get_workday (promoted w draft actor now db) w.id ≡ some (published_workday w draft.id)
promoted-workday w draft actor now db h =
    get_workday-put (published_workday w draft.id)
      (put_revision (published_revision draft actor now) db) w.id
    ∙ rw
        (
          (==_iff w.id w.id).1 refl,
          put_revision-workday (published_revision draft actor now) db w.id,
          h,
        )
        refl

-- The Travel of a published workday is another workday.
travel_is_another :
    (w : Workday) (draft : WorkdayRevision) (actor : ℕ) (now : DateTime) (db : Store)
    → w.generated_from_workday_id ≢ some w.id
    → (travel : Workday) → generated_travel (promoted w draft actor now db) w.id ≡ some travel
    → travel.id ≢ w.id
travel_is_another w draft actor now db other travel h same =
    let (m, from) = generated_travel-Has (promoted w draft actor now db) w.id travel h in
    elim (promoted-Has w draft actor now db travel m) [
      | inl e ↦ other (cc (e, from))
      | inr n ↦ n same
    ]

pub own_draft :
    {db : Store} {w i v : ℕ} {workday : Workday} {draft : WorkdayRevision}
    → IsLocked db w i v workday draft
    → get_revision db draft.id ≡ some draft
own_draft {db} {w} {i} {v} {workday} {draft} l =
    subst (λ j. get_revision db j ≡ some draft) (sym (get_revision-id db i draft l.draft_found))
      l.draft_found

-- The parts of what a publication leaves: the draft is the publication, with its own rows, and the
-- workday points to it, without a draft, at the next version.
pub record IsPublished (t : PublishInput) (now : DateTime) (db after : Store) (workday : Workday)
    (draft revision : WorkdayRevision) : Type 0 where
  pub result : revision ≡ record draft {
    state = RevisionState.published;
    published_at = some now;
    published_by_user_id = some t.actor_user_id;
  }
  pub stored : get_revision after t.draft_id ≡ some revision
  pub rows : assignments_of after t.draft_id ≡ assignments_of db t.draft_id
  pub points :
      get_workday after t.workday_id
      ≡ some (record workday {
        current_published_revision_id = some t.draft_id;
        current_draft_revision_id = none;
        lock_version = workday.lock_version + 1;
      })

pub promoted_publishable-IsPointed :
    {state_of : List RosterConflict → String} {t : PublishInput} {db : Store} {workday : Workday}
    {draft : WorkdayRevision} (now : DateTime)
    → IsPublishable state_of t db workday draft
    → IsPointed db
    → IsPointed (promoted workday draft t.actor_user_id now db)
promoted_publishable-IsPointed {t = t} {db = db} {workday = workday} {draft = draft} now checked p =
    let l = checked.locked in
    let found = own_draft l in
    let own = p workday (get_workday-Has db t.workday_id workday l.workday_found) in
    let (r, hr, _, owner) = own.draft draft.id l.is_current in
    let is_it : r ≡ draft = cc (hr, found) in
    promoted-IsPointed workday draft t.actor_user_id now db found l.is_draft (cc (is_it, owner)) p

module _ (zone : Zone) (state_of : List RosterConflict → String) (t : PublishInput) (now : DateTime)
    (db after : Store) (revision : WorkdayRevision)
    (h : publish zone state_of t now db ≡ ok (after, revision)) where
  pub publish-KeepsPublished : KeepsPublished db after
  publish-KeepsPublished =
      let done = publish-IsPublication zone state_of t now db after revision h in
      let l = done.checked.locked in
      let mid = promoted done.workday done.draft t.actor_user_id now db in
      let found = own_draft l in
      KeepsPublished-trans db mid after
        (promoted-KeepsPublished done.workday done.draft t.actor_user_id now db found l.is_draft)
        (KeepsPublished-trans mid done.sent after (sent-KeepsPublished done.travels)
          (SameRoster-KeepsPublished done.follows))

  pub publish-IsFresh : IsFresh db → IsFresh after
  publish-IsFresh f =
      let done = publish-IsPublication zone state_of t now db after revision h in
      let l = done.checked.locked in
      let found = own_draft l in
      SameRoster-IsFresh done.follows (
        sent-IsFresh done.travels
          (promoted-IsFresh done.workday done.draft t.actor_user_id now db found f))

  pub publish-IsPointed : IsPointed db → IsPointed after
  publish-IsPointed p =
      let done = publish-IsPublication zone state_of t now db after revision h in
      SameRoster-IsPointed done.follows
        (sent-IsPointed done.travels (promoted_publishable-IsPointed now done.checked p))

published_points :
    {state_of : List RosterConflict → String} {t : PublishInput} {now : DateTime} {db after : Store}
    {revision : WorkdayRevision} (done : IsPublication state_of t now db after revision)
    → ((w : Workday) → Has w db.workdays → w.generated_from_workday_id ≢ some w.id)
    → get_workday after t.workday_id ≡ some (published_workday done.workday t.draft_id)
published_points {t = t} {now = now} {db = db} {after = after} done other =
    let l = done.checked.locked in
    let w = done.workday in
    let same = get_workday-id db t.workday_id w l.workday_found in
    let id = get_revision-id db t.draft_id done.draft l.draft_found in
    let held = get_workday-Has db t.workday_id w l.workday_found in
    let found = subst (λ i. get_workday db i ≡ some w) (sym same) l.workday_found in
    let chain =
      SameRoster-workday done.follows w.id
      ∙ sent-workday done.travels
          (travel_is_another w done.draft t.actor_user_id now db (other w held))
      ∙ promoted-workday w done.draft t.actor_user_id now db found in
    subst (λ i. get_workday after t.workday_id ≡ some (published_workday w i)) id
      (subst (λ i. get_workday after i ≡ some (published_workday w done.draft.id)) same chain)

-- A publication that succeeds held the current draft of the workday at the expected version, based on
-- the current publication, and had no conflict that was not confirmed. The draft is then the
-- publication, with the rows it had, and the workday points to it, without a draft, at the next
-- version, provided that no workday is its own Travel. Every revision published before stays as it
-- was, with its assignments.
pub publish_publishes :
    (zone : Zone) (state_of : List RosterConflict → String) (t : PublishInput) (now : DateTime)
    (db after : Store) (revision : WorkdayRevision)
    → ((w : Workday) → Has w db.workdays → w.generated_from_workday_id ≢ some w.id)
    → publish zone state_of t now db ≡ ok (after, revision)
    → (workday : Workday) × (draft : WorkdayRevision) × IsPublishable state_of t db workday draft
      × IsPublished t now db after workday draft revision
      × KeepsPublished db after
publish_publishes zone state_of t now db after revision other h =
    let done = publish-IsPublication zone state_of t now db after revision h in
    let l = done.checked.locked in
    let mid = promoted done.workday done.draft t.actor_user_id now db in
    let id = get_revision-id db t.draft_id done.draft l.draft_found in
    let found = own_draft l in
    let (kept, rows) =
      KeepsPublished-trans mid done.sent after (sent-KeepsPublished done.travels)
        (SameRoster-KeepsPublished done.follows) done.draft.id
        (published_revision done.draft t.actor_user_id now)
        (promoted-revision done.workday done.draft t.actor_user_id now db found) refl in
    (
      done.workday,
      done.draft,
      done.checked,
      record {
        result = done.result;
        stored =
            subst (λ i. get_revision after i ≡ some revision) id (kept ∙ ap some (sym done.result));
        rows =
            subst (λ i. assignments_of after i ≡ assignments_of db i) id
              (rows ∙ promoted-rows done.workday done.draft t.actor_user_id now db done.draft.id);
        points = published_points done other;
      },
      publish-KeepsPublished zone state_of t now db after revision h,
    )
