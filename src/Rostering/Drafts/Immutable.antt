-- ===== src/Rostering/Drafts/Immutable.antt =====
-- Edits of a draft: only the holder of the current version edits, and what is published stays.
use on_track_rostering.Prelude.{ℕ, some, ◌≡◌, ◌≢◌, refl, sym, ◌∙◌, arith, ◌↔◌}
use on_track_rostering.Enums.{RevisionState}
use on_track_rostering.Errors.{ok, err}
use on_track_rostering.Rostering.Models.{Workday, WorkdayRevision, Assignment}
use on_track_rostering.Rostering.Store.{
  Store, get_workday, get_revision, assignments_of, put_workday, put_revision, put_assignment,
  add_assignment as add_row, delete_assignment,
}
use on_track_rostering.Rostering.Store.Frames.{
  get_revision-put, get_revision-id, assignments_of-put, assignments_of-add, assignments_of-delete,
}
use on_track_rostering.Rostering.Drafts.Copy.{changed_elsewhere, lock_current_draft}
use on_track_rostering.Rostering.Drafts.Edit.{bump}

-- A published revision and its assignments are the same in both stores.
abbrev pub KeepsPublished : Store → Store → Type 0
KeepsPublished db after =
    (id : ℕ) (r : WorkdayRevision)
    → get_revision db id ≡ some r
    → r.state ≡ RevisionState.published
    → (get_revision after id ≡ some r) × (assignments_of after id ≡ assignments_of db id)

-- What a successful lock has checked.
pub record IsLocked (db : Store) (workday_id draft_id version : ℕ) (workday : Workday)
    (draft : WorkdayRevision) : Type 0 where
  pub workday_found : get_workday db workday_id ≡ some workday
  pub same_version : workday.lock_version ≡ version
  pub draft_found : get_revision db draft_id ≡ some draft
  pub is_current : workday.current_draft_revision_id ≡ some draft.id
  pub is_draft : draft.state ≡ RevisionState.draft

-- The lock succeeds exactly when the workday is found at the expected version, and the draft is
-- found, is the current draft of the workday and is in draft state.
pub lock_current_draft-ok_iff :
    (db : Store) (workday_id draft_id version : ℕ) (workday : Workday) (draft : WorkdayRevision)
    → (lock_current_draft db workday_id draft_id version ≡ ok (workday, draft))
      ↔ IsLocked db workday_id draft_id version workday draft
unfolding lock_current_draft
lock_current_draft-ok_iff db workday_id draft_id version workday draft =
    (λ h. ground arith, λ l. ground arith)

-- An edit that was started from another version of the workday is refused, whatever it would do.
pub lock_current_draft-stale :
    (db : Store) (workday_id draft_id version : ℕ) (workday : Workday)
    → get_workday db workday_id ≡ some workday
    → workday.lock_version ≢ version
    → lock_current_draft db workday_id draft_id version ≡ err changed_elsewhere
unfolding lock_current_draft
lock_current_draft-stale db workday_id draft_id version workday h stale = ground arith

get_revision-bump :
    (w : Workday) (db : Store) (id : ℕ) → get_revision (bump w db) id ≡ get_revision db id
unfolding bump put_workday get_revision
get_revision-bump w db id = refl

assignments_of-bump :
    (w : Workday) (db : Store) (id : ℕ) → assignments_of (bump w db) id ≡ assignments_of db id
unfolding bump put_workday assignments_of
assignments_of-bump w db id = refl

-- A revision with a row in draft state is not a published one.
apart :
    (db : Store) (i id : ℕ) (draft r : WorkdayRevision)
    → get_revision db i ≡ some draft
    → draft.state ≡ RevisionState.draft
    → get_revision db id ≡ some r
    → r.state ≡ RevisionState.published
    → draft.id ≢ id
apart db i id draft r hd sd hr sr e = cc (get_revision-id db i draft hd, hd, hr, sd, sr, e)

pub bump-KeepsPublished :
    (w : Workday) (db after : Store) → KeepsPublished db after → KeepsPublished db (bump w after)
bump-KeepsPublished w db after keeps id r hr sr =
    rw (get_revision-bump w after id, assignments_of-bump w after id) (keeps id r hr sr)

pub put_revision-KeepsPublished :
    (db : Store) (i : ℕ) (draft x : WorkdayRevision)
    → get_revision db i ≡ some draft
    → draft.state ≡ RevisionState.draft
    → x.id ≡ draft.id
    → KeepsPublished db (put_revision x db)
unfolding put_revision assignments_of
put_revision-KeepsPublished db i draft x hd sd e id r hr sr =
    (ground (arith, get_revision-put x db id, apart db i id draft r hd sd hr sr), refl)

module _ (db : Store) (i : ℕ) (draft : WorkdayRevision) (x : Assignment)
    (hd : get_revision db i ≡ some draft) (sd : draft.state ≡ RevisionState.draft)
    (e : x.revision_id ≡ draft.id) where
  pub add_row-KeepsPublished : KeepsPublished db (add_row x db)
  unfolding add_row get_revision
  add_row-KeepsPublished id r hr sr =
      (hr, assignments_of-add x db id (λ p. apart db i id draft r hd sd hr sr (sym e ∙ p)))

  pub put_assignment-KeepsPublished : KeepsPublished db (put_assignment x db)
  unfolding put_assignment get_revision
  put_assignment-KeepsPublished id r hr sr =
      (hr, assignments_of-put x db id (λ p. apart db i id draft r hd sd hr sr (sym e ∙ p)))

  pub delete-KeepsPublished : KeepsPublished db (delete_assignment x db)
  unfolding delete_assignment get_revision
  delete-KeepsPublished id r hr sr =
      (hr, assignments_of-delete x db id (λ p. apart db i id draft r hd sd hr sr (sym e ∙ p)))
