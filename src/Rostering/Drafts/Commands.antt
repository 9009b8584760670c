-- ===== src/Rostering/Drafts/Commands.antt =====
-- The edits of a draft as commands, and what each of them keeps.
use on_track_rostering.Prelude.{
  ◌<◌, ℕ, ◌+◌, some, ◌≡◌, ◌≢◌, refl, sym, ◌∙◌, subst, arith, ap, ◌==◌, find?,
}
use on_track_rostering.Enums.{RevisionState}
use on_track_rostering.Errors.{Result, ok, err, ◌>>=◌, >>=-eq-ok, ok-injective, reject_if-eq-ok}
use on_track_rostering.Rostering.Models.{Workday, WorkdayRevision, Assignment}
use on_track_rostering.Rostering.Store.{
  Store, get_workday, get_revision, put_revision, put_assignment, get_optional, get_position,
  assignments_of, get_person, add_assignment as add_row, delete_assignment,
}
use on_track_rostering.Rostering.Store.Frames.{get_workday-put, get_workday-id, get_revision-id}
use on_track_rostering.Rostering.Drafts.Copy.{require, changed_elsewhere, lock_current_draft}
use on_track_rostering.Rostering.Drafts.Edit.{
  bump, validated_track, DraftDetails, update_draft_details, AssignmentInput, detailed,
  position_inactive, person_inactive, inactive_position, inactive_person, given_position_rejected,
  assignment_not_found, draft_row-revision, drawn, new_assignment, add_assignment, draft_row,
  RowChange, changed_row, update_assignment, remove_assignment,
}
use on_track_rostering.Rostering.Drafts.Fresh.{
  IsFresh, put_revision-IsFresh, add_row-IsFresh, put_assignment-IsFresh, delete_assignment-IsFresh,
  get_revision-fresh, drawn-IsFresh,
}
use on_track_rostering.Rostering.Drafts.Pointers.{Refers, put_revision-Refers}
use on_track_rostering.Rostering.Drafts.Immutable.{
  KeepsPublished, IsLocked, lock_current_draft-ok_iff, lock_current_draft-stale,
  bump-KeepsPublished, put_revision-KeepsPublished, add_row-KeepsPublished,
  put_assignment-KeepsPublished, delete-KeepsPublished,
}

pub data Edit : Type 0 where
  details : DraftDetails → Edit
  add : AssignmentInput → Edit
  change : ℕ → RowChange → Edit
  remove : ℕ → Edit

unfoldable pub apply_edit : Edit → Store → ℕ → ℕ → ℕ → Result Store
unfolding update_draft_details add_assignment update_assignment remove_assignment
apply_edit (details d) db w i v = update_draft_details db w i v d
apply_edit (add item) db w i v = add_assignment db w i v item
apply_edit (change a c) db w i v = update_assignment db w i v a c
apply_edit (remove a) db w i v = remove_assignment db w i v a

-- An edit that succeeds has locked the draft, and its store is the bumped store after one write.
pub record IsEdited (db : Store) (w i v : ℕ) (after : Store) : Type 0 where
  pub workday : Workday
  pub draft : WorkdayRevision
  pub locked : IsLocked db w i v workday draft
  pub written : Store
  pub bumped : bump workday written ≡ after
  pub kept : KeepsPublished db written
  pub same_workdays : written.workdays ≡ db.workdays
  pub fresh : IsFresh db → IsFresh written
  pub refers : (id n : ℕ) (s : RevisionState) → Refers db id n s → Refers written id n s

abbrev Body : Type 0
Body = Workday × WorkdayRevision → Result Store

pub IsLocked-body :
    (db : Store) (w i v : ℕ) (body : Body) (after : Store)
    → (lock_current_draft db w i v >>= body) ≡ ok after
    → (workday : Workday) × (draft : WorkdayRevision) × IsLocked db w i v workday draft
      × (body (workday, draft) ≡ ok after)
IsLocked-body db w i v body after h =
    let (p, locked, rest) = >>=-eq-ok (lock_current_draft db w i v) body h in
    (p.0, p.1, (lock_current_draft-ok_iff db w i v p.0 p.1).0 locked, rest)

row-below :
    {w v : ℕ} {workday : Workday} (db : Store) (i : ℕ) (draft : WorkdayRevision) (a : Assignment)
    → IsLocked db w i v workday draft
    → IsFresh db
    → a.revision_id ≡ draft.id
    → a.revision_id < db.next_id
row-below db i draft a l f e = omega (arith, e, get_revision-fresh db i draft f l.draft_found)

pub apply_edit-IsEdited :
    (e : Edit) (db : Store) (w i v : ℕ) (after : Store)
    → apply_edit e db w i v ≡ ok after
    → IsEdited db w i v after
unfolding apply_edit
apply_edit-IsEdited (details d) db w i v after h =
    let (workday, draft, l, rest) = IsLocked-body db w i v _ after h in
    let (name, valid, done) = >>=-eq-ok (validated_track db d.track_id workday.region_id) _ rest in
    record {
      workday = workday;
      draft = draft;
      locked = l;
      written = put_revision (detailed draft d name) db;
      bumped = ok-injective done;
      kept =
          put_revision-KeepsPublished db i draft (detailed draft d name) l.draft_found l.is_draft
            refl;
      same_workdays = unfold put_revision in refl;
      fresh = λ f.
          put_revision-IsFresh (detailed draft d name) db f
            (get_revision-fresh db i draft f l.draft_found);
      refers =
          put_revision-Refers (detailed draft d name) draft db
            (subst (λ j. get_revision db j ≡ some draft)
              (sym (get_revision-id db i draft l.draft_found)) l.draft_found)
            refl refl;
    }
apply_edit-IsEdited (add item) db w i v after h =
    let (workday, draft, l, rest) = IsLocked-body db w i v _ after h in
    let position = get_optional (get_position db) item.base_position_id in
    let person = get_optional (get_person db) item.person_id in
    let (_, second) = reject_if-eq-ok (position_inactive position) inactive_position _ rest in
    let (_, done) = reject_if-eq-ok (person_inactive person) inactive_person _ second in
    let row = new_assignment (db.next_id + 1) db.next_id draft.id item position person in
    record {
      workday = workday;
      draft = draft;
      locked = l;
      written = add_row row (drawn db);
      bumped = ok-injective done;
      kept =
          unfold get_revision assignments_of in
          add_row-KeepsPublished (drawn db) i draft row l.draft_found l.is_draft refl;
      same_workdays = unfold add_row in refl;
      fresh = λ f.
          add_row-IsFresh row (drawn db) (drawn-IsFresh db f)
            (omega (arith, get_revision-fresh db i draft f l.draft_found));
      refers = unfold add_row get_revision in λ id n s r. r;
    }
apply_edit-IsEdited (change a c) db w i v after h =
    let (workday, draft, l, rest) = IsLocked-body db w i v _ after h in
    let (old, found, tail) =
      >>=-eq-ok (require (draft_row db draft.id a) assignment_not_found) _ rest in
    let person = get_optional (get_person db) c.person_id in
    let (_, second) =
      reject_if-eq-ok (given_position_rejected db c.base_position_id) inactive_position _ tail in
    let (_, done) = reject_if-eq-ok (person_inactive person) inactive_person _ second in
    let row = changed_row db old c person in
    record {
      workday = workday;
      draft = draft;
      locked = l;
      written = put_assignment row db;
      bumped = ok-injective done;
      kept =
          put_assignment-KeepsPublished db i draft row l.draft_found l.is_draft
            (draft_row-revision db draft.id a old found);
      same_workdays = unfold put_assignment in refl;
      fresh = λ f.
          put_assignment-IsFresh row db f
            (row-below db i draft old l f (draft_row-revision db draft.id a old found));
      refers = unfold put_assignment get_revision in λ id n s r. r;
    }
apply_edit-IsEdited (remove a) db w i v after h =
    let (workday, draft, l, rest) = IsLocked-body db w i v _ after h in
    let (old, found, done) =
      >>=-eq-ok (require (draft_row db draft.id a) assignment_not_found) _ rest in
    record {
      workday = workday;
      draft = draft;
      locked = l;
      written = delete_assignment old db;
      bumped = ok-injective done;
      kept =
          delete-KeepsPublished db i draft old l.draft_found l.is_draft
            (draft_row-revision db draft.id a old found);
      same_workdays = unfold delete_assignment in refl;
      fresh = λ f.
          delete_assignment-IsFresh old db f
            (row-below db i draft old l f (draft_row-revision db draft.id a old found));
      refers = unfold delete_assignment get_revision in λ id n s r. r;
    }

-- Whatever edit succeeds, every published revision and its assignments stay as they were.
pub apply_edit-KeepsPublished :
    (e : Edit) (db : Store) (w i v : ℕ) (after : Store)
    → apply_edit e db w i v ≡ ok after
    → KeepsPublished db after
apply_edit-KeepsPublished e db w i v after h =
    let done = apply_edit-IsEdited e db w i v after h in
    subst (KeepsPublished db) done.bumped
      (bump-KeepsPublished done.workday db done.written done.kept)

pub bumped_workday :
    {db : Store} {w i v : ℕ} {after : Store} (done : IsEdited db w i v after)
    → get_workday (bump done.workday done.written) w
      ≡ some (record done.workday { lock_version = v + 1 })
unfolding bump get_workday
bumped_workday {db} {w} {i} {v} done =
    let old = done.workday in
    let found : get_workday done.written w ≡ some old =
      ap (find? (λ (x : Workday). x.id == w)) done.same_workdays ∙ done.locked.workday_found in
    let same = get_workday-id db w old done.locked.workday_found in
    let version = done.locked.same_version in
    get_workday-put (record old { lock_version = old.lock_version + 1 }) done.written w
    ∙ ground arith

apply_edit-stale :
    (e : Edit) (db : Store) (w i v : ℕ) (now : Workday)
    → get_workday db w ≡ some now
    → now.lock_version ≢ v
    → apply_edit e db w i v ≡ err changed_elsewhere
unfolding apply_edit
apply_edit-stale (details d) db w i v now h n = rw (lock_current_draft-stale db w i v now h n)
apply_edit-stale (add item) db w i v now h n = rw (lock_current_draft-stale db w i v now h n)
apply_edit-stale (change a c) db w i v now h n = rw (lock_current_draft-stale db w i v now h n)
apply_edit-stale (remove a) db w i v now h n = rw (lock_current_draft-stale db w i v now h n)

-- After an edit that succeeds the workday stands at the next version, with the same draft and publication.
pub apply_edit-version :
    (e : Edit) (db : Store) (w i v : ℕ) (after : Store)
    → apply_edit e db w i v ≡ ok after
    → (before : Workday) × (now : Workday) × (get_workday db w ≡ some before)
      × (get_workday after w ≡ some now)
      × (before.lock_version ≡ v)
      × (now ≡ record before { lock_version = v + 1 })
apply_edit-version e db w i v after h =
    let done = apply_edit-IsEdited e db w i v after h in
    let old = done.workday in
    let new = record old { lock_version = v + 1 } in
    (
      old,
      new,
      done.locked.workday_found,
      subst (λ s. get_workday s w ≡ some new) done.bumped (bumped_workday done),
      done.locked.same_version,
      refl,
    )

-- Of two edits that were started from the same version, the second is refused: no update is lost.
pub apply_edit_twice :
    (first second : Edit) (db : Store) (w i j v : ℕ) (after : Store)
    → apply_edit first db w i v ≡ ok after
    → apply_edit second after w j v ≡ err changed_elsewhere
apply_edit_twice first second db w i j v after h =
    let (old, now, _, found, _, e) = apply_edit-version first db w i v after h in
    apply_edit-stale second after w j v now found
      (λ p. omega (arith, ap (λ (x : Workday). x.lock_version) e))
