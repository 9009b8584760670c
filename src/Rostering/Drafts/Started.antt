-- ===== src/Rostering/Drafts/Started.antt =====
-- What `ensure_draft` starts: a faithful copy of the publication, which stays as it is.
use mathlib.Core.List.{append-nil}
use on_track_rostering.Prelude.{
  ℕ, suc, ◌+◌, ◌<◌, false, none, some, List, [], ◌∷◌, ◌++◌, ◌≡◌, refl, sym, ◌∙◌, subst, arith, ap,
  ◌==◌, ==_iff, if◌then◌else◌, filter, All,
}
use on_track_rostering.Errors.{ok}
use on_track_rostering.Rostering.Models.{Workday, WorkdayRevision, Assignment}
use on_track_rostering.Rostering.Store.{
  Store, get_workday, get_revision, assignments_of, add_revision, put_workday, numbered,
}
use on_track_rostering.Rostering.Store.Frames.{
  get_workday-put, get_workday-id, get_revision-id, get_revision-add, filter-append,
}
use on_track_rostering.Rostering.Drafts.Copy.{
  draft_from, drafting, copy_assignment, start_draft, ensure_draft,
}
use on_track_rostering.Rostering.Drafts.Immutable.{KeepsPublished}
use on_track_rostering.Rostering.Drafts.Fresh.{IsFresh, find?-fresh}
use on_track_rostering.Rostering.Drafts.Pointers.{get_revision-new}
use on_track_rostering.Enums.{RevisionState}

pub filter-fresh :
    (n : ℕ) (rows : List Assignment)
    → All (λ (a : Assignment). a.revision_id < n) rows
    → filter (λ a. a.revision_id == n) rows ≡ []
filter-fresh n [] h = refl
filter-fresh n (x ∷ xs) h =
    let below : x.revision_id < n = h.0 in ground (arith, filter-fresh n xs h.1)

-- Rows that are all made for one revision are the rows of it, and of no other.
pub filter-numbered :
    (make : ℕ → Assignment → Assignment) (target id n : ℕ) (rows : List Assignment)
    → ((m : ℕ) (a : Assignment) → (make m a).revision_id ≡ target)
    → filter (λ a. a.revision_id == id) (numbered make n rows)
      ≡ (if target == id then numbered make n rows else [])
filter-numbered make target id n [] h = ground arith
filter-numbered make target id n (x ∷ xs) h =
    ground (arith, h n x, filter-numbered make target id (suc n) xs h)

-- The rows of a revision once rows have been made for one from those of another.
pub assignments_of-made :
    (make : ℕ → Assignment → Assignment) (source target n : ℕ) (db : Store) (id : ℕ)
    → ((m : ℕ) (a : Assignment) → (make m a).revision_id ≡ target)
    → filter
        (λ (a : Assignment). a.revision_id == id)
        (db.assignments ++ numbered make n (assignments_of db source))
      ≡ assignments_of db id
        ++ (if target == id then numbered make n (assignments_of db source) else [])
unfolding assignments_of
assignments_of-made make source target n db id h =
    filter-append (λ (a : Assignment). a.revision_id == id) db.assignments
      (numbered make n (filter (λ (a : Assignment). a.revision_id == source) db.assignments))
    ∙ ap (λ more. filter (λ (a : Assignment). a.revision_id == id) db.assignments ++ more)
        (filter-numbered make target id n
          (filter (λ (a : Assignment). a.revision_id == source) db.assignments) h)

module _ (db : Store) (workday : Workday) (published : WorkdayRevision) (actor : ℕ)
    (fresh : IsFresh db) where
  start_draft-rows :
      (id : ℕ)
      → assignments_of (start_draft db workday published actor) id
        ≡ assignments_of db id
          ++ (if db.next_id == id
              then numbered
                  (copy_assignment db.next_id)
                  (suc db.next_id)
                  (assignments_of db published.id)
              else [])
  unfolding start_draft assignments_of
  start_draft-rows id =
      unfold assignments_of in
      assignments_of-made (copy_assignment db.next_id) published.id db.next_id (suc db.next_id) db
        id (λ m a. refl)

  start_draft-old :
      (id : ℕ) (r : WorkdayRevision)
      → get_revision db id ≡ some r
      → get_revision (start_draft db workday published actor) id ≡ some r
  unfolding start_draft get_revision
  start_draft-old id r h =
      unfold get_revision in
      get_revision-add (draft_from workday.id published db.next_id actor) db id r h

  pub start_draft-KeepsPublished : KeepsPublished db (start_draft db workday published actor)
  start_draft-KeepsPublished id r hr sr =
      let below : id < db.next_id =
        unfold get_revision in find?-fresh id db.next_id db.revisions r fresh.revisions hr in
      let same : (db.next_id == id) ≡ false = ground arith in
      (start_draft-old id r hr, start_draft-rows id ∙ rw same (append-nil (assignments_of db id)))

  start_draft-new_rows :
      assignments_of (start_draft db workday published actor) db.next_id
      ≡ numbered (copy_assignment db.next_id) (suc db.next_id) (assignments_of db published.id)
  start_draft-new_rows =
      let none_yet : assignments_of db db.next_id ≡ [] =
        unfold assignments_of in filter-fresh db.next_id db.assignments fresh.rows in
      start_draft-rows db.next_id ∙ rw (none_yet, (==_iff db.next_id db.next_id).1 refl)

  start_draft-stored :
      get_revision (start_draft db workday published actor) db.next_id
      ≡ some (draft_from workday.id published db.next_id actor)
  unfolding start_draft get_revision
  start_draft-stored =
      unfold get_revision add_revision in
      get_revision-new (draft_from workday.id published db.next_id actor) db fresh refl

  start_draft-workday :
      get_workday db workday.id ≡ some workday
      → get_workday (start_draft db workday published actor) workday.id
        ≡ some (drafting workday db.next_id)
  unfolding start_draft get_workday
  start_draft-workday h =
      unfold get_workday put_workday in
      get_workday-put (drafting workday db.next_id) db workday.id
      ∙ rw ((==_iff workday.id workday.id).1 refl, h)

-- In a store whose next identifier is unused, on a workday with a stored publication and no draft,
-- `ensure_draft` stores and returns a draft of the workday: the publication's facts under the next
-- revision number, based on the publication, created by the actor and not published. Its rows are
-- those of the publication with new identifiers, and no other row; the workday points to it, keeps
-- its publication and stands at the next version. Every published revision and its assignments stay
-- as they were.
pub ensure_draft_starts :
    (db : Store) (w p actor : ℕ) (workday : Workday) (published : WorkdayRevision)
    → IsFresh db
    → get_workday db w ≡ some workday
    → workday.current_draft_revision_id ≡ none
    → workday.current_published_revision_id ≡ some p
    → get_revision db p ≡ some published
    → (after : Store) × (draft : WorkdayRevision) × (ensure_draft db w actor
        ≡ ok (after, some draft))
      × (get_revision after draft.id ≡ some draft)
      × (draft ≡ record published {
        id = db.next_id;
        workday_id = workday.id;
        revision_number = published.revision_number + 1;
        state = RevisionState.draft;
        based_on_revision_id = some published.id;
        change_reason = "";
        created_by_user_id = actor;
        published_by_user_id = none;
        published_at = none;
      })
      × (assignments_of after draft.id
          ≡ numbered {A = Assignment}
              (λ id old. record old { id = id; revision_id = draft.id })
              (suc draft.id)
              (assignments_of db p))
      × (get_workday after w
          ≡ some (record workday {
            current_draft_revision_id = some draft.id;
            lock_version = workday.lock_version + 1;
          }))
      × KeepsPublished db after
unfolding ensure_draft
ensure_draft_starts db w p actor workday published fresh hw no_draft hp hr =
    let same = get_revision-id db p published hr in
    let id = get_workday-id db w workday hw in
    (
      start_draft db workday published actor,
      draft_from workday.id published db.next_id actor,
      rw (hw, no_draft, hp, hr),
      start_draft-stored db workday published actor fresh,
      refl,
      start_draft-new_rows db workday published actor fresh
          ∙ ap (λ q. numbered (copy_assignment db.next_id) (suc db.next_id) (assignments_of db q))
              same,
      subst
          (λ x.
            get_workday (start_draft db workday published actor) x
            ≡ some (drafting workday db.next_id))
          id
          (start_draft-workday db workday published actor fresh
            (subst (λ x. get_workday db x ≡ some workday) (sym id) hw)),
      start_draft-KeepsPublished db workday published actor fresh,
    )
