-- ===== src/Rostering/Decline/Outcome.antt =====
-- What a decline publishes, and what it leaves alone.
use mathlib.Core.List.{append-nil}
use on_track_rostering.Prelude.{
  ℕ, suc, ◌+◌, Bool-cases, ◌<◌, ◌≤◌, false, none, some, List, [], ◌∷◌, ◌++◌, ◌≡◌, ◌≢◌, refl, sym,
  ◌∙◌, subst, arith, ap, ◌==◌, ==_iff, if◌then◌else◌, Has, inl, inr,
}
use on_track_rostering.Enums.{RevisionState, DeclinePolicy, AssignmentStatus}
use on_track_rostering.Errors.{ok}
use on_track_rostering.Clock.{DateTime}
use on_track_rostering.Rostering.Models.{Workday, WorkdayRevision, Assignment, Region}
use on_track_rostering.Rostering.Store.{
  Store, get_workday, get_revision, get_region, assignments_of, add_revision, put_workday, numbered,
}
use on_track_rostering.Rostering.Store.Frames.{
  get_workday-put, get_workday-id, get_revision-id, get_revision-add,
}
use on_track_rostering.Rostering.Drafts.Immutable.{KeepsPublished}
use on_track_rostering.Rostering.Drafts.Started.{assignments_of-made, filter-fresh}
use on_track_rostering.Rostering.Drafts.Pointers.{get_revision-new}
use on_track_rostering.Rostering.Drafts.Fresh.{IsFresh, find?-fresh}
use on_track_rostering.Rostering.Decline.{
  declined_revision, republished, last_number, declined_row, declined_status, decline_into,
  declined_target, decline_published_assignment,
}

pub declined_row-revision :
    (policy : DeclinePolicy) (slot target m : ℕ) (a : Assignment)
    → (declined_row policy slot target m a).revision_id ≡ target
declined_row-revision policy slot target m a = ground arith

module _ (db : Store) (workday : Workday) (published : WorkdayRevision) (region : Region)
    (slot actor : ℕ) (now : DateTime) (fresh : IsFresh db) where
  decline_into-rows :
      (id : ℕ)
      → assignments_of (decline_into db workday published region slot actor now) id
        ≡ assignments_of db id
          ++ (if db.next_id == id
              then numbered
                  (declined_row region.decline_policy slot db.next_id)
                  (suc db.next_id)
                  (assignments_of db published.id)
              else [])
  unfolding decline_into assignments_of
  decline_into-rows id =
      unfold assignments_of in
      assignments_of-made (declined_row region.decline_policy slot db.next_id) published.id
        db.next_id (suc db.next_id) db id
        (declined_row-revision region.decline_policy slot db.next_id)

  decline_into-old :
      (id : ℕ) (r : WorkdayRevision)
      → get_revision db id ≡ some r
      → get_revision (decline_into db workday published region slot actor now) id ≡ some r
  unfolding decline_into get_revision
  decline_into-old id r h =
      unfold get_revision in
      get_revision-add (declined_revision db workday published actor now) db id r h

  pub decline_into-KeepsPublished :
      KeepsPublished db (decline_into db workday published region slot actor now)
  decline_into-KeepsPublished id r hr sr =
      let below : id < db.next_id =
        unfold get_revision in find?-fresh id db.next_id db.revisions r fresh.revisions hr in
      let same : (db.next_id == id) ≡ false = ground arith in
      (decline_into-old id r hr, decline_into-rows id ∙ rw same (append-nil (assignments_of db id)))

  decline_into-new_rows :
      assignments_of (decline_into db workday published region slot actor now) db.next_id
      ≡ numbered
          (declined_row region.decline_policy slot db.next_id)
          (suc db.next_id)
          (assignments_of db published.id)
  decline_into-new_rows =
      let none_yet : assignments_of db db.next_id ≡ [] =
        unfold assignments_of in filter-fresh db.next_id db.assignments fresh.rows in
      decline_into-rows db.next_id ∙ rw (none_yet, (==_iff db.next_id db.next_id).1 refl)

  decline_into-stored :
      get_revision (decline_into db workday published region slot actor now) db.next_id
      ≡ some (declined_revision db workday published actor now)
  unfolding decline_into get_revision
  decline_into-stored =
      unfold get_revision add_revision in
      get_revision-new (declined_revision db workday published actor now) db fresh refl

  decline_into-workday :
      get_workday db workday.id ≡ some workday
      → get_workday (decline_into db workday published region slot actor now) workday.id
        ≡ some (republished workday db.next_id)
  unfolding decline_into get_workday
  decline_into-workday h =
      unfold get_workday put_workday in
      get_workday-put (republished workday db.next_id) db workday.id
      ∙ rw ((==_iff workday.id workday.id).1 refl, h)

-- A row of the new publication beside the row of the old one that it copies: without its person, and
-- with the status of the region's policy, where it has the declined slot, and otherwise the same.
abbrev pub IsDeclinedRow : DeclinePolicy → ℕ → ℕ → Assignment → Assignment → Type 0
IsDeclinedRow policy slot target old a =
    (a.slot_key ≡ slot
      → (a ≡ record old {
        id = a.id;
        revision_id = target;
        person_id = none;
        person_name_snapshot = none;
        status = a.status;
      })
        × (policy ≡ DeclinePolicy.open_immediately → a.status ≡ AssignmentStatus.open_slot)
        × (policy ≡ DeclinePolicy.manager_review
            → a.status ≡ AssignmentStatus.manager_action_required))
    × (a.slot_key ≢ slot → a ≡ record old { id = a.id; revision_id = target })

declined_row-IsDeclinedRow :
    (policy : DeclinePolicy) (slot target m : ℕ) (old : Assignment)
    → ((declined_row policy slot target m old).slot_key ≡ old.slot_key)
      × IsDeclinedRow policy slot target old (declined_row policy slot target m old)
declined_row-IsDeclinedRow policy slot target m old = elim (Bool-cases (old.slot_key == slot)) [
  | inl e ↦ rw e (
    refl,
    (
      λ s. (refl, λ p. ap declined_status p, λ p. ap declined_status p),
      λ n. absurd (n ((==_iff old.slot_key slot).0 e)),
    ),
  )
  | inr e ↦ rw e (refl, (λ s. absurd (differs e s), λ n. refl))
]
  where
    differs : (old.slot_key == slot) ≡ false → old.slot_key ≢ slot
    differs e s = let same = (==_iff old.slot_key slot).1 s in cc

module _ (make : ℕ → Assignment → Assignment) where
  numbered-Has :
      (n : ℕ) (rows : List Assignment) (a : Assignment)
      → Has a (numbered make n rows)
      → (m : ℕ) × (old : Assignment) × Has old rows × (a ≡ make m old)
  numbered-Has n (x ∷ xs) a (inl e) = (n, x, inl refl, e)
  numbered-Has n (x ∷ xs) a (inr h) =
      let (m, old, held, made) = numbered-Has (suc n) xs a h in (m, old, inr held, made)
  numbered-Has n [] a h = absurd h

  Has-numbered :
      (n : ℕ) (rows : List Assignment) (old : Assignment)
      → Has old rows
      → (m : ℕ) × Has (make m old) (numbered make n rows)
  Has-numbered n (x ∷ xs) old (inl e) = (n, inl (ap (make n) e))
  Has-numbered n (x ∷ xs) old (inr h) =
      let (m, held) = Has-numbered (suc n) xs old h in (m, inr held)
  Has-numbered n [] old h = absurd h

-- The rows that are made of the old ones are their declined copies, and each old row has one.
declined_rows :
    (policy : DeclinePolicy) (slot target n : ℕ) (rows made : List Assignment)
    → made ≡ numbered (declined_row policy slot target) n rows
    → ((a : Assignment)
        → Has a made
        → (old : Assignment) × Has old rows
          × (a.slot_key ≡ old.slot_key)
          × IsDeclinedRow policy slot target old a)
      × ((old : Assignment)
          → Has old rows
          → (a : Assignment) × Has a made
            × (a.slot_key ≡ old.slot_key)
            × IsDeclinedRow policy slot target old a)
declined_rows policy slot target n rows made e = (
  λ a h.
      let (m, old, held, is_it) =
        numbered-Has (declined_row policy slot target) n rows a (subst (Has a) e h) in
      let (key, copy) = declined_row-IsDeclinedRow policy slot target m old in
      (
        old,
        held,
        ap (λ (x : Assignment). x.slot_key) is_it ∙ key,
        subst (IsDeclinedRow policy slot target old) (sym is_it) copy,
      ),
  λ old h.
      let (m, held) = Has-numbered (declined_row policy slot target) n rows old h in
      let (key, copy) = declined_row-IsDeclinedRow policy slot target m old in
      (
        declined_row policy slot target m old,
        subst (Has (declined_row policy slot target m old)) (sym e) held,
        key,
        copy,
      ),
)

last_number-ge :
    (w : ℕ) (rows : List WorkdayRevision) (r : WorkdayRevision)
    → Has r rows
    → r.workday_id ≡ w
    → r.revision_number ≤ last_number w rows
last_number-ge w (x ∷ xs) r (inl e) own =
    let same = ap (λ (y : WorkdayRevision). y.revision_number) e in
    let owner = ap (λ (y : WorkdayRevision). y.workday_id) e in ground arith
last_number-ge w (x ∷ xs) r (inr m) own = ground (arith, last_number-ge w xs r m own)
last_number-ge w [] r m own = absurd m

-- In a store whose next identifier is unused, and where the workday, its publication, its region
-- and the assigned row are found, a decline publishes a new revision, which is based on the old one
-- and numbered above every revision of the workday, published by the actor at the time, and stored.
-- Its rows are copies of those of the old one, each of which has one: the row of the declined slot
-- has lost its person and has the status of the region's policy, and the others are the same but for
-- their identifier and revision. The workday points to it, without a draft, at the next version.
-- Every revision published before stays as it was, with its assignments.
pub decline_publishes :
    (db : Store) (w p slot person actor : ℕ) (now : DateTime) (workday : Workday)
    (published : WorkdayRevision) (region : Region) (target : Assignment)
    → IsFresh db
    → get_workday db w ≡ some workday
    → workday.current_published_revision_id ≡ some p
    → get_revision db p ≡ some published
    → get_region db workday.region_id ≡ some region
    → declined_target db p slot person ≡ some target
    → (after : Store) × (new : WorkdayRevision) × (decline_published_assignment db w slot person
          actor now
        ≡ ok (after, new))
      × (new.state ≡ RevisionState.published)
      × (new.based_on_revision_id ≡ some p)
      × ((r : WorkdayRevision)
          → Has r db.revisions
          → r.workday_id ≡ workday.id
          → r.revision_number < new.revision_number)
      × (get_revision after new.id ≡ some new)
      × (new.published_at ≡ some now)
      × (new.published_by_user_id ≡ some actor)
      × ((a : Assignment)
          → Has a (assignments_of after new.id)
          → (old : Assignment) × Has old (assignments_of db p)
            × (a.slot_key ≡ old.slot_key)
            × IsDeclinedRow region.decline_policy slot new.id old a)
      × ((old : Assignment)
          → Has old (assignments_of db p)
          → (a : Assignment) × Has a (assignments_of after new.id)
            × (a.slot_key ≡ old.slot_key)
            × IsDeclinedRow region.decline_policy slot new.id old a)
      × (get_workday after w
          ≡ some (record workday {
            current_published_revision_id = some new.id;
            current_draft_revision_id = none;
            lock_version = workday.lock_version + 1;
          }))
      × KeepsPublished db after
unfolding decline_published_assignment
decline_publishes db w p slot person actor now workday published region target fresh hw hp hr hg
      ht =
    let same = get_revision-id db p published hr in
    let id = get_workday-id db w workday hw in
    let (copies, each_copied) =
      declined_rows region.decline_policy slot db.next_id (suc db.next_id) (assignments_of db p)
        (assignments_of (decline_into db workday published region slot actor now) db.next_id)
        (decline_into-new_rows db workday published region slot actor now fresh
          ∙ ap
              (λ q.
                numbered (declined_row region.decline_policy slot db.next_id) (suc db.next_id)
                  (assignments_of db q))
              same) in
    (
      decline_into db workday published region slot actor now,
      declined_revision db workday published actor now,
      rw (hw, hp, hr, hg, same, ht),
      refl,
      ap some same,
      λ r held own. omega (arith, last_number-ge workday.id db.revisions r held own),
      decline_into-stored db workday published region slot actor now fresh,
      refl,
      refl,
      copies,
      each_copied,
      subst
          (λ x.
            get_workday (decline_into db workday published region slot actor now) x
            ≡ some (republished workday db.next_id))
          id
          (decline_into-workday db workday published region slot actor now fresh
            (subst (λ x. get_workday db x ≡ some workday) (sym id) hw)),
      decline_into-KeepsPublished db workday published region slot actor now fresh,
    )
