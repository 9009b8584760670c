-- ===== src/Examples/Roster.antt =====
-- Drafts and declines on the example store.
use on_track_rostering.Prelude.{suc, ◌≡◌, ◌<◌, refl, none, some, [], ◌∷◌, Has, arith}
use on_track_rostering.Enums.{RevisionState, DeclinePolicy}
use on_track_rostering.Errors.{ok, err}
use on_track_rostering.Rostering.Models.{WorkdayRevision, Assignment}
use on_track_rostering.Rostering.Store.{
  Store, get_workday, get_revision, get_region, assignments_of, numbered,
}
use on_track_rostering.Rostering.Drafts.Copy.{
  draft_from, ensure_draft, lock_current_draft, changed_elsewhere,
}
use on_track_rostering.Rostering.Drafts.Immutable.{KeepsPublished}
use on_track_rostering.Rostering.Drafts.Commands.{
  remove, apply_edit, apply_edit-KeepsPublished, apply_edit_twice,
}
use on_track_rostering.Rostering.Drafts.Started.{ensure_draft_starts}
use on_track_rostering.Rostering.Drafts.Fresh.{IsFresh}
use on_track_rostering.Rostering.Decline.{declined_target, decline_published_assignment}
use on_track_rostering.Rostering.Decline.Outcome.{IsDeclinedRow, decline_publishes}
use on_track_rostering.Rostering.Drafts.Copy.{start_draft}
use on_track_rostering.Rostering.Steps.{edits, starts, stay, then_step}
use on_track_rostering.Rostering.Steps.History.{Reach-KeepsPublished}
use on_track_rostering.Examples.{workday, assignment, region, published_day, store}

-- The store after row 22 has been removed from the draft.
abbrev without_row : Store
without_row = record store {
  workdays = workday 11 (some 1) none ∷ record (workday 12 none (some 2)) { lock_version = 4 } ∷ [];
  assignments = assignment 21 1 ∷ [];
}

removed : apply_edit (remove 22) store 12 2 3 ≡ ok without_row
unfolding apply_edit get_workday get_revision lock_current_draft
removed = refl

apply_edit-KeepsPublished_example : KeepsPublished store without_row
apply_edit-KeepsPublished_example =
    apply_edit-KeepsPublished (remove 22) store 12 2 3 without_row removed

apply_edit_twice_example : apply_edit (remove 22) without_row 12 2 3 ≡ err changed_elsewhere
apply_edit_twice_example =
    apply_edit_twice (remove 22) (remove 22) store 12 2 2 3 without_row removed

store-IsFresh : IsFresh store
store-IsFresh = record { revisions = omega arith; rows = omega arith }

found : get_workday store 11 ≡ some (workday 11 (some 1) none)
unfolding get_workday
found = refl

found_revision : get_revision store 1 ≡ some published_day
unfolding get_revision
found_revision = refl

ensure_draft_starts_example :
    (after : Store) × (draft : WorkdayRevision) × (ensure_draft store 11 90
      ≡ ok (after, some draft))
    × (get_revision after draft.id ≡ some draft)
    × (draft ≡ record published_day {
      id = 100;
      workday_id = 11;
      revision_number = 2;
      state = RevisionState.draft;
      based_on_revision_id = some 1;
      change_reason = "";
      created_by_user_id = 90;
      published_by_user_id = none;
      published_at = none;
    })
    × (assignments_of after draft.id
        ≡ numbered {A = Assignment}
            (λ id old. record old { id = id; revision_id = draft.id })
            (suc draft.id)
            (assignments_of store 1))
    × (get_workday after 11
        ≡ some (record (workday 11 (some 1) none) {
          current_draft_revision_id = some draft.id;
          lock_version = 4;
        }))
    × KeepsPublished store after
ensure_draft_starts_example =
    ensure_draft_starts store 11 1 90 (workday 11 (some 1) none) published_day store-IsFresh found
      refl refl found_revision

found_region : get_region store 5 ≡ some region
unfolding get_region
found_region = refl

found_target : declined_target store 1 70 7 ≡ some (assignment 21 1)
unfolding declined_target
found_target = refl

decline_publishes_example :
    (after : Store) × (new : WorkdayRevision) × (decline_published_assignment store 11 70 7 91 5000
      ≡ ok (after, new))
    × (new.state ≡ RevisionState.published)
    × (new.based_on_revision_id ≡ some 1)
    × ((r : WorkdayRevision)
        → Has r store.revisions
        → r.workday_id ≡ 11
        → r.revision_number < new.revision_number)
    × (get_revision after new.id ≡ some new)
    × (new.published_at ≡ some 5000)
    × (new.published_by_user_id ≡ some 91)
    × ((a : Assignment)
        → Has a (assignments_of after new.id)
        → (old : Assignment) × Has old (assignments_of store 1)
          × (a.slot_key ≡ old.slot_key)
          × IsDeclinedRow DeclinePolicy.open_immediately 70 new.id old a)
    × ((old : Assignment)
        → Has old (assignments_of store 1)
        → (a : Assignment) × Has a (assignments_of after new.id)
          × (a.slot_key ≡ old.slot_key)
          × IsDeclinedRow DeclinePolicy.open_immediately 70 new.id old a)
    × (get_workday after 11
        ≡ some (record (workday 11 (some 1) none) {
          current_published_revision_id = some new.id;
          current_draft_revision_id = none;
          lock_version = 4;
        }))
    × KeepsPublished store after
decline_publishes_example =
    decline_publishes store 11 1 70 7 91 5000 (workday 11 (some 1) none) published_day region
      (assignment 21 1) store-IsFresh found refl found_revision found_region found_target

-- The store once row 22 has been removed and a draft of workday 11 has been started.
abbrev two_steps : Store
two_steps = start_draft without_row (workday 11 (some 1) none) published_day 90

drafted : ensure_draft without_row 11 90 ≡ ok (two_steps, some (draft_from 11 published_day 100 90))
unfolding ensure_draft get_workday get_revision
drafted = refl

Reach-KeepsPublished_example : IsFresh two_steps × KeepsPublished store two_steps
Reach-KeepsPublished_example =
    Reach-KeepsPublished
      (then_step (then_step stay (edits (remove 22) 12 2 3 removed))
        (starts 11 90 (some (draft_from 11 published_day 100 90)) drafted))
      store-IsFresh
