-- ===== src/Rostering/Drafts/Copy.antt =====
-- `ensure_draft`, with the copy of a published revision and of its rows, and `lock_current_draft`.
use on_track_rostering.Prelude.{
  ℕ, ◌≡◌, ap, ◌+◌, Bool, true, not, Option, none, some, [], ◌++◌, ◌==◌, opt_eq, filter, length,
  if◌then◌else◌,
}
use on_track_rostering.Enums.{RevisionState, is_draft}
use on_track_rostering.Errors.{
  Error, Result, ok, err, value_error, draft_conflict, ok-injective, ◌>>=◌, ◌>>◌, reject_if,
}
use on_track_rostering.Rostering.Models.{
  Workday, WorkdayRevision, Assignment, ProgrammeItem, AllowanceIndicator, WorkdayEquipmentItem,
}
use on_track_rostering.Rostering.Store.{
  Store, get_workday, get_revision, get_optional, assignments_of, add_revision, put_workday,
  numbered,
}

-- The row that a `Workday` lookup must find.
abbrev pub require {ℓ} : {A : Type ℓ} → Option A → Error → Result A
require none e = err e
require (some a) e = ok a

pub require-eq-ok {ℓ} :
    {A : Type ℓ} (o : Option A) (e : Error) (a : A) → require o e ≡ ok a → o ≡ some a
require-eq-ok (some x) e a h = ap some (ok-injective h)
require-eq-ok none e a h = cc

-- The new draft of a workday over a published revision: every roster fact is the published one.
abbrev pub draft_from : ℕ → WorkdayRevision → ℕ → ℕ → WorkdayRevision
draft_from workday published id actor = record published {
  id = id;
  workday_id = workday;
  revision_number = published.revision_number + 1;
  state = RevisionState.draft;
  based_on_revision_id = some published.id;
  change_reason = "";
  created_by_user_id = actor;
  published_by_user_id = none;
  published_at = none;
}

-- A copy of an assignment: a new row with the slot key and everything else of the old one.
abbrev pub copy_assignment : ℕ → ℕ → Assignment → Assignment
copy_assignment revision id old = record old { id = id; revision_id = revision }

abbrev pub copy_programme : ℕ → ℕ → ProgrammeItem → ProgrammeItem
copy_programme revision id old = record old { id = id; revision_id = revision }

abbrev pub copy_allowance : ℕ → ℕ → AllowanceIndicator → AllowanceIndicator
copy_allowance revision id old = record old { id = id; revision_id = revision }

abbrev pub copy_equipment : ℕ → ℕ → WorkdayEquipmentItem → WorkdayEquipmentItem
copy_equipment revision id old = record old { id = id; revision_id = revision }

-- `db.add` of one copy for each assignment of a revision.
unfoldable pub copy_assignments : ℕ → ℕ → Store → Store
copy_assignments source target db =
    let rows = assignments_of db source in
    record db {
      assignments = db.assignments ++ numbered (copy_assignment target) db.next_id rows;
      next_id = db.next_id + length rows;
    }

-- `_copy_revision_children` with its three flags.
unfoldable pub copy_revision_children : ℕ → ℕ → Bool → Bool → Bool → Store → Store
copy_revision_children source target programme allowances equipment db =
    let items =
      if programme
      then filter (λ (r : ProgrammeItem). r.revision_id == source) db.programme_items
      else [] in
    let indicators =
      if allowances
      then filter (λ (r : AllowanceIndicator). r.revision_id == source) db.allowances
      else [] in
    let pieces =
      if equipment
      then filter (λ (r : WorkdayEquipmentItem). r.revision_id == source) db.equipment
      else [] in
    let n = db.next_id + length items in
    let m = n + length indicators in
    record db {
      programme_items = db.programme_items ++ numbered (copy_programme target) db.next_id items;
      allowances = db.allowances ++ numbered (copy_allowance target) n indicators;
      equipment = db.equipment ++ numbered (copy_equipment target) m pieces;
      next_id = m + length pieces;
    }

-- The workday once a draft has been started for it.
abbrev pub drafting : Workday → ℕ → Workday
drafting workday draft = record workday {
  current_draft_revision_id = some draft;
  lock_version = workday.lock_version + 1;
}

-- The part of `ensure_draft` that makes a new draft.
unfoldable pub start_draft : Store → Workday → WorkdayRevision → ℕ → Store
unfolding add_revision copy_assignments copy_revision_children put_workday
start_draft db workday published actor =
    let id = db.next_id in
    let with_draft = add_revision (draft_from workday.id published id actor) db in
    let with_rows = copy_assignments published.id id with_draft in
    let with_children = copy_revision_children published.id id true true true with_rows in
    put_workday (drafting workday id) with_children

-- The draft that `ensure_draft` returns, with the store after it. A draft that the workday already
-- has is returned as `db.get` finds it.
unfoldable pub ensure_draft : Store → ℕ → ℕ → Result (Store × Option WorkdayRevision)
unfolding start_draft
ensure_draft db workday_id actor = do
  workday ← require (get_workday db workday_id) (value_error "Workday not found.")
  elim workday.current_draft_revision_id [
    | some draft_id ↦ ok (db, get_revision db draft_id)
    | none ↦ do
      published ←
          require (get_optional (get_revision db) workday.current_published_revision_id)
            (value_error "Workday has no draft or published revision.")
      ok (
        start_draft db workday published actor,
        some (draft_from workday.id published db.next_id actor),
      )
  ]

abbrev pub changed_elsewhere : Error
changed_elsewhere =
    draft_conflict
      "This roster was changed by someone else. Refresh the builder before making further changes."

abbrev pub not_current : Error
not_current =
    draft_conflict "This draft is no longer current. Refresh the builder before making changes."

abbrev pub immutable : Error
immutable = draft_conflict "Published revisions are immutable. Refresh the builder."

-- `lock_current_draft`.
unfoldable pub lock_current_draft : Store → ℕ → ℕ → ℕ → Result (Workday × WorkdayRevision)
lock_current_draft db workday_id draft_id expected_version = do
  workday ← require (get_workday db workday_id) changed_elsewhere
  reject_if (not (workday.lock_version == expected_version)) changed_elsewhere
  draft ← require (get_revision db draft_id) not_current
  reject_if (not (opt_eq workday.current_draft_revision_id (some draft.id))) not_current
  reject_if (not (is_draft draft.state)) immutable
  ok (workday, draft)
