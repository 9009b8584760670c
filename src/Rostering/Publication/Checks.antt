-- ===== src/Rostering/Publication/Checks.antt =====
-- `_publish` of app/rostering/service.py, before it writes: the locks, and the conflicts that must be
-- confirmed.
use on_track_rostering.Prelude.{
  ℕ, ◌+◌, Bool, true, false, ◌&&◌, not, Option, none, some, List, [], ◌∷◌, String, ◌==◌, opt_eq,
}
use text.Mathlib.Text.{◌==◌ as str_eq}
use on_track_rostering.Enums.{RevisionState, is_draft}
use on_track_rostering.Errors.{Error, Result, ok, publish_conflict, ◌>>=◌, ◌>>◌, reject_if}
use on_track_rostering.Clock.{DateTime}
use on_track_rostering.Auth.Policy.{actor_for, visible_regions}
use on_track_rostering.Rostering.Models.{Workday, WorkdayRevision}
use on_track_rostering.Rostering.Store.{Store, get_workday, get_revision, get_user, accounts_of}
use on_track_rostering.Rostering.Conflicts.{RosterConflict, operation_publication_conflicts}
use on_track_rostering.Rostering.Drafts.Copy.{require}

pub record PublishInput : Type 0 where
  pub workday_id : ℕ
  pub draft_id : ℕ
  pub actor_user_id : ℕ
  pub expected_version : ℕ
  pub confirm_conflicts : Bool
  pub reviewed_conflict_state : Option String
  pub require_stable_conflict_state : Bool

abbrev pub changed_before_publishing : Error
changed_before_publishing =
    publish_conflict
      "This roster was changed by someone else. Refresh the builder before publishing."

abbrev pub no_longer_current : Error
no_longer_current = publish_conflict "This draft is no longer current. Refresh before publishing."

abbrev pub already_published : Error
already_published = publish_conflict "This revision has already been published."

abbrev pub base_changed : Error
base_changed = publish_conflict "The published roster changed while this draft was being edited."

abbrev pub unresolved_conflicts : Error
unresolved_conflicts =
    publish_conflict
      "Roster conflicts changed or remain unresolved. Return to Preview and explicitly confirm Publish anyway."

abbrev pub destination_conflicts_changed : Error
destination_conflicts_changed =
    publish_conflict
      "The destination conflicts changed. Review the current warnings before moving this Workday."

-- The regions whose conflicts the publisher sees in detail: none for an unknown account.
abbrev pub publisher_regions : Store → ℕ → Option (List ℕ)
publisher_regions db user = elim (get_user db user) [
  | none ↦ some []
  | some u ↦ visible_regions (actor_for (accounts_of db) user)
]

unfoldable pub publish_conflicts : Store → Workday → WorkdayRevision → ℕ → List RosterConflict
publish_conflicts db workday draft user =
    operation_publication_conflicts db workday draft (publisher_regions db user)

abbrev pub is_empty : List RosterConflict → Bool
is_empty [] = true
is_empty (c ∷ cs) = false

-- `reviewed != current`.
abbrev pub state_differs : Option String → String → Bool
state_differs none current = true
state_differs (some reviewed) current = not (str_eq reviewed current)

unfoldable pub publish_checks :
    (List RosterConflict → String) → PublishInput → Store → Result (Workday × WorkdayRevision)
publish_checks state_of t db = do
  workday ← require (get_workday db t.workday_id) changed_before_publishing
  reject_if (not (workday.lock_version == t.expected_version)) changed_before_publishing
  draft ← require (get_revision db t.draft_id) no_longer_current
  reject_if (not (opt_eq workday.current_draft_revision_id (some draft.id))) no_longer_current
  reject_if (not (is_draft draft.state)) already_published
  reject_if (not (opt_eq draft.based_on_revision_id workday.current_published_revision_id))
      base_changed
  let conflicts = publish_conflicts db workday draft t.actor_user_id
  reject_if (not (is_empty conflicts) && not t.confirm_conflicts) unresolved_conflicts
  reject_if
      (not (is_empty conflicts)
        && t.require_stable_conflict_state
        && state_differs t.reviewed_conflict_state (state_of conflicts))
      destination_conflicts_changed
  ok (workday, draft)

-- The draft as a publication, and the workday that points to it.
abbrev pub published_revision : WorkdayRevision → ℕ → DateTime → WorkdayRevision
published_revision draft actor now = record draft {
  state = RevisionState.published;
  published_at = some now;
  published_by_user_id = some actor;
}

abbrev pub published_workday : Workday → ℕ → Workday
published_workday workday revision = record workday {
  current_published_revision_id = some revision;
  current_draft_revision_id = none;
  lock_version = workday.lock_version + 1;
}
