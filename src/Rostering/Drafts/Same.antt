-- ===== src/Rostering/Drafts/Same.antt =====
-- What a service that leaves the roster alone keeps of it: notices, capabilities, accounts and
-- applications stand in other tables.
use on_track_rostering.Prelude.{ℕ, List, ◌≡◌, refl, ◌∙◌, arith, ap, subst, sym, ◌==◌, find?, filter}
use on_track_rostering.Rostering.Models.{WorkdayRevision, Assignment, Workday}
use on_track_rostering.Rostering.Store.{
  Store, Notice, SameRoster, get_workday, get_revision, assignments_of, notify,
}
use on_track_rostering.Rostering.Drafts.Fresh.{
  IsFresh, RevisionsBelow, RowsBelow, RevisionsBelow-le, RowsBelow-le,
}
use on_track_rostering.Rostering.Drafts.Immutable.{KeepsPublished}

pub notify-SameRoster : (rows : List Notice) (db : Store) → SameRoster db (notify rows db)
unfolding notify
notify-SameRoster rows db = record {
  workdays = refl;
  revisions = refl;
  assignments = refl;
  next_id = omega arith;
}

pub KeepsPublished-trans :
    (a b c : Store) → KeepsPublished a b → KeepsPublished b c → KeepsPublished a c
KeepsPublished-trans a b c first second id r h s =
    let (found, rows) = first id r h s in
    let (still, same) = second id r found s in (still, same ∙ rows)

module _ {db after : Store} (same : SameRoster db after) where
  pub SameRoster-workday : (id : ℕ) → get_workday after id ≡ get_workday db id
  unfolding get_workday
  SameRoster-workday id = ap (find? (λ (x : Workday). x.id == id)) same.workdays

  pub SameRoster-revision : (id : ℕ) → get_revision after id ≡ get_revision db id
  unfolding get_revision
  SameRoster-revision id = ap (find? (λ (x : WorkdayRevision). x.id == id)) same.revisions

  pub SameRoster-rows : (id : ℕ) → assignments_of after id ≡ assignments_of db id
  unfolding assignments_of
  SameRoster-rows id = ap (filter (λ (x : Assignment). x.revision_id == id)) same.assignments

  pub SameRoster-KeepsPublished : KeepsPublished db after
  SameRoster-KeepsPublished id r h s = (SameRoster-revision id ∙ h, SameRoster-rows id)

  pub SameRoster-IsFresh : IsFresh db → IsFresh after
  SameRoster-IsFresh f = record {
    revisions =
        RevisionsBelow-le db.next_id after.next_id after.revisions
          (subst (RevisionsBelow db.next_id) (sym same.revisions) f.revisions) same.next_id;
    rows =
        RowsBelow-le db.next_id after.next_id after.assignments
          (subst (RowsBelow db.next_id) (sym same.assignments) f.rows) same.next_id;
  }
