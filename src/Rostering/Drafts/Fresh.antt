-- ===== src/Rostering/Drafts/Fresh.antt =====
-- New rows of app/rostering/service.py get identifiers that no revision has: `uuid4` in the source,
-- the store's counter here.
use on_track_rostering.Prelude.{
  ℕ, suc, ◌+◌, ◌<◌, ◌≤◌, List, [], ◌∷◌, ◌++◌, ◌≡◌, arith, All, Bool, ◌==◌, filter, some, find?,
  Bool-cases, inl, inr,
}
use on_track_rostering.Rostering.Models.{WorkdayRevision, Assignment, Workday}
use on_track_rostering.Rostering.Store.{
  Store, get_revision, set_revision, set_assignment, put_revision, put_assignment, put_workday,
  add_assignment as add_row, delete_assignment, numbered,
}
use on_track_rostering.Rostering.Store.Frames.{get_revision-id}
use on_track_rostering.Rostering.Drafts.Edit.{bump, drawn}

abbrev pub RevisionsBelow : ℕ → List WorkdayRevision → Type 0
RevisionsBelow n rs = All (λ (r : WorkdayRevision). r.id < n) rs

abbrev pub RowsBelow : ℕ → List Assignment → Type 0
RowsBelow n rows = All (λ (a : Assignment). a.revision_id < n) rows

-- Every revision identifier that a row holds has been handed out.
pub record IsFresh (db : Store) : Type 0 where
  pub revisions : RevisionsBelow db.next_id db.revisions
  pub rows : RowsBelow db.next_id db.assignments

-- A revision that is added under the next identifier.
pub RevisionsBelow-append :
    (n m : ℕ) (rs : List WorkdayRevision) (x : WorkdayRevision)
    → RevisionsBelow n rs
    → n ≤ m
    → x.id < m
    → RevisionsBelow m (rs ++ x ∷ [])
RevisionsBelow-append n m [] x h le lt = (lt, tt)
RevisionsBelow-append n m (r ∷ rs) x h le lt =
    let below : r.id < n = h.0 in (omega arith, RevisionsBelow-append n m rs x h.1 le lt)

pub RevisionsBelow-le :
    (n m : ℕ) (rs : List WorkdayRevision) → RevisionsBelow n rs → n ≤ m → RevisionsBelow m rs
RevisionsBelow-le n m [] h le = tt
RevisionsBelow-le n m (r ∷ rs) h le =
    let below : r.id < n = h.0 in (omega arith, RevisionsBelow-le n m rs h.1 le)

pub RowsBelow-le : (n m : ℕ) (rows : List Assignment) → RowsBelow n rows → n ≤ m → RowsBelow m rows
RowsBelow-le n m [] h le = tt
RowsBelow-le n m (a ∷ rows) h le =
    let below : a.revision_id < n = h.0 in (omega arith, RowsBelow-le n m rows h.1 le)

pub RowsBelow-append :
    (n m : ℕ) (rows more : List Assignment)
    → RowsBelow n rows
    → n ≤ m
    → RowsBelow m more
    → RowsBelow m (rows ++ more)
RowsBelow-append n m [] more h le new = new
RowsBelow-append n m (a ∷ rows) more h le new =
    let below : a.revision_id < n = h.0 in (omega arith, RowsBelow-append n m rows more h.1 le new)

pub RowsBelow-numbered :
    (make : ℕ → Assignment → Assignment) (target k n : ℕ) (rows : List Assignment)
    → ((m : ℕ) (a : Assignment) → (make m a).revision_id ≡ target)
    → target < n
    → RowsBelow n (numbered make k rows)
RowsBelow-numbered make target k n [] e lt = tt
RowsBelow-numbered make target k n (a ∷ rows) e lt =
    let same = e k a in (omega arith, RowsBelow-numbered make target (suc k) n rows e lt)

set_revision-RevisionsBelow :
    (n : ℕ) (x : WorkdayRevision) (rs : List WorkdayRevision)
    → RevisionsBelow n rs
    → x.id < n
    → RevisionsBelow n (set_revision x rs)
set_revision-RevisionsBelow n x [] h lt = tt
set_revision-RevisionsBelow n x (r ∷ rs) h lt =
    let below : r.id < n = h.0 in (ground arith, set_revision-RevisionsBelow n x rs h.1 lt)

set_assignment-RowsBelow :
    (n : ℕ) (x : Assignment) (rows : List Assignment)
    → RowsBelow n rows
    → x.revision_id < n
    → RowsBelow n (set_assignment x rows)
set_assignment-RowsBelow n x [] h lt = tt
set_assignment-RowsBelow n x (a ∷ rows) h lt =
    let below : a.revision_id < n = h.0 in (ground arith, set_assignment-RowsBelow n x rows h.1 lt)

filter-RowsBelow :
    (n : ℕ) (test : Assignment → Bool) (rows : List Assignment)
    → RowsBelow n rows
    → RowsBelow n (filter test rows)
filter-RowsBelow n test [] h = tt
filter-RowsBelow n test (a ∷ rows) h = elim (Bool-cases (test a)) [
  | inl e ↦ rw e (h.0, filter-RowsBelow n test rows h.1)
  | inr e ↦ rw e (filter-RowsBelow n test rows h.1)
]

pub find?-fresh :
    (id n : ℕ) (rows : List WorkdayRevision) (r : WorkdayRevision)
    → RevisionsBelow n rows
    → find? (λ x. x.id == id) rows ≡ some r
    → id < n
find?-fresh id n [] r h e = cc
find?-fresh id n (x ∷ xs) r h e =
    let below : x.id < n = h.0 in ground (arith, find?-fresh id n xs r h.1)

pub bump-IsFresh : (w : Workday) (db : Store) → IsFresh db → IsFresh (bump w db)
unfolding bump put_workday
bump-IsFresh w db fresh = record { revisions = fresh.revisions; rows = fresh.rows }

pub put_revision-IsFresh :
    (x : WorkdayRevision) (db : Store)
    → IsFresh db
    → x.id < db.next_id
    → IsFresh (put_revision x db)
unfolding put_revision
put_revision-IsFresh x db fresh lt = record {
  revisions = set_revision-RevisionsBelow db.next_id x db.revisions fresh.revisions lt;
  rows = fresh.rows;
}

module _ (x : Assignment) (db : Store) (fresh : IsFresh db) (lt : x.revision_id < db.next_id) where
  pub put_assignment-IsFresh : IsFresh (put_assignment x db)
  unfolding put_assignment
  put_assignment-IsFresh = record {
    revisions = fresh.revisions;
    rows = set_assignment-RowsBelow db.next_id x db.assignments fresh.rows lt;
  }

  pub delete_assignment-IsFresh : IsFresh (delete_assignment x db)
  unfolding delete_assignment
  delete_assignment-IsFresh = record {
    revisions = fresh.revisions;
    rows = filter-RowsBelow db.next_id _ db.assignments fresh.rows;
  }

  pub add_row-IsFresh : IsFresh (add_row x db)
  unfolding add_row
  add_row-IsFresh = record {
    revisions =
        RevisionsBelow-le db.next_id (suc db.next_id) db.revisions fresh.revisions (omega arith);
    rows =
        RowsBelow-append db.next_id (suc db.next_id) db.assignments (x ∷ []) fresh.rows
          (omega arith) (omega arith, tt);
  }

pub drawn-IsFresh : (db : Store) → IsFresh db → IsFresh (drawn db)
drawn-IsFresh db fresh = record {
  revisions =
      RevisionsBelow-le db.next_id (db.next_id + 1) db.revisions fresh.revisions (omega arith);
  rows = RowsBelow-le db.next_id (db.next_id + 1) db.assignments fresh.rows (omega arith);
}

pub get_revision-fresh :
    (db : Store) (id : ℕ) (r : WorkdayRevision)
    → IsFresh db
    → get_revision db id ≡ some r
    → r.id < db.next_id
unfolding get_revision
get_revision-fresh db id r fresh h =
    let same : r.id ≡ id = get_revision-id db id r (unfold get_revision in h) in
    let below : id < db.next_id = find?-fresh id db.next_id db.revisions r fresh.revisions h in
    omega (arith, same, below)
