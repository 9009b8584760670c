-- ===== src/Rostering/Store/Frames.antt =====
-- Reading a table after a write to it.
use mathlib.Core.Option
use mathlib.Core.List.{append-nil}
use on_track_rostering.Prelude.{
  ℕ, ◌∙◌, Bool, not, ◌&&◌, some, List, [], ◌∷◌, ◌++◌, ◌≡◌, ◌≢◌, refl, arith, ap, ◌==◌, find?,
  find?-some, Has, filter, if◌then◌else◌, ==_iff,
}
use on_track_rostering.Rostering.Models.{Workday, WorkdayRevision, Assignment}
use on_track_rostering.Rostering.Store.{
  Store, get_workday, get_revision, assignments_of, put_workday, put_revision, put_assignment,
  add_revision, add_assignment, delete_assignment, set_workday, set_revision, set_assignment,
}

module _ {ℓ} {A : Type ℓ} (test : A → Bool) where
  pub find?-append_some :
      (xs ys : List A) (a : A) → find? test xs ≡ some a → find? test (xs ++ ys) ≡ some a
  find?-append_some [] ys a h = cc
  find?-append_some (x ∷ xs) ys a h = ground (arith, find?-append_some xs ys a)

  pub filter-append : (xs ys : List A) → filter test (xs ++ ys) ≡ filter test xs ++ filter test ys
  filter-append [] ys = refl
  filter-append (x ∷ xs) ys = ground (arith, filter-append xs ys)

find?-set_revision :
    (x : WorkdayRevision) (id : ℕ) (rows : List WorkdayRevision)
    → find? (λ r. r.id == id) (set_revision x rows) ≡ (
        if x.id == id
        then Option.map (λ _. x) (find? (λ r. r.id == id) rows)
        else find? (λ r. r.id == id) rows)
find?-set_revision x id [] = ground arith
find?-set_revision x id (y ∷ ys) = ground (arith, find?-set_revision x id ys)

find?-set_workday :
    (x : Workday) (id : ℕ) (rows : List Workday)
    → find? (λ w. w.id == id) (set_workday x rows) ≡ (
        if x.id == id
        then Option.map (λ _. x) (find? (λ w. w.id == id) rows)
        else find? (λ w. w.id == id) rows)
find?-set_workday x id [] = ground arith
find?-set_workday x id (y ∷ ys) = ground (arith, find?-set_workday x id ys)

-- A write replaces the row of its identifier, if there is one, and no other.
pub get_revision-put :
    (x : WorkdayRevision) (db : Store) (id : ℕ)
    → get_revision (put_revision x db) id
      ≡ (if x.id == id then Option.map (λ _. x) (get_revision db id) else get_revision db id)
unfolding get_revision put_revision
get_revision-put x db id = find?-set_revision x id db.revisions

pub get_workday-put :
    (x : Workday) (db : Store) (id : ℕ)
    → get_workday (put_workday x db) id
      ≡ (if x.id == id then Option.map (λ _. x) (get_workday db id) else get_workday db id)
unfolding get_workday put_workday
get_workday-put x db id = find?-set_workday x id db.workdays

filter-set_assignment :
    (x : Assignment) (id : ℕ) (rows : List Assignment)
    → x.revision_id ≢ id
    → filter (λ a. a.revision_id == id) (set_assignment x rows)
      ≡ filter (λ a. a.revision_id == id) rows
filter-set_assignment x id [] h = refl
filter-set_assignment x id (y ∷ ys) h = ground (arith, filter-set_assignment x id ys h)

filter-delete :
    (x : Assignment) (id : ℕ) (rows : List Assignment)
    → x.revision_id ≢ id
    → filter
        (λ a. a.revision_id == id)
        (filter (λ a. not (a.id == x.id && a.revision_id == x.revision_id)) rows)
      ≡ filter (λ a. a.revision_id == id) rows
filter-delete x id [] h = refl
filter-delete x id (y ∷ ys) h = ground (arith, filter-delete x id ys h)

module _ (x : Assignment) (db : Store) (id : ℕ) (elsewhere : x.revision_id ≢ id) where
  pub assignments_of-put : assignments_of (put_assignment x db) id ≡ assignments_of db id
  unfolding assignments_of put_assignment
  assignments_of-put = filter-set_assignment x id db.assignments elsewhere

  pub assignments_of-delete : assignments_of (delete_assignment x db) id ≡ assignments_of db id
  unfolding assignments_of delete_assignment
  assignments_of-delete = filter-delete x id db.assignments elsewhere

  pub assignments_of-add : assignments_of (add_assignment x db) id ≡ assignments_of db id
  unfolding assignments_of add_assignment
  assignments_of-add =
      filter-append (λ (a : Assignment). a.revision_id == id) db.assignments (x ∷ [])
      ∙ ap (λ rest. filter (λ (a : Assignment). a.revision_id == id) db.assignments ++ rest)
          left_out
      ∙ append-nil _
    where
      left_out : filter (λ (a : Assignment). a.revision_id == id) (x ∷ []) ≡ []
      left_out = ground arith

pub get_revision-add :
    (x : WorkdayRevision) (db : Store) (id : ℕ) (r : WorkdayRevision)
    → get_revision db id ≡ some r
    → get_revision (add_revision x db) id ≡ some r
unfolding get_revision add_revision
get_revision-add x db id r h =
    find?-append_some (λ (r : WorkdayRevision). r.id == id) db.revisions (x ∷ []) r h

-- A row that is found by its identifier has it.
pub get_workday-id : (db : Store) (id : ℕ) (w : Workday) → get_workday db id ≡ some w → w.id ≡ id
unfolding get_workday
get_workday-id db id w h =
    (==_iff w.id id).0 (find?-some (λ (x : Workday). x.id == id) db.workdays w h).1

pub get_revision-id :
    (db : Store) (id : ℕ) (r : WorkdayRevision) → get_revision db id ≡ some r → r.id ≡ id
unfolding get_revision
get_revision-id db id r h =
    (==_iff r.id id).0 (find?-some (λ (x : WorkdayRevision). x.id == id) db.revisions r h).1

-- A row that is found stands in its table.
pub get_workday-Has :
    (db : Store) (id : ℕ) (w : Workday) → get_workday db id ≡ some w → Has w db.workdays
unfolding get_workday
get_workday-Has db id w h = (find?-some (λ (x : Workday). x.id == id) db.workdays w h).0
