-- ===== src/Rostering/Store.antt =====
-- The tables as one store, and the queries and writes that the rostering services make on them.
-- `uuid4` is a counter, so that a new row has a new identifier. An exception rolls the transaction
-- back, so an operation that raises has no store as its result.
pub mod Frames
use on_track_rostering.Prelude.{
  ℕ, ◌≤◌, ◌≡◌, ◌∙◌, refl, arith, zero, suc, ◌+◌, Bool, true, false, ◌&&◌, Option, none, some, List,
  [], ◌∷◌, ◌++◌, map, String, ◌==◌, opt_eq, find?, filter, not, if◌then◌else◌,
}
use on_track_rostering.Enums.{AssignmentStatus}
use on_track_rostering.Clock.{DateTime, Date}
use on_track_rostering.Identity.{Person, User, UserPersonLink, RoleGrant, TrustedDevice, Accounts}
use on_track_rostering.Rostering.Models.{
  Workday, WorkdayRevision, Assignment, PersonalWorkdayEntry, OpenPositionApplication,
  ProgrammeItem, AllowanceIndicator, WorkdayEquipmentItem, Region, Track, BasePosition,
  PositionCapability,
}

-- What the services record for people and for the notification worker: audit rows
-- (`record_audit`), events (`record_event`) and lines of the human change history, each by its
-- action or type and the rows that it names.
pub data Notice : Type 0 where
  audit : (action : String) (entity actor : ℕ) → Notice
  event : (event_type : String) (workday revision : ℕ) (slot : Option ℕ) → Notice
  human_change : (workday revision actor : ℕ) → Notice
  access_audit : (action : String) (user : ℕ) (actor : Option ℕ) → Notice

pub record Store : Type 0 where
  pub workdays : List Workday
  pub revisions : List WorkdayRevision
  pub assignments : List Assignment
  pub programme_items : List ProgrammeItem
  pub allowances : List AllowanceIndicator
  pub equipment : List WorkdayEquipmentItem
  pub applications : List OpenPositionApplication
  pub entries : List PersonalWorkdayEntry
  pub regions : List Region
  pub tracks : List Track
  pub positions : List BasePosition
  pub people : List Person
  pub capabilities : List PositionCapability
  pub users : List User
  pub links : List UserPersonLink
  pub grants : List RoleGrant
  pub devices : List TrustedDevice
  -- of the one row of `SystemSettings`
  pub contractor_inactivity_days : ℕ
  pub operations : List ℕ
  pub notices : List Notice
  pub next_id : ℕ

-- `db.get(Workday, id)`, and so for the other tables.
unfoldable pub get_workday : Store → ℕ → Option Workday
get_workday db id = find? (λ w. w.id == id) db.workdays

unfoldable pub get_revision : Store → ℕ → Option WorkdayRevision
get_revision db id = find? (λ r. r.id == id) db.revisions

unfoldable pub get_region : Store → ℕ → Option Region
get_region db id = find? (λ r. r.id == id) db.regions

unfoldable pub get_track : Store → ℕ → Option Track
get_track db id = find? (λ t. t.id == id) db.tracks

unfoldable pub get_position : Store → ℕ → Option BasePosition
get_position db id = find? (λ p. p.id == id) db.positions

unfoldable pub get_person : Store → ℕ → Option Person
get_person db id = find? (λ p. p.id == id) db.people

unfoldable pub get_user : Store → ℕ → Option User
get_user db id = find? (λ u. u.id == id) db.users

-- The tables that the access rules read.
abbrev pub accounts_of : Store → Accounts
accounts_of db = record { grants = db.grants; links = db.links; people = db.people }

-- `get(id) if id else None`.
abbrev pub get_optional {ℓ} : {A : Type ℓ} → (ℕ → Option A) → Option ℕ → Option A
get_optional get none = none
get_optional get (some id) = get id

-- `select(Assignment).where(Assignment.revision_id == id)`.
unfoldable pub assignments_of : Store → ℕ → List Assignment
assignments_of db id = filter (λ a. a.revision_id == id) db.assignments

-- Rows are written by their identifier.
abbrev pub set_workday : Workday → List Workday → List Workday
set_workday w [] = []
set_workday w (x ∷ xs) = (if x.id == w.id then w else x) ∷ set_workday w xs

abbrev pub set_revision : WorkdayRevision → List WorkdayRevision → List WorkdayRevision
set_revision r [] = []
set_revision r (x ∷ xs) = (if x.id == r.id then r else x) ∷ set_revision r xs

-- An assignment never moves to another revision, so the test may name its revision too.
abbrev pub set_assignment : Assignment → List Assignment → List Assignment
set_assignment a [] = []
set_assignment a (x ∷ xs) =
    (if x.id == a.id && x.revision_id == a.revision_id then a else x) ∷ set_assignment a xs

unfoldable pub put_workday : Workday → Store → Store
put_workday w db = record db { workdays = set_workday w db.workdays }

unfoldable pub put_revision : WorkdayRevision → Store → Store
put_revision r db = record db { revisions = set_revision r db.revisions }

unfoldable pub put_assignment : Assignment → Store → Store
put_assignment a db = record db { assignments = set_assignment a db.assignments }

-- `db.add(row)`: the caller gives the row the identifier `db.next_id`.
unfoldable pub add_workday : Workday → Store → Store
add_workday w db = record db { workdays = db.workdays ++ w ∷ []; next_id = suc db.next_id }

unfoldable pub add_revision : WorkdayRevision → Store → Store
add_revision r db = record db { revisions = db.revisions ++ r ∷ []; next_id = suc db.next_id }

unfoldable pub add_assignment : Assignment → Store → Store
add_assignment a db = record db { assignments = db.assignments ++ a ∷ []; next_id = suc db.next_id }

-- `db.delete(assignment)`.
unfoldable pub delete_assignment : Assignment → Store → Store
delete_assignment a db = record db {
  assignments = filter (λ x. not (x.id == a.id && x.revision_id == a.revision_id)) db.assignments;
}

unfoldable pub notify : List Notice → Store → Store
notify rows db = record db { notices = db.notices ++ rows }

-- A loop that adds one row for each of some rows, with consecutive new identifiers.
abbrev pub numbered {ℓ κ} : {A : Type ℓ} {B : Type κ} → (ℕ → A → B) → ℕ → List A → List B
numbered make n [] = []
numbered make n (x ∷ xs) = make n x ∷ numbered make (suc n) xs

-- Where a service leaves the roster alone: the workdays, revisions and assignments are the same, and
-- the identifiers that are handed out only grow.
pub record SameRoster (db after : Store) : Type 0 where
  pub workdays : after.workdays ≡ db.workdays
  pub revisions : after.revisions ≡ db.revisions
  pub assignments : after.assignments ≡ db.assignments
  pub next_id : db.next_id ≤ after.next_id

pub SameRoster-refl : (db : Store) → SameRoster db db
SameRoster-refl db = record {
  workdays = refl;
  revisions = refl;
  assignments = refl;
  next_id = omega arith;
}

pub SameRoster-trans : {a b c : Store} → SameRoster a b → SameRoster b c → SameRoster a c
SameRoster-trans x y = record {
  workdays = y.workdays ∙ x.workdays;
  revisions = y.revisions ∙ x.revisions;
  assignments = y.assignments ∙ x.assignments;
  next_id = omega (arith, x.next_id, y.next_id);
}
