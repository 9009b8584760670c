-- ===== src/Unavailability.antt =====
-- app/unavailability/service.py: the leave of people. It has a table of its own beside the people.
pub mod Disjoint
use on_track_rostering.Prelude.{
  ℕ, suc, ◌+◌, Bool, true, false, ◌&&◌, ◌||◌, not, Option, none, some, List, [], ◌∷◌, ◌++◌, String,
  ◌==◌, leb, ltb, any, filter, find?, is_none, length, if◌then◌else◌,
}
use on_track_rostering.Text.{strip, codes}
use on_track_rostering.Errors.{Error, Result, ok, err, value_error, ◌>>=◌, ◌>>◌, reject_if}
use on_track_rostering.Clock.{Date, DateTime}
use on_track_rostering.Identity.{Person}
use on_track_rostering.Rostering.Drafts.Copy.{require}

pub record PersonUnavailability : Type 0 where
  pub id : ℕ
  pub person_id : ℕ
  pub start_date : Date
  pub end_date : Date
  pub note : String
  pub created_by_user_id : ℕ
  pub cancelled_at : Option DateTime
  pub cancelled_by_user_id : Option ℕ

-- The two tables, and the audit rows by their action and their leave record.
pub record LeaveTables : Type 0 where
  pub people : List Person
  pub leave : List PersonUnavailability
  pub audits : List (String × ℕ)
  pub next_id : ℕ

-- The WHERE clause of `active_overlapping`.
abbrev pub is_overlapping : ℕ → Date → Date → PersonUnavailability → Bool
is_overlapping person start end row =
    row.person_id == person
    && is_none row.cancelled_at
    && leb row.start_date end
    && leb start row.end_date

-- `active_overlapping`, in the order of the table: its callers do not read the order.
unfoldable pub active_overlapping : LeaveTables → ℕ → Date → Date → List PersonUnavailability
active_overlapping db person start end = filter (is_overlapping person start end) db.leave

abbrev pub is_any : List PersonUnavailability → Bool
is_any [] = false
is_any (x ∷ xs) = true

abbrev pub new_leave : ℕ → ℕ → Date → Date → String → ℕ → PersonUnavailability
new_leave id person start end note actor = record {
  id = id;
  person_id = person;
  start_date = start;
  end_date = end;
  note = note;
  created_by_user_id = actor;
  cancelled_at = none;
  cancelled_by_user_id = none;
}

-- `db.add(row)` with its audit.
unfoldable pub add_leave : PersonUnavailability → String → LeaveTables → LeaveTables
add_leave row action db = record db {
  leave = db.leave ++ row ∷ [];
  audits = db.audits ++ (action, row.id) ∷ [];
  next_id = suc db.next_id;
}

abbrev pub ends_before_start : Error
ends_before_start = value_error "End date must be on or after the start date."

abbrev pub note_too_long : Error
note_too_long = value_error "Note must be 1000 characters or fewer."

abbrev pub no_such_person : Error
no_such_person = value_error "Select an active person."

abbrev pub already_on_leave : Error
already_on_leave = value_error "This person already has active leave overlapping those dates."

unfoldable pub create_unavailability :
    LeaveTables → ℕ → Date → Date → String → ℕ → Result (LeaveTables × PersonUnavailability)
unfolding strip codes active_overlapping add_leave
create_unavailability db person_id start end note actor = do
  reject_if (ltb end start) ends_before_start
  reject_if (ltb 1000 (length (codes (strip note)))) note_too_long
  person ← require (find? (λ p. p.id == person_id) db.people) no_such_person
  reject_if (is_any (active_overlapping db person.id start end)) already_on_leave
  let row = new_leave db.next_id person.id start end (strip note) actor
  ok (add_leave row "person_unavailability.created" db, row)

abbrev pub already_cancelled : Error
already_cancelled = value_error "This leave record is already cancelled."

abbrev pub cancelled_leave : DateTime → ℕ → PersonUnavailability → PersonUnavailability
cancelled_leave now actor row = record row {
  cancelled_at = some now;
  cancelled_by_user_id = some actor;
}

abbrev pub cancel_row : ℕ → DateTime → ℕ → List PersonUnavailability → List PersonUnavailability
cancel_row id now actor [] = []
cancel_row id now actor (x ∷ xs) =
    (if x.id == id then cancelled_leave now actor x else x) ∷ cancel_row id now actor xs

unfoldable pub cancel_unavailability :
    LeaveTables → PersonUnavailability → ℕ → DateTime → Result LeaveTables
cancel_unavailability db row actor now = do
  reject_if (not (is_none row.cancelled_at)) already_cancelled
  ok (record db {
    leave = cancel_row row.id now actor db.leave;
    audits = db.audits ++ ("person_unavailability.cancelled", row.id) ∷ [];
  })
