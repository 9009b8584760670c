-- ===== src/Rostering/Publication/Crew.antt =====
-- `_publish` of app/rostering/service.py: what is recorded for the people on the published rows.
use on_track_rostering.Prelude.{
  ℕ, Bool, ◌&&◌, none, some, List, [], ◌∷◌, ◌==◌, opt_eq, any, filter, if◌then◌else◌,
}
use on_track_rostering.Enums.{is_assigned}
use on_track_rostering.Clock.{DateTime}
use on_track_rostering.Identity.{User, UserPersonLink}
use on_track_rostering.ContractorAccess.{Zone, refresh_contractor_access}
use on_track_rostering.Positions.Signals.{record_worked}
use on_track_rostering.Rostering.Models.{Assignment}
use on_track_rostering.Rostering.Store.{Store, assignments_of}

-- The capability of an assigned row with a person and a position.
abbrev pub record_row_worked : ℕ → ℕ → Assignment → Store → Store
record_row_worked draft_id actor row db = elim row.person_id [
  | none ↦ db
  | some person ↦ elim row.base_position_id [
    | none ↦ db
    | some position ↦
        if is_assigned row.status then record_worked person position actor draft_id db else db
  ]
]

unfoldable pub record_all_worked : ℕ → ℕ → List Assignment → Store → Store
record_all_worked draft_id actor [] db = db
record_all_worked draft_id actor (row ∷ rows) db =
    record_all_worked draft_id actor rows (record_row_worked draft_id actor row db)

-- Whether the user is linked to a person on an assigned row.
abbrev pub is_on : List Assignment → List UserPersonLink → User → Bool
is_on rows links u =
    any
      (λ l.
        l.user_id == u.id
        && any (λ row. is_assigned row.status && opt_eq row.person_id (some l.person_id)) rows)
      links

unfoldable pub refresh_users : Zone → ℕ → DateTime → List User → Store → Store
refresh_users zone actor now [] db = db
refresh_users zone actor now (u ∷ us) db =
    refresh_users zone actor now us (refresh_contractor_access zone none (some actor) now u db)

unfoldable pub refresh_crew : Zone → ℕ → ℕ → DateTime → Store → Store
unfolding refresh_users
refresh_crew zone draft_id actor now db =
    refresh_users zone actor now (filter (is_on (assignments_of db draft_id) db.links) db.users) db
