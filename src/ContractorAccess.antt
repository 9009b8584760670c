-- ===== src/ContractorAccess.antt =====
-- app/identity/contractor_access.py: until when a contractor's account is open. The time zone is not
-- the repository's code: it is the two functions of `Zone`.
pub mod Expiry
pub mod Refreshed
use on_track_rostering.Prelude.{
  ℕ, suc, ◌+◌, ◌*◌, Bool, true, false, ◌&&◌, ◌||◌, not, Option, none, some, List, [], ◌∷◌, ◌++◌,
  ◌==◌, opt_eq, ltb, leb, any, filter, map, flat_map, is_none, if◌then◌else◌,
}
use on_track_rostering.Enums.{Role, is_assigned, is_scheduled}
use on_track_rostering.Clock.{Date, DateTime, day}
use on_track_rostering.Identity.{
  User, UserStatus, TrustedDevice, RoleGrant, UserPersonLink, role_eq, is_active_grant,
}
use on_track_rostering.Rostering.Models.{Workday, WorkdayRevision, Assignment}
use on_track_rostering.Rostering.Store.{Store, Notice, access_audit, notify, get_user}

-- The configured time zone: the local date of an instant, and the instant of `datetime.combine(date,
-- time.max)` in it.
pub record Zone : Type 0 where
  pub local_date : DateTime → Date
  pub day_end : Date → DateTime

unfoldable pub is_contractor_user : Store → ℕ → Bool
is_contractor_user db user =
    any (λ g. g.user_id == user && role_eq g.role Role.contractor && is_active_grant g.status)
      db.grants

-- `max` of a query or a list: `none` for the empty one.
abbrev pub maximum : List ℕ → Option ℕ
maximum [] = none
maximum (x ∷ xs) = elim (maximum xs) [ none ↦ some x | some m ↦ some (if ltb m x then x else m) ]

-- The joins and the WHERE clause of the query for future participation.
abbrev pub participates : ℕ → Date → UserPersonLink → Assignment → WorkdayRevision → Workday → Bool
participates user today l a r w =
    l.user_id == user
    && opt_eq a.person_id (some l.person_id)
    && r.id == a.revision_id
    && opt_eq w.current_published_revision_id (some r.id)
    && is_scheduled w.status
    && is_assigned a.status
    && leb today r.work_date
    && is_none w.generated_from_workday_id

abbrev pub participation_dates : Store → ℕ → Date → List Date
participation_dates db user today =
    flat_map
      (λ l.
        flat_map
          (λ a.
            flat_map
              (λ r.
                map (λ w. r.work_date) (filter (λ w. participates user today l a r w) db.workdays))
              db.revisions)
          db.assignments)
      db.links

unfoldable pub latest_future_participation_date : Store → ℕ → Date → Option Date
latest_future_participation_date db user today = maximum (participation_dates db user today)

abbrev pub given : Option DateTime → List DateTime
given none = []
given (some t) = t ∷ []

-- The later of the stored and the supplied manual extension.
abbrev pub extended : User → Option DateTime → Option DateTime
extended user none = user.contractor_manual_extension_at
extended user (some supplied) = elim user.contractor_manual_extension_at [
  | none ↦ some supplied
  | some current ↦ some (if ltb current supplied then supplied else current)
]

-- The inactivity period after the end of the last rostered day, and after the manual extension.
abbrev pub rostered_until : Store → Zone → ℕ → DateTime → List DateTime
rostered_until db zone user now =
    map (λ latest. zone.day_end latest + db.contractor_inactivity_days * day)
      (given (latest_future_participation_date db user (zone.local_date now)))

abbrev pub extended_until : Store → User → Option DateTime → List DateTime
extended_until db user manual =
    map (λ t. t + db.contractor_inactivity_days * day) (given (extended user manual))

-- `effective`: the last of the instants until which something keeps the account open.
unfoldable pub effective_expiry : Store → Zone → User → Option DateTime → DateTime → Option DateTime
effective_expiry db zone user manual now = maximum (
    rostered_until db zone user.id now
    ++ (extended_until db user manual ++ given user.contractor_access_expires_at))

abbrev pub user_active : UserStatus → Bool
user_active UserStatus.active = true
user_active _ = false

abbrev pub user_expired : UserStatus → Bool
user_expired UserStatus.expired = true
user_expired _ = false

abbrev pub expires_now : User → Option DateTime → DateTime → Bool
expires_now user none now = false
expires_now user (some effective) now = leb effective now && user_active user.status

abbrev pub reopens : User → Option DateTime → DateTime → Bool
reopens user none now = false
reopens user (some effective) now = ltb now effective && user_expired user.status

-- The user's row after the refresh.
unfoldable pub refreshed : User → Option DateTime → Option DateTime → DateTime → User
refreshed user effective manual now =
    let kept = record user {
      contractor_manual_extension_at = manual;
      contractor_access_expires_at = effective;
    } in
    if expires_now user effective now
    then record kept { status = UserStatus.expired; auth_epoch = user.auth_epoch + 1 }
    else if reopens user effective now
    then record kept { status = UserStatus.active; auth_epoch = user.auth_epoch + 1 }
    else kept

abbrev pub set_user : User → List User → List User
set_user u [] = []
set_user u (x ∷ xs) = (if x.id == u.id then u else x) ∷ set_user u xs

-- `_revoke_devices`.
abbrev pub revoke_devices : ℕ → DateTime → List TrustedDevice → List TrustedDevice
revoke_devices user now [] = []
revoke_devices user now (d ∷ ds) =
    (if d.user_id == user && is_none d.revoked_at then record d { revoked_at = some now } else d)
    ∷ revoke_devices user now ds

abbrev pub refresh_notices : User → Option DateTime → DateTime → Option ℕ → List Notice
refresh_notices user effective now actor =
    (if expires_now user effective now
      then access_audit "contractor.access.expired" user.id actor ∷ []
      else if reopens user effective now
      then access_audit "contractor.access.reactivated" user.id actor ∷ []
      else [])
    ++ (if opt_eq effective user.contractor_access_expires_at
        then []
        else access_audit "contractor.access.refreshed" user.id actor ∷ [])

unfoldable pub refresh_contractor_access :
    Zone → Option DateTime → Option ℕ → DateTime → User → Store → Store
unfolding notify
refresh_contractor_access zone manual actor now user db =
    let effective = effective_expiry db zone user manual now in
    let row = refreshed user effective (extended user manual) now in
    if is_contractor_user db user.id
    then notify (refresh_notices user effective now actor) (record db {
      users = set_user row db.users;
      devices =
          if expires_now user effective now
          then revoke_devices user.id now db.devices
          else db.devices;
    })
    else db

-- `ContractorAccessResult`.
pub record ContractorAccessResult : Type 0 where
  pub latest_participation_date : Option Date
  pub expires_at : Option DateTime
  pub changed : Bool
  pub status : UserStatus

-- What `refresh_contractor_access` returns: the status changes where it expires or reopens.
unfoldable pub access_result :
    Zone → Option DateTime → DateTime → User → Store → ContractorAccessResult
access_result zone manual now user db =
    let effective = effective_expiry db zone user manual now in
    if is_contractor_user db user.id
    then record {
      latest_participation_date = latest_future_participation_date db user.id (zone.local_date now);
      expires_at = effective;
      changed =
          not (opt_eq effective user.contractor_access_expires_at)
          || (expires_now user effective now || reopens user effective now);
      status = (refreshed user effective (extended user manual) now).status;
    }
    else record {
      latest_participation_date = none;
      expires_at = user.contractor_access_expires_at;
      changed = false;
      status = user.status;
    }

pub record AccessCounts : Type 0 where
  pub checked : ℕ
  pub changed : ℕ
  pub expired : ℕ

abbrev pub counted : ContractorAccessResult → AccessCounts → AccessCounts
counted r counts = record {
  checked = counts.checked + 1;
  changed = counts.changed + (if r.changed then 1 else 0);
  expired = counts.expired + (if user_expired r.status then 1 else 0);
}

-- `set(...)`: the users with an active contractor grant, each once.
abbrev pub contractor_ids : List RoleGrant → List ℕ
contractor_ids [] = []
contractor_ids (g ∷ gs) =
    let rest = contractor_ids gs in
    if role_eq g.role Role.contractor
      && is_active_grant g.status
      && not (any (λ id. id == g.user_id) rest)
    then g.user_id ∷ rest
    else rest

-- A user of the loop. One who is not found is passed over.
abbrev pub refresh_found :
    Zone → DateTime → Option User → Store × AccessCounts → Store × AccessCounts
refresh_found zone now none state = state
refresh_found zone now (some user) (db, counts) = (
  refresh_contractor_access zone none none now user db,
  counted (access_result zone none now user db) counts,
)

abbrev pub refresh_each : Zone → DateTime → List ℕ → Store × AccessCounts → Store × AccessCounts
refresh_each zone now [] state = state
refresh_each zone now (id ∷ ids) state =
    refresh_each zone now ids (refresh_found zone now (get_user state.0 id) state)

-- `refresh_all_contractor_access`.
unfoldable pub refresh_all_contractor_access : Zone → DateTime → Store → Store × AccessCounts
unfolding refresh_contractor_access access_result
refresh_all_contractor_access zone now db =
    refresh_each zone now (contractor_ids db.grants)
      (db, record { checked = 0; changed = 0; expired = 0 })
