-- ===== src/ContractorAccess/Refreshed.antt =====
-- What `refresh_contractor_access` writes: the account's expiry and status, and the trusted devices.
use on_track_rostering.Prelude.{
  ℕ, ◌+◌, ◌*◌, ◌≤◌, ◌<◌, ◌≡◌, ◌≢◌, ◌⊎◌, inl, inr, refl, sym, ◌∙◌, subst, ap, arith, true, Option,
  none, some, List, [], ◌∷◌, Has, Bool-cases, Option-cases, ◌==◌, ==_iff, ◌&&◌, any, find?,
}
use on_track_rostering.Enums.{Role}
use on_track_rostering.Clock.{Date, DateTime, day}
use on_track_rostering.Identity.{
  User, UserStatus, TrustedDevice, RoleGrant, GrantStatus, role_eq, is_active_grant,
}
use on_track_rostering.Rostering.Store.{Store, get_user, notify}
use on_track_rostering.ContractorAccess.{
  Zone, refreshed, effective_expiry, extended, latest_future_participation_date, set_user,
  revoke_devices, expires_now, refresh_contractor_access, is_contractor_user,
}
use on_track_rostering.ContractorAccess.Expiry.{
  effective_expiry-existing, effective_expiry-rostered,
}

-- The stored row of a user, once a row with its identifier is written.
find?-set_user :
    (row user : User) (id : ℕ) (users : List User)
    → row.id ≡ id
    → find? (λ (u : User). u.id == id) users ≡ some user
    → find? (λ (u : User). u.id == id) (set_user row users) ≡ some row
find?-set_user row user id [] e h = cc
find?-set_user row user id (x ∷ xs) e h = elim (Bool-cases (x.id == id)) [
  | inl s ↦ ground arith
  | inr s ↦ ground (arith, find?-set_user row user id xs e)
]

active_grant-any :
    (user : ℕ) (g : RoleGrant) (grants : List RoleGrant)
    → Has g grants
    → g.user_id ≡ user
    → g.role ≡ Role.contractor
    → g.status ≡ GrantStatus.active
    → any
        (λ g. g.user_id == user && role_eq g.role Role.contractor && is_active_grant g.status)
        grants
      ≡ true
active_grant-any user g (x ∷ xs) (inl e) hu hr hs =
    let same : (g.user_id == user) ≡ true = (==_iff g.user_id user).1 hu in
    rw (sym e, same, hr, hs) refl
active_grant-any user g (x ∷ xs) (inr m) hu hr hs =
    ground (arith, active_grant-any user g xs m hu hr hs)
active_grant-any user g [] m hu hr hs = absurd m

revoke_devices-Has :
    (user : ℕ) (now : DateTime) (d : TrustedDevice) (devices : List TrustedDevice)
    → Has d (revoke_devices user now devices)
    → d.user_id ≡ user
    → d.revoked_at ≢ none
revoke_devices-Has user now d (x ∷ xs) (inl e) own n = elim (Bool-cases (x.user_id == user)) [
  | inl s ↦ elim (Option-cases x.revoked_at) [
    | inl o ↦
        let written : d.revoked_at ≡ some now =
          ap (λ (y : TrustedDevice). y.revoked_at) (rw (s, o) at e) in
        cc
    | inr (t, o) ↦
        let kept : d.revoked_at ≡ some t =
          ap (λ (y : TrustedDevice). y.revoked_at) (rw (s, o) at e) in
        cc
  ]
  | inr s ↦
      let other : d.user_id ≡ x.user_id = ap (λ (y : TrustedDevice). y.user_id) (rw s at e) in
      let same : (x.user_id == user) ≡ true = (==_iff x.user_id user).1 (sym other ∙ own) in cc
]
revoke_devices-Has user now d (x ∷ xs) (inr m) own n = revoke_devices-Has user now d xs m own n
revoke_devices-Has user now d [] m own n = absurd m

UserStatus-cases :
    (s : UserStatus) → (s ≡ UserStatus.active) ⊎ ((s ≡ UserStatus.expired) ⊎ (s ≡ UserStatus.other))
UserStatus-cases UserStatus.active = inl refl
UserStatus-cases UserStatus.expired = inr (inl refl)
UserStatus-cases UserStatus.other = inr (inr refl)

module _ (user : User) (e now : DateTime) (manual : Option DateTime) where
  refreshed-status :
      (e ≤ now
        → user.status ≡ UserStatus.active
        → (refreshed user (some e) manual now).status ≡ UserStatus.expired)
      × (now < e
          → user.status ≡ UserStatus.expired
          → (refreshed user (some e) manual now).status ≡ UserStatus.active)
      × (e ≤ now
          → user.status ≢ UserStatus.active
          → (refreshed user (some e) manual now).status ≡ user.status)
      × (now < e
          → user.status ≢ UserStatus.expired
          → (refreshed user (some e) manual now).status ≡ user.status)
  unfolding refreshed
  refreshed-status = (
    λ le s. ground arith,
    λ lt s. ground arith,
    λ le n. elim (UserStatus-cases user.status) [
      | inl s ↦ absurd (n s)
      | inr (inl s) ↦ ground arith
      | inr (inr s) ↦ ground arith
    ],
    λ lt n. elim (UserStatus-cases user.status) [
      | inl s ↦ ground arith
      | inr (inl s) ↦ absurd (n s)
      | inr (inr s) ↦ ground arith
    ],
  )

module _ (user : User) (e : Option DateTime) (now : DateTime) (manual : Option DateTime) where
  refreshed-id : (refreshed user e manual now).id ≡ user.id
  unfolding refreshed
  refreshed-id = ground arith

  refreshed-without : e ≡ none → (refreshed user e manual now).status ≡ user.status
  unfolding refreshed
  refreshed-without none_left =
      subst (λ o. (refreshed user o manual now).status ≡ user.status) (sym none_left) refl

  refreshed-expires : (refreshed user e manual now).contractor_access_expires_at ≡ e
  unfolding refreshed
  refreshed-expires = ground arith

module _ (db : Store) (zone : Zone) (user : User) (manual : Option DateTime) (actor : Option ℕ)
    (now : DateTime) (is_one : is_contractor_user db user.id ≡ true) where
  abbrev effective : Option DateTime
  effective = effective_expiry db zone user manual now

  abbrev row : User
  row = refreshed user effective (extended user manual) now

  abbrev after : Store
  after = refresh_contractor_access zone manual actor now user db

  refresh-users : after.users ≡ set_user row db.users
  unfolding refresh_contractor_access notify
  refresh-users = rw is_one refl

  refresh-devices :
      expires_now user effective now ≡ true → after.devices ≡ revoke_devices user.id now db.devices
  unfolding refresh_contractor_access notify
  refresh-devices h = rw (is_one, h) refl

  refresh-stored : get_user db user.id ≡ some user → get_user after user.id ≡ some row
  unfolding get_user
  refresh-stored found =
      subst (λ users. find? (λ (u : User). u.id == user.id) users ≡ some row) (sym refresh-users)
        (find?-set_user row user user.id db.users
          (refreshed-id user effective now (extended user manual)) found)

  refresh-revokes :
      (e : DateTime) (d : TrustedDevice)
      → effective ≡ some e
      → e ≤ now
      → user.status ≡ UserStatus.active
      → Has d after.devices
      → d.user_id ≡ user.id
      → d.revoked_at ≢ none
  refresh-revokes e d h le s m =
      let closes : expires_now user effective now ≡ true =
        subst (λ o. expires_now user o now ≡ true) (sym h) (ground arith) in
      revoke_devices-Has user.id now d db.devices (subst (Has d) (refresh-devices closes) m)

-- A refresh of a stored user with an active contractor grant stores a row of the user. Its expiry is
-- no earlier than the one before, and than the end of the inactivity period after the last day on
-- which the contractor is rostered. Where that expiry has come, an active account is expired and none
-- of the user's trusted devices is left unrevoked; where it has not, an expired account is active.
-- Any other account keeps its status, and so does one that is left without an expiry.
pub refresh_contractor_access-stores :
    (db : Store) (zone : Zone) (user : User) (manual : Option DateTime) (actor : Option ℕ)
    (now : DateTime) (grant : RoleGrant)
    → get_user db user.id ≡ some user
    → Has grant db.grants
    → grant.user_id ≡ user.id
    → grant.role ≡ Role.contractor
    → grant.status ≡ GrantStatus.active
    → (after : Store) × (row : User) × (after
        ≡ refresh_contractor_access zone manual actor now user db)
      × (get_user after user.id ≡ some row)
      × ((t : DateTime)
          → user.contractor_access_expires_at ≡ some t
          → (e : DateTime) × (row.contractor_access_expires_at ≡ some e) × (t ≤ e))
      × ((d : Date)
          → latest_future_participation_date db user.id (zone.local_date now) ≡ some d
          → (e : DateTime) × (row.contractor_access_expires_at ≡ some e)
            × (zone.day_end d + db.contractor_inactivity_days * day ≤ e))
      × ((e : DateTime)
          → row.contractor_access_expires_at ≡ some e
          → (e ≤ now
              → user.status ≡ UserStatus.active
              → (row.status ≡ UserStatus.expired)
                × ((d : TrustedDevice)
                    → Has d after.devices
                    → d.user_id ≡ user.id
                    → d.revoked_at ≢ none))
            × (now < e → user.status ≡ UserStatus.expired → row.status ≡ UserStatus.active)
            × (e ≤ now → user.status ≢ UserStatus.active → row.status ≡ user.status)
            × (now < e → user.status ≢ UserStatus.expired → row.status ≡ user.status))
      × (row.contractor_access_expires_at ≡ none → row.status ≡ user.status)
refresh_contractor_access-stores db zone user manual actor now grant found held owner role status =
    let is_one : is_contractor_user db user.id ≡ true =
      unfold is_contractor_user in
      active_grant-any user.id grant db.grants held owner role status in
    let by_hand = extended user manual in
    let stored = refreshed-expires user (effective_expiry db zone user manual now) now by_hand in
    let status_of = λ (o : Option DateTime). (refreshed user o by_hand now).status in
    (
      refresh_contractor_access zone manual actor now user db,
      refreshed user (effective_expiry db zone user manual now) by_hand now,
      refl,
      refresh-stored db zone user manual actor now is_one found,
      λ t h.
          let (e, known, le) = effective_expiry-existing db zone user manual now t h in
          (e, stored ∙ known, le),
      λ d h.
          let (e, known, le) = effective_expiry-rostered db zone user manual now d h in
          (e, stored ∙ known, le),
      λ e h.
          let known = sym stored ∙ h in
          let (closed, opened, kept_closed, kept_open) = refreshed-status user e now by_hand in
          (
            λ le s. (
              subst (λ o. status_of o ≡ UserStatus.expired) (sym known) (closed le s),
              λ d. refresh-revokes db zone user manual actor now is_one e d known le s,
            ),
            λ lt s. subst (λ o. status_of o ≡ UserStatus.active) (sym known) (opened lt s),
            λ le n. subst (λ o. status_of o ≡ user.status) (sym known) (kept_closed le n),
            λ lt n. subst (λ o. status_of o ≡ user.status) (sym known) (kept_open lt n),
          ),
      λ n.
          refreshed-without user (effective_expiry db zone user manual now) now by_hand
            (sym stored ∙ n),
    )
