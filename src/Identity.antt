-- ===== src/Identity.antt =====
-- app/identity/models.py and app/auth/access.py: accounts, their links to people, and role grants.
use on_track_rostering.Prelude.{ℕ, Bool, true, false, ◌&&◌, Option, List, String, any, ◌==◌}
use on_track_rostering.Enums.{Role, Lifecycle}
use on_track_rostering.Clock.{DateTime}

pub data GrantStatus : Type 0 where
  active pending revoked : GrantStatus

pub record RoleGrant : Type 0 where
  pub user_id : ℕ
  pub role : Role
  pub region_id : Option ℕ
  pub status : GrantStatus

pub record UserPersonLink : Type 0 where
  pub user_id : ℕ
  pub person_id : ℕ

pub record Person : Type 0 where
  pub id : ℕ
  pub display_name : String
  pub lifecycle : Lifecycle
  pub home_region_id : Option ℕ

-- `other` is every status text but the two that the access rules compare with.
pub data UserStatus : Type 0 where
  active expired other : UserStatus

pub record User : Type 0 where
  pub id : ℕ
  pub status : UserStatus
  pub auth_epoch : ℕ
  pub contractor_manual_extension_at : Option DateTime
  pub contractor_access_expires_at : Option DateTime

pub record TrustedDevice : Type 0 where
  pub id : ℕ
  pub user_id : ℕ
  pub revoked_at : Option DateTime

-- The tables that the access rules read.
pub record Accounts : Type 0 where
  pub grants : List RoleGrant
  pub links : List UserPersonLink
  pub people : List Person

abbrev role_code : Role → ℕ
role_code Role.contractor = 0
role_code Role.casual = 1
role_code Role.employee = 2
role_code Role.sub_manager = 3
role_code Role.manager = 4
role_code Role.viewer = 5
role_code Role.admin = 6

abbrev pub role_eq : Role → Role → Bool
role_eq a b = role_code a == role_code b

-- `role in roles`, and `roles & allowed` as a truth value.
abbrev pub has_role : Role → List Role → Bool
has_role r roles = any (role_eq r) roles

abbrev pub meets : List Role → List Role → Bool
meets roles allowed = any (λ r. has_role r allowed) roles

abbrev pub is_active_grant : GrantStatus → Bool
is_active_grant GrantStatus.active = true
is_active_grant _ = false

-- `status in ["ACTIVE", "PENDING"]`.
abbrev pub is_live_grant : GrantStatus → Bool
is_live_grant GrantStatus.revoked = false
is_live_grant _ = true

-- `PROTECTED_AUTHORITY_ROLES`.
abbrev pub is_protected : Role → Bool
is_protected Role.manager = true
is_protected Role.admin = true
is_protected _ = false

unfoldable pub user_has_active_access : Accounts → ℕ → Bool
user_has_active_access db user = any (λ g. g.user_id == user && is_active_grant g.status) db.grants

unfoldable pub user_has_protected_authority : Accounts → ℕ → Bool
user_has_protected_authority db user =
    any (λ g. g.user_id == user && is_live_grant g.status && is_protected g.role) db.grants
