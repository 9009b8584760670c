-- ===== src/Examples/Access.antt =====
-- Access rules on three accounts: a contractor who also holds a manager grant, a manager of region
-- 5, and an administrator.
use on_track_rostering.Prelude.{ℕ, ◌≡◌, refl, true, Option, none, some, [], ◌∷◌, inl, inr}
use on_track_rostering.Enums.{Role}
use on_track_rostering.Identity.{Accounts, RoleGrant, GrantStatus, user_has_protected_authority}
use on_track_rostering.Auth.Policy.{
  Actor, actor_for, is_contractor, person_of_user, is_admin, roles_for, can_administer_region,
  can_manage_region, can_view_management_detail, can_crew_view, can_administer_user, can_grant_role,
}
use on_track_rostering.Auth.Policy.Contractors.{
  IsPersonalOnly, actor_for-IsPersonalOnly, can_grant_role-can_administer_region,
}
use on_track_rostering.Auth.Policy.Ladder.{permission_ladder, protected_authority}

abbrev accounts : Accounts
accounts = record {
  grants =
      record {
        user_id = 1;
        role = Role.contractor;
        region_id = some 5;
        status = GrantStatus.active;
      }
      ∷ record { user_id = 1; role = Role.manager; region_id = some 6; status = GrantStatus.active }
      ∷ record {
        user_id = 2;
        role = Role.manager;
        region_id = some 5;
        status = GrantStatus.pending;
      }
      ∷ [];
  links = [];
  people = [];
}

actor_for-IsPersonalOnly_example : IsPersonalOnly (actor_for accounts 1)
actor_for-IsPersonalOnly_example = actor_for-IsPersonalOnly accounts 1 refl

abbrev manager : Actor
manager = record {
  user_id = 3;
  person_id = none;
  global_roles = [];
  regional_roles = (5, Role.manager ∷ []) ∷ [];
}

abbrev administrator : Actor
administrator = record {
  user_id = 4;
  person_id = none;
  global_roles = Role.admin ∷ [];
  regional_roles = [];
}

permission_ladder_example :
    (can_administer_region manager 5 ≡ true → can_manage_region manager 5 ≡ true)
    × (can_view_management_detail manager 5 ≡ can_manage_region manager 5)
    × (can_manage_region manager 5 ≡ true → can_crew_view manager 5 ≡ true)
permission_ladder_example = permission_ladder manager 5

admin : is_admin administrator ≡ true
unfolding is_admin
admin = refl

abbrev region_5 : Option ℕ
region_5 = some 5

abbrev former_manager : RoleGrant
former_manager = record {
  user_id = 2;
  role = Role.manager;
  region_id = some 5;
  status = GrantStatus.revoked;
}

-- User 5 manages region 5; user 2 has been its manager.
abbrev two_managers : Accounts
two_managers = record {
  grants =
      record { user_id = 5; role = Role.manager; region_id = some 5; status = GrantStatus.active }
      ∷ record { user_id = 2; role = Role.casual; region_id = some 5; status = GrantStatus.pending }
      ∷ former_manager
      ∷ [];
  links = [];
  people = [];
}

grants_casual : can_grant_role (actor_for two_managers 5) Role.casual (some 5) ≡ true
unfolding can_grant_role actor_for is_admin roles_for
grants_casual = refl

can_grant_role-can_administer_region_example :
    can_administer_region (actor_for two_managers 5) 5 ≡ true
can_grant_role-can_administer_region_example =
    can_grant_role-can_administer_region two_managers 5 Role.casual 5 grants_casual

administers : can_administer_user two_managers manager 2 5 ≡ true
unfolding can_administer_user can_administer_region is_contractor is_admin roles_for
    user_has_protected_authority person_of_user
administers = refl

protected_authority_example : former_manager.status ≡ GrantStatus.revoked
protected_authority_example =
    protected_authority two_managers manager 2 5 former_manager refl (inl administers)
      (inr (inr (inl refl))) refl (inl refl)
