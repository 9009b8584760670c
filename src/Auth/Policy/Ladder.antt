-- ===== src/Auth/Policy/Ladder.antt =====
-- How the permissions contain one another, and which roles can be handed on.
use on_track_rostering.Prelude.{
  ℕ, true, false, Option, none, some, List, [], ◌∷◌, ◌≡◌, ◌↔◌, ◌⊎◌, ◌≢◌, inl, inr, refl, sym, ◌∙◌,
  ap, subst, arith, any, ◌&&◌, ◌==◌, ==_iff, Has,
}
use on_track_rostering.Enums.{Role}
use on_track_rostering.Identity.{
  Accounts, RoleGrant, GrantStatus, is_live_grant, is_protected, has_role, meets, role_eq,
  user_has_protected_authority,
}
use on_track_rostering.Auth.Policy.{
  Actor, is_admin, roles_for, can_manage_region, can_administer_region, can_administer_user,
  can_assist_user, can_grant_role, can_crew_view, can_view_management_detail, crew_roles,
}

meets-manager :
    (roles : List Role)
    → has_role Role.manager roles ≡ true
    → meets roles (Role.manager ∷ Role.sub_manager ∷ []) ≡ true
meets-manager [] h = cc
meets-manager (r ∷ rs) h = ground (arith, meets-manager rs)

meets-sub_manager_first :
    (roles : List Role)
    → meets roles (Role.sub_manager ∷ Role.manager ∷ [])
      ≡ meets roles (Role.manager ∷ Role.sub_manager ∷ [])
meets-sub_manager_first [] = refl
meets-sub_manager_first (r ∷ rs) = ground (arith, meets-sub_manager_first rs)

meets-crew :
    (roles : List Role)
    → meets roles (Role.manager ∷ Role.sub_manager ∷ []) ≡ true
    → meets roles crew_roles ≡ true
meets-crew [] h = cc
meets-crew (r ∷ rs) h = ground (arith, meets-crew rs)

-- Administering a region implies managing it; managing it is exactly seeing its management detail,
-- and implies the crew view.
pub permission_ladder :
    (actor : Actor) (region : ℕ)
    → (can_administer_region actor region ≡ true → can_manage_region actor region ≡ true)
      × (can_view_management_detail actor region ≡ can_manage_region actor region)
      × (can_manage_region actor region ≡ true → can_crew_view actor region ≡ true)
unfolding can_administer_region can_manage_region can_view_management_detail can_crew_view
permission_ladder actor region =
    let roles = roles_for actor region in
    (
      λ h. ground (arith, meets-manager roles),
      ground (arith, meets-sub_manager_first roles),
      λ h. ground (arith, meets-crew roles),
    )

-- An administrator grants the administrator role globally and nowhere else, and every other role in
-- a region and nowhere else.
pub can_grant_role-admin :
    (actor : Actor) (role : Role) (region : Option ℕ)
    → is_admin actor ≡ true
    → (can_grant_role actor role region ≡ true) ↔ (
        ((role ≡ Role.admin) × (region ≡ none))
        ⊎ ((role_eq role Role.admin ≡ false) × ((r : ℕ) × (region ≡ some r))))
unfolding can_grant_role
can_grant_role-admin actor role none h = (λ g. inl (ground arith, refl), λ p. ground arith)
can_grant_role-admin actor role (some r) h = (λ g. inr (ground arith, (r, refl)), λ p. ground arith)

GrantStatus-cases : (s : GrantStatus) → (s ≡ GrantStatus.revoked) ⊎ (s ≢ GrantStatus.revoked)
GrantStatus-cases GrantStatus.active = inr (λ e. cc)
GrantStatus-cases GrantStatus.pending = inr (λ e. cc)
GrantStatus-cases GrantStatus.revoked = inl refl

is_live_grant-status : (s : GrantStatus) → s ≢ GrantStatus.revoked → is_live_grant s ≡ true
is_live_grant-status GrantStatus.active n = refl
is_live_grant-status GrantStatus.pending n = refl
is_live_grant-status GrantStatus.revoked n = absurd (n refl)

protected-any :
    (user : ℕ) (g : RoleGrant) (grants : List RoleGrant)
    → Has g grants
    → g.user_id ≡ user
    → (g.role ≡ Role.manager) ⊎ (g.role ≡ Role.admin)
    → g.status ≢ GrantStatus.revoked
    → any (λ g. g.user_id == user && is_live_grant g.status && is_protected g.role) grants ≡ true
protected-any user g (x ∷ xs) (inl e) own role live =
    let same : (x.user_id == user) ≡ true =
      (==_iff x.user_id user).1 (sym (ap (λ (y : RoleGrant). y.user_id) e) ∙ own) in
    let kept : is_live_grant x.status ≡ true =
      is_live_grant-status x.status λ r. live (ap (λ (y : RoleGrant). y.status) e ∙ r) in
    let protects : is_protected x.role ≡ true =
      subst (λ r. is_protected r ≡ true) (ap (λ (y : RoleGrant). y.role) e)
        (elim role [ inl m ↦ ap is_protected m | inr a ↦ ap is_protected a ]) in
    rw (same, kept, protects) refl
protected-any user g (x ∷ xs) (inr m) own role live =
    ground (arith, protected-any user g xs m own role live)
protected-any user g [] m own role live = absurd m

-- Whoever may administer or assist an account without being an administrator meets no manager or
-- administrator grant of it, staged or active: each one it has had is revoked.
pub protected_authority :
    (db : Accounts) (actor : Actor) (user region : ℕ) (grant : RoleGrant)
    → has_role Role.admin actor.global_roles ≡ false
    → (can_administer_user db actor user region ≡ true)
      ⊎ (can_assist_user db actor user region ≡ true)
    → Has grant db.grants
    → grant.user_id ≡ user
    → (grant.role ≡ Role.manager) ⊎ (grant.role ≡ Role.admin)
    → grant.status ≡ GrantStatus.revoked
unfolding can_administer_user can_assist_user user_has_protected_authority is_admin
protected_authority db actor user region grant no_admin may held own role =
    elim (GrantStatus-cases grant.status) [
      | inl r ↦ r
      | inr live ↦
          let protected = protected-any user grant db.grants held own role live in
          absurd (elim may [ inl a ↦ ground arith | inr a ↦ ground arith ])
    ]
