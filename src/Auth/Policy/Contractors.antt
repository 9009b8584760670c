-- ===== src/Auth/Policy/Contractors.antt =====
-- A contractor's grants exclude every other authority.
use on_track_rostering.Prelude.{
  ℕ, Bool, true, false, ◌||◌, Option, none, some, List, [], ◌∷◌, ◌++◌, ◌≡◌, inl, inr, refl, arith,
  any, Option-cases, Bool-cases,
}
use on_track_rostering.Enums.{Role}
use on_track_rostering.Identity.{Accounts, RoleGrant, has_role, meets, role_eq}
use on_track_rostering.Auth.Policy.{
  Actor, is_admin, is_contractor, roles_in, roles_for, add_role, granted_globally,
  granted_in_regions, contractor_regions, effective_global, effective_regional, active_grants,
  actor_for, can_manage_region, can_administer_region, can_grant_role, can_crew_view,
  can_view_management_detail, external_calendar_region_ids,
}

abbrev any_contractor : List (ℕ × List Role) → Bool
any_contractor regional = any (λ (region, roles). has_role Role.contractor roles) regional

add_role-contractor :
    (region : ℕ) (regional : List (ℕ × List Role))
    → any_contractor (add_role region Role.contractor regional) ≡ true
add_role-contractor region [] = refl
add_role-contractor region ((r, roles) ∷ rest) = ground (arith, add_role-contractor region rest)

add_role-keeps :
    (region : ℕ) (role : Role) (regional : List (ℕ × List Role))
    → any_contractor regional ≡ true
    → any_contractor (add_role region role regional) ≡ true
add_role-keeps region role [] h = cc
add_role-keeps region role ((r, roles) ∷ rest) h = ground (arith, add_role-keeps region role rest)

-- An active contractor grant shows among the global roles or those of a region.
contractor-granted :
    (grants : List RoleGrant)
    → any (λ g. role_eq g.role Role.contractor) grants ≡ true
    → (has_role Role.contractor (granted_globally grants)
        || any_contractor (granted_in_regions grants))
      ≡ true
contractor-granted [] h = cc
contractor-granted (g ∷ gs) h = elim (Option-cases g.region_id) [
  | inl e ↦ ground (arith, contractor-granted gs)
  | inr (region, e) ↦ ground (
    arith,
    contractor-granted gs,
    add_role-contractor region (granted_in_regions gs),
    add_role-keeps region g.role (granted_in_regions gs),
  )
]

-- A list with no role but the contractor's.
abbrev OnlyContractor : List Role → Type 0
OnlyContractor [] = Unit
OnlyContractor (r ∷ rs) = (r ≡ Role.contractor) × OnlyContractor rs

OnlyContractor-append :
    (xs ys : List Role) → OnlyContractor xs → OnlyContractor ys → OnlyContractor (xs ++ ys)
OnlyContractor-append [] ys hx hy = hy
OnlyContractor-append (x ∷ xs) ys hx hy = (hx.0, OnlyContractor-append xs ys hx.1 hy)

OnlyContractor-lacks :
    (role : Role) (roles : List Role)
    → role_eq role Role.contractor ≡ false
    → OnlyContractor roles
    → has_role role roles ≡ false
OnlyContractor-lacks role [] h o = refl
OnlyContractor-lacks role (r ∷ rs) h o = rw (o.0, h, OnlyContractor-lacks role rs h o.1)

OnlyContractor-meets :
    (roles allowed : List Role)
    → has_role Role.contractor allowed ≡ false
    → OnlyContractor roles
    → meets roles allowed ≡ false
OnlyContractor-meets [] allowed h o = refl
OnlyContractor-meets (r ∷ rs) allowed h o = rw (o.0, h, OnlyContractor-meets rs allowed h o.1)

roles_in-contractor_regions :
    (region : ℕ) (regional : List (ℕ × List Role))
    → OnlyContractor (roles_in region (contractor_regions regional))
roles_in-contractor_regions region [] = tt
roles_in-contractor_regions region ((r, roles) ∷ rest) =
    elim (Bool-cases (has_role Role.contractor roles)) [
      | inr e ↦ rw e (roles_in-contractor_regions region rest)
      | inl e ↦ rw e (ground (arith, roles_in-contractor_regions region rest))
    ]

any_contractor-contractor_regions :
    (regional : List (ℕ × List Role))
    → any_contractor regional ≡ true
    → any_contractor (contractor_regions regional) ≡ true
any_contractor-contractor_regions [] h = cc
any_contractor-contractor_regions ((r, roles) ∷ rest) h =
    elim (Bool-cases (has_role Role.contractor roles)) [
      | inl e ↦ rw e refl
      | inr e ↦ rw e (any_contractor-contractor_regions rest (rw e at h))
    ]

module _ (global_roles : List Role) (regional : List (ℕ × List Role))
    (granted : (has_role Role.contractor global_roles || any_contractor regional) ≡ true) where
  effective-contractor :
      (has_role Role.contractor (effective_global global_roles regional)
        || any_contractor (effective_regional global_roles regional))
      ≡ true
  effective-contractor = elim (Bool-cases (has_role Role.contractor global_roles)) [
    | inl e ↦ rw (e, effective_global)
    | inr e ↦
        let inside : any_contractor regional ≡ true = rw e at granted in
        rw (granted, e, inside) (any_contractor-contractor_regions regional inside)
  ]

  effective_global-only : OnlyContractor (effective_global global_roles regional)
  effective_global-only = ground arith

  effective_regional-only :
      (region : ℕ) → OnlyContractor (roles_in region (effective_regional global_roles regional))
  effective_regional-only region = rw granted (roles_in-contractor_regions region regional)

-- What an account with an active contractor grant may not do, anywhere.
pub record IsPersonalOnly (actor : Actor) : Type 0 where
  pub contractor : is_contractor actor ≡ true
  pub no_admin : is_admin actor ≡ false
  pub no_manage : (region : ℕ) → can_manage_region actor region ≡ false
  pub no_administer : (region : ℕ) → can_administer_region actor region ≡ false
  pub no_crew : (region : ℕ) → can_crew_view actor region ≡ false
  pub no_detail : (region : ℕ) → can_view_management_detail actor region ≡ false
  pub no_grant : (role : Role) (region : Option ℕ) → can_grant_role actor role region ≡ false
  pub no_calendar : (db : Accounts) → external_calendar_region_ids db actor ≡ some []

personal_only :
    (actor : Actor)
    → is_contractor actor ≡ true
    → OnlyContractor actor.global_roles
    → ((region : ℕ) → OnlyContractor (roles_in region actor.regional_roles))
    → IsPersonalOnly actor
unfolding is_admin can_manage_region can_administer_region can_crew_view can_view_management_detail
    can_grant_role external_calendar_region_ids roles_for
personal_only actor c g r = record {
  contractor = c;
  no_admin = admin;
  no_manage = λ region. rw c;
  no_administer = λ region. rw c;
  no_crew = λ region. rw c;
  no_detail = λ region. rw c;
  no_grant = grant;
  no_calendar = λ db. rw c;
}
  where
    admin : is_admin actor ≡ false
    admin = OnlyContractor-lacks Role.admin actor.global_roles refl g

    manager : (region : ℕ) → has_role Role.manager (roles_for actor region) ≡ false
    manager region =
        OnlyContractor-lacks Role.manager _ refl
          (OnlyContractor-append actor.global_roles _ g (r region))

    grant : (role : Role) (region : Option ℕ) → can_grant_role actor role region ≡ false
    grant role none = ground (arith, admin)
    grant role (some region) = ground (arith, admin, manager region)

-- One active contractor grant reduces an account to personal access, whatever else is granted to
-- it: it manages, administers, views and grants nothing in any region, and sees no planning
-- calendar.
pub actor_for-IsPersonalOnly :
    (db : Accounts) (user : ℕ)
    → any (λ (g : RoleGrant). role_eq g.role Role.contractor) (active_grants db user) ≡ true
    → IsPersonalOnly (actor_for db user)
unfolding actor_for is_contractor
actor_for-IsPersonalOnly db user h =
    let grants = active_grants db user in
    let global_roles = granted_globally grants in
    let regional = granted_in_regions grants in
    let granted = contractor-granted grants h in
    personal_only (actor_for db user) (effective-contractor global_roles regional granted)
      (effective_global-only global_roles regional granted)
      (effective_regional-only global_roles regional granted)

grants-administers :
    (actor : Actor) (role : Role) (region : ℕ)
    → is_contractor actor ≡ false
    → can_grant_role actor role (some region) ≡ true
    → can_administer_region actor region ≡ true
unfolding can_grant_role can_administer_region
grants-administers actor role region no_contractor h = elim (Bool-cases (is_admin actor)) [
  | inl a ↦ rw (no_contractor, a) refl
  | inr a ↦
      let holds : has_role Role.manager (roles_for actor region) ≡ true = ground arith in
      rw (no_contractor, a, holds) refl
]

no_contractor-granted :
    (global_roles : List Role) (regional : List (ℕ × List Role))
    → (has_role Role.contractor global_roles || any_contractor regional) ≡ false
    → (has_role Role.contractor (effective_global global_roles regional)
        || any_contractor (effective_regional global_roles regional))
      ≡ false
no_contractor-granted global_roles regional h =
    elim (Bool-cases (has_role Role.contractor global_roles)) [
      | inl e ↦ cc (rw e at h)
      | inr e ↦
          let outside : any_contractor regional ≡ false = rw e at h in
          rw (h, e, outside) (rw e refl)
    ]

-- Whoever can grant a role in a region, by the grants that are active, administers that region.
pub can_grant_role-can_administer_region :
    (db : Accounts) (user : ℕ) (role : Role) (region : ℕ)
    → can_grant_role (actor_for db user) role (some region) ≡ true
    → can_administer_region (actor_for db user) region ≡ true
unfolding actor_for is_contractor
can_grant_role-can_administer_region db user role region h =
    let global_roles = granted_globally (active_grants db user) in
    let regional = granted_in_regions (active_grants db user) in
    elim (Bool-cases (has_role Role.contractor global_roles || any_contractor regional)) [
      | inl granted ↦
          let only =
            personal_only (actor_for db user) (effective-contractor global_roles regional granted)
              (effective_global-only global_roles regional granted)
              (effective_regional-only global_roles regional granted) in
          let refused = only.no_grant role (some region) in cc
      | inr none_granted ↦
          grants-administers (actor_for db user) role region
            (no_contractor-granted global_roles regional none_granted) h
    ]
