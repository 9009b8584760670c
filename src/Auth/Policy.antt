-- ===== src/Auth/Policy.antt =====
-- app/auth/policy.py: an account's effective authority, and the permission tests over it.
pub mod Contractors
pub mod Ladder
use on_track_rostering.Prelude.{
  ℕ, Bool, true, false, ◌&&◌, ◌||◌, not, Option, none, some, List, [], ◌∷◌, ◌++◌, any, filter,
  find?, map, is_some, is_none, opt_eq, ◌==◌, if◌then◌else◌,
}
use on_track_rostering.Enums.{Role, is_active}
use on_track_rostering.Identity.{
  Accounts, RoleGrant, Person, has_role, meets, role_eq, is_active_grant, is_live_grant,
  user_has_protected_authority,
}

-- The sets of roles are lists; `regional_roles` is an association list with one entry for each
-- region.
pub record Actor : Type 0 where
  pub user_id : ℕ
  pub person_id : Option ℕ
  pub global_roles : List Role
  pub regional_roles : List (ℕ × List Role)

unfoldable pub is_admin : Actor → Bool
is_admin actor = has_role Role.admin actor.global_roles

unfoldable pub is_contractor : Actor → Bool
is_contractor actor =
    has_role Role.contractor actor.global_roles
    || any (λ (region, roles). has_role Role.contractor roles) actor.regional_roles

-- `regional_roles.get(region_id, frozenset())`.
abbrev pub roles_in : ℕ → List (ℕ × List Role) → List Role
roles_in region [] = []
roles_in region ((r, roles) ∷ rest) =
    let more = roles_in region rest in if r == region then roles else more

unfoldable pub roles_for : Actor → ℕ → List Role
roles_for actor region = actor.global_roles ++ roles_in region actor.regional_roles

-- `regional.setdefault(region_id, set()).add(role)`.
abbrev pub add_role : ℕ → Role → List (ℕ × List Role) → List (ℕ × List Role)
add_role region role [] = (region, role ∷ []) ∷ []
add_role region role ((r, roles) ∷ rest) =
    let more = (r, roles) ∷ add_role region role rest in
    if r == region then (r, role ∷ roles) ∷ rest else more

abbrev pub granted_globally : List RoleGrant → List Role
granted_globally [] = []
granted_globally (g ∷ gs) = elim g.region_id [
  | none ↦ g.role ∷ granted_globally gs
  | some _ ↦ granted_globally gs
]

abbrev pub granted_in_regions : List RoleGrant → List (ℕ × List Role)
granted_in_regions [] = []
granted_in_regions (g ∷ gs) = elim g.region_id [
  | none ↦ granted_in_regions gs
  | some region ↦ add_role region g.role (granted_in_regions gs)
]

-- The exclusive authority of a contractor: every other role is dropped.
abbrev pub contractor_regions : List (ℕ × List Role) → List (ℕ × List Role)
contractor_regions regional =
    map (λ (region, roles). (region, Role.contractor ∷ []))
      (filter (λ (region, roles). has_role Role.contractor roles) regional)

abbrev pub effective_global : List Role → List (ℕ × List Role) → List Role
effective_global global_roles regional =
    if has_role Role.contractor global_roles
    then Role.contractor ∷ []
    else if any (λ (region, roles). has_role Role.contractor roles) regional
    then []
    else global_roles

abbrev pub effective_regional : List Role → List (ℕ × List Role) → List (ℕ × List Role)
effective_regional global_roles regional =
    if has_role Role.contractor global_roles
      || any (λ (region, roles). has_role Role.contractor roles) regional
    then contractor_regions regional
    else regional

abbrev pub active_grants : Accounts → ℕ → List RoleGrant
active_grants db user = filter (λ g. g.user_id == user && is_active_grant g.status) db.grants

abbrev pub linked_person : Accounts → ℕ → Option ℕ
linked_person db user = elim (find? (λ l. l.user_id == user) db.links) [
  | none ↦ none
  | some l ↦ some l.person_id
]

unfoldable pub actor_for : Accounts → ℕ → Actor
actor_for db user =
    let global_roles = granted_globally (active_grants db user) in
    let regional = granted_in_regions (active_grants db user) in
    record {
      user_id = user;
      person_id = linked_person db user;
      global_roles = effective_global global_roles regional;
      regional_roles = effective_regional global_roles regional;
    }

unfoldable pub can_manage_region : Actor → ℕ → Bool
can_manage_region actor region =
    if is_contractor actor
    then false
    else is_admin actor || meets (roles_for actor region) (Role.manager ∷ Role.sub_manager ∷ [])

unfoldable pub can_administer_region : Actor → ℕ → Bool
can_administer_region actor region =
    if is_contractor actor
    then false
    else is_admin actor || has_role Role.manager (roles_for actor region)

unfoldable pub can_administer_person : Actor → Person → ℕ → Bool
can_administer_person actor person region =
    if not (is_active person.lifecycle) || not (opt_eq person.home_region_id (some region))
    then false
    else can_administer_region actor region

-- The person who is linked to a user.
unfoldable pub person_of_user : Accounts → ℕ → Option Person
person_of_user db user = elim (linked_person db user) [
  | none ↦ none
  | some id ↦ find? (λ p. p.id == id) db.people
]

abbrev pub has_regional_grant : Accounts → ℕ → ℕ → Bool
has_regional_grant db user region =
    any (λ g. g.user_id == user && opt_eq g.region_id (some region) && is_live_grant g.status)
      db.grants

abbrev pub administers_person_of : Accounts → Actor → ℕ → ℕ → Bool
administers_person_of db actor user region = elim (person_of_user db user) [
  | none ↦ false
  | some person ↦ can_administer_person actor person region
]

unfoldable pub can_administer_user : Accounts → Actor → ℕ → ℕ → Bool
can_administer_user db actor user region =
    if is_admin actor
    then true
    else if not (can_administer_region actor region)
    then false
    else if user_has_protected_authority db user
    then false
    else if administers_person_of db actor user region
    then true
    else has_regional_grant db user region

unfoldable pub can_assist_user : Accounts → Actor → ℕ → ℕ → Bool
can_assist_user db actor user region =
    if can_administer_user db actor user region
    then true
    else if not (has_role Role.sub_manager (roles_for actor region))
    then false
    else if user_has_protected_authority db user
    then false
    else elim (person_of_user db user) [
      | none ↦ false
      | some person ↦
          is_active person.lifecycle
          && opt_eq person.home_region_id (some region)
          && can_manage_region actor region
    ]

-- The role is a value of the enumeration here, so that part of the test is void.
unfoldable pub can_grant_role : Actor → Role → Option ℕ → Bool
can_grant_role actor role region =
    if is_admin actor
    then (role_eq role Role.admin && is_none region)
      || (not (role_eq role Role.admin) && is_some region)
    else has_role role (Role.employee ∷ Role.casual ∷ Role.contractor ∷ Role.sub_manager ∷ [])
      && (elim region [ none ↦ false | some r ↦ has_role Role.manager (roles_for actor r) ])

abbrev pub crew_roles : List Role
crew_roles = Role.employee ∷ Role.casual ∷ Role.sub_manager ∷ Role.manager ∷ Role.viewer ∷ []

unfoldable pub can_crew_view : Actor → ℕ → Bool
can_crew_view actor region =
    if is_contractor actor
    then false
    else is_admin actor || meets (roles_for actor region) crew_roles

unfoldable pub can_view_management_detail : Actor → ℕ → Bool
can_view_management_detail actor region =
    if is_contractor actor
    then false
    else is_admin actor || meets (roles_for actor region) (Role.sub_manager ∷ Role.manager ∷ [])

abbrev pub working_roles : List Role
working_roles = Role.employee ∷ Role.casual ∷ []

unfoldable pub can_apply_for_open_position : Actor → ℕ → Bool
can_apply_for_open_position actor region =
    is_some actor.person_id && meets (roles_for actor region) working_roles

abbrev regions_with_planning : List (ℕ × List Role) → List ℕ
regions_with_planning [] = []
regions_with_planning ((region, roles) ∷ rest) =
    let more = regions_with_planning rest in if meets roles crew_roles then region ∷ more else more

abbrev home_region : Accounts → Actor → List ℕ
home_region db actor = elim actor.person_id [
  | none ↦ []
  | some id ↦
      if meets actor.global_roles working_roles
        || any (λ (region, roles). meets roles working_roles) actor.regional_roles
      then elim (find? (λ p. p.id == id) db.people) [
        | none ↦ []
        | some p ↦ elim p.home_region_id [ none ↦ [] | some r ↦ r ∷ [] ]
      ]
      else []
]

-- `none` means every region.
unfoldable pub external_calendar_region_ids : Accounts → Actor → Option (List ℕ)
external_calendar_region_ids db actor =
    if is_contractor actor
    then some []
    else if is_admin actor
    then none
    else some (regions_with_planning actor.regional_roles ++ home_region db actor)

-- The regions whose conflicts are shown in detail to the publisher (`_publish`); `none` means all.
abbrev managed_regions : Actor → List (ℕ × List Role) → List ℕ
managed_regions actor [] = []
managed_regions actor ((region, roles) ∷ rest) =
    let more = managed_regions actor rest in
    if can_manage_region actor region then region ∷ more else more

unfoldable pub visible_regions : Actor → Option (List ℕ)
visible_regions actor =
    if is_admin actor then none else some (managed_regions actor actor.regional_roles)
