-- ===== src/Server/Access/Permissions.antt =====
-- internal/server/rbac_extended.go: the handlers under `/_security/permission` that change roles, and
-- with them all requests under `/_security` that change users or roles. Where the code sets roles while
-- it ranges over them, the roles before the loop are taken; each has its own name as its key.
use go_es.Prelude.{
  ℕ, Bool, true, false, not, ◌&&◌, ◌||◌, Option, none, some, List, [], ◌∷◌, ◌++◌, if◌then◌else◌,
  nat_eq, ◌==◌, Text, text_Comparable, text, length,
}
use go_es.Prelude.Maps.{Map, lookup}
use go_es.Prelude.Sets.{contains}
use go_es.Prelude.Sorting.{sort_texts}
use go_es.Server.Access.{Rbac, RbacConfig, Role, Permission, any_bytes, load_from_store}
use go_es.Server.Access.Handlers.{
  set_role, handle_create_user, handle_delete_user, handle_create_role, handle_delete_role,
}

abbrev all_in : List Text → List Text → Bool
all_in [] bs = true
all_in (a ∷ rest) bs = contains a bs && all_in rest bs

-- `actionsEqual`
unfoldable pub actions_equal : List Text → List Text → Bool
unfolding contains
actions_equal rest bs = nat_eq (length rest) (length bs) && all_in rest bs

abbrev pub same_permission : Permission → Permission → Bool
same_permission p q = p.index == q.index && actions_equal p.actions q.actions

unfoldable pub has_same : List Permission → Permission → Bool
unfolding actions_equal
has_same [] p = false
has_same (q ∷ qs) p = same_permission q p || has_same qs p

unfoldable pub without : List Permission → Permission → List Permission
unfolding actions_equal
without [] p = []
without (q ∷ qs) p = let rest = without qs p in if same_permission q p then rest else q ∷ rest

-- Those of the second list that the first does not have are put behind it.
unfoldable pub merged : List Permission → List Permission → List Permission
unfolding has_same
merged ps [] = ps
merged ps (q ∷ qs) = merged (if has_same ps q then ps else ps ++ (q ∷ [])) qs

unfoldable pub without_all : List Permission → List Permission → List Permission
unfolding has_same
without_all [] qs = []
without_all (p ∷ ps) qs = let rest = without_all ps qs in if matched p qs then rest else p ∷ rest
  where
    matched : Permission → List Permission → Bool
    matched p [] = false
    matched p (q ∷ qs) = same_permission p q || matched p qs

abbrev pub with_permissions : Role → List Permission → Role
with_permissions role ps = record role { permissions = ps }

-- The loop of `handleCreatePermission` over the names of roles.
unfoldable pub grant : Permission → List Text → Rbac → Rbac
unfolding set_role has_same lookup
grant p [] r = r
grant p (name ∷ names) r = grant p names (elim (lookup name r.roles) [
  | none ↦ r
  | some role ↦
      if has_same role.permissions p
      then r
      else set_role (with_permissions role (role.permissions ++ (p ∷ []))) r
])

-- The body of a request to create a permission.
pub record CreateBody : Type 0 where
  pub index_pattern : Text
  pub actions : List Text
  pub roles : List Text

abbrev pub or_any : Text → Text
or_any index = if index == [] then any_bytes else index

-- `handleCreatePermission`
unfoldable pub handle_create_permission :
    Option RbacConfig → Text → Option CreateBody → Rbac → Rbac × ℕ
unfolding load_from_store grant
handle_create_permission stored name body raw =
    let r = load_from_store stored raw in
    elim body [
      | none ↦ (r, 400)
      | some b ↦ if name == [] then (r, 400) else elim b.actions [
        | [] ↦ (r, 400)
        | a ∷ more ↦
            (grant (record { index = or_any b.index_pattern; actions = a ∷ more }) b.roles r, 200)
      ]
    ]

unfoldable pub joined : List Text → Text
joined [] = []
joined (a ∷ []) = a
joined (a ∷ b ∷ bs) = a ++ (44 ∷ joined (b ∷ bs))

-- `actionsKey`
abbrev pub actions_key : List Text → Text
actions_key actions = joined (sort_texts actions)

unfoldable pub named_in : Text → List Permission → Option Permission
unfolding joined sort_texts
named_in name [] = none
named_in name (p ∷ ps) =
    let rest = named_in name ps in
    if (p.index ++ (58 ∷ actions_key p.actions)) == name then some p else rest

-- `getPermission`; the permissions of one name have the same actions, up to their order.
unfoldable pub get_permission : Text → Map Text Role → Option Permission
unfolding named_in
get_permission name [] = none
get_permission name ((key, role) ∷ roles) = elim (named_in name role.permissions) [
  | some p ↦ some p
  | none ↦ get_permission name roles
]

-- The loop of `handleDeletePermission` over the roles.
unfoldable pub withdraw : Permission → Map Text Role → Rbac → Rbac
unfolding set_role has_same without
withdraw p [] r = r
withdraw p ((key, role) ∷ roles) r = withdraw p roles (
    if has_same role.permissions p
    then set_role (with_permissions role (without role.permissions p)) r
    else r)

-- `handleDeletePermission`
unfoldable pub handle_delete_permission : Option RbacConfig → Text → Rbac → Rbac × ℕ
unfolding load_from_store get_permission withdraw
handle_delete_permission stored name raw =
    let r = load_from_store stored raw in
    if name == [] then (r, 400) else elim (get_permission name r.roles) [
      | none ↦ (r, 404)
      | some p ↦ (withdraw p r.roles r, 200)
    ]

pub record NamedPermission : Type 0 where
  pub name : Text
  pub permission : Permission

pub record BatchBody : Type 0 where
  pub action : Text
  pub permissions : List NamedPermission
  pub roles : List Text
  pub target_roles : List Text
  pub permission : Permission

-- `delete`: the permission leaves every role.
unfoldable pub withdraw_everywhere : Permission → Map Text Role → Rbac → Rbac
unfolding set_role without
withdraw_everywhere p [] r = r
withdraw_everywhere p ((key, role) ∷ roles) r =
    withdraw_everywhere p roles (set_role (with_permissions role (without role.permissions p)) r)

unfoldable pub batch_delete : List NamedPermission → Rbac → Rbac
unfolding withdraw_everywhere
batch_delete [] r = r
batch_delete (p ∷ ps) r =
    batch_delete ps (if p.name == [] then r else withdraw_everywhere p.permission r.roles r)

-- `assign`: the permissions of the source roles.
unfoldable pub assigned : Map Text Role → List Text → List Permission → List Permission
unfolding lookup merged
assigned roles [] ps = ps
assigned roles (name ∷ names) ps =
    assigned roles names
      (elim (lookup name roles) [ none ↦ ps | some src ↦ merged ps src.permissions ])

unfoldable pub batch_assign : List Text → List Text → Rbac → Rbac
unfolding lookup assigned set_role
batch_assign sources [] r = r
batch_assign sources (target ∷ targets) r =
    batch_assign sources targets (elim (lookup target r.roles) [
      | none ↦ r
      | some role ↦ set_role (with_permissions role (assigned r.roles sources role.permissions)) r
    ])

unfoldable pub revoked_all : Map Text Role → List Text → List Permission → List Permission
unfolding lookup without_all
revoked_all roles [] ps = ps
revoked_all roles (name ∷ names) ps =
    revoked_all roles names
      (elim (lookup name roles) [ none ↦ ps | some src ↦ without_all ps src.permissions ])

-- `revoke`: one permission, or those of the source roles.
unfoldable pub revoked : BatchBody → Map Text Role → List Permission → List Permission
unfolding without revoked_all
revoked b roles ps =
    if not (b.permission.index == []) && not (nat_eq (length b.permission.actions) 0)
    then without ps b.permission
    else revoked_all roles b.roles ps

unfoldable pub batch_revoke : BatchBody → List Text → Rbac → Rbac
unfolding lookup revoked set_role
batch_revoke b [] r = r
batch_revoke b (target ∷ targets) r = batch_revoke b targets (elim (lookup target r.roles) [
  | none ↦ r
  | some role ↦ set_role (with_permissions role (revoked b r.roles role.permissions)) r
])

abbrev pub is_empty : {A : Type 0} → List A → Bool
is_empty [] = true
is_empty (x ∷ xs) = false

-- `handleBatchPermissions`
unfoldable pub handle_batch_permissions : Option RbacConfig → Option BatchBody → Rbac → Rbac × ℕ
unfolding load_from_store batch_delete batch_assign batch_revoke
handle_batch_permissions stored body raw =
    let r = load_from_store stored raw in
    elim body [
      | none ↦ (r, 400)
      | some b ↦
          if b.action == text "create"
          then (if is_empty b.permissions then (r, 400) else (r, 200))
          else if b.action == text "delete"
          then (if is_empty b.permissions then (r, 400) else (batch_delete b.permissions r, 200))
          else if b.action == text "assign"
          then (if is_empty b.roles || is_empty b.target_roles
              then (r, 400)
              else (batch_assign b.roles b.target_roles r, 200))
          else if b.action == text "revoke"
          then (if is_empty b.target_roles
              then (r, 400)
              else (batch_revoke b b.target_roles r, 200))
          else (r, 400)
    ]

-- A request to one of the handlers under `/_security` that change users or roles.
pub data SecurityCall : Type 0 where
  creates_user : Bool → (method name : Text) → Option (Text × List Text) → SecurityCall
  deletes_user : Bool → (method name : Text) → SecurityCall
  creates_role : Bool → (method name : Text) → Option (List Permission) → SecurityCall
  deletes_role : Bool → (method name : Text) → SecurityCall
  creates_permission : (name : Text) → Option CreateBody → SecurityCall
  deletes_permission : (name : Text) → SecurityCall
  changes_many : Option BatchBody → SecurityCall

unfoldable pub step : (Text → Text) → Option RbacConfig → SecurityCall → Rbac → Rbac
unfolding handle_create_user handle_delete_user handle_create_role handle_delete_role
    handle_create_permission handle_delete_permission handle_batch_permissions
step sha256_hex stored (creates_user fails method name body) r =
    (handle_create_user sha256_hex stored fails method name body r).0
step sha256_hex stored (deletes_user fails method name) r =
    (handle_delete_user stored fails method name r).0
step sha256_hex stored (creates_role fails method name body) r =
    (handle_create_role stored fails method name body r).0
step sha256_hex stored (deletes_role fails method name) r =
    (handle_delete_role stored fails method name r).0
step sha256_hex stored (creates_permission name body) r =
    (handle_create_permission stored name body r).0
step sha256_hex stored (deletes_permission name) r = (handle_delete_permission stored name r).0
step sha256_hex stored (changes_many body) r = (handle_batch_permissions stored body r).0

unfoldable pub run : (Text → Text) → Option RbacConfig → List SecurityCall → Rbac → Rbac
unfolding step
run sha256_hex stored [] r = r
run sha256_hex stored (call ∷ calls) r = run sha256_hex stored calls (step sha256_hex stored call r)
