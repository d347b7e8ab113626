-- ===== src/Server/Access/Builtin.antt =====
-- internal/server/rbac.go and rbac_extended.go: no request takes a built-in role away.
use go_es.Prelude.{
  ◌≡◌, refl, ap, subst, sym, Bool, false, ◌∙◌, true, false, Option, none, some, List, [], ◌∷◌,
  if◌then◌else◌, ◌==◌, Text, text_Comparable, text_eq, text_eq_iff, Bool-cases, Option-cases,
  List-cases, ℕ, not, ◌||◌, text, inl, inr, arith,
}
use go_es.Prelude.Maps.{Map, lookup, insert, lookup-insert, lookup-delete}
use go_es.Prelude.Sets.{contains}
use go_es.Server.Access.{
  Rbac, RbacConfig, Role, User, Permission, load_from_store, adopt, install, builtins,
  ensure_builtin_roles, new_rbac, any_role,
}
use go_es.Server.Access.Handlers.{
  is_builtin, is_post, set_role, delete_role, set_user, delete_user, handle_create_user,
  handle_delete_user, handle_create_role, handle_delete_role,
}
use go_es.Server.Access.Permissions.{
  has_same, is_empty, CreateBody, get_permission, grant, withdraw, withdraw_everywhere,
  batch_delete, batch_assign, batch_revoke, NamedPermission, BatchBody, handle_create_permission,
  handle_delete_permission, handle_batch_permissions, SecurityCall, creates_user, deletes_user,
  creates_role, deletes_role, creates_permission, deletes_permission, changes_many, step, run,
}

loaded_once :
    (stored : Option RbacConfig) (r : Rbac) → r.loaded ≡ true → load_from_store stored r ≡ r
unfolding load_from_store
loaded_once stored r h = rw h refl

load_from_store_loaded :
    (stored : Option RbacConfig) (r : Rbac) → (load_from_store stored r).loaded ≡ true
unfolding load_from_store
load_from_store_loaded stored r = ground arith

-- Another role than a built-in one has another name.
named_otherwise :
    (n name : Text) → is_builtin name ≡ true → is_builtin n ≡ false → text_eq n name ≡ false
named_otherwise n name b f = elim (Bool-cases (text_eq n name)) [
  | inr d ↦ d
  | inl e ↦ let g : is_builtin n ≡ true = ap is_builtin ((text_eq_iff n name).0 e) ∙ b in cc
]

-- Each role stands under its own name.
abbrev pub IsNamed : Map Text Role → Type 0
IsNamed roles = (key : Text) (role : Role) → lookup key roles ≡ some role → role.name ≡ key

-- Each built-in role is there.
abbrev pub HasBuiltins : Map Text Role → Type 0
HasBuiltins roles =
    (name : Text) → is_builtin name ≡ true → (role : Role) × (lookup name roles ≡ some role)

-- What holds of a loaded state after every request.
record IsSafe (r : Rbac) : Type 0 where
  loaded : r.loaded ≡ true
  named : IsNamed r.roles
  builtin : HasBuiltins r.roles

insert-IsNamed :
    (role : Role) (roles : Map Text Role) → IsNamed roles → IsNamed (insert role.name role roles)
insert-IsNamed role roles n key other h = elim (Bool-cases (text_eq role.name key)) [
  | inl e ↦ ground (arith, h, e, text_eq_iff role.name key, lookup-insert role.name key role roles)
  | inr e ↦ n key other (ground (arith, h, e, lookup-insert role.name key role roles))
]

insert-HasBuiltins :
    (role : Role) (roles : Map Text Role)
    → HasBuiltins roles
    → HasBuiltins (insert role.name role roles)
insert-HasBuiltins role roles h name b = elim (Bool-cases (text_eq role.name name)) [
  | inl e ↦ (role, ground (arith, e, lookup-insert role.name name role roles))
  | inr e ↦
      let (old, o) = h name b in
      (old, ground (arith, e, o, lookup-insert role.name name role roles))
]

-- To set a role, whichever it is, keeps the state safe.
set_role-IsSafe : (role : Role) (r : Rbac) → IsSafe r → IsSafe (set_role role r)
unfolding set_role
set_role-IsSafe role r k = record {
  loaded = k.loaded;
  named = insert-IsNamed role r.roles k.named;
  builtin = insert-HasBuiltins role r.roles k.builtin;
}

delete_role-IsSafe :
    (name : Text) (r : Rbac) → is_builtin name ≡ false → IsSafe r → IsSafe (delete_role name r)
unfolding delete_role
delete_role-IsSafe name r b k = record {
  loaded = k.loaded;
  named = λ key role h. k.named key role (ground (arith, h, lookup-delete name key r.roles));
  builtin = λ other o.
      let (role, e) = k.builtin other o in
      (role, ground (arith, e, named_otherwise name other o b, lookup-delete name other r.roles));
}

if-IsSafe : (b : Bool) (r s : Rbac) → IsSafe r → IsSafe s → IsSafe (if b then r else s)
if-IsSafe true r s h k = h
if-IsSafe false r s h k = k

-- The role that a name stands for, if any, is changed.
change-IsSafe :
    (o : Option Role) (f : Role → Rbac) (r : Rbac)
    → IsSafe r
    → ((role : Role) → IsSafe (f role))
    → IsSafe (elim o [ none ↦ r | some role ↦ f role ])
change-IsSafe none f r k h = k
change-IsSafe (some role) f r k h = h role

grant-IsSafe : (p : Permission) (names : List Text) (r : Rbac) → IsSafe r → IsSafe (grant p names r)
unfolding grant
grant-IsSafe p [] r k = k
grant-IsSafe p (name ∷ names) r k = grant-IsSafe p names _ (
    change-IsSafe (lookup name r.roles) _ r k
      (λ role. if-IsSafe (has_same role.permissions p) r _ k (set_role-IsSafe _ r k)))

withdraw-IsSafe :
    (p : Permission) (roles : Map Text Role) (r : Rbac) → IsSafe r → IsSafe (withdraw p roles r)
unfolding withdraw
withdraw-IsSafe p [] r k = k
withdraw-IsSafe p ((key, role) ∷ roles) r k =
    withdraw-IsSafe p roles _
      (if-IsSafe (has_same role.permissions p) _ r (set_role-IsSafe _ r k) k)

withdraw_everywhere-IsSafe :
    (p : Permission) (roles : Map Text Role) (r : Rbac)
    → IsSafe r
    → IsSafe (withdraw_everywhere p roles r)
unfolding withdraw_everywhere
withdraw_everywhere-IsSafe p [] r k = k
withdraw_everywhere-IsSafe p ((key, role) ∷ roles) r k =
    withdraw_everywhere-IsSafe p roles _ (set_role-IsSafe _ r k)

batch_delete-IsSafe : (ps : List NamedPermission) (r : Rbac) → IsSafe r → IsSafe (batch_delete ps r)
unfolding batch_delete
batch_delete-IsSafe [] r k = k
batch_delete-IsSafe (p ∷ ps) r k =
    batch_delete-IsSafe ps _
      (if-IsSafe (p.name == []) r _ k (withdraw_everywhere-IsSafe p.permission r.roles r k))

batch_assign-IsSafe :
    (sources targets : List Text) (r : Rbac) → IsSafe r → IsSafe (batch_assign sources targets r)
unfolding batch_assign
batch_assign-IsSafe sources [] r k = k
batch_assign-IsSafe sources (target ∷ targets) r k =
    batch_assign-IsSafe sources targets _
      (change-IsSafe (lookup target r.roles) _ r k (λ role. set_role-IsSafe _ r k))

batch_revoke-IsSafe :
    (b : BatchBody) (targets : List Text) (r : Rbac) → IsSafe r → IsSafe (batch_revoke b targets r)
unfolding batch_revoke
batch_revoke-IsSafe b [] r k = k
batch_revoke-IsSafe b (target ∷ targets) r k =
    batch_revoke-IsSafe b targets _
      (change-IsSafe (lookup target r.roles) _ r k (λ role. set_role-IsSafe _ r k))

load-IsSafe : (stored : Option RbacConfig) (r : Rbac) → IsSafe r → IsSafe (load_from_store stored r)
load-IsSafe stored r k = subst IsSafe (sym (loaded_once stored r k.loaded)) k

set_user-IsSafe : (u : User) (r : Rbac) → IsSafe r → IsSafe (set_user u r)
unfolding set_user
set_user-IsSafe u r k = record { loaded = k.loaded; named = k.named; builtin = k.builtin }

delete_user-IsSafe : (name : Text) (r : Rbac) → IsSafe r → IsSafe (delete_user name r)
unfolding delete_user
delete_user-IsSafe name r k = record { loaded = k.loaded; named = k.named; builtin = k.builtin }

-- An answer leaves a safe state.
abbrev Leaves : Rbac × ℕ → Type 0
Leaves a = IsSafe a.0

if-Leaves : (b : Bool) (x y : Rbac × ℕ) → Leaves x → Leaves y → Leaves (if b then x else y)
if-Leaves true x y h k = h
if-Leaves false x y h k = k

handle_create_user-Leaves :
    (sha256_hex : Text → Text) (stored : Option RbacConfig) (fails : Bool) (method name : Text)
    (body : Option (Text × List Text)) (r : Rbac)
    → IsSafe r
    → Leaves (handle_create_user sha256_hex stored fails method name body r)
unfolding handle_create_user
handle_create_user-Leaves sha256_hex stored fails method name none r k =
    let l = load-IsSafe stored r k in if-Leaves (not (is_post method)) _ _ l l
handle_create_user-Leaves sha256_hex stored fails method name (some (password, [])) r k =
    let l = load-IsSafe stored r k in
    if-Leaves (not (is_post method)) _ _ l (if-Leaves (password == []) _ _ l l)
handle_create_user-Leaves sha256_hex stored fails method name (some (password, role ∷ more)) r k =
    let l = load-IsSafe stored r k in
    if-Leaves (not (is_post method)) _ _ l
      (if-Leaves (password == []) _ _ l (set_user-IsSafe _ (load_from_store stored r) l))

handle_create_role-Leaves :
    (stored : Option RbacConfig) (fails : Bool) (method name : Text)
    (body : Option (List Permission)) (r : Rbac)
    → IsSafe r
    → Leaves (handle_create_role stored fails method name body r)
unfolding handle_create_role
handle_create_role-Leaves stored fails method name none r k =
    let l = load-IsSafe stored r k in if-Leaves (not (is_post method)) _ _ l l
handle_create_role-Leaves stored fails method name (some permissions) r k =
    let l = load-IsSafe stored r k in
    if-Leaves (not (is_post method)) _ _ l
      (if-Leaves (is_builtin name) _ _ l (set_role-IsSafe _ (load_from_store stored r) l))

handle_delete_role-Leaves :
    (stored : Option RbacConfig) (fails : Bool) (method name : Text) (r : Rbac)
    → IsSafe r
    → Leaves (handle_delete_role stored fails method name r)
unfolding handle_delete_role
handle_delete_role-Leaves stored fails method name r k =
    let l = load-IsSafe stored r k in
    if-Leaves (not (method == text "DELETE")) _ _ l (elim (Bool-cases (is_builtin name)) [
      | inl b ↦ rw b l
      | inr b ↦ rw b (delete_role-IsSafe name (load_from_store stored r) b l)
    ])

handle_create_permission-Leaves :
    (stored : Option RbacConfig) (name : Text) (body : Option CreateBody) (r : Rbac)
    → IsSafe r
    → Leaves (handle_create_permission stored name body r)
unfolding handle_create_permission
handle_create_permission-Leaves stored name none r k = load-IsSafe stored r k
handle_create_permission-Leaves stored name (some b) r k =
    let l = load-IsSafe stored r k in
    if-Leaves (name == []) _ _ l (elim (List-cases b.actions) [
      | inl e ↦ rw e l
      | inr (a, more, e) ↦ rw e (grant-IsSafe _ b.roles (load_from_store stored r) l)
    ])

handle_delete_permission-Leaves :
    (stored : Option RbacConfig) (name : Text) (r : Rbac)
    → IsSafe r
    → Leaves (handle_delete_permission stored name r)
unfolding handle_delete_permission
handle_delete_permission-Leaves stored name r k =
    let l = load-IsSafe stored r k in
    let all = (load_from_store stored r).roles in
    if-Leaves (name == []) _ _ l (chosen (get_permission name all))
  where
    chosen :
        (o : Option Permission)
        → Leaves (elim o [
          | none ↦ (load_from_store stored r, 404)
          | some p ↦ (withdraw p (load_from_store stored r).roles (load_from_store stored r), 200)
        ])
    chosen none = load-IsSafe stored r k
    chosen (some p) =
        withdraw-IsSafe p (load_from_store stored r).roles (load_from_store stored r)
          (load-IsSafe stored r k)

handle_batch_permissions-Leaves :
    (stored : Option RbacConfig) (body : Option BatchBody) (r : Rbac)
    → IsSafe r
    → Leaves (handle_batch_permissions stored body r)
unfolding handle_batch_permissions
handle_batch_permissions-Leaves stored none r k = load-IsSafe stored r k
handle_batch_permissions-Leaves stored (some b) r k =
    let l = load-IsSafe stored r k in
    let now = load_from_store stored r in
    if-Leaves (b.action == text "create") _ _ (if-Leaves (is_empty b.permissions) _ _ l l) (
      if-Leaves (b.action == text "delete") _ _
        (if-Leaves (is_empty b.permissions) _ _ l (batch_delete-IsSafe b.permissions now l))
        (if-Leaves (b.action == text "assign") _ _
          (if-Leaves (is_empty b.roles || is_empty b.target_roles) _ _ l
            (batch_assign-IsSafe b.roles b.target_roles now l))
          (if-Leaves (b.action == text "revoke") _ _
            (if-Leaves (is_empty b.target_roles) _ _ l (batch_revoke-IsSafe b b.target_roles now l))
            l)))

step-IsSafe :
    (sha256_hex : Text → Text) (stored : Option RbacConfig) (call : SecurityCall) (r : Rbac)
    → IsSafe r
    → IsSafe (step sha256_hex stored call r)
unfolding step handle_delete_user
step-IsSafe sha256_hex stored (creates_user fails method name body) r k =
    handle_create_user-Leaves sha256_hex stored fails method name body r k
step-IsSafe sha256_hex stored (deletes_user fails method name) r k =
    let l = load-IsSafe stored r k in
    if-Leaves (not (method == text "DELETE")) _ _ l
      (delete_user-IsSafe name (load_from_store stored r) l)
step-IsSafe sha256_hex stored (creates_role fails method name body) r k =
    handle_create_role-Leaves stored fails method name body r k
step-IsSafe sha256_hex stored (deletes_role fails method name) r k =
    handle_delete_role-Leaves stored fails method name r k
step-IsSafe sha256_hex stored (creates_permission name body) r k =
    handle_create_permission-Leaves stored name body r k
step-IsSafe sha256_hex stored (deletes_permission name) r k =
    handle_delete_permission-Leaves stored name r k
step-IsSafe sha256_hex stored (changes_many body) r k =
    handle_batch_permissions-Leaves stored body r k

run-IsSafe :
    (sha256_hex : Text → Text) (stored : Option RbacConfig) (calls : List SecurityCall) (r : Rbac)
    → IsSafe r
    → IsSafe (run sha256_hex stored calls r)
unfolding run
run-IsSafe sha256_hex stored [] r k = k
run-IsSafe sha256_hex stored (call ∷ calls) r k =
    run-IsSafe sha256_hex stored calls _ (step-IsSafe sha256_hex stored call r k)

-- The first role of a list with a name.
abbrev role_named : Text → List Role → Option Role
role_named name [] = none
role_named name (role ∷ roles) = if role.name == name then some role else role_named name roles

abbrev or_else : Option Role → Option Role → Option Role
or_else none other = other
or_else (some role) other = some role

lookup-install :
    (name : Text) (rs : List Role) (roles : Map Text Role)
    → lookup name (install rs roles) ≡ or_else (lookup name roles) (role_named name rs)
unfolding install
lookup-install name [] roles = elim (Option-cases (lookup name roles)) [
  | inl e ↦ ground (arith, e)
  | inr (r, e) ↦ ground (arith, e)
]
lookup-install name (role ∷ rs) roles = elim (Option-cases (lookup role.name roles)) [
  | inl e ↦
      ap (λ (m : Map Text Role). lookup name (install rs m)) (ground (arith, e))
      ∙ lookup-install name rs (insert role.name role roles)
      ∙ ground (arith, e, lookup-insert role.name name role roles, text_eq_iff role.name name)
  | inr (r, e) ↦
      ap (λ (m : Map Text Role). lookup name (install rs m)) (ground (arith, e))
      ∙ lookup-install name rs roles
      ∙ ground (arith, e, text_eq_iff role.name name)
]

install-IsNamed :
    (rs : List Role) (roles : Map Text Role) → IsNamed roles → IsNamed (install rs roles)
unfolding install
install-IsNamed [] roles n = n
install-IsNamed (role ∷ rs) roles n = install-IsNamed rs _ (chosen (lookup role.name roles))
  where
    chosen :
        (o : Option Role) → IsNamed (elim o [ none ↦ insert role.name role roles | some _ ↦ roles ])
    chosen none = insert-IsNamed role roles n
    chosen (some _) = n

builtins_present :
    (name : Text) → is_builtin name ≡ true → (role : Role) × (role_named name builtins ≡ some role)
builtins_present name b = elim (Option-cases (role_named name builtins)) [
  | inr (role, e) ↦ (role, e)
  | inl n ↦ absurd (
      ground (
        arith,
        b,
        n,
        swap (text "superuser") name,
        swap (text "admin") name,
        swap (text "read") name,
        swap (text "monitor") name,
      ))
]
  where
    swap : (s t : Text) → text_eq s t ≡ text_eq t s
    swap s t = ground (arith, text_eq_iff s t, text_eq_iff t s)

loaded-IsSafe :
    (users : Map Text User) (roles : Map Text Role)
    → IsNamed roles
    → IsSafe (load_from_store (some (record { users = some users; roles = some roles })) new_rbac)
unfolding load_from_store adopt ensure_builtin_roles
loaded-IsSafe users roles n = record {
  loaded = refl;
  named = install-IsNamed builtins roles n;
  builtin = λ name b.
      let e = lookup-install name builtins roles in
      elim (Option-cases (lookup name roles)) [
        | inr (role, o) ↦ (role, e ∙ ap (λ o. or_else o (role_named name builtins)) o)
        | inl o ↦
            let (role, q) = builtins_present name b in
            (role, e ∙ ap (λ o. or_else o (role_named name builtins)) o ∙ q)
      ];
}

superuser_passes :
    (roles : Map Text Role) (role : Role) (names : List Text) (index action : Text)
    → lookup (text "superuser") roles ≡ some role
    → role.name ≡ text "superuser"
    → contains (text "superuser") names ≡ true
    → any_role roles names index action ≡ true
unfolding any_role contains
superuser_passes roles role [] index action e n h = ground arith
superuser_passes roles role (name ∷ names) index action e n h =
    elim (Bool-cases (name == text "superuser")) [
      | inl t ↦ ground (
        arith,
        t,
        e,
        n,
        text_eq_iff name (text "superuser"),
        text_eq_iff role.name (text "superuser"),
      )
      | inr t ↦
          ground (arith, superuser_passes roles role names index action e n (ground (arith, t, h)))
    ]

-- Let the server load a stored configuration in which each role stands under its own name, and then
-- answer any requests under `/_security` that change users, roles or permissions. Then each of the four
-- built-in roles is still there, though its permissions may have changed, and a list of roles with
-- `superuser` in it still grants every action on every index.
pub run-builtin :
    (sha256_hex : Text → Text) (users : Map Text User) (roles : Map Text Role)
    (calls : List SecurityCall)
    → IsNamed roles
    → HasBuiltins
        (run sha256_hex (some (record { users = some users; roles = some roles })) calls (
          load_from_store
            (some (record { users = some users; roles = some roles }))
            new_rbac)).roles
      × ((names : List Text) (index action : Text)
          → contains (text "superuser") names ≡ true
          → any_role
              (run sha256_hex (some (record { users = some users; roles = some roles })) calls (
                load_from_store
                  (some (record { users = some users; roles = some roles }))
                  new_rbac)).roles
              names
              index
              action
            ≡ true)
unfolding text_eq
run-builtin sha256_hex users roles calls n =
    let stored : Option RbacConfig = some (record { users = some users; roles = some roles }) in
    let k =
      run-IsSafe sha256_hex stored calls (load_from_store stored new_rbac)
        (loaded-IsSafe users roles n) in
    (
      k.builtin,
      λ names index action h.
          let (role, e) = k.builtin (text "superuser") refl in
          superuser_passes _ role names index action e (k.named (text "superuser") role e) h,
    )
