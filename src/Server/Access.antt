-- ===== src/Server/Access.antt =====
-- internal/server/rbac.go: users, roles and the decision whether a request may pass. Actions are
-- strings, as in the stored configuration. SHA-256 in hex is a parameter of what stores passwords.
pub mod Matching
pub mod Handlers
pub mod Permissions
pub mod Decision
pub mod Builtin
mod Tests
use go_es.Prelude.{
  ℕ, ◌+◌, ◌-◌, Bool, true, false, not, ◌&&◌, ◌||◌, Option, none, some, List, [], ◌∷◌, ◌++◌,
  if◌then◌else◌, nat_eq, leb, ◌==◌, Text, text_Comparable, text, length, take, drop,
}
use go_es.Prelude.Maps.{Map, lookup, insert, delete}
use go_es.Prelude.Sorting.{sort_texts}
use go_es.Prelude.Strings.{has_prefix, has_suffix, contains_text, cut, split, trim}

pub record Permission : Type 0 where
  pub index : Text
  pub actions : List Text

abbrev pub any_bytes : Text
any_bytes = text "*"

-- `matchesIndex`
unfoldable pub matches_index : Permission → Text → Bool
matches_index p index =
    if p.index == any_bytes
    then true
    else if has_prefix p.index any_bytes
    then has_suffix index (drop 1 p.index)
    else if has_suffix p.index any_bytes
    then has_prefix index (take (length p.index - 1) p.index)
    else elim (cut 42 p.index) [
      | some (prefix, suffix) ↦ has_prefix index prefix && has_suffix index suffix
      | none ↦ p.index == index
    ]

abbrev pub action_covers : Text → Text → Bool
action_covers held asked =
    held == asked || (held == text "admin" && (asked == text "read" || asked == text "write"))

unfoldable pub covers : List Text → Text → Bool
covers [] asked = false
covers (held ∷ rest) asked = action_covers held asked || covers rest asked

-- `hasAction`
unfoldable pub has_action : Permission → Text → Bool
unfolding covers
has_action p asked = covers p.actions asked

pub record Role : Type 0 where
  pub name : Text
  pub permissions : List Permission

unfoldable pub any_permission : List Permission → Text → Text → Bool
unfolding matches_index has_action
any_permission [] index action = false
any_permission (p ∷ ps) index action =
    (matches_index p index && has_action p action) || any_permission ps index action

unfoldable pub has_permission : Role → Text → Text → Bool
unfolding any_permission
has_permission r index action = any_permission r.permissions index action

pub record User : Type 0 where
  pub name : Text
  pub password_hash : Text
  pub roles : List Text

-- `CheckPassword`, with the hash function as an argument.
unfoldable pub check_password : (Text → Text) → User → Text → Bool
check_password sha256_hex u plain = sha256_hex plain == u.password_hash

-- A map that the stored JSON sets to null is none; one that it leaves out is empty.
pub record RbacConfig : Type 0 where
  pub users : Option (Map Text User)
  pub roles : Option (Map Text Role)

pub record Rbac : Type 0 where
  pub users : Map Text User
  pub roles : Map Text Role
  pub loaded : Bool

abbrev pub new_rbac : Rbac
new_rbac = record { users = []; roles = []; loaded = false }

abbrev pub on_all : Text → List Text → Role
on_all name actions = record {
  name = name;
  permissions = record { index = any_bytes; actions = actions } ∷ [];
}

abbrev pub builtins : List Role
builtins =
    on_all (text "superuser")
      (text "read" ∷ text "write" ∷ text "admin" ∷ text "monitor" ∷ text "cluster" ∷ [])
    ∷ on_all (text "admin") (text "read" ∷ text "write" ∷ text "admin" ∷ text "monitor" ∷ [])
    ∷ on_all (text "read") (text "read" ∷ text "monitor" ∷ [])
    ∷ on_all (text "monitor") (text "monitor" ∷ [])
    ∷ []

unfoldable pub install : List Role → Map Text Role → Map Text Role
unfolding lookup insert
install [] roles = roles
install (role ∷ rest) roles =
    install rest
      (elim (lookup role.name roles) [ none ↦ insert role.name role roles | some _ ↦ roles ])

unfoldable pub ensure_builtin_roles : Rbac → Rbac
unfolding install
ensure_builtin_roles r = record r { roles = install builtins r.roles }

-- The state that the stored configuration puts in place; none is one that cannot be read. Where the
-- store has none, both maps are empty.
unfoldable pub adopt : Option RbacConfig → Rbac → Rbac
adopt none r = r
adopt (some cfg) r = elim cfg.users [
  | none ↦ r
  | some users ↦ elim cfg.roles [
    | none ↦ r
    | some roles ↦ record r { users = users; roles = roles }
  ]
]

unfoldable pub load_from_store : Option RbacConfig → Rbac → Rbac
unfolding adopt ensure_builtin_roles
load_from_store stored r =
    if r.loaded then r else record (ensure_builtin_roles (adopt stored r)) { loaded = true }

unfoldable pub saved : Rbac → RbacConfig
saved r = record { users = some r.users; roles = some r.roles }

unfoldable pub keys : {V : Type 0} → Map Text V → List Text
keys [] = []
keys ((k, v) ∷ rest) = k ∷ keys rest

unfoldable pub list_users : Rbac → List Text
unfolding keys sort_texts
list_users r = sort_texts (keys r.users)

unfoldable pub list_roles : Rbac → List Text
unfolding keys sort_texts
list_roles r = sort_texts (keys r.roles)

-- The loop of `checkPermission` over the names of roles.
unfoldable pub any_role : Map Text Role → List Text → Text → Text → Bool
unfolding lookup has_permission
any_role roles [] index action = false
any_role roles (name ∷ names) index action =
    (elim (lookup name roles) [
      | none ↦ false
      | some role ↦ role.name == text "superuser" || has_permission role index action
    ])
    || any_role roles names index action

unfoldable pub check_permission : Rbac → Text → Text → Text → Bool
unfolding lookup any_role
check_permission r username index action =
    if username == []
    then false
    else if username == text "apikey"
    then true
    else elim (lookup username r.users) [
      | none ↦ true
      | some user ↦ any_role r.roles user.roles index action
    ]

abbrev pub is_slash : ℕ → Bool
is_slash c = nat_eq c 47

abbrev pub only_reads : Text → Bool
only_reads method = method == text "GET" || method == text "HEAD"

-- The index and the action of a request, from the parts of its path.
unfoldable pub action_of : Text → Text → List Text → Text × Text
action_of method first rest =
    if has_prefix first (text "_")
    then (if has_prefix first (text "_security")
        then ([], if only_reads method then text "read" else text "write")
        else ([], text "cluster"))
    else if first == text "metrics"
    then ([], text "monitor")
    else (
      first,
      if only_reads method
          then text "read"
          else if method == text "DELETE"
          then (elim rest [ [] ↦ text "admin" | _ ∷ _ ↦ text "write" ])
          else text "write",
    )

unfoldable pub request_action : Text → Text → Text × Text
unfolding action_of split trim
request_action method path = elim (split 47 (trim is_slash path)) [
  | [] ↦ ([], text "read")
  | first ∷ rest ↦ action_of method first rest
]

-- What the authorisation decides.
pub data Verdict : Type 0 where
  passes : Verdict
  forbidden : (user action index : Text) → Verdict

unfoldable pub middleware_rbac :
    Option RbacConfig → Bool → Bool → Text → Text → Text → Rbac → Rbac × Verdict
unfolding load_from_store request_action check_permission
middleware_rbac stored is_public auth_enabled user method path raw =
    let r = load_from_store stored raw in
    let asked = request_action method path in
    if is_public
    then (r, passes)
    else if not auth_enabled
    then (r, passes)
    else if check_permission r user asked.0 asked.1
    then (r, passes)
    else (r, forbidden user asked.1 (if asked.0 == [] then text "<cluster>" else asked.0))
