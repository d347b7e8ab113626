-- ===== src/Server/Access/Handlers.antt =====
-- internal/server/rbac.go: the handlers under `/_security`. Each takes the stored configuration, which
-- it loads first, what its body decodes to, and whether the save at its end fails.
use go_es.Prelude.{
  ℕ, Bool, not, ◌||◌, Option, none, some, List, [], ◌∷◌, if◌then◌else◌, ◌==◌, Text, text_Comparable,
  text,
}
use go_es.Prelude.Maps.{lookup, insert, delete}
use go_es.Server.Access.{Rbac, RbacConfig, Role, User, Permission, load_from_store}

-- The state, and the status of the response.
abbrev Answer : Type 0
Answer = Rbac × ℕ

unfoldable pub set_user : User → Rbac → Rbac
unfolding insert
set_user u r = record r { users = insert u.name u r.users }

unfoldable pub delete_user : Text → Rbac → Rbac
unfolding delete
delete_user name r = record r { users = delete name r.users }

unfoldable pub set_role : Role → Rbac → Rbac
unfolding insert
set_role role r = record r { roles = insert role.name role r.roles }

unfoldable pub delete_role : Text → Rbac → Rbac
unfolding delete
delete_role name r = record r { roles = delete name r.roles }

abbrev pub is_builtin : Text → Bool
is_builtin name =
    name == text "superuser"
    || (name == text "admin" || (name == text "read" || name == text "monitor"))

abbrev status_of : Bool → ℕ
status_of save_fails = if save_fails then 500 else 200

abbrev pub is_post : Text → Bool
is_post method = method == text "POST" || method == text "PUT"

unfoldable pub handle_create_user :
    (Text → Text)
    → Option RbacConfig
    → Bool
    → Text
    → Text
    → Option (Text × List Text)
    → Rbac
    → Rbac × ℕ
unfolding load_from_store set_user
handle_create_user sha256_hex stored save_fails method name body raw =
    let r = load_from_store stored raw in
    if not (is_post method) then (r, 405) else elim body [
      | none ↦ (r, 400)
      | some (password, roles) ↦ if password == [] then (r, 400) else elim roles [
        | [] ↦ (r, 400)
        | role ∷ more ↦ (
          set_user
              (record { name = name; password_hash = sha256_hex password; roles = role ∷ more }) r,
          status_of save_fails,
        )
      ]
    ]

unfoldable pub handle_delete_user : Option RbacConfig → Bool → Text → Text → Rbac → Rbac × ℕ
unfolding load_from_store delete_user
handle_delete_user stored save_fails method name raw =
    let r = load_from_store stored raw in
    if not (method == text "DELETE") then (r, 405) else (delete_user name r, status_of save_fails)

unfoldable pub handle_create_role :
    Option RbacConfig → Bool → Text → Text → Option (List Permission) → Rbac → Rbac × ℕ
unfolding load_from_store set_role
handle_create_role stored save_fails method name body raw =
    let r = load_from_store stored raw in
    if not (is_post method) then (r, 405) else elim body [
      | none ↦ (r, 400)
      | some permissions ↦ if is_builtin name then (r, 400) else (
        set_role (record { name = name; permissions = permissions }) r,
        status_of save_fails,
      )
    ]

unfoldable pub handle_delete_role : Option RbacConfig → Bool → Text → Text → Rbac → Rbac × ℕ
unfolding load_from_store delete_role
handle_delete_role stored save_fails method name raw =
    let r = load_from_store stored raw in
    if not (method == text "DELETE")
    then (r, 405)
    else if is_builtin name
    then (r, 400)
    else (delete_role name r, status_of save_fails)

-- The handlers that only read: the user or role that they show.
unfoldable pub handle_get_user : Option RbacConfig → Text → Text → Rbac → Rbac × ℕ × Option User
unfolding load_from_store lookup
handle_get_user stored method name raw =
    let r = load_from_store stored raw in
    if not (method == text "GET")
    then (r, 405, none)
    else elim (lookup name r.users) [ none ↦ (r, 404, none) | some u ↦ (r, 200, some u) ]

unfoldable pub handle_get_role : Option RbacConfig → Text → Text → Rbac → Rbac × ℕ × Option Role
unfolding load_from_store lookup
handle_get_role stored method name raw =
    let r = load_from_store stored raw in
    if not (method == text "GET")
    then (r, 405, none)
    else elim (lookup name r.roles) [ none ↦ (r, 404, none) | some role ↦ (r, 200, some role) ]
