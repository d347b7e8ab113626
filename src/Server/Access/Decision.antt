-- ===== src/Server/Access/Decision.antt =====
-- internal/server/rbac.go: what the decision on a request comes to.
use go_es.Prelude.{
  ◌≡◌, ap, ◌∙◌, Bool, true, false, Option, some, List, [], ◌∷◌, ◌++◌, Text, text_Comparable, text,
  text_eq, text_eq_iff, arith, refl, List-cases, inl, inr,
}
use go_es.Prelude.Maps.{Map, lookup, lookup-delete}
use go_es.Prelude.Strings.{split, trim, trim_left, trim_right, has_prefix}
use go_es.Server.Access.{
  Rbac, RbacConfig, Role, User, Permission, load_from_store, matches_index, has_action,
  any_permission, has_permission, any_role, check_permission, any_bytes, middleware_rbac,
  request_action, passes, only_reads, is_slash,
}
use go_es.Server.Access.Handlers.{handle_delete_user, delete_user}

-- Deleting a user takes no rights away: whoever still logs in under that name, for instance by the
-- basic authentication of the configuration, is then not registered and may do everything.
pub delete_user-grants :
    (stored : Option RbacConfig) (save_fails : Bool) (name index action : Text) (r : Rbac)
    → text_eq name [] ≡ false
    → check_permission
        (handle_delete_user stored save_fails (text "DELETE") name r).0
        name
        index
        action
      ≡ true
unfolding check_permission handle_delete_user delete_user text_eq
delete_user-grants stored save_fails name index action r h =
    ground (arith, lookup-delete name name (load_from_store stored r).users, text_eq_iff name name)

-- One role that grants is enough, wherever it stands in the list of the user.
any_role_found :
    (roles : Map Text Role) (front : List Text) (name : Text) (back : List Text) (role : Role)
    (index action : Text)
    → lookup name roles ≡ some role
    → has_permission role index action ≡ true
    → any_role roles (front ++ (name ∷ back)) index action ≡ true
unfolding any_role
any_role_found roles [] name back role index action e h = ground (arith, e, h)
any_role_found roles (other ∷ front) name back role index action e h =
    ground (arith, any_role_found roles front name back role index action e h)

any_permission_found :
    (before : List Permission) (p : Permission) (after : List Permission) (index action : Text)
    → matches_index p index ≡ true
    → has_action p action ≡ true
    → any_permission (before ++ (p ∷ after)) index action ≡ true
unfolding any_permission
any_permission_found [] p after index action m h = ground (arith, m, h)
any_permission_found (q ∷ before) p after index action m h =
    ground (arith, any_permission_found before p after index action m h)

any_bytes-matches :
    (p : Permission) (index : Text) → p.index ≡ any_bytes → matches_index p index ≡ true
unfolding matches_index
any_bytes-matches p index e = ground (arith, e, text_eq_iff p.index any_bytes)

-- A request under `/_security` that does not only read asks for `write` on the empty index.
security_asks :
    (method rest : Text)
    → only_reads method ≡ false
    → request_action method (text "/_security/" ++ rest) ≡ ([], text "write")
unfolding request_action split trim trim_right trim_left has_prefix
security_asks method rest h = elim (List-cases (trim_right is_slash rest)) [
  | inl e ↦ rw (e, h) refl
  | inr (c, cs, e) ↦ rw (e, h) refl
]

-- The right to write to all indices is also the right to manage users and roles: a registered user with
-- a role that has a permission on `*` with `write` among its actions passes the authorisation with every
-- request to a path below `/_security/` that is not public, whose method is neither `GET` nor `HEAD`.
pub write_all-passes :
    (stored : Option RbacConfig) (user method rest : Text) (r : Rbac) (u : User) (role : Role)
    (front back : List Text) (name : Text) (before after : List Permission) (p : Permission)
    → only_reads method ≡ false
    → text_eq user [] ≡ false
    → lookup user (load_from_store stored r).users ≡ some u
    → u.roles ≡ front ++ (name ∷ back)
    → lookup name (load_from_store stored r).roles ≡ some role
    → role.permissions ≡ before ++ (p ∷ after)
    → p.index ≡ any_bytes
    → has_action p (text "write") ≡ true
    → (middleware_rbac stored false true user method (text "/_security/" ++ rest) r).1 ≡ passes
unfolding middleware_rbac check_permission
write_all-passes stored user method rest r u role front back name before after p q n e roles f perms
      i h =
    let granted : has_permission role [] (text "write") ≡ true =
      unfold has_permission in
      (ap (λ (ps : List Permission). any_permission ps [] (text "write")) perms
        ∙ any_permission_found before p after [] (text "write") (any_bytes-matches p [] i) h) in
    let some_role : any_role (load_from_store stored r).roles u.roles [] (text "write") ≡ true =
      ap (λ (ns : List Text). any_role (load_from_store stored r).roles ns [] (text "write")) roles
      ∙ any_role_found (load_from_store stored r).roles front name back role [] (text "write") f
          granted in
    ground (arith, security_asks method rest q, n, e, some_role)
