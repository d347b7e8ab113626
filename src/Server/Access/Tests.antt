-- ===== src/Server/Access/Tests.antt =====
-- internal/server/rbac.go: runs with concrete users and roles.
use go_es.Prelude.{
  text_Comparable, ◌≡◌, refl, true, false, some, [], ◌∷◌, ◌++◌, text_eq, text_eq_iff, Text, text,
  List, arith,
}
use go_es.Prelude.Maps.{Map, lookup, insert}
use go_es.Prelude.Sets.{contains}
use go_es.Prelude.Strings.{has_prefix, count_byte}
use go_es.Server.Access.{
  RbacConfig, Role, User, new_rbac, on_all, any_bytes, load_from_store, check_permission,
  matches_index, middleware_rbac, passes, any_role, request_action, has_action, covers,
}
use go_es.Server.Pattern.{single_star}
use go_es.Server.Access.Handlers.{handle_delete_user}
use go_es.Server.Access.Permissions.{SecurityCall, BatchBody, deletes_role, changes_many, run}
use go_es.Server.Access.Builtin.{run-builtin, HasBuiltins, IsNamed}
use go_es.Server.Access.Matching.{on, matches_index-overlap}
use go_es.Server.Access.Decision.{delete_user-grants, write_all-passes}

abbrev stored : RbacConfig
stored = record {
  users =
      some (
        (text "ann", record { name = text "ann"; password_hash = []; roles = text "w" ∷ [] }) ∷ []);
  roles = some ((text "w", on_all (text "w") (text "write" ∷ [])) ∷ []);
}

abbrev users : Map Text User
users = (text "ann", record { name = text "ann"; password_hash = []; roles = text "w" ∷ [] }) ∷ []

abbrev roles : Map Text Role
roles = (text "w", on_all (text "w") (text "write" ∷ [])) ∷ []

roles-IsNamed : IsNamed roles
unfolding lookup
roles-IsNamed key role h = ground (arith, h, text_eq_iff (text "w") key)

abbrev batch : BatchBody
batch = record {
  action = text "delete";
  permissions =
      record {
        name = text "all";
        permission = record { index = any_bytes; actions = text "monitor" ∷ [] };
      }
      ∷ [];
  roles = [];
  target_roles = [];
  permission = record { index = []; actions = [] };
}

abbrev calls : List SecurityCall
calls = deletes_role false (text "DELETE") (text "admin") ∷ changes_many (some batch) ∷ []

run-builtin_example :
    HasBuiltins
      (run
        (λ s. s)
        (some (record { users = some users; roles = some roles }))
        calls
        (load_from_store (some (record { users = some users; roles = some roles })) new_rbac)).roles
    × ((names : List Text) (index action : Text)
        → contains (text "superuser") names ≡ true
        → any_role
            (run
              (λ s. s)
              (some (record { users = some users; roles = some roles }))
              calls
              (load_from_store
                (some (record { users = some users; roles = some roles }))
                new_rbac)).roles
            names
            index
            action
          ≡ true)
run-builtin_example = run-builtin (λ s. s) users roles calls roles-IsNamed

-- A batch takes the permissions of the built-in role `monitor` away.
monitor_emptied :
    lookup
      (text "monitor")
      (run
        (λ s. s)
        (some (record { users = some users; roles = some roles }))
        calls
        (load_from_store (some (record { users = some users; roles = some roles })) new_rbac)).roles
    ≡ some (record { name = text "monitor"; permissions = [] })
unfolding run load_from_store text_eq insert
monitor_emptied = refl

-- The pattern `ab*ba` and the name `aba`.
matches_index-overlap_example :
    (matches_index
        (on ((text "a" ++ text "b") ++ (42 ∷ (text "b" ++ text "a"))))
        (text "a" ++ (text "b" ++ text "a"))
      ≡ true)
    × (single_star
          (text "a" ++ text "b")
          (text "b" ++ text "a")
          (text "a" ++ (text "b" ++ text "a"))
        ≡ false)
unfolding count_byte
matches_index-overlap_example =
    matches_index-overlap (text "a") (text "b") (text "a") (omega arith) refl refl

delete_user-grants_example :
    check_permission
      (handle_delete_user (some stored) false (text "DELETE") (text "ann") new_rbac).0
      (text "ann")
      (text "books")
      (text "admin")
    ≡ true
unfolding text_eq
delete_user-grants_example =
    delete_user-grants (some stored) false (text "ann") (text "books") (text "admin") new_rbac refl

write_all-passes_example :
    (middleware_rbac
      (some stored)
      false
      true
      (text "ann")
      (text "PUT")
      (text "/_security/user/eve")
      new_rbac).1
    ≡ passes
unfolding text_eq request_action load_from_store lookup has_action covers has_prefix
write_all-passes_example =
    write_all-passes (some stored) (text "ann") (text "PUT") (text "user/eve") new_rbac
      (record { name = text "ann"; password_hash = []; roles = text "w" ∷ [] })
      (on_all (text "w") (text "write" ∷ [])) [] [] (text "w") [] []
      (record { index = any_bytes; actions = text "write" ∷ [] }) refl refl refl refl refl refl refl
      refl
