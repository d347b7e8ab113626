-- ===== src/Server/Alias.antt =====
-- internal/server/alias.go: aliases of indices. `indices` are the names with an entry under `meta/`;
-- which calls of the store fail is an input. The code drops the errors of reads and of deletions: a list
-- that cannot be read counts as absent, and an index that cannot be looked up as unknown.
pub mod Members
mod Tests
use go_es.Prelude.{
  ℕ, Bool, true, false, not, ◌&&◌, ◌||◌, Option, none, some, List, [], ◌∷◌, ◌++◌, if◌then◌else◌,
  ◌==◌, Text, text_Comparable, text,
}
use go_es.Prelude.Maps.{Map, lookup, insert, delete}
use go_es.Prelude.Sets.{contains, remove}

pub record AliasStore : Type 0 where
  pub indices : List Text
  pub aliases : Map Text (List Text)

abbrev pub or_empty : Option (List Text) → List Text
or_empty none = []
or_empty (some list) = list

abbrev pub members : Text → AliasStore → List Text
members alias s = or_empty (lookup alias s.aliases)

pub record AliasOp : Type 0 where
  pub index : Text
  pub alias : Text
  pub exists_fails : Bool
  pub get_fails : Bool
  pub delete_fails : Bool
  pub put : Option Text

pub record AliasesAction : Type 0 where
  pub add : Option AliasOp
  pub remove : Option AliasOp

-- What `s.store.Get(AliasKey(alias), &list)` finds.
abbrev pub get_list : AliasOp → AliasStore → Option (List Text)
get_list op s = if op.get_fails then none else lookup op.alias s.aliases

-- The store after `s.store.Put(AliasKey(alias), list)`, and its error.
abbrev put_list : AliasOp → List Text → AliasStore → AliasStore × Option Text
put_list op list s = elim op.put [
  | some reason ↦ (s, some reason)
  | none ↦ (record s { aliases = insert op.alias list s.aliases }, none)
]

-- `addAlias`
unfoldable pub add_alias : AliasOp → AliasStore → AliasStore × Option Text
unfolding lookup insert contains
add_alias op s =
    let list : List Text = or_empty (get_list op s) in
    if op.index == [] || op.alias == []
    then (s, some (text "index and alias required"))
    else if op.exists_fails || not (contains op.index s.indices)
    then (s, some (text "index does not exist: " ++ op.index))
    else if contains op.index list
    then (s, none)
    else put_list op (list ++ (op.index ∷ [])) s

-- `removeAlias`
unfoldable pub remove_alias : AliasOp → AliasStore → AliasStore × Option Text
unfolding lookup insert delete remove
remove_alias op s =
    if op.index == [] || op.alias == []
    then (s, some (text "index and alias required"))
    else elim (get_list op s) [
      | none ↦ (s, none)
      | some list ↦ elim (remove op.index list) [
        | [] ↦
            (if op.delete_fails then s else record s { aliases = delete op.alias s.aliases }, none)
        | x ∷ xs ↦ put_list op (x ∷ xs) s
      ]
    ]

abbrev optionally :
    (AliasOp → AliasStore → AliasStore × Option Text)
    → Option AliasOp
    → AliasStore
    → AliasStore × Option Text
optionally f none s = (s, none)
optionally f (some op) s = f op s

-- One action: its addition, then, unless that fails, its removal.
unfoldable pub apply_action : AliasesAction → AliasStore → AliasStore × Option Text
unfolding add_alias remove_alias
apply_action act s =
    let (s', failed) = optionally add_alias act.add s in
    elim failed [ some reason ↦ (s', some reason) | none ↦ optionally remove_alias act.remove s' ]

-- The loop of `handleAliasesUpdate`; what came before an error stays done.
unfoldable pub apply_actions : List AliasesAction → AliasStore → AliasStore × Option Text
unfolding apply_action
apply_actions [] s = (s, none)
apply_actions (act ∷ acts) s =
    let (s', failed) = apply_action act s in
    let rest = apply_actions acts s' in
    elim failed [ some reason ↦ (s', some reason) | none ↦ rest ]

-- `handleAliasesUpdate`, for a body that decodes to actions, or does not.
unfoldable pub handle_aliases_update : Option (List AliasesAction) → AliasStore → AliasStore × ℕ
unfolding apply_actions
handle_aliases_update none s = (s, 400)
handle_aliases_update (some acts) s =
    let (s', failed) = apply_actions acts s in elim failed [ some _ ↦ (s', 400) | none ↦ (s', 200) ]

-- `handleAliasGetForName`: the status, and the indices that it lists.
unfoldable pub handle_alias_get : Text → AliasStore → ℕ × List Text
unfolding lookup
handle_alias_get name s =
    if name == []
    then (400, [])
    else elim (lookup name s.aliases) [ none ↦ (404, []) | some list ↦ (200, list) ]

-- `handleAliasExistsByPath`
unfoldable pub handle_alias_exists : Text → AliasStore → ℕ
unfolding lookup
handle_alias_exists name s = elim (lookup name s.aliases) [ some _ ↦ 200 | none ↦ 404 ]
