-- ===== src/Server/Alias/Tests.antt =====
-- internal/server/alias.go: runs of concrete updates.
use go_es.Prelude.{text_Comparable, none, some, [], ◌∷◌, text, false}
use go_es.Prelude.Maps.{lookup}
use go_es.Server.Alias.{AliasStore, AliasOp, handle_aliases_update}
use go_es.Server.Alias.Members.{IsValid, handle_aliases_update-IsValid}

abbrev store : AliasStore
store = record { indices = text "a" ∷ text "b" ∷ []; aliases = [] }

abbrev op : AliasOp
op = record {
  index = text "a";
  alias = text "all";
  exists_fails = false;
  get_fails = false;
  delete_fails = false;
  put = none;
}

store-IsValid : IsValid store
unfolding IsValid lookup
store-IsValid alias = tt

handle_aliases_update-IsValid_example :
    IsValid
      (handle_aliases_update
        (some
          (record { add = some op; remove = none } ∷ record { add = none; remove = some op } ∷ []))
        store).0
handle_aliases_update-IsValid_example =
    handle_aliases_update-IsValid
      (some
        (record { add = some op; remove = none } ∷ record { add = none; remove = some op } ∷ []))
      store store-IsValid
