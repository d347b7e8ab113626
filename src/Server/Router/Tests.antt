-- ===== src/Server/Router/Tests.antt =====
-- internal/server/router.go: a table with a route that has a variable and one that has none.
use go_es.Prelude.{ℕ, ◌≡◌, refl, text, text_eq, some, none, [], ◌∷◌}
use go_es.Server.Router.{
  Router, new_router, add_exact, add_index_dispatcher, has_var, look_up, join_slash, serve_http,
  handled, dispatched,
}
use go_es.Prelude.Maps.{insert}
use go_es.Prelude.Strings.{count_byte}
use go_es.Server.Router.Lookup.{look_up-add_exact}

abbrev table : Router ℕ
table =
    add_exact (text "GET") (text "_alias" ∷ text "{name}" ∷ []) 1 (add_index_dispatcher new_router)

look_up-add_exact_example :
    look_up
      (text "GET")
      (text "_alias" ∷ text "_mapping" ∷ [])
      (add_exact (text "GET") (text "_alias" ∷ text "_mapping" ∷ []) 2 table).exact
      none
    ≡ some
        (record { handler = 2; template = 47 ∷ join_slash (text "_alias" ∷ text "_mapping" ∷ []) })
unfolding count_byte has_var
look_up-add_exact_example =
    look_up-add_exact (text "GET") (text "_alias") (text "_mapping" ∷ []) 2 table refl
      (refl, (refl, tt)) refl

by_variable :
    serve_http table (text "GET") (text "/_alias/books/") ≡ handled 1 (text "/_alias/{name}")
unfolding serve_http add_exact join_slash text_eq insert
by_variable = refl

by_index :
    serve_http table (text "POST") (text "/books/_search")
    ≡ dispatched (text "books") (text "_search" ∷ []) (text "/{index}/_search")
unfolding serve_http add_exact join_slash text_eq insert
by_index = refl
