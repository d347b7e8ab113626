-- ===== src/Server/Router.antt =====
-- internal/server/router.go: the routes. A handler is a value of any type; what the router gives is
-- the handler with the route's template, which the code puts into the context. The header that every
-- answer gets is left out. The order in which Go ranges over the table is that of the list.
pub mod Lookup
mod Tests
use go_es.Prelude.{
  ℕ, zero, suc, ◌-◌, Bool, true, false, not, ◌&&◌, ◌||◌, Option, none, some, List, [], ◌∷◌, ◌++◌,
  if◌then◌else◌, leb, nat_eq, ◌==◌, Text, text_Comparable, text, length,
}
use go_es.Prelude.Maps.{Map, lookup, insert}
use go_es.Prelude.Strings.{cut, split, trim, has_prefix, has_suffix}

-- `routeEntry`
pub record RouteEntry (H : Type 0) : Type 0 where
  pub handler : H
  pub template : Text

pub record Router (H : Type 0) : Type 0 where
  pub exact : Map Text (RouteEntry H)
  pub dispatches : Bool

abbrev pub new_router : {H : Type 0} → Router H
new_router = record { exact = []; dispatches = false }

unfoldable pub join_slash : List Text → Text
join_slash [] = []
join_slash (s ∷ []) = s
join_slash (s ∷ t ∷ ts) = s ++ (47 ∷ join_slash (t ∷ ts))

-- `makeKey`
abbrev pub make_key : Text → List Text → Text
make_key method parts = method ++ (32 ∷ join_slash parts)

-- `addExact`
unfoldable pub add_exact : {H : Type 0} → Text → List Text → H → Router H → Router H
add_exact method parts h rt = record rt {
  exact =
      insert (make_key method parts) (record { handler = h; template = 47 ∷ join_slash parts })
        rt.exact;
}

-- `addIndexDispatcher`
abbrev pub add_index_dispatcher : {H : Type 0} → Router H → Router H
add_index_dispatcher rt = record rt { dispatches = true }

-- `splitKey`
unfoldable pub split_key : Text → Text × List Text
unfolding cut split
split_key key = elim (cut 32 key) [
  | none ↦ (key, [])
  | some (method, path) ↦ (method, split 47 path)
]

-- `isVar`
unfoldable pub is_var : Text → Bool
unfolding has_prefix has_suffix
is_var seg = leb 2 (length seg) && (has_prefix seg (text "{") && has_suffix seg (text "}"))

-- The segments of a route against those of a path, of the same number.
unfoldable pub parts_match : (route path : List Text) → Bool
unfolding is_var
parts_match [] [] = true
parts_match [] (p ∷ ps) = false
parts_match (k ∷ ks) [] = false
parts_match (k ∷ ks) (p ∷ ps) = (is_var k || k == p) && parts_match ks ps

unfoldable pub has_var : List Text → Bool
unfolding is_var
has_var [] = false
has_var (k ∷ ks) = is_var k || has_var ks

abbrev pub key_matches : Text → List Text → Text → Bool
key_matches method parts key = (split_key key).0 == method && parts_match (split_key key).1 parts

abbrev pub first_found : {H : Type 0} → Option (RouteEntry H) → RouteEntry H → Option (RouteEntry H)
first_found none e = some e
first_found (some best) e = some best

-- `lookup`, with the best route with a variable so far.
unfoldable pub look_up :
    {H : Type 0}
    → Text
    → List Text
    → Map Text (RouteEntry H)
    → Option (RouteEntry H)
    → Option (RouteEntry H)
unfolding split_key parts_match has_var
look_up method parts [] best = best
look_up method parts ((key, e) ∷ rest) best =
    let passed = look_up method parts rest best in
    let later = look_up method parts rest (first_found best e) in
    if not (key_matches method parts key)
    then passed
    else if has_var (split_key key).1
    then later
    else some e

pub data Routed (H : Type 0) : Type 0 where
  handled : H → (template : Text) → Routed H
  dispatched : (index : Text) → (rest : List Text) → (template : Text) → Routed H
  not_found : Routed H

abbrev found : {H : Type 0} → Option (RouteEntry H) → Routed H → Routed H
found (some e) alt = handled e.handler e.template
found none alt = alt

abbrev to_index : {H : Type 0} → Bool → List Text → Routed H
to_index false parts = not_found
to_index true [] = not_found
to_index true (index ∷ []) = dispatched index [] (text "/{index}")
to_index true (index ∷ p ∷ ps) = dispatched index (p ∷ ps) (text "/{index}/" ++ join_slash (p ∷ ps))

-- `ServeHTTP`
unfoldable pub serve_http : {H : Type 0} → Router H → (method path : Text) → Routed H
unfolding lookup trim look_up split
serve_http rt method path = elim (trim (λ c. nat_eq c 47) path) [
  | [] ↦ found (lookup (make_key method []) rt.exact) not_found
  | c ∷ cs ↦
      found (look_up method (split 47 (c ∷ cs)) rt.exact none)
        (to_index rt.dispatches (split 47 (c ∷ cs)))
]
