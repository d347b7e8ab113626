-- ===== src/Search/Query/Meaning.antt =====
-- internal/search/query.go: what a query means for one document, and that its evaluation finds exactly
-- the documents for which it holds.
use go_es.Prelude.{
  ◌≡◌, refl, Bool, true, false, not, ◌&&◌, ◌||◌, Option, none, some, List, [], ◌∷◌, if◌then◌else◌,
  ◌==◌, Text, text_Comparable, text, arith, text_eq_iff, text_eq,
}
use go_es.Prelude.Sets.{contains}
use go_es.Search.Json.{
  Json, Items, Fields, null, scalar, array, object, nil, cons, end, field, present,
}
use go_es.Search.Engine.{Engine, union, all_ids}
use go_es.Search.Engine.Matches.{contains-union}
use go_es.Search.Leaves.{Result, hits, fails}
use go_es.Search.Query.{
  TextQueries, leaf_query, intersect, diff, sections, query_map, bool_at, bool_value, clauses_at,
  union_clauses, union_items, clause, eval_query_map, eval_bool, finish, apply_section, unite,
}

-- A leaf query holds of the documents that it finds.
unfoldable pub found : Result → Text → Bool
found (hits ids) d = contains d ids
found (fails reason) d = false

abbrev pub or_default : Bool → Option Bool → Bool
or_default default none = default
or_default default (some b) = b

-- Whether a document meets each section that a bool query has, given the truth of a section's clauses.
unfoldable pub meets : (Text → Option Bool) → Bool → Bool
meets at stored =
    (((stored && or_default true (at (text "must"))) && or_default true (at (text "filter")))
      && not (or_default false (at (text "must_not"))))
    && or_default true (at (text "should"))

unfoldable pub holds_first : Option Result → Option Bool → Option Json → Bool → Text → Bool
unfolding found
holds_first (some r) bool all stored d = found r d
holds_first none (some b) all stored d = b
holds_first none none (some _) stored d = stored
holds_first none none none stored d = false

unfoldable mutual
  unfolding meets holds_first

  pub bool_holds : TextQueries → Engine → Text → Fields → Text → Option Bool
  bool_holds q e index end d = none
  bool_holds q e index (field k v fields) d =
      let rest : Option Bool = bool_holds q e index fields d in
      let here : Option Bool = value_holds q e index v d in if k == text "bool" then here else rest

  pub value_holds : TextQueries → Engine → Text → Json → Text → Option Bool
  value_holds q e index (object end) d = none
  value_holds q e index (object (field k v fields)) d = some (
      meets (λ key. section_holds q e index key (field k v fields) d)
        (contains d (all_ids e index)))
  value_holds q e index _ d = none

  pub section_holds : TextQueries → Engine → Text → Text → Fields → Text → Option Bool
  section_holds q e index key end d = none
  section_holds q e index key (field k v fields) d =
      let rest : Option Bool = section_holds q e index key fields d in
      let here : Bool = any_clause q e index v d in if k == key then some here else rest

  -- One clause is enough, in every section.
  pub any_clause : TextQueries → Engine → Text → Json → Text → Bool
  any_clause q e index (array items) d = any_item q e index items d
  any_clause q e index _ d = false

  pub any_item : TextQueries → Engine → Text → Items → Text → Bool
  any_item q e index nil d = false
  any_item q e index (cons j items) d = clause_holds q e index j d || any_item q e index items d

  pub clause_holds : TextQueries → Engine → Text → Json → Text → Bool
  clause_holds q e index (object m) d =
      holds_first (leaf_query q e index m) (bool_holds q e index m d) (present (text "match_all") m)
        (contains d (all_ids e index)) d
  clause_holds q e index _ d = false

contains-intersect :
    (a b : List Text) (d : Text) → contains d (intersect a b) ≡ (contains d a && contains d b)
unfolding intersect contains
contains-intersect [] b d = refl
contains-intersect (k ∷ a) b d = ground (arith, text_eq_iff k d, contains-intersect a b d)

contains-diff :
    (a b : List Text) (d : Text) → contains d (diff a b) ≡ (contains d a && not (contains d b))
unfolding diff contains
contains-diff [] b d = refl
contains-diff (k ∷ a) b d = ground (arith, text_eq_iff k d, contains-diff a b d)

-- A result, if it is one, is as the truth value says.
pub Agrees : Result → Bool → Text → Type 0
Agrees r b d = (ids : List Text) → r ≡ hits ids → contains d ids ≡ b

-- The same for what may be absent.
pub AgreesMaybe : Option Result → Option Bool → Text → Type 0
AgreesMaybe none none d = Unit {0}
AgreesMaybe (some r) (some b) d = Agrees r b d
AgreesMaybe none (some b) d = ⊥
AgreesMaybe (some r) none d = ⊥

unite-Agrees :
    (r s : Result) (b c : Bool) (d : Text)
    → Agrees r b d
    → Agrees s c d
    → Agrees (unite r s) (b || c) d
unfolding Agrees
unite-Agrees (fails reason) s b c d p q ids h = cc
unite-Agrees (hits xs) (fails reason) b c d p q ids h = cc
unite-Agrees (hits xs) (hits ys) b c d p q ids h =
    let first = p xs refl in
    let rest = q ys refl in let both = contains-union xs ys d in ground arith

intersect-Agrees :
    (o : Option Result) (t : Option Bool) (r : Result) (b : Bool) (d : Text)
    → AgreesMaybe o t d
    → Agrees r b d
    → Agrees (apply_section intersect o r) (b && or_default true t) d
unfolding Agrees AgreesMaybe
intersect-Agrees none none (hits xs) b d p q ids h = let same = q ids h in ground arith
intersect-Agrees (some (hits ys)) (some c) (hits xs) b d p q ids h =
    let set = p ys refl in
    let out = q xs refl in let both = contains-intersect xs ys d in ground arith
intersect-Agrees (some (fails reason)) (some c) (hits xs) b d p q ids h = cc
intersect-Agrees o t (fails reason) b d p q ids h = cc
intersect-Agrees none (some c) r b d p q ids h = absurd p
intersect-Agrees (some s) none r b d p q ids h = absurd p

diff-Agrees :
    (o : Option Result) (t : Option Bool) (r : Result) (b : Bool) (d : Text)
    → AgreesMaybe o t d
    → Agrees r b d
    → Agrees (apply_section diff o r) (b && not (or_default false t)) d
unfolding Agrees AgreesMaybe
diff-Agrees none none (hits xs) b d p q ids h = let same = q ids h in ground arith
diff-Agrees (some (hits ys)) (some c) (hits xs) b d p q ids h =
    let set = p ys refl in let out = q xs refl in let both = contains-diff xs ys d in ground arith
diff-Agrees (some (fails reason)) (some c) (hits xs) b d p q ids h = cc
diff-Agrees o t (fails reason) b d p q ids h = cc
diff-Agrees none (some c) r b d p q ids h = absurd p
diff-Agrees (some s) none r b d p q ids h = absurd p

hits-Agrees : (ids : List Text) (d : Text) → Agrees (hits ids) (contains d ids) d
unfolding Agrees
hits-Agrees xs d ids h = ground arith

none-Agrees : (d : Text) → Agrees (hits []) false d
unfolding contains
none-Agrees d = hits-Agrees [] d

sections-Agrees :
    (at : Text → Option Result) (at' : Text → Option Bool) (ids : List Text) (d : Text)
    → ((key : Text) → AgreesMaybe (at key) (at' key) d)
    → Agrees (sections at ids) (meets at' (contains d ids)) d
unfolding sections meets
sections-Agrees at at' ids d p = intersect-Agrees _ _ _ _ d (p (text "should")) (
    diff-Agrees _ _ _ _ d (p (text "must_not")) (
      intersect-Agrees _ _ _ _ d (p (text "filter"))
        (intersect-Agrees _ _ _ _ d (p (text "must")) (hits-Agrees ids d))))

finish-Agrees :
    (leaf : Option Result) (bool : Option Result) (b : Option Bool) (all : Option Json)
    (ids : List Text) (d : Text)
    → AgreesMaybe bool b d
    → Agrees (finish leaf bool all ids) (holds_first leaf b all (contains d ids) d) d
unfolding Agrees AgreesMaybe holds_first found contains
finish-Agrees (some r) bool b all ids d p xs h = rw (h) refl
finish-Agrees none (some r) (some b) all ids d p xs h = p xs h
finish-Agrees none none none (some j) ids d p xs h = ground arith
finish-Agrees none none none none ids d p xs h = ground arith
finish-Agrees none none (some b) all ids d p xs h = absurd p
finish-Agrees none (some r) none all ids d p xs h = absurd p

pick_maybe :
    (c : Bool) (a b : Option Result) (s t : Option Bool) (d : Text)
    → AgreesMaybe a s d
    → AgreesMaybe b t d
    → AgreesMaybe (if c then a else b) (if c then s else t) d
pick_maybe true a b s t d p q = p
pick_maybe false a b s t d p q = q

pick_some :
    (c : Bool) (r : Result) (b : Option Result) (s : Bool) (t : Option Bool) (d : Text)
    → Agrees r s d
    → AgreesMaybe b t d
    → AgreesMaybe (if c then some r else b) (if c then some s else t) d
unfolding AgreesMaybe
pick_some true r b s t d p q = p
pick_some false r b s t d p q = q

mutual
  unfolding bool_at bool_holds AgreesMaybe query_map

  bool_at-Agrees :
      (q : TextQueries) (e : Engine) (index : Text) (m : Fields) (d : Text)
      → AgreesMaybe (bool_at q e index m) (bool_holds q e index m d) d
  bool_at-Agrees q e index end d = tt
  bool_at-Agrees q e index (field k v fields) d =
      pick_maybe (k == text "bool") _ _ _ _ d (bool_value-Agrees q e index v d)
        (bool_at-Agrees q e index fields d)

  bool_value-Agrees :
      (q : TextQueries) (e : Engine) (index : Text) (v : Json) (d : Text)
      → AgreesMaybe (bool_value q e index v) (value_holds q e index v d) d
  bool_value-Agrees q e index (object end) d = tt
  bool_value-Agrees q e index (object (field k v fields)) d =
      sections-Agrees (λ key. clauses_at q e index key (field k v fields))
        (λ key. section_holds q e index key (field k v fields) d) (all_ids e index) d
        (λ key. clauses_at-Agrees q e index key (field k v fields) d)
  bool_value-Agrees q e index null d = tt
  bool_value-Agrees q e index (scalar v) d = tt
  bool_value-Agrees q e index (array items) d = tt

  clauses_at-Agrees :
      (q : TextQueries) (e : Engine) (index key : Text) (m : Fields) (d : Text)
      → AgreesMaybe (clauses_at q e index key m) (section_holds q e index key m d) d
  clauses_at-Agrees q e index key end d = tt
  clauses_at-Agrees q e index key (field k v fields) d =
      pick_some (k == key) _ _ _ _ d (union_clauses-Agrees q e index v d)
        (clauses_at-Agrees q e index key fields d)

  union_clauses-Agrees :
      (q : TextQueries) (e : Engine) (index : Text) (v : Json) (d : Text)
      → Agrees (union_clauses q e index v) (any_clause q e index v d) d
  union_clauses-Agrees q e index (array items) d = union_items-Agrees q e index items d
  union_clauses-Agrees q e index null d = none-Agrees d
  union_clauses-Agrees q e index (scalar v) d = none-Agrees d
  union_clauses-Agrees q e index (object m) d = none-Agrees d

  union_items-Agrees :
      (q : TextQueries) (e : Engine) (index : Text) (items : Items) (d : Text)
      → Agrees (union_items q e index items) (any_item q e index items d) d
  union_items-Agrees q e index nil d = none-Agrees d
  union_items-Agrees q e index (cons j items) d =
      unite-Agrees (clause q e index j) (union_items q e index items) (clause_holds q e index j d)
        (any_item q e index items d) d (clause-Agrees q e index j d)
        (union_items-Agrees q e index items d)

  clause-Agrees :
      (q : TextQueries) (e : Engine) (index : Text) (j : Json) (d : Text)
      → Agrees (clause q e index j) (clause_holds q e index j d) d
  clause-Agrees q e index (object m) d =
      finish-Agrees (leaf_query q e index m) (bool_at q e index m) (bool_holds q e index m d)
        (present (text "match_all") m) (all_ids e index) d (bool_at-Agrees q e index m d)
  clause-Agrees q e index null d = none-Agrees d
  clause-Agrees q e index (scalar v) d = none-Agrees d
  clause-Agrees q e index (array items) d = none-Agrees d

-- A bool query that evaluates without an error finds a document exactly when it is stored and meets the
-- sections that are there: `must`, `filter` and `should` hold when one of their clauses does, and
-- `must_not` when none does. Clauses are read the same way, to any depth.
pub eval_bool_lem :
    (q : TextQueries) (e : Engine) (index : Text) (b : Fields) (ids : List Text) (d : Text)
    → eval_bool q e index b ≡ hits ids
    → contains d ids ≡ meets (λ key. section_holds q e index key b d) (contains d (all_ids e index))
unfolding eval_bool Agrees
eval_bool_lem q e index b ids d h =
    sections-Agrees (λ key. clauses_at q e index key b) (λ key. section_holds q e index key b d)
      (all_ids e index) d (λ key. clauses_at-Agrees q e index key b d) ids h

eval_bool_must :
    (q : TextQueries) (e : Engine) (index : Text) (m n : Fields) (xs ys : List Text)
    → eval_query_map q e index m ≡ hits xs
    → eval_query_map q e index n ≡ hits ys
    → eval_bool q e index (field (text "must") (array (cons (object m) (cons (object n) nil))) end)
      ≡ hits (intersect (all_ids e index) (union xs (union ys [])))
unfolding eval_query_map eval_bool sections clauses_at text_eq
eval_bool_must q e index m n xs ys p r = λ i. apply_section intersect none (
    apply_section diff none (
      apply_section intersect none (
        apply_section intersect (some (unite (p i) (unite (r i) (hits []))))
          (hits (all_ids e index)))))

-- A `must` section with two clauses holds where one of them does: if the clauses and the bool
-- query evaluate without an error, the documents found are the stored ones that either clause
-- finds.
pub must_is_union :
    (q : TextQueries) (e : Engine) (index : Text) (m n : Fields) (xs ys ids : List Text) (d : Text)
    → eval_query_map q e index m ≡ hits xs
    → eval_query_map q e index n ≡ hits ys
    → eval_bool q e index (field (text "must") (array (cons (object m) (cons (object n) nil))) end)
      ≡ hits ids
    → contains d ids ≡ (contains d (all_ids e index) && (contains d xs || contains d ys))
unfolding eval_query_map contains
must_is_union q e index m n xs ys ids d p r h =
    let evaluated = eval_bool_must q e index m n xs ys p r in
    let inside = contains-intersect (all_ids e index) (union xs (union ys [])) d in
    let either = contains-union xs (union ys []) d in
    let second = contains-union ys [] d in ground arith
