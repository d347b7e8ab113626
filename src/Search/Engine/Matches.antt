-- ===== src/Search/Engine/Matches.antt =====
-- internal/search/engine.go: what a `match` finds, by the stored documents.
use go_es.Prelude.{
  ◌≡◌, refl, Bool, false, none, some, List, [], ◌∷◌, arith, ◌||◌, Text, text_Comparable,
}
use go_es.Prelude.Sets.{contains, contains-add, add}
use go_es.Search.Value.{tokenize}
use go_es.Search.Engine.{Engine, Doc, get_source, match_docs, match_each, match_docs_tokens, union}
use go_es.Search.Engine.Postings.{posted, in_fields}
use go_es.Search.Engine.Exact.{IsExact, Reaches, Reaches-IsExact}

pub contains-union :
    (ids out : List Text) (d : Text)
    → contains d (union ids out) ≡ (contains d ids || contains d out)
unfolding union contains
contains-union [] out d = refl
contains-union (id ∷ ids) out d =
    ground (arith, contains-union ids (add id out) d, contains-add id d out)

pub contains-match_docs :
    (e : Engine) (index f tok d : Text)
    → contains d (match_docs e index f tok) ≡ posted e.inverted index f tok d
unfolding match_docs posted contains
contains-match_docs e index f tok d = ground arith

-- Whether the source has one of the terms in the field.
pub shares : Text → List Text → Doc → Bool
shares f [] doc = false
shares f (tok ∷ toks) doc = in_fields f tok doc || shares f toks doc

stored_shares : Engine → Text → Text → List Text → Text → Bool
stored_shares e i f toks d = elim (get_source e i d) [ none ↦ false | some doc ↦ shares f toks doc ]

contains-match_each :
    (e : Engine) (index f : Text) (toks out : List Text) (d : Text)
    → IsExact e
    → contains d (match_each e index f toks out)
      ≡ (stored_shares e index f toks d || contains d out)
unfolding match_each shares IsExact stored_shares
contains-match_each e index f [] out d exact = ground arith
contains-match_each e index f (tok ∷ toks) out d exact = ground (
  arith,
  contains-match_each e index f toks (union (match_docs e index f tok) out) d exact,
  contains-union (match_docs e index f tok) out d,
  contains-match_docs e index f tok d,
  exact index f tok d,
)

-- In an engine reached without indexing a stored id again, a `match` finds exactly the stored documents
-- whose source shares a term with the tokens of the query text, in the field.
pub match_docs_tokens_lem :
    (e : Engine) (index f value d : Text)
    → Reaches e
    → contains d (match_docs_tokens e index f value)
      ≡ elim (get_source e index d) [ none ↦ false | some doc ↦ shares f (tokenize value) doc ]
unfolding match_docs_tokens stored_shares contains
match_docs_tokens_lem e index f value d r =
    let found = contains-match_each e index f (tokenize value) [] d (Reaches-IsExact r) in
    ground arith
