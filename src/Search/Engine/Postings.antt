-- ===== src/Search/Engine/Postings.antt =====
-- internal/search/engine.go: what each operation does to the posting sets.
use go_es.Prelude.{
  ◌≡◌, refl, inl, inr, Bool, false, not, ◌&&◌, ◌||◌, none, some, List, [], ◌∷◌, arith,
  if◌then◌else◌, ◌==◌, Text, text_Comparable, text_eq_iff, Option-cases,
}
use go_es.Prelude.Maps.{lookup, insert, sub, lookup-insert, lookup-delete, sub-insert}
use go_es.Prelude.Sets.{contains, add, remove, contains-add, contains-remove}
use go_es.Search.Value.{Value}
use go_es.Search.Engine.{
  Engine, Doc, Terms, Inverted, terms_of, file_terms, index_field, sort_field, index_fields,
  index_doc, with_index, unfile_term, unfile_terms, unindex_field, unindex_fields, get_source,
  delete_doc, forget,
}

-- Whether the document is in the set of the term.
abbrev pub filed : Text → Text → Terms → Bool
filed tok id terms = elim (lookup tok terms) [ none ↦ false | some ids ↦ contains id ids ]

-- The same in the engine, for an index and a field.
unfoldable pub posted : Inverted → Text → Text → Text → Text → Bool
posted inv index field tok id = filed tok id (sub field (sub index inv))

-- Whether the document has the field with a value that is filed under the term.
pub in_fields : Text → Text → Doc → Bool
in_fields field tok [] = false
in_fields field tok ((f, raw) ∷ fields) =
    (f == field && contains tok (terms_of raw)) || in_fields field tok fields

filed-file_terms :
    (id : Text) (toks : List Text) (terms : Terms) (tok d : Text)
    → filed tok d (file_terms id toks terms) ≡ (filed tok d terms || (id == d && contains tok toks))
unfolding file_terms contains
filed-file_terms id [] terms tok d = ground arith
filed-file_terms id (t ∷ toks) terms tok d = ground (
  arith,
  text_eq_iff t tok,
  filed-file_terms id toks
      (insert t (add id (elim (lookup t terms) [ none ↦ [] | some ids ↦ ids ])) terms) tok d,
  lookup-insert t tok (add id (elim (lookup t terms) [ none ↦ [] | some ids ↦ ids ])) terms,
  contains-add id d (elim (lookup t terms) [ none ↦ [] | some ids ↦ ids ]),
)

filed-unfile_term :
    (id t : Text) (terms : Terms) (tok d : Text)
    → filed tok d (unfile_term id t terms) ≡ (filed tok d terms && not (id == d && t == tok))
unfolding unfile_term contains
filed-unfile_term id t terms tok d = elim (Option-cases (lookup t terms)) [
  | inl e ↦ ground (arith, text_eq_iff t tok)
  | inr (ids, e) ↦ go ids (remove id ids) e refl
]
  where
    go :
        (ids rest : List Text)
        → lookup t terms ≡ some ids
        → remove id ids ≡ rest
        → filed tok d (unfile_term id t terms) ≡ (filed tok d terms && not (id == d && t == tok))
    go ids [] e r =
        ground (arith, text_eq_iff t tok, lookup-delete t tok terms, contains-remove id d ids)
    go ids (x ∷ rest) e r =
        ground
          (arith, text_eq_iff t tok, lookup-insert t tok (x ∷ rest) terms, contains-remove id d ids)

filed-unfile_terms :
    (id : Text) (toks : List Text) (terms : Terms) (tok d : Text)
    → filed tok d (unfile_terms id toks terms)
      ≡ (filed tok d terms && not (id == d && contains tok toks))
unfolding unfile_terms contains
filed-unfile_terms id [] terms tok d = ground arith
filed-unfile_terms id (t ∷ toks) terms tok d = ground (
  arith,
  filed-unfile_terms id toks (unfile_term id t terms) tok d,
  filed-unfile_term id t terms tok d,
)

-- A field's terms are replaced.
posted-insert :
    (inv : Inverted) (index field : Text) (terms : Terms) (i f tok d : Text)
    → posted (insert index (insert field terms (sub index inv)) inv) i f tok d
      ≡ (if index == i && field == f then filed tok d terms else posted inv i f tok d)
unfolding posted
posted-insert inv index field terms i f tok d = ground (
  arith,
  text_eq_iff index i,
  text_eq_iff field f,
  sub-insert index i (insert field terms (sub index inv)) inv,
  sub-insert field f terms (sub index inv),
)

posted-index_field :
    (index id field : Text) (raw : Value) (e : Engine) (i f tok d : Text)
    → posted (index_field index id field raw e).inverted i f tok d ≡ (
        posted e.inverted i f tok d
        || ((index == i && id == d) && (field == f && contains tok (terms_of raw))))
unfolding index_field posted
posted-index_field index id field raw e i f tok d = ground (
  arith,
  text_eq_iff index i,
  text_eq_iff field f,
  posted-insert e.inverted index field
      (file_terms id (terms_of raw) (sub field (sub index e.inverted))) i f tok d,
  filed-file_terms id (terms_of raw) (sub field (sub index e.inverted)) tok d,
)

sort_field-inverted :
    (index id field : Text) (raw : Value) (e : Engine)
    → (sort_field index id field raw e).inverted ≡ e.inverted
unfolding sort_field
sort_field-inverted index id field raw e = ground arith

pub posted-index_fields :
    (index id : Text) (doc : Doc) (e : Engine) (i f tok d : Text)
    → posted (index_fields index id doc e).inverted i f tok d
      ≡ (posted e.inverted i f tok d || ((index == i && id == d) && in_fields f tok doc))
unfolding index_fields in_fields
posted-index_fields index id [] e i f tok d = ground arith
posted-index_fields index id ((field, raw) ∷ fields) e i f tok d =
    let filed_first = posted-index_field index id field raw e i f tok d in
    let sorted_first = sort_field-inverted index id field raw (index_field index id field raw e) in
    let rest =
      posted-index_fields index id fields
        (sort_field index id field raw (index_field index id field raw e)) i f tok d in
    ground arith

pub posted-with_index :
    (index : Text) (inv : Inverted) (i f tok d : Text)
    → posted (with_index index inv) i f tok d ≡ posted inv i f tok d
unfolding posted
posted-with_index index inv i f tok d =
    ground (arith, text_eq_iff index i, sub-insert index i (sub index inv) inv)

pub posted-index_doc :
    (index id : Text) (doc : Doc) (e : Engine) (i f tok d : Text)
    → posted (index_doc index id doc e).inverted i f tok d
      ≡ (posted e.inverted i f tok d || ((index == i && id == d) && in_fields f tok doc))
unfolding index_doc
posted-index_doc index id doc e i f tok d =
    let opened = posted-with_index index e.inverted i f tok d in
    let fields =
      posted-index_fields index id doc
        (record e {
          docs = insert index (insert id doc (sub index e.docs)) e.docs;
          inverted = with_index index e.inverted;
        })
        i f tok d in
    ground arith

unposted :
    (inv : Inverted) (index field tok d : Text)
    → lookup field (sub index inv) ≡ none
    → posted inv index field tok d ≡ false
unfolding posted sub lookup
unposted inv index field tok d h = ground arith

posted_found :
    (inv : Inverted) (index field : Text) (terms : Terms) (tok d : Text)
    → lookup field (sub index inv) ≡ some terms
    → posted inv index field tok d ≡ filed tok d terms
unfolding posted sub
posted_found inv index field terms tok d h = ground arith

posted-unindex_field :
    (index id field : Text) (raw : Value) (e : Engine) (i f tok d : Text)
    → posted (unindex_field index id field raw e).inverted i f tok d ≡ (
        posted e.inverted i f tok d
        && not ((index == i && id == d) && (field == f && contains tok (terms_of raw))))
unfolding unindex_field posted
posted-unindex_field index id field raw e i f tok d =
    elim (Option-cases (lookup field (sub index e.inverted))) [
      | inl h ↦
          ground (
            arith,
            text_eq_iff index i,
            text_eq_iff field f,
            unposted e.inverted index field tok d h,
          )
      | inr (terms, h) ↦ ground (
        arith,
        text_eq_iff index i,
        text_eq_iff field f,
        posted-insert e.inverted index field (unfile_terms id (terms_of raw) terms) i f tok d,
        filed-unfile_terms id (terms_of raw) terms tok d,
        posted_found e.inverted index field terms tok d h,
      )
    ]

pub posted-unindex_fields :
    (index id : Text) (doc : Doc) (e : Engine) (i f tok d : Text)
    → posted (unindex_fields index id doc e).inverted i f tok d
      ≡ (posted e.inverted i f tok d && not ((index == i && id == d) && in_fields f tok doc))
unfolding unindex_fields in_fields
posted-unindex_fields index id [] e i f tok d = ground arith
posted-unindex_fields index id ((field, raw) ∷ fields) e i f tok d =
    let first = posted-unindex_field index id field raw e i f tok d in
    let rest =
      posted-unindex_fields index id fields (unindex_field index id field raw e) i f tok d in
    ground arith

pub posted-delete_doc :
    (index id : Text) (doc : Doc) (e : Engine) (i f tok d : Text)
    → get_source e index id ≡ some doc
    → posted (delete_doc index id e).inverted i f tok d
      ≡ (posted e.inverted i f tok d && not ((index == i && id == d) && in_fields f tok doc))
unfolding delete_doc forget
posted-delete_doc index id doc e i f tok d h =
    let fields = posted-unindex_fields index id doc e i f tok d in ground arith
