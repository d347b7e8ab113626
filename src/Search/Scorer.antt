-- ===== src/Search/Scorer.antt =====
-- internal/search/scorer.go: the statistics behind BM25: postings with term frequencies, document
-- lengths, and totals by field. The average length is kept as its sum, so that no float is needed.
pub mod Frequencies
use go_es.Prelude.{
  ℕ, ◌+◌, ◌-◌, Bool, true, false, Option, none, some, List, [], ◌∷◌, ◌++◌, nat_eq, if◌then◌else◌,
  ◌==◌, Text, text_Comparable, length,
}
use go_es.Prelude.Maps.{Map, lookup, insert, delete, sub}

pub record Posting : Type 0 where
  pub doc_id : Text
  pub tf : ℕ

pub record PostingList : Type 0 where
  pub postings : List Posting
  pub df : ℕ

pub record FieldStats : Type 0 where
  pub total_docs : ℕ
  pub sum_len : ℕ

pub record Scorer : Type 0 where
  pub postings : Map Text (Map Text (Map Text PostingList))
  pub field_stats : Map Text (Map Text FieldStats)
  pub field_len : Map Text (Map Text (Map Text ℕ))

abbrev pub new_scorer : Scorer
new_scorer = record { postings = []; field_stats = []; field_len = [] }

-- `tf[tok]++` over the tokens.
unfoldable pub count_tokens : List Text → Map Text ℕ → Map Text ℕ
count_tokens [] tf = tf
count_tokens (tok ∷ toks) tf =
    count_tokens toks (insert tok (elim (lookup tok tf) [ none ↦ 1 | some n ↦ n + 1 ]) tf)

unfoldable pub post : Text → Text → ℕ → Map Text PostingList → Map Text PostingList
post doc_id tok c terms =
    let p : Posting = record { doc_id = doc_id; tf = c } in
    insert tok
      (elim (lookup tok terms) [
        | none ↦ record { postings = p ∷ []; df = 1 }
        | some pl ↦ record { postings = pl.postings ++ p ∷ []; df = pl.df + 1 }
      ])
      terms

unfoldable pub post_all : Text → Map Text ℕ → Map Text PostingList → Map Text PostingList
unfolding post
post_all doc_id [] terms = terms
post_all doc_id ((tok, c) ∷ tf) terms = post_all doc_id tf (post doc_id tok c terms)

unfoldable pub terms_of : Scorer → Text → Text → Map Text PostingList
terms_of s index field = sub field (sub index s.postings)

unfoldable pub on_index_doc : Scorer → Text → Text → Text → List Text → Scorer
unfolding count_tokens post_all terms_of
on_index_doc s index field doc_id tokens = record s {
  postings =
      insert index
        (insert field (post_all doc_id (count_tokens tokens []) (terms_of s index field))
          (sub index s.postings))
        s.postings;
  field_len =
      insert index
        (insert field (insert doc_id (length tokens) (sub field (sub index s.field_len)))
          (sub index s.field_len))
        s.field_len;
}

-- Drops the first posting of the document; whether there was one.
unfoldable pub drop_posting : Text → List Posting → List Posting × Bool
drop_posting doc_id [] = ([], false)
drop_posting doc_id (p ∷ ps) =
    let (rest, found) = drop_posting doc_id ps in
    if p.doc_id == doc_id then (ps, true) else (p ∷ rest, found)

unfoldable pub without_doc : Text → PostingList → PostingList
unfolding drop_posting
without_doc doc_id pl =
    let (rest, found) = drop_posting doc_id pl.postings in
    if found then record { postings = rest; df = pl.df - 1 } else pl

unfoldable pub unpost : Text → Text → Map Text PostingList → Map Text PostingList
unfolding without_doc
unpost doc_id tok terms = elim (lookup tok terms) [
  | none ↦ terms
  | some pl ↦
      let left : PostingList = without_doc doc_id pl in
      if nat_eq left.df 0 then delete tok terms else insert tok left terms
]

unfoldable pub unpost_all : Text → Map Text ℕ → Map Text PostingList → Map Text PostingList
unfolding unpost
unpost_all doc_id [] terms = terms
unpost_all doc_id ((tok, c) ∷ tf) terms = unpost_all doc_id tf (unpost doc_id tok terms)

-- Nothing happens if the field has no postings at all.
unfoldable pub on_delete_doc : Scorer → Text → Text → Text → List Text → Scorer
unfolding count_tokens unpost_all
on_delete_doc s index field doc_id tokens = elim (lookup field (sub index s.postings)) [
  | none ↦ s
  | some terms ↦ record s {
    postings =
        insert index
          (insert field (unpost_all doc_id (count_tokens tokens []) terms) (sub index s.postings))
          s.postings;
    field_len = elim (lookup field (sub index s.field_len)) [
      | none ↦ s.field_len
      | some lens ↦
          insert index (insert field (delete doc_id lens) (sub index s.field_len)) s.field_len
    ];
  }
]

unfoldable pub on_delete_index : Scorer → Text → Scorer
on_delete_index s index = record {
  postings = delete index s.postings;
  field_stats = delete index s.field_stats;
  field_len = delete index s.field_len;
}

unfoldable pub sum_lens : Map Text ℕ → ℕ
sum_lens [] = 0
sum_lens ((doc, n) ∷ lens) = n + sum_lens lens

unfoldable pub rebuild_fields : Map Text (Map Text ℕ) → Map Text FieldStats → Map Text FieldStats
unfolding sum_lens
rebuild_fields [] stats = stats
rebuild_fields ((field, lens) ∷ fields) stats =
    rebuild_fields fields
      (insert field (record { total_docs = length lens; sum_len = sum_lens lens }) stats)

unfoldable pub rebuild_indexes :
    Map Text (Map Text (Map Text ℕ))
    → Map Text (Map Text FieldStats)
    → Map Text (Map Text FieldStats)
unfolding rebuild_fields
rebuild_indexes [] stats = stats
rebuild_indexes ((index, fields) ∷ indexes) stats =
    rebuild_indexes indexes (insert index (rebuild_fields fields (sub index stats)) stats)

unfoldable pub rebuild_field_stats : Scorer → Scorer
unfolding rebuild_indexes
rebuild_field_stats s = record s { field_stats = rebuild_indexes s.field_len s.field_stats }

unfoldable pub lookup_postings : Scorer → Text → Text → Text → Option PostingList
unfolding terms_of
lookup_postings s index field token = lookup token (terms_of s index field)

unfoldable pub field_doc_len : Scorer → Text → Text → Text → ℕ
field_doc_len s index field doc_id = elim (lookup doc_id (sub field (sub index s.field_len))) [
  | none ↦ 0
  | some n ↦ n
]
