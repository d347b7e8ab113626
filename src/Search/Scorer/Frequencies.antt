-- ===== src/Search/Scorer/Frequencies.antt =====
-- internal/search/scorer.go: the document frequency of a term counts its postings.
use go_es.Prelude.{
  ℕ, ◌+◌, ◌<◌, ◌≡◌, refl, inl, inr, Bool, true, false, Option, none, some, List, [], ◌∷◌, ◌++◌,
  arith, ◌==◌, Text, text_Comparable, text_eq_iff, length, length-append, if◌then◌else◌,
  Option-cases, ◌&&◌, subst, sym, Bool-cases, nat_eq,
}
use go_es.Prelude.Maps.{Map, lookup, insert, delete, sub, lookup-insert, lookup-delete, sub-insert}
use go_es.Search.Scorer.{
  Posting, PostingList, Scorer, new_scorer, count_tokens, post, post_all, terms_of, on_index_doc,
  drop_posting, without_doc, unpost, unpost_all, on_delete_doc, on_delete_index,
}

-- A posting list that is there has postings, as many as it counts.
abbrev pub Counts : Option PostingList → Type 0
Counts none = Unit
Counts (some pl) = (pl.df ≡ length pl.postings) × (0 < pl.df)

pub AllCounted : Map Text PostingList → Type 0
AllCounted terms = (tok : Text) → Counts (lookup tok terms)

pub IsCounted : Scorer → Type 0
IsCounted s = (index field : Text) → AllCounted (terms_of s index field)

Counts-insert :
    (tok t : Text) (pl : PostingList) (terms terms' : Map Text PostingList)
    → terms' ≡ insert tok pl terms
    → Counts (some pl)
    → Counts (lookup t terms)
    → Counts (lookup t terms')
Counts-insert tok t pl terms terms' e new old =
    subst (λ m. Counts (lookup t m)) (sym e)
      (subst Counts (sym (lookup-insert tok t pl terms)) (pick (tok == t) new old))
  where
    pick :
        (c : Bool)
        → Counts (some pl)
        → Counts (lookup t terms)
        → Counts (if c then some pl else lookup t terms)
    pick true new old = new
    pick false new old = old

Counts-delete :
    (tok t : Text) (terms terms' : Map Text PostingList)
    → terms' ≡ delete tok terms
    → Counts (lookup t terms)
    → Counts (lookup t terms')
Counts-delete tok t terms terms' e old =
    subst (λ m. Counts (lookup t m)) (sym e)
      (subst Counts (sym (lookup-delete tok t terms)) (pick (tok == t) old))
  where
    pick : (c : Bool) → Counts (lookup t terms) → Counts (if c then none else lookup t terms)
    pick true old = tt
    pick false old = old

post-AllCounted :
    (d tok : Text) (c : ℕ) (terms : Map Text PostingList)
    → AllCounted terms
    → AllCounted (post d tok c terms)
unfolding AllCounted post
post-AllCounted d tok c terms h t = elim (Option-cases (lookup tok terms)) [
  | inl e ↦
      Counts-insert tok t (record { postings = record { doc_id = d; tf = c } ∷ []; df = 1 }) terms
        (post d tok c terms) (ground arith) (refl, omega arith) (h t)
  | inr (pl, e) ↦
      let counted = subst Counts e (h tok) in
      Counts-insert tok t
        (record { postings = pl.postings ++ record { doc_id = d; tf = c } ∷ []; df = pl.df + 1 })
        terms (post d tok c terms) (ground arith)
        (
          omega (arith, counted.0, length-append pl.postings (record { doc_id = d; tf = c } ∷ [])),
          omega arith,
        )
        (h t)
]

post_all-AllCounted :
    (d : Text) (tf : Map Text ℕ) (terms : Map Text PostingList)
    → AllCounted terms
    → AllCounted (post_all d tf terms)
unfolding post_all
post_all-AllCounted d [] terms h = h
post_all-AllCounted d ((tok, c) ∷ tf) terms h =
    post_all-AllCounted d tf (post d tok c terms) (post-AllCounted d tok c terms h)

length-drop_posting :
    (d : Text) (ps : List Posting)
    → (if (drop_posting d ps).1 then length (drop_posting d ps).0 + 1 else length ps) ≡ length ps
unfolding drop_posting
length-drop_posting d [] = refl
length-drop_posting d (p ∷ ps) = ground (arith, length-drop_posting d ps)

without_doc-counts :
    (d : Text) (pl : PostingList)
    → pl.df ≡ length pl.postings
    → (without_doc d pl).df ≡ length (without_doc d pl).postings
unfolding without_doc
without_doc-counts d pl h = ground (arith, length-drop_posting d pl.postings)

unpost-AllCounted :
    (d tok : Text) (terms : Map Text PostingList)
    → AllCounted terms
    → AllCounted (unpost d tok terms)
unfolding AllCounted unpost
unpost-AllCounted d tok terms h t = elim (Option-cases (lookup tok terms)) [
  | inl e ↦ subst (λ m. Counts (lookup t m)) (sym (untouched e)) (h t)
  | inr (pl, e) ↦
      let counted = subst Counts e (h tok) in
      let left = without_doc-counts d pl counted.0 in
      elim (Bool-cases (nat_eq (without_doc d pl).df 0)) [
        | inl gone ↦ Counts-delete tok t terms (unpost d tok terms) (ground arith) (h t)
        | inr stays ↦
            Counts-insert tok t (without_doc d pl) terms (unpost d tok terms) (ground arith)
              (left, ground arith) (h t)
      ]
]
  where
    untouched : lookup tok terms ≡ none → unpost d tok terms ≡ terms
    untouched e = ground arith

unpost_all-AllCounted :
    (d : Text) (tf : Map Text ℕ) (terms : Map Text PostingList)
    → AllCounted terms
    → AllCounted (unpost_all d tf terms)
unfolding unpost_all
unpost_all-AllCounted d [] terms h = h
unpost_all-AllCounted d ((tok, c) ∷ tf) terms h =
    unpost_all-AllCounted d tf (unpost d tok terms) (unpost-AllCounted d tok terms h)

-- A call on the scorer by the engine.
pub data Call : Type 0 where
  posts : (index field doc_id : Text) (tokens : List Text) → Call
  unposts : (index field doc_id : Text) (tokens : List Text) → Call
  drops : Text → Call

pub step : Scorer → Call → Scorer
step s (posts index field d toks) = on_index_doc s index field d toks
step s (unposts index field d toks) = on_delete_doc s index field d toks
step s (drops index) = on_delete_index s index

pub run : Scorer → List Call → Scorer
run s [] = s
run s (call ∷ calls) = run (step s call) calls

-- The terms of every field after a call.
terms_of-insert :
    (s : Scorer) (index field : Text) (terms : Map Text PostingList) (t : Scorer) (i f : Text)
    → t.postings ≡ insert index (insert field terms (sub index s.postings)) s.postings
    → terms_of t i f ≡ (if index == i && field == f then terms else terms_of s i f)
unfolding terms_of
terms_of-insert s index field terms t i f h = ground (
  arith,
  text_eq_iff index i,
  text_eq_iff field f,
  sub-insert index i (insert field terms (sub index s.postings)) s.postings,
  sub-insert field f terms (sub index s.postings),
)

AllCounted-either :
    (c : Bool) (x a b : Map Text PostingList)
    → x ≡ (if c then a else b)
    → AllCounted a
    → AllCounted b
    → AllCounted x
AllCounted-either true x a b e p q = subst AllCounted (sym e) p
AllCounted-either false x a b e p q = subst AllCounted (sym e) q

empty-AllCounted : AllCounted []
unfolding AllCounted lookup
empty-AllCounted tok = tt

unpost_all-empty : (d : Text) (tf : Map Text ℕ) → unpost_all d tf [] ≡ []
unfolding unpost_all unpost lookup
unpost_all-empty d [] = refl
unpost_all-empty d ((tok, c) ∷ tf) = unpost_all-empty d tf

terms_of_missing :
    (s : Scorer) (index field : Text)
    → lookup field (sub index s.postings) ≡ none
    → terms_of s index field ≡ []
unfolding terms_of sub
terms_of_missing s index field e = ground arith

terms_of_found :
    (s : Scorer) (index field : Text) (terms : Map Text PostingList)
    → lookup field (sub index s.postings) ≡ some terms
    → terms_of s index field ≡ terms
unfolding terms_of sub
terms_of_found s index field terms e = ground arith

terms_of-unposted :
    (s : Scorer) (index field d : Text) (toks : List Text) (i f : Text)
    → terms_of (on_delete_doc s index field d toks) i f ≡ (
        if index == i && field == f
        then unpost_all d (count_tokens toks []) (terms_of s i f)
        else terms_of s i f)
unfolding on_delete_doc
terms_of-unposted s index field d toks i f =
    elim (Option-cases (lookup field (sub index s.postings))) [
      | inl e ↦ ground (
        arith,
        text_eq_iff index i,
        text_eq_iff field f,
        unpost_all-empty d (count_tokens toks []),
        terms_of_missing s index field e,
      )
      | inr (terms, e) ↦ ground (
        arith,
        text_eq_iff index i,
        text_eq_iff field f,
        terms_of_found s index field terms e,
        terms_of-insert s index field (unpost_all d (count_tokens toks []) terms)
            (on_delete_doc s index field d toks) i f (ground arith),
      )
    ]

terms_of-dropped :
    (s : Scorer) (index i f : Text)
    → terms_of (on_delete_index s index) i f ≡ (if index == i then [] else terms_of s i f)
unfolding on_delete_index terms_of sub lookup
terms_of-dropped s index i f = ground (arith, text_eq_iff index i, lookup-delete index i s.postings)

step-IsCounted : (s : Scorer) (call : Call) → IsCounted s → IsCounted (step s call)
unfolding step IsCounted on_index_doc
step-IsCounted s (posts index field d toks) h i f =
    AllCounted-either (index == i && field == f) _ _ _
      (terms_of-insert s index field (post_all d (count_tokens toks []) (terms_of s index field))
        (on_index_doc s index field d toks) i f refl)
      (post_all-AllCounted d (count_tokens toks []) (terms_of s index field) (h index field))
      (h i f)
step-IsCounted s (unposts index field d toks) h i f =
    AllCounted-either (index == i && field == f) _ _ _ (terms_of-unposted s index field d toks i f)
      (unpost_all-AllCounted d (count_tokens toks []) (terms_of s i f) (h i f)) (h i f)
step-IsCounted s (drops index) h i f =
    AllCounted-either (index == i) _ _ _ (terms_of-dropped s index i f) empty-AllCounted (h i f)

run-IsCounted : (s : Scorer) (calls : List Call) → IsCounted s → IsCounted (run s calls)
unfolding run
run-IsCounted s [] h = h
run-IsCounted s (call ∷ calls) h = run-IsCounted (step s call) calls (step-IsCounted s call h)

new_scorer-IsCounted : IsCounted new_scorer
unfolding IsCounted terms_of sub lookup
new_scorer-IsCounted i f = empty-AllCounted

-- After any calls a posting list that is stored is not empty, and its document frequency is the number
-- of its postings: a term without postings has no list.
pub run-new_scorer-IsCounted : (calls : List Call) → IsCounted (run new_scorer calls)
run-new_scorer-IsCounted calls = run-IsCounted new_scorer calls new_scorer-IsCounted
