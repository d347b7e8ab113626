-- ===== src/Search/Leaves/Phrase.antt =====
-- internal/search/suggest.go: `containsPhrase` against the occurrence of one list in another.
use go_es.Prelude.{
  ◌≡◌, ◌↔◌, refl, inl, inr, ap, sym, true, List, [], ◌∷◌, ◌++◌, arith, Text, text_Comparable,
  text_eq_iff, Bool-cases, subst,
}
use go_es.Search.Leaves.{starts_with, phrase_from, contains_phrase}

starts_with_sound :
    (toks phrase : List Text)
    → starts_with toks phrase ≡ true
    → (after : List Text) × (toks ≡ phrase ++ after)
unfolding starts_with
starts_with_sound toks [] h = (toks, refl)
starts_with_sound [] (p ∷ phrase) h = absurd (ground arith)
starts_with_sound (t ∷ toks) (p ∷ phrase) h =
    let (after, e) = starts_with_sound toks phrase (ground arith) in
    (after, ground (arith, text_eq_iff t p))

starts_with-append : (phrase after : List Text) → starts_with (phrase ++ after) phrase ≡ true
unfolding starts_with
starts_with-append [] [] = refl
starts_with-append [] (t ∷ after) = refl
starts_with-append (p ∷ phrase) after =
    ground (arith, text_eq_iff p p, starts_with-append phrase after)

phrase_from_sound :
    (p : Text) (phrase toks : List Text)
    → phrase_from (p ∷ phrase) toks ≡ true
    → (before : List Text) × (after : List Text) × (toks ≡ before ++ (p ∷ phrase) ++ after)
unfolding phrase_from
phrase_from_sound p phrase [] h = absurd (ground arith)
phrase_from_sound p phrase (t ∷ toks) h = elim (Bool-cases (starts_with (t ∷ toks) (p ∷ phrase))) [
  | inl here ↦ let (after, e) = starts_with_sound (t ∷ toks) (p ∷ phrase) here in ([], after, e)
  | inr later ↦
      let (before, after, e) = phrase_from_sound p phrase toks (ground arith) in
      (t ∷ before, after, ap (λ l. t ∷ l) e)
]

phrase_from-append :
    (p : Text) (before phrase after : List Text)
    → phrase_from (p ∷ phrase) (before ++ (p ∷ phrase) ++ after) ≡ true
unfolding phrase_from
phrase_from-append p [] phrase after = ground (arith, starts_with-append (p ∷ phrase) after)
phrase_from-append p (b ∷ before) phrase after =
    ground (arith, phrase_from-append p before phrase after)

-- A phrase is found in a field exactly when the field's tokens have the phrase's tokens somewhere, in
-- their order and next to each other; a phrase without tokens is never found.
pub contains_phrase_iff :
    (toks phrase : List Text)
    → (contains_phrase toks phrase ≡ true) ↔ (
        (before : List Text) × (after : List Text) × (p : Text) × (rest : List Text) × (phrase
          ≡ p ∷ rest)
        × (toks ≡ before ++ phrase ++ after))
unfolding contains_phrase
contains_phrase_iff toks [] =
    (λ h. absurd (ground arith), λ (b, a, p, r, e, q). absurd (ground arith))
contains_phrase_iff toks (p ∷ phrase) = (
  λ h.
      let (before, after, e) = phrase_from_sound p phrase toks h in
      (before, after, p, phrase, refl, e),
  λ (before, after, q, rest, s, e).
      subst (λ l. phrase_from (p ∷ phrase) l ≡ true) (sym e)
        (phrase_from-append p before phrase after),
)
