-- ===== src/Server/Access/Matching.antt =====
-- internal/server/rbac.go: which indices the pattern of a permission matches.
use go_es.Prelude.{
  ◌-◌, ◌≤◌, ◌≡◌, sym, ap, ◌∙◌, true, false, ◌&&◌, [], ◌∷◌, ◌++◌, Text, text_Comparable, text_eq,
  length, take, length-append, Bool-cases, inl, inr, arith,
}
use go_es.Prelude.Strings.{
  has_prefix, has_suffix, count_byte, has_prefix-append, has_suffix-take, has_suffix-append,
  ends_with, cut-append,
}
use mathlib.Core.List.{append_assoc}
use go_es.Server.Pattern.{single_star}
use go_es.Server.Pattern.Glob.{single_star_parts}
use go_es.Prelude.Strings.{cut-append, ends_with}
use go_es.Server.Access.{Permission, matches_index, any_bytes}

abbrev pub on : Text → Permission
on pattern = record { index = pattern; actions = [] }

starts_without :
    (first rest : Text)
    → 1 ≤ length first
    → count_byte 42 first ≡ 0
    → has_prefix (first ++ rest) any_bytes ≡ false
unfolding has_prefix count_byte
starts_without [] rest l h = absurd (omega arith)
starts_without (c ∷ first) rest l h = ground (arith, h)

ends_without :
    (front last : Text)
    → 1 ≤ length last
    → count_byte 42 last ≡ 0
    → has_suffix (front ++ last) any_bytes ≡ false
ends_without front last l h = elim (Bool-cases (has_suffix (front ++ last) any_bytes)) [
  | inr n ↦ n
  | inl y ↦ absurd (
      omega (
        arith,
        h,
        ends_with 42 front last (take (length (front ++ last) - 1) (front ++ last))
            (has_suffix-take (front ++ last) any_bytes y) l,
      ))
]

not_only_star :
    (first rest : Text)
    → 1 ≤ length first
    → count_byte 42 first ≡ 0
    → text_eq (first ++ rest) any_bytes ≡ false
unfolding text_eq count_byte
not_only_star [] rest l h = absurd (omega arith)
not_only_star (c ∷ first) rest l h = ground (arith, h)

-- The pattern `first*last` of a permission, with text without stars on both sides.
matches_middle :
    (first last index : Text)
    → 1 ≤ length first
    → 1 ≤ length last
    → count_byte 42 first ≡ 0
    → count_byte 42 last ≡ 0
    → matches_index (on (first ++ (42 ∷ last))) index
      ≡ (has_prefix index first && has_suffix index last)
unfolding matches_index
matches_middle first last index f l p q =
    let e : has_suffix (first ++ (42 ∷ last)) any_bytes ≡ false =
      ap (λ (t : Text). has_suffix t any_bytes) (sym (append_assoc first (42 ∷ []) last))
      ∙ ends_without (first ++ (42 ∷ [])) last l q in
    ground (
      arith,
      starts_without first (42 ∷ last) f p,
      e,
      cut-append 42 first last p,
      not_only_star first (42 ∷ last) f p,
    )

-- The pattern `first*last` of a permission also matches names in which the two ends overlap: with
-- `first` = `a m` and `last` = `m b` it matches `a m b`, where the pattern of a URL does not match.
-- Here `m` is not empty and no part has a star.
pub matches_index-overlap :
    (a m b : Text)
    → 1 ≤ length m
    → count_byte 42 (a ++ m) ≡ 0
    → count_byte 42 (m ++ b) ≡ 0
    → (matches_index (on ((a ++ m) ++ (42 ∷ (m ++ b)))) (a ++ (m ++ b)) ≡ true)
      × (single_star (a ++ m) (m ++ b) (a ++ (m ++ b)) ≡ false)
matches_index-overlap a m b l p q =
    let front : has_prefix (a ++ (m ++ b)) (a ++ m) ≡ true =
      ap (λ (t : Text). has_prefix t (a ++ m)) (sym (append_assoc a m b))
      ∙ has_prefix-append (a ++ m) b in
    let back : has_suffix (a ++ (m ++ b)) (m ++ b) ≡ true = has_suffix-append a (m ++ b) in
    (
      matches_middle (a ++ m) (m ++ b) (a ++ (m ++ b)) (omega (arith, l, length-append a m))
            (omega (arith, l, length-append m b)) p q
          ∙ ground (arith, front, back),
      elim (Bool-cases (single_star (a ++ m) (m ++ b) (a ++ (m ++ b)))) [
        | inr n ↦ n
        | inl y ↦ absurd (
            omega (
              arith,
              (single_star_parts (a ++ m) (m ++ b) (a ++ (m ++ b)) y).2,
              length-append a m,
              length-append m b,
              length-append a (m ++ b),
              l,
            ))
      ],
    )
