-- ===== src/Server/Pattern/Selection.antt =====
-- internal/server/index_pattern.go: which indices `getIndicesByPattern` returns.
use go_es.Prelude.{
  ℕ, ◌≤◌, ◌≡◌, zero, suc, subst, refl, sym, ap, ◌∙◌, Bool, false, not, ◌&&◌, ◌||◌, List, [], ◌∷◌,
  if◌then◌else◌, ◌==◌, Text, text, text_Comparable, text_eq_iff, length, take, drop, arith,
}
use go_es.Prelude.Sets.{contains, contains-add}
use go_es.Prelude.Sorting.{sort_texts, sort_texts-IsSorted, contains-sort_texts, IsSorted}
use go_es.Prelude.Strings.{has_prefix, contains_text, split, trim, is_space}
use go_es.Server.Pattern.{
  Rules, no_rules, names_all, names_of, glob_matches, filter_names, expand_glob, all_index_names,
  add_all, apply_part, apply_parts, selected, get_indices_by_pattern, max_matched_indices,
}

contains-filter_names :
    (test : Text → Bool) (name : Text) (names : List Text)
    → contains name (filter_names test names) ≡ (test name && contains name names)
unfolding filter_names contains
contains-filter_names test name [] = ground arith
contains-filter_names test name (x ∷ xs) =
    ground (arith, contains-filter_names test name xs, text_eq_iff x name)

contains-add_all :
    (name : Text) (xs set : List Text)
    → contains name (add_all xs set) ≡ (contains name xs || contains name set)
unfolding add_all contains
contains-add_all name [] set = refl
contains-add_all name (x ∷ xs) set =
    ground (arith, contains-add x name (add_all xs set), contains-add_all name xs set)

-- Whether a part without its sign names an index: by the pattern, among the indices there are, or
-- literally.
abbrev pub names_it : List Text → Text → Text → Bool
names_it names part name =
    if contains_text part (text "*")
    then glob_matches part name && contains name names
    else part == name

contains-names_of :
    (names : List Text) (part name : Text)
    → contains name (names_of names part) ≡ names_it names part name
unfolding names_of expand_glob all_index_names contains
contains-names_of names part name = ground (
  arith,
  contains-filter_names (glob_matches part) name (sort_texts names),
  contains-sort_texts name names,
)

contains-selected :
    (name : Text) (rules : Rules)
    → contains name (selected rules)
      ≡ (not (contains name rules.exclude) && contains name rules.include)
unfolding selected
contains-selected name rules =
    contains-filter_names (λ n. not (contains n rules.exclude)) name rules.include

-- What one part, with its sign and spaces, includes and excludes.
abbrev pub part_includes : List Text → Text → Text → Bool
part_includes names name raw =
    not (trim is_space raw == [])
    && (not (has_prefix (trim is_space raw) (text "-")) && names_it names (trim is_space raw) name)

abbrev pub part_excludes : List Text → Text → Text → Bool
part_excludes names name raw =
    not (trim is_space raw == [])
    && (has_prefix (trim is_space raw) (text "-")
        && (not (drop 1 (trim is_space raw) == [])
            && names_it names (drop 1 (trim is_space raw)) name))

abbrev pub is_included : List Text → Text → List Text → Bool
is_included names name [] = false
is_included names name (raw ∷ raws) = part_includes names name raw || is_included names name raws

abbrev pub is_excluded : List Text → Text → List Text → Bool
is_excluded names name [] = false
is_excluded names name (raw ∷ raws) = part_excludes names name raw || is_excluded names name raws

include_part :
    (names : List Text) (name raw : Text) (rules : Rules)
    → contains name (apply_part names raw rules).include
      ≡ (part_includes names name raw || contains name rules.include)
unfolding apply_part
include_part names name raw rules = ground (
  arith,
  contains-add_all name (names_of names (trim is_space raw)) rules.include,
  contains-names_of names (trim is_space raw) name,
)

exclude_part :
    (names : List Text) (name raw : Text) (rules : Rules)
    → contains name (apply_part names raw rules).exclude
      ≡ (part_excludes names name raw || contains name rules.exclude)
unfolding apply_part
exclude_part names name raw rules = ground (
  arith,
  contains-add_all name (names_of names (drop 1 (trim is_space raw))) rules.exclude,
  contains-names_of names (drop 1 (trim is_space raw)) name,
)

or_swap : (a b c : Bool) → (b || (a || c)) ≡ ((a || b) || c)
or_swap a b c = ground arith

included :
    (names : List Text) (name : Text) (parts : List Text) (rules : Rules)
    → contains name (apply_parts names parts rules).include
      ≡ (is_included names name parts || contains name rules.include)
unfolding apply_parts
included names name [] rules = refl
included names name (raw ∷ raws) rules =
    included names name raws (apply_part names raw rules)
    ∙ ap (λ (b : Bool). is_included names name raws || b) (include_part names name raw rules)
    ∙ or_swap (part_includes names name raw) (is_included names name raws)
        (contains name rules.include)

excluded :
    (names : List Text) (name : Text) (parts : List Text) (rules : Rules)
    → contains name (apply_parts names parts rules).exclude
      ≡ (is_excluded names name parts || contains name rules.exclude)
unfolding apply_parts
excluded names name [] rules = refl
excluded names name (raw ∷ raws) rules =
    excluded names name raws (apply_part names raw rules)
    ∙ ap (λ (b : Bool). is_excluded names name raws || b) (exclude_part names name raw rules)
    ∙ or_swap (part_excludes names name raw) (is_excluded names name raws)
        (contains name rules.exclude)

take_all : (n : ℕ) (xs : List Text) → length xs ≤ n → take n xs ≡ xs
take_all zero [] h = refl
take_all zero (x ∷ xs) h = absurd (omega arith)
take_all (suc n) [] h = refl
take_all (suc n) (x ∷ xs) h = ap (λ (l : List Text). x ∷ l) (take_all n xs (omega arith))

-- The rules that the parts of a pattern add up to.
abbrev pub rules_of : List Text → Text → Rules
rules_of names raw = apply_parts names (split 44 (trim is_space raw)) no_rules

-- For a pattern other than the empty one, `_all` and `*`, and a selection of at most 1000 indices:
-- an index is returned exactly when some part of the pattern includes it and no part excludes it,
-- wherever the parts stand. A part includes or excludes literally, or, with a star in it, the
-- matching ones among the indices of the store. The result is sorted.
pub get_indices_by_pattern_lem :
    (names : List Text) (raw name : Text)
    → names_all (trim is_space raw) ≡ false
    → length (sort_texts (selected (rules_of names raw))) ≤ max_matched_indices
    → (contains name (get_indices_by_pattern names raw) ≡ (
        is_included names name (split 44 (trim is_space raw))
        && not (is_excluded names name (split 44 (trim is_space raw)))))
      × IsSorted (get_indices_by_pattern names raw)
unfolding get_indices_by_pattern
get_indices_by_pattern_lem names raw name n l =
    let whole = take_all max_matched_indices (sort_texts (selected (rules_of names raw))) l in
    let e : get_indices_by_pattern names raw ≡ sort_texts (selected (rules_of names raw)) =
      ground (arith, n, whole) in
    (
      ap (contains name) e
          ∙ contains-sort_texts name (selected (rules_of names raw))
          ∙ contains-selected name (rules_of names raw)
          ∙ ground (
            arith,
            included names name (split 44 (trim is_space raw)) no_rules,
            excluded names name (split 44 (trim is_space raw)) no_rules,
          ),
      subst IsSorted (sym e) (sort_texts-IsSorted (selected (rules_of names raw))),
    )
