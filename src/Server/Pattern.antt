-- ===== src/Server/Pattern.antt =====
-- internal/server/index_pattern.go: the indices that a pattern of a URL names. `names` are the
-- indices that the store holds under `meta/`.
pub mod Glob
pub mod Selection
mod Tests
use go_es.Prelude.{
  ℕ, zero, suc, ◌+◌, ◌≤◌, Bool, true, false, not, ◌&&◌, ◌||◌, Option, none, some, List, [], ◌∷◌,
  ◌++◌, if◌then◌else◌, leb, nat_eq, ◌==◌, Text, text_Comparable, text, length, take, drop, ltb, ◌-◌,
}
use go_es.Prelude.Sets.{contains, add}
use go_es.Prelude.Sorting.{sort_texts}
use go_es.Prelude.Strings.{
  has_prefix, has_suffix, contains_text, count_byte, cut, split, trim, is_space,
}

abbrev pub max_matched_indices : ℕ
max_matched_indices = 1000

-- The bytes `*`, `.` and `\`.
abbrev pub star : ℕ
star = 42

abbrev dot : ℕ
dot = 46

abbrev backslash : ℕ
backslash = 92

-- `allIndexNames`
unfoldable pub all_index_names : List Text → List Text
all_index_names names = sort_texts names

-- The bytes `*.+?()|^$\`.
abbrev is_meta : ℕ → Bool
is_meta c = contains_text (text "*.+?()|^$\\") (c ∷ [])

-- `regexpQuoteMeta`
unfoldable pub regexp_quote_meta : Text → Text
regexp_quote_meta [] = []
regexp_quote_meta (c ∷ cs) =
    let rest = regexp_quote_meta cs in if is_meta c then backslash ∷ c ∷ rest else c ∷ rest

-- `strings.ReplaceAll(s, "\\*", ".*")`
unfoldable pub replace_stars : Text → Text
replace_stars [] = []
replace_stars (c ∷ []) = c ∷ []
replace_stars (c ∷ d ∷ rest) =
    let after = replace_stars rest in
    let shifted = replace_stars (d ∷ rest) in
    if nat_eq c backslash && nat_eq d star then dot ∷ star ∷ after else c ∷ shifted

-- `strings.Split(s, ".*")`
unfoldable pub split_any : Text → Text → List Text
split_any part [] = part ∷ []
split_any part (c ∷ []) = (part ++ (c ∷ [])) ∷ []
split_any part (c ∷ d ∷ rest) =
    let after = part ∷ split_any [] rest in
    let shifted = split_any (part ++ (c ∷ [])) (d ∷ rest) in
    if nat_eq c dot && nat_eq d star then after else shifted

unfoldable pub all_occur : Text → List Text → Bool
all_occur name [] = true
all_occur name (seg ∷ segs) = (seg == [] || contains_text name seg) && all_occur name segs

-- `regexpMatchString`
unfoldable pub regexp_match_string : Text → Text → Bool
unfolding all_occur split_any
regexp_match_string pattern name =
    if not (has_prefix pattern (text "^")) || not (has_suffix pattern (text "$"))
    then false
    else all_occur name (split_any [] (take (length pattern - 2) (drop 1 pattern)))

-- The tests of `expandGlob` on one name.
unfoldable pub single_star : Text → Text → Text → Bool
single_star prefix suffix name =
    if not (has_prefix name prefix)
    then false
    else if not (has_suffix name suffix)
    then false
    else not (ltb (length name) (length prefix + length suffix))

unfoldable pub many_stars : Text → Text → Bool
unfolding regexp_quote_meta replace_stars regexp_match_string
many_stars pattern name =
    regexp_match_string (text "^" ++ (replace_stars (regexp_quote_meta pattern) ++ text "$")) name

unfoldable pub glob_matches : Text → Text → Bool
unfolding single_star many_stars
glob_matches pattern name =
    if nat_eq (count_byte star pattern) 1
    then (elim (cut star pattern) [
      | none ↦ false
      | some (prefix, suffix) ↦ single_star prefix suffix name
    ])
    else many_stars pattern name

unfoldable pub filter_names : (Text → Bool) → List Text → List Text
filter_names test [] = []
filter_names test (name ∷ names) =
    let rest = filter_names test names in if test name then name ∷ rest else rest

-- `expandGlob`
unfoldable pub expand_glob : List Text → Text → List Text
unfolding all_index_names filter_names glob_matches
expand_glob names pattern = filter_names (glob_matches pattern) (all_index_names names)

-- The two maps of `getIndicesByPattern`.
pub record Rules : Type 0 where
  pub include : List Text
  pub exclude : List Text

unfoldable pub add_all : List Text → List Text → List Text
unfolding add
add_all [] set = set
add_all (x ∷ xs) set = add x (add_all xs set)

-- The names that a part without its sign stands for.
unfoldable pub names_of : List Text → Text → List Text
unfolding expand_glob
names_of names part = if contains_text part (text "*") then expand_glob names part else part ∷ []

unfoldable pub apply_part : List Text → Text → Rules → Rules
unfolding names_of add_all trim
apply_part names raw rules =
    let part = trim is_space raw in
    if part == []
    then rules
    else if has_prefix part (text "-")
    then (if drop 1 part == []
        then rules
        else record rules { exclude = add_all (names_of names (drop 1 part)) rules.exclude })
    else record rules { include = add_all (names_of names part) rules.include }

unfoldable pub apply_parts : List Text → List Text → Rules → Rules
unfolding apply_part
apply_parts names [] rules = rules
apply_parts names (part ∷ parts) rules = apply_parts names parts (apply_part names part rules)

abbrev pub no_rules : Rules
no_rules = record { include = []; exclude = [] }

-- `delete(include, ex)`, for every excluded name.
unfoldable pub selected : Rules → List Text
unfolding contains filter_names
selected rules = filter_names (λ name. not (contains name rules.exclude)) rules.include

abbrev pub names_all : Text → Bool
names_all pattern = pattern == [] || (pattern == text "_all" || pattern == text "*")

unfoldable pub get_indices_by_pattern : List Text → Text → List Text
unfolding all_index_names apply_parts selected trim
get_indices_by_pattern names raw =
    let pattern = trim is_space raw in
    if names_all pattern
    then all_index_names names
    else take max_matched_indices
        (sort_texts (selected (apply_parts names (split 44 pattern) no_rules)))
