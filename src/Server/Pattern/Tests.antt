-- ===== src/Server/Pattern/Tests.antt =====
-- internal/server/index_pattern.go: runs at concrete patterns.
use go_es.Prelude.{
  All, text_Comparable, ◌≡◌, ◌↔◌, ◌&&◌, not, refl, true, List, [], ◌∷◌, ◌++◌, text_eq, Text, text,
  arith,
}
use go_es.Prelude.Order.{text_lt}
use go_es.Prelude.Sets.{contains, add}
use go_es.Prelude.Sorting.{IsSorted, sort_texts}
use go_es.Prelude.Strings.{
  has_suffix, cut, count_byte, split, trim, is_space, contains_text, has_prefix,
}
use go_es.Server.Pattern.{single_star, many_stars, get_indices_by_pattern}
use go_es.Server.Pattern.Glob.{single_star_iff, join_stars, many_stars_iff, Occurs}
use go_es.Server.Pattern.Selection.{is_included, is_excluded, get_indices_by_pattern_lem}

single_star_iff_example :
    (single_star (text "logs-") (text "-eu") (text "logs-7-eu") ≡ true)
    ↔ ((mid : Text) × (text "logs-7-eu" ≡ text "logs-" ++ (mid ++ text "-eu")))
single_star_iff_example = single_star_iff (text "logs-") (text "-eu") (text "logs-7-eu")

-- The pattern `a*b*` and the name `xba`.
many_stars_iff_example :
    (many_stars (join_stars (text "a" ∷ text "b" ∷ [] ∷ [])) (text "xba") ≡ true)
    ↔ All (Occurs (text "xba")) (text "a" ∷ text "b" ∷ [] ∷ [])
unfolding contains_text has_prefix
many_stars_iff_example =
    many_stars_iff (text "a") (text "b" ∷ [] ∷ []) (text "xba") ((refl, tt), ((refl, tt), (tt, tt)))

abbrev names : List Text
names = text "b1" ∷ text "a2" ∷ text "a1" ∷ []

get_indices_by_pattern_lem_example :
    (contains (text "a1") (get_indices_by_pattern names (text "a*,-a2")) ≡ (
      is_included names (text "a1") (split 44 (trim is_space (text "a*,-a2")))
      && not (is_excluded names (text "a1") (split 44 (trim is_space (text "a*,-a2"))))))
    × IsSorted (get_indices_by_pattern names (text "a*,-a2"))
unfolding text_eq trim split get_indices_by_pattern has_prefix has_suffix contains_text cut
    count_byte text_lt contains add sort_texts
get_indices_by_pattern_lem_example =
    get_indices_by_pattern_lem names (text "a*,-a2") (text "a1") refl (omega arith)
