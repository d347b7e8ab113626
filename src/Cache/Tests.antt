-- ===== src/Cache/Tests.antt =====
-- pkg/cache/lru.go: runs of the cache, and the theorems at concrete inputs.
use go_es.Prelude.{◌≡◌, List, [], ◌∷◌, Text, text, text_Comparable, false, arith}
use go_es.Prelude.Int.{pos}
use go_es.Cache.{Cache, Call, new, run, sets, gets, invalidate_index}
use go_es.Cache.Tracking.{IsValid, mentions}
use go_es.Cache.Invariant.{run-new-IsValid}
use go_es.Cache.Invalidation.{mentions-invalidate_index}
use go_es.Cache.Key.Sorting.{count}

abbrev a : Text
a = text "a"

abbrev b : Text
b = text "b"

abbrev c : Text
c = text "c"

-- Three entries into a cache for two.
abbrev calls : List Call
calls =
    sets a (text "1") (b ∷ []) 1
    ∷ sets b (text "2") (c ∷ []) 2
    ∷ gets a
    ∷ sets c (text "3") (b ∷ c ∷ []) 3
    ∷ []

abbrev full : Cache
full = run (new (pos 2)) calls

full-IsValid : IsValid full
full-IsValid = run-new-IsValid (pos 2) calls

run-new-IsValid_example : IsValid (run (new (pos 2)) calls)
run-new-IsValid_example = run-new-IsValid (pos 2) calls

mentions-invalidate_index_example : mentions c b (invalidate_index full b).entries ≡ false
mentions-invalidate_index_example = mentions-invalidate_index full b c full-IsValid

same_counts : (x : Text) → count x (a ∷ b ∷ []) ≡ count x (b ∷ a ∷ [])
same_counts x = omega arith
