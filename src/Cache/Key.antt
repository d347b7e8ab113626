-- ===== src/Cache/Key.antt =====
-- pkg/cache/lru.go: the cache key and the exchange sort under it.
pub mod Sorting
use go_es.Prelude.{
  ℕ, zero, suc, ◌≡◌, refl, ap, Bool, true, false, List, [], ◌∷◌, ◌++◌, if◌then◌else◌, Text, length,
  All, arith, Bool-cases, inl, inr, text,
}
use go_es.Prelude.Order.{text_lt, text_lt_trans, text_lt_asymm, text_lt_total, text_lt_irrefl}

-- One round of the inner loop: `x` is `s[i]`, the list is `s[i+1:]`; the minimum comes to `s[i]`.
pub inner_pass : Text → List Text → Text × List Text
inner_pass x [] = (x, [])
inner_pass x (y ∷ ys) =
    let (m, rest) = inner_pass (if text_lt y x then y else x) ys in
    (m, (if text_lt y x then x else y) ∷ rest)

-- The outer loop, by the number of rounds left.
pub sort_rounds : ℕ → List Text → List Text
sort_rounds zero s = s
sort_rounds (suc n) [] = []
sort_rounds (suc n) (x ∷ xs) = let (m, rest) = inner_pass x xs in m ∷ sort_rounds n rest

pub sort_strings : List Text → List Text
unfolding sort_rounds
sort_strings s = sort_rounds (length s) s

-- What is written into the hash: the sorted names joined by "|", then "#" and the body.
pub join_names : List Text → Text
join_names [] = []
join_names (x ∷ []) = x
join_names (x ∷ y ∷ ys) = x ++ (text "|" ++ join_names (y ∷ ys))

-- SHA-1 in hexadecimal is a parameter.
pub make_key : (sha1_hex : Text → Text) → List Text → Text → Text
unfolding join_names
make_key sha1_hex indices query_body =
    sha1_hex (join_names (sort_strings indices) ++ (text "#" ++ query_body))
