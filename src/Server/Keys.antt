-- ===== src/Server/Keys.antt =====
-- internal/storage/store.go: the keys of the key-value store.
use go_es.Prelude.{
  ◌≡◌, refl, Bool, true, false, [], ◌∷◌, ◌++◌, Text, text, nat_eq, arith, if◌then◌else◌,
}

abbrev pub slash : Text
slash = text "/"

unfoldable pub doc_key : Text → Text → Text
doc_key index id = text "doc/" ++ index ++ slash ++ id

unfoldable pub doc_meta_key : Text → Text → Text
doc_meta_key index id = text "doc-meta/" ++ index ++ slash ++ id

-- Whether an index name has no separator.
unfoldable pub is_plain : Text → Bool
is_plain [] = true
is_plain (c ∷ cs) = if nat_eq c b'/' then false else is_plain cs

split_plain :
    (a b x y : Text)
    → is_plain a ≡ true
    → is_plain b ≡ true
    → a ++ slash ++ x ≡ b ++ slash ++ y
    → (a ≡ b) × (x ≡ y)
unfolding is_plain
split_plain [] [] x y p q e = (refl, ground arith)
split_plain [] (d ∷ b) x y p q e = absurd (ground arith)
split_plain (c ∷ a) [] x y p q e = absurd (ground arith)
split_plain (c ∷ a) (d ∷ b) x y p q e =
    let (s, t) = split_plain a b x y (ground arith) (ground arith) (ground arith) in
    (ground arith, t)

-- Two documents of indexes without a slash in their names have the same key only if they are the same.
pub doc_key-injective :
    (index index' id id' : Text)
    → is_plain index ≡ true
    → is_plain index' ≡ true
    → doc_key index id ≡ doc_key index' id'
    → (index ≡ index') × (id ≡ id')
unfolding doc_key
doc_key-injective index index' id id' p q e = split_plain index index' id id' p q (ground arith)

pub doc_meta_key-injective :
    (index index' id id' : Text)
    → is_plain index ≡ true
    → is_plain index' ≡ true
    → doc_meta_key index id ≡ doc_meta_key index' id'
    → (index ≡ index') × (id ≡ id')
unfolding doc_meta_key
doc_meta_key-injective index index' id id' p q e =
    split_plain index index' id id' p q (ground arith)
