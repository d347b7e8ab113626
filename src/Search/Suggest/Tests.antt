-- ===== src/Search/Suggest/Tests.antt =====
-- internal/search/suggest.go: the edit distance of two words.
use go_es.Prelude.{All, length, [], ◌∷◌, ◌≤◌, ◌≡◌, refl, none, some, text}
use go_es.Search.Suggest.{levenshtein}
use go_es.Prelude.Int.{pos}
use go_es.Search.Value.{string, tokenize}
use go_es.Search.Engine.{Engine, index_doc, new_engine}
use go_es.Search.Suggest.Terms.{term_suggest}
use go_es.Search.Suggest.Near.{IsNear, term_suggest-IsNear}
use go_es.Search.Suggest.Distance.{Promise, levenshtein_lem}

close : levenshtein (text "kitten") (text "sitting") 3 ≡ some 3
unfolding levenshtein
close = refl

far : levenshtein (text "kitten") (text "sitting") 2 ≡ none
unfolding levenshtein
far = refl

levenshtein_lem_example :
    Promise (text "kitten") (text "sitting") 3 (levenshtein (text "kitten") (text "sitting") 3)
levenshtein_lem_example = levenshtein_lem (text "kitten") (text "sitting") 3

abbrev library : Engine
library =
    index_doc (text "books") (text "1") ((text "title", string (text "sitting smitten")) ∷ [])
      new_engine

term_suggest-IsNear_example :
    (length (
        term_suggest library
          (λ t. t)
          (text "books")
          (text "title")
          (text "smatten")
          (text "score")
          (pos 0)
          (pos 1)
          (pos 3)
          (pos 0))
      ≤ 5)
    × All
        (λ c. IsNear (λ t. t) 2 3 (tokenize (text "smatten")) c.0)
        (term_suggest library
          (λ t. t)
          (text "books")
          (text "title")
          (text "smatten")
          (text "score")
          (pos 0)
          (pos 1)
          (pos 3)
          (pos 0))
term_suggest-IsNear_example =
    term_suggest-IsNear library (λ t. t) (text "books") (text "title") (text "smatten")
      (text "score") (pos 0) (pos 1) (pos 3) (pos 0)
