-- ===== src/Sql/Token.antt =====
-- pkg/sqldsl/sqldsl.go: the tokens of a statement. Errors stand without their text. The loop of
-- `tokenize` is on fuel, and the length of the text is enough.
use go_es.Prelude.{
  ℕ, zero, suc, Bool, not, ◌&&◌, ◌||◌, Option, none, some, List, [], ◌∷◌, if◌then◌else◌, leb,
  nat_eq, Text, text_Comparable, text,
}
use go_es.Prelude.Sets.{contains}
use go_es.Prelude.Strings.{cut}
use go_es.Search.Value.{lower}

pub data TokenType : Type 0 where
  tk_eof tk_ident tk_number tk_string tk_keyword tk_operator tk_punct : TokenType

pub record Token : Type 0 where
  pub typ : TokenType
  pub value : Text

abbrev pub keywords : List Text
keywords =
    text "select"
    ∷ text "from"
    ∷ text "where"
    ∷ text "and"
    ∷ text "or"
    ∷ text "limit"
    ∷ text "offset"
    ∷ text "order"
    ∷ text "by"
    ∷ text "asc"
    ∷ text "desc"
    ∷ text "in"
    ∷ text "like"
    ∷ text "count"
    ∷ text "as"
    ∷ []

abbrev pub is_blank : ℕ → Bool
is_blank c = nat_eq c 32 || (nat_eq c 9 || (nat_eq c 10 || nat_eq c 13))

abbrev pub is_digit : ℕ → Bool
is_digit c = leb 48 c && leb c 57

abbrev pub is_ident_start : ℕ → Bool
is_ident_start c = (leb 97 c && leb c 122) || ((leb 65 c && leb c 90) || nat_eq c 95)

abbrev pub is_ident_part : ℕ → Bool
is_ident_part c = is_ident_start c || (is_digit c || (nat_eq c 45 || nat_eq c 64))

abbrev pub is_number_part : ℕ → Bool
is_number_part c = is_digit c || nat_eq c 46

-- The bytes `>`, `<`, `=` and `!`.
abbrev pub is_compare : ℕ → Bool
is_compare c = nat_eq c 62 || (nat_eq c 60 || (nat_eq c 61 || nat_eq c 33))

-- The bytes `,`, `(`, `)`, `;` and `.`.
abbrev pub is_punct : ℕ → Bool
is_punct c = nat_eq c 44 || (nat_eq c 40 || (nat_eq c 41 || (nat_eq c 59 || nat_eq c 46)))

unfoldable pub take_while : (ℕ → Bool) → Text → Text
take_while test [] = []
take_while test (c ∷ cs) = let rest = take_while test cs in if test c then c ∷ rest else []

unfoldable pub drop_while : (ℕ → Bool) → Text → Text
drop_while test [] = []
drop_while test (c ∷ cs) = let rest = drop_while test cs in if test c then rest else c ∷ cs

abbrev pub push : ℕ → Option (Text × Text) → Option (Text × Text)
push c none = none
push c (some (s, rest)) = some (c ∷ s, rest)

-- The text up to the closing quote, in which two quotes are one, and what follows.
unfoldable pub read_string : Text → Option (Text × Text)
read_string [] = none
read_string (c ∷ []) = if nat_eq c 39 then some ([], []) else none
read_string (c ∷ d ∷ rest) =
    let plain = push c (read_string (d ∷ rest)) in
    let doubled = push 39 (read_string rest) in
    if not (nat_eq c 39) then plain else if nat_eq d 39 then doubled else some ([], d ∷ rest)

-- One turn of the loop.
pub data Step : Type 0 where
  skips : Text → Step
  emits : Token → Text → Step
  fails : Step

abbrev word : Text → Token
word w =
    if contains (lower w) keywords
    then record { typ = tk_keyword; value = lower w }
    else record { typ = tk_ident; value = w }

abbrev pub operator : ℕ → Text → Step
operator c [] = emits (record { typ = tk_operator; value = c ∷ [] }) []
operator c (d ∷ rest) =
    if nat_eq d 61
    then emits (record { typ = tk_operator; value = c ∷ d ∷ [] }) rest
    else emits (record { typ = tk_operator; value = c ∷ [] }) (d ∷ rest)

abbrev pub quoted : TokenType → Option (Text × Text) → Step
quoted typ none = fails
quoted typ (some (value, rest)) = emits (record { typ = typ; value = value }) rest

unfoldable pub next_token : ℕ → Text → Step
unfolding take_while drop_while read_string cut contains lower
next_token c cs =
    if is_blank c
    then skips cs
    else if nat_eq c 39
    then quoted tk_string (read_string cs)
    else if nat_eq c 34
    then quoted tk_ident (cut 34 cs)
    else if is_digit c
    then emits (record { typ = tk_number; value = c ∷ take_while is_number_part cs })
        (drop_while is_number_part cs)
    else if is_ident_start c
    then emits (word (c ∷ take_while is_ident_part cs)) (drop_while is_ident_part cs)
    else if is_compare c
    then operator c cs
    else if nat_eq c 42
    then emits (record { typ = tk_operator; value = c ∷ [] }) cs
    else if is_punct c
    then emits (record { typ = tk_punct; value = c ∷ [] }) cs
    else fails

pub data Lexed : Type 0 where
  lexed : List Token → Lexed
  malformed unfinished : Lexed

abbrev pub eof : Token
eof = record { typ = tk_eof; value = [] }

abbrev pub keep : Token → Lexed → Lexed
keep t (lexed ts) = lexed (t ∷ ts)
keep t malformed = malformed
keep t unfinished = unfinished

-- What a turn and the turns after it give.
abbrev pub go_on : Step → (Text → Lexed) → Lexed
go_on (skips rest) next = next rest
go_on (emits t rest) next = keep t (next rest)
go_on fails next = malformed

unfoldable pub tokenize : ℕ → Text → Lexed
unfolding next_token
tokenize fuel [] = lexed (eof ∷ [])
tokenize zero (c ∷ cs) = unfinished
tokenize (suc fuel) (c ∷ cs) = go_on (next_token c cs) (tokenize fuel)
