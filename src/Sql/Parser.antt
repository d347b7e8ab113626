-- ===== src/Sql/Parser.antt =====
-- pkg/sqldsl/sqldsl.go: the parser. Its position is the list of the tokens from there on, which ends
-- with `tk_eof`. Errors stand without their text. The recursion of `parseExpr` and `parsePrimary` is
-- on fuel; four times the number of tokens is enough.
use go_es.Prelude.{
  ℕ, zero, suc, ◌+◌, ◌*◌, ◌-◌, ◌^◌, Bool, true, false, not, ◌&&◌, ◌||◌, Option, none, some, List,
  [], ◌∷◌, if◌then◌else◌, ltb, leb, ◌==◌, Text, text_Comparable, text, length, take,
}
use go_es.Prelude.Strings.{has_suffix, contains_text, count_byte}
use go_es.Sql.Token.{
  Token, TokenType, tk_eof, tk_ident, tk_number, tk_string, tk_keyword, tk_operator, tk_punct, eof,
}
use go_es.Sql.Syntax.{
  Literal, string_value, int_value, float_value, Junction, junction_and, junction_or, Test,
  compare_test, in_test, like_test, Expr, test, bin_op,
}

pub data Parsed (A : Type 0) : Type 0 where
  parsed : A → List Token → Parsed A
  rejected unfinished : Parsed A

unfoldable pub and_then : {A B : Type 0} → Parsed A → (A → List Token → Parsed B) → Parsed B
and_then (parsed a ts) next = next a ts
and_then rejected next = rejected
and_then unfinished next = unfinished

-- Go on with a value, if there is one.
abbrev pub on_value : {X A : Type 0} → Option X → Parsed A → (X → Parsed A) → Parsed A
on_value none other next = other
on_value (some x) other next = next x

abbrev pub same_type : TokenType → TokenType → Bool
same_type tk_eof tk_eof = true
same_type tk_ident tk_ident = true
same_type tk_number tk_number = true
same_type tk_string tk_string = true
same_type tk_keyword tk_keyword = true
same_type tk_operator tk_operator = true
same_type tk_punct tk_punct = true
same_type _ _ = false

abbrev pub is_token : TokenType → Text → Token → Bool
is_token typ value t = same_type t.typ typ && t.value == value

-- `peek`; past the end it reads as the last token.
-- Past the end, where the code would panic, these give the token for the end and no tokens. A list that
-- ends with that token is never read so far.
abbrev pub peek : List Token → Token
peek [] = eof
peek (t ∷ ts) = t

abbrev pub advance : List Token → List Token
advance [] = []
advance (t ∷ ts) = ts

abbrev pub sees : TokenType → Text → List Token → Bool
sees typ value ts = is_token typ value (peek ts)

-- `expectKeyword` and `expectPunct`
unfoldable pub expect : {A : Type 0} → TokenType → Text → A → List Token → Parsed A
expect typ value a ts = if sees typ value ts then parsed a (advance ts) else rejected

abbrev pub digits_from : ℕ → Text → ℕ
digits_from n [] = n
digits_from n (c ∷ cs) = digits_from (n * 10 + (c - 48)) cs

-- `strconv.Atoi` on digits: an error from 2^63 on.
unfoldable pub atoi : Text → Option ℕ
atoi s =
    if contains_text s (text ".") || not (ltb (digits_from 0 s) (2 ^ 63))
    then none
    else some (digits_from 0 s)

-- `parseLiteral`; `strconv.ParseFloat` takes the digits with one point.
unfoldable pub literal_of : Token → Option Literal
unfolding atoi
literal_of t = elim t.typ [
  | tk_string ↦ some (string_value t.value)
  | tk_number ↦
      if contains_text t.value (text ".")
      then (if leb (count_byte 46 t.value) 1 then some (float_value t.value) else none)
      else elim (atoi t.value) [ none ↦ none | some n ↦ some (int_value n) ]
  | _ ↦ none
]

-- The list of `IN`, after its opening parenthesis, up to its closing one.
unfoldable pub parse_list : List Token → Parsed (List Literal)
unfolding literal_of and_then
parse_list [] = rejected
parse_list (t ∷ []) = rejected
parse_list (t ∷ u ∷ ts) =
    let more =
      and_then (parse_list ts)
        (λ vals rest. on_value (literal_of t) rejected (λ v. parsed (v ∷ vals) rest)) in
    on_value (literal_of t) rejected (λ v.
      if is_token tk_punct (text ",") u
      then more
      else if is_token tk_punct (text ")") u
      then parsed (v ∷ []) ts
      else rejected)

abbrev without_percent : Text → Text
without_percent s = if has_suffix s (text "%") then take (length s - 1) s else s

unfoldable pub like_of : Text → Token → Option Test
like_of field v =
    let prefix = without_percent v.value in
    if not (same_type v.typ tk_string)
    then none
    else if not (has_suffix v.value (text "%"))
        || (contains_text prefix (text "%") || contains_text prefix (text "_"))
    then none
    else some (like_test field prefix)

abbrev pub finish : Option Test → List Token → Parsed Test
finish none ts = rejected
finish (some t) ts = parsed t ts

-- `parsePrimary` after its field.
unfoldable pub parse_test : Text → List Token → Parsed Test
unfolding parse_list like_of literal_of expect and_then
parse_test field ts =
    if sees tk_keyword (text "in") ts
    then and_then (expect tk_punct (text "(") tt (advance ts))
        (λ _ rest. and_then (parse_list rest) (λ vals after. parsed (in_test field vals) after))
    else if sees tk_keyword (text "like") ts
    then finish (like_of field (peek (advance ts))) (advance (advance ts))
    else if not (same_type (peek ts).typ tk_operator)
    then rejected
    else on_value (literal_of (peek (advance ts))) rejected
        (λ v. parsed (compare_test field (peek ts).value v) (advance (advance ts)))

abbrev pub priority : Junction → ℕ
priority junction_and = 1
priority junction_or = 0

-- The operator that the loop of `parseExpr` sees.
unfoldable pub junction_of : Token → Option Junction
junction_of t =
    if is_token tk_keyword (text "and") t
    then some junction_and
    else if is_token tk_keyword (text "or") t
    then some junction_or
    else none

unfoldable mutual
  unfolding and_then expect parse_test junction_of

  -- `parseExpr`
  pub parse_expr : ℕ → ℕ → List Token → Parsed Expr
  parse_expr zero min_prio ts = unfinished
  parse_expr (suc fuel) min_prio ts =
      and_then (parse_primary fuel ts) (λ left rest. parse_tail fuel min_prio left rest)

  -- The loop of `parseExpr`.
  pub parse_tail : ℕ → ℕ → Expr → List Token → Parsed Expr
  parse_tail zero min_prio left ts = unfinished
  parse_tail (suc fuel) min_prio left ts = on_value (junction_of (peek ts)) (parsed left ts) (λ op.
      let more =
        and_then (parse_expr fuel (priority op + 1) (advance ts))
          (λ right rest. parse_tail fuel min_prio (bin_op op left right) rest) in
      if ltb (priority op) min_prio then parsed left ts else more)

  -- `parsePrimary`
  pub parse_primary : ℕ → List Token → Parsed Expr
  parse_primary zero ts = unfinished
  parse_primary (suc fuel) ts =
      let inner =
        and_then (parse_expr fuel 0 (advance ts)) (λ e rest. expect tk_punct (text ")") e rest) in
      if sees tk_punct (text "(") ts
      then inner
      else if not (same_type (peek ts).typ tk_ident)
      then rejected
      else and_then (parse_test (peek ts).value (advance ts)) (λ t rest. parsed (test t) rest)

abbrev pub fuel_for : List Token → ℕ
fuel_for ts = 4 * length ts + 4
