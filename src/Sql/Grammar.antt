-- ===== src/Sql/Grammar.antt =====
-- pkg/sqldsl/sqldsl.go: the grammar of conditions, by itself, and the parser on what it writes.
use go_es.Prelude.{
  ℕ, ◌+◌, ◌*◌, ◌-◌, ◌^◌, ◌≤◌, ◌<◌, ◌≡◌, ◌≢◌, refl, ap, ◌∙◌, true, false, none, some, List, [], ◌∷◌,
  ◌++◌, length, length-append, take, Text, text, text_eq, text_eq_iff, Bool-cases, inl, inr, arith,
}
use go_es.Prelude.Strings.{contains_text, count_byte, has_prefix, has_suffix-append}
use go_es.Sql.Token.{Token, tk_keyword, tk_operator, tk_string, tk_number}
use go_es.Sql.Syntax.{
  Expr, Literal, string_value, int_value, Test, compare_test, in_test, like_test, junction_and,
  junction_or, test, bin_op,
}
use go_es.Sql.Parser.{
  parsed, and_then, expect, peek, atoi, digits_from, literal_of, parse_list, like_of, parse_test,
  junction_of, is_token, parse_expr, fuel_for,
}
use go_es.Sql.Precedence.{
  Written, written_test, written_op, written_paren, punct, ident, parse_expr-Written,
}

-- The decimal digits of a number, with leading zeros or without.
pub data Decimal : Text → ℕ → Type 0 where
  digit : (d : ℕ) → d < 10 → Decimal ((48 + d) ∷ []) d
  next_digit :
      {s : Text} {n : ℕ} (d : ℕ)
      → d < 10
      → Decimal s n
      → Decimal (s ++ ((48 + d) ∷ [])) (n * 10 + d)

pub data WrittenLiteral : Literal → Token → Type 0 where
  quoted : (s : Text) → WrittenLiteral (string_value s) (record { typ = tk_string; value = s })
  whole :
      (s : Text) (n : ℕ)
      → Decimal s n
      → n < 2 ^ 63
      → WrittenLiteral (int_value n) (record { typ = tk_number; value = s })

-- The values of a list, up to its closing parenthesis.
pub data WrittenList : List Literal → List Token → Type 0 where
  last_value :
      {l : Literal} {t : Token}
      → WrittenLiteral l t
      → WrittenList (l ∷ []) (t ∷ punct (text ")") ∷ [])
  value :
      {l : Literal} {t : Token} {ls : List Literal} {ts : List Token}
      → WrittenLiteral l t
      → WrittenList ls ts
      → WrittenList (l ∷ ls) (t ∷ punct (text ",") ∷ ts)

abbrev pub keyword : Text → Token
keyword k = record { typ = tk_keyword; value = k }

abbrev pub operator : Text → Token
operator op = record { typ = tk_operator; value = op }

-- A test by its field and the tokens after it.
pub data WrittenTest : Test → Text → List Token → Type 0 where
  compares :
      {l : Literal} {t : Token} (field op : Text)
      → WrittenLiteral l t
      → WrittenTest (compare_test field op l) field (operator op ∷ t ∷ [])
  is_in :
      {ls : List Literal} {ts : List Token} (field : Text)
      → WrittenList ls ts
      → WrittenTest (in_test field ls) field (keyword (text "in") ∷ punct (text "(") ∷ ts)
  begins :
      (field prefix : Text)
      → count_byte 37 prefix ≡ 0
      → count_byte 95 prefix ≡ 0
      → WrittenTest
          (like_test field prefix)
          field
          (keyword (text "like") ∷ record { typ = tk_string; value = prefix ++ text "%" } ∷ [])

pub data Level : Type 0 where
  disjunction conjunction primary : Level

-- The tokens that write an expression: a disjunction joins conjunctions, from the left, and a conjunction
-- joins tests and parentheses, from the left.
pub data Phrase : Level → Expr → List Token → Type 0 where
  condition :
      {t : Test} {field : Text} {body : List Token}
      → WrittenTest t field body
      → Phrase primary (test t) (ident field ∷ body)
  parens :
      {e : Expr} {ts : List Token}
      → Phrase disjunction e ts
      → Phrase primary e (punct (text "(") ∷ (ts ++ (punct (text ")") ∷ [])))
  one : {e : Expr} {ts : List Token} → Phrase primary e ts → Phrase conjunction e ts
  ands :
      {l r : Expr} {ts us : List Token}
      → Phrase conjunction l ts
      → Phrase primary r us
      → Phrase conjunction (bin_op junction_and l r) (ts ++ (keyword (text "and") ∷ us))
  alone : {e : Expr} {ts : List Token} → Phrase conjunction e ts → Phrase disjunction e ts
  ors :
      {l r : Expr} {ts us : List Token}
      → Phrase disjunction l ts
      → Phrase conjunction r us
      → Phrase disjunction (bin_op junction_or l r) (ts ++ (keyword (text "or") ∷ us))

count_byte-append : (c : ℕ) (s t : Text) → count_byte c (s ++ t) ≡ count_byte c s + count_byte c t
unfolding count_byte
count_byte-append c [] t = omega arith
count_byte-append c (x ∷ xs) t = omega (arith, count_byte-append c xs t)

contains_byte : (c : ℕ) (s : Text) → count_byte c s ≡ 0 → contains_text s (c ∷ []) ≡ false
unfolding contains_text has_prefix count_byte
contains_byte c [] h = refl
contains_byte c (x ∷ xs) h = ground (arith, h, contains_byte c xs)

digits_from-append :
    (acc d : ℕ) (s : Text) → digits_from acc (s ++ ((48 + d) ∷ [])) ≡ digits_from acc s * 10 + d
digits_from-append acc d [] = omega arith
digits_from-append acc d (c ∷ cs) = digits_from-append (acc * 10 + (c - 48)) d cs

digits_from-Decimal : {s : Text} {n : ℕ} → Decimal s n → digits_from 0 s ≡ n
digits_from-Decimal (digit d h) = omega arith
digits_from-Decimal (next_digit {s} {n} d h e) =
    digits_from-append 0 d s ∙ ap (λ k. k * 10 + d) (digits_from-Decimal e)

no_point : {s : Text} {n : ℕ} → Decimal s n → count_byte 46 s ≡ 0
unfolding count_byte
no_point (digit d h) = ground arith
no_point (next_digit {s} {n} d h e) =
    count_byte-append 46 s ((48 + d) ∷ []) ∙ ground (arith, no_point e, h)

literal_of-WrittenLiteral : {l : Literal} {t : Token} → WrittenLiteral l t → literal_of t ≡ some l
unfolding literal_of atoi
literal_of-WrittenLiteral (quoted s) = refl
literal_of-WrittenLiteral (whole s n w h) =
    ground (arith, contains_byte 46 s (no_point w), digits_from-Decimal w, h)

parse_list-WrittenList :
    {ls : List Literal} {ts : List Token} (rest : List Token)
    → WrittenList ls ts
    → parse_list (ts ++ rest) ≡ parsed ls rest
unfolding parse_list and_then text_eq
parse_list-WrittenList rest (last_value w) = ground (arith, literal_of-WrittenLiteral w)
parse_list-WrittenList rest (value w ws) =
    ground (arith, literal_of-WrittenLiteral w, parse_list-WrittenList rest ws)

take_front : (front rest : Text) → take (length front) (front ++ rest) ≡ front
take_front [] rest = refl
take_front (c ∷ front) rest = ap (λ (t : Text). c ∷ t) (take_front front rest)

without_last : (s : Text) → take (length (s ++ text "%") - 1) (s ++ text "%") ≡ s
without_last s =
    ap (λ (n : ℕ). take n (s ++ text "%")) (omega (arith, length-append s (text "%")))
    ∙ take_front s (text "%")

like_of-prefix :
    (field prefix : Text)
    → count_byte 37 prefix ≡ 0
    → count_byte 95 prefix ≡ 0
    → like_of field (record { typ = tk_string; value = prefix ++ text "%" })
      ≡ some (like_test field prefix)
unfolding like_of
like_of-prefix field prefix h g = ground (
  arith,
  has_suffix-append prefix (text "%"),
  without_last prefix,
  contains_byte 37 prefix h,
  contains_byte 95 prefix g,
)

parse_test-WrittenTest :
    {t : Test} {field : Text} {body : List Token}
    → WrittenTest t field body
    → (rest : List Token) → parse_test field (body ++ rest) ≡ parsed t rest
unfolding parse_test and_then expect text_eq
parse_test-WrittenTest (compares field op w) rest = ground (arith, literal_of-WrittenLiteral w)
parse_test-WrittenTest (is_in field ws) rest = ground (arith, parse_list-WrittenList rest ws)
parse_test-WrittenTest (begins field prefix h g) rest =
    ground (arith, like_of-prefix field prefix h g)

-- Where parentheses are wanted less, the same tokens will do.
weaken-Written :
    {p : ℕ} {e : Expr} {ts : List Token} (q : ℕ) → q ≤ p → Written p e ts → Written q e ts
weaken-Written q h (written_test t field body w) = written_test t field body w
weaken-Written q h (written_op op ts us b l r c) = written_op op ts us (omega arith) l r c
weaken-Written q h (written_paren ts w c) = written_paren ts w c

abbrev priority_of : Level → ℕ
priority_of disjunction = 0
priority_of conjunction = 1
priority_of primary = 2

Written-Phrase :
    {level : Level} {e : Expr} {ts : List Token}
    → Phrase level e ts
    → Written (priority_of level) e ts
Written-Phrase (condition {t} {field} {body} w) =
    written_test t field body (parse_test-WrittenTest w)
Written-Phrase (parens {e} {ts} p) = written_paren ts (Written-Phrase p) refl
Written-Phrase (one p) = weaken-Written 1 (omega arith) (Written-Phrase p)
Written-Phrase (ands {l} {r} {ts} {us} p q) =
    written_op junction_and ts us (omega arith) (Written-Phrase p) (Written-Phrase q) refl
Written-Phrase (alone p) = weaken-Written 0 (omega arith) (Written-Phrase p)
Written-Phrase (ors {l} {r} {ts} {us} p q) =
    written_op junction_or ts us (omega arith) (Written-Phrase p) (Written-Phrase q) refl

is_token-keyword : (k : Text) (t : Token) → is_token tk_keyword k t ≡ true → t ≡ keyword k
is_token-keyword k t h = ground (arith, text_eq_iff t.value k)

no_junction :
    (t : Token) → t ≢ keyword (text "and") → t ≢ keyword (text "or") → junction_of t ≡ none
unfolding junction_of
no_junction t h g = elim (Bool-cases (is_token tk_keyword (text "and") t)) [
  | inl a ↦ absurd (h (is_token-keyword (text "and") t a))
  | inr a ↦ elim (Bool-cases (is_token tk_keyword (text "or") t)) [
    | inl o ↦ absurd (g (is_token-keyword (text "or") t o))
    | inr o ↦ ground (arith, a, o)
  ]
]

-- The parser reads what the grammar writes: `AND` binds closer than `OR`, both group to the left, and
-- parentheses override both. The tokens that write an expression, with texts and whole numbers of int64
-- as literals, before a token that is neither `AND` nor `OR`, are read as that expression, and the rest
-- is left.
pub parse_expr-Phrase :
    (e : Expr) (ts rest : List Token)
    → Phrase disjunction e ts
    → peek rest ≢ keyword (text "and")
    → peek rest ≢ keyword (text "or")
    → parse_expr (fuel_for (ts ++ rest)) 0 (ts ++ rest) ≡ parsed e rest
parse_expr-Phrase e ts rest p h g =
    parse_expr-Written e ts rest (Written-Phrase p) (no_junction (peek rest) h g)
