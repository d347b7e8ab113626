-- ===== src/Sql/Lexing.antt =====
-- pkg/sqldsl/sqldsl.go: the loop of `tokenize` ends.
use go_es.Prelude.{
  ℕ, zero, suc, ◌≤◌, ◌≡◌, ◌≢◌, refl, ap, Bool, true, false, not, Option, none, some, [], ◌∷◌,
  length, length-append, if◌then◌else◌, nat_eq, Text, Bool-cases, inl, inr, arith, not,
}
use go_es.Prelude.Strings.{cut, cut_lem}
use go_es.Sql.Token.{
  is_blank, is_digit, is_ident_start, is_compare, is_punct, Token, Step, skips, emits, fails,
  drop_while, read_string, next_token, Lexed, lexed, malformed, unfinished, tokenize, quoted,
  operator, go_on, keep, push, TokenType,
}

length-drop_while : (test : ℕ → Bool) (s : Text) → length (drop_while test s) ≤ length s
unfolding drop_while
length-drop_while test [] = omega arith
length-drop_while test (c ∷ cs) = elim (Bool-cases (test c)) [
  | inl e ↦ rw e (omega (arith, length-drop_while test cs))
  | inr e ↦ rw e (omega arith)
]

-- What is left of a text of length `n`.
abbrev Shorter : ℕ → Option (Text × Text) → Type 0
Shorter n none = Unit
Shorter n (some (_, rest)) = length rest ≤ n

push-Shorter : (n m c : ℕ) (o : Option (Text × Text)) → n ≤ m → Shorter n o → Shorter m (push c o)
push-Shorter n m c none l h = tt
push-Shorter n m c (some (s, rest)) l h = omega (arith, h)

if_Shorter :
    (n : ℕ) (b : Bool) (x y : Option (Text × Text))
    → Shorter n x
    → Shorter n y
    → Shorter n (if b then x else y)
if_Shorter n true x y h g = h
if_Shorter n false x y h g = g

read_string-Shorter : (s : Text) → Shorter (length s) (read_string s)
unfolding read_string
read_string-Shorter [] = tt
read_string-Shorter (c ∷ []) = if_Shorter 1 (nat_eq c 39) _ _ (omega arith) tt
read_string-Shorter (c ∷ d ∷ rest) =
    if_Shorter (length (c ∷ d ∷ rest)) (not (nat_eq c 39)) _ _
      (push-Shorter (length (d ∷ rest)) (length (c ∷ d ∷ rest)) c (read_string (d ∷ rest))
        (omega arith) (read_string-Shorter (d ∷ rest)))
      (if_Shorter (length (c ∷ d ∷ rest)) (nat_eq d 39) _ _
        (push-Shorter (length rest) (length (c ∷ d ∷ rest)) 39 (read_string rest) (omega arith)
          (read_string-Shorter rest))
        (omega arith))

cut-Shorter : (c : ℕ) (s : Text) → Shorter (length s) (cut c s)
cut-Shorter c s = by_case (cut c s) refl
  where
    by_case : (o : Option (Text × Text)) → cut c s ≡ o → Shorter (length s) o
    by_case none e = tt
    by_case (some (before, after)) e = omega (
      arith,
      ap (λ (t : Text). length t) (cut_lem c s before after e).0,
      length-append before (c ∷ after),
    )

-- A turn leaves at most `n` bytes.
abbrev Leaves : ℕ → Step → Type 0
Leaves n (skips rest) = length rest ≤ n
Leaves n (emits t rest) = length rest ≤ n
Leaves n fails = Unit

if_Leaves :
    (n : ℕ) (b : Bool) (x y : Step) → Leaves n x → Leaves n y → Leaves n (if b then x else y)
if_Leaves n true x y h g = h
if_Leaves n false x y h g = g

quoted-Leaves :
    (n : ℕ) (typ : TokenType) (o : Option (Text × Text)) → Shorter n o → Leaves n (quoted typ o)
quoted-Leaves n typ none h = tt
quoted-Leaves n typ (some (v, rest)) h = h

operator-Leaves : (c : ℕ) (s : Text) → Leaves (length s) (operator c s)
operator-Leaves c [] = omega arith
operator-Leaves c (d ∷ rest) =
    if_Leaves (length (d ∷ rest)) (nat_eq d 61) _ _ (omega arith) (omega arith)

next_token-Leaves : (c : ℕ) (cs : Text) → Leaves (length cs) (next_token c cs)
unfolding next_token
next_token-Leaves c cs = if_Leaves (length cs) (is_blank c) _ _ (omega arith) (
    if_Leaves (length cs) (nat_eq c 39) _ _
      (quoted-Leaves (length cs) _ (read_string cs) (read_string-Shorter cs))
      (if_Leaves (length cs) (nat_eq c 34) _ _
        (quoted-Leaves (length cs) _ (cut 34 cs) (cut-Shorter 34 cs))
        (if_Leaves (length cs) (is_digit c) _ _ (length-drop_while _ cs) (
          if_Leaves (length cs) (is_ident_start c) _ _ (length-drop_while _ cs) (
            if_Leaves (length cs) (is_compare c) _ _ (operator-Leaves c cs) (
              if_Leaves (length cs) (nat_eq c 42) _ _ (omega arith)
                (if_Leaves (length cs) (is_punct c) _ _ (omega arith) tt)))))))

keep_finished : (t : Token) (l : Lexed) → l ≢ unfinished → keep t l ≢ unfinished
keep_finished t (lexed ts) h e = cc
keep_finished t malformed h e = cc
keep_finished t unfinished h e = h e

go_on_finished :
    (n : ℕ) (s : Step) (next : Text → Lexed)
    → Leaves n s
    → ((rest : Text) → length rest ≤ n → next rest ≢ unfinished)
    → go_on s next ≢ unfinished
go_on_finished n (skips rest) next l h = h rest l
go_on_finished n (emits t rest) next l h = keep_finished t (next rest) (h rest l)
go_on_finished n fails next l h = λ e. cc

tokenize_ends : (fuel : ℕ) (s : Text) → length s ≤ fuel → tokenize fuel s ≢ unfinished
unfolding tokenize
tokenize_ends fuel [] l = λ e. cc
tokenize_ends zero (c ∷ cs) l = absurd (omega arith)
tokenize_ends (suc fuel) (c ∷ cs) l =
    go_on_finished (length cs) (next_token c cs) (tokenize fuel) (next_token-Leaves c cs)
      (λ rest k. tokenize_ends fuel rest (omega arith))

-- The loop of `tokenize` ends on every text: with as much fuel as the text is long it gives tokens or
-- an error.
pub tokenize-ends : (s : Text) → tokenize (length s) s ≢ unfinished
tokenize-ends s = tokenize_ends (length s) s (omega arith)
