-- ===== src/Sql/Precedence.antt =====
-- pkg/sqldsl/sqldsl.go: the parser of expressions reads tokens by the priorities of operators.
use mathlib.Core.List.{append_assoc}
use go_es.Prelude.{
  ℕ, zero, suc, ◌+◌, ◌*◌, ◌≤◌, ◌<◌, ◌≡◌, refl, sym, ap, ◌∙◌, Option, none, some, List, [], ◌∷◌,
  ◌++◌, length, length-append, Text, text, text_eq, Option-cases, inl, inr, arith,
}
use go_es.Sql.Token.{Token, tk_punct, tk_keyword, tk_ident}
use go_es.Sql.Syntax.{Expr, Test, Junction, junction_and, junction_or, test, bin_op}
use go_es.Sql.Parser.{
  parsed, and_then, expect, peek, parse_test, junction_of, priority, parse_expr, parse_tail,
  parse_primary, fuel_for,
}

abbrev pub junction_token : Junction → Token
junction_token junction_and = record { typ = tk_keyword; value = text "and" }
junction_token junction_or = record { typ = tk_keyword; value = text "or" }

abbrev pub punct : Text → Token
punct c = record { typ = tk_punct; value = c }

abbrev pub ident : Text → Token
ident name = record { typ = tk_ident; value = name }

-- The tokens that write an expression where operators of a priority below `q` want parentheses.
-- Operators of one priority group to the left.
pub data Written : ℕ → Expr → List Token → Type 0 where
  written_test :
      {q : ℕ} (t : Test) (field : Text) (body : List Token)
      → ((rest : List Token) → parse_test field (body ++ rest) ≡ parsed t rest)
      → Written q (test t) (ident field ∷ body)
  written_op :
      {q : ℕ} {l r : Expr} (op : Junction) (ts us : List Token) {ws : List Token}
      → q ≤ priority op
      → Written (priority op) l ts
      → Written (priority op + 1) r us
      → ws ≡ ts ++ (junction_token op ∷ us)
      → Written q (bin_op op l r) ws
  written_paren :
      {q : ℕ} {e : Expr} (ts : List Token) {ws : List Token}
      → Written 0 e ts
      → ws ≡ punct (text "(") ∷ (ts ++ (punct (text ")") ∷ []))
      → Written q e ws

-- What follows begins with no operator of a priority above `q`.
abbrev pub StopsAt : ℕ → List Token → Type 0
StopsAt q rest = (op : Junction) → junction_of (peek rest) ≡ some op → priority op ≤ q

-- With the fuel `n`, the loop ends with a result.
abbrev Ends : ℕ → ℕ → Expr → List Token → Expr → List Token → Type 0
Ends n min_prio left ts e rest = (g : ℕ) → n ≤ g → parse_tail g min_prio left ts ≡ parsed e rest

junction_of-token : (op : Junction) → junction_of (junction_token op) ≡ some op
unfolding junction_of text_eq
junction_of-token junction_and = refl
junction_of-token junction_or = refl

junction_of-close : junction_of (punct (text ")")) ≡ none
unfolding junction_of
junction_of-close = refl

same_priority :
    (op op' : Junction) → junction_of (junction_token op) ≡ some op' → priority op' ≤ priority op
same_priority op op' h =
    let e : ◌≡◌ {A = Option Junction} (some op) (some op') = sym (junction_of-token op) ∙ h in
    ground (arith, e)

-- The loop ends before what it does not take.
tail_stops :
    (min_prio : ℕ) (left : Expr) (rest : List Token)
    → ((op : Junction) → junction_of (peek rest) ≡ some op → priority op < min_prio)
    → Ends 1 min_prio left rest left rest
unfolding parse_tail
tail_stops min_prio left rest h zero l = absurd (omega arith)
tail_stops min_prio left rest h (suc g) l = elim (Option-cases (junction_of (peek rest))) [
  | inl n ↦ ground (arith, n)
  | inr (op, n) ↦ ground (arith, n, h op n)
]

-- The loop takes an operator and its right side.
tail_takes :
    (min_prio n m : ℕ) (op : Junction) (left right e : Expr) (us rest after : List Token)
    → min_prio ≤ priority op
    → ((f : ℕ) → m ≤ f → parse_expr f (priority op + 1) (us ++ rest) ≡ parsed right rest)
    → Ends n min_prio (bin_op op left right) rest e after
    → Ends (n + m + 1) min_prio left (junction_token op ∷ (us ++ rest)) e after
unfolding parse_tail and_then
tail_takes min_prio n m op left right e us rest after p r t zero l = absurd (omega arith)
tail_takes min_prio n m op left right e us rest after p r t (suc g) l =
    ground (arith, junction_of-token op, p, r g (omega arith), t g (omega arith))

primary_test :
    (f : ℕ) (t : Test) (field : Text) (body rest : List Token)
    → 1 ≤ f
    → parse_test field (body ++ rest) ≡ parsed t rest
    → parse_primary f (ident field ∷ (body ++ rest)) ≡ parsed (test t) rest
unfolding parse_primary and_then
primary_test zero t field body rest l h = absurd (omega arith)
primary_test (suc f) t field body rest l h = ground (arith, h)

primary_paren :
    (f n : ℕ) (e : Expr) (ts rest : List Token)
    → n + 1 ≤ f
    → ((g : ℕ)
        → n ≤ g
        → parse_expr g 0 (ts ++ (punct (text ")") ∷ rest)) ≡ parsed e (punct (text ")") ∷ rest))
    → parse_primary f (punct (text "(") ∷ (ts ++ (punct (text ")") ∷ rest))) ≡ parsed e rest
unfolding parse_primary and_then expect text_eq
primary_paren zero n e ts rest l h = absurd (omega arith)
primary_paren (suc f) n e ts rest l h = ground (arith, h f (omega arith))

then_tail :
    (f n min_prio : ℕ) (left e : Expr) (ts rest after : List Token)
    → n + 1 ≤ f
    → ((g : ℕ) → f ≡ suc g → parse_primary g ts ≡ parsed left rest)
    → Ends n min_prio left rest e after
    → parse_expr f min_prio ts ≡ parsed e after
unfolding parse_expr and_then
then_tail zero n min_prio left e ts rest after l h t = absurd (omega arith)
then_tail (suc f) n min_prio left e ts rest after l h t =
    ground (arith, h f refl, t f (omega arith))

-- The tokens of a written expression are read back, whatever loop goes on after them.
reads :
    {q : ℕ} {x : Expr} {ws : List Token}
    → Written q x ws
    → (f n min_prio : ℕ) (rest : List Token) (e : Expr) (after : List Token) → min_prio ≤ q
    → StopsAt q rest
    → 1 ≤ n
    → Ends n min_prio x rest e after
    → 4 * length ws + n ≤ f
    → parse_expr f min_prio (ws ++ rest) ≡ parsed e after
reads (written_test t field body w) f n min_prio rest e after m s o t' l =
    then_tail f n min_prio (test t) e (ident field ∷ (body ++ rest)) rest after (omega arith)
      (λ g k. primary_test g t field body rest (omega arith) (w rest)) t'
reads (written_op {l = x0} {r = r} op ts us {ws = ws} p wl wr c) f n min_prio rest e after m s o t
      l =
    let size : length ws ≡ length ts + suc (length us) =
      ap (λ (k : List Token). length k) c ∙ length-append ts (junction_token op ∷ us) in
    let right : (g : ℕ)
        → 4 * length us + 1 ≤ g
        → parse_expr g (priority op + 1) (us ++ rest) ≡ parsed r rest =
      λ g k.
        reads wr g 1 (priority op + 1) rest r rest (omega arith)
          (λ op' h. omega (arith, s op' h, p)) (omega arith)
          (tail_stops (priority op + 1) r rest (λ op' h. omega (arith, s op' h, p))) k in
    ap (λ (k : List Token). parse_expr f min_prio (k ++ rest)) c
    ∙ ap (parse_expr f min_prio) (append_assoc ts (junction_token op ∷ us) rest)
    ∙ reads wl f (n + (4 * length us + 1) + 1) min_prio (junction_token op ∷ (us ++ rest)) e after
        (omega arith) (λ op' h. same_priority op op' h) (omega arith)
        (tail_takes min_prio n (4 * length us + 1) op x0 r e us rest after (omega arith) right t)
        (omega (arith, size, l))
reads (written_paren {e = x0} ts {ws = ws} w c) f n min_prio rest e after m s o t l =
    let size : length ws ≡ suc (length ts + 1) =
      ap (λ (k : List Token). length k) c ∙ ap suc (length-append ts (punct (text ")") ∷ [])) in
    ap (λ (k : List Token). parse_expr f min_prio (k ++ rest)) c
    ∙ ap (λ (k : List Token). parse_expr f min_prio (punct (text "(") ∷ k))
        (append_assoc ts (punct (text ")") ∷ []) rest)
    ∙ then_tail f n min_prio x0 e (punct (text "(") ∷ (ts ++ (punct (text ")") ∷ rest))) rest after
        (omega (arith, size, l))
        (λ g k. primary_paren g (4 * length ts + 1) x0 ts rest (omega (arith, size, l, k)) (λ g' k'.
          reads w g' 1 0 (punct (text ")") ∷ rest) x0 (punct (text ")") ∷ rest) (omega arith)
            (λ op h. absurd (ground (arith, junction_of-close, h))) (omega arith)
            (tail_stops 0 x0 (punct (text ")") ∷ rest)
              (λ op h. absurd (ground (arith, junction_of-close, h))))
            k'))
        t

-- The tokens that write an expression, before tokens that do not begin with an operator, are read as
-- that expression, for the priorities of the parser, and the rest is left.
pub parse_expr-Written :
    (e : Expr) (ts rest : List Token)
    → Written 0 e ts
    → junction_of (peek rest) ≡ none
    → parse_expr (fuel_for (ts ++ rest)) 0 (ts ++ rest) ≡ parsed e rest
parse_expr-Written e ts rest w h =
    reads w (fuel_for (ts ++ rest)) 1 0 rest e rest (omega arith)
      (λ op k. absurd (ground (arith, h, k))) (omega arith)
      (tail_stops 0 e rest (λ op k. absurd (ground (arith, h, k))))
      (omega (arith, length-append ts rest))
