-- ===== src/Sql/Termination.antt =====
-- pkg/sqldsl/sqldsl.go: the parser of expressions ends.
use go_es.Prelude.{
  ℕ, zero, suc, ◌+◌, ◌*◌, ◌-◌, ◌≤◌, ◌≡◌, ◌≢◌, refl, subst, Bool, true, false, not, Option, none,
  some, List, [], ◌∷◌, length, if◌then◌else◌, ltb, Text, text, Bool-cases, inl, inr, arith,
}
use go_es.Sql.Token.{Token, TokenType, tk_punct, tk_keyword, tk_ident, tk_operator}
use go_es.Sql.Syntax.{Expr, Test, bin_op}
use go_es.Sql.Parser.{
  Parsed, parsed, rejected, unfinished, on_value, and_then, expect, peek, advance, sees, same_type,
  is_token, literal_of, parse_list, like_of, parse_test, finish, junction_of, priority, parse_expr,
  parse_tail, parse_primary, fuel_for,
}

-- Not out of fuel, and at most `n` tokens are left.
abbrev pub Within : {A : Type 0} → ℕ → Parsed A → Type 0
Within n (parsed a ts) = length ts ≤ n
Within n rejected = Unit
Within n unfinished = ⊥

pub bind :
    {A B : Type 0} (n m : ℕ) (r : Parsed A) (next : A → List Token → Parsed B)
    → Within n r
    → ((a : A) (ts : List Token) → length ts ≤ n → Within m (next a ts))
    → Within m (and_then r next)
unfolding and_then
bind n m (parsed a ts) next w h = h a ts w
bind n m rejected next w h = tt
bind n m unfinished next w h = w

pub length-advance : (ts : List Token) → length (advance ts) ≤ length ts - 1
length-advance [] = omega arith
length-advance (t ∷ ts) = omega arith

pub expect-Within :
    {A : Type 0} (typ : TokenType) (value : Text) (a : A) (ts : List Token)
    → Within (length ts) (expect typ value a ts)
unfolding expect
expect-Within typ value a ts = elim (Bool-cases (sees typ value ts)) [
  | inl e ↦ rw e (omega (arith, length-advance ts))
  | inr e ↦ rw e tt
]

pub if_Within :
    {A : Type 0} (n : ℕ) (b : Bool) (x y : Parsed A)
    → Within n x
    → Within n y
    → Within n (if b then x else y)
if_Within n true x y h g = h
if_Within n false x y h g = g

pub on_value-Within :
    {X A : Type 0} (n : ℕ) (o : Option X) (other : Parsed A) (next : X → Parsed A)
    → Within n other
    → ((x : X) → o ≡ some x → Within n (next x))
    → Within n (on_value o other next)
on_value-Within n none other next w h = w
on_value-Within n (some x) other next w h = h x refl

parse_list-Within : (ts : List Token) → Within (length ts) (parse_list ts)
unfolding parse_list
parse_list-Within [] = tt
parse_list-Within (t ∷ []) = tt
parse_list-Within (t ∷ u ∷ ts) =
    on_value-Within (length (t ∷ u ∷ ts)) (literal_of t) rejected _ tt (λ v e.
      if_Within (length (t ∷ u ∷ ts)) (is_token tk_punct (text ",") u) _ _
        (bind (length ts) (length (t ∷ u ∷ ts)) (parse_list ts) _ (parse_list-Within ts)
          (λ vals rest l.
            on_value-Within (length (t ∷ u ∷ ts)) (literal_of t) rejected _ tt
              (λ w f. omega arith)))
        (if_Within (length (t ∷ u ∷ ts)) (is_token tk_punct (text ")") u) _ _ (omega arith) tt))

finish-Within : (n : ℕ) (o : Option Test) (ts : List Token) → length ts ≤ n → Within n (finish o ts)
finish-Within n none ts h = tt
finish-Within n (some t) ts h = h

pub length-advance2 : (ts : List Token) → length (advance (advance ts)) ≤ length ts
length-advance2 ts = omega (arith, length-advance ts, length-advance (advance ts))

pub weaken : {A : Type 0} (n m : ℕ) (r : Parsed A) → n ≤ m → Within n r → Within m r
weaken n m (parsed a ts) h w = omega (arith, w)
weaken n m rejected h w = tt
weaken n m unfinished h w = w

parse_test-Within : (field : Text) (ts : List Token) → Within (length ts) (parse_test field ts)
unfolding parse_test
parse_test-Within field ts =
    if_Within (length ts) (sees tk_keyword (text "in") ts) _ _
      (bind (length ts) (length ts) (expect tk_punct (text "(") tt (advance ts)) _
        (weaken (length (advance ts)) (length ts) _ (omega (arith, length-advance ts))
          (expect-Within tk_punct (text "(") tt (advance ts)))
        (λ _ rest l.
          bind (length rest) (length ts) (parse_list rest) _ (parse_list-Within rest)
            (λ vals after k. omega arith)))
      (if_Within (length ts) (sees tk_keyword (text "like") ts) _ _
        (finish-Within (length ts) (like_of field (peek (advance ts))) (advance (advance ts))
          (length-advance2 ts))
        (if_Within (length ts) (not (same_type (peek ts).typ tk_operator)) _ _ tt (
          on_value-Within (length ts) (literal_of (peek (advance ts))) rejected _ tt
            (λ v e. length-advance2 ts))))

mutual
  unfolding parse_expr junction_of

  expr_ends :
      (fuel min_prio : ℕ) (ts : List Token)
      → 4 * length ts + 4 ≤ fuel
      → Within (length ts) (parse_expr fuel min_prio ts)
  expr_ends zero min_prio ts h = absurd (omega arith)
  expr_ends (suc fuel) min_prio ts h =
      bind (length ts - 1) (length ts) (parse_primary fuel ts) _
        (primary_ends fuel ts (omega arith))
        (λ left rest l.
          weaken (length rest) (length ts) _ (omega arith)
            (tail_ends fuel min_prio left rest (omega arith)))

  tail_ends :
      (fuel min_prio : ℕ) (left : Expr) (ts : List Token)
      → 4 * length ts + 1 ≤ fuel
      → Within (length ts) (parse_tail fuel min_prio left ts)
  tail_ends zero min_prio left ts h = absurd (omega arith)
  tail_ends (suc fuel) min_prio left [] h = omega arith
  tail_ends (suc fuel) min_prio left (t ∷ ts) h =
      on_value-Within (length (t ∷ ts)) (junction_of t) (parsed left (t ∷ ts)) _ (omega arith)
        (λ op e. if_Within (length (t ∷ ts)) (ltb (priority op) min_prio) _ _ (omega arith) (
          bind (length ts) (length (t ∷ ts)) (parse_expr fuel (priority op + 1) ts) _
            (expr_ends fuel (priority op + 1) ts (omega arith))
            (λ right rest l.
              weaken (length rest) (length (t ∷ ts)) _ (omega arith)
                (tail_ends fuel min_prio (bin_op op left right) rest (omega arith)))))

  primary_ends :
      (fuel : ℕ) (ts : List Token)
      → 4 * length ts + 3 ≤ fuel
      → Within (length ts - 1) (parse_primary fuel ts)
  primary_ends zero ts h = absurd (omega arith)
  primary_ends (suc fuel) [] h = tt
  primary_ends (suc fuel) (t ∷ ts) h =
      if_Within (length (t ∷ ts) - 1) (sees tk_punct (text "(") (t ∷ ts)) _ _
        (bind (length ts) (length (t ∷ ts) - 1) (parse_expr fuel 0 ts) _
          (expr_ends fuel 0 ts (omega arith))
          (λ e rest l.
            weaken (length rest) (length (t ∷ ts) - 1) _ (omega arith)
              (expect-Within tk_punct (text ")") e rest)))
        (if_Within (length (t ∷ ts) - 1) (not (same_type t.typ tk_ident)) _ _ tt (
          bind (length ts) (length (t ∷ ts) - 1) (parse_test t.value ts) _
            (parse_test-Within t.value ts) (λ x rest l. omega arith)))

pub parse_expr-Within :
    (min_prio : ℕ) (ts : List Token) → Within (length ts) (parse_expr (fuel_for ts) min_prio ts)
parse_expr-Within min_prio ts = expr_ends (fuel_for ts) min_prio ts (omega arith)

-- The parser of expressions ends on every list of tokens: with the fuel of four for each token and
-- four more it accepts or rejects, and what it accepts leaves no more tokens than there were.
pub parse_expr-ends :
    (min_prio : ℕ) (ts : List Token)
    → (parse_expr (fuel_for ts) min_prio ts ≢ unfinished)
      × ((e : Expr) (rest : List Token)
          → parse_expr (fuel_for ts) min_prio ts ≡ parsed e rest
          → length rest ≤ length ts)
parse_expr-ends min_prio ts =
    let w = parse_expr-Within min_prio ts in
    (λ e. subst (Within (length ts)) e w, λ e rest h. subst (Within (length ts)) h w)
