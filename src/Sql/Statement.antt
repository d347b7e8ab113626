-- ===== src/Sql/Statement.antt =====
-- pkg/sqldsl/sqldsl.go: the parser of statements ends.
use go_es.Prelude.{
  ℕ, zero, suc, ◌+◌, ◌≤◌, ◌≡◌, ◌≢◌, subst, not, List, [], ◌∷◌, length, if◌then◌else◌, Text, text,
  arith, Bool-cases, ◌||◌, inl, inr,
}
use go_es.Sql.Token.{Token, tk_punct, tk_keyword, tk_ident, tk_number, tk_operator, tk_eof}
use go_es.Sql.Syntax.{SelectStmt}
use go_es.Sql.Parser.{
  Parsed, parsed, rejected, unfinished, and_then, expect, peek, advance, sees, same_type,
  parse_expr, fuel_for, atoi,
}
use go_es.Sql.Select.{
  parse_alias, parse_field, parse_fields, parse_field_list, parse_where, order_term, is_direction,
  parse_order, parse_order_by, parse_number, parse_select,
}
use go_es.Sql.Termination.{
  Within, bind, length-advance, expect-Within, if_Within, on_value-Within, length-advance2, weaken,
  parse_expr-Within,
}

-- A step that leaves no more tokens than there were, before one that does not either.
bind_same :
    {A B : Type 0} (ts : List Token) (r : Parsed A) (next : A → List Token → Parsed B)
    → Within (length ts) r
    → ((a : A) (rest : List Token) → Within (length rest) (next a rest))
    → Within (length ts) (and_then r next)
bind_same ts r next w h =
    bind (length ts) (length ts) r next w
      (λ a rest l. weaken (length rest) (length ts) _ l (h a rest))

-- A step that takes a token first.
bind_next :
    {A B : Type 0} (ts : List Token) (r : Parsed A) (next : A → List Token → Parsed B)
    → Within (length (advance ts)) r
    → ((a : A) (rest : List Token) → Within (length rest) (next a rest))
    → Within (length ts) (and_then r next)
bind_next ts r next w h =
    bind_same ts r next
      (weaken (length (advance ts)) (length ts) r (omega (arith, length-advance ts)) w) h

parse_alias-Within : (ts : List Token) → Within (length ts) (parse_alias ts)
unfolding parse_alias
parse_alias-Within ts =
    if_Within (length ts) (not (sees tk_keyword (text "as") ts)) _ _ (omega arith) (
      if_Within (length ts) (same_type (peek (advance ts)).typ tk_ident) _ _ (length-advance2 ts)
        tt)

parse_field-Within : (ts : List Token) → Within (length ts) (parse_field ts)
unfolding parse_field
parse_field-Within ts =
    if_Within (length ts) (sees tk_keyword (text "count") ts) _ _
      (bind_next ts (expect tk_punct (text "(") tt (advance ts)) _
        (expect-Within _ _ tt (advance ts))
        (λ _ t1.
          bind_same t1 (expect tk_operator (text "*") tt t1) _ (expect-Within _ _ tt t1) (λ _ t2.
            bind_same t2 (expect tk_punct (text ")") tt t2) _ (expect-Within _ _ tt t2) (λ _ t3.
              bind_same t3 (parse_alias t3) _ (parse_alias-Within t3) (λ _ rest. omega arith)))))
      (if_Within (length ts) (same_type (peek ts).typ tk_ident) _ _
        (omega (arith, length-advance ts)) tt)

-- What follows an item of a list.
after_item :
    {A : Type 0} (n : ℕ) (rest : List Token) (more : List Token → Parsed A) (a : A)
    → length rest ≤ n
    → ((ts : List Token) → suc (length ts) ≤ n → Within n (more ts))
    → Within n (if sees tk_punct (text ",") rest then more (advance rest) else parsed a rest)
after_item n [] more a l h = omega arith
after_item n (t ∷ ts) more a l h =
    if_Within n (sees tk_punct (text ",") (t ∷ ts)) _ _ (h ts (omega arith)) l

parse_fields-Within :
    (fuel : ℕ) (ts : List Token) → length ts + 1 ≤ fuel → Within (length ts) (parse_fields fuel ts)
unfolding parse_fields
parse_fields-Within zero ts h = absurd (omega arith)
parse_fields-Within (suc fuel) ts h =
    bind (length ts) (length ts) (parse_field ts) _ (parse_field-Within ts) (λ f rest l.
      after_item (length ts) rest
        (λ us. and_then (parse_fields fuel us) (λ fs after. parsed (f ∷ fs) after)) (f ∷ []) l
        (λ us k.
          bind (length us) (length ts) (parse_fields fuel us) (λ fs after. parsed (f ∷ fs) after)
            (parse_fields-Within fuel us (omega arith)) (λ fs after m. omega arith)))

parse_field_list-Within : (ts : List Token) → Within (length ts) (parse_field_list ts)
unfolding parse_field_list
parse_field_list-Within ts =
    if_Within (length ts) (sees tk_operator (text "*") ts) _ _ (omega (arith, length-advance ts)) (
      bind_same ts (parse_fields (suc (length ts)) ts) _
        (parse_fields-Within (suc (length ts)) ts (omega arith)) (λ fs rest. omega arith))

parse_where-Within : (ts : List Token) → Within (length ts) (parse_where ts)
unfolding parse_where
parse_where-Within ts =
    if_Within (length ts) (sees tk_keyword (text "where") ts) _ _
      (bind_next ts (parse_expr (fuel_for (advance ts)) 0 (advance ts)) _
        (parse_expr-Within 0 (advance ts)) (λ e rest. omega arith))
      (omega arith)

length-order_term : (name : Text) (ts : List Token) → length ((order_term name ts).1) ≤ length ts
length-order_term name ts = elim (Bool-cases (is_direction ts)) [
  | inl e ↦ rw e (omega (arith, length-advance ts))
  | inr e ↦ rw e (omega arith)
]

parse_order-Within :
    (fuel : ℕ) (ts : List Token) → length ts + 1 ≤ fuel → Within (length ts) (parse_order fuel ts)
unfolding parse_order
parse_order-Within zero ts h = absurd (omega arith)
parse_order-Within (suc fuel) ts h =
    if_Within (length ts) (not (same_type (peek ts).typ tk_ident)) _ _ tt (
      let first = order_term (peek ts).value (advance ts) in
      after_item (length ts) first.1
        (λ us. and_then (parse_order fuel us) (λ os after. parsed (first.0 ∷ os) after))
        (first.0 ∷ [])
        (omega (arith, length-order_term (peek ts).value (advance ts), length-advance ts))
        (λ us k.
          bind (length us) (length ts) (parse_order fuel us)
            (λ os after. parsed (first.0 ∷ os) after) (parse_order-Within fuel us (omega arith))
            (λ os after m. omega arith)))

parse_order_by-Within : (ts : List Token) → Within (length ts) (parse_order_by ts)
unfolding parse_order_by
parse_order_by-Within ts =
    if_Within (length ts) (sees tk_keyword (text "order") ts) _ _
      (bind_next ts (expect tk_keyword (text "by") tt (advance ts)) _
        (expect-Within _ _ tt (advance ts))
        (λ _ rest. parse_order-Within (suc (length rest)) rest (omega arith)))
      (omega arith)

parse_number-Within : (kw : Text) (ts : List Token) → Within (length ts) (parse_number kw ts)
unfolding parse_number
parse_number-Within kw ts = if_Within (length ts) (not (sees tk_keyword kw ts)) _ _ (omega arith) (
    if_Within (length ts) (not (same_type (peek (advance ts)).typ tk_number)) _ _ tt (
      on_value-Within (length ts) (atoi (peek (advance ts)).value) rejected _ tt
        (λ n e. length-advance2 ts)))

parse_select-Within : (ts : List Token) → Within (length ts) (parse_select ts)
unfolding parse_select
parse_select-Within ts =
    bind_same ts (expect tk_keyword (text "select") tt ts) _ (expect-Within _ _ tt ts) (λ _ t1.
      bind_same t1 (parse_field_list t1) _ (parse_field_list-Within t1) (λ fields t2.
        bind_same t2 (expect tk_keyword (text "from") tt t2) _ (expect-Within _ _ tt t2) (λ _ t3.
          if_Within (length t3) (not (same_type (peek t3).typ tk_ident)) _ _ tt (
            bind_next t3 (parse_where (advance t3)) _ (parse_where-Within (advance t3)) (λ cond t4.
              bind_same t4 (parse_order_by t4) _ (parse_order_by-Within t4) (λ order t5.
                bind_same t5 (parse_number (text "limit") t5) _ (parse_number-Within _ t5)
                  (λ limit t6.
                    bind_same t6 (parse_number (text "offset") t6) _ (parse_number-Within _ t6)
                      (λ offset t7.
                        if_Within (length t7)
                          (same_type (peek t7).typ tk_eof || sees tk_punct (text ";") t7) _ _
                          (omega arith) tt))))))))

-- The parser of statements ends on every list of tokens: with its fuels it accepts or rejects, and
-- what it accepts leaves no more tokens than there were.
pub parse_select-ends :
    (ts : List Token)
    → (parse_select ts ≢ unfinished)
      × ((s : SelectStmt) (rest : List Token)
          → parse_select ts ≡ parsed s rest
          → length rest ≤ length ts)
parse_select-ends ts =
    let w = parse_select-Within ts in
    (λ e. subst (Within (length ts)) e w, λ s rest h. subst (Within (length ts)) h w)
