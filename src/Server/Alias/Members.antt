-- ===== src/Server/Alias/Members.antt =====
-- internal/server/alias.go: the members of the aliases.
use go_es.Prelude.{
  ◌≡◌, ◌≢◌, refl, sym, ap, ◌∙◌, subst, Bool, true, false, not, ◌&&◌, ◌||◌, Option, none, some, List,
  [], ◌∷◌, ◌++◌, List-cases, if◌then◌else◌, ◌==◌, Text, text_Comparable, text_eq, text_eq_iff,
  Bool-cases, Option-cases, inl, inr, ◌⊎◌, arith,
}
use go_es.Prelude.Maps.{lookup, insert, delete, lookup-insert, lookup-delete}
use go_es.Prelude.Sets.{contains, remove, contains-remove, contains-append}
use go_es.Server.Alias.{
  AliasStore, AliasOp, AliasesAction, members, or_empty, get_list, add_alias, remove_alias,
  apply_action, apply_actions, handle_aliases_update,
}

-- No index twice.
abbrev pub IsDistinct : List Text → Type 0
IsDistinct [] = Unit
IsDistinct (x ∷ xs) = (contains x xs ≡ false) × IsDistinct xs

-- A list under an alias is not empty and has no index twice.
abbrev pub IsGood : Option (List Text) → Type 0
IsGood none = Unit
IsGood (some list) = (list ≢ []) × IsDistinct list

unfoldable pub IsValid : AliasStore → Type 0
IsValid s = (alias : Text) → IsGood (lookup alias s.aliases)

append-IsDistinct :
    (x : Text) (xs : List Text)
    → contains x xs ≡ false
    → IsDistinct xs
    → IsDistinct (xs ++ (x ∷ []))
unfolding contains
append-IsDistinct x [] h d = (refl, tt)
append-IsDistinct x (y ∷ ys) h d = (
  ground (arith, contains-append y ys (x ∷ []), h, d.0, text_eq_iff x y, text_eq_iff y x),
  append-IsDistinct x ys (ground (arith, h)) d.1,
)

remove-IsDistinct : (x : Text) (xs : List Text) → IsDistinct xs → IsDistinct (remove x xs)
unfolding remove
remove-IsDistinct x [] d = tt
remove-IsDistinct x (y ∷ ys) d = elim (Bool-cases (text_eq y x)) [
  | inl e ↦ rw (e, remove) (remove-IsDistinct x ys d.1)
  | inr n ↦ rw (n, remove) (ground (arith, contains-remove x y ys, d.0), remove-IsDistinct x ys d.1)
]

insert-IsValid :
    (alias : Text) (list : List Text) (s : AliasStore)
    → IsValid s
    → IsGood (some list)
    → IsValid (record s { aliases = insert alias list s.aliases })
unfolding IsValid
insert-IsValid alias list s v g other =
    subst IsGood (sym (lookup-insert alias other list s.aliases)) (chosen (text_eq alias other))
  where
    chosen : (b : Bool) → IsGood (if b then some list else lookup other s.aliases)
    chosen true = g
    chosen false = v other

delete-IsValid :
    (alias : Text) (s : AliasStore)
    → IsValid s
    → IsValid (record s { aliases = delete alias s.aliases })
unfolding IsValid
delete-IsValid alias s v other =
    subst IsGood (sym (lookup-delete alias other s.aliases)) (chosen (text_eq alias other))
  where
    chosen : (b : Bool) → IsGood (if b then none else lookup other s.aliases)
    chosen true = tt
    chosen false = v other

append_nonempty : (xs : List Text) (x : Text) → xs ++ (x ∷ []) ≢ []
append_nonempty [] x e = cc
append_nonempty (y ∷ ys) x e = cc

IsGood-IsDistinct : (o : Option (List Text)) → IsGood o → IsDistinct (or_empty o)
IsGood-IsDistinct none g = tt
IsGood-IsDistinct (some list) g = g.1

members-IsDistinct : (alias : Text) (s : AliasStore) → IsValid s → IsDistinct (members alias s)
unfolding IsValid
members-IsDistinct alias s v = IsGood-IsDistinct (lookup alias s.aliases) (v alias)

-- What the code reads under the alias, also where the read fails.
abbrev read_members : AliasOp → AliasStore → List Text
read_members op s = or_empty (get_list op s)

read_members-IsDistinct :
    (op : AliasOp) (s : AliasStore) → IsValid s → IsDistinct (read_members op s)
read_members-IsDistinct op s v = elim (Bool-cases op.get_fails) [
  | inl e ↦ rw e tt
  | inr e ↦ rw e (members-IsDistinct op.alias s v)
]

-- What an addition and a removal leave.
add_leaves :
    (op : AliasOp) (s : AliasStore)
    → ((add_alias op s).0 ≡ s)
      ⊎ (((add_alias op s).0 ≡ record s {
        aliases = insert op.alias (read_members op s ++ (op.index ∷ [])) s.aliases;
      })
          × (contains op.index (read_members op s) ≡ false))
unfolding add_alias
add_leaves op s = ground arith

remove_leaves :
    (op : AliasOp) (s : AliasStore)
    → ((remove_alias op s).0 ≡ s)
      ⊎ (((remove_alias op s).0 ≡ record s { aliases = delete op.alias s.aliases })
          ⊎ ((x : Text) × (xs : List Text) × ((remove_alias op s).0
                ≡ record s { aliases = insert op.alias (x ∷ xs) s.aliases })
              × (remove op.index (read_members op s) ≡ x ∷ xs)))
unfolding remove_alias
remove_leaves op s = elim (Option-cases (get_list op s)) [
  | inl e ↦ inl (ground (arith, e))
  | inr (list, e) ↦ elim (List-cases (remove op.index list)) [
    | inl n ↦ ground (arith, e, n)
    | inr (x, xs, n) ↦ elim (Bool-cases (op.index == [] || op.alias == [])) [
      | inl b ↦ inl (ground (arith, e, n, b))
      | inr b ↦ elim (Option-cases op.put) [
        | inl o ↦ inr (inr (x, xs, ground (arith, e, n, b, o), ground (arith, e, n)))
        | inr (reason, o) ↦ inl (ground (arith, e, n, b, o))
      ]
    ]
  ]
]

-- The same where the reads and the deletion succeed.
add_cases :
    (op : AliasOp) (s : AliasStore)
    → op.get_fails ≡ false
    → (((add_alias op s).0 ≡ s)
        × ((add_alias op s).1 ≡ none → contains op.index (members op.alias s) ≡ true))
      ⊎ (((add_alias op s).0 ≡ record s {
        aliases = insert op.alias (members op.alias s ++ (op.index ∷ [])) s.aliases;
      })
          × (contains op.index (members op.alias s) ≡ false))
unfolding add_alias
add_cases op s r = ground (arith, r)

remove_cases :
    (op : AliasOp) (s : AliasStore)
    → op.get_fails ≡ false
    → op.delete_fails ≡ false
    → (((remove_alias op s).0 ≡ s) × ((remove_alias op s).1 ≡ none → members op.alias s ≡ []))
      ⊎ ((((remove_alias op s).0 ≡ record s { aliases = delete op.alias s.aliases })
            × (remove op.index (members op.alias s) ≡ []))
          ⊎ ((x : Text) × (xs : List Text) × ((remove_alias op s).0
                ≡ record s { aliases = insert op.alias (x ∷ xs) s.aliases })
              × (remove op.index (members op.alias s) ≡ x ∷ xs)))
unfolding remove_alias
remove_cases op s r r' = elim (Option-cases (lookup op.alias s.aliases)) [
  | inl e ↦ inl (ground (arith, r, r', e), ground (arith, r, r', e))
  | inr (list, e) ↦ elim (List-cases (remove op.index list)) [
    | inl n ↦ ground (arith, r, r', e, n)
    | inr (x, xs, n) ↦ elim (Bool-cases (op.index == [] || op.alias == [])) [
      | inl b ↦ inl (ground (arith, r, r', e, n, b), ground (arith, r, r', e, n, b))
      | inr b ↦ elim (Option-cases op.put) [
        | inl o ↦ inr (inr (x, xs, ground (arith, r, r', e, n, b, o), ground (arith, r, r', e, n)))
        | inr (reason, o) ↦
            inl (ground (arith, r, r', e, n, b, o), ground (arith, r, r', e, n, b, o))
      ]
    ]
  ]
]

add_alias-IsValid : (op : AliasOp) (s : AliasStore) → IsValid s → IsValid (add_alias op s).0
add_alias-IsValid op s v = elim (add_leaves op s) [
  | inl e ↦ subst IsValid (sym e) v
  | inr (e, c) ↦ subst IsValid (sym e) (
      insert-IsValid op.alias (read_members op s ++ (op.index ∷ [])) s v (
        append_nonempty (read_members op s) op.index,
        append-IsDistinct op.index (read_members op s) c (read_members-IsDistinct op s v),
      ))
]

remove_alias-IsValid : (op : AliasOp) (s : AliasStore) → IsValid s → IsValid (remove_alias op s).0
remove_alias-IsValid op s v = elim (remove_leaves op s) [
  | inl e ↦ subst IsValid (sym e) v
  | inr (inl e) ↦ subst IsValid (sym e) (delete-IsValid op.alias s v)
  | inr (inr (x, xs, e, r)) ↦ subst IsValid (sym e) (
      insert-IsValid op.alias (x ∷ xs) s v (
        λ n. cc,
        subst IsDistinct r
            (remove-IsDistinct op.index (read_members op s) (read_members-IsDistinct op s v)),
      ))
]

apply_action-IsValid :
    (act : AliasesAction) (s : AliasStore) → IsValid s → IsValid (apply_action act s).0
unfolding apply_action
apply_action-IsValid act s v = elim (Option-cases act.add) [
  | inl n ↦ elim (Option-cases act.remove) [
    | inl m ↦ ground (arith, n, m)
    | inr (op, m) ↦ ground (arith, n, m, remove_alias-IsValid op s v)
  ]
  | inr (op, n) ↦
      let w = add_alias-IsValid op s v in
      elim (Option-cases act.remove) [
        | inl m ↦ ground (arith, n, m)
        | inr (op', m) ↦ ground (arith, n, m, remove_alias-IsValid op' (add_alias op s).0 w)
      ]
]

apply_actions-IsValid :
    (acts : List AliasesAction) (s : AliasStore) → IsValid s → IsValid (apply_actions acts s).0
unfolding apply_actions
apply_actions-IsValid [] s v = v
apply_actions-IsValid (act ∷ acts) s v =
    let w = apply_action-IsValid act s v in
    ground (arith, w, apply_actions-IsValid acts (apply_action act s).0 w)

-- However an update of aliases ends, and whichever calls of the store fail: if before it each alias in the store
-- has at least one index and none twice, then so it has after it.
pub handle_aliases_update-IsValid :
    (body : Option (List AliasesAction)) (s : AliasStore)
    → IsValid s
    → IsValid (handle_aliases_update body s).0
unfolding handle_aliases_update
handle_aliases_update-IsValid none s v = v
handle_aliases_update-IsValid (some acts) s v = ground (arith, apply_actions-IsValid acts s v)

contains_one : (j i : Text) → contains j (i ∷ []) ≡ (i == j)
unfolding contains
contains_one j i = ground arith

contains_none : (j : Text) → contains j [] ≡ false
unfolding contains
contains_none j = refl

-- An addition without an error adds the index to the alias and changes no other membership; a
-- removal without an error takes it out and changes no other, if the read of the list and its deletion
-- succeed.
pub members_after :
    (op : AliasOp) (s : AliasStore) (alias index : Text)
    → op.get_fails ≡ false
    → op.delete_fails ≡ false
    → ((add_alias op s).1 ≡ none
        → contains index (members alias (add_alias op s).0)
          ≡ ((op.alias == alias && op.index == index) || contains index (members alias s)))
      × ((remove_alias op s).1 ≡ none
          → contains index (members alias (remove_alias op s).0)
            ≡ (not (op.alias == alias && op.index == index) && contains index (members alias s)))
members_after op s alias index r r' = (added, removed)
  where
    added :
        (add_alias op s).1 ≡ none
        → contains index (members alias (add_alias op s).0)
          ≡ ((op.alias == alias && op.index == index) || contains index (members alias s))
    added h = elim (add_cases op s r) [
      | inl (e, c) ↦
          rw e (ground (arith, c h, text_eq_iff op.alias alias, text_eq_iff op.index index))
      | inr (e, c) ↦
          ap (λ (t : AliasStore). contains index (members alias t)) e
          ∙ ap (λ (o : Option (List Text)). contains index (or_empty o))
              (lookup-insert op.alias alias (members op.alias s ++ (op.index ∷ [])) s.aliases)
          ∙ ground (
            arith,
            text_eq_iff op.alias alias,
            contains-append index (members op.alias s) (op.index ∷ []),
            contains_one index op.index,
          )
    ]

    removed :
        (remove_alias op s).1 ≡ none
        → contains index (members alias (remove_alias op s).0)
          ≡ (not (op.alias == alias && op.index == index) && contains index (members alias s))
    removed h =
        let kept = contains-remove op.index index (members op.alias s) in
        elim (remove_cases op s r r') [
          | inl (e, c) ↦
              ap (λ (t : AliasStore). contains index (members alias t)) e
              ∙ ground (
                arith,
                ap (contains index) (c h),
                contains_none index,
                text_eq_iff op.alias alias,
              )
          | inr (inl (e, r)) ↦
              ap (λ (t : AliasStore). contains index (members alias t)) e
              ∙ ap (λ (o : Option (List Text)). contains index (or_empty o))
                  (lookup-delete op.alias alias s.aliases)
              ∙ ground (
                arith,
                kept,
                ap (contains index) r,
                contains_none index,
                text_eq_iff op.alias alias,
              )
          | inr (inr (x, xs, e, q)) ↦
              ap (λ (t : AliasStore). contains index (members alias t)) e
              ∙ ap (λ (o : Option (List Text)). contains index (or_empty o))
                  (lookup-insert op.alias alias (x ∷ xs) s.aliases)
              ∙ ground (arith, kept, ap (contains index) q, text_eq_iff op.alias alias)
        ]
