-- ===== src/Server/Router/Lookup.antt =====
-- internal/server/router.go: a route without variables is found.
use go_es.Prelude.{
  All, ℕ, ◌≡◌, refl, sym, ap, ◌∙◌, true, false, ◌&&◌, Option, none, some, List, [], ◌∷◌, ◌++◌,
  nat_eq, ◌==◌, Text, text_Comparable, text_eq_iff, arith, Bool-cases, Option-cases, inl, inr,
}
use go_es.Prelude.Maps.{Map, lookup, lookup-insert}
use go_es.Prelude.Strings.{cut, cut_lem, split, prefixed, count_byte}
use go_es.Server.Router.{
  RouteEntry, Router, join_slash, make_key, add_exact, split_key, parts_match, has_var, key_matches,
  first_found, look_up,
}

cut-make_key :
    (method rest : Text)
    → count_byte 32 method ≡ 0
    → cut 32 (method ++ (32 ∷ rest)) ≡ some (method, rest)
unfolding cut count_byte
cut-make_key [] rest h = refl
cut-make_key (c ∷ cs) rest h = ground (arith, h, cut-make_key cs rest)

split_cons :
    (s t : Text) (ts : List Text)
    → count_byte 47 s ≡ 0
    → (rest : Text) → split 47 rest ≡ t ∷ ts
    → split 47 (s ++ (47 ∷ rest)) ≡ s ∷ t ∷ ts
unfolding split count_byte prefixed
split_cons [] t ts h rest e = ap (λ l. [] ∷ l) e
split_cons (c ∷ cs) t ts h rest e = ground (arith, h, split_cons cs t ts (ground (arith, h)) rest e)

split_one : (s : Text) → count_byte 47 s ≡ 0 → split 47 s ≡ s ∷ []
unfolding split count_byte prefixed
split_one [] h = refl
split_one (c ∷ cs) h = ground (arith, h, split_one cs)

-- A segment has no slash.
abbrev pub IsPlain : List Text → Type 0
IsPlain = All (λ s. count_byte 47 s ≡ 0)

split-join_slash :
    (p : Text) (ps : List Text) → IsPlain (p ∷ ps) → split 47 (join_slash (p ∷ ps)) ≡ p ∷ ps
unfolding join_slash
split-join_slash p [] h = split_one p h.0
split-join_slash p (q ∷ qs) h =
    split_cons p q qs h.0 (join_slash (q ∷ qs)) (split-join_slash q qs h.1)

join_slash-prefixed :
    (x : ℕ) (t : Text) (ts : List Text)
    → join_slash (prefixed (x ∷ []) (t ∷ ts)) ≡ x ∷ join_slash (t ∷ ts)
unfolding join_slash prefixed
join_slash-prefixed x t [] = refl
join_slash-prefixed x t (u ∷ us) = refl

split-cases : (s : Text) → (p : Text) × (ps : List Text) × (split 47 s ≡ p ∷ ps)
unfolding split prefixed
split-cases [] = ([], [], refl)
split-cases (c ∷ cs) =
    let rest = split-cases cs in
    elim (Bool-cases (nat_eq c 47)) [
      | inl e ↦ rw e ([], split 47 cs, refl)
      | inr e ↦ rw e (c ∷ rest.0, rest.1, ap (prefixed (c ∷ [])) rest.2)
    ]

join_slash-split : (s : Text) → join_slash (split 47 s) ≡ s
unfolding split join_slash
join_slash-split [] = refl
join_slash-split (c ∷ cs) =
    let rest = split-cases cs in
    let tail : join_slash (rest.0 ∷ rest.1) ≡ cs =
      ap join_slash (sym rest.2) ∙ join_slash-split cs in
    elim (Bool-cases (nat_eq c 47)) [
      | inl e ↦
          let slash : 47 ≡ c = ground (arith, e) in
          rw e
            (ap (λ l. join_slash ([] ∷ l)) rest.2 ∙ ap (λ l. 47 ∷ l) tail ∙ ap (λ k. k ∷ cs) slash)
      | inr e ↦ rw e (
          ap (λ l. join_slash (prefixed (c ∷ []) l)) rest.2
          ∙ join_slash-prefixed c rest.0 rest.1
          ∙ ap (λ l. c ∷ l) tail)
    ]

parts_match_self : (ps : List Text) → parts_match ps ps ≡ true
unfolding parts_match
parts_match_self [] = refl
parts_match_self (p ∷ ps) = ground (arith, parts_match_self ps, text_eq_iff p p)

parts_match-equal : (ks ps : List Text) → has_var ks ≡ false → parts_match ks ps ≡ true → ks ≡ ps
unfolding parts_match has_var
parts_match-equal [] [] v m = refl
parts_match-equal [] (p ∷ ps) v m = ground arith
parts_match-equal (k ∷ ks) [] v m = ground arith
parts_match-equal (k ∷ ks) (p ∷ ps) v m =
    ground (arith, v, m, text_eq_iff k p, parts_match-equal ks ps)

split_key-make_key :
    (method p : Text) (ps : List Text)
    → count_byte 32 method ≡ 0
    → IsPlain (p ∷ ps)
    → split_key (make_key method (p ∷ ps)) ≡ (method, p ∷ ps)
unfolding split_key
split_key-make_key method p ps h plain =
    rw (cut-make_key method (join_slash (p ∷ ps)) h, split_key)
      (ap (λ l. (method, l)) (split-join_slash p ps plain))

-- A key without variables that matches a path is the key of that path.
matching_key :
    (method p : Text) (ps : List Text) (key : Text)
    → key_matches method (p ∷ ps) key ≡ true
    → has_var (split_key key).1 ≡ false
    → key ≡ make_key method (p ∷ ps)
unfolding split_key parts_match
matching_key method p ps key m v = elim (Option-cases (cut 32 key)) [
  | inl e ↦ ground (arith, e, m)
  | inr ((kmethod, kpath), e) ↦
      let whole = (cut_lem 32 key kmethod kpath e).0 in
      let same_method : kmethod ≡ method = ground (arith, e, m, text_eq_iff kmethod method) in
      let same_parts : split 47 kpath ≡ p ∷ ps =
        parts_match-equal (split 47 kpath) (p ∷ ps) (ground (arith, e, v)) (ground (arith, e, m)) in
      whole
      ∙ ap (λ x. x ++ (32 ∷ kpath)) same_method
      ∙ ap (λ x. method ++ (32 ∷ x)) (sym (join_slash-split kpath) ∙ ap join_slash same_parts)
]

module _ (method p : Text) (ps : List Text) (no_space : count_byte 32 method ≡ 0)
    (plain : IsPlain (p ∷ ps)) (no_var : has_var (p ∷ ps) ≡ false) where
  own_key : key_matches method (p ∷ ps) (make_key method (p ∷ ps)) ≡ true
  own_key =
      ap (λ k. k.0 == method && parts_match k.1 (p ∷ ps))
        (split_key-make_key method p ps no_space plain)
      ∙ ground (arith, parts_match_self (p ∷ ps), text_eq_iff method method)

  own_vars : has_var (split_key (make_key method (p ∷ ps))).1 ≡ false
  own_vars = ap (λ k. has_var k.1) (split_key-make_key method p ps no_space plain) ∙ no_var

  -- The loop over the table reaches the entry of a path without variables.
  look_up-lookup :
      {H : Type 0} (table : Map Text (RouteEntry H)) (best : Option (RouteEntry H))
      (e : RouteEntry H)
      → lookup (make_key method (p ∷ ps)) table ≡ some e
      → look_up method (p ∷ ps) table best ≡ some e
  unfolding lookup look_up
  look_up-lookup [] best e h = ground (arith, h)
  look_up-lookup ((key, other) ∷ rest) best e h =
      elim (Bool-cases (key == make_key method (p ∷ ps))) [
        | inl u ↦
            let same : key ≡ make_key method (p ∷ ps) =
              ground (arith, u, text_eq_iff key (make_key method (p ∷ ps))) in
            let it : key_matches method (p ∷ ps) key ≡ true =
              ap (key_matches method (p ∷ ps)) same ∙ own_key in
            let bare : has_var (split_key key).1 ≡ false =
              ap (λ k. has_var (split_key k).1) same ∙ own_vars in
            ground (arith, h, u, it, bare)
        | inr u ↦
            let later : lookup (make_key method (p ∷ ps)) rest ≡ some e = ground (arith, h, u) in
            elim (Bool-cases (key_matches method (p ∷ ps) key)) [
              | inl m ↦ elim (Bool-cases (has_var (split_key key).1)) [
                | inl v ↦ ground (arith, m, v, look_up-lookup rest (first_found best other) e later)
                | inr v ↦
                    let same = matching_key method p ps key m v in
                    ground (arith, u, same, text_eq_iff key (make_key method (p ∷ ps)))
              ]
              | inr m ↦ ground (arith, m, look_up-lookup rest best e later)
            ]
      ]

-- A route without a variable in it answers its own path, whatever is registered before it and in
-- whatever order the table is read: the routes with variables that match the path too give way to it.
-- The method has no space, and the segments have no slash.
pub look_up-add_exact :
    {H : Type 0} (method p : Text) (ps : List Text) (h : H) (rt : Router H)
    → count_byte 32 method ≡ 0
    → IsPlain (p ∷ ps)
    → has_var (p ∷ ps) ≡ false
    → look_up method (p ∷ ps) (add_exact method (p ∷ ps) h rt).exact none
      ≡ some (record { handler = h; template = 47 ∷ join_slash (p ∷ ps) })
unfolding add_exact
look_up-add_exact method p ps h rt no_space plain no_var =
    look_up-lookup method p ps no_space plain no_var _ none _ (
      lookup-insert (make_key method (p ∷ ps)) (make_key method (p ∷ ps)) _ rt.exact
      ∙ ground (arith, text_eq_iff (make_key method (p ∷ ps)) (make_key method (p ∷ ps))))
