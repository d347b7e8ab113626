-- ===== src/Server/Pattern/Glob.antt =====
-- internal/server/index_pattern.go: which names a pattern with stars matches.
use mathlib.Core.List.{append_assoc, append-nil}
use go_es.Prelude.{
  ℕ, ◌+◌, ◌-◌, ◌≤◌, ◌≡◌, ◌↔◌, refl, sym, ap, ◌∙◌, true, false, List, [], ◌∷◌, ◌++◌, All, nat_eq,
  nat_eq_iff, Text, text, length, length-append, length-take, take, drop, Bool-cases, inl, inr,
  arith, text_eq_iff,
}
use go_es.Prelude.Strings.{
  overlap, has_prefix, has_suffix, contains_text, has_prefix-drop, has_prefix-append,
  has_suffix-take, has_suffix-append,
}
use go_es.Server.Pattern.{
  star, dot, backslash, is_meta, regexp_quote_meta, replace_stars, split_any, all_occur,
  regexp_match_string, single_star, many_stars,
}

pub single_star_parts :
    (prefix suffix name : Text)
    → single_star prefix suffix name ≡ true
    → (has_prefix name prefix ≡ true)
      × (has_suffix name suffix ≡ true)
      × (length prefix + length suffix ≤ length name)
unfolding single_star
single_star_parts prefix suffix name h = ground (arith, h)

single_star_of :
    (prefix suffix name : Text)
    → has_prefix name prefix ≡ true
    → has_suffix name suffix ≡ true
    → length prefix + length suffix ≤ length name
    → single_star prefix suffix name ≡ true
unfolding single_star
single_star_of prefix suffix name p q h = ground (arith, p, q)

-- With one star, a name matches exactly when it is the text before the star, any text, and the text
-- after it; the two ends do not overlap.
pub single_star_iff :
    (prefix suffix name : Text)
    → (single_star prefix suffix name ≡ true) ↔ ((mid : Text) × (name ≡ prefix ++ (mid ++ suffix)))
single_star_iff prefix suffix name = (to, from)
  where
    to : single_star prefix suffix name ≡ true → (mid : Text) × (name ≡ prefix ++ (mid ++ suffix))
    to h =
        let (p, q, l) = single_star_parts prefix suffix name h in
        let front : Text = take (length name - length suffix) name in
        let rest : Text = drop (length prefix) name in
        let e : name ≡ prefix ++ rest = has_prefix-drop name prefix p in
        let f : name ≡ front ++ suffix = has_suffix-take name suffix q in
        let m : rest ≡ drop (length prefix) front ++ suffix =
          overlap prefix rest front suffix (sym e ∙ f)
            (omega (arith, length-take (length name - length suffix) name)) in
        (drop (length prefix) front, e ∙ ap (λ (r : Text). prefix ++ r) m)

    from : (mid : Text) × (name ≡ prefix ++ (mid ++ suffix)) → single_star prefix suffix name ≡ true
    from (mid, e) =
        let g : name ≡ (prefix ++ mid) ++ suffix = e ∙ sym (append_assoc prefix mid suffix) in
        single_star_of prefix suffix name
          (ap (λ (n : Text). has_prefix n prefix) e ∙ has_prefix-append prefix (mid ++ suffix))
          (ap (λ (n : Text). has_suffix n suffix) g ∙ has_suffix-append (prefix ++ mid) suffix)
          (omega (
            arith,
            ap (λ (n : Text). length n) e,
            length-append prefix (mid ++ suffix),
            length-append mid suffix,
          ))

-- A text without the bytes that `regexpQuoteMeta` escapes.
abbrev pub IsPlain : Text → Type 0
IsPlain s = All (λ c. is_meta c ≡ false) s

plain_byte : (c : ℕ) → is_meta c ≡ false → (nat_eq c backslash ≡ false) × (nat_eq c dot ≡ false)
plain_byte c h = (other backslash meta_backslash, other dot meta_dot)
  where
    meta_backslash : is_meta backslash ≡ true
    meta_backslash = unfold contains_text has_prefix in refl

    meta_dot : is_meta dot ≡ true
    meta_dot = unfold contains_text has_prefix in refl

    other : (d : ℕ) → is_meta d ≡ true → nat_eq c d ≡ false
    other d m = elim (Bool-cases (nat_eq c d)) [
      | inr n ↦ n
      | inl e ↦ let k : is_meta c ≡ true = ap is_meta ((nat_eq_iff c d).0 e) ∙ m in cc
    ]

quote-plain : (s r : Text) → IsPlain s → regexp_quote_meta (s ++ r) ≡ s ++ regexp_quote_meta r
unfolding regexp_quote_meta
quote-plain [] r h = refl
quote-plain (c ∷ s) r h = ground (arith, h.0, quote-plain s r h.1)

quote-star : (r : Text) → regexp_quote_meta (star ∷ r) ≡ backslash ∷ star ∷ regexp_quote_meta r
unfolding regexp_quote_meta contains_text has_prefix
quote-star r = refl

replace_step :
    (c : ℕ) (r : Text) → nat_eq c backslash ≡ false → replace_stars (c ∷ r) ≡ c ∷ replace_stars r
unfolding replace_stars
replace_step c [] h = refl
replace_step c (d ∷ r) h = ground (arith, h)

replace-plain : (s r : Text) → IsPlain s → replace_stars (s ++ r) ≡ s ++ replace_stars r
replace-plain [] r h = refl
replace-plain (c ∷ s) r h =
    replace_step c (s ++ r) (plain_byte c h.0).0 ∙ ap (λ (t : Text). c ∷ t) (replace-plain s r h.1)

replace-star : (r : Text) → replace_stars (backslash ∷ star ∷ r) ≡ dot ∷ star ∷ replace_stars r
unfolding replace_stars
replace-star r = refl

split_step :
    (part : Text) (c : ℕ) (r : Text)
    → nat_eq c dot ≡ false
    → split_any part (c ∷ r) ≡ split_any (part ++ (c ∷ [])) r
unfolding split_any
split_step part c [] h = refl
split_step part c (d ∷ r) h = ground (arith, h)

split-plain : (part s r : Text) → IsPlain s → split_any part (s ++ r) ≡ split_any (part ++ s) r
split-plain part [] r h = ap (λ (p : Text). split_any p r) (sym (append-nil part))
split-plain part (c ∷ s) r h =
    split_step part c (s ++ r) (plain_byte c h.0).1
    ∙ split-plain (part ++ (c ∷ [])) s r h.1
    ∙ ap (λ (p : Text). split_any p r) (append_assoc part (c ∷ []) s)

split-any : (part r : Text) → split_any part (dot ∷ star ∷ r) ≡ part ∷ split_any [] r
unfolding split_any
split-any part r = refl

-- Segments joined by a star, and by `.*`.
abbrev pub join_stars : List Text → Text
join_stars [] = []
join_stars (s ∷ []) = s
join_stars (s ∷ t ∷ ts) = s ++ (star ∷ join_stars (t ∷ ts))

abbrev join_any : List Text → Text
join_any [] = []
join_any (s ∷ []) = s
join_any (s ∷ t ∷ ts) = s ++ (dot ∷ star ∷ join_any (t ∷ ts))

quote_last : (s : Text) → IsPlain s → regexp_quote_meta s ≡ s
unfolding regexp_quote_meta
quote_last s h = ap regexp_quote_meta (sym (append-nil s)) ∙ quote-plain s [] h ∙ append-nil s

replace_last : (s : Text) → IsPlain s → replace_stars s ≡ s
unfolding replace_stars
replace_last s h = ap replace_stars (sym (append-nil s)) ∙ replace-plain s [] h ∙ append-nil s

split_last : (s : Text) → IsPlain s → split_any [] s ≡ s ∷ []
unfolding split_any
split_last s h = ap (split_any []) (sym (append-nil s)) ∙ split-plain [] s [] h

translated :
    (segs : List Text)
    → All IsPlain segs
    → replace_stars (regexp_quote_meta (join_stars segs)) ≡ join_any segs
translated [] h = unfold regexp_quote_meta replace_stars in refl
translated (s ∷ []) h = ap replace_stars (quote_last s h.0) ∙ replace_last s h.0
translated (s ∷ t ∷ ts) h =
    ap replace_stars (
      quote-plain s (star ∷ join_stars (t ∷ ts)) h.0
      ∙ ap (λ (r : Text). s ++ r) (quote-star (join_stars (t ∷ ts))))
    ∙ replace-plain s (backslash ∷ star ∷ regexp_quote_meta (join_stars (t ∷ ts))) h.0
    ∙ ap (λ (r : Text). s ++ r)
        (replace-star (regexp_quote_meta (join_stars (t ∷ ts)))
          ∙ ap (λ (r : Text). dot ∷ star ∷ r) (translated (t ∷ ts) h.1))

split-join_any :
    (s : Text) (segs : List Text)
    → All IsPlain (s ∷ segs)
    → split_any [] (join_any (s ∷ segs)) ≡ s ∷ segs
split-join_any s [] h = split_last s h.0
split-join_any s (t ∷ ts) h =
    split-plain [] s (dot ∷ star ∷ join_any (t ∷ ts)) h.0
    ∙ split-any s (join_any (t ∷ ts))
    ∙ ap (λ (r : List Text). s ∷ r) (split-join_any t ts h.1)

take_front : (front rest : Text) → take (length front) (front ++ rest) ≡ front
take_front [] rest = refl
take_front (c ∷ front) rest = ap (λ (t : Text). c ∷ t) (take_front front rest)

stripped :
    (body : Text)
    → take (length (text "^" ++ (body ++ text "$")) - 2) (drop 1 (text "^" ++ (body ++ text "$")))
      ≡ body
stripped body =
    ap (λ (n : ℕ). take n (body ++ text "$")) (omega (arith, length-append body (text "$")))
    ∙ take_front body (text "$")

anchored :
    (body name : Text)
    → regexp_match_string (text "^" ++ (body ++ text "$")) name ≡ all_occur name (split_any [] body)
unfolding regexp_match_string
anchored body name = ground (
  arith,
  has_prefix-append (text "^") (body ++ text "$"),
  has_suffix-append (text "^" ++ body) (text "$"),
  stripped body,
)

many_stars-join_stars :
    (seg : Text) (segs : List Text) (name : Text)
    → All IsPlain (seg ∷ segs)
    → many_stars (join_stars (seg ∷ segs)) name ≡ all_occur name (seg ∷ segs)
unfolding many_stars
many_stars-join_stars seg segs name h =
    ap (λ (body : Text). regexp_match_string (text "^" ++ (body ++ text "$")) name)
      (translated (seg ∷ segs) h)
    ∙ anchored (join_any (seg ∷ segs)) name
    ∙ ap (all_occur name) (split-join_any seg segs h)

-- A text stands somewhere in a name.
abbrev pub Occurs : Text → Text → Type 0
Occurs name seg = (before : Text) × (after : Text) × (name ≡ before ++ (seg ++ after))

contains_prefix : (name seg : Text) → has_prefix name seg ≡ true → contains_text name seg ≡ true
unfolding contains_text
contains_prefix [] seg h = h
contains_prefix (x ∷ xs) seg h = ground (arith, h)

contains_text-Occurs : (name seg : Text) → contains_text name seg ≡ true → Occurs name seg
unfolding contains_text
contains_text-Occurs [] seg h = ([], drop (length seg) [], has_prefix-drop [] seg h)
contains_text-Occurs (x ∷ xs) seg h = elim (Bool-cases (has_prefix (x ∷ xs) seg)) [
  | inl p ↦ ([], drop (length seg) (x ∷ xs), has_prefix-drop (x ∷ xs) seg p)
  | inr p ↦
      let (before, after, e) = contains_text-Occurs xs seg (ground (arith, h, p)) in
      (x ∷ before, after, ap (λ (n : Text). x ∷ n) e)
]

contains_text_of : (seg before after : Text) → contains_text (before ++ (seg ++ after)) seg ≡ true
unfolding contains_text
contains_text_of seg [] after = contains_prefix (seg ++ after) seg (has_prefix-append seg after)
contains_text_of seg (x ∷ before) after = ground (arith, contains_text_of seg before after)

all_occur-Occurs :
    (name : Text) (segs : List Text) → all_occur name segs ≡ true → All (Occurs name) segs
unfolding all_occur
all_occur-Occurs name [] h = tt
all_occur-Occurs name (seg ∷ segs) h = (
  elim (Bool-cases (contains_text name seg)) [
    | inl c ↦ contains_text-Occurs name seg c
    | inr c ↦
        let empty : seg ≡ [] = ground (arith, h, c, text_eq_iff seg []) in
        ([], name, ap (λ (t : Text). t ++ name) (sym empty))
  ],
  all_occur-Occurs name segs (ground (arith, h)),
)

all_occur_of :
    (name : Text) (segs : List Text) → All (Occurs name) segs → all_occur name segs ≡ true
unfolding all_occur
all_occur_of name [] h = refl
all_occur_of name (seg ∷ segs) ((before, after, e), rest) =
    let found : contains_text name seg ≡ true =
      ap (λ (n : Text). contains_text n seg) e ∙ contains_text_of seg before after in
    ground (arith, found, all_occur_of name segs rest)

-- A pattern of plain segments between stars matches, in the branch for several stars, exactly the names
-- in which each of its segments occurs somewhere: neither the order of the segments nor the ends of the
-- pattern matter.
pub many_stars_iff :
    (seg : Text) (segs : List Text) (name : Text)
    → All IsPlain (seg ∷ segs)
    → (many_stars (join_stars (seg ∷ segs)) name ≡ true) ↔ All (Occurs name) (seg ∷ segs)
many_stars_iff seg segs name h =
    let e = many_stars-join_stars seg segs name h in
    (λ m. all_occur-Occurs name (seg ∷ segs) (sym e ∙ m), λ o. e ∙ all_occur_of name (seg ∷ segs) o)
