-- ===== src/Prelude/Strings.antt =====
-- Go's `strings` on byte strings: prefixes, suffixes, substrings, splitting and trimming.
use Prim.Native.Nat.{ℕ, ◌+◌, ◌-◌, ◌≤◌}
use mathlib.Core.Path.{◌≡◌, refl, sym, ap, ◌∙◌}
use mathlib.Core.Logic.{inl, inr}
use mathlib.Core.Bool.{Bool, true, false, ◌&&◌, ◌||◌}
use mathlib.Core.Option.{Option, none, some}
use mathlib.Core.List.{List, [], ◌∷◌, ◌++◌}
use native.Mathlib.Omega.{arith}
use go_es.Prelude.Tests.{leb, nat_eq, nat_eq_iff, if◌then◌else◌, Bool-cases, Option-cases}
use go_es.Prelude.Equality.{Text, text_eq, text_eq_iff}
use go_es.Prelude.Lists.{length, drop, length-append, take, take-append-drop}

unfoldable pub has_prefix : Text → Text → Bool
has_prefix s [] = true
has_prefix [] (p ∷ ps) = false
has_prefix (x ∷ xs) (p ∷ ps) = nat_eq x p && has_prefix xs ps

unfoldable pub has_suffix : Text → Text → Bool
has_suffix s suffix =
    leb (length suffix) (length s) && text_eq (drop (length s - length suffix) s) suffix

-- `strings.Contains`
unfoldable pub contains_text : Text → Text → Bool
unfolding has_prefix
contains_text [] sub = has_prefix [] sub
contains_text (x ∷ xs) sub = has_prefix (x ∷ xs) sub || contains_text xs sub

unfoldable pub count_byte : ℕ → Text → ℕ
count_byte c [] = 0
count_byte c (x ∷ xs) = (if nat_eq x c then 1 else 0) + count_byte c xs

-- The text around the first `c`.
unfoldable pub cut : ℕ → Text → Option (Text × Text)
cut c [] = none
cut c (x ∷ xs) =
    if nat_eq x c
    then some ([], xs)
    else elim (cut c xs) [ none ↦ none | some (before, after) ↦ some (x ∷ before, after) ]

unfoldable pub prefixed : Text → List Text → List Text
prefixed front [] = front ∷ []
prefixed front (part ∷ parts) = (front ++ part) ∷ parts

-- `strings.Split` at one byte.
unfoldable pub split : ℕ → Text → List Text
unfolding prefixed
split c [] = [] ∷ []
split c (x ∷ xs) = let rest = split c xs in if nat_eq x c then [] ∷ rest else prefixed (x ∷ []) rest

-- `strings.TrimLeft` and `TrimRight` by a test on bytes.
unfoldable pub trim_left : (ℕ → Bool) → Text → Text
trim_left test [] = []
trim_left test (x ∷ xs) = let rest = trim_left test xs in if test x then rest else x ∷ xs

unfoldable pub trim_right : (ℕ → Bool) → Text → Text
trim_right test [] = []
trim_right test (x ∷ xs) = elim (trim_right test xs) [
  | [] ↦ if test x then [] else x ∷ []
  | y ∷ ys ↦ x ∷ y ∷ ys
]

unfoldable pub trim : (ℕ → Bool) → Text → Text
unfolding trim_left trim_right
trim test s = trim_right test (trim_left test s)

-- The ASCII bytes that `strings.TrimSpace` trims.
abbrev pub is_space : ℕ → Bool
is_space c = nat_eq c 32 || (leb 9 c && leb c 13)

-- A prefix and what follows it.
pub has_prefix-drop : (s p : Text) → has_prefix s p ≡ true → s ≡ p ++ drop (length p) s
unfolding has_prefix
has_prefix-drop s [] h = refl
has_prefix-drop [] (p ∷ ps) h = cc
has_prefix-drop (x ∷ xs) (p ∷ ps) h = ground (arith, has_prefix-drop xs ps, nat_eq_iff x p)

pub has_prefix-append : (p rest : Text) → has_prefix (p ++ rest) p ≡ true
unfolding has_prefix
has_prefix-append [] rest = refl
has_prefix-append (x ∷ xs) rest = ground (arith, has_prefix-append xs rest)

pub has_suffix-take : (s q : Text) → has_suffix s q ≡ true → s ≡ take (length s - length q) s ++ q
unfolding has_suffix
has_suffix-take s q h =
    sym (take-append-drop (length s - length q) s)
    ∙ ap (λ r. take (length s - length q) s ++ r)
        ((text_eq_iff (drop (length s - length q) s) q).0 (ground (arith, h)))

drop-append : (front rest : Text) → drop (length front) (front ++ rest) ≡ rest
drop-append [] rest = refl
drop-append (x ∷ xs) rest = drop-append xs rest

pub has_suffix-append : (front q : Text) → has_suffix (front ++ q) q ≡ true
unfolding has_suffix
has_suffix-append front q =
    let e : length (front ++ q) - length q ≡ length front = omega (arith, length-append front q) in
    let d : drop (length (front ++ q) - length q) (front ++ q) ≡ q = rw e (drop-append front q) in
    ground (
      arith,
      length-append front q,
      d,
      text_eq_iff (drop (length (front ++ q) - length q) (front ++ q)) q,
    )

-- A cut at the first `c` puts the text together again, and its front has no `c`.
pub cut_lem :
    (c : ℕ) (s before after : Text)
    → cut c s ≡ some (before, after)
    → (s ≡ before ++ (c ∷ after)) × (count_byte c before ≡ 0)
unfolding cut count_byte
cut_lem c [] before after h = cc
cut_lem c (x ∷ xs) before after h = elim (Bool-cases (nat_eq x c)) [
  | inl e ↦ ground (arith, e, h, nat_eq_iff x c)
  | inr n ↦ elim (Option-cases (cut c xs)) [
    | inl e ↦ ground (arith, n, e, h)
    | inr ((before', after'), e) ↦ ground (arith, n, e, h, cut_lem c xs before' after')
  ]
]

-- Two ways to cut one text.
pub overlap :
    (p rest front q : Text)
    → p ++ rest ≡ front ++ q
    → length p ≤ length front
    → rest ≡ drop (length p) front ++ q
overlap [] rest front q e h = e
overlap (x ∷ p) rest [] q e h = absurd (omega arith)
overlap (x ∷ p) rest (y ∷ front) q e h =
    overlap p rest front q (tails (p ++ rest) (front ++ q) e) (omega arith)
  where
    tails : {x y : ℕ} (s t : Text) → ◌≡◌ {A = Text} (x ∷ s) (y ∷ t) → s ≡ t
    tails s t e = cc

pub count_byte-append :
    (c : ℕ) (s t : Text) → count_byte c (s ++ t) ≡ count_byte c s + count_byte c t
unfolding count_byte
count_byte-append c [] t = omega arith
count_byte-append c (x ∷ s) t = omega (arith, count_byte-append c s t)

-- A text ends with a byte only if its own end, where there is one, holds the byte.
pub ends_with :
    (c : ℕ) (front last before : Text)
    → front ++ last ≡ before ++ (c ∷ [])
    → 1 ≤ length last
    → 1 ≤ count_byte c last
ends_with c front last before e h =
    let m : last ≡ drop (length front) before ++ (c ∷ []) = overlap front last before (c ∷ []) e (
      omega (
        arith,
        ap (λ (t : Text). length t) e,
        length-append front last,
        length-append before (c ∷ []),
      )) in
    let one : count_byte c (c ∷ []) ≡ 1 = unfold count_byte in ground (arith, nat_eq_iff c c) in
    omega
      (arith, ap (count_byte c) m, count_byte-append c (drop (length front) before) (c ∷ []), one)

pub cut-append :
    (c : ℕ) (front rest : Text)
    → count_byte c front ≡ 0
    → cut c (front ++ (c ∷ rest)) ≡ some (front, rest)
unfolding cut count_byte
cut-append c [] rest h = ground (arith, nat_eq_iff c c)
cut-append c (x ∷ front) rest h = ground (arith, h, cut-append c front rest)
