-- ===== src/Search/SortedIndex/Ranges.antt =====
-- internal/search/sorted_index.go: a range query finds exactly the documents within its bounds.
use mathlib.Core.Path.{fun_ext}
use mathlib.Core.Bool.{false≢true}
use go_es.Prelude.{
  subst, sym, ap, ◌∙◌, nat_eq, nat_eq_iff, leb, ltb, leb→le, ltb→lt, ℕ, zero, suc, ◌+◌, ◌-◌, ◌≤◌,
  ◌<◌, ◌≡◌, ◌↔◌, refl, inl, inr, Bool, true, false, not, Option, none, some, List, [], ◌∷◌, ◌==◌,
  Text, text_Comparable, text_eq_iff, length, get_elem?, arith, Bool-cases, Option-cases,
}
use go_es.Prelude.Sets.{contains, contains-add}
use go_es.Prelude.Order.{text_lt, text_lt_asymm, not_lt_trans, text_lt_total}
use go_es.Prelude.SortSearch.{sort_search, sort_search-Splits, Splits}
use go_es.Search.SortedIndex.{
  SortedEntry, Range, test_at, entry_lt, lower_bound, upper_bound, collect, range_entries,
}
use go_es.Search.SortedIndex.Order.{IsSorted, IsUpward, test_at-IsMonotone}

-- The bounds as they are applied: `gt` takes the place of `gte`, and `lt` that of `lte`.
abbrev pub above : Range → Text → Bool
above r v = elim r.gt [
  | some b ↦ text_lt b v
  | none ↦ elim r.gte [ some b ↦ not (text_lt v b) | none ↦ true ]
]

abbrev pub below : Range → Text → Bool
below r v = elim r.lt [
  | some b ↦ text_lt v b
  | none ↦ elim r.lte [ some b ↦ not (text_lt b v) | none ↦ true ]
]

value_le : (x y : SortedEntry) → entry_lt x y ≡ true → text_lt y.value x.value ≡ false
unfolding entry_lt
value_le x y l = ground (arith, text_lt_asymm x.value y.value)

IsUpward-gt : (b : Text) → IsUpward (λ e. text_lt b e.value)
IsUpward-gt b x y l t = ground (
  arith,
  t,
  value_le x y l,
  not_lt_trans x.value y.value b,
  text_lt_asymm b x.value,
  not_lt_trans x.value b y.value,
  text_lt_asymm b y.value,
  text_lt_total b y.value,
  not_lt_trans b y.value x.value,
)

IsUpward-ge : (b : Text) → IsUpward (λ e. not (text_lt e.value b))
IsUpward-ge b x y l t = ground (arith, t, value_le x y l, not_lt_trans y.value x.value b)

abbrev range_of : (gte lte gt lt : Option Text) → Range
range_of gte lte gt lt = record { gte = gte; lte = lte; gt = gt; lt = lt }

lower_bound-Splits :
    (gte lte gt lt : Option Text) (es : List SortedEntry)
    → IsSorted es
    → let r = range_of gte lte gt lt in
      Splits (length es) (test_at (λ e. above r e.value) es) (lower_bound r es)
unfolding lower_bound
lower_bound-Splits gte lte (some b) lt es s =
    sort_search-Splits (length es) _
      (test_at-IsMonotone (λ e. text_lt b e.value) es (IsUpward-gt b) s)
lower_bound-Splits (some b) lte none lt es s =
    sort_search-Splits (length es) _
      (test_at-IsMonotone (λ e. not (text_lt e.value b)) es (IsUpward-ge b) s)
lower_bound-Splits none lte none lt es s = record {
  within = omega arith;
  below = λ m l. absurd (omega arith);
  above = λ m a l. always es m;
}
  where
    always : (es : List SortedEntry) (m : ℕ) → test_at (λ e. true) es m ≡ true
    always es m = unfold test_at in ground arith

inside : (es : List SortedEntry) (m : ℕ) → m < length es → test_at (λ e. false) es m ≡ false
unfolding test_at
inside [] m l = absurd (omega arith)
inside (e ∷ es) zero l = refl
inside (e ∷ es) (suc m) l = inside es m (omega arith)

not-not : (b : Bool) → b ≡ not (not b)
not-not true = refl
not-not false = refl

upper_bound-Splits :
    (gte lte gt lt : Option Text) (es : List SortedEntry)
    → IsSorted es
    → let r = range_of gte lte gt lt in
      Splits (length es) (test_at (λ e. not (below r e.value)) es) (upper_bound r es)
unfolding upper_bound
upper_bound-Splits gte lte gt (some b) es s =
    sort_search-Splits (length es) _
      (test_at-IsMonotone (λ e. not (text_lt e.value b)) es (IsUpward-ge b) s)
upper_bound-Splits gte (some b) gt none es s =
    subst
      (λ (f : SortedEntry → Bool).
        Splits (length es) (test_at f es)
          (sort_search (length es) (test_at (λ e. text_lt b e.value) es)))
      (fun_ext (λ e. not-not (text_lt b e.value)))
      (sort_search-Splits (length es) _
        (test_at-IsMonotone (λ e. text_lt b e.value) es (IsUpward-gt b) s))
upper_bound-Splits gte none gt none es s = record {
  within = omega arith;
  below = λ m l. inside es m l;
  above = λ m a l. absurd (omega arith);
}

collect_sound :
    (es : List SortedEntry) (rounds i : ℕ) (d : Text)
    → contains d (collect es rounds i) ≡ true
    → (j : ℕ) × (e : SortedEntry) × (i ≤ j)
      × (j < i + rounds)
      × (get_elem? es j ≡ some e)
      × (e.doc_id ≡ d)
unfolding collect contains
collect_sound es zero i d h = cc
collect_sound es (suc rounds) i d h = elim (Option-cases (get_elem? es i)) [
  | inl n ↦
      let (j, e, a, b, g, q) = collect_sound es rounds (i + 1) d (ground arith) in
      (j, e, omega arith, omega arith, g, q)
  | inr (x, g) ↦ elim (Bool-cases (x.doc_id == d)) [
    | inl q ↦ (i, x, omega arith, omega arith, g, (text_eq_iff x.doc_id d).0 q)
    | inr q ↦
        let (j, e, a, b, g', q') =
          collect_sound es rounds (i + 1) d
            (ground (arith, contains-add x.doc_id d (collect es rounds (i + 1)))) in
        (j, e, omega arith, omega arith, g', q')
  ]
]

collect_complete :
    (es : List SortedEntry) (rounds i j : ℕ) (e : SortedEntry)
    → i ≤ j
    → j < i + rounds
    → get_elem? es j ≡ some e
    → contains e.doc_id (collect es rounds i) ≡ true
unfolding collect contains
collect_complete es zero i j e a b g = absurd (omega arith)
collect_complete es (suc rounds) i j e a b g = elim (Bool-cases (nat_eq i j)) [
  | inl q ↦
      let here : get_elem? es i ≡ some e =
        subst (λ k. get_elem? es k ≡ some e) (sym ((nat_eq_iff i j).0 q)) g in
      ground (
        arith,
        here,
        text_eq_iff e.doc_id e.doc_id,
        contains-add e.doc_id e.doc_id (collect es rounds (i + 1)),
      )
  | inr q ↦
      let later : contains e.doc_id (collect es rounds (i + 1)) ≡ true =
        collect_complete es rounds (i + 1) j e (ground arith) (omega arith) g in
      elim (Option-cases (get_elem? es i)) [
        | inl n ↦ ground (arith, n, later)
        | inr (x, n) ↦
            ground (arith, n, later, contains-add x.doc_id e.doc_id (collect es rounds (i + 1)))
      ]
]

test_at-some :
    (test : SortedEntry → Bool) (es : List SortedEntry) (j : ℕ) (e : SortedEntry)
    → get_elem? es j ≡ some e
    → (test_at test es j ≡ test e) × (j < length es)
unfolding test_at
test_at-some test [] j e g = cc
test_at-some test (x ∷ es) zero e g = (ground (arith, g), omega arith)
test_at-some test (x ∷ es) (suc j) e g = let (t, l) = test_at-some test es j e g in (t, omega arith)

not-false : (b : Bool) → not b ≡ false → b ≡ true
not-false true h = refl
not-false false h = cc

-- A range query on a sorted index finds exactly the documents of the entries whose value lies within
-- the bounds as applied, where `gt` takes the place of `gte` and `lt` that of `lte`.
pub range_entries_iff :
    (r : Range) (es : List SortedEntry) (d : Text)
    → IsSorted es
    → (contains d (range_entries r es) ≡ true) ↔ (
        (j : ℕ) × (e : SortedEntry) × (get_elem? es j ≡ some e)
        × (e.doc_id ≡ d)
        × (above r e.value ≡ true)
        × (below r e.value ≡ true))
unfolding range_entries
range_entries_iff r es d s = (found, finds)
  where
    lo : ℕ
    lo = lower_bound r es

    hi : ℕ
    hi = upper_bound r es

    low : Splits (length es) (test_at (λ e. above r e.value) es) lo
    low = lower_bound-Splits r.gte r.lte r.gt r.lt es s

    high : Splits (length es) (test_at (λ e. not (below r e.value)) es) hi
    high = upper_bound-Splits r.gte r.lte r.gt r.lt es s

    found :
        contains d (collect es (hi - lo) lo) ≡ true
        → (j : ℕ) × (e : SortedEntry) × (get_elem? es j ≡ some e)
          × (e.doc_id ≡ d)
          × (above r e.value ≡ true)
          × (below r e.value ≡ true)
    found h =
        let (j, e, a, b, g, q) = collect_sound es (hi - lo) lo d h in
        let (t, l) = test_at-some (λ x. above r x.value) es j e g in
        let (u, _) = test_at-some (λ x. not (below r x.value)) es j e g in
        (
          j,
          e,
          g,
          q,
          sym t ∙ low.above j a l,
          not-false (below r e.value) (sym u ∙ high.below j (omega arith)),
        )

    finds :
        (j : ℕ) × (e : SortedEntry) × (get_elem? es j ≡ some e)
          × (e.doc_id ≡ d)
          × (above r e.value ≡ true)
          × (below r e.value ≡ true)
        → contains d (collect es (hi - lo) lo) ≡ true
    finds (j, e, g, q, a, b) =
        let (t, l) = test_at-some (λ x. above r x.value) es j e g in
        let (u, _) = test_at-some (λ x. not (below r x.value)) es j e g in
        let from : lo ≤ j = elim (Bool-cases (leb lo j)) [
          | inl o ↦ leb→le lo j o
          | inr o ↦ absurd (false≢true (sym (low.below j (ground arith)) ∙ t ∙ a))
        ] in
        let to : j < hi = elim (Bool-cases (ltb j hi)) [
          | inl o ↦ ltb→lt j hi o
          | inr o ↦ absurd (false≢true (sym (ap not b) ∙ sym u ∙ high.above j (ground arith) l))
        ] in
        subst (λ k. contains k (collect es (hi - lo) lo) ≡ true) q
          (collect_complete es (hi - lo) lo j e from (omega arith) g)
