-- ===== src/Server/Coordinator/Agreement.antt =====
-- internal/server/writecoordinator.go: the store and the engine hold the same documents.
use go_es.Prelude.{
  ◌≡◌, refl, sym, ap, ◌∙◌, true, Option, none, List, [], ◌∷◌, All, ltb, ◌&&◌, ◌||◌, length, nat_eq,
  if◌then◌else◌, ◌==◌, Text, text, text_Comparable, text_eq, text_eq_iff, Bool-cases, Option-cases,
  inl, inr, ◌⊎◌, arith,
}
use go_es.Prelude.Maps.{lookup, insert, delete, lookup-insert, lookup-delete}
use go_es.Search.Engine.{Engine, index_doc, delete_doc, get_source}
use go_es.Search.Engine.Exact.{get_source-index_doc, get_source-delete_doc}
use go_es.Server.Keys.{doc_key, is_plain, doc_key-injective}
use go_es.Server.Coordinator.{
  WriteOp, WriteOpResult, Faults, Store, Coordinator, goes_on, attempt, put_doc, remove_doc,
  txn_loop, update_engine, first_error, run_batch, submit_bulk, acquire,
}
use go_es.Server.Coordinator.Batches.{loop_aborts, loop_goes_on, attempt_cases}

-- The store and the engine have the same source for each document of an index whose name has no
-- slash.
unfoldable pub Agree : Store → Engine → Type 0
Agree s e =
    (index id : Text)
    → is_plain index ≡ true
    → lookup (doc_key index id) s.docs ≡ get_source e index id

-- The engine after one operation.
abbrev engine_step : WriteOp → WriteOpResult → Engine → Engine
engine_step op r e =
    if nat_eq r.status 201 && (op.kind == text "index" || op.kind == text "create")
    then index_doc op.index op.id op.doc e
    else if nat_eq r.status 200 && op.kind == text "delete"
    then delete_doc op.index op.id e
    else e

-- What an operation does to the sources: it sets one, deletes one, or none, in both places.
abbrev Effect : WriteOp → Store → Store → Engine → Engine → Type 0
Effect op s s' e e' =
    ((s'.docs ≡ insert (doc_key op.index op.id) op.doc s.docs)
      × (e' ≡ index_doc op.index op.id op.doc e))
    ⊎ (((s'.docs ≡ delete (doc_key op.index op.id) s.docs) × (e' ≡ delete_doc op.index op.id e))
        ⊎ ((s'.docs ≡ s.docs) × (e' ≡ e)))

put_effect :
    (f : Faults) (op : WriteOp) (s s' : Store) (r : WriteOpResult)
    → put_doc f op s ≡ goes_on s' r
    → (s'.docs ≡ insert (doc_key op.index op.id) op.doc s.docs) × (r.status ≡ 201)
unfolding put_doc
put_effect f op s s' r h = ground (arith, h)

remove_effect :
    (f : Faults) (op : WriteOp) (s s' : Store) (r : WriteOpResult)
    → remove_doc f op s ≡ goes_on s' r
    → (s'.docs ≡ delete (doc_key op.index op.id) s.docs) × (r.status ≡ 200)
unfolding remove_doc
remove_effect f op s s' r h = ground (arith, h)

effect :
    (f : Faults) (op : WriteOp) (s s' : Store) (r : WriteOpResult) (e : Engine)
    → attempt f op s ≡ goes_on s' r
    → Effect op s s' e (engine_step op r e)
unfolding attempt
effect f op s s' r e h = elim (Bool-cases (text_eq op.kind (text "index"))) [
  | inl i ↦ ground (arith, i, h, put_effect f op s s' r)
  | inr i ↦ elim (Bool-cases (text_eq op.kind (text "create"))) [
    | inl c ↦ ground (arith, i, c, h, put_effect f op s s' r)
    | inr c ↦ ground (arith, i, c, h, remove_effect f op s s' r)
  ]
]

-- Of two documents of indexes without a slash, the keys are equal exactly when both names are.
key_eq :
    (index id i d : Text)
    → is_plain index ≡ true
    → is_plain i ≡ true
    → text_eq (doc_key index id) (doc_key i d) ≡ (index == i && id == d)
key_eq index id i d p q = elim (Bool-cases (text_eq (doc_key index id) (doc_key i d))) [
  | inl y ↦
      let (s, t) =
        doc_key-injective index i id d p q ((text_eq_iff (doc_key index id) (doc_key i d)).0 y) in
      ground (arith, y, s, t, text_eq_iff index i, text_eq_iff id d)
  | inr n ↦ elim (Bool-cases (index == i && id == d)) [
    | inr m ↦ n ∙ sym m
    | inl m ↦
        let a : index ≡ i = (text_eq_iff index i).0 (ground (arith, m)) in
        let b : id ≡ d = (text_eq_iff id d).0 (ground (arith, m)) in
        absurd (
          ground (
            arith,
            n,
            (text_eq_iff (doc_key index id) (doc_key i d)).1
                (ap (λ (x : Text). doc_key x id) a ∙ ap (doc_key i) b),
          ))
  ]
]

Effect-Agree :
    (op : WriteOp) (s s' : Store) (e e' : Engine)
    → is_plain op.index ≡ true
    → Agree s e
    → Effect op s s' e e'
    → Agree s' e'
unfolding Agree
Effect-Agree op s s' e e' p a (inl (x, y)) i d q =
    ap (lookup (doc_key i d)) x
    ∙ lookup-insert (doc_key op.index op.id) (doc_key i d) op.doc s.docs
    ∙ ground (arith, key_eq op.index op.id i d p q, a i d q)
    ∙ sym (get_source-index_doc op.index op.id op.doc e i d)
    ∙ ap (λ (f : Engine). get_source f i d) (sym y)
Effect-Agree op s s' e e' p a (inr (inl (x, y))) i d q =
    ap (lookup (doc_key i d)) x
    ∙ lookup-delete (doc_key op.index op.id) (doc_key i d) s.docs
    ∙ ground (arith, key_eq op.index op.id i d p q, a i d q)
    ∙ sym (get_source-delete_doc op.index op.id e i d)
    ∙ ap (λ (f : Engine). get_source f i d) (sym y)
Effect-Agree op s s' e e' p a (inr (inr (x, y))) i d q =
    ap (lookup (doc_key i d)) x ∙ a i d q ∙ ap (λ (f : Engine). get_source f i d) (sym y)

abbrev pub AllPlain : List (WriteOp × Faults) → Type 0
AllPlain ops = All (λ o. is_plain o.0.index ≡ true) ops

update_step :
    (op : WriteOp) (f : Faults) (ops : List (WriteOp × Faults)) (r : WriteOpResult)
    (rs : List WriteOpResult) (e : Engine)
    → update_engine ((op, f) ∷ ops) (r ∷ rs) e ≡ update_engine ops rs (engine_step op r e)
unfolding update_engine
update_step op f ops r rs e = refl

loop-Agree :
    (ops : List (WriteOp × Faults)) (s : Store) (e : Engine)
    → AllPlain ops
    → (txn_loop ops s).failed ≡ none
    → Agree s e
    → Agree (txn_loop ops s).store (update_engine ops (txn_loop ops s).results e)
loop-Agree [] s e p h a = unfold txn_loop update_engine in a
loop-Agree ((op, f) ∷ ops) s e p h a = elim (attempt_cases (attempt f op s)) [
  | inl (reason, g) ↦ absurd (ground (arith, loop_aborts op f ops s reason g, h))
  | inr (s', r, g) ↦
      let step = loop_goes_on op f ops s s' r g in
      rw (step, update_step op f ops r (txn_loop ops s').results e)
        (loop-Agree ops s' (engine_step op r e) p.1 (ground (arith, step, h))
          (Effect-Agree op s s' e (engine_step op r e) p.0 a (effect f op s s' r e g)))
]

run_batch-Agree :
    (commit : Option Text) (ops : List (WriteOp × Faults)) (c : Coordinator) (s : Store)
    (e : Engine)
    → AllPlain ops
    → Agree s e
    → Agree (run_batch commit ops c s e).store (run_batch commit ops c s e).engine
run_batch-Agree commit ops c s e p a =
    elim (Option-cases (first_error (txn_loop ops s).failed commit)) [
      | inl n ↦
          let none_failed : (txn_loop ops s).failed ≡ none = ground (arith, n) in
          let same : ((run_batch commit ops c s e).store ≡ (txn_loop ops s).store)
              × ((run_batch commit ops c s e).engine
                  ≡ update_engine ops (txn_loop ops s).results e) =
            unfold run_batch in ground (arith, n) in
          rw (same.0, same.1) (loop-Agree ops s e p none_failed a)
      | inr (reason, n) ↦
          let same : ((run_batch commit ops c s e).store ≡ s)
              × ((run_batch commit ops c s e).engine ≡ e) =
            unfold run_batch in ground (arith, n) in
          rw (same.0, same.1) a
    ]

-- Store and engine stay in step: whatever a batch holds, whichever calls fail and whatever the load,
-- if before it the store and the engine have the same sources, then so they have after it. The names
-- of the indexes have no slash.
pub submit_bulk-Agree :
    (commit : Option Text) (ops : List (WriteOp × Faults)) (c : Coordinator) (s : Store)
    (e : Engine)
    → AllPlain ops
    → Agree s e
    → Agree (submit_bulk commit ops c s e).store (submit_bulk commit ops c s e).engine
submit_bulk-Agree commit [] c s e p a = unfold submit_bulk in a
submit_bulk-Agree commit (op ∷ ops) c s e p a =
    elim (Bool-cases (ltb c.max_batch_size (length (op ∷ ops)))) [
      | inl b ↦
          let same : ((submit_bulk commit (op ∷ ops) c s e).store ≡ s)
              × ((submit_bulk commit (op ∷ ops) c s e).engine ≡ e) =
            unfold submit_bulk in ground (arith, b) in
          rw (same.0, same.1) a
      | inr b ↦ elim (Option-cases (acquire c)) [
        | inl n ↦
            let same : ((submit_bulk commit (op ∷ ops) c s e).store ≡ s)
                × ((submit_bulk commit (op ∷ ops) c s e).engine ≡ e) =
              unfold submit_bulk in ground (arith, b, n) in
            rw (same.0, same.1) a
        | inr (taken, n) ↦
            let same : submit_bulk commit (op ∷ ops) c s e ≡ run_batch commit (op ∷ ops) taken s e =
              unfold submit_bulk in ground (arith, b, n) in
            rw same (run_batch-Agree commit (op ∷ ops) taken s e p a)
      ]
    ]
