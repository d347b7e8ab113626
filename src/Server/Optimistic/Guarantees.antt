-- ===== src/Server/Optimistic/Guarantees.antt =====
-- internal/server/optimistic.go, `applyWrite`: what the clients of a document may rely on.
use go_es.Prelude.{
  ℕ, ◌+◌, ◌<◌, ◌^◌, ◌≡◌, ◌≢◌, ◌⊎◌, refl, inl, inr, Bool, true, false, Option, none, some, Text,
  text_Comparable, text, arith, text_eq_iff, subst, ap, sym, ◌∙◌,
}
use go_es.Prelude.Int.{ℤ, pos, next64, wrap64, positive, eq_ℤ, ◌+ℤ◌}
use go_es.Prelude.Maps.{lookup, insert, lookup-insert, Map}
use go_es.Search.Engine.{Doc, get_source}
use go_es.Search.Engine.Exact.{get_source-index_doc}
use go_es.Server.Keys.{doc_key, doc_meta_key, is_plain, doc_key-injective}
use go_es.Server.Optimistic.{
  DocMeta, Server, WriteOp, Surroundings, apply_write, write_next, commit, notify_segments,
  invalidate_cache_for_index, count_conflict, read_doc_meta, read_current, write_after,
  failed_condition, next_meta, next_seq, is_some, effective_type, meta,
}
use go_es.Server.Optimistic.Writes.{committed, Accepted, apply_write-Accepted}

committed-stored :
    (around : Surroundings) (op : WriteOp) (m : DocMeta) (s : Server)
    → (lookup (doc_key op.index op.id) (committed around op m s).docs ≡ some op.doc)
      × (read_doc_meta (committed around op m s) op.index op.id ≡ some m)
      × (get_source (committed around op m s).engine op.index op.id ≡ some op.doc)
unfolding committed invalidate_cache_for_index read_doc_meta notify_segments
committed-stored around op m s = ground (
  arith,
  text_eq_iff op.index op.index,
  text_eq_iff op.id op.id,
  text_eq_iff (doc_key op.index op.id) (doc_key op.index op.id),
  text_eq_iff (doc_meta_key op.index op.id) (doc_meta_key op.index op.id),
  lookup-insert (doc_key op.index op.id) (doc_key op.index op.id) op.doc s.docs,
  lookup-insert (doc_meta_key op.index op.id) (doc_meta_key op.index op.id) m s.metas,
  get_source-index_doc op.index op.id op.doc s.engine op.index op.id,
)

-- A write without an error is read back: the source from the store and from the engine, and the
-- returned metadata.
pub apply_write-stored :
    (around : Surroundings) (op : WriteOp) (s : Server)
    → (apply_write around op s).1.error ≡ none
    → (lookup (doc_key op.index op.id) (apply_write around op s).0.docs ≡ some op.doc)
      × (read_doc_meta (apply_write around op s).0 op.index op.id
          ≡ some (apply_write around op s).1.meta)
      × (get_source (apply_write around op s).0.engine op.index op.id ≡ some op.doc)
apply_write-stored around op s h =
    let a : Accepted around op s = apply_write-Accepted around op s h in
    rw (a.server, a.answer) (committed-stored around op a.new s)

apply_write-seq_conflict :
    (around : Surroundings) (op : WriteOp) (s : Server) (m : DocMeta)
    → read_current around op s ≡ some m
    → positive op.if_seq_no ≡ true
    → eq_ℤ op.if_seq_no m.seq_no ≡ false
    → ((apply_write around op s).1.status ≡ 409) × ((apply_write around op s).0 ≡ s)
unfolding apply_write write_after failed_condition
apply_write-seq_conflict around op s m h p q = ground arith

apply_write-create_conflict :
    (around : Surroundings) (op : WriteOp) (s : Server) (m : DocMeta)
    → read_current around op s ≡ some m
    → op.op_type ≡ text "create"
    → ((apply_write around op s).1.status ≡ 409) × ((apply_write around op s).0 ≡ s)
unfolding apply_write write_after
apply_write-create_conflict around op s m h c =
    ground (arith, text_eq_iff op.op_type (text "create"))

-- The successor of a positive int64 is another number, also where it wraps.
next64-other : (n : ℕ) → n + 1 < 2 ^ 63 → eq_ℤ (pos (n + 1)) (next64 (pos (n + 1))) ≡ false
unfolding next64 wrap64 ◌+ℤ◌
next64-other n b = ground arith

eq_ℤ-sound : (x : ℤ) (n : ℕ) → eq_ℤ (pos (n + 1)) x ≡ true → x ≡ pos (n + 1)
eq_ℤ-sound x n h = ground arith

condition-current :
    (current : Option DocMeta) (op : WriteOp) (n : ℕ)
    → failed_condition current op ≡ none
    → op.if_seq_no ≡ pos (n + 1)
    → next_seq current (is_some current) ≡ next64 (pos (n + 1))
unfolding failed_condition next_seq
condition-current none op n h p = ground arith
condition-current (some m) op n h p =
    let same : m.seq_no ≡ pos (n + 1) = eq_ℤ-sound m.seq_no n (ground arith) in rw (same) refl

pub next_meta-next_seq :
    (current : Option DocMeta) (exists : Bool) (seq_no primary_term version : ℤ)
    (version_type : Text) (m : DocMeta)
    → next_meta current exists seq_no primary_term version version_type ≡ meta m
    → m.seq_no ≡ next_seq current exists
unfolding next_meta
next_meta-next_seq current exists seq_no primary_term version version_type m h = ground arith

seq_no-moves :
    (around : Surroundings) (op : WriteOp) (s : Server) (a : Accepted around op s) (n : ℕ)
    → op.if_seq_no ≡ pos (n + 1)
    → a.new.seq_no ≡ next64 (pos (n + 1))
seq_no-moves around op s a n p =
    next_meta-next_seq (read_current around op s) (is_some (read_current around op s)) op.if_seq_no
      op.if_primary_term op.version (effective_type op) a.new a.next
    ∙ condition-current (read_current around op s) op n a.condition p

-- What a later write of the same document reads.
read_again :
    (around around' : Surroundings) (op op' : WriteOp) (s : Server)
    → (apply_write around op s).1.error ≡ none
    → op'.index ≡ op.index
    → op'.id ≡ op.id
    → around'.meta_get_fails ≡ false
    → read_current around' op' (apply_write around op s).0 ≡ some (apply_write around op s).1.meta
unfolding read_current
read_again around around' op op' s h i j r =
    let stored = apply_write-stored around op s h in rw (r, i, j) stored.1

-- One after the other, of two writes that expect the same sequence number only the first is accepted:
-- after an accepted write with `if_seq_no`, a write to the same document with the same `if_seq_no`, an
-- int64 above 0, that reads the metadata when the first has ended, and whose read does not fail, is
-- answered with 409 and changes nothing.
pub apply_write-exclusive :
    (around around' : Surroundings) (op op' : WriteOp) (s : Server)
    → (apply_write around op s).1.error ≡ none
    → op'.index ≡ op.index
    → op'.id ≡ op.id
    → op'.if_seq_no ≡ op.if_seq_no
    → around'.meta_get_fails ≡ false
    → (n : ℕ) → op.if_seq_no ≡ pos (n + 1)
    → n + 1 < 2 ^ 63
    → ((apply_write around' op' (apply_write around op s).0).1.status ≡ 409)
      × ((apply_write around' op' (apply_write around op s).0).0 ≡ (apply_write around op s).0)
apply_write-exclusive around around' op op' s h i j k r n p b =
    let a : Accepted around op s = apply_write-Accepted around op s h in
    let moved : (apply_write around op s).1.meta.seq_no ≡ next64 (pos (n + 1)) =
      ap (λ m. m.seq_no) a.answer ∙ seq_no-moves around op s a n p in
    apply_write-seq_conflict around' op' (apply_write around op s).0
      (apply_write around op s).1.meta (read_again around around' op op' s h i j r)
      (subst (λ x. positive x ≡ true) (sym (k ∙ p)) (ground arith))
      (rw (k ∙ p, moved) (next64-other n b))

-- A document is created once: after an accepted write, a write to the same document with the operation
-- type `create` whose read does not fail is answered with 409 and changes nothing.
pub apply_write-create_once :
    (around around' : Surroundings) (op op' : WriteOp) (s : Server)
    → (apply_write around op s).1.error ≡ none
    → op'.index ≡ op.index
    → op'.id ≡ op.id
    → op'.op_type ≡ text "create"
    → around'.meta_get_fails ≡ false
    → ((apply_write around' op' (apply_write around op s).0).1.status ≡ 409)
      × ((apply_write around' op' (apply_write around op s).0).0 ≡ (apply_write around op s).0)
apply_write-create_once around around' op op' s h i j k r =
    apply_write-create_conflict around' op' (apply_write around op s).0
      (apply_write around op s).1.meta (read_again around around' op op' s h i j r) k

insert-other :
    (k j : Text) (doc : Doc) (docs : Map Text Doc)
    → k ≢ j
    → lookup j (insert k doc docs) ≡ lookup j docs
insert-other k j doc docs d = ground (arith, text_eq_iff k j, lookup-insert k j doc docs)

apply_write-docs :
    (around : Surroundings) (op : WriteOp) (s : Server)
    → ((apply_write around op s).0.docs ≡ s.docs)
      ⊎ ((apply_write around op s).0.docs ≡ insert (doc_key op.index op.id) op.doc s.docs)
unfolding apply_write write_after write_next commit count_conflict notify_segments
    invalidate_cache_for_index
apply_write-docs around op s = ground arith

-- Whatever becomes of a write, the stored source of another document stays as it is, if the names of
-- both indexes have no slash.
pub apply_write-elsewhere :
    (around : Surroundings) (op : WriteOp) (s : Server) (index id : Text)
    → is_plain op.index ≡ true
    → is_plain index ≡ true
    → ¬ ((op.index ≡ index) × (op.id ≡ id))
    → lookup (doc_key index id) (apply_write around op s).0.docs ≡ lookup (doc_key index id) s.docs
apply_write-elsewhere around op s index id p q d = elim (apply_write-docs around op s) [
  | inl same ↦ ap (lookup (doc_key index id)) same
  | inr written ↦
      let other : doc_key op.index op.id ≢ doc_key index id =
        λ e. d (doc_key-injective op.index index op.id id p q e) in
      ap (lookup (doc_key index id)) written
      ∙ insert-other (doc_key op.index op.id) (doc_key index id) op.doc s.docs other
]
