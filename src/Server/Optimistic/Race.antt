-- ===== src/Server/Optimistic/Race.antt =====
-- internal/server/optimistic.go: two requests for one document at the same time. `applyWrite` takes no
-- lock between its read of the metadata and its writes, so both may read before either writes.
use go_es.Prelude.{
  ◌≡◌, refl, false, Option, none, some, text_Comparable, text_eq_iff, arith, ap, sym, ◌∙◌, subst,
}
use go_es.Prelude.Maps.{lookup, lookup-insert}
use go_es.Server.Keys.{doc_key}
use go_es.Server.Optimistic.{
  DocMeta, Server, Response, WriteOp, Surroundings, apply_write, write_after, write_next, commit,
  read_current, count_conflict, notify_segments, invalidate_cache_for_index, next_seq, is_some,
  effective_type,
}
use go_es.Server.Optimistic.Writes.{Accepted, apply_write-Accepted}
use go_es.Server.Optimistic.Guarantees.{next_meta-next_seq}

-- Both requests read in `s`; then the first writes, and then the second.
abbrev pub raced : (around around' : Surroundings) (op op' : WriteOp) → Server → Server × Response
raced around around' op op' s =
    write_after around' op' (read_current around' op' s) (apply_write around op s).0

write_after_answer :
    (around : Surroundings) (op : WriteOp) (current : Option DocMeta) (s t : Server)
    → (write_after around op current s).1 ≡ (write_after around op current t).1
unfolding write_after write_next commit
write_after_answer around op current s t = ground arith

write_after_stored :
    (around : Surroundings) (op : WriteOp) (current : Option DocMeta) (s : Server)
    → (write_after around op current s).1.error ≡ none
    → lookup (doc_key op.index op.id) (write_after around op current s).0.docs ≡ some op.doc
unfolding write_after write_next commit count_conflict notify_segments invalidate_cache_for_index
write_after_stored around op current s h = ground (
  arith,
  text_eq_iff (doc_key op.index op.id) (doc_key op.index op.id),
  lookup-insert (doc_key op.index op.id) (doc_key op.index op.id) op.doc s.docs,
)

same_answer :
    (around around' : Surroundings) (op op' : WriteOp) (s : Server)
    → (raced around around' op op' s).1 ≡ (apply_write around' op' s).1
unfolding apply_write
same_answer around around' op op' s =
    write_after_answer around' op' (read_current around' op' s)
      (write_after around op (read_current around op s) s).0 s

new_seq :
    (around : Surroundings) (op : WriteOp) (s : Server)
    → (apply_write around op s).1.error ≡ none
    → (apply_write around op s).1.meta.seq_no
      ≡ next_seq (read_current around op s) (is_some (read_current around op s))
new_seq around op s h =
    let a : Accepted around op s = apply_write-Accepted around op s h in
    ap (λ m. m.seq_no) a.answer
    ∙ next_meta-next_seq (read_current around op s) (is_some (read_current around op s))
        op.if_seq_no op.if_primary_term op.version (effective_type op) a.new a.next

same_current :
    (around around' : Surroundings) (op op' : WriteOp) (s : Server)
    → op'.index ≡ op.index
    → op'.id ≡ op.id
    → around.meta_get_fails ≡ false
    → around'.meta_get_fails ≡ false
    → read_current around' op' s ≡ read_current around op s
unfolding read_current
same_current around around' op op' s i j r r' = rw (i, j, r, r') refl

-- The check of sequence numbers does not hold between requests at the same time: if two writes to one
-- document read its metadata, without a failure, before either writes, and each would be accepted
-- alone, then both are accepted, also with the same `if_seq_no`. Both answers have the same sequence
-- number, and of the two sources the store keeps only the second.
pub raced-apply_write :
    (around around' : Surroundings) (op op' : WriteOp) (s : Server)
    → (apply_write around op s).1.error ≡ none
    → (apply_write around' op' s).1.error ≡ none
    → op'.index ≡ op.index
    → op'.id ≡ op.id
    → around.meta_get_fails ≡ false
    → around'.meta_get_fails ≡ false
    → ((raced around around' op op' s).1.error ≡ none)
      × ((raced around around' op op' s).1.meta.seq_no ≡ (apply_write around op s).1.meta.seq_no)
      × (lookup (doc_key op.index op.id) (raced around around' op op' s).0.docs ≡ some op'.doc)
raced-apply_write around around' op op' s h h' i j r r' =
    let same = same_answer around around' op op' s in
    let accepted : (raced around around' op op' s).1.error ≡ none = ap (λ a. a.error) same ∙ h' in
    let stored =
      write_after_stored around' op' (read_current around' op' s) (apply_write around op s).0
        accepted in
    (
      accepted,
      ap (λ a. a.meta.seq_no) same
          ∙ new_seq around' op' s h'
          ∙ ap (λ c. next_seq c (is_some c)) (same_current around around' op op' s i j r r')
          ∙ sym (new_seq around op s h),
      subst (λ k. lookup k (raced around around' op op' s).0.docs ≡ some op'.doc)
          (ap (λ x. doc_key x op'.id) i ∙ ap (doc_key op.index) j) stored,
    )
