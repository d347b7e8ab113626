-- ===== src/Server/Optimistic/Writes.antt =====
-- internal/server/optimistic.go, `applyWrite`: the two ways a write goes.
use go_es.Prelude.{
  ◌≡◌, ◌⊎◌, refl, Option, none, Text, text_Comparable, text, arith, text_eq_iff, subst, ap, ◌∙◌,
}
use go_es.Prelude.Int.{ℤ}
use go_es.Prelude.Maps.{insert}
use go_es.Search.Engine.{index_doc}
use go_es.Server.Keys.{doc_key, doc_meta_key}
use go_es.Server.Optimistic.{
  conflict, illegal, DocMeta, Server, WriteOp, Surroundings, apply_write, write_next, commit,
  notify_segments, invalidate_cache_for_index, count_conflict, read_current, write_after,
  failed_condition, next_meta, is_some, effective_type, meta, MetaResult, failed, illegal,
}

-- The parts of the server that hold documents.
abbrev pub SameContent : Server → Server → Type 0
SameContent s t =
    (s.docs ≡ t.docs)
    × (s.metas ≡ t.metas)
    × (s.engine ≡ t.engine)
    × (s.search_cache ≡ t.search_cache)

segments_keep :
    (index : Text) (size : ℤ) (s : Server) → SameContent (notify_segments index size s) s
unfolding notify_segments
segments_keep index size s = ground arith

-- An error of status 409 or 400 leaves documents, metadata, engine and search cache as they were.
pub apply_write-refused :
    (around : Surroundings) (op : WriteOp) (s : Server)
    → (apply_write around op s).1.status ≡ 409 ⊎ (apply_write around op s).1.status ≡ 400
    → SameContent (apply_write around op s).0 s
unfolding apply_write write_after write_next commit count_conflict
apply_write-refused around op s h = ground arith

-- The server after the writes of a request that is accepted with the metadata.
unfoldable pub committed : Surroundings → WriteOp → DocMeta → Server → Server
committed around op m s = notify_segments op.index around.doc_size (
    invalidate_cache_for_index op.index (record s {
      docs = insert (doc_key op.index op.id) op.doc s.docs;
      metas = insert (doc_meta_key op.index op.id) m s.metas;
      engine = index_doc op.index op.id op.doc s.engine;
    }))

-- What is known of a request that is answered without an error.
pub record Accepted (around : Surroundings) (op : WriteOp) (s : Server) : Type 0 where
  pub new : DocMeta
  pub condition : failed_condition (read_current around op s) op ≡ none
  pub created : op.op_type ≡ text "create" → read_current around op s ≡ none
  pub next :
      next_meta
        (read_current around op s)
        (is_some (read_current around op s))
        op.if_seq_no
        op.if_primary_term
        op.version
        (effective_type op)
      ≡ meta new
  pub server : (apply_write around op s).0 ≡ committed around op new s
  pub answer : (apply_write around op s).1.meta ≡ new

write_next_accepted :
    (around : Surroundings) (op : WriteOp) (current : Option DocMeta) (s : Server)
    → (write_next around op current s).1.error ≡ none
    → (m : DocMeta) × (next_meta current
          (is_some current)
          op.if_seq_no
          op.if_primary_term
          op.version
          (effective_type op)
        ≡ meta m)
      × ((write_next around op current s).0 ≡ committed around op m s)
      × ((write_next around op current s).1.meta ≡ m)
unfolding write_next commit committed
write_next_accepted around op current s h =
    go
      (next_meta current (is_some current) op.if_seq_no op.if_primary_term op.version
        (effective_type op))
      refl
  where
    go :
        (r : MetaResult)
        → next_meta current
            (is_some current)
            op.if_seq_no
            op.if_primary_term
            op.version
            (effective_type op)
          ≡ r
        → (m : DocMeta) × (next_meta current
              (is_some current)
              op.if_seq_no
              op.if_primary_term
              op.version
              (effective_type op)
            ≡ meta m)
          × ((write_next around op current s).0 ≡ committed around op m s)
          × ((write_next around op current s).1.meta ≡ m)
    go (failed conflict) e = absurd (ground arith)
    go (failed (illegal reason)) e = absurd (ground arith)
    go (meta m) e = (m, e, ground arith, ground arith)

apply_write-passes :
    (around : Surroundings) (op : WriteOp) (s : Server)
    → (apply_write around op s).1.error ≡ none
    → (apply_write around op s ≡ write_next around op (read_current around op s) s)
      × (failed_condition (read_current around op s) op ≡ none)
      × (op.op_type ≡ text "create" → read_current around op s ≡ none)
unfolding apply_write write_after
apply_write-passes around op s h =
    (ground arith, ground arith, λ c. ground (arith, text_eq_iff op.op_type (text "create")))

pub apply_write-Accepted :
    (around : Surroundings) (op : WriteOp) (s : Server)
    → (apply_write around op s).1.error ≡ none
    → Accepted around op s
apply_write-Accepted around op s h =
    let (same, condition, created) = apply_write-passes around op s h in
    let (m, next, server, answer) =
      write_next_accepted around op (read_current around op s) s
        (subst (λ r. r.1.error ≡ none) same h) in
    record {
      new = m;
      condition = condition;
      created = created;
      next = next;
      server = ap (λ r. r.0) same ∙ server;
      answer = ap (λ r. r.1.meta) same ∙ answer;
    }
