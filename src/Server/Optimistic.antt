-- ===== src/Server/Optimistic.antt =====
-- internal/server/optimistic.go: writes with sequence numbers, terms and versions.
-- The handler reads and writes the store, the engine, the search cache and the segment buffers; the
-- asynchronous segment flush is left out, `flush_due` tells when it would start.
pub mod Next
pub mod Writes
pub mod Guarantees
pub mod Race
use go_es.Prelude.{
  ℕ, ◌+◌, ◌≤◌, Bool, true, false, ◌&&◌, ◌||◌, not, Option, none, some, List, [], ◌∷◌, ◌++◌,
  if◌then◌else◌, ◌==◌, Text, text_Comparable, text,
}
use go_es.Prelude.Int.{ℤ, pos, negsuc, ◌+ℤ◌, wrap64, next64, positive, eq_ℤ, leb_ℤ, ltb_ℤ}
use go_es.Prelude.Maps.{Map, lookup, insert}
use go_es.Cache.{Cache, invalidate_index}
use go_es.Search.Engine.{Engine, Doc, index_doc}
use go_es.Server.Keys.{doc_key, doc_meta_key}

-- The numbers are int64.
pub record DocMeta : Type 0 where
  pub seq_no : ℤ
  pub primary_term : ℤ
  pub version : ℤ
  pub created : Bool

abbrev pub no_meta : DocMeta
no_meta = record { seq_no = pos 0; primary_term = pos 0; version = pos 0; created = false }

-- `ErrVersionConflict`, or an error of the request's arguments.
pub data MetaError : Type 0 where
  conflict : MetaError
  illegal : Text → MetaError

pub data MetaResult : Type 0 where
  meta : DocMeta → MetaResult
  failed : MetaError → MetaResult

-- The version of the new metadata, from the current one.
pub data VersionResult : Type 0 where
  version_is : ℤ → VersionResult
  refused : MetaError → VersionResult

unfoldable pub next_term : Option DocMeta → ℤ → ℤ
next_term current primary_term = if positive primary_term then primary_term else elim current [
  | none ↦ pos 1
  | some m ↦ if positive m.primary_term then m.primary_term else pos 1
]

unfoldable pub next_seq : Option DocMeta → Bool → ℤ
next_seq current exists =
    let seq : ℤ = elim current [ none ↦ pos 0 | some m ↦ m.seq_no ] in
    if exists then next64 seq else if eq_ℤ seq (pos 0) then pos 1 else seq

-- The switch on the version type.
unfoldable pub next_version : Option DocMeta → Bool → ℤ → Text → VersionResult
next_version current exists version version_type =
    let old : ℤ = elim current [ none ↦ pos 0 | some m ↦ m.version ] in
    if version_type == text "external"
    then (if positive version
        then version_is version
        else refused (illegal (text "version_type=external requires version")))
    else if version_type == text "external_gte"
    then (if not (positive version)
        then refused (illegal (text "version_type=external_gte requires version"))
        else if ltb_ℤ version old
        then refused conflict
        else version_is version)
    else if version_type == text "internal" || version_type == []
    then (if positive version
        then (if exists && leb_ℤ version old then refused conflict else version_is version)
        else version_is (next64 old))
    else refused (illegal (text "unsupported version_type: " ++ version_type))

-- `NextMeta`; the expected sequence number takes no part.
unfoldable pub next_meta : Option DocMeta → Bool → ℤ → ℤ → ℤ → Text → MetaResult
next_meta current exists seq_no primary_term version version_type =
    elim (next_version current exists version version_type) [
      | refused e ↦ failed e
      | version_is v ↦ meta (record {
        seq_no = next_seq current exists;
        primary_term = next_term current primary_term;
        version = v;
        created = true;
      })
    ]

pub record WriteOp : Type 0 where
  pub index : Text
  pub id : Text
  pub doc : Doc
  pub op_type : Text
  pub if_seq_no : ℤ
  pub if_primary_term : ℤ
  pub if_version : ℤ
  pub version : ℤ
  pub version_type : Text

-- The segment manager's write buffers and their limits.
pub record Buffers : Type 0 where
  pub max_docs : ℤ
  pub max_bytes : ℤ
  pub count : Map Text ℤ
  pub bytes : Map Text ℤ

-- `SegmentManager.OnWrite`: the buffers, and whether the index is due for a flush.
unfoldable pub on_write : Buffers → Text → ℤ → Buffers × Bool
on_write b index size =
    let n : ℤ = next64 (elim (lookup index b.count) [ none ↦ pos 0 | some n ↦ n ]) in
    let k : ℤ = wrap64 ((elim (lookup index b.bytes) [ none ↦ pos 0 | some k ↦ k ]) +ℤ size) in
    (
      record b { count = insert index n b.count; bytes = insert index k b.bytes },
      leb_ℤ b.max_docs n || leb_ℤ b.max_bytes k,
    )

-- The parts of the server that a write uses. `conflicts` counts the conflicts, by operation type, if
-- metrics are on.
pub record Server : Type 0 where
  pub docs : Map Text Doc
  pub metas : Map Text DocMeta
  pub engine : Engine
  pub search_cache : Option Cache
  pub buffers : Option Buffers
  pub conflicts : Option (Map Text ℕ)
  pub flush_due : List Text

pub data ErrorBody : Type 0 where
  version_conflict : (current_seq_no current_term expected_seq_no expected_term : ℤ) → ErrorBody
  illegal_argument : Text → ErrorBody
  internal_error : Text → ErrorBody

pub record Response : Type 0 where
  pub meta : DocMeta
  pub status : ℕ
  pub error : Option ErrorBody

-- What the surroundings decide: whether the read of the metadata fails, the errors of the two writes to
-- the store, and the length of the document's JSON.
pub record Surroundings : Type 0 where
  pub meta_get_fails : Bool
  pub doc_put : Option Text
  pub meta_put : Option Text
  pub doc_size : ℤ

unfoldable pub read_doc_meta : Server → Text → Text → Option DocMeta
unfolding doc_meta_key
read_doc_meta s index id = lookup (doc_meta_key index id) s.metas

-- What `applyWrite` reads first; a read that fails is one that finds nothing.
unfoldable pub read_current : Surroundings → WriteOp → Server → Option DocMeta
unfolding read_doc_meta
read_current around op s = if around.meta_get_fails then none else read_doc_meta s op.index op.id

-- The condition on sequence number and term that the request states: the conflict if it fails.
unfoldable pub failed_condition : Option DocMeta → WriteOp → Option ErrorBody
failed_condition current op =
    if not (positive op.if_seq_no || positive op.if_primary_term) then none else elim current [
      | none ↦ some (version_conflict (pos 0) (pos 0) op.if_seq_no op.if_primary_term)
      | some m ↦
          if (positive op.if_seq_no && not (eq_ℤ op.if_seq_no m.seq_no))
            || (positive op.if_primary_term && not (eq_ℤ op.if_primary_term m.primary_term))
          then some (version_conflict m.seq_no m.primary_term op.if_seq_no op.if_primary_term)
          else none
    ]

abbrev pub current_or_zero : Option DocMeta → DocMeta
current_or_zero current = elim current [ none ↦ no_meta | some m ↦ m ]

-- `IncOptimisticConflict("write", …)`
unfoldable pub count_conflict : Text → Server → Server
count_conflict op_type s = record s {
  conflicts = elim s.conflicts [
    | none ↦ none
    | some counts ↦
        some (insert op_type ((elim (lookup op_type counts) [ none ↦ 0 | some n ↦ n ]) + 1) counts)
  ];
}

unfoldable pub invalidate_cache_for_index : Text → Server → Server
invalidate_cache_for_index index s = record s {
  search_cache = elim s.search_cache [
    | none ↦ none
    | some c ↦ if index == [] then some c else some (invalidate_index c index)
  ];
}

unfoldable pub notify_segments : Text → ℤ → Server → Server
notify_segments index size s = elim s.buffers [
  | none ↦ s
  | some b ↦
      let (b', due) = on_write b index size in
      record s { buffers = some b'; flush_due = if due then index ∷ s.flush_due else s.flush_due }
]

-- The writes after every check: source, metadata, engine, cache, segments.
unfoldable pub commit :
    Surroundings → WriteOp → Option DocMeta → DocMeta → Server → Server × Response
unfolding doc_key doc_meta_key
commit around op current m s =
    let with_doc : Server = record s { docs = insert (doc_key op.index op.id) op.doc s.docs } in
    let with_meta : Server = record with_doc {
      metas = insert (doc_meta_key op.index op.id) m s.metas;
    } in
    let indexed : Server = record with_meta { engine = index_doc op.index op.id op.doc s.engine } in
    elim around.doc_put [
      | some reason ↦ (
        s,
        record {
          meta = current_or_zero current;
          status = 500;
          error = some (internal_error reason);
        },
      )
      | none ↦ elim around.meta_put [
        | some reason ↦ (
          with_doc,
          record {
            meta = current_or_zero current;
            status = 500;
            error = some (internal_error reason);
          },
        )
        | none ↦ (
          notify_segments op.index around.doc_size (invalidate_cache_for_index op.index indexed),
          record {
            meta = m;
            status =
                if op.op_type == text "create"
                then 201
                else elim current [ none ↦ 201 | some _ ↦ 200 ];
            error = none;
          },
        )
      ]
    ]

abbrev pub is_some {ℓ} : {A : Type ℓ} → Option A → Bool
is_some none = false
is_some (some _) = true

abbrev pub effective_type : WriteOp → Text
effective_type op =
    if positive op.if_version && op.version_type == [] then text "internal" else op.version_type

abbrev pub conflict_now : Option DocMeta → WriteOp → ErrorBody
conflict_now current op =
    let m : DocMeta = current_or_zero current in
    version_conflict m.seq_no m.primary_term op.if_seq_no op.if_primary_term

-- `applyWrite` once the current metadata is read and the request's own conditions hold.
unfoldable pub write_next : Surroundings → WriteOp → Option DocMeta → Server → Server × Response
unfolding commit count_conflict
write_next around op current s =
    let refuse : ℕ → ErrorBody → Response = λ status body. record {
      meta = current_or_zero current;
      status = status;
      error = some body;
    } in
    elim (next_meta current (is_some current) op.if_seq_no op.if_primary_term op.version
      (effective_type op)) [
        | failed conflict ↦ (count_conflict op.op_type s, refuse 409 (conflict_now current op))
        | failed (illegal reason) ↦ (s, refuse 400 (illegal_argument reason))
        | meta m ↦ commit around op current m s
      ]

-- `applyWrite` after its read, which found `current`. No lock is held from the read to the writes, so
-- that by now the server `s` may hold something else.
unfoldable pub write_after : Surroundings → WriteOp → Option DocMeta → Server → Server × Response
unfolding write_next failed_condition
write_after around op current s =
    let m : DocMeta = current_or_zero current in
    let exists_already : Bool = op.op_type == text "create" && is_some current in
    if exists_already
    then (
      s,
      record {
        meta = m;
        status = 409;
        error = some (version_conflict m.seq_no m.primary_term (pos 0) (pos 0));
      },
    )
    else elim (failed_condition current op) [
      | some body ↦ (s, record { meta = m; status = 409; error = some body })
      | none ↦ write_next around op current s
    ]

-- `applyWrite`, where no other request writes between its read and its writes.
unfoldable pub apply_write : Surroundings → WriteOp → Server → Server × Response
unfolding write_after read_current
apply_write around op s = write_after around op (read_current around op s) s
