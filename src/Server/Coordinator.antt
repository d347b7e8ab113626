-- ===== src/Server/Coordinator.antt =====
-- internal/server/writecoordinator.go: a batch of writes as one transaction of the store, and the
-- limit on concurrent writes. Badger makes a transaction atomic: its writes take effect together at
-- the commit, or not at all. Which of its calls fail is an input. One batch runs at a time here; the
-- code updates the engine after the transaction, outside of it.
pub mod Batches
pub mod Agreement
mod Tests
use go_es.Prelude.{
  ℕ, suc, ◌+◌, ◌-◌, Bool, true, false, not, ◌&&◌, ◌||◌, Option, none, some, List, [], ◌∷◌, ◌++◌,
  if◌then◌else◌, ltb, leb, nat_eq, ◌==◌, Text, text_Comparable, text, length,
}
use go_es.Prelude.Int.{ℤ, pos, negsuc, ◌+ℤ◌, wrap64}
use go_es.Prelude.Maps.{Map, lookup, insert, delete}
use go_es.Search.Engine.{Engine, Doc, index_doc, delete_doc}
use go_es.Server.Keys.{doc_key, doc_meta_key}
use go_es.Server.Optimistic.{DocMeta, ErrorBody, version_conflict}

pub record WriteOp : Type 0 where
  pub index : Text
  pub id : Text
  pub kind : Text
  pub doc : Doc
  pub version_meta : Option DocMeta

pub record WriteOpResult : Type 0 where
  pub status : ℕ
  pub meta : Option DocMeta
  pub error : Option Text
  pub err_body : Option ErrorBody

abbrev pub unset : WriteOpResult
unset = record { status = 0; meta = none; error = none; err_body = none }

abbrev pub failed_with : ℕ → Text → WriteOpResult
failed_with code reason = record {
  status = code;
  meta = none;
  error = some reason;
  err_body = none;
}

-- The counters are int64; `in_flight` is the number of taken places of the semaphore.
pub record Coordinator : Type 0 where
  pub max_concurrent : ℕ
  pub max_batch_size : ℕ
  pub in_flight : ℕ
  pub total_ok : ℤ
  pub total_failed : ℤ
  pub total_batches : ℤ

abbrev pub positive_or : ℕ → ℤ → ℕ
positive_or d (pos n) = if nat_eq n 0 then d else n
positive_or d (negsuc n) = d

unfoldable pub new_write_coordinator : (max_concurrent max_batch_size : ℤ) → Coordinator
new_write_coordinator max_concurrent max_batch_size = record {
  max_concurrent = positive_or 64 max_concurrent;
  max_batch_size = positive_or 1000 max_batch_size;
  in_flight = 0;
  total_ok = pos 0;
  total_failed = pos 0;
  total_batches = pos 0;
}

-- `Acquire`, and the release that it returns.
unfoldable pub acquire : Coordinator → Option Coordinator
acquire c =
    if ltb c.in_flight c.max_concurrent
    then some (record c { in_flight = c.in_flight + 1 })
    else none

unfoldable pub release : Coordinator → Coordinator
release c = record c { in_flight = c.in_flight - 1 }

abbrev pub count : ℕ → ℤ → ℤ
count n x = wrap64 (x +ℤ pos n)

-- The parts of the store that a batch touches.
pub record Store : Type 0 where
  pub docs : Map Text Doc
  pub metas : Map Text DocMeta

-- The errors of the calls on the transaction for one operation: whether reading the metadata fails,
-- setting the source, setting or
-- deleting the metadata, deleting the source.
pub record Faults : Type 0 where
  pub get_fails : Bool
  pub set_doc : Option Text
  pub on_meta : Option Text
  pub delete_doc : Option Text

abbrev pub no_faults : Faults
no_faults = record { get_fails = false; set_doc = none; on_meta = none; delete_doc = none }

-- One operation inside of the transaction: it aborts the transaction, or it leaves a view of the
-- store and a result.
pub data Attempt : Type 0 where
  aborts : Text → Attempt
  goes_on : Store → WriteOpResult → Attempt

abbrev conflict_result : DocMeta → WriteOpResult
conflict_result m = record {
  status = 409;
  meta = none;
  error = none;
  err_body = some (version_conflict m.seq_no m.primary_term (pos 0) (pos 0));
}

unfoldable pub put_doc : Faults → WriteOp → Store → Attempt
unfolding doc_key doc_meta_key insert
put_doc f op s =
    let with_doc : Store = record s { docs = insert (doc_key op.index op.id) op.doc s.docs } in
    let done : WriteOpResult = record {
      status = 201;
      meta = op.version_meta;
      error = none;
      err_body = none;
    } in
    elim f.set_doc [
      | some reason ↦ aborts reason
      | none ↦ elim op.version_meta [
        | none ↦ goes_on with_doc done
        | some m ↦ elim f.on_meta [
          | some reason ↦ aborts reason
          | none ↦
              goes_on (record with_doc { metas = insert (doc_meta_key op.index op.id) m s.metas })
                done
        ]
      ]
    ]

-- An error of the second deletion is dropped, so the metadata stay if it fails.
unfoldable pub remove_doc : Faults → WriteOp → Store → Attempt
unfolding doc_key doc_meta_key delete
remove_doc f op s = elim f.delete_doc [
  | some reason ↦ aborts reason
  | none ↦
      goes_on
        (record s {
          docs = delete (doc_key op.index op.id) s.docs;
          metas = elim f.on_meta [
            | none ↦ delete (doc_meta_key op.index op.id) s.metas
            | some _ ↦ s.metas
          ];
        })
        (record { status = 200; meta = none; error = none; err_body = none })
]

-- A failing read of the metadata counts as none.
unfoldable pub attempt : Faults → WriteOp → Store → Attempt
unfolding put_doc remove_doc doc_meta_key lookup
attempt f op s =
    if op.kind == text "index"
    then put_doc f op s
    else if op.kind == text "create"
    then (elim (if f.get_fails then none else lookup (doc_meta_key op.index op.id) s.metas) [
      | some m ↦ goes_on s (conflict_result m)
      | none ↦ put_doc f op s
    ])
    else if op.kind == text "delete"
    then remove_doc f op s
    else goes_on s (failed_with 400 (text "unknown op kind: " ++ op.kind))

abbrev pub counts : WriteOpResult → ℕ
counts r = if nat_eq r.status 201 || nat_eq r.status 200 then 1 else 0

-- The loop of the transaction, as far as it gets.
pub record Loop : Type 0 where
  pub store : Store
  pub results : List WriteOpResult
  pub ok : ℕ
  pub failed : Option Text

unfoldable pub unset_all : {A : Type 0} → List A → List WriteOpResult
unset_all [] = []
unset_all (_ ∷ rest) = unset ∷ unset_all rest

unfoldable pub txn_loop : List (WriteOp × Faults) → Store → Loop
unfolding attempt unset_all
txn_loop [] s = record { store = s; results = []; ok = 0; failed = none }
txn_loop ((op, f) ∷ rest) s = elim (attempt f op s) [
  | aborts reason ↦ record {
    store = s;
    results = unset ∷ unset_all rest;
    ok = 0;
    failed = some reason;
  }
  | goes_on s' r ↦
      let l = txn_loop rest s' in
      record { store = l.store; results = r ∷ l.results; ok = counts r + l.ok; failed = l.failed }
]

-- The results that are still unset become errors.
unfoldable pub fill_unset : Text → List WriteOpResult → List WriteOpResult
fill_unset reason [] = []
fill_unset reason (r ∷ rs) =
    (if nat_eq r.status 0 then failed_with 500 reason else r) ∷ fill_unset reason rs

-- The engine after a transaction that succeeded.
unfoldable pub update_engine : List (WriteOp × Faults) → List WriteOpResult → Engine → Engine
unfolding index_doc delete_doc
update_engine ((op, _) ∷ ops) (r ∷ rs) e = update_engine ops rs (
    if nat_eq r.status 201 && (op.kind == text "index" || op.kind == text "create")
    then index_doc op.index op.id op.doc e
    else if nat_eq r.status 200 && op.kind == text "delete"
    then delete_doc op.index op.id e
    else e)
update_engine _ _ e = e

unfoldable pub all_failed : ℕ → Text → List (WriteOp × Faults) → List WriteOpResult
all_failed code reason [] = []
all_failed code reason (_ ∷ ops) = failed_with code reason ∷ all_failed code reason ops

-- What a batch leaves.
pub record Outcome : Type 0 where
  pub coordinator : Coordinator
  pub store : Store
  pub engine : Engine
  pub results : List WriteOpResult

-- The first error of the loop and the commit.
abbrev pub first_error : Option Text → Option Text → Option Text
first_error (some reason) commit = some reason
first_error none commit = commit

-- The batch once a place is taken; `commit` is the error of the commit.
unfoldable pub run_batch :
    Option Text → List (WriteOp × Faults) → Coordinator → Store → Engine → Outcome
unfolding txn_loop fill_unset update_engine release
run_batch commit ops c s e =
    let l = txn_loop ops s in
    let counted : Coordinator = record c {
      total_batches = count 1 c.total_batches;
      total_ok = count l.ok c.total_ok;
    } in
    elim (first_error l.failed commit) [
      | some reason ↦ record {
        coordinator = release (record counted { total_failed = count (length ops) c.total_failed });
        store = s;
        engine = e;
        results = fill_unset reason l.results;
      }
      | none ↦ record {
        coordinator = release counted;
        store = l.store;
        engine = update_engine ops l.results e;
        results = l.results;
      }
    ]

unfoldable pub submit_bulk :
    Option Text → List (WriteOp × Faults) → Coordinator → Store → Engine → Outcome
unfolding run_batch acquire all_failed
submit_bulk commit [] c s e = record { coordinator = c; store = s; engine = e; results = [] }
submit_bulk commit (op ∷ ops) c s e =
    if ltb c.max_batch_size (length (op ∷ ops))
    then record {
      coordinator = c;
      store = s;
      engine = e;
      results = all_failed 413 (text "batch too large") (op ∷ ops);
    }
    else elim (acquire c) [
      | none ↦ record {
        coordinator = c;
        store = s;
        engine = e;
        results =
            all_failed 429 (text "write_busy: too many concurrent writes, retry later") (op ∷ ops);
      }
      | some taken ↦ run_batch commit (op ∷ ops) taken s e
    ]
