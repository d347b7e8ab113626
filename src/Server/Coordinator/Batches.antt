-- ===== src/Server/Coordinator/Batches.antt =====
-- internal/server/writecoordinator.go: results, atomicity and the semaphore of a batch.
use go_es.Prelude.{
  ℕ, suc, ◌+◌, ◌-◌, ◌<◌, ◌≡◌, refl, subst, ap, Option, none, some, List, [], ◌∷◌, All, length, Text,
  text, text_Comparable, Option-cases, inl, inr, arith, ◌⊎◌,
}
use go_es.Search.Engine.{Engine}
use go_es.Server.Coordinator.{
  WriteOp, WriteOpResult, Faults, Store, Coordinator, Attempt, aborts, goes_on, unset, unset_all,
  attempt, put_doc, remove_doc, txn_loop, fill_unset, all_failed, first_error, run_batch,
  submit_bulk, acquire, release, counts,
}

length-unset_all : (ops : List (WriteOp × Faults)) → length (unset_all ops) ≡ length ops
unfolding unset_all
length-unset_all [] = refl
length-unset_all (op ∷ ops) = ap suc (length-unset_all ops)

length-all_failed :
    (code : ℕ) (reason : Text) (ops : List (WriteOp × Faults))
    → length (all_failed code reason ops) ≡ length ops
unfolding all_failed
length-all_failed code reason [] = refl
length-all_failed code reason (op ∷ ops) = ap suc (length-all_failed code reason ops)

length-fill_unset :
    (reason : Text) (rs : List WriteOpResult) → length (fill_unset reason rs) ≡ length rs
unfolding fill_unset
length-fill_unset reason [] = refl
length-fill_unset reason (r ∷ rs) = ap suc (length-fill_unset reason rs)

abbrev IsAttempt : Attempt → Type 0
IsAttempt (aborts reason) = Unit
IsAttempt (goes_on s r) = 0 < r.status

attempt_status : (f : Faults) (op : WriteOp) (s : Store) → IsAttempt (attempt f op s)
unfolding attempt put_doc remove_doc
attempt_status f op s = ground arith

pub attempt_cases :
    (a : Attempt)
    → ((reason : Text) × (a ≡ aborts reason))
      ⊎ ((s : Store) × (r : WriteOpResult) × (a ≡ goes_on s r))
attempt_cases (aborts reason) = inl (reason, refl)
attempt_cases (goes_on s r) = inr (s, r, refl)

-- A round of the loop.
pub loop_aborts :
    (op : WriteOp) (f : Faults) (ops : List (WriteOp × Faults)) (s : Store) (reason : Text)
    → attempt f op s ≡ aborts reason
    → txn_loop ((op, f) ∷ ops) s
      ≡ record { store = s; results = unset ∷ unset_all ops; ok = 0; failed = some reason }
unfolding txn_loop
loop_aborts op f ops s reason e = ground (arith, e)

pub loop_goes_on :
    (op : WriteOp) (f : Faults) (ops : List (WriteOp × Faults)) (s s' : Store) (r : WriteOpResult)
    → attempt f op s ≡ goes_on s' r
    → txn_loop ((op, f) ∷ ops) s ≡ record {
      store = (txn_loop ops s').store;
      results = r ∷ (txn_loop ops s').results;
      ok = counts r + (txn_loop ops s').ok;
      failed = (txn_loop ops s').failed;
    }
unfolding txn_loop
loop_goes_on op f ops s s' r e = ground (arith, e)

length-txn_loop :
    (ops : List (WriteOp × Faults)) (s : Store) → length (txn_loop ops s).results ≡ length ops
length-txn_loop [] s = unfold txn_loop in refl
length-txn_loop ((op, f) ∷ ops) s = elim (attempt_cases (attempt f op s)) [
  | inl (reason, e) ↦ rw (loop_aborts op f ops s reason e) (ap suc (length-unset_all ops))
  | inr (s', r, e) ↦ rw (loop_goes_on op f ops s s' r e) (ap suc (length-txn_loop ops s'))
]

-- Where no call fails, every operation has a status.
loop_statuses :
    (ops : List (WriteOp × Faults)) (s : Store)
    → (txn_loop ops s).failed ≡ none
    → All (λ r. 0 < r.status) (txn_loop ops s).results
loop_statuses [] s h = unfold txn_loop in tt
loop_statuses ((op, f) ∷ ops) s h = elim (attempt_cases (attempt f op s)) [
  | inl (reason, e) ↦ absurd (ground (arith, loop_aborts op f ops s reason e, h))
  | inr (s', r, e) ↦ rw (loop_goes_on op f ops s s' r e) (
    subst IsAttempt e (attempt_status f op s),
    loop_statuses ops s' (ground (arith, loop_goes_on op f ops s s' r e, h)),
  )
]

fill_unset_all :
    (reason : Text) (rs : List WriteOpResult)
    → All (λ r. 0 < r.status) rs
    → fill_unset reason rs ≡ rs
unfolding fill_unset
fill_unset_all reason [] h = refl
fill_unset_all reason (r ∷ rs) h = ground (arith, h.0, fill_unset_all reason rs h.1)

run_batch_lem :
    (commit : Option Text) (ops : List (WriteOp × Faults)) (c : Coordinator) (s : Store)
    (e : Engine)
    → (length (run_batch commit ops c s e).results ≡ length ops)
      × ((run_batch commit ops c s e).coordinator.in_flight ≡ c.in_flight - 1)
unfolding run_batch release
run_batch_lem commit ops c s e = elim (Option-cases (first_error (txn_loop ops s).failed commit)) [
  | inl n ↦ ground (arith, n, length-txn_loop ops s)
  | inr (reason, n) ↦
      ground (arith, n, length-txn_loop ops s, length-fill_unset reason (txn_loop ops s).results)
]

-- One result for each operation, whatever becomes of the batch, and no place of the semaphore is
-- kept.
pub length-submit_bulk :
    (commit : Option Text) (ops : List (WriteOp × Faults)) (c : Coordinator) (s : Store)
    (e : Engine)
    → (length (submit_bulk commit ops c s e).results ≡ length ops)
      × ((submit_bulk commit ops c s e).coordinator.in_flight ≡ c.in_flight)
unfolding submit_bulk acquire
length-submit_bulk commit [] c s e = (refl, refl)
length-submit_bulk commit (op ∷ ops) c s e = ground (
  arith,
  length-all_failed 413 (text "batch too large") (op ∷ ops),
  length-all_failed 429 (text "write_busy: too many concurrent writes, retry later") (op ∷ ops),
  run_batch_lem commit (op ∷ ops) (record c { in_flight = c.in_flight + 1 }) s e,
)

-- A batch whose commit fails is reported as done: if every call of the transaction succeeds, the
-- results are the same whether the commit fails or not, although with a failed commit the store
-- keeps none of the writes.
pub failed_commit-reported :
    (reason : Text) (ops : List (WriteOp × Faults)) (c : Coordinator) (s : Store) (e : Engine)
    → (txn_loop ops s).failed ≡ none
    → ((submit_bulk (some reason) ops c s e).results ≡ (submit_bulk none ops c s e).results)
      × ((submit_bulk (some reason) ops c s e).store ≡ s)
unfolding submit_bulk run_batch
failed_commit-reported reason [] c s e h = (refl, refl)
failed_commit-reported reason (op ∷ ops) c s e h =
    ground (
      arith,
      h,
      fill_unset_all reason (txn_loop (op ∷ ops) s).results (loop_statuses (op ∷ ops) s h),
    )
