-- ===== src/Server/Coordinator/Tests.antt =====
-- internal/server/writecoordinator.go: runs of concrete batches.
use go_es.Prelude.{◌≡◌, refl, none, some, List, [], ◌∷◌, length, text_eq, Text, text}
use go_es.Prelude.Int.{pos}
use go_es.Prelude.Maps.{lookup}
use go_es.Search.Engine.{new_engine, get_source}
use go_es.Prelude.Maps.{sub}
use go_es.Server.Keys.{is_plain}
use go_es.Server.Coordinator.{WriteOp, Faults, no_faults, Store, Coordinator, submit_bulk, txn_loop}
use go_es.Server.Coordinator.Batches.{length-submit_bulk, failed_commit-reported}
use go_es.Server.Coordinator.Agreement.{Agree, submit_bulk-Agree}

abbrev op : Text → Text → WriteOp
op kind id = record { index = text "books"; id = id; kind = kind; doc = []; version_meta = none }

abbrev batch : List (WriteOp × Faults)
batch = (op (text "index") (text "1"), no_faults) ∷ (op (text "delete") (text "2"), no_faults) ∷ []

abbrev empty : Store
empty = record { docs = []; metas = [] }

abbrev coordinator : Coordinator
coordinator = record {
  max_concurrent = 64;
  max_batch_size = 1000;
  in_flight = 0;
  total_ok = pos 0;
  total_failed = pos 0;
  total_batches = pos 0;
}

length-submit_bulk_example :
    (length (submit_bulk none batch coordinator empty new_engine).results ≡ length batch)
    × ((submit_bulk none batch coordinator empty new_engine).coordinator.in_flight
        ≡ coordinator.in_flight)
length-submit_bulk_example = length-submit_bulk none batch coordinator empty new_engine

failed_commit-reported_example :
    ((submit_bulk (some (text "disk")) batch coordinator empty new_engine).results
      ≡ (submit_bulk none batch coordinator empty new_engine).results)
    × ((submit_bulk (some (text "disk")) batch coordinator empty new_engine).store ≡ empty)
unfolding txn_loop text_eq
failed_commit-reported_example =
    failed_commit-reported (text "disk") batch coordinator empty new_engine refl

empty-Agree : Agree empty new_engine
unfolding Agree lookup get_source sub
empty-Agree index id p = refl

submit_bulk-Agree_example :
    Agree
      (submit_bulk none batch coordinator empty new_engine).store
      (submit_bulk none batch coordinator empty new_engine).engine
unfolding is_plain
submit_bulk-Agree_example =
    submit_bulk-Agree none batch coordinator empty new_engine (refl, (refl, tt)) empty-Agree
