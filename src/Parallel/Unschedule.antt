-- ===== src/Parallel/Unschedule.antt =====
-- `unschedule_incomplete_batches`: the batches with a transaction that waits or is in flight are
-- taken out of the schedule, unless they are to be preserved.
use blockchain_node.Prelude.{
  String, not, Option, none, some, List, [], ◌∷◌, if◌then◌else◌, remove, filter,
}
use blockchain_node.Python.{Result, ok, err, blocked, key_error, value_error, ◌>>=◌}
use blockchain_node.Dict
use blockchain_node.Dict.{Dict}
use blockchain_node.Serial.Data.{Transaction, Batch}
use blockchain_node.Parallel.Predecessors.{add}
use blockchain_node.Parallel.State.{ParallelScheduler, same_batch}

-- the first two loops, each over some transaction ids
unfoldable pub find_incomplete :
    List String → List String → ParallelScheduler → Result (List String)
find_incomplete [] incomplete_batches s = ok incomplete_batches
find_incomplete (txn_id ∷ txn_ids) incomplete_batches s =
    elim (Dict.get txn_id s.batches_by_txn_id) [
      | none ↦ err key_error
      | some batch ↦ elim (Dict.get batch.header_signature s.batches_by_id) [
        | none ↦ err key_error
        | some annotated ↦
            find_incomplete txn_ids
              (if annotated.preserve
                then incomplete_batches
                else add incomplete_batches batch.header_signature)
              s
      ]
    ]

-- the ids of the transactions without a result
unfoldable pub in_flight : ParallelScheduler → List String
in_flight s = filter (λ t. not (Dict.has t s.txn_results)) (Dict.keys s.transactions)

-- `self._batches.remove(batch)`
unfoldable pub remove_batch : Batch → List Batch → Option (List Batch)
remove_batch batch [] = none
remove_batch batch (b ∷ batches) =
    let rest = remove_batch batch batches in
    if same_batch b batch
    then some batches
    else elim rest [ none ↦ none | some batches' ↦ some (b ∷ batches') ]

-- the loop over the transactions of a batch
unfoldable pub forget_txns :
    List Transaction → ParallelScheduler → Result (Unit {0}) × ParallelScheduler
forget_txns [] s = (ok tt, s)
forget_txns (txn ∷ txns) s =
    let txn_id = txn.header_signature in
    let rest = forget_txns txns (record s {
      batches_by_txn_id = Dict.erase txn_id s.batches_by_txn_id;
      txn_results = Dict.erase txn_id s.txn_results;
      txns_available = Dict.erase txn_id s.txns_available;
      outstanding = remove s.outstanding txn_id;
    }) in
    if Dict.has txn_id s.batches_by_txn_id then rest else (err key_error, s)

unfoldable pub remove_batches :
    List String → ParallelScheduler → Result (Unit {0}) × ParallelScheduler
remove_batches [] s = (ok tt, s)
remove_batches (batch_id ∷ batch_ids) s = elim (Dict.get batch_id s.batches_by_id) [
  | none ↦ (err key_error, s)
  | some annotated ↦ elim (remove_batch annotated.batch s.batches) [
    | none ↦ (err value_error, s)
    | some batches ↦
        let forgotten =
          forget_txns annotated.batch.transactions
            (record s { batches = batches; batches_by_id = Dict.erase batch_id s.batches_by_id }) in
        elim forgotten.0 [
          | err e ↦ (err e, forgotten.1)
          | blocked ↦ (blocked, forgotten.1)
          | ok _ ↦ remove_batches batch_ids forgotten.1
        ]
  ]
]

unfoldable pub unschedule_incomplete_batches :
    ParallelScheduler → Result (Unit {0}) × ParallelScheduler
unschedule_incomplete_batches s =
    elim (do
      waiting ← find_incomplete (Dict.keys s.txns_available) [] s
      find_incomplete (in_flight s) waiting s) [
        | err e ↦ (err e, s)
        | blocked ↦ (blocked, s)
        | ok incomplete_batches ↦ remove_batches incomplete_batches s
      ]
