-- ===== src/Parallel/Results.antt =====
-- `set_transaction_execution_result`: the result is kept, and where it is a failure, what later
-- transactions have computed from the batch is thrown away and they are replayed.
use blockchain_node.Prelude.{
  ℕ, suc, ◌-◌, String, Bool, true, false, not, ◌&&◌, Option, none, some, List, [], ◌∷◌, ◌++◌,
  if◌then◌else◌, contains, remove, all, take, drop, leb,
}
use blockchain_node.Python.{
  Result, ok, err, blocked, scheduler_error, key_error, type_error, or_raise, ◌>>=◌,
}
use blockchain_node.Dict
use blockchain_node.Dict.{Dict}
use blockchain_node.Serial.Data.{Transaction, Batch, TxnExecutionResult, TxnOutput, new_txn_result}
use blockchain_node.Parallel.Predecessors.{add, is_predecessor_of_other}
use blockchain_node.Parallel.State.{ParallelScheduler, same_batch, is_transaction_in_schedule}

unfoldable pub txn_has_result : String → ParallelScheduler → Bool
txn_has_result txn_id s = Dict.has txn_id s.txn_results

unfoldable pub is_in_same_batch : String → String → ParallelScheduler → Result Bool
is_in_same_batch txn_id_1 txn_id_2 s = do
  batch_1 ← or_raise (Dict.get txn_id_1 s.batches_by_txn_id) key_error
  batch_2 ← or_raise (Dict.get txn_id_2 s.batches_by_txn_id) key_error
  ok (same_batch batch_1 batch_2)

unfoldable pub is_predecessor_of_possible_successor :
    String → String → ParallelScheduler → Result Bool
is_predecessor_of_possible_successor txn_id possible_successor s =
    is_predecessor_of_other txn_id (possible_successor ∷ []) s.predecessor_chain

unfoldable pub is_txn_to_replay : String → String → List String → ParallelScheduler → Result Bool
is_txn_to_replay txn_id possible_successor already_seen s = do
  is_successor ← is_predecessor_of_possible_successor txn_id possible_successor s
  same ← is_in_same_batch txn_id possible_successor s
  ok (is_successor && not same && not (contains already_seen possible_successor))

-- a successor gives up its result, or, where it has none yet, is marked to give it up
unfoldable pub replay : String → ParallelScheduler → Result (Unit {0}) × ParallelScheduler
replay txn_id s =
    if txn_has_result txn_id s
    then (let s' = record s {
      txn_results = Dict.erase txn_id s.txn_results;
      scheduled = remove s.scheduled txn_id;
    } in
        elim (Dict.get txn_id s.transactions) [
          | none ↦ (err key_error, s')
          | some txn ↦
              (ok tt, record s' { txns_available = Dict.insert txn_id txn s.txns_available })
        ])
    else (ok tt, record s { outstanding = add s.outstanding txn_id })

-- The inner loop of `_remove_subsequent_result_because_of_batch_failure`, over a copy of the
-- schedule. The list is `seen`.
unfoldable pub replay_successors :
    String
    → List String
    → List String
    → ParallelScheduler
    → Result (List String) × ParallelScheduler
replay_successors txn_id [] seen s = (ok seen, s)
replay_successors txn_id (poss_successor ∷ copy) seen s =
    let skip = replay_successors txn_id copy seen s in
    if not (is_transaction_in_schedule poss_successor s)
    then skip
    else elim (is_txn_to_replay txn_id poss_successor seen s) [
      | err e ↦ (err e, s)
      | blocked ↦ (blocked, s)
      | ok false ↦ skip
      | ok true ↦
          let replayed = replay poss_successor s in
          elim replayed.0 [
            | err e ↦ (err e, replayed.1)
            | blocked ↦ (blocked, replayed.1)
            | ok _ ↦ replay_successors txn_id copy (seen ++ poss_successor ∷ []) replayed.1
          ]
    ]

-- its outer loop
unfoldable pub replay_batch :
    List Transaction → List String → ParallelScheduler → Result (Unit {0}) × ParallelScheduler
replay_batch [] seen s = (ok tt, s)
replay_batch (txn ∷ txns) seen s =
    let replayed = replay_successors txn.header_signature s.scheduled seen s in
    elim replayed.0 [
      | err e ↦ (err e, replayed.1)
      | blocked ↦ (blocked, replayed.1)
      | ok seen' ↦ replay_batch txns seen' replayed.1
    ]

unfoldable pub remove_subsequent_result_because_of_batch_failure :
    String → ParallelScheduler → Result (Unit {0}) × ParallelScheduler
remove_subsequent_result_because_of_batch_failure sig s = elim (Dict.get sig s.batches_by_txn_id) [
  | none ↦ (err key_error, s)
  | some batch ↦ replay_batch batch.transactions [] s
]

unfoldable pub reschedule_if_outstanding :
    String → ParallelScheduler → Result Bool × ParallelScheduler
reschedule_if_outstanding txn_signature s =
    if contains s.outstanding txn_signature
    then elim (Dict.get txn_signature s.transactions) [
      | none ↦ (err key_error, s)
      | some txn ↦ (
        ok true,
        record s {
          txns_available = Dict.insert txn_signature txn s.txns_available;
          scheduled = remove s.scheduled txn_signature;
          outstanding = remove s.outstanding txn_signature;
        },
      )
    ]
    else (ok false, s)

-- `list.index`, or the `None` of `_index_of_batch`
abbrev pub index_of_batch : Batch → List Batch → Option ℕ
index_of_batch batch [] = none
index_of_batch batch (b ∷ batches) =
    let rest = index_of_batch batch batches in
    if same_batch b batch then some 0 else elim rest [ none ↦ none | some i ↦ some (suc i) ]

unfoldable pub all_have_results : List Transaction → Dict TxnExecutionResult → Bool
all_have_results txns results = all (λ t. Dict.has t.header_signature results) txns

-- the first batch without all its results, or the default
unfoldable pub first_unfinished : List Batch → Dict TxnExecutionResult → String → String
first_unfinished [] results default = default
first_unfinished (b ∷ batches) results default =
    let rest = first_unfinished batches results default in
    if all_have_results b.transactions results then rest else b.header_signature

-- the part of `_set_least_batch_id` that follows the two searches; `batch` stands at
-- `current_index`
unfoldable pub advance_least : Batch → ℕ → ℕ → ParallelScheduler → ParallelScheduler
advance_least batch least_index current_index s =
    if leb current_index least_index
    then s
    else if all (λ b. all_have_results b.transactions s.txn_results)
        (take (current_index - least_index) (drop least_index s.batches))
    then record s {
      least_batch_id_wo_results =
          some
            (first_unfinished (drop current_index s.batches) s.txn_results batch.header_signature);
    }
    else s

unfoldable pub set_least_batch_id : String → ParallelScheduler → Result ParallelScheduler
set_least_batch_id txn_signature s = do
  batch ← or_raise (Dict.get txn_signature s.batches_by_txn_id) key_error
  least ← or_raise s.least_batch_id_wo_results key_error
  annotated ← or_raise (Dict.get least s.batches_by_id) key_error
  least_index ← or_raise (index_of_batch annotated.batch s.batches) type_error
  current_index ← or_raise (index_of_batch batch s.batches) type_error
  ok (advance_least batch least_index current_index s)

-- the result, unless the transaction is to be replayed
unfoldable pub keep_result :
    String
    → Bool
    → Option String
    → TxnOutput
    → ParallelScheduler
    → Result (Unit {0}) × ParallelScheduler
keep_result txn_signature is_valid context_id out s =
    let rescheduled = reschedule_if_outstanding txn_signature s in
    elim rescheduled.0 [
      | err e ↦ (err e, rescheduled.1)
      | blocked ↦ (blocked, rescheduled.1)
      | ok true ↦ (ok tt, rescheduled.1)
      | ok false ↦
          elim (new_txn_result txn_signature is_valid (if is_valid then context_id else none)
            (if is_valid then some s.first_state_hash else none) out) [
              | err e ↦ (err e, rescheduled.1)
              | blocked ↦ (blocked, rescheduled.1)
              | ok r ↦ (
                ok tt,
                record rescheduled.1 {
                  txn_results = Dict.insert txn_signature r rescheduled.1.txn_results;
                },
              )
            ]
    ]

unfoldable pub set_transaction_execution_result :
    String
    → Bool
    → Option String
    → TxnOutput
    → ParallelScheduler
    → Result (Unit {0}) × ParallelScheduler
set_transaction_execution_result txn_signature is_valid context_id out s =
    if not (contains s.scheduled txn_signature)
    then (err scheduler_error, s)
    else if not (is_transaction_in_schedule txn_signature s)
    then (ok tt, s)
    else elim (set_least_batch_id txn_signature s) [
      | err e ↦ (err e, s)
      | blocked ↦ (blocked, s)
      | ok s1 ↦
          let removed =
            if is_valid
            then (ok tt, s1)
            else remove_subsequent_result_because_of_batch_failure txn_signature s1 in
          elim removed.0 [
            | err e ↦ (err e, removed.1)
            | blocked ↦ (blocked, removed.1)
            | ok _ ↦ keep_result txn_signature is_valid context_id out removed.1
          ]
    ]
