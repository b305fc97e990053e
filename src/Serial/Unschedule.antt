-- ===== src/Serial/Unschedule.antt =====
-- `unschedule_incomplete_batches`: takes the batches that are not complete out of the schedule,
-- unless they are to be preserved.
use blockchain_node.Prelude.{
  String, Bool, ◌||◌, Option, none, some, List, [], ◌∷◌, if◌then◌else◌, contains, last, remove,
}
use blockchain_node.Python.{
  Result, ok, err, blocked, key_error, index_error, value_error, or_raise, ◌>>=◌,
}
use blockchain_node.Dict
use blockchain_node.Dict.{Dict}
use blockchain_node.Serial.Data.{Transaction, same_txn, Batch, AnnotatedBatch, signatures}
use blockchain_node.Serial.State.{SerialScheduler}
use blockchain_node.Serial.Finish.{same_hash}

-- `self._txn_queue.remove(txn)`, where it is there
abbrev pub remove_txn : List Transaction → Transaction → List Transaction
remove_txn [] txn = []
remove_txn (t ∷ queue) txn =
    let rest = remove_txn queue txn in if same_txn t txn then queue else t ∷ rest

-- The batch of the transaction in progress is given up, or, where it is to be preserved, named.
unfoldable pub release_in_progress : SerialScheduler → Result (Option String × SerialScheduler)
release_in_progress s = elim s.in_progress_transaction [
  | none ↦ ok (none, s)
  | some txn_id ↦ do
    batch_id ← or_raise (Dict.get txn_id s.txn_to_batch) key_error
    annotated ← or_raise (Dict.get batch_id s.batch_by_id) key_error
    ok (
        if annotated.preserve
        then (some batch_id, s)
        else (none, record s { in_progress_transaction = none }))
]

unfoldable pub in_schedule : Option String → SerialScheduler → String → AnnotatedBatch → Bool
in_schedule kept s batch_id annotated =
    Dict.has batch_id s.batch_statuses || annotated.preserve || same_hash batch_id kept

unfoldable pub incomplete_batches :
    Option String → SerialScheduler → Dict AnnotatedBatch → Dict AnnotatedBatch
unfolding in_schedule
incomplete_batches kept s [] = []
incomplete_batches kept s ((batch_id, annotated) ∷ batches) =
    let rest = incomplete_batches kept s batches in
    if in_schedule kept s batch_id annotated then rest else (batch_id, annotated) ∷ rest

-- The loops return the scheduler as it is when they end or raise.
unfoldable pub forget_txns :
    List Transaction → SerialScheduler → Result (Unit {0}) × SerialScheduler
forget_txns [] s = (ok tt, s)
forget_txns (txn ∷ txns) s =
    let s' = record s {
      txn_results = Dict.erase txn.header_signature s.txn_results;
      txn_queue = remove_txn s.txn_queue txn;
    } in
    let rest =
      forget_txns txns
        (record s' { txn_to_batch = Dict.erase txn.header_signature s.txn_to_batch }) in
    if Dict.has txn.header_signature s.txn_to_batch then rest else (err key_error, s')

-- `self._last_in_batch.remove(transactions[-1].header_signature)` and `del self._batch_by_id[...]`
unfoldable pub forget_batch : String → Batch → SerialScheduler → Result (Unit {0}) × SerialScheduler
forget_batch batch_id batch s = elim (last (signatures batch.transactions)) [
  | none ↦ (err index_error, s)
  | some sig ↦
      if contains s.last_in_batch sig
      then (
        ok tt,
        record s {
          last_in_batch = remove s.last_in_batch sig;
          batch_by_id = Dict.erase batch_id s.batch_by_id;
        },
      )
      else (err value_error, s)
]

unfoldable pub remove_batches :
    Dict AnnotatedBatch → SerialScheduler → Result (Unit {0}) × SerialScheduler
remove_batches [] s = (ok tt, s)
remove_batches ((batch_id, annotated) ∷ batches) s =
    let txns = forget_txns annotated.batch.transactions s in
    elim txns.0 [
      | err e ↦ (err e, txns.1)
      | blocked ↦ (blocked, txns.1)
      | ok _ ↦
          let forgotten = forget_batch batch_id annotated.batch txns.1 in
          elim forgotten.0 [
            | err e ↦ (err e, forgotten.1)
            | blocked ↦ (blocked, forgotten.1)
            | ok _ ↦ remove_batches batches forgotten.1
          ]
    ]

unfoldable pub unschedule_incomplete_batches : SerialScheduler → Result (Unit {0}) × SerialScheduler
unschedule_incomplete_batches s = elim (release_in_progress s) [
  | err e ↦ (err e, s)
  | blocked ↦ (blocked, s)
  | ok (kept, s') ↦ remove_batches (incomplete_batches kept s' s'.batch_by_id) s'
]
