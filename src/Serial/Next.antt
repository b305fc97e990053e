-- ===== src/Serial/Next.antt =====
-- `next_transaction`: the next transaction that is not to fail because of its batch or of a batch
-- that it depends on.
use blockchain_node.Prelude.{
  String, Bool, true, false, not, Option, none, some, List, [], ◌∷◌, ◌++◌, is_some, if◌then◌else◌,
  contains,
}
use blockchain_node.Python.{Result, ok, err, blocked, key_error, stop_iteration, or_raise, ◌>>=◌}
use blockchain_node.Dict
use blockchain_node.Dict.{Dict}
use blockchain_node.Serial.Data.{Transaction, TxnExecutionResult, TxnInformation}
use blockchain_node.Serial.State.{SerialScheduler}

unfoldable pub dep_is_known : String → SerialScheduler → Bool
dep_is_known txn_id s = Dict.has txn_id s.txn_to_batch

-- the batch of that id has failed
abbrev pub has_failed : String → SerialScheduler → Bool
has_failed batch_id s = elim (Dict.get batch_id s.batch_statuses) [
  | none ↦ false
  | some r ↦ not r.is_valid
]

unfoldable pub in_invalid_batch : String → SerialScheduler → Result Bool
in_invalid_batch txn_id s = do
  batch_id ← or_raise (Dict.get txn_id s.txn_to_batch) key_error
  ok (has_failed batch_id s)

-- `any(self._dep_is_known(d) and self._in_invalid_batch(d) for d in ...)`
unfoldable pub any_failed : List String → SerialScheduler → Result Bool
unfolding dep_is_known in_invalid_batch
any_failed [] s = ok false
any_failed (d ∷ deps) s =
    let rest = any_failed deps s in
    if dep_is_known d s
    then (do failed ← in_invalid_batch d s; if failed then ok true else rest)
    else rest

-- a result without output, for a transaction that is not run; it never raises
abbrev pub failed_result : String → TxnExecutionResult
failed_result signature = record {
  signature = signature;
  is_valid = false;
  context_id = none;
  state_hash = none;
  state_changes = [];
  events = [];
  output_data = [];
  error_message = "";
  error_data = [];
}

-- the loop of `_set_batch_result` over the transactions of the batch
unfoldable pub fail_txns : List Transaction → Dict TxnExecutionResult → Dict TxnExecutionResult
fail_txns [] results = results
fail_txns (txn ∷ txns) results = fail_txns txns (
    if Dict.has txn.header_signature results
    then results
    else Dict.insert txn.header_signature (failed_result txn.header_signature) results)

abbrev pub put_status : String → Bool → Option String → SerialScheduler → SerialScheduler
put_status batch_id valid state_hash s = record s {
  batch_statuses =
      Dict.insert batch_id (record { is_valid = valid; state_hash = state_hash }) s.batch_statuses;
}

unfoldable pub set_batch_result :
    String → Bool → Option String → SerialScheduler → Result (Unit {0}) × SerialScheduler
unfolding fail_txns
set_batch_result txn_id valid state_hash s = elim (Dict.get txn_id s.txn_to_batch) [
  | none ↦ (ok tt, s)
  | some batch_id ↦ elim (Dict.get batch_id s.batch_by_id) [
    | none ↦ (err key_error, put_status batch_id valid state_hash s)
    | some annotated ↦ (
      ok tt,
      record (put_status batch_id valid state_hash s) {
        txn_results = fail_txns annotated.batch.transactions s.txn_results;
      },
    )
  ]
]

unfoldable pub check_change_last_good_context_id : Transaction → SerialScheduler → SerialScheduler
check_change_last_good_context_id txn s =
    if contains s.last_in_batch txn.header_signature
    then record s { previous_context_id = s.previous_valid_batch_c_id }
    else s

unfoldable pub handle_fail_fast :
    Transaction → SerialScheduler → Result (Unit {0}) × SerialScheduler
handle_fail_fast txn s =
    let (r, s') = set_batch_result txn.header_signature false none s in
    elim r [
      | ok _ ↦ (ok tt, check_change_last_good_context_id txn s')
      | err e ↦ (err e, s')
      | blocked ↦ (blocked, s')
    ]

-- what `next_transaction` does with the transaction that it has settled on
unfoldable pub schedule :
    Transaction → SerialScheduler → Result (Option TxnInformation) × SerialScheduler
schedule txn s =
    let txn_info : TxnInformation = record {
      txn = txn;
      state_hash = s.previous_state_hash;
      base_context_ids = elim s.previous_context_id [ none ↦ [] | some c_id ↦ some c_id ∷ [] ];
    } in
    (
      ok (some txn_info),
      record s {
        in_progress_transaction = some txn.header_signature;
        scheduled_transactions = s.scheduled_transactions ++ txn_info ∷ [];
      },
    )

-- the transaction is to fail: a known dependency is in a failed batch, or its own batch has failed
unfoldable pub must_fail : (String → List String) → Transaction → SerialScheduler → Result Bool
unfolding any_failed in_invalid_batch
must_fail dependencies txn s = do
  by_dependency ← any_failed (dependencies txn.header) s
  if by_dependency then ok true else in_invalid_batch txn.header_signature s

-- The loop. `dependencies` reads the dependencies out of a header. A transaction that fails
-- because of a dependency is treated as one whose batch has failed: the source spells the calls of
-- `_handle_fail_fast` out there.
unfoldable pub next_loop :
    (String → List String)
    → List Transaction
    → SerialScheduler
    → Result (Option TxnInformation) × SerialScheduler
next_loop dependencies [] s =
    if s.final
    then (err stop_iteration, record s { txn_queue = [] })
    else (ok none, record s { txn_queue = [] })
next_loop dependencies (txn ∷ queue) s = elim (must_fail dependencies txn s) [
  | err e ↦ (err e, record s { txn_queue = queue })
  | blocked ↦ (blocked, record s { txn_queue = queue })
  | ok false ↦ schedule txn (record s { txn_queue = queue })
  | ok true ↦
      let failed = handle_fail_fast txn s in
      elim failed.0 [
        | ok _ ↦ next_loop dependencies queue failed.1
        | err e ↦ (err e, record failed.1 { txn_queue = queue })
        | blocked ↦ (blocked, record failed.1 { txn_queue = queue })
      ]
]

unfoldable pub next_transaction :
    (String → List String) → SerialScheduler → Result (Option TxnInformation) × SerialScheduler
next_transaction dependencies s =
    if is_some s.in_progress_transaction then (ok none, s) else next_loop dependencies s.txn_queue s
