-- ===== src/Parallel/Squash.antt =====
-- `get_batch_execution_result` and `cancel`: the calls that squash contexts. The squash handler is a
-- parameter, as for the serial scheduler.
use blockchain_node.Prelude.{
  suc, String, ◌==◌, Bool, true, false, not, ◌&&◌, Option, none, some, List, [], ◌∷◌, ◌++◌,
  if◌then◌else◌, take, drop, reverse,
}
use blockchain_node.Python.{
  Result, ok, err, blocked, value_error, key_error, unscheduled_transaction, or_raise, ◌>>=◌,
}
use blockchain_node.Dict
use blockchain_node.Dict.{Dict}
use blockchain_node.Serial.Data.{Transaction, Batch, BatchExecutionResult, TxnExecutionResult}
use blockchain_node.Parallel.State.{ParallelScheduler}
use blockchain_node.Parallel.Results.{index_of_batch}

-- The handler is given the contexts as the scheduler has them: a result may have none.
abbrev pub SquashHandler : Type 0 → Type 0
SquashHandler W = String → List (Option String) → Bool → Bool → W → Result String × W

-- `_is_valid_batch`
unfoldable pub is_valid_batch : List Transaction → Dict TxnExecutionResult → Result Bool
is_valid_batch [] results = ok true
is_valid_batch (txn ∷ txns) results =
    let rest = is_valid_batch txns results in
    do
      r ← or_raise (Dict.get txn.header_signature results) unscheduled_transaction
      if r.is_valid then rest else ok false

-- no later batch is valid
unfoldable pub none_valid : List Batch → Dict TxnExecutionResult → Result Bool
none_valid [] results = ok true
none_valid (b ∷ batches) results =
    let rest = none_valid batches results in
    do valid ← is_valid_batch b.transactions results; if valid then ok false else rest

unfoldable pub is_last_valid_batch : String → ParallelScheduler → Result Bool
is_last_valid_batch batch_signature s = do
  annotated ← or_raise (Dict.get batch_signature s.batches_by_id) key_error
  valid ← is_valid_batch annotated.batch.transactions s.txn_results
  if not valid then ok false else (do
    index ← or_raise (index_of_batch annotated.batch s.batches) value_error
    none_valid (drop (suc index) s.batches) s.txn_results)

unfoldable pub is_explicit_request_for_state_root : String → ParallelScheduler → Bool
is_explicit_request_for_state_root batch_signature s =
    Dict.has batch_signature s.batches_with_state_hash

unfoldable pub is_implicit_request_for_state_root : String → ParallelScheduler → Result Bool
is_implicit_request_for_state_root batch_signature s =
    if s.final then is_last_valid_batch batch_signature s else ok false

-- `txn_id not in txns_added_predecessors`: the list holds sets of ids, and a text is equal to no set
unfoldable pub is_added : String → List (List String) → Bool
is_added txn_id [] = false
is_added txn_id (predecessors ∷ txns_added_predecessors) = is_added txn_id txns_added_predecessors

-- What the inner loop of `_get_contexts_for_squash` has collected when it ends.
pub record Collected : Type 0 where
  pub txns_added_predecessors : List (List String)
  pub batch_is_valid : Bool
  pub contexts_from_batch : List (Option String)

-- the inner loop, over the transactions of a batch from the last to the first
unfoldable pub collect_from_batch :
    List Transaction
    → List (List String)
    → List (Option String)
    → ParallelScheduler
    → Result Collected
collect_from_batch [] added contexts s = ok (record {
  txns_added_predecessors = added;
  batch_is_valid = true;
  contexts_from_batch = contexts;
})
collect_from_batch (txn ∷ txns) added contexts s =
    elim (Dict.get txn.header_signature s.txn_results) [
      | none ↦ err key_error
      | some result ↦
          if not result.is_valid
          then ok (record {
            txns_added_predecessors = added;
            batch_is_valid = false;
            contexts_from_batch = contexts;
          })
          else if is_added txn.header_signature added
          then collect_from_batch txns added contexts s
          else elim (Dict.get txn.header_signature s.txn_predecessors) [
            | none ↦ err key_error
            | some predecessors ↦
                collect_from_batch txns (added ++ predecessors ∷ [])
                  (contexts ++ result.context_id ∷ []) s
          ]
    ]

-- the outer loop, over the batches from that of the request to the first
unfoldable pub collect_contexts :
    List Batch
    → List (List String)
    → List (Option String)
    → ParallelScheduler
    → Result (List (Option String))
collect_contexts [] added contexts s = ok contexts
collect_contexts (b ∷ batches) added contexts s =
    elim (collect_from_batch (reverse b.transactions) added [] s) [
      | err e ↦ err e
      | blocked ↦ blocked
      | ok c ↦
          collect_contexts batches c.txns_added_predecessors
            (if c.batch_is_valid then contexts ++ c.contexts_from_batch else contexts) s
    ]

unfoldable pub get_contexts_for_squash : String → ParallelScheduler → Result (List (Option String))
get_contexts_for_squash batch_signature s = do
  annotated ← or_raise (Dict.get batch_signature s.batches_by_id) key_error
  index ← or_raise (index_of_batch annotated.batch s.batches) value_error
  collect_contexts (reverse (take (suc index) s.batches)) [] [] s

unfoldable pub is_state_hash_correct : String → String → ParallelScheduler → Bool
is_state_hash_correct state_hash batch_id s = elim (Dict.get batch_id s.batches_with_state_hash) [
  | none ↦ false
  | some h ↦ state_hash == h
]

-- the contexts of the results that have one
unfoldable pub contexts_of : Dict TxnExecutionResult → List (Option String)
contexts_of [] = []
contexts_of ((txn_id, tr) ∷ results) =
    let rest = contexts_of results in
    elim tr.context_id [ none ↦ rest | some c_id ↦ if c_id == "" then rest else some c_id ∷ rest ]

module _ {W : Type 0} (squash : SquashHandler W) where
  -- the batch has a state hash to reach
  unfoldable pub explicit_root :
      String → ParallelScheduler → W → Result (Option BatchExecutionResult) × W
  explicit_root batch_signature s w = elim (get_contexts_for_squash batch_signature s) [
    | err e ↦ (err e, w)
    | blocked ↦ (blocked, w)
    | ok contexts ↦
        let first = squash s.first_state_hash contexts false false w in
        elim first.0 [
          | err e ↦ (err e, first.1)
          | blocked ↦ (blocked, first.1)
          | ok h ↦
              let second =
                squash s.first_state_hash contexts (is_state_hash_correct h batch_signature s) true
                  first.1 in
              elim second.0 [
                | err e ↦ (err e, second.1)
                | blocked ↦ (blocked, second.1)
                | ok _ ↦ (ok (some (record { is_valid = true; state_hash = some h })), second.1)
              ]
        ]
  ]

  -- the last valid batch of a final schedule
  unfoldable pub implicit_root :
      String → ParallelScheduler → W → Result (Option BatchExecutionResult) × W
  implicit_root batch_signature s w = elim (get_contexts_for_squash batch_signature s) [
    | err e ↦ (err e, w)
    | blocked ↦ (blocked, w)
    | ok contexts ↦
        let only = squash s.first_state_hash contexts s.always_persist true w in
        elim only.0 [
          | err e ↦ (err e, only.1)
          | blocked ↦ (blocked, only.1)
          | ok h ↦ (ok (some (record { is_valid = true; state_hash = some h })), only.1)
        ]
  ]

  -- `except _UnscheduledTransactionError: return None`
  abbrev pub or_none :
      Result (Option BatchExecutionResult) × W → Result (Option BatchExecutionResult) × W
  or_none (err unscheduled_transaction, w) = (ok none, w)
  or_none out = out

  unfoldable pub valid_batch_result :
      String → ParallelScheduler → W → Result (Option BatchExecutionResult) × W
  valid_batch_result batch_signature s w =
      if is_explicit_request_for_state_root batch_signature s
      then explicit_root batch_signature s w
      else elim (is_implicit_request_for_state_root batch_signature s) [
        | err e ↦ (err e, w)
        | blocked ↦ (blocked, w)
        | ok true ↦ implicit_root batch_signature s w
        | ok false ↦ (ok (some (record { is_valid = true; state_hash = none })), w)
      ]

  unfoldable pub get_batch_execution_result :
      String → ParallelScheduler → W → Result (Option BatchExecutionResult) × W
  get_batch_execution_result batch_signature s w = elim (Dict.get batch_signature s.batches_by_id) [
    | none ↦ (ok none, w)
    | some annotated ↦ elim (is_valid_batch annotated.batch.transactions s.txn_results) [
      | err e ↦ (err e, w)
      | blocked ↦ (blocked, w)
      | ok false ↦ (ok (some (record { is_valid = false; state_hash = none })), w)
      | ok true ↦ or_none (valid_batch_result batch_signature s w)
    ]
  ]

  unfoldable pub cancel : ParallelScheduler → W → Result (Unit {0}) × ParallelScheduler × W
  cancel s w =
      if not s.cancelled && not s.final
      then (let out = squash s.first_state_hash (contexts_of s.txn_results) false true w in
          elim out.0 [
            | err e ↦ (err e, s, out.1)
            | blocked ↦ (blocked, s, out.1)
            | ok _ ↦ (ok tt, record s { cancelled = true }, out.1)
          ])
      else (ok tt, record s { cancelled = true }, w)
