-- ===== src/Parallel/Next.antt =====
-- `next_transaction`: the first available transaction whose predecessors have results, that is not
-- to be replayed, and that is not to fail because of its dependencies or its batch.
use blockchain_node.Prelude.{
  ℕ, zero, suc, ◌+◌, String, ◌==◌, Bool, true, false, not, ◌&&◌, ◌||◌, Option, none, some, List, [],
  ◌∷◌, ◌++◌, if◌then◌else◌, contains, take, leb, length, map,
}
use blockchain_node.Python.{
  Result, ok, err, blocked, value_error, stop_iteration, key_error, or_raise, ◌>>=◌,
}
use blockchain_node.Dict
use blockchain_node.Dict.{Dict}
use blockchain_node.Serial.Data.{Transaction, Batch, TxnExecutionResult, TxnInformation}
use blockchain_node.Serial.Next.{failed_result}
use blockchain_node.Parallel.State.{ParallelScheduler, TransactionHeader}
use blockchain_node.Parallel.Results.{index_of_batch, all_have_results}

-- one of these has no result
unfoldable pub lacks_result : List String → ParallelScheduler → Bool
lacks_result [] s = false
lacks_result (p ∷ predecessors) s = not (Dict.has p s.txn_results) || lacks_result predecessors s

-- the loop of `_has_predecessors`
unfoldable pub some_unfinished : List String → ParallelScheduler → Result Bool
some_unfinished [] s = ok false
some_unfinished (predecessor_id ∷ predecessors) s =
    let rest = some_unfinished predecessors s in
    if not (Dict.has predecessor_id s.txn_results) then ok true else (do
      before ← or_raise (Dict.get predecessor_id s.txn_predecessors) key_error
      if lacks_result before s then ok true else rest)

unfoldable pub has_predecessors : String → ParallelScheduler → Result Bool
has_predecessors txn_id s = do
  predecessors ← or_raise (Dict.get txn_id s.txn_predecessors) key_error
  some_unfinished predecessors s

unfoldable pub is_outstanding : String → ParallelScheduler → Bool
is_outstanding txn_id s = contains s.outstanding txn_id

-- every transaction with a result is valid
unfoldable pub results_are_valid : List Transaction → Dict TxnExecutionResult → Bool
results_are_valid [] results = true
results_are_valid (txn ∷ txns) results =
    let rest = results_are_valid txns results in
    elim (Dict.get txn.header_signature results) [ none ↦ rest | some r ↦ r.is_valid && rest ]

unfoldable pub txn_is_in_valid_batch : String → ParallelScheduler → Result Bool
txn_is_in_valid_batch txn_id s = do
  batch ← or_raise (Dict.get txn_id s.batches_by_txn_id) key_error
  ok (results_are_valid batch.transactions s.txn_results)

unfoldable pub can_fail_fast : String → ParallelScheduler → Result Bool
can_fail_fast txn_id s = do
  batch ← or_raise (Dict.get txn_id s.batches_by_txn_id) key_error
  ok (elim s.least_batch_id_wo_results [
    | none ↦ false
    | some least ↦ batch.header_signature == least
  ])

unfoldable pub all_in_batch_have_results : String → ParallelScheduler → Result Bool
all_in_batch_have_results txn_id s = do
  batch ← or_raise (Dict.get txn_id s.batches_by_txn_id) key_error
  ok (all_have_results batch.transactions s.txn_results)

-- `any(not results[t].is_valid for t in txns)`
unfoldable pub any_invalid : List Transaction → Dict TxnExecutionResult → Result Bool
any_invalid [] results = ok false
any_invalid (txn ∷ txns) results =
    let rest = any_invalid txns results in
    do
      r ← or_raise (Dict.get txn.header_signature results) key_error
      if r.is_valid then rest else ok true

unfoldable pub any_in_batch_are_invalid : String → ParallelScheduler → Result Bool
any_in_batch_are_invalid txn_id s = do
  batch ← or_raise (Dict.get txn_id s.batches_by_txn_id) key_error
  any_invalid batch.transactions s.txn_results

unfoldable pub dependency_not_processed : List String → ParallelScheduler → Result Bool
dependency_not_processed [] s = ok false
dependency_not_processed (d ∷ deps) s =
    let rest = dependency_not_processed deps s in
    if not (Dict.has d s.batches_by_txn_id)
    then rest
    else (do done ← all_in_batch_have_results d s; if done then rest else ok true)

unfoldable pub txn_failed_by_dep : List String → ParallelScheduler → Result Bool
txn_failed_by_dep [] s = ok false
txn_failed_by_dep (d ∷ deps) s =
    let rest = txn_failed_by_dep deps s in
    if not (Dict.has d s.batches_by_txn_id)
    then rest
    else (do invalid ← any_in_batch_are_invalid d s; if invalid then ok true else rest)

-- what the loop of `next_transaction` does with an available transaction
pub data Decision : Type 0 where
  pass : Decision
  fail : Decision
  take_it : Decision

unfoldable pub decide_deps : List String → String → ParallelScheduler → Result Decision
decide_deps deps txn_id s = do
  waits ← dependency_not_processed deps s
  if waits then ok pass else (do
    failed ← txn_failed_by_dep deps s
    if failed then ok fail else (do
      valid ← txn_is_in_valid_batch txn_id s
      if valid
          then ok take_it
          else (do fast ← can_fail_fast txn_id s; ok (if fast then fail else take_it))))

unfoldable pub decide :
    (String → TransactionHeader) → String → Transaction → ParallelScheduler → Result Decision
decide parse txn_id txn s = do
  waits ← has_predecessors txn_id s
  if waits || is_outstanding txn_id s
      then ok pass
      else decide_deps (parse txn.header).dependencies txn_id s

-- The loop over `_txns_available`, with `no_longer_available`.
unfoldable pub choose :
    (String → TransactionHeader)
    → Dict Transaction
    → List String
    → ParallelScheduler
    → Result (Option Transaction × List String) × ParallelScheduler
choose parse [] gone s = (ok (none, gone), s)
choose parse ((txn_id, txn) ∷ available) gone s = elim (decide parse txn_id txn s) [
  | err e ↦ (err e, s)
  | blocked ↦ (blocked, s)
  | ok pass ↦ choose parse available gone s
  | ok take_it ↦ (ok (some txn, gone), s)
  | ok fail ↦
      choose parse available (gone ++ txn_id ∷ [])
        (record s { txn_results = Dict.insert txn_id (failed_result txn_id) s.txn_results })
]

-- `for txn_id in no_longer_available: del self._txns_available[txn_id]`
abbrev pub erase_all : List String → Dict Transaction → Dict Transaction
erase_all [] d = d
erase_all (k ∷ ks) d = erase_all ks (Dict.erase k d)

-- `if (prior_txn_id, result.context_id) not in contexts`
unfoldable pub has_context : List (String × Option String) → String → Option String → Bool
has_context [] txn_id context_id = false
has_context ((t, c) ∷ contexts) txn_id context_id =
    (t == txn_id && same_context c context_id) || has_context contexts txn_id context_id
  where
    same_context : Option String → Option String → Bool
    same_context none none = true
    same_context (some a) (some b) = a == b
    same_context _ _ = false

-- The deque of `_get_initial_state_for_transaction`; its front is the list's.
unfoldable pub prior_contexts :
    ℕ
    → List String
    → List (String × Option String)
    → ParallelScheduler
    → Option (Result (List (String × Option String)))
prior_contexts fuel [] contexts s = some (ok contexts)
prior_contexts zero (prior_txn_id ∷ txn_dependencies) contexts s = none
prior_contexts (suc fuel) (prior_txn_id ∷ txn_dependencies) contexts s =
    elim (txn_is_in_valid_batch prior_txn_id s) [
      | err e ↦ some (err e)
      | blocked ↦ some blocked
      | ok true ↦ elim (Dict.get prior_txn_id s.txn_results) [
        | none ↦ some (err key_error)
        | some r ↦
            prior_contexts fuel txn_dependencies
              (if has_context contexts prior_txn_id r.context_id
                then contexts
                else contexts ++ (prior_txn_id, r.context_id) ∷ [])
              s
      ]
      | ok false ↦ elim (Dict.get prior_txn_id s.txn_predecessors) [
        | none ↦ some (err key_error)
        | some before ↦ prior_contexts fuel (txn_dependencies ++ before) contexts s
      ]
    ]

abbrev pub txns_before : List Batch → ℕ
txns_before [] = 0
txns_before (b ∷ batches) = length b.transactions + txns_before batches

abbrev pub index_of_txn : String → List Transaction → Option ℕ
index_of_txn txn_id [] = none
index_of_txn txn_id (t ∷ txns) =
    let rest = index_of_txn txn_id txns in
    if t.header_signature == txn_id
    then some 0
    else elim rest [ none ↦ none | some i ↦ some (suc i) ]

-- The source subtracts one, which the order of the keys does not depend on.
unfoldable pub index_of_txn_in_schedule : String → ParallelScheduler → Result ℕ
index_of_txn_in_schedule txn_id s = do
  batch ← or_raise (Dict.get txn_id s.batches_by_txn_id) key_error
  index ← or_raise (index_of_batch batch s.batches) value_error
  txn_index ← or_raise (index_of_txn txn_id batch.transactions) stop_iteration
  ok (txns_before (take index s.batches) + txn_index)

-- the keys of the sort
unfoldable pub keyed :
    List (String × Option String) → ParallelScheduler → Result (List (ℕ × Option String))
keyed [] s = ok []
keyed ((txn_id, context_id) ∷ contexts) s =
    let rest = keyed contexts s in
    do index ← index_of_txn_in_schedule txn_id s; others ← rest; ok ((index, context_id) ∷ others)

-- a stable sort, the largest key first
unfoldable pub insert_latest :
    ℕ × Option String → List (ℕ × Option String) → List (ℕ × Option String)
insert_latest x [] = x ∷ []
insert_latest x (y ∷ ys) =
    let rest = insert_latest x ys in if leb y.0 x.0 then x ∷ y ∷ ys else y ∷ rest

unfoldable pub sort_latest : List (ℕ × Option String) → List (ℕ × Option String)
sort_latest [] = []
sort_latest (x ∷ xs) = insert_latest x (sort_latest xs)

unfoldable pub get_initial_state_for_transaction :
    ℕ → Transaction → ParallelScheduler → Option (Result (List (Option String)))
get_initial_state_for_transaction fuel txn s =
    elim (Dict.get txn.header_signature s.txn_predecessors) [
      | none ↦ some (err key_error)
      | some predecessors ↦ elim (prior_contexts fuel predecessors [] s) [
        | none ↦ none
        | some (err e) ↦ some (err e)
        | some blocked ↦ some blocked
        | some (ok contexts) ↦
            some (do sorted ← keyed contexts s; ok (map (λ x. x.1) (sort_latest sorted)))
      ]
    ]

-- what `next_transaction` does with the transaction that it has settled on
unfoldable pub hand_out :
    ℕ
    → Transaction
    → ParallelScheduler
    → Option (Result (Option TxnInformation) × ParallelScheduler)
hand_out fuel txn s = elim (get_initial_state_for_transaction fuel txn s) [
  | none ↦ none
  | some (err e) ↦ some (err e, s)
  | some blocked ↦ some (blocked, s)
  | some (ok bases) ↦
      let info : TxnInformation = record {
        txn = txn;
        state_hash = s.first_state_hash;
        base_context_ids = bases;
      } in
      some (
        ok (some info),
        record s {
          scheduled = s.scheduled ++ txn.header_signature ∷ [];
          txns_available = Dict.erase txn.header_signature s.txns_available;
          scheduled_txn_info = Dict.insert txn.header_signature info s.scheduled_txn_info;
        },
      )
]

-- `none` means that `prior_contexts` ran out of fuel.
unfoldable pub next_transaction :
    (String → TransactionHeader)
    → ℕ
    → ParallelScheduler
    → Option (Result (Option TxnInformation) × ParallelScheduler)
next_transaction parse fuel s =
    let chosen = choose parse s.txns_available [] s in
    elim chosen.0 [
      | err e ↦ some (err e, chosen.1)
      | blocked ↦ some (blocked, chosen.1)
      | ok (next_txn, gone) ↦
          let s' = record chosen.1 { txns_available = erase_all gone chosen.1.txns_available } in
          elim next_txn [ none ↦ some (ok none, s') | some txn ↦ hand_out fuel txn s' ]
    ]

-- the loop of `available`
unfoldable pub count_available : Dict Transaction → ParallelScheduler → Result ℕ
count_available [] s = ok 0
count_available ((txn_id, txn) ∷ available) s =
    let rest = count_available available s in
    do
      waits ← has_predecessors txn_id s
      counted ← rest
      ok (if waits then counted else suc counted)

unfoldable pub available : ParallelScheduler → Result ℕ
available s = count_available s.txns_available s
