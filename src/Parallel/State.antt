-- ===== src/Parallel/State.antt =====
-- The state of `ParallelScheduler`, `add_batch`, and the calls that only read the state.
use blockchain_node.Prelude.{
  ℕ, String, Bool, true, false, ◌&&◌, Option, none, some, List, [], ◌∷◌, ◌++◌, if◌then◌else◌,
  length, get_elem?, eqb, is_empty, ◌==◌,
}
use blockchain_node.Python.{
  Result, ok, err, blocked, scheduler_error, index_error, key_error, or_raise, ◌>>=◌,
}
use blockchain_node.Dict
use blockchain_node.Dict.{Dict}
use blockchain_node.Serial.Data.{
  Transaction, same_txn, Batch, AnnotatedBatch, TxnExecutionResult, TxnInformation,
}
use blockchain_node.Serial.State.{none_optional}
use blockchain_node.Parallel.Tree.{Address}
use blockchain_node.Parallel.Predecessors.{
  add_all, PredecessorTree, new_tree, PredecessorChain, add_reader, set_writer,
  find_read_predecessors, find_write_predecessors, add_relationship,
}

-- what the scheduler reads in the header of a transaction
pub record TransactionHeader : Type 0 where
  pub inputs : List Address
  pub outputs : List Address
  pub dependencies : List String

-- `==` of two batches
abbrev pub same_txns : List Transaction → List Transaction → Bool
same_txns [] [] = true
same_txns (x ∷ xs) (y ∷ ys) = same_txn x y && same_txns xs ys
same_txns _ _ = false

abbrev pub same_batch : Batch → Batch → Bool
same_batch a b = a.header_signature == b.header_signature && same_txns a.transactions b.transactions

pub record ParallelScheduler : Type 0 where
  pub first_state_hash : String
  pub predecessor_tree : PredecessorTree
  pub txn_predecessors : Dict (List String)
  pub always_persist : Bool
  pub predecessor_chain : PredecessorChain
  pub scheduled : List String
  pub outstanding : List String
  pub least_batch_id_wo_results : Option String
  pub scheduled_txn_info : Dict TxnInformation
  pub batches : List Batch
  pub batches_with_state_hash : Dict String
  pub batches_by_id : Dict AnnotatedBatch
  pub batches_by_txn_id : Dict Batch
  pub txn_results : Dict TxnExecutionResult
  pub txns_available : Dict Transaction
  pub transactions : Dict Transaction
  pub cancelled : Bool
  pub final : Bool

unfoldable pub new_parallel_scheduler : String → Bool → ParallelScheduler
new_parallel_scheduler first_state_hash always_persist = record {
  first_state_hash = first_state_hash;
  predecessor_tree = new_tree;
  txn_predecessors = [];
  always_persist = always_persist;
  predecessor_chain = [];
  scheduled = [];
  outstanding = [];
  least_batch_id_wo_results = none;
  scheduled_txn_info = [];
  batches = [];
  batches_with_state_hash = [];
  batches_by_id = [];
  batches_by_txn_id = [];
  txn_results = [];
  txns_available = [];
  transactions = [];
  cancelled = false;
  final = false;
}

-- Python's recursion limit
abbrev pub recursion_limit : ℕ
recursion_limit = 1000

unfoldable pub find_input_dependencies : List Address → PredecessorTree → Result (List String)
find_input_dependencies [] tree = ok []
find_input_dependencies (address ∷ inputs) tree =
    let rest = find_input_dependencies inputs tree in
    do
      found ← find_read_predecessors recursion_limit tree address
      dependencies ← rest
      ok (found ++ dependencies)

unfoldable pub find_output_dependencies : List Address → PredecessorTree → Result (List String)
find_output_dependencies [] tree = ok []
find_output_dependencies (address ∷ outputs) tree =
    let rest = find_output_dependencies outputs tree in
    do
      found ← find_write_predecessors recursion_limit tree address
      dependencies ← rest
      ok (found ++ dependencies)

unfoldable pub add_readers : List Address → String → PredecessorTree → PredecessorTree
add_readers [] txn_id tree = tree
add_readers (address ∷ inputs) txn_id tree =
    add_readers inputs txn_id (add_reader address txn_id tree)

unfoldable pub set_writers : List Address → String → PredecessorTree → PredecessorTree
set_writers [] txn_id tree = tree
set_writers (address ∷ outputs) txn_id tree =
    set_writers outputs txn_id (set_writer address txn_id tree)

-- the first loop of `add_batch`
unfoldable pub register_txns : Batch → List Transaction → ParallelScheduler → ParallelScheduler
register_txns batch [] s = s
register_txns batch (txn ∷ txns) s = register_txns batch txns (record s {
  batches_by_txn_id = Dict.insert txn.header_signature batch s.batches_by_txn_id;
  txns_available = Dict.insert txn.header_signature txn s.txns_available;
  transactions = Dict.insert txn.header_signature txn s.transactions;
})

-- all of `add_batch` up to its second loop
unfoldable pub register_batch : Batch → Option String → Bool → ParallelScheduler → ParallelScheduler
register_batch batch state_hash required s =
    let s' = register_txns batch batch.transactions (record s {
      least_batch_id_wo_results =
          if is_empty s.batches then some batch.header_signature else s.least_batch_id_wo_results;
      batches = s.batches ++ batch ∷ [];
      batches_by_id =
          Dict.insert batch.header_signature
            (record {
              batch = batch;
              required = required;
              preserve = if required then required else none_optional s.batches_by_id;
            })
            s.batches_by_id;
    }) in
    record s' {
      batches_with_state_hash = elim state_hash [
        | none ↦ s.batches_with_state_hash
        | some h ↦ Dict.insert batch.header_signature h s.batches_with_state_hash
      ];
    }

module _ (parse : String → TransactionHeader) where
  -- one round of the second loop of `add_batch`
  unfoldable pub relate_txn :
      Transaction → ParallelScheduler → Result (Unit {0}) × ParallelScheduler
  relate_txn txn s =
      let header = parse txn.header in
      let txn_id = txn.header_signature in
      elim (do
        reads ← find_input_dependencies header.inputs s.predecessor_tree
        writes ← find_output_dependencies header.outputs s.predecessor_tree
        ok (reads ++ writes)) [
          | err e ↦ (err e, s)
          | blocked ↦ (blocked, s)
          | ok predecessors ↦
              let s' = record s {
                txn_predecessors = Dict.insert txn_id (add_all [] predecessors) s.txn_predecessors;
              } in
              elim (add_relationship txn_id predecessors s.predecessor_chain) [
                | err e ↦ (err e, s')
                | blocked ↦ (blocked, s')
                | ok chain ↦ (
                  ok tt,
                  record s' {
                    predecessor_chain = chain;
                    predecessor_tree =
                        set_writers header.outputs txn_id
                          (add_readers header.inputs txn_id s.predecessor_tree);
                  },
                )
              ]
        ]

  unfoldable pub relate_txns :
      List Transaction → ParallelScheduler → Result (Unit {0}) × ParallelScheduler
  relate_txns [] s = (ok tt, s)
  relate_txns (txn ∷ txns) s =
      let related = relate_txn txn s in
      elim related.0 [
        | err e ↦ (err e, related.1)
        | blocked ↦ (blocked, related.1)
        | ok _ ↦ relate_txns txns related.1
      ]

  unfoldable pub add_batch :
      Batch → Option String → Bool → ParallelScheduler → Result (Unit {0}) × ParallelScheduler
  add_batch batch state_hash required s =
      if s.final
      then (err scheduler_error, s)
      else relate_txns batch.transactions (register_batch batch state_hash required s)

unfoldable pub available_results : List Transaction → ParallelScheduler → List TxnExecutionResult
available_results [] s = []
available_results (txn ∷ txns) s =
    let rest = available_results txns s in
    elim (Dict.get txn.header_signature s.txn_results) [ none ↦ rest | some r ↦ r ∷ rest ]

unfoldable pub get_transaction_execution_results :
    String → ParallelScheduler → Option (List TxnExecutionResult)
get_transaction_execution_results batch_signature s =
    elim (Dict.get batch_signature s.batches_by_id) [
      | none ↦ none
      | some annotated_batch ↦ some (available_results annotated_batch.batch.transactions s)
    ]

unfoldable pub is_transaction_in_schedule : String → ParallelScheduler → Bool
is_transaction_in_schedule txn_signature s = Dict.has txn_signature s.batches_by_txn_id

unfoldable pub finalize : ParallelScheduler → ParallelScheduler
finalize s = record s { final = true }

-- `_complete`
unfoldable pub is_complete : ParallelScheduler → Bool
is_complete s = s.final && eqb (length s.txn_results) (length s.batches_by_txn_id)

unfoldable pub complete : Bool → ParallelScheduler → Result Bool
complete block s = if is_complete s then ok true else if block then blocked else ok false

unfoldable pub count : ParallelScheduler → ℕ
count s = length s.scheduled

unfoldable pub get_transaction : ℕ → ParallelScheduler → Result TxnInformation
get_transaction index s = do
  txn_id ← or_raise (get_elem? s.scheduled index) index_error
  or_raise (Dict.get txn_id s.scheduled_txn_info) key_error

unfoldable pub is_cancelled : ParallelScheduler → Bool
is_cancelled s = s.cancelled
