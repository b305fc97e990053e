-- ===== src/Serial/State.antt =====
-- The state of `SerialScheduler`, and the calls that only read it or add to it.
use blockchain_node.Prelude.{
  ℕ, String, Bool, true, false, not, ◌&&◌, Option, none, some, List, [], ◌∷◌, ◌++◌, if◌then◌else◌,
  length, get_elem?, any, is_empty, eqb,
}
use blockchain_node.Python.{Result, ok, err, scheduler_error, index_error, or_raise}
use blockchain_node.Dict
use blockchain_node.Dict.{Dict}
use blockchain_node.Serial.Data.{
  Transaction, Batch, AnnotatedBatch, BatchExecutionResult, TxnExecutionResult, TxnInformation,
}

pub record SerialScheduler : Type 0 where
  pub txn_queue : List Transaction
  pub scheduled_transactions : List TxnInformation
  pub batch_statuses : Dict BatchExecutionResult
  pub txn_to_batch : Dict String
  pub batch_by_id : Dict AnnotatedBatch
  pub txn_results : Dict TxnExecutionResult
  pub in_progress_transaction : Option String
  pub final : Bool
  pub cancelled : Bool
  pub previous_context_id : Option String
  pub previous_valid_batch_c_id : Option String
  pub last_in_batch : List String
  pub previous_state_hash : String
  pub required_state_hashes : Dict String
  pub already_calculated : Bool
  pub always_persist : Bool

unfoldable pub new_scheduler : String → Bool → SerialScheduler
new_scheduler first_state_hash always_persist = record {
  txn_queue = [];
  scheduled_transactions = [];
  batch_statuses = [];
  txn_to_batch = [];
  batch_by_id = [];
  txn_results = [];
  in_progress_transaction = none;
  final = false;
  cancelled = false;
  previous_context_id = none;
  previous_valid_batch_c_id = none;
  last_in_batch = [];
  previous_state_hash = first_state_hash;
  required_state_hashes = [];
  already_calculated = false;
  always_persist = always_persist;
}

abbrev pub values {ℓ} : {V : Type ℓ} → Dict V → List V
values [] = []
values ((k, v) ∷ d) = v ∷ values d

-- `_first(filterfalse(lambda sb: sb.required, ...)) is None`
unfoldable pub none_optional : Dict AnnotatedBatch → Bool
none_optional batches = not (any (λ b. not b.required) (values batches))

-- the loop of `add_batch` over the transactions of the batch
unfoldable pub enqueue : String → List Transaction → SerialScheduler → SerialScheduler
enqueue batch_signature [] s = s
enqueue batch_signature (txn ∷ txns) s = enqueue batch_signature txns (record s {
  last_in_batch =
      if is_empty txns then s.last_in_batch ++ txn.header_signature ∷ [] else s.last_in_batch;
  txn_to_batch = Dict.insert txn.header_signature batch_signature s.txn_to_batch;
  txn_queue = s.txn_queue ++ txn ∷ [];
})

unfoldable pub annotate : Batch → Option String → Bool → SerialScheduler → SerialScheduler
unfolding none_optional
annotate batch state_hash required s = record s {
  batch_by_id =
      Dict.insert batch.header_signature
        (record {
          batch = batch;
          required = required;
          preserve = if required then required else none_optional s.batch_by_id;
        })
        s.batch_by_id;
  required_state_hashes = elim state_hash [
    | none ↦ s.required_state_hashes
    | some h ↦ Dict.insert batch.header_signature h s.required_state_hashes
  ];
}

unfoldable pub add_batch :
    Batch → Option String → Bool → SerialScheduler → Result (Unit {0}) × SerialScheduler
unfolding annotate enqueue
add_batch batch state_hash required s = if s.final then (err scheduler_error, s) else (
  ok tt,
  enqueue batch.header_signature batch.transactions (annotate batch state_hash required s),
)

unfoldable pub get_batch_execution_result : String → SerialScheduler → Option BatchExecutionResult
get_batch_execution_result batch_signature s = Dict.get batch_signature s.batch_statuses

-- the results that there are, of a list of transactions
unfoldable pub results_of : List Transaction → SerialScheduler → List TxnExecutionResult
results_of [] s = []
results_of (txn ∷ txns) s =
    let rest = results_of txns s in
    elim (Dict.get txn.header_signature s.txn_results) [ none ↦ rest | some r ↦ r ∷ rest ]

unfoldable pub get_transaction_execution_results :
    String → SerialScheduler → Option (List TxnExecutionResult)
unfolding results_of
get_transaction_execution_results batch_signature s =
    elim (Dict.get batch_signature s.batch_statuses) [
      | none ↦ none
      | some status ↦ elim (Dict.get batch_signature s.batch_by_id) [
        | none ↦ none
        | some annotated ↦ some (results_of annotated.batch.transactions s)
      ]
    ]

unfoldable pub count : SerialScheduler → ℕ
count s = length s.scheduled_transactions

unfoldable pub get_transaction : ℕ → SerialScheduler → Result TxnInformation
get_transaction index s = or_raise (get_elem? s.scheduled_transactions index) index_error

unfoldable pub is_transaction_in_schedule : String → SerialScheduler → Bool
is_transaction_in_schedule txn_signature s = Dict.has txn_signature s.txn_to_batch

unfoldable pub finalize : SerialScheduler → SerialScheduler
finalize s = record s { final = true }

unfoldable pub is_cancelled : SerialScheduler → Bool
is_cancelled s = s.cancelled

-- `_complete`
unfoldable pub is_complete : SerialScheduler → Bool
is_complete s = s.final && eqb (length s.txn_results) (length s.txn_to_batch)
