-- ===== src/Serial/Data.antt =====
-- The data that pass between the scheduler and its users: batches, transactions, results.
use blockchain_node.Prelude.{
  String, Bool, not, ◌&&◌, Option, none, some, List, [], ◌∷◌, ◌==◌, is_none, is_some, if◌then◌else◌,
}
use blockchain_node.Python.{Result, ok, err, value_error}
use blockchain_node.Context.Future.{Bytes}

-- the protobuf message, of which the scheduler reads the signature and, in the header, the
-- dependencies
pub record Transaction : Type 0 where
  pub header_signature : String
  pub header : String
  pub payload : String

-- `==` of two messages
abbrev pub same_txn : Transaction → Transaction → Bool
same_txn a b =
    a.header_signature == b.header_signature && a.header == b.header && a.payload == b.payload

pub record Batch : Type 0 where
  pub header_signature : String
  pub transactions : List Transaction

abbrev pub signatures : List Transaction → List String
signatures [] = []
signatures (txn ∷ txns) = txn.header_signature ∷ signatures txns

pub record AnnotatedBatch : Type 0 where
  pub batch : Batch
  pub required : Bool
  pub preserve : Bool

pub record BatchExecutionResult : Type 0 where
  pub is_valid : Bool
  pub state_hash : Option String

-- what the execution of a transaction reports besides its verdict and its context
pub record TxnOutput : Type 0 where
  pub state_changes : Option (List Bytes)
  pub events : Option (List Bytes)
  pub output_data : Option (List Bytes)
  pub error_message : Option String
  pub error_data : Option Bytes

abbrev pub no_output : TxnOutput
no_output = record {
  state_changes = none;
  events = none;
  output_data = none;
  error_message = none;
  error_data = none;
}

pub record TxnExecutionResult : Type 0 where
  pub signature : String
  pub is_valid : Bool
  pub context_id : Option String
  pub state_hash : Option String
  pub state_changes : List Bytes
  pub events : List Bytes
  pub output_data : List Bytes
  pub error_message : String
  pub error_data : Bytes

abbrev pub or_default {ℓ} : {A : Type ℓ} → Option A → A → A
or_default none d = d
or_default (some a) d = a

-- `TxnExecutionResult.__init__`
unfoldable pub new_txn_result :
    String → Bool → Option String → Option String → TxnOutput → Result TxnExecutionResult
new_txn_result signature is_valid context_id state_hash out =
    if is_valid && is_none context_id
    then err value_error
    else if not is_valid && is_some context_id
    then err value_error
    else if not is_valid && is_some state_hash
    then err value_error
    else ok (record {
      signature = signature;
      is_valid = is_valid;
      context_id = context_id;
      state_hash = state_hash;
      state_changes = or_default out.state_changes [];
      events = or_default out.events [];
      output_data = or_default out.output_data [];
      error_message = or_default out.error_message "";
      error_data = or_default out.error_data [];
    })

pub record TxnInformation : Type 0 where
  pub txn : Transaction
  pub state_hash : String
  pub base_context_ids : List (Option String)
