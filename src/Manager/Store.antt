-- ===== src/Manager/Store.antt =====
-- `_ThreadsafeContexts`, the two queues between the manager and its threads, and the calls that
-- only store something in a context.
use blockchain_node.Prelude.{
  String, Bool, true, false, Option, none, some, List, [], ◌∷◌, ◌++◌, if◌then◌else◌,
}
use blockchain_node.Python.{Result, ok, err, blocked, key_error, or_raise, ◌>>=◌}
use blockchain_node.Dict
use blockchain_node.Dict.{Dict}
use blockchain_node.Context.Future.{Bytes}
use blockchain_node.Context.State.{
  ExecutionContext, Event, add_execution_data, add_execution_event, get_all_if_set,
  get_all_if_deleted,
}

-- `MerkleDatabase`, which calls the Rust library, on one database: the root that it has without
-- one given, the constructor with a root, and then `get`, `in` and `update` below that root. Every
-- call can raise; `get` raises `KeyError` for an address that is not in the tree.
pub record MerkleDatabase : Type 0 where
  pub root : Result String
  pub init : String → Result (Unit {0})
  pub lookup : String → String → Result Bytes
  pub member : String → String → Result Bool
  pub update : String → Dict (Option Bytes) → List String → Bool → Result String

-- an item of `_address_queue`
pub data ReadItem : Type 0 where
  read : String → String → List String → ReadItem
  stop_reader : ReadItem

-- an item of `_inflated_addresses`
pub data WriteItem : Type 0 where
  write : String → List (String × Option Bytes) → WriteItem
  stop_writer : WriteItem

pub record ContextManager : Type 0 where
  pub first_merkle_root : Option String
  pub contexts : Dict ExecutionContext
  pub address_queue : List ReadItem
  pub inflated_addresses : List WriteItem

abbrev pub new_manager : ContextManager
new_manager = record {
  first_merkle_root = none;
  contexts = [];
  address_queue = [];
  inflated_addresses = [];
}

-- `self._contexts[c_id]`
abbrev pub context_of : Dict ExecutionContext → String → Result ExecutionContext
context_of contexts c_id = or_raise (Dict.get c_id contexts) key_error

abbrev pub put_context : String → ExecutionContext → ContextManager → ContextManager
put_context c_id c m = record m { contexts = Dict.insert c_id c m.contexts }

unfoldable pub get_first_root : MerkleDatabase → ContextManager → Result String × ContextManager
get_first_root tree m = elim m.first_merkle_root [
  | none ↦ elim tree.root [
    | ok root ↦ (ok root, record m { first_merkle_root = some root })
    | err e ↦ (err e, m)
    | blocked ↦ (blocked, m)
  ]
  | some root ↦ (ok root, m)
]

unfoldable pub delete_all : List String → Dict ExecutionContext → Dict ExecutionContext
delete_all [] contexts = contexts
delete_all (c_id ∷ c_ids) contexts =
    delete_all c_ids (if Dict.has c_id contexts then Dict.erase c_id contexts else contexts)

unfoldable pub delete_contexts : List String → ContextManager → ContextManager
unfolding delete_all
delete_contexts c_ids m = record m { contexts = delete_all c_ids m.contexts }

unfoldable pub manager_add_data : String → Bytes → ContextManager → Bool × ContextManager
unfolding add_execution_data
manager_add_data context_id item m = elim (Dict.get context_id m.contexts) [
  | none ↦ (false, m)
  | some c ↦ (true, put_context context_id (add_execution_data item c) m)
]

unfoldable pub manager_add_event : String → Event → ContextManager → Bool × ContextManager
unfolding add_execution_event
manager_add_event context_id event m = elim (Dict.get context_id m.contexts) [
  | none ↦ (false, m)
  | some c ↦ (true, put_context context_id (add_execution_event event c) m)
]

unfoldable pub get_execution_results :
    String
    → ContextManager
    → Result (Dict (Option Bytes) × Dict (Option Bytes) × List Event × List Bytes)
unfolding get_all_if_set get_all_if_deleted
get_execution_results context_id m = do
  c ← context_of m.contexts context_id
  sets ← get_all_if_set c
  deletes ← get_all_if_deleted c
  ok (sets, deletes, c.execution_events, c.execution_data)

unfoldable pub stop : ContextManager → ContextManager
stop m = record m {
  address_queue = m.address_queue ++ stop_reader ∷ [];
  inflated_addresses = m.inflated_addresses ++ stop_writer ∷ [];
}
