-- ===== src/Context/State.antt =====
-- `ExecutionContext`: the futures of one transaction by address, with the addresses and
-- namespaces that it may read and write. A method that changes the object returns the object as
-- it is when the method ends, also when it raises or waits.
use blockchain_node.Prelude.{
  String, Bool, true, false, not, Option, none, some, List, [], ◌∷◌, ◌++◌, if◌then◌else◌, any,
}
use text.Mathlib.Text.{starts_with}
use blockchain_node.Python.{authorization, Result, ok, err, blocked, unless, ◌>>=◌, ◌>>◌}
use blockchain_node.Dict
use blockchain_node.Dict.{Dict}
use blockchain_node.Context.Future.{
  Bytes, ContextFuture, new_future, freeze, set_in_context, deleted_in_context, result, set_deleted,
  set_result,
}

-- an event of the execution, which the context only stores
pub record Event : Type 0 where
  pub event_type : String
  pub payload : Bytes

pub record ExecutionContext : Type 0 where
  pub state_hash : String
  pub read_list : List String
  pub write_list : List String
  pub state : Dict ContextFuture
  pub read_only : Bool
  pub base_contexts : List String
  pub session_id : String
  pub execution_data : List Bytes
  pub execution_events : List Event

-- `__init__`; `id` is the identifier that `uuid4` draws
unfoldable pub new_context :
    String → String → List String → List String → List String → ExecutionContext
new_context id root reads writes bases = record {
  state_hash = root;
  read_list = reads;
  write_list = writes;
  state = [];
  read_only = false;
  base_contexts = bases;
  session_id = id;
  execution_data = [];
  execution_events = [];
}

-- `_contains` and `__contains__`
unfoldable pub contains_address : String → ExecutionContext → Bool
contains_address add c = Dict.has add c.state

unfoldable pub contains_and_deleted : String → ExecutionContext → Bool
unfolding deleted_in_context
contains_and_deleted add c = elim (Dict.get add c.state) [
  | none ↦ false
  | some fut ↦ deleted_in_context fut
]

unfoldable pub contains_and_set : String → ExecutionContext → Bool
unfolding set_in_context
contains_and_set add c = elim (Dict.get add c.state) [
  | none ↦ false
  | some fut ↦ set_in_context fut
]

unfoldable pub contains_and_not_set : String → ExecutionContext → Bool
unfolding set_in_context
contains_and_not_set add c = elim (Dict.get add c.state) [
  | none ↦ false
  | some fut ↦ not (set_in_context fut)
]

-- `_get`
unfoldable pub get_one : String → ExecutionContext → Result (Option Bytes)
unfolding result
get_one add c = elim (Dict.get add c.state) [ none ↦ ok none | some fut ↦ result fut ]

-- `_get_if_set`
unfoldable pub get_one_if_set : String → ExecutionContext → Result (Option Bytes)
unfolding contains_and_set get_one
get_one_if_set add c = if contains_and_set add c then get_one add c else ok none

-- `_get_if_deleted`
unfoldable pub get_one_if_deleted : String → ExecutionContext → Option String
unfolding contains_and_deleted
get_one_if_deleted add c = if contains_and_deleted add c then some add else none

-- `_get_if_not_set`
unfoldable pub get_one_if_not_set : String → ExecutionContext → Result (Option Bytes)
unfolding contains_and_not_set get_one
get_one_if_not_set add c = if contains_and_not_set add c then get_one add c else ok none

unfoldable pub writable : ExecutionContext → String → Bool
writable c add = any (starts_with add) c.write_list

unfoldable pub readable : ExecutionContext → String → Bool
readable c add = any (starts_with add) c.read_list

unfoldable pub validate_write : ExecutionContext → String → Result (Unit {0})
validate_write c add = unless (writable c add) (authorization add)

unfoldable pub validate_read : ExecutionContext → String → Result (Unit {0})
validate_read c add = unless (readable c add) (authorization add)

unfoldable pub get : List String → ExecutionContext → Result (List (Option Bytes))
unfolding validate_read get_one
get [] c = ok []
get (add ∷ addresses) c = do
  validate_read c add
  value ← get_one add c
  results ← get addresses c
  ok (value ∷ results)

unfoldable pub get_if_set : List String → ExecutionContext → Result (List (Option Bytes))
unfolding get_one_if_set
get_if_set [] c = ok []
get_if_set (add ∷ addresses) c = do
  value ← get_one_if_set add c
  results ← get_if_set addresses c
  ok (value ∷ results)

unfoldable pub get_if_deleted : List String → ExecutionContext → List (Option String)
unfolding get_one_if_deleted
get_if_deleted [] c = []
get_if_deleted (add ∷ addresses) c = get_one_if_deleted add c ∷ get_if_deleted addresses c

unfoldable pub get_if_not_set : List String → ExecutionContext → Result (List (Option Bytes))
unfolding get_one_if_not_set
get_if_not_set [] c = ok []
get_if_not_set (add ∷ addresses) c = do
  value ← get_one_if_not_set add c
  results ← get_if_not_set addresses c
  ok (value ∷ results)

-- the loops of `get_all_if_set` and `get_all_if_deleted` over the keys, with the test that they
-- make; `fut` of an item is the entry of its key
unfoldable pub collect :
    (String → ExecutionContext → Bool)
    → ExecutionContext
    → List String
    → Result (Dict (Option Bytes))
unfolding get_one
collect test c [] = ok []
collect test c (add ∷ adds) =
    let rest = collect test c adds in
    if test add c
    then (do value ← get_one add c; results ← rest; ok ((add, value) ∷ results))
    else rest

unfoldable pub get_all_if_set : ExecutionContext → Result (Dict (Option Bytes))
unfolding collect contains_and_set
get_all_if_set c = collect contains_and_set c (Dict.keys c.state)

unfoldable pub get_all_if_deleted : ExecutionContext → Result (Dict (Option Bytes))
unfolding collect contains_and_deleted
get_all_if_deleted c = collect contains_and_deleted c (Dict.keys c.state)

unfoldable pub is_read_only : ExecutionContext → Bool
is_read_only c = c.read_only

-- the loop of `make_read_only`, which stops at the first future that has to wait
unfoldable pub freeze_all : Dict ContextFuture → Result (Unit {0}) × Dict ContextFuture
unfolding freeze
freeze_all [] = (ok tt, [])
freeze_all ((add, fut) ∷ d) =
    let rest = freeze_all d in
    elim (freeze fut) [
      | ok fut' ↦ (rest.0, (add, fut') ∷ rest.1)
      | err e ↦ (err e, (add, fut) ∷ d)
      | blocked ↦ (blocked, (add, fut) ∷ d)
    ]

abbrev pub frozen_with :
    ExecutionContext → Result (Unit {0}) × Dict ContextFuture → Result (Unit {0}) × ExecutionContext
frozen_with c (ok _, d) = (ok tt, record c { state = d; read_only = true })
frozen_with c (err e, d) = (err e, record c { state = d })
frozen_with c (blocked, d) = (blocked, record c { state = d })

unfoldable pub make_read_only : ExecutionContext → Result (Unit {0}) × ExecutionContext
unfolding freeze_all
make_read_only c = if c.read_only then (ok tt, c) else frozen_with c (freeze_all c.state)

abbrev pub put_future : String → ContextFuture → ExecutionContext → ExecutionContext
put_future add fut c = record c { state = Dict.insert add fut c.state }

unfoldable pub create_prefetch : List String → ExecutionContext → ExecutionContext
create_prefetch [] c = c
create_prefetch (add ∷ adds) c = create_prefetch adds (put_future add (new_future add none true) c)

unfoldable pub create_initial : List (String × Option Bytes) → ExecutionContext → ExecutionContext
create_initial [] c = c
create_initial ((add, val) ∷ vals) c =
    create_initial vals (put_future add (new_future add val false) c)

unfoldable pub set_one_from_tree : String → Option Bytes → ExecutionContext → ExecutionContext
unfolding set_result
set_one_from_tree add value c = elim (Dict.get add c.state) [
  | none ↦ c
  | some fut ↦ put_future add (set_result value true fut) c
]

unfoldable pub set_from_tree : Dict (Option Bytes) → ExecutionContext → ExecutionContext
unfolding set_one_from_tree
set_from_tree [] c = c
set_from_tree ((add, value) ∷ d) c = set_from_tree d (set_one_from_tree add value c)

-- the future that an address has, or the new one that it is given
abbrev pub future_at : String → ExecutionContext → ContextFuture
future_at add c = elim (Dict.get add c.state) [ none ↦ new_future add none false | some fut ↦ fut ]

unfoldable pub delete_one : String → ExecutionContext → ExecutionContext
unfolding set_deleted
delete_one add c = put_future add (set_deleted (future_at add c)) c

unfoldable pub delete_direct : List String → ExecutionContext → Result (Unit {0}) × ExecutionContext
unfolding validate_write delete_one
delete_direct [] c = (ok tt, c)
delete_direct (add ∷ adds) c = elim (validate_write c add) [
  | ok _ ↦ delete_direct adds (delete_one add c)
  | err e ↦ (err e, c)
  | blocked ↦ (blocked, c)
]

unfoldable pub set_one : String → Option Bytes → ExecutionContext → ExecutionContext
unfolding set_result
set_one add value c = put_future add (set_result value false (future_at add c)) c

unfoldable pub set_direct : Dict Bytes → ExecutionContext → Result (Unit {0}) × ExecutionContext
unfolding validate_write set_one
set_direct [] c = (ok tt, c)
set_direct ((add, value) ∷ d) c = elim (validate_write c add) [
  | ok _ ↦ set_direct d (set_one add (some value) c)
  | err e ↦ (err e, c)
  | blocked ↦ (blocked, c)
]

unfoldable pub add_execution_data : Bytes → ExecutionContext → ExecutionContext
add_execution_data item c = record c { execution_data = c.execution_data ++ item ∷ [] }

unfoldable pub add_execution_event : Event → ExecutionContext → ExecutionContext
add_execution_event event c = record c { execution_events = c.execution_events ++ event ∷ [] }
