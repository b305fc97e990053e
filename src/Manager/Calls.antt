-- ===== src/Manager/Calls.antt =====
-- The calls of the context manager: `create_context`, `get`, `set`, `delete`, and one round of each
-- of its two threads. `none` means that the search ran out of fuel.
use blockchain_node.Prelude.{
  ℕ, suc, String, Bool, true, false, not, Option, none, some, List, [], ◌∷◌, ◌++◌, ◌==◌,
  if◌then◌else◌, any, is_empty, length, filter, eqb, leb,
}
use blockchain_node.Python.{
  Error, create_context_error, authorization, key_error, Result, ok, err, blocked, unless, ◌>>=◌,
  ◌>>◌,
}
use blockchain_node.Dict
use blockchain_node.Context
use blockchain_node.Dict.{Dict, get-insert, contains-keys, get-erase}
use blockchain_node.Context.Future.{Bytes}
use blockchain_node.Context.State.{
  ExecutionContext, Event, writable, readable, validate_write, validate_read, new_context,
  set_direct, delete_direct, create_prefetch, create_initial, set_from_tree, is_read_only,
  make_read_only, get_one, contains_address, contains_and_set, contains_and_deleted,
  contains_and_not_set, get_all_if_set, get_all_if_deleted, get_if_deleted, get_if_set,
  get_if_not_set, get_one_if_deleted, get_one_if_set, get_one_if_not_set,
}
use blockchain_node.Manager.Address.{codes, address_is_valid, namespace_is_valid}
use blockchain_node.Manager.Store.{
  MerkleDatabase, read, stop_reader, write, stop_writer, ContextManager, put_context,
}
use blockchain_node.Manager.Sets.{set_minus, zip_values}
use blockchain_node.Manager.Search.{Search, find_address_values_in_chain}

-- raises for the first address that fails the test
unfoldable pub check_all : (String → Bool) → (String → Error) → List String → Result (Unit {0})
check_all test error [] = ok tt
check_all test error (add ∷ adds) = do unless (test add) (error add); check_all test error adds

abbrev pub check_addresses : List String → Result (Unit {0})
check_addresses = check_all address_is_valid authorization

-- `[add for add in inputs if len(add) == 70]`
abbrev pub full_addresses : List String → List String
full_addresses inputs = filter (λ add. eqb (length (codes add)) 70) inputs

-- what follows the search; `context_id` is the identifier that the new context draws
unfoldable pub install_context :
    String
    → String
    → List String
    → List String
    → List String
    → Search
    → ContextManager
    → Result String × ContextManager
unfolding new_context create_initial create_prefetch
install_context context_id state_hash base_contexts inputs outputs s m =
    let context =
      create_initial s.address_values
        (new_context context_id state_hash inputs outputs base_contexts) in
    if any (λ c_id. not (Dict.has c_id m.contexts)) base_contexts
    then (err key_error, m)
    else if is_empty s.reads
    then (ok context_id, put_context context_id context m)
    else (
      ok context_id,
      record (put_context context_id (create_prefetch s.reads context) m) {
        address_queue = m.address_queue ++ read context_id state_hash s.reads ∷ [];
      },
    )

unfoldable pub create_context :
    String
    → String
    → List String
    → List String
    → List String
    → ContextManager
    → Option (Result String × ContextManager)
unfolding check_all find_address_values_in_chain install_context namespace_is_valid
create_context context_id state_hash base_contexts inputs outputs m =
    elim (do
      check_all namespace_is_valid create_context_error inputs
      check_all namespace_is_valid create_context_error outputs) [
        | err e ↦ some (err e, m)
        | blocked ↦ some (blocked, m)
        | ok _ ↦
            elim (find_address_values_in_chain m.contexts base_contexts (full_addresses inputs)) [
              | none ↦ none
              | some (err e) ↦ some (err e, m)
              | some blocked ↦ some (blocked, m)
              | some (ok s) ↦
                  some (install_context context_id state_hash base_contexts inputs outputs s m)
            ]
      ]

-- the context after a call on it, in the manager
abbrev pub stored :
    String → ContextManager → Result (Unit {0}) × ExecutionContext → Result Bool × ContextManager
stored context_id m (ok _, c) = (ok true, put_context context_id c m)
stored context_id m (err e, c) = (err e, put_context context_id c m)
stored context_id m (blocked, c) = (blocked, put_context context_id c m)

unfoldable pub manager_delete : String → List String → ContextManager → Result Bool × ContextManager
unfolding check_all delete_direct address_is_valid
manager_delete context_id addresses m = elim (Dict.get context_id m.contexts) [
  | none ↦ (ok false, m)
  | some c ↦ elim (check_addresses addresses) [
    | err e ↦ (err e, m)
    | blocked ↦ (blocked, m)
    | ok _ ↦ stored context_id m (delete_direct addresses c)
  ]
]

-- `for add, val in d.items()`, for one dictionary of `address_value_list`
unfoldable pub add_items : Dict Bytes → Dict Bytes → Result (Dict Bytes)
unfolding address_is_valid
add_items [] values = ok values
add_items ((add, val) ∷ d) values = do
  unless (address_is_valid add) (authorization add)
  add_items d (Dict.insert add val values)

unfoldable pub add_value_dict : List (Dict Bytes) → Dict Bytes → Result (Dict Bytes)
unfolding add_items
add_value_dict [] values = ok values
add_value_dict (d ∷ ds) values = do values' ← add_items d values; add_value_dict ds values'

unfoldable pub manager_set :
    String → List (Dict Bytes) → ContextManager → Result Bool × ContextManager
unfolding add_value_dict set_direct
manager_set context_id address_value_list m = elim (Dict.get context_id m.contexts) [
  | none ↦ (ok false, m)
  | some c ↦ elim (add_value_dict address_value_list []) [
    | err e ↦ (err e, m)
    | blocked ↦ (blocked, m)
    | ok values ↦ stored context_id m (set_direct values c)
  ]
]

-- `address_list.index(add)`, where `add` is in the list
unfoldable pub index_of : List String → String → ℕ
index_of [] add = 0
index_of (a ∷ adds) add = if a == add then 0 else suc (index_of adds add)

-- one insertion of the stable sort by the index in `address_list`
unfoldable pub insert_by_index :
    List String → String × Option Bytes → Dict (Option Bytes) → Dict (Option Bytes)
unfolding index_of
insert_by_index adds x [] = x ∷ []
insert_by_index adds x (y ∷ ys) =
    let rest = insert_by_index adds x ys in
    if leb (index_of adds x.0) (index_of adds y.0) then x ∷ y ∷ ys else y ∷ rest

unfoldable pub sort_by_index : List String → Dict (Option Bytes) → Dict (Option Bytes)
unfolding insert_by_index
sort_by_index adds [] = []
sort_by_index adds (x ∷ xs) = insert_by_index adds x (sort_by_index adds xs)

unfoldable pub validate_reads : ExecutionContext → List String → Result (Unit {0})
unfolding validate_read
validate_reads c [] = ok tt
validate_reads c (add ∷ adds) = do validate_read c add; validate_reads c adds

-- the values of the addresses that no context knows, from the tree; a missing address has none
abbrev pub tree_value : MerkleDatabase → String → String → Result (Option Bytes)
tree_value tree root add = elim (tree.lookup root add) [
  | ok value ↦ ok (some value)
  | err key_error ↦ ok none
  | err e ↦ err e
  | blocked ↦ blocked
]

abbrev pub values_below : MerkleDatabase → String → List String → Result (Dict (Option Bytes))
values_below tree root [] = ok []
values_below tree root (add ∷ adds) =
    let rest = values_below tree root adds in
    do value ← tree_value tree root add; values ← rest; ok ((add, value) ∷ values)

unfoldable pub tree_values : MerkleDatabase → String → List String → Result (Dict (Option Bytes))
tree_values tree root adds = do tree.init root; values_below tree root adds

-- the values that are not in the context itself; a `KeyError` of the search empties the answer
unfoldable pub outer_values :
    MerkleDatabase
    → ExecutionContext
    → List String
    → Dict (Option Bytes)
    → Option (Result Search)
    → Option (Result (Dict (Option Bytes)))
unfolding tree_values sort_by_index
outer_values tree c addresses inner none = none
outer_values tree c addresses inner (some (err key_error)) = some (ok [])
outer_values tree c addresses inner (some (err e)) = some (err e)
outer_values tree c addresses inner (some blocked) = some blocked
outer_values tree c addresses inner (some (ok s)) = some (do
  values ← if is_empty s.reads then ok [] else tree_values tree c.state_hash s.reads
  ok (sort_by_index addresses (inner ++ (s.address_values ++ values))))

unfoldable pub get_in_context :
    MerkleDatabase
    → String
    → ExecutionContext
    → List String
    → ContextManager
    → Option (Result (Dict (Option Bytes)))
unfolding Context.State.get contains_address set_minus zip_values validate_reads
    find_address_values_in_chain outer_values
get_in_context tree context_id c addresses m =
    let inner = filter (λ add. contains_address add c) addresses in
    let outer = set_minus addresses inner in
    elim (Context.State.get inner c) [
      | err e ↦ some (err e)
      | blocked ↦ some blocked
      | ok values ↦
          if is_empty outer
          then some (ok (zip_values inner values))
          else elim (validate_reads c outer) [
            | err e ↦ some (err e)
            | blocked ↦ some blocked
            | ok _ ↦
                outer_values tree c addresses (zip_values inner values)
                  (find_address_values_in_chain m.contexts (context_id ∷ []) outer)
          ]
    ]

unfoldable pub manager_get :
    MerkleDatabase → String → List String → ContextManager → Option (Result (Dict (Option Bytes)))
unfolding check_all get_in_context address_is_valid
manager_get tree context_id addresses m = elim (Dict.get context_id m.contexts) [
  | none ↦ some (ok [])
  | some c ↦ elim (check_addresses addresses) [
    | err e ↦ some (err e)
    | blocked ↦ some blocked
    | ok _ ↦ get_in_context tree context_id c addresses m
  ]
]

-- One round of `_ContextReader.run`, and whether the thread goes on. It waits for an item; a raise
-- ends the thread, with the item taken out.
unfoldable pub reader_round : MerkleDatabase → ContextManager → Result Bool × ContextManager
unfolding tree_values
reader_round tree m = elim m.address_queue [
  | [] ↦ (blocked, m)
  | stop_reader ∷ items ↦ (ok false, record m { address_queue = items })
  | read c_id root addresses ∷ items ↦ elim (tree_values tree root addresses) [
    | err e ↦ (err e, record m { address_queue = items })
    | blocked ↦ (blocked, record m { address_queue = items })
    | ok values ↦ (
      ok true,
      record m {
        address_queue = items;
        inflated_addresses = m.inflated_addresses ++ write c_id values ∷ [];
      },
    )
  ]
]

-- `{k: v for k, v in items}`
unfoldable pub to_dict : List (String × Option Bytes) → Dict (Option Bytes) → Dict (Option Bytes)
to_dict [] d = d
to_dict ((k, v) ∷ items) d = to_dict items (Dict.insert k v d)

unfoldable pub inflate :
    String → List (String × Option Bytes) → Dict ExecutionContext → Dict ExecutionContext
unfolding to_dict set_from_tree
inflate c_id items contexts = elim (Dict.get c_id contexts) [
  | none ↦ contexts
  | some c ↦ Dict.insert c_id (set_from_tree (to_dict items []) c) contexts
]

-- One round of `_ContextWriter.run`, and whether the thread goes on.
unfoldable pub writer_round : ContextManager → Result Bool × ContextManager
unfolding inflate
writer_round m = elim m.inflated_addresses [
  | [] ↦ (blocked, m)
  | stop_writer ∷ items ↦ (ok false, record m { inflated_addresses = items })
  | write c_id values ∷ items ↦
      (ok true, record m { contexts = inflate c_id values m.contexts; inflated_addresses = items })
]
