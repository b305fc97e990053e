-- ===== src/Manager/Search.antt =====
-- `_find_address_values_in_chain`: a breadth-first search through the chain of base contexts.
-- The loop runs on fuel, and `none` means that the fuel ran out.
use blockchain_node.Prelude.{
  ℕ, zero, suc, ◌+◌, String, Option, none, some, List, [], ◌∷◌, ◌++◌, if◌then◌else◌, contains,
  length, filter,
}
use blockchain_node.Python.{Result, ok, err, blocked, ◌>>=◌}
use blockchain_node.Dict.{Dict}
use blockchain_node.Context.Future.{Bytes}
use blockchain_node.Context.State.{
  ExecutionContext, contains_address, get_if_deleted, get_if_set, get_if_not_set,
}
use blockchain_node.Manager.Store.{context_of}
use blockchain_node.Manager.Sets.{
  without_deleted, deleted_values, found_values, not_found, zip_values, remove_all,
}

-- the loop over `base_contexts`: `contexts_in_chain` and `context_ids_already_searched` after it
unfoldable pub push_bases : List String → List String → List String → List String × List String
push_bases [] queue searched = (queue, searched)
push_bases (c_id ∷ bases) queue searched =
    push_bases bases (if contains searched c_id then queue else queue ++ c_id ∷ [])
      (if contains searched c_id then searched else searched ++ c_id ∷ [])

-- the local variables of the search
pub record Search : Type 0 where
  pub contexts_in_chain : List String
  pub searched : List String
  pub reads : List String
  pub address_values : Dict (Option Bytes)

-- the body of the loop, after `current_c_id` has been taken off the queue
unfoldable pub search_context : ExecutionContext → Search → Result Search
unfolding push_bases get_if_deleted get_if_set get_if_not_set contains_address without_deleted
    deleted_values found_values not_found zip_values remove_all
search_context current s = do
  let deleted = get_if_deleted s.reads current
  let reads1 = without_deleted s.reads deleted
  values ← get_if_set reads1 current
  let reads2 = not_found reads1 values
  let inputs = filter (λ a. contains_address a current) reads2
  input_values ← get_if_not_set inputs current
  let pushed = push_bases current.base_contexts s.contexts_in_chain s.searched
  ok (record {
    contexts_in_chain = pushed.0;
    searched = pushed.1;
    reads = remove_all reads2 inputs;
    address_values =
        s.address_values
        ++ (deleted_values deleted
            ++ (found_values reads1 values ++ zip_values inputs input_values));
  })

unfoldable pub search_next : Dict ExecutionContext → String → Search → Result Search
unfolding search_context
search_next contexts c_id s = do current ← context_of contexts c_id; search_context current s

unfoldable pub search_loop : ℕ → Dict ExecutionContext → Search → Option (Result Search)
search_loop zero contexts s = none
search_loop (suc fuel) contexts s = elim s.reads [
  | [] ↦ some (ok s)
  | wanted ∷ more ↦ elim s.contexts_in_chain [
    | [] ↦ some (ok s)
    | c_id ∷ queue ↦ elim (search_next contexts c_id (record s { contexts_in_chain = queue })) [
      | ok s' ↦ search_loop fuel contexts s'
      | err e ↦ some (err e)
      | blocked ↦ some blocked
    ]
  ]
]

-- all that the contexts name as their bases
unfoldable pub all_bases : Dict ExecutionContext → List String
all_bases [] = []
all_bases ((c_id, c) ∷ contexts) = c.base_contexts ++ all_bases contexts

abbrev pub chain_fuel : List String → Dict ExecutionContext → ℕ
chain_fuel base_contexts contexts = suc (length base_contexts + length (all_bases contexts))

abbrev pub start_search : List String → List String → Search
start_search base_contexts addresses_to_find = record {
  contexts_in_chain = base_contexts;
  searched = base_contexts;
  reads = addresses_to_find;
  address_values = [];
}

unfoldable pub find_address_values_in_chain :
    Dict ExecutionContext → List String → List String → Option (Result Search)
unfolding search_loop search_next all_bases
find_address_values_in_chain contexts base_contexts addresses_to_find =
    search_loop (chain_fuel base_contexts contexts) contexts
      (start_search base_contexts addresses_to_find)
