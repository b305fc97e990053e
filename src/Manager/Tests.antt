-- ===== src/Manager/Tests.antt =====
-- Runs of the context manager, and the theorems at concrete inputs.
use blockchain_node.Prelude.{
  ◌≡◌, refl, true, false, ◌&&◌, none, some, [], ◌∷◌, contains, is_some, is_none,
}
use blockchain_node.Python.{ok, err, key_error}
use blockchain_node.Dict
use blockchain_node.Dict.{Dict, get-insert, contains-keys, get-erase}
use blockchain_node.Context.State.{
  ExecutionContext, new_context, make_read_only, get_if_set, get_if_not_set,
}
use blockchain_node.Manager.Store.{MerkleDatabase, ContextManager}
use blockchain_node.Manager.Search.{Search, search_context, find_address_values_in_chain}
use blockchain_node.Manager.Squash.{
  Squash, merge_context, frozen, squash_context, squash_next, squash_loop, squash,
}
use blockchain_node.Context.State.{set_one, delete_one}
use blockchain_node.Context.Future.{set_result, set_deleted}
use blockchain_node.Manager.Fuel.{find_terminates, squash_terminates}
use blockchain_node.Manager.SquashMerge.{first_write, change}
use blockchain_node.Manager.SquashValues.{squash_first_write}
use blockchain_node.Manager.SearchRound.{first_seen}
use blockchain_node.Manager.SearchValues.{find_first_seen}

-- `c2` is based on `c1`; each names the other, so the chain has a cycle
abbrev first_context : ExecutionContext
unfolding new_context set_one set_result
first_context =
    set_one "aa02" (some (2 ∷ []))
      (set_one "aa01" (some (1 ∷ [])) (new_context "c1" "root" [] [] ("c2" ∷ [])))

abbrev second_context : ExecutionContext
unfolding new_context delete_one set_deleted
second_context = delete_one "aa01" (new_context "c2" "root" [] [] ("c1" ∷ []))

abbrev chain : Dict ExecutionContext
chain = ("c1", first_context) ∷ ("c2", second_context) ∷ []

abbrev manager : ContextManager
manager = record {
  first_merkle_root = none;
  contexts = chain;
  address_queue = [];
  inflated_addresses = [];
}

-- a tree that holds nothing, and whose root names the addresses of the last update
abbrev empty_tree : MerkleDatabase
empty_tree = record {
  root = ok "root";
  init = λ r. ok tt;
  lookup = λ r a. err key_error;
  member = λ r a. ok false;
  update = λ r sets deletes virtual. ok "new";
}

find_terminates_example :
    is_some (find_address_values_in_chain chain ("c2" ∷ []) ("aa01" ∷ "aa03" ∷ [])) ≡ true
find_terminates_example = find_terminates chain ("c2" ∷ []) ("aa01" ∷ "aa03" ∷ [])

squash_terminates_example : is_some (squash empty_tree "root" ("c2" ∷ []) true true manager) ≡ true
squash_terminates_example = squash_terminates empty_tree "root" ("c2" ∷ []) true true manager

-- what the search leaves: `aa01` deleted by `c2`, `aa02` set by `c1`, `aa03` not known
abbrev search_end : Search
search_end = record {
  contexts_in_chain = [];
  searched = "c2" ∷ "c1" ∷ [];
  reads = "aa03" ∷ [];
  address_values = ("aa01", none) ∷ ("aa02", some (2 ∷ [])) ∷ [];
}

find_first_seen_example :
    (contains search_end.reads "aa02" ≡ is_none (first_seen chain search_end.searched "aa02"))
    × (Dict.get "aa02" search_end.address_values ≡ first_seen chain search_end.searched "aa02")
unfolding find_address_values_in_chain search_context get_if_set get_if_not_set new_context set_one
    delete_one
find_first_seen_example =
    find_first_seen chain ("c2" ∷ []) ("aa01" ∷ "aa02" ∷ "aa03" ∷ []) search_end "aa02" refl refl

abbrev squash_end : Squash
unfolding make_read_only new_context set_one delete_one
squash_end = record {
  contexts = ("c1", (frozen first_context).1) ∷ ("c2", (frozen second_context).1) ∷ [];
  contexts_in_chain = [];
  searched = "c2" ∷ "c1" ∷ [];
  updates = ("aa02", some (2 ∷ [])) ∷ [];
  deletes = "aa01" ∷ [];
}

squash_first_write_example :
    (change "aa01" squash_end.updates squash_end.deletes
      ≡ first_write chain squash_end.searched "aa01")
    × ((Dict.has "aa01" squash_end.updates && contains squash_end.deletes "aa01") ≡ false)
unfolding squash_loop squash_next squash_context merge_context make_read_only new_context set_one
    delete_one
squash_first_write_example = squash_first_write 3 chain ("c2" ∷ []) squash_end "aa01" refl
