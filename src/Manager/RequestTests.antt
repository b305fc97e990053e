-- ===== src/Manager/RequestTests.antt =====
-- Requests to the context manager, and the theorems about them at concrete inputs.
use blockchain_node.Prelude.{String, ◌≡◌, refl, true, false, none, some, [], ◌∷◌}
use blockchain_node.Python.{is_ok, ok}
use blockchain_node.Context.State.{
  ExecutionContext, new_context, set_one, writable, readable, set_direct, delete_direct,
}
use blockchain_node.Manager.Address.{address_is_valid}
use blockchain_node.Manager.Store.{MerkleDatabase, ContextManager}
use blockchain_node.Manager.Search.{find_address_values_in_chain}
use blockchain_node.Manager.Calls.{
  manager_set, manager_get, manager_delete, get_in_context, check_all, add_value_dict,
}
use blockchain_node.Manager.Confinement.{entry_at, requests_confined}
use blockchain_node.Manager.Requests.{set_authorized, delete_authorized, get_authorized}

-- two addresses of the namespace `aaaaaa`
abbrev first_address : String
first_address = "aaaaaa0000000000000000000000000000000000000000000000000000000000000001"

abbrev second_address : String
second_address = "aaaaaa0000000000000000000000000000000000000000000000000000000000000002"

abbrev open_context : ExecutionContext
unfolding new_context set_one
open_context =
    set_one first_address (some (1 ∷ []))
      (new_context "c1" "root" ("aaaaaa" ∷ []) ("aaaaaa" ∷ []) [])

abbrev manager : ContextManager
manager = record {
  first_merkle_root = none;
  contexts = ("c1", open_context) ∷ [];
  address_queue = [];
  inflated_addresses = [];
}

-- a tree with one byte at every address
abbrev tree : MerkleDatabase
tree = record {
  root = ok "root";
  init = λ r. ok tt;
  lookup = λ r a. ok (7 ∷ []);
  member = λ r a. ok true;
  update = λ r sets deletes virtual. ok "new";
}

-- the second request puts an address outside the namespace last
set_refused :
    is_ok (manager_set "c1" (((first_address, 5 ∷ []) ∷ []) ∷ (("bb", 6 ∷ []) ∷ []) ∷ []) manager).0
    ≡ false
unfolding manager_set add_value_dict address_is_valid
set_refused = refl

set_authorized_example :
    (address_is_valid second_address ≡ true) × (writable open_context second_address ≡ true)
unfolding manager_set set_direct add_value_dict new_context set_one address_is_valid writable
set_authorized_example =
    set_authorized "c1" open_context manager
      (((first_address, 5 ∷ []) ∷ []) ∷ ((second_address, 6 ∷ []) ∷ []) ∷ []) second_address refl
      refl refl

delete_authorized_example :
    (address_is_valid second_address ≡ true) × (writable open_context second_address ≡ true)
unfolding manager_delete delete_direct check_all new_context set_one address_is_valid writable
delete_authorized_example =
    delete_authorized "c1" open_context manager (first_address ∷ second_address ∷ []) second_address
      refl refl refl

get_authorized_example :
    (address_is_valid second_address ≡ true) × (readable open_context second_address ≡ true)
unfolding manager_get get_in_context check_all new_context set_one address_is_valid
    find_address_values_in_chain readable
get_authorized_example =
    get_authorized "c1" open_context manager tree (second_address ∷ first_address ∷ [])
      second_address ((second_address, some (7 ∷ [])) ∷ (first_address, some (1 ∷ [])) ∷ []) refl
      refl refl

requests_confined_example :
    (entry_at "c1" "bb" (manager_set "c1" (((first_address, 5 ∷ []) ∷ []) ∷ []) manager).1
      ≡ entry_at "c1" "bb" manager)
    × (entry_at "c1" "bb" (manager_delete "c1" (first_address ∷ []) manager).1
        ≡ entry_at "c1" "bb" manager)
unfolding new_context set_one writable
requests_confined_example =
    requests_confined "c1" "c1" "bb" (((first_address, 5 ∷ []) ∷ []) ∷ []) (first_address ∷ [])
      manager refl
