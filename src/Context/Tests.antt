-- ===== src/Context/Tests.antt =====
-- Runs of the execution context, and the theorems at concrete inputs.
use blockchain_node.Prelude.{
  List, ◌≡◌, refl, true, false, not, ◌&&◌, ◌||◌, Option, none, some, [], ◌∷◌, arith,
}
use blockchain_node.Python.{ok, is_ok}
use blockchain_node.Dict
use blockchain_node.Dict.{Dict, get-insert, contains-keys}
use blockchain_node.Context.Future.{Bytes, ContextFuture, new_future, set_result, set_deleted}
use blockchain_node.Context.State.{
  ExecutionContext, writable, validate_write, new_context, set_one, set_direct, delete_one,
  delete_direct, create_prefetch, create_initial, set_from_tree, make_read_only, get_one,
  contains_and_set, contains_and_deleted, get_all_if_set, get_all_if_deleted,
}
use blockchain_node.Context.State.{create_initial, create_prefetch}
use blockchain_node.Context.Steps.{Reach, Step, start, next}
use blockchain_node.Context.Access.{
  all_writable, write_confined, is_ok-set_direct, is_ok-delete_direct,
}
use blockchain_node.Context.Results.{reported_confined}
use blockchain_node.Context.Writes.{
  written, IsThawed, overlay, written-set_direct, written-delete_direct, written-set_from_tree,
}
use blockchain_node.Context.Freeze.{
  LaterCall, later_set, later_tree, call_all_later, frozen_values, delete_of_frozen,
  read_after_delete,
}

abbrev fresh : ExecutionContext
unfolding new_context
fresh = new_context "c1" "root" ("aa" ∷ "bb" ∷ []) ("aa" ∷ []) []

-- `aa01` holds a value of a base context, and `bb01` waits for the tree
abbrev begun : ExecutionContext
unfolding new_context create_initial create_prefetch
begun = create_prefetch ("bb01" ∷ []) (create_initial (("aa01", some (7 ∷ [])) ∷ []) fresh)

abbrev two_sets : Dict Bytes
two_sets = ("aa01", 1 ∷ []) ∷ ("aa02", 2 ∷ []) ∷ []

-- a raise in the middle of a call leaves the writes before it
set_stops_midway :
    let (r, c) = set_direct (("aa01", 1 ∷ []) ∷ ("bb01", 2 ∷ []) ∷ ("aa02", 3 ∷ []) ∷ []) begun in
    (is_ok r ≡ false) × (written "aa01" c ≡ some (some (1 ∷ []))) × (written "aa02" c ≡ none)
unfolding set_direct validate_write set_one set_result writable new_context create_initial
    create_prefetch written
set_stops_midway = (refl, refl, refl)

outside : writable begun "bb01" ≡ false
unfolding writable new_context create_initial create_prefetch
outside = refl

write_confined_example :
    (Dict.get "bb01" (set_direct two_sets begun).1.state ≡ Dict.get "bb01" begun.state)
    × (Dict.get "bb01" (delete_direct ("aa01" ∷ []) begun).1.state ≡ Dict.get "bb01" begun.state)
write_confined_example = write_confined begun "bb01" two_sets ("aa01" ∷ []) outside

is_ok-set_direct_example :
    is_ok (set_direct two_sets begun).0 ≡ all_writable begun ("aa01" ∷ "aa02" ∷ [])
is_ok-set_direct_example = is_ok-set_direct two_sets begun

is_ok-delete_direct_example :
    is_ok (delete_direct ("bb01" ∷ []) begun).0 ≡ all_writable begun ("bb01" ∷ [])
is_ok-delete_direct_example = is_ok-delete_direct ("bb01" ∷ []) begun

begun-IsThawed : IsThawed begun
unfolding new_context create_initial create_prefetch
begun-IsThawed k f e = ground (arith, e)

both_writable : all_writable begun ("aa01" ∷ "aa02" ∷ []) ≡ true
unfolding writable new_context create_initial create_prefetch
both_writable = refl

written-set_direct_example :
    written "aa02" (set_direct two_sets begun).1 ≡ overlay "aa02" two_sets (written "aa02" begun)
written-set_direct_example = written-set_direct two_sets begun "aa02" begun-IsThawed both_writable

written-delete_direct_example :
    written "aa02" (delete_direct ("aa01" ∷ "aa02" ∷ []) begun).1 ≡ some none
written-delete_direct_example =
    written-delete_direct ("aa01" ∷ "aa02" ∷ []) begun "aa02" both_writable

written-set_from_tree_example :
    written "bb01" (set_from_tree (("bb01", some (9 ∷ [])) ∷ []) begun) ≡ written "bb01" begun
written-set_from_tree_example = written-set_from_tree (("bb01", some (9 ∷ [])) ∷ []) begun "bb01"

abbrev initial_only : ExecutionContext
unfolding new_context create_initial
initial_only = create_initial (("aa01", some (7 ∷ [])) ∷ []) fresh

abbrev held : ContextFuture
held = new_future "aa01" (some (7 ∷ [])) false

abbrev later_calls : List LaterCall
later_calls = later_set two_sets ∷ later_tree (("aa01", none) ∷ []) ∷ later_set two_sets ∷ []

frozen_values_example :
    let c' = record initial_only {
      state = ("aa01", record held { read_only = true }) ∷ [];
      read_only = true;
    } in
    let later = call_all_later later_calls c' in
    (Dict.get "aa01" later.state ≡ some (record held { read_only = true }))
    × (get_one "aa01" later ≡ ok (some (7 ∷ [])))
unfolding make_read_only create_initial new_context
frozen_values_example =
    frozen_values initial_only
      (record initial_only {
        state = ("aa01", record held { read_only = true }) ∷ [];
        read_only = true;
      })
      "aa01" (record held { read_only = true }) later_calls refl refl refl

abbrev set_and_frozen : ContextFuture
set_and_frozen = record held { result_set_in_context = true; read_only = true }

abbrev frozen_context : ExecutionContext
unfolding new_context
frozen_context = record fresh { state = ("aa01", set_and_frozen) ∷ []; read_only = true }

delete_of_frozen_example :
    (contains_and_set "aa01" frozen_context ≡ true)
    × (contains_and_set "aa01" (delete_direct ("aa01" ∷ []) frozen_context).1 ≡ false)
    × (contains_and_deleted "aa01" (delete_direct ("aa01" ∷ []) frozen_context).1 ≡ true)
unfolding writable new_context
delete_of_frozen_example = delete_of_frozen frozen_context "aa01" set_and_frozen refl refl refl refl

read_after_delete_example :
    (contains_and_deleted "aa01" (delete_direct ("aa01" ∷ []) initial_only).1 ≡ true)
    × (get_one "aa01" (delete_direct ("aa01" ∷ []) initial_only).1 ≡ ok (some (7 ∷ [])))
unfolding writable create_initial new_context
read_after_delete_example = read_after_delete initial_only "aa01" held refl refl refl

-- `aa01` is set, then deleted; `aa02` is set
abbrev run : ExecutionContext
run = (delete_direct ("aa01" ∷ []) (set_direct two_sets fresh).1).1

run-Reach : Reach fresh run
run-Reach =
    next (next start (Step.set_values two_sets fresh))
      (Step.delete_values ("aa01" ∷ []) (set_direct two_sets fresh).1)

abbrev run_sets : Dict (Option Bytes)
run_sets = ("aa02", some (2 ∷ [])) ∷ []

abbrev run_deletes : Dict (Option Bytes)
run_deletes = ("aa01", some (1 ∷ [])) ∷ []

reported_confined_example :
    ((Dict.has "aa01" run_sets && Dict.has "aa01" run_deletes) ≡ false)
    × (((Dict.has "aa01" run_sets || Dict.has "aa01" run_deletes) && not (writable fresh "aa01"))
        ≡ false)
unfolding get_all_if_set get_all_if_deleted set_direct delete_direct validate_write set_one
    delete_one set_result set_deleted writable new_context
reported_confined_example =
    reported_confined "c1" "root" ("aa" ∷ "bb" ∷ []) ("aa" ∷ []) [] run_sets run_deletes "aa01"
      run-Reach refl refl
