-- ===== src/Context/Future.antt =====
-- `_ContextFuture`: the value at one address, set by the transaction or read from the tree.
use blockchain_node.Prelude.{
  String, Bool, true, false, not, ◌&&◌, ◌||◌, Option, List, ℕ, if◌then◌else◌,
}
use blockchain_node.Python.{Result, ok, blocked}

-- an opaque value, as its bytes
abbrev pub Bytes : Type 0
Bytes = List ℕ

pub record ContextFuture : Type 0 where
  pub address : String
  pub value : Option Bytes
  pub result_set_in_context : Bool
  pub wait_for_tree : Bool
  pub tree_has_set : Bool
  pub read_only : Bool
  pub deleted : Bool

abbrev pub new_future : String → Option Bytes → Bool → ContextFuture
new_future add result wait = record {
  address = add;
  value = result;
  result_set_in_context = false;
  wait_for_tree = wait;
  tree_has_set = false;
  read_only = false;
  deleted = false;
}

-- the wait in `make_read_only` and `result` does not return at once
abbrev pub waiting : ContextFuture → Bool
waiting f =
    (f.wait_for_tree && not f.result_set_in_context)
    && not (f.tree_has_set || f.result_set_in_context)

unfoldable pub freeze : ContextFuture → Result ContextFuture
freeze f = if waiting f then blocked else ok (record f { read_only = true })

unfoldable pub set_in_context : ContextFuture → Bool
set_in_context f = f.result_set_in_context

unfoldable pub deleted_in_context : ContextFuture → Bool
deleted_in_context f = f.deleted

unfoldable pub result : ContextFuture → Result (Option Bytes)
result f = if f.read_only then ok f.value else if waiting f then blocked else ok f.value

unfoldable pub set_deleted : ContextFuture → ContextFuture
set_deleted f = record f { result_set_in_context = false; deleted = true }

-- `set_result`; the two tests of `_read_only` are one, since nothing else runs between them here
unfoldable pub set_result : Option Bytes → Bool → ContextFuture → ContextFuture
set_result r from_tree f =
    if f.read_only
    then f
    else if from_tree
    then (if f.result_set_in_context then f else record f { value = r; tree_has_set = true })
    else record f { value = r; result_set_in_context = true; deleted = false }
