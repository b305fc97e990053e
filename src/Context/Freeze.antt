-- ===== src/Context/Freeze.antt =====
-- What `make_read_only` freezes, and what it does not.
use blockchain_node.Prelude.{
  String, ◌≡◌, true, false, Option, some, List, [], ◌∷◌, arith, eq_iff, eq_refl, Option-cases, inl,
  inr,
}
use blockchain_node.Python.{ok}
use blockchain_node.Dict
use blockchain_node.Dict.{Dict, get-insert, contains-keys}
use blockchain_node.Context.Future.{Bytes, ContextFuture, freeze, set_result, set_deleted, result}
use blockchain_node.Context.State.{
  ExecutionContext, writable, validate_write, future_at, set_one, set_direct, delete_one,
  delete_direct, set_one_from_tree, set_from_tree, freeze_all, make_read_only, get_one,
  contains_and_set, contains_and_deleted,
}

get-freeze_all :
    (k : String) (d : Dict ContextFuture) (d' : Dict ContextFuture) (f : ContextFuture)
    → freeze_all d ≡ (ok tt, d')
    → Dict.get k d' ≡ some f
    → f.read_only ≡ true
unfolding freeze_all freeze
get-freeze_all k [] d' f h e = ground arith
get-freeze_all k ((add, fut) ∷ d) d' f h e = ground (arith, get-freeze_all k d (freeze_all d).1 f)

-- the entry of `k` is `f`, and frozen
abbrev Holds : String → ContextFuture → ExecutionContext → Type 0
Holds k f c = Dict.get k c.state ≡ some f

module _ (k : String) (f : ContextFuture) (frozen : f.read_only ≡ true) where
  set_one-Holds :
      (add : String) (v : Option Bytes) (c : ExecutionContext)
      → Holds k f c
      → Holds k f (set_one add v c)
  unfolding set_one set_result
  set_one-Holds add v c h =
      ground (
        arith,
        eq_iff add k,
        frozen,
        get-insert add k (set_result v false (future_at add c)) c.state,
      )

  set_direct-Holds :
      (d : Dict Bytes) (c : ExecutionContext) → Holds k f c → Holds k f (set_direct d c).1
  unfolding set_direct validate_write
  set_direct-Holds [] c h = h
  set_direct-Holds ((add, v) ∷ d) c h =
      ground (arith, set_direct-Holds d (set_one add (some v) c) (set_one-Holds add (some v) c h))

  set_one_from_tree-Holds :
      (add : String) (v : Option Bytes) (c : ExecutionContext)
      → Holds k f c
      → Holds k f (set_one_from_tree add v c)
  unfolding set_one_from_tree set_result
  set_one_from_tree-Holds add v c h = elim (Option-cases (Dict.get add c.state)) [
    | inl e ↦ ground (arith, e)
    | inr (g, e) ↦
        ground (arith, e, eq_iff add k, frozen, get-insert add k (set_result v true g) c.state)
  ]

  set_from_tree-Holds :
      (t : Dict (Option Bytes)) (c : ExecutionContext) → Holds k f c → Holds k f (set_from_tree t c)
  unfolding set_from_tree
  set_from_tree-Holds [] c h = h
  set_from_tree-Holds ((add, v) ∷ t) c h =
      set_from_tree-Holds t (set_one_from_tree add v c) (set_one_from_tree-Holds add v c h)

-- what can be asked of a context after it was frozen, deletions left out
pub data LaterCall : Type 0 where
  later_set : Dict Bytes → LaterCall
  later_tree : Dict (Option Bytes) → LaterCall

abbrev pub call_later : LaterCall → ExecutionContext → ExecutionContext
call_later (later_set d) c = (set_direct d c).1
call_later (later_tree t) c = set_from_tree t c

-- one call after the other, returns and raises alike
abbrev pub call_all_later : List LaterCall → ExecutionContext → ExecutionContext
call_all_later [] c = c
call_all_later (x ∷ xs) c = call_all_later xs (call_later x c)

call_all_later-Holds :
    (k : String) (f : ContextFuture) (calls : List LaterCall) (c : ExecutionContext)
    → f.read_only ≡ true
    → Holds k f c
    → Holds k f (call_all_later calls c)
call_all_later-Holds k f [] c frozen h = h
call_all_later-Holds k f (later_set d ∷ calls) c frozen h =
    call_all_later-Holds k f calls (set_direct d c).1 frozen (set_direct-Holds k f frozen d c h)
call_all_later-Holds k f (later_tree t ∷ calls) c frozen h =
    call_all_later-Holds k f calls (set_from_tree t c) frozen (set_from_tree-Holds k f frozen t c h)

-- Once `make_read_only` has returned on a context that was not read-only, every entry that the
-- context then has stays as it is through any sequence of `set_direct` and `set_from_tree` calls,
-- and reads as the value that it had, without waiting.
pub frozen_values :
    (c c' : ExecutionContext) (k : String) (f : ContextFuture) (calls : List LaterCall)
    → c.read_only ≡ false
    → make_read_only c ≡ (ok tt, c')
    → Dict.get k c'.state ≡ some f
    → (Dict.get k (call_all_later calls c').state ≡ some f)
      × (get_one k (call_all_later calls c') ≡ ok f.value)
unfolding make_read_only get_one result
frozen_values c c' k f calls ro h e =
    let frozen : f.read_only ≡ true =
      ground (arith, get-freeze_all k c.state (freeze_all c.state).1 f) in
    let kept = call_all_later-Holds k f calls c' frozen e in (kept, ground (arith, kept, frozen))

-- A deletion goes through on a frozen entry that was set: the address, which the context
-- reported as set, is reported as deleted.
pub delete_of_frozen :
    (c : ExecutionContext) (k : String) (f : ContextFuture)
    → Dict.get k c.state ≡ some f
    → f.read_only ≡ true
    → f.result_set_in_context ≡ true
    → writable c k ≡ true
    → (contains_and_set k c ≡ true)
      × (contains_and_set k (delete_direct (k ∷ []) c).1 ≡ false)
      × (contains_and_deleted k (delete_direct (k ∷ []) c).1 ≡ true)
unfolding contains_and_set contains_and_deleted delete_direct validate_write delete_one set_deleted
delete_of_frozen c k f e r s w = ground (arith, eq_refl k, get-insert k k (set_deleted f) c.state)

-- After the deletion of an address that the outputs cover, and whose value does not come from a
-- pre-fetch, the address is reported as deleted and still reads, in the same context, as the value
-- that it had.
pub read_after_delete :
    (c : ExecutionContext) (k : String) (f : ContextFuture)
    → Dict.get k c.state ≡ some f
    → f.wait_for_tree ≡ false
    → writable c k ≡ true
    → (contains_and_deleted k (delete_direct (k ∷ []) c).1 ≡ true)
      × (get_one k (delete_direct (k ∷ []) c).1 ≡ ok f.value)
unfolding contains_and_deleted delete_direct validate_write delete_one get_one set_deleted result
read_after_delete c k f e t w = ground (arith, eq_refl k, get-insert k k (set_deleted f) c.state)
