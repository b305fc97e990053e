-- ===== src/Context/Writes.antt =====
-- What a transaction has written so far, as a map from addresses to values and deletions, and
-- how each call changes it.
use blockchain_node.Prelude.{
  String, ◌≡◌, refl, ◌∙◌, true, false, Option, none, some, List, [], ◌∷◌, arith, ◌==◌, eq_iff,
  if◌then◌else◌, Option-cases, inl, inr, contains,
}
use blockchain_node.Dict
use blockchain_node.Dict.{Dict, get-insert, contains-keys}
use blockchain_node.Context.Future.{Bytes, ContextFuture, set_result, set_deleted}
use blockchain_node.Context.State.{
  ExecutionContext, validate_write, future_at, set_one, set_direct, delete_one, delete_direct,
  set_one_from_tree, set_from_tree,
}
use blockchain_node.Context.Access.{all_writable, all_writable-set_one, all_writable-delete_one}

-- `none`: not written; `some none`: deleted; `some (some v)`: set to `v`
abbrev pub write_of : ContextFuture → Option (Option Bytes)
write_of f = if f.result_set_in_context then some f.value else if f.deleted then some none else none

unfoldable pub written : String → ExecutionContext → Option (Option Bytes)
written k c = elim (Dict.get k c.state) [ none ↦ none | some f ↦ write_of f ]

-- no entry has been frozen by `make_read_only`
abbrev pub IsThawed : ExecutionContext → Type 0
IsThawed c = (k : String) (f : ContextFuture) → Dict.get k c.state ≡ some f → f.read_only ≡ false

future_at-thawed :
    (add : String) (c : ExecutionContext) → IsThawed c → (future_at add c).read_only ≡ false
future_at-thawed add c h = elim (Option-cases (Dict.get add c.state)) [
  | inl e ↦ rw (e, future_at) refl
  | inr (f, e) ↦ rw (e, future_at) (h add f e)
]

set_one-IsThawed :
    (add : String) (v : Option Bytes) (c : ExecutionContext)
    → IsThawed c
    → IsThawed (set_one add v c)
unfolding set_one
set_one-IsThawed add v c h k f =
    rw get-insert (unfold set_result in ground (arith, h k f, future_at-thawed add c h))

delete_one-IsThawed :
    (add : String) (c : ExecutionContext) → IsThawed c → IsThawed (delete_one add c)
unfolding delete_one
delete_one-IsThawed add c h k f =
    rw get-insert (unfold set_deleted in ground (arith, h k f, future_at-thawed add c h))

written-set_one :
    (add k : String) (v : Bytes) (c : ExecutionContext)
    → IsThawed c
    → written k (set_one add (some v) c) ≡ (if add == k then some (some v) else written k c)
unfolding written set_one set_result
written-set_one add k v c h = ground (
  arith,
  future_at-thawed add c h,
  get-insert add k (set_result (some v) false (future_at add c)) c.state,
)

written-delete_one :
    (add k : String) (c : ExecutionContext)
    → written k (delete_one add c) ≡ (if add == k then some none else written k c)
unfolding written delete_one set_deleted
written-delete_one add k c =
    ground (arith, get-insert add k (set_deleted (future_at add c)) c.state)

written-set_one_from_tree :
    (add k : String) (v : Option Bytes) (c : ExecutionContext)
    → written k (set_one_from_tree add v c) ≡ written k c
unfolding written set_one_from_tree set_result
written-set_one_from_tree add k v c = elim (Option-cases (Dict.get add c.state)) [
  | inl e ↦ ground (arith, e)
  | inr (f, e) ↦ ground (arith, e, eq_iff add k, get-insert add k (set_result v true f) c.state)
]

-- the writes of a dictionary over those before; of a key that is given twice the later wins
abbrev pub overlay : String → Dict Bytes → Option (Option Bytes) → Option (Option Bytes)
overlay k [] old = old
overlay k ((add, v) ∷ d) old = overlay k d (if add == k then some (some v) else old)

-- A call of `set_direct` whose addresses may all be written writes exactly its dictionary.
pub written-set_direct :
    (d : Dict Bytes) (c : ExecutionContext) (k : String)
    → IsThawed c
    → all_writable c (Dict.keys d) ≡ true
    → written k (set_direct d c).1 ≡ overlay k d (written k c)
unfolding set_direct validate_write
written-set_direct [] c k h p = refl
written-set_direct ((add, v) ∷ d) c k h p = ground (
  arith,
  written-set_direct d (set_one add (some v) c) k (set_one-IsThawed add (some v) c h),
  written-set_one add k v c h,
  all_writable-set_one add (some v) c (Dict.keys d),
)

-- A call of `delete_direct` whose addresses may all be written deletes exactly those.
pub written-delete_direct :
    (adds : List String) (c : ExecutionContext) (k : String)
    → all_writable c adds ≡ true
    → written k (delete_direct adds c).1 ≡ (if contains adds k then some none else written k c)
unfolding delete_direct validate_write
written-delete_direct [] c k p = refl
written-delete_direct (add ∷ adds) c k p = ground (
  arith,
  written-delete_direct adds (delete_one add c) k,
  written-delete_one add k c,
  all_writable-delete_one add c adds,
)

-- What the reader of the tree brings in never changes what the transaction has written.
pub written-set_from_tree :
    (t : Dict (Option Bytes)) (c : ExecutionContext) (k : String)
    → written k (set_from_tree t c) ≡ written k c
unfolding set_from_tree
written-set_from_tree [] c k = refl
written-set_from_tree ((add, v) ∷ t) c k =
    written-set_from_tree t (set_one_from_tree add v c) k ∙ written-set_one_from_tree add k v c
