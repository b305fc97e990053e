-- ===== src/Manager/Squash.antt =====
-- `_squash` of `get_squash_handler`: the writes of a chain of contexts, put into the tree at once.
use blockchain_node.Prelude.{
  ℕ, zero, suc, String, Bool, not, ◌&&◌, ◌||◌, Option, none, some, List, [], ◌∷◌, ◌++◌,
  if◌then◌else◌, is_empty, contains,
}
use blockchain_node.Python.{key_error, Result, ok, err, blocked, ◌>>=◌, ◌>>◌}
use blockchain_node.Dict
use blockchain_node.Dict.{Dict, get-insert, contains-keys, get-erase}
use blockchain_node.Context.Future.{Bytes}
use blockchain_node.Context.State.{
  ExecutionContext, is_read_only, make_read_only, get_all_if_set, get_all_if_deleted,
}
use blockchain_node.Manager.Store.{MerkleDatabase, ContextManager, delete_contexts}
use blockchain_node.Manager.Search.{push_bases, all_bases, chain_fuel}

-- the local variables of the squash, with the contexts that it freezes
pub record Squash : Type 0 where
  pub contexts : Dict ExecutionContext
  pub contexts_in_chain : List String
  pub searched : List String
  pub updates : Dict (Option Bytes)
  pub deletes : List String

-- the address has been set or deleted by a context that was visited before
abbrev pub decided : String → Dict (Option Bytes) → List String → Bool
decided add updates deletes = Dict.has add updates || contains deletes add

unfoldable pub merge_updates :
    Dict (Option Bytes) → List String → Dict (Option Bytes) → Dict (Option Bytes)
merge_updates [] deletes updates = updates
merge_updates ((add, val) ∷ sets) deletes updates =
    merge_updates sets deletes
      (if decided add updates deletes then updates else Dict.insert add val updates)

unfoldable pub merge_deletes : Dict (Option Bytes) → Dict (Option Bytes) → List String → List String
merge_deletes [] updates deletes = deletes
merge_deletes ((add, val) ∷ dels) updates deletes =
    merge_deletes dels updates
      (if decided add updates deletes then deletes else deletes ++ add ∷ [])

-- what the visit of a frozen context adds
unfoldable pub merge_context : ExecutionContext → Squash → Result Squash
unfolding push_bases get_all_if_set get_all_if_deleted merge_updates merge_deletes
merge_context current s = do
  sets ← get_all_if_set current
  let updates = merge_updates sets s.deletes s.updates
  dels ← get_all_if_deleted current
  let pushed = push_bases current.base_contexts s.contexts_in_chain s.searched
  ok (record {
    contexts = s.contexts;
    contexts_in_chain = pushed.0;
    searched = pushed.1;
    updates = updates;
    deletes = merge_deletes dels updates s.deletes;
  })

-- the context after `if not is_read_only: make_read_only`
abbrev pub frozen : ExecutionContext → Result (Unit {0}) × ExecutionContext
frozen c = if is_read_only c then (ok tt, c) else make_read_only c

-- A raise or a wait leaves the contexts that have been frozen until then.
abbrev pub keep_on_stop : Squash → Result Squash → Result (Unit {0}) × Squash
keep_on_stop s (ok s') = (ok tt, s')
keep_on_stop s (err e) = (err e, s)
keep_on_stop s blocked = (blocked, s)

unfoldable pub squash_context : String → ExecutionContext → Squash → Result (Unit {0}) × Squash
unfolding merge_context make_read_only is_read_only
squash_context c_id c s =
    let s' = record s { contexts = Dict.insert c_id (frozen c).1 s.contexts } in
    keep_on_stop s' (do (frozen c).0; merge_context (frozen c).1 s')

unfoldable pub squash_next : String → Squash → Result (Unit {0}) × Squash
unfolding squash_context
squash_next c_id s = elim (Dict.get c_id s.contexts) [
  | none ↦ (err key_error, s)
  | some c ↦ squash_context c_id c s
]

unfoldable pub squash_loop : ℕ → Squash → Option (Result (Unit {0}) × Squash)
squash_loop zero s = none
squash_loop (suc fuel) s = elim s.contexts_in_chain [
  | [] ↦ some (ok tt, s)
  | c_id ∷ queue ↦
      let visited = squash_next c_id (record s { contexts_in_chain = queue }) in
      elim visited.0 [
        | ok _ ↦ squash_loop fuel visited.1
        | err e ↦ some (err e, visited.1)
        | blocked ↦ some (blocked, visited.1)
      ]
]

abbrev pub start_squash : Dict ExecutionContext → List String → Squash
start_squash contexts context_ids = record {
  contexts = contexts;
  contexts_in_chain = context_ids;
  searched = context_ids;
  updates = [];
  deletes = [];
}

-- `[addr for addr in deletes if addr in tree]`
abbrev pub in_tree : MerkleDatabase → String → List String → Result (List String)
in_tree tree root [] = ok []
in_tree tree root (add ∷ adds) =
    let rest = in_tree tree root adds in
    do found ← tree.member root add; others ← rest; ok (if found then add ∷ others else others)

-- `deletes` cut down to what is in the tree, and the new root
unfoldable pub new_root : MerkleDatabase → String → Bool → Squash → Result String
new_root tree state_root persist s = do
  tree.init state_root
  deletes ← in_tree tree state_root s.deletes
  if is_empty s.updates && is_empty deletes
      then ok state_root
      else tree.update state_root s.updates deletes (not persist)

-- what follows the loop, unless the loop has raised or waits
unfoldable pub finish_squash :
    MerkleDatabase
    → String
    → Bool
    → Bool
    → ContextManager
    → Result (Unit {0}) × Squash
    → Result String × ContextManager
unfolding new_root delete_contexts
finish_squash tree state_root persist clean_up m (ok _, s) =
    let m' = record m { contexts = s.contexts } in
    elim (new_root tree state_root persist s) [
      | err e ↦ (err e, m')
      | blocked ↦ (blocked, m')
      | ok state_hash ↦ (ok state_hash, if clean_up then delete_contexts s.searched m' else m')
    ]
finish_squash tree state_root persist clean_up m (err e, s) =
    (err e, record m { contexts = s.contexts })
finish_squash tree state_root persist clean_up m (blocked, s) =
    (blocked, record m { contexts = s.contexts })

unfoldable pub squash :
    MerkleDatabase
    → String
    → List String
    → Bool
    → Bool
    → ContextManager
    → Option (Result String × ContextManager)
unfolding squash_loop squash_next all_bases finish_squash
squash tree state_root context_ids persist clean_up m =
    elim (squash_loop (chain_fuel context_ids m.contexts) (start_squash m.contexts context_ids)) [
      | none ↦ none
      | some out ↦ some (finish_squash tree state_root persist clean_up m out)
    ]
