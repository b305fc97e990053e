-- ===== src/Manager/SquashMerge.antt =====
-- What one visited context adds to the updates and deletions of a squash.
use blockchain_node.Prelude.{
  String, ◌≡◌, refl, false, not, ◌&&◌, ◌||◌, Option, none, some, List, [], ◌∷◌, ◌++◌, arith, eq_iff,
  if◌then◌else◌, Bool-cases, inl, inr, contains, contains-append,
}
use blockchain_node.Python.{ok}
use blockchain_node.Dict
use blockchain_node.Dict.{Dict, get-insert, contains-keys, get-erase}
use blockchain_node.Context.Future.{Bytes, ContextFuture, freeze}
use blockchain_node.Context.State.{
  ExecutionContext, is_read_only, make_read_only, contains_and_set, contains_and_deleted,
  get_all_if_set, get_all_if_deleted,
}
use blockchain_node.Manager.Squash.{decided, merge_updates, merge_deletes, frozen}
use blockchain_node.Context.State.{freeze_all}
use blockchain_node.Context.Writes.{write_of, written}
use blockchain_node.Context.Results.{has-all_if_set, has-all_if_deleted}

abbrev pub or_else : Option (Option Bytes) → Option (Option Bytes) → Option (Option Bytes)
or_else none b = b
or_else (some a) b = some a

-- what a context has written at `k`, if the context is there
abbrev pub written_in : Dict ExecutionContext → String → String → Option (Option Bytes)
written_in contexts c_id k = elim (Dict.get c_id contexts) [ none ↦ none | some c ↦ written k c ]

-- the write at `k` of the first of the contexts `ids` that has one
abbrev pub first_write : Dict ExecutionContext → List String → String → Option (Option Bytes)
first_write contexts [] k = none
first_write contexts (c_id ∷ ids) k =
    or_else (written_in contexts c_id k) (first_write contexts ids k)

-- what updates and deletions do at `k`: `some none` is a deletion
abbrev pub change : String → Dict (Option Bytes) → List String → Option (Option Bytes)
change k updates deletes = elim (Dict.get k updates) [
  | some v ↦ some v
  | none ↦ if contains deletes k then some none else none
]

get-merge_updates :
    (sets : Dict (Option Bytes)) (deletes : List String) (updates : Dict (Option Bytes))
    (k : String)
    → Dict.get k (merge_updates sets deletes updates)
      ≡ (if decided k updates deletes then Dict.get k updates else Dict.get k sets)
unfolding merge_updates
get-merge_updates [] deletes updates k = ground arith
get-merge_updates ((a, v) ∷ sets) deletes updates k =
    elim (Bool-cases (decided a updates deletes)) [
      | inl p ↦
          rw (p, merge_updates)
            (ground (arith, get-merge_updates sets deletes updates k, eq_iff a k, p))
      | inr p ↦
          rw (p, merge_updates)
            (ground (
              arith,
              get-merge_updates sets deletes (Dict.insert a v updates) k,
              get-insert a k v updates,
              eq_iff a k,
              p,
            ))
    ]

contains-merge_deletes :
    (dels updates : Dict (Option Bytes)) (deletes : List String) (k : String)
    → contains (merge_deletes dels updates deletes) k
      ≡ (contains deletes k || (not (Dict.has k updates) && Dict.has k dels))
unfolding merge_deletes
contains-merge_deletes [] updates deletes k = ground arith
contains-merge_deletes ((a, v) ∷ dels) updates deletes k =
    elim (Bool-cases (decided a updates deletes)) [
      | inl p ↦
          rw (p, merge_deletes)
            (ground (arith, contains-merge_deletes dels updates deletes k, eq_iff a k, p))
      | inr p ↦
          rw (p, merge_deletes)
            (ground (
              arith,
              contains-merge_deletes dels updates (deletes ++ a ∷ []) k,
              contains-append deletes (a ∷ []) k,
              eq_iff a k,
              p,
            ))
    ]

-- freezing changes no write
abbrev peek : String → Dict ContextFuture → Option (Option Bytes)
peek k d = elim (Dict.get k d) [ none ↦ none | some f ↦ write_of f ]

peek-freeze_all : (k : String) (d : Dict ContextFuture) → peek k (freeze_all d).1 ≡ peek k d
unfolding freeze_all freeze
peek-freeze_all k [] = refl
peek-freeze_all k ((a, f) ∷ d) = ground (arith, peek-freeze_all k d)

pub written-frozen : (k : String) (c : ExecutionContext) → written k (frozen c).1 ≡ written k c
unfolding written make_read_only is_read_only
written-frozen k c = ground (arith, peek-freeze_all k c.state)

pub merge_change :
    (k : String) (c : ExecutionContext) (sets dels updates : Dict (Option Bytes))
    (deletes : List String)
    → get_all_if_set c ≡ ok sets
    → get_all_if_deleted c ≡ ok dels
    → change k
        (merge_updates sets deletes updates)
        (merge_deletes dels (merge_updates sets deletes updates) deletes)
      ≡ or_else (change k updates deletes) (written k c)
unfolding written contains_and_set contains_and_deleted
merge_change k c sets dels updates deletes hs hd = ground (
  arith,
  get-merge_updates sets deletes updates k,
  contains-merge_deletes dels (merge_updates sets deletes updates) deletes k,
  has-all_if_set c sets k hs,
  has-all_if_deleted c dels k hd,
)

pub merge_separate :
    (k : String) (sets dels updates : Dict (Option Bytes)) (deletes : List String)
    → (Dict.has k updates && contains deletes k) ≡ false
    → (Dict.has k (merge_updates sets deletes updates)
        && contains (merge_deletes dels (merge_updates sets deletes updates) deletes) k)
      ≡ false
merge_separate k sets dels updates deletes h = ground (
  arith,
  get-merge_updates sets deletes updates k,
  contains-merge_deletes dels (merge_updates sets deletes updates) deletes k,
  h,
)
