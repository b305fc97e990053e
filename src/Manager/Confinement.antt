-- ===== src/Manager/Confinement.antt =====
-- `set` and `delete` of the context manager change nothing but their own context, at the addresses
-- that its outputs cover.
use blockchain_node.Prelude.{
  ◌==◌, Bool, false, String, ◌≡◌, false, ◌&&◌, Option, none, some, List, [], arith, eq_iff,
  Bool-cases, Option-cases, inl, inr,
}
use blockchain_node.Python.{Result, ok, err, blocked, Result-cases}
use blockchain_node.Dict
use blockchain_node.Dict.{Dict, get-insert, contains-keys, get-erase}
use blockchain_node.Context.Future.{Bytes, ContextFuture}
use blockchain_node.Context.State.{ExecutionContext, writable, set_direct, delete_direct}
use blockchain_node.Manager.Store.{ContextManager, put_context}
use blockchain_node.Manager.Calls.{
  check_addresses, stored, manager_delete, add_value_dict, manager_set,
}
use blockchain_node.Context.Access.{write_confined}

-- the entry of the address in the context, where both are
abbrev pub entry_at : String → String → ContextManager → Option ContextFuture
entry_at context_id a m = elim (Dict.get context_id m.contexts) [
  | none ↦ none
  | some c ↦ Dict.get a c.state
]

-- the outputs of the context cover the address
abbrev pub is_output : String → String → ContextManager → Bool
is_output context_id a m = elim (Dict.get context_id m.contexts) [
  | none ↦ false
  | some c ↦ writable c a
]

put-entry :
    (context_id k a : String) (m : ContextManager) (c c' : ExecutionContext)
    → Dict.get context_id m.contexts ≡ some c
    → (context_id == k && is_output k a m) ≡ false
    → (writable c a ≡ false → Dict.get a c'.state ≡ Dict.get a c.state)
    → entry_at k a (put_context context_id c' m) ≡ entry_at k a m
put-entry context_id k a m c c' e n h = elim (Bool-cases (context_id == k)) [
  | inr d ↦ ground (arith, d, get-insert context_id k c' m.contexts)
  | inl d ↦
      let same : Dict.get k m.contexts ≡ some c = ground (arith, e, d, eq_iff context_id k) in
      let outside : writable c a ≡ false = ground (arith, n, d, same) in
      ground (arith, d, same, h outside, get-insert context_id k c' m.contexts)
]

stored-entry :
    (context_id k a : String) (m : ContextManager) (c : ExecutionContext)
    (x : Result (Unit {0}) × ExecutionContext)
    → Dict.get context_id m.contexts ≡ some c
    → (context_id == k && is_output k a m) ≡ false
    → (writable c a ≡ false → Dict.get a x.1.state ≡ Dict.get a c.state)
    → entry_at k a (stored context_id m x).1 ≡ entry_at k a m
stored-entry context_id k a m c (ok u, c') e n h = put-entry context_id k a m c c' e n h
stored-entry context_id k a m c (err x, c') e n h = put-entry context_id k a m c c' e n h
stored-entry context_id k a m c (blocked, c') e n h = put-entry context_id k a m c c' e n h

-- Whatever `set` or `delete` does, errors in the middle included, an entry of another context, or
-- one of the same context at an address that its outputs do not cover, stays as it was.
pub requests_confined :
    (context_id k a : String) (ds : List (Dict Bytes)) (adds : List String) (m : ContextManager)
    → (context_id == k && is_output k a m) ≡ false
    → (entry_at k a (manager_set context_id ds m).1 ≡ entry_at k a m)
      × (entry_at k a (manager_delete context_id adds m).1 ≡ entry_at k a m)
unfolding manager_set manager_delete
requests_confined context_id k a ds adds m p =
    elim (Option-cases (Dict.get context_id m.contexts)) [
      | inl e ↦ (ground (arith, e), ground (arith, e))
      | inr (c, e) ↦ (
        elim (Result-cases (add_value_dict ds [])) [
          | inl (values, r) ↦
              let s =
                stored-entry context_id k a m c (set_direct values c) e p
                  (λ w. (write_confined c a values [] w).0) in
              ground (arith, e, r, s)
          | inr (inl (x, r)) ↦ ground (arith, e, r)
          | inr (inr r) ↦ ground (arith, e, r)
        ],
        elim (Result-cases (check_addresses adds)) [
          | inl (u, r) ↦
              let s =
                stored-entry context_id k a m c (delete_direct adds c) e p
                  (λ w. (write_confined c a [] adds w).1) in
              ground (arith, e, r, s)
          | inr (inl (x, r)) ↦ ground (arith, e, r)
          | inr (inr r) ↦ ground (arith, e, r)
        ],
      )
    ]
