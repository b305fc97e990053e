-- ===== src/Parallel/Runnable.antt =====
-- What `decide` of the parallel scheduler makes sure of before a transaction is taken.
use blockchain_node.Prelude.{
  String, ◌≡◌, true, false, ◌||◌, some, List, [], ◌∷◌, arith, inl, inr, Bool-cases, Option-cases,
  contains, eq_iff, ◌==◌,
}
use blockchain_node.Python.{ok, Result-cases}
use blockchain_node.Dict
use blockchain_node.Dict.{Dict}
use blockchain_node.Serial.Data.{Transaction, Batch, TxnExecutionResult}
use blockchain_node.Parallel.State.{ParallelScheduler, TransactionHeader}
use blockchain_node.Parallel.Next.{
  lacks_result, some_unfinished, has_predecessors, is_outstanding, any_invalid,
  any_in_batch_are_invalid, dependency_not_processed, txn_failed_by_dep, take_it, decide_deps,
  decide,
}

-- every one has a result that is valid
abbrev pub AllValid : List Transaction → Dict TxnExecutionResult → Type 0
AllValid [] results = Unit {0}
AllValid (txn ∷ txns) results =
    ((r : TxnExecutionResult) × (Dict.get txn.header_signature results ≡ some r)
      × (r.is_valid ≡ true))
    × AllValid txns results

-- The predecessors and their predecessors have results, the transaction is not outstanding, and
-- the batches of the dependencies that are known have valid results throughout.
pub record Runnable (txn_id : String) (deps : List String) (s : ParallelScheduler) : Type 0 where
  pub finished :
      (preds : List String) (p : String)
      → Dict.get txn_id s.txn_predecessors ≡ some preds
      → contains preds p ≡ true
      → Dict.has p s.txn_results ≡ true
  pub finished_before :
      (preds before : List String) (p q : String)
      → Dict.get txn_id s.txn_predecessors ≡ some preds
      → contains preds p ≡ true
      → Dict.get p s.txn_predecessors ≡ some before
      → contains before q ≡ true
      → Dict.has q s.txn_results ≡ true
  pub idle : contains s.outstanding txn_id ≡ false
  pub dependencies :
      (d : String) (b : Batch)
      → contains deps d ≡ true
      → Dict.get d s.batches_by_txn_id ≡ some b
      → AllValid b.transactions s.txn_results

lacks_none :
    (preds : List String) (s : ParallelScheduler) (p : String)
    → lacks_result preds s ≡ false
    → contains preds p ≡ true
    → Dict.has p s.txn_results ≡ true
unfolding lacks_result
lacks_none [] s p h k = absurd (ground (arith, k))
lacks_none (x ∷ preds) s p h k = elim (Bool-cases (x == p)) [
  | inl e ↦ ground (arith, h, e, eq_iff x p)
  | inr e ↦ lacks_none preds s p (ground (arith, h)) (ground (arith, k, e))
]

all_finished :
    (preds : List String) (s : ParallelScheduler) (p : String)
    → some_unfinished preds s ≡ ok false
    → contains preds p ≡ true
    → (Dict.has p s.txn_results ≡ true)
      × ((before : List String) (q : String)
          → Dict.get p s.txn_predecessors ≡ some before
          → contains before q ≡ true
          → Dict.has q s.txn_results ≡ true)
unfolding some_unfinished
all_finished [] s p h k = absurd (ground (arith, k))
all_finished (x ∷ preds) s p h k = elim (Bool-cases (Dict.has x s.txn_results)) [
  | inr e ↦ absurd (ground (arith, h, e))
  | inl e ↦ elim (Option-cases (Dict.get x s.txn_predecessors)) [
    | inl m ↦ absurd (ground (arith, h, e, m))
    | inr (before, m) ↦ elim (Bool-cases (lacks_result before s)) [
      | inl l ↦ absurd (ground (arith, h, e, m, l))
      | inr l ↦ elim (Bool-cases (x == p)) [
        | inl n ↦
            let same : x ≡ p = ground (arith, n, eq_iff x p) in
            (
              ground (arith, same, e),
              λ other q i j.
                  lacks_none before s q l
                    (let equal : other ≡ before = ground (arith, i, m, same) in rw⁻¹ equal j),
            )
        | inr n ↦ all_finished preds s p (ground (arith, h, e, m, l)) (ground (arith, k, n))
      ]
    ]
  ]
]

all_valid :
    (txns : List Transaction) (results : Dict TxnExecutionResult)
    → any_invalid txns results ≡ ok false
    → AllValid txns results
unfolding any_invalid
all_valid [] results h = tt
all_valid (txn ∷ txns) results h = elim (Option-cases (Dict.get txn.header_signature results)) [
  | inl e ↦ absurd (ground (arith, h, e))
  | inr (r, e) ↦ elim (Bool-cases r.is_valid) [
    | inl v ↦ ((r, e, v), all_valid txns results (ground (arith, h, e, v)))
    | inr v ↦ absurd (ground (arith, h, e, v))
  ]
]

not_failed :
    (deps : List String) (s : ParallelScheduler) (d : String) (b : Batch)
    → txn_failed_by_dep deps s ≡ ok false
    → contains deps d ≡ true
    → Dict.get d s.batches_by_txn_id ≡ some b
    → AllValid b.transactions s.txn_results
unfolding txn_failed_by_dep any_in_batch_are_invalid
not_failed [] s d b h k g = absurd (ground (arith, k))
not_failed (x ∷ deps) s d b h k g = elim (Option-cases (Dict.get x s.batches_by_txn_id)) [
  | inl e ↦
      let other : (x == d) ≡ false = elim (Bool-cases (x == d)) [
        | inl n ↦ absurd (ground (arith, n, eq_iff x d, e, g))
        | inr n ↦ n
      ] in
      not_failed deps s d b (ground (arith, h, e)) (ground (arith, k, other)) g
  | inr (c, e) ↦ elim (Result-cases (any_invalid c.transactions s.txn_results)) [
    | inr (inl (y, m)) ↦ absurd (ground (arith, h, e, m))
    | inr (inr m) ↦ absurd (ground (arith, h, e, m))
    | inl (invalid, m) ↦ elim (Bool-cases invalid) [
      | inl n ↦ absurd (ground (arith, h, e, m, n))
      | inr n ↦ elim (Bool-cases (x == d)) [
        | inl l ↦
            let same : b ≡ c = ground (arith, e, g, l, eq_iff x d) in
            rw same (all_valid c.transactions s.txn_results (ground (arith, m, n)))
        | inr l ↦ not_failed deps s d b (ground (arith, h, e, m, n)) (ground (arith, k, l)) g
      ]
    ]
  ]
]

deps-taken :
    (deps : List String) (txn_id : String) (s : ParallelScheduler)
    → decide_deps deps txn_id s ≡ ok take_it
    → txn_failed_by_dep deps s ≡ ok false
unfolding decide_deps
deps-taken deps txn_id s h = elim (Result-cases (dependency_not_processed deps s)) [
  | inr (inl (y, m)) ↦ absurd (ground (arith, h, m))
  | inr (inr m) ↦ absurd (ground (arith, h, m))
  | inl (waits, m) ↦ elim (Bool-cases waits) [
    | inl n ↦ absurd (ground (arith, h, m, n))
    | inr n ↦ elim (Result-cases (txn_failed_by_dep deps s)) [
      | inr (inl (y, l)) ↦ absurd (ground (arith, h, m, n, l))
      | inr (inr l) ↦ absurd (ground (arith, h, m, n, l))
      | inl (failed, l) ↦ elim (Bool-cases failed) [
        | inl o ↦ absurd (ground (arith, h, m, n, l, o))
        | inr o ↦ ground (arith, l, o)
      ]
    ]
  ]
]

pub taken-Runnable :
    (parse : String → TransactionHeader) (txn_id : String) (txn : Transaction)
    (s : ParallelScheduler)
    → decide parse txn_id txn s ≡ ok take_it
    → Runnable txn_id (parse txn.header).dependencies s
unfolding decide has_predecessors is_outstanding
taken-Runnable parse txn_id txn s h =
    let deps = (parse txn.header).dependencies in
    elim (Option-cases (Dict.get txn_id s.txn_predecessors)) [
      | inl e ↦ absurd (ground (arith, h, e))
      | inr (preds, e) ↦ elim (Result-cases (some_unfinished preds s)) [
        | inr (inl (y, m)) ↦ absurd (ground (arith, h, e, m))
        | inr (inr m) ↦ absurd (ground (arith, h, e, m))
        | inl (waits, m) ↦ elim (Bool-cases (waits || contains s.outstanding txn_id)) [
          | inl n ↦ absurd (ground (arith, h, e, m, n))
          | inr n ↦
              let done : some_unfinished preds s ≡ ok false = ground (arith, m, n) in
              let taken : decide_deps deps txn_id s ≡ ok take_it = ground (arith, h, e, m, n) in
              let same : (other : List String)
                  → Dict.get txn_id s.txn_predecessors ≡ some other
                  → other ≡ preds =
                λ other i. ground (arith, e, i) in
              record {
                finished = λ other p i j.
                    (all_finished preds s p done (ground (arith, same other i, j))).0;
                finished_before = λ other before p q i j.
                    (all_finished preds s p done (ground (arith, same other i, j))).1 before q;
                idle = ground (arith, n);
                dependencies = λ d b. not_failed deps s d b (deps-taken deps txn_id s taken);
              }
        ]
      ]
    ]
