-- ===== src/Parallel/Contexts.antt =====
-- What `_get_contexts_for_squash` collects, against a description of it.
use blockchain_node.Prelude.{
  ℕ, suc, String, ◌≡◌, refl, ◌∙◌, Bool, true, false, Option, none, some, List, [], ◌∷◌, ◌++◌,
  append_assoc, append-nil, arith, inl, inr, Bool-cases, Option-cases, all, map, reverse, take,
  if◌then◌else◌,
}
use blockchain_node.Python.{ok, Result-cases}
use blockchain_node.Dict
use blockchain_node.Dict.{Dict}
use blockchain_node.Serial.Data.{Transaction, Batch, AnnotatedBatch, TxnExecutionResult}
use blockchain_node.Parallel.State.{ParallelScheduler}
use blockchain_node.Parallel.Results.{index_of_batch}
use blockchain_node.Parallel.Squash.{
  is_added, Collected, collect_from_batch, collect_contexts, get_contexts_for_squash,
}

abbrev pub is_valid_in : Dict TxnExecutionResult → Transaction → Bool
is_valid_in results txn = elim (Dict.get txn.header_signature results) [
  | none ↦ false
  | some r ↦ r.is_valid
]

abbrev pub context_in : Dict TxnExecutionResult → Transaction → Option String
context_in results txn = elim (Dict.get txn.header_signature results) [
  | none ↦ none
  | some r ↦ r.context_id
]

-- for each batch of which all transactions are valid, their contexts, the newest first
abbrev pub valid_contexts : Dict TxnExecutionResult → List Batch → List (Option String)
valid_contexts results [] = []
valid_contexts results (b ∷ batches) =
    let rest = valid_contexts results batches in
    let txns = reverse b.transactions in
    if all (is_valid_in results) txns then map (context_in results) txns ++ rest else rest

-- no text is in the list of sets
is_added-false : (txn_id : String) (added : List (List String)) → is_added txn_id added ≡ false
unfolding is_added
is_added-false txn_id [] = refl
is_added-false txn_id (x ∷ added) = is_added-false txn_id added

collected_batch :
    (txns : List Transaction) (added : List (List String)) (contexts : List (Option String))
    (s : ParallelScheduler) (c : Collected)
    → collect_from_batch txns added contexts s ≡ ok c
    → (c.batch_is_valid ≡ all (is_valid_in s.txn_results) txns)
      × (c.batch_is_valid ≡ true
          → c.contexts_from_batch ≡ contexts ++ map (context_in s.txn_results) txns)
unfolding collect_from_batch
collected_batch [] added contexts s c h =
    (ground (arith, h), λ _. ground (arith, h, append-nil contexts))
collected_batch (txn ∷ txns) added contexts s c h =
    elim (Option-cases (Dict.get txn.header_signature s.txn_results)) [
      | inl e ↦ absurd (ground (arith, h, e))
      | inr (r, e) ↦ elim (Bool-cases r.is_valid) [
        | inr v ↦ (ground (arith, h, e, v), λ k. absurd (ground (arith, h, e, v, k)))
        | inl v ↦ elim (Option-cases (Dict.get txn.header_signature s.txn_predecessors)) [
          | inl p ↦ absurd (ground (arith, h, e, v, p, is_added-false txn.header_signature added))
          | inr (preds, p) ↦
              let (i, j) =
                collected_batch txns (added ++ preds ∷ []) (contexts ++ r.context_id ∷ []) s c
                  (ground (arith, h, e, v, p, is_added-false txn.header_signature added)) in
              (
                ground (arith, i, e, v),
                λ k.
                    j k
                    ∙ append_assoc contexts (r.context_id ∷ [])
                        (map (context_in s.txn_results) txns)
                    ∙ (rw (e, context_in) refl),
              )
        ]
      ]
    ]

collected_contexts :
    (batches : List Batch) (added : List (List String)) (contexts out : List (Option String))
    (s : ParallelScheduler)
    → collect_contexts batches added contexts s ≡ ok out
    → out ≡ contexts ++ valid_contexts s.txn_results batches
unfolding collect_contexts
collected_contexts [] added contexts out s h = ground (arith, h, append-nil contexts)
collected_contexts (b ∷ batches) added contexts out s h =
    elim (Result-cases (collect_from_batch (reverse b.transactions) added [] s)) [
      | inr (inl (y, m)) ↦ absurd (ground (arith, h, m))
      | inr (inr m) ↦ absurd (ground (arith, h, m))
      | inl (c, m) ↦
          let (i, j) = collected_batch (reverse b.transactions) added [] s c m in
          elim (Bool-cases c.batch_is_valid) [
            | inl v ↦
                let all_valid : all (is_valid_in s.txn_results) (reverse b.transactions) ≡ true =
                  ground (arith, i, v) in
                collected_contexts batches c.txns_added_predecessors
                  (contexts ++ c.contexts_from_batch) out s (ground (arith, h, m, v))
                ∙ append_assoc contexts c.contexts_from_batch (valid_contexts s.txn_results batches)
                ∙ rw (all_valid, j v) refl
            | inr v ↦
                let not_valid : all (is_valid_in s.txn_results) (reverse b.transactions) ≡ false =
                  ground (arith, i, v) in
                collected_contexts batches c.txns_added_predecessors contexts out s
                  (ground (arith, h, m, v))
                ∙ rw not_valid refl
          ]
    ]

-- Where it returns, _get_contexts_for_squash returns the contexts of all the transactions in
-- the batches up to the wanted one that are valid throughout, the newest first; none is left
-- out for being a predecessor of another.
pub squash_contexts :
    (batch_id : String) (annotated : AnnotatedBatch) (index : ℕ) (contexts : List (Option String))
    (s : ParallelScheduler)
    → Dict.get batch_id s.batches_by_id ≡ some annotated
    → index_of_batch annotated.batch s.batches ≡ some index
    → get_contexts_for_squash batch_id s ≡ ok contexts
    → contexts ≡ valid_contexts s.txn_results (reverse (take (suc index) s.batches))
unfolding get_contexts_for_squash
squash_contexts batch_id annotated index contexts s h k e =
    collected_contexts (reverse (take (suc index) s.batches)) [] [] contexts s
      (ground (arith, h, k, e))
