-- ===== src/Parallel/Ends.antt =====
-- The loop of `_get_initial_state_for_transaction` on enough fuel.
use blockchain_node.Prelude.{
  ℕ, zero, suc, ◌+◌, ◌≤◌, String, ◌≡◌, refl, Option, some, List, [], ◌∷◌, ◌++◌, arith, inl, inr,
  Bool-cases, Option-cases, if◌then◌else◌, map,
}
use blockchain_node.Python.{Result, ok, err, blocked, key_error, ◌>>=◌, Result-cases}
use blockchain_node.Dict
use blockchain_node.Dict.{Dict}
use blockchain_node.Serial.Data.{Transaction}
use blockchain_node.Parallel.State.{ParallelScheduler}
use blockchain_node.Parallel.Next.{
  txn_is_in_valid_batch, has_context, prior_contexts, keyed, sort_latest,
  get_initial_state_for_transaction,
}

module _ (weight : String → ℕ) where
  -- how many rounds the loop takes for these ids at most
  abbrev pub rounds : List String → ℕ
  rounds [] = 0
  rounds (p ∷ preds) = suc (weight p) + rounds preds

  rounds-append : (xs ys : List String) → rounds (xs ++ ys) ≡ rounds xs + rounds ys
  rounds-append [] ys = omega arith
  rounds-append (x ∷ xs) ys = omega (arith, rounds-append xs ys)

  -- a transaction weighs at least as much as the rounds that its predecessors take
  abbrev pub IsWeight : Dict (List String) → Type 0
  IsWeight predecessors =
      (p : String) (before : List String)
      → Dict.get p predecessors ≡ some before
      → rounds before ≤ weight p

  prior_contexts_ends :
      (fuel : ℕ) (ids : List String) (contexts : List (String × Option String))
      (s : ParallelScheduler)
      → IsWeight s.txn_predecessors
      → rounds ids ≤ fuel
      → (r : Result (List (String × Option String))) × (prior_contexts fuel ids contexts s ≡ some r)
  unfolding prior_contexts
  prior_contexts_ends zero [] contexts s w h = (ok contexts, refl)
  prior_contexts_ends (suc fuel) [] contexts s w h = (ok contexts, refl)
  prior_contexts_ends zero (p ∷ ids) contexts s w h = absurd (omega (arith, h))
  prior_contexts_ends (suc fuel) (p ∷ ids) contexts s w h =
      elim (Result-cases (txn_is_in_valid_batch p s)) [
        | inr (inl (y, e)) ↦ (err y, ground (arith, e))
        | inr (inr e) ↦ (blocked, ground (arith, e))
        | inl (valid, e) ↦ elim (Bool-cases valid) [
          | inl v ↦ elim (Option-cases (Dict.get p s.txn_results)) [
            | inl m ↦ (err key_error, ground (arith, e, v, m))
            | inr (r, m) ↦
                let more =
                  if has_context contexts p r.context_id
                  then contexts
                  else contexts ++ (p, r.context_id) ∷ [] in
                let (out, k) = prior_contexts_ends fuel ids more s w (omega (arith, h)) in
                (out, ground (arith, e, v, m, k))
          ]
          | inr v ↦ elim (Option-cases (Dict.get p s.txn_predecessors)) [
            | inl m ↦ (err key_error, ground (arith, e, v, m))
            | inr (before, m) ↦
                let (out, k) =
                  prior_contexts_ends fuel (ids ++ before) contexts s w
                    (omega (arith, h, w p before m, rounds-append ids before)) in
                (out, ground (arith, e, v, m, k))
          ]
        ]
      ]

  -- `_get_initial_state_for_transaction` ends within as many rounds as the transaction weighs.
  pub initial_state_within :
      (fuel : ℕ) (txn : Transaction) (s : ParallelScheduler)
      → IsWeight s.txn_predecessors
      → weight txn.header_signature ≤ fuel
      → (r : Result (List (Option String))) × (get_initial_state_for_transaction fuel txn s
          ≡ some r)
  unfolding get_initial_state_for_transaction
  initial_state_within fuel txn s w h =
      elim (Option-cases (Dict.get txn.header_signature s.txn_predecessors)) [
        | inl m ↦ (err key_error, ground (arith, m))
        | inr (preds, m) ↦
            let (out, k) =
              prior_contexts_ends fuel preds [] s w
                (omega (arith, h, w txn.header_signature preds m)) in
            elim (Result-cases out) [
              | inl (contexts, e) ↦ (
                (do sorted ← keyed contexts s; ok (map (λ x. x.1) (sort_latest sorted))),
                ground (arith, m, k, e),
              )
              | inr (inl (y, e)) ↦ (err y, ground (arith, m, k, e))
              | inr (inr e) ↦ (blocked, ground (arith, m, k, e))
            ]
      ]
