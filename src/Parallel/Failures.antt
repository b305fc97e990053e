-- ===== src/Parallel/Failures.antt =====
-- `set_transaction_execution_result` of the parallel scheduler for a transaction that has failed: the
-- results that were computed after its batch are gone.
use blockchain_node.Prelude.{
  ℕ, leb, all, take, drop, ◌-◌, String, ◌≡◌, refl, ◌∙◌, Bool, true, false, Option, none, some, List,
  [], ◌∷◌, arith, inl, inr, Bool-cases, Option-cases, map, contains, eq_iff, if◌then◌else◌, ◌==◌,
}
use blockchain_node.Python.{ok, Result-cases}
use blockchain_node.Dict
use blockchain_node.Dict.{Dict, get-insert}
use blockchain_node.Serial.Data.{Transaction, Batch, TxnOutput, new_txn_result}
use blockchain_node.Parallel.State.{ParallelScheduler, is_transaction_in_schedule}
use blockchain_node.Parallel.Results.{
  replay_successors, replay_batch, remove_subsequent_result_because_of_batch_failure,
  index_of_batch, all_have_results, advance_least, set_least_batch_id, reschedule_if_outstanding,
  keep_result, set_transaction_execution_result,
}
use blockchain_node.Parallel.Replays.{
  Thinner, Thinner-refl, Thinner-trans, IsSuccessor, NoResults, no_result, Successor-same,
  successors_gone,
}

abbrev pub ids_of : List Transaction → List String
ids_of txns = map (λ t. t.header_signature) txns

-- the outer loop
batch_gone :
    (txns : List Transaction) (seen : List String) (s s' : ParallelScheduler)
    → NoResults seen s
    → replay_batch txns seen s ≡ (ok tt, s')
    → Thinner s s'
      × ((t u : String)
          → contains (ids_of txns) t ≡ true
          → contains s.scheduled u ≡ true
          → IsSuccessor t u s
          → Dict.has u s'.txn_results ≡ false)
unfolding replay_batch
batch_gone [] seen s s' n h =
    let same : s' ≡ s = ground (arith, h) in
    rw same (Thinner-refl s, λ t u k. absurd (ground (arith, k)))
batch_gone (txn ∷ txns) seen s s' n h =
    let first = txn.header_signature in
    elim (Result-cases (replay_successors first s.scheduled seen s).0) [
      | inr (inl (y, m)) ↦ absurd (ground (arith, h, m))
      | inr (inr m) ↦ absurd (ground (arith, h, m))
      | inl (seen1, m) ↦
          let s1 : ParallelScheduler = (replay_successors first s.scheduled seen s).1 in
          let (t1, n1, gone1) =
            successors_gone first s.scheduled seen seen1 s s1 n (ground (arith, m)) in
          let (t2, gone2) = batch_gone txns seen1 s1 s' n1 (ground (arith, h, m)) in
          (
            Thinner-trans s s1 s' t1 t2,
            λ t u k l i. elim (Bool-cases (Dict.has u s1.txn_results)) [
              | inr e ↦ no_result u s1 s' t2 e
              | inl e ↦ elim (Bool-cases (first == t)) [
                | inl a ↦
                    let same : t ≡ first = ground (arith, a, eq_iff first t) in
                    absurd (ground (arith, e, gone1 u l (rw⁻¹ same i)))
                | inr a ↦
                    gone2 t u (ground (arith, k, a)) (t1.stays u e l) (Successor-same t u s s1 t1 i)
              ]
            ],
          )
    ]

advance-same :
    (batch : Batch) (i j : ℕ) (s : ParallelScheduler)
    → Thinner s (advance_least batch i j s) × ((advance_least batch i j s).scheduled ≡ s.scheduled)
unfolding advance_least
advance-same batch i j s = elim (Bool-cases (leb j i)) [
  | inl e ↦ rw e (Thinner-refl s, refl)
  | inr e ↦
      elim (Bool-cases (
        all (λ b. all_have_results b.transactions s.txn_results)
          (take (j - i) (drop i s.batches)))) [
            | inl k ↦
                rw (e, k)
                  (
                    record {
                      same_chain = refl;
                      same_batches = refl;
                      fewer = λ u h. h;
                      stays = λ u h l. l;
                    },
                    refl,
                  )
            | inr k ↦ rw (e, k) (Thinner-refl s, refl)
          ]
]

least-same :
    (sig : String) (s s' : ParallelScheduler)
    → set_least_batch_id sig s ≡ ok s'
    → Thinner s s' × (s'.scheduled ≡ s.scheduled)
unfolding set_least_batch_id
least-same sig s s' h = elim (Option-cases (Dict.get sig s.batches_by_txn_id)) [
  | inl a ↦ absurd (ground (arith, h, a))
  | inr (batch, a) ↦ elim (Option-cases s.least_batch_id_wo_results) [
    | inl b ↦ absurd (ground (arith, h, a, b))
    | inr (least, b) ↦ elim (Option-cases (Dict.get least s.batches_by_id)) [
      | inl c ↦ absurd (ground (arith, h, a, b, c))
      | inr (annotated, c) ↦ elim (Option-cases (index_of_batch annotated.batch s.batches)) [
        | inl d ↦ absurd (ground (arith, h, a, b, c, d))
        | inr (i, d) ↦ elim (Option-cases (index_of_batch batch s.batches)) [
          | inl e ↦ absurd (ground (arith, h, a, b, c, d, e))
          | inr (j, e) ↦
              let same : s' ≡ advance_least batch i j s = ground (arith, h, a, b, c, d, e) in
              rw same (advance-same batch i j s)
        ]
      ]
    ]
  ]
]

reschedule-results :
    (sig : String) (s : ParallelScheduler)
    → (reschedule_if_outstanding sig s).1.txn_results ≡ s.txn_results
unfolding reschedule_if_outstanding
reschedule-results sig s = elim (Bool-cases (contains s.outstanding sig)) [
  | inr e ↦ rw e refl
  | inl e ↦ elim (Option-cases (Dict.get sig s.transactions)) [
    | inl m ↦ rw (e, m) refl
    | inr (txn, m) ↦ rw (e, m) refl
  ]
]

kept_results :
    (sig u : String) (is_valid : Bool) (context_id : Option String) (out : TxnOutput)
    (s s' : ParallelScheduler)
    → (sig == u) ≡ false
    → keep_result sig is_valid context_id out s ≡ (ok tt, s')
    → Dict.has u s'.txn_results ≡ Dict.has u s.txn_results
unfolding keep_result
kept_results sig u is_valid context_id out s s' n h =
    elim (Result-cases (reschedule_if_outstanding sig s).0) [
      | inr (inl (y, m)) ↦ absurd (ground (arith, h, m))
      | inr (inr m) ↦ absurd (ground (arith, h, m))
      | inl (again, m) ↦
          let s1 : ParallelScheduler = (reschedule_if_outstanding sig s).1 in
          let same : s1.txn_results ≡ s.txn_results = reschedule-results sig s in
          elim (Bool-cases again) [
            | inl a ↦ let end : s' ≡ s1 = ground (arith, h, m, a) in rw end (ground (arith, same))
            | inr a ↦
                elim (Result-cases (
                  new_txn_result sig is_valid (if is_valid then context_id else none)
                    (if is_valid then some s.first_state_hash else none) out)) [
                      | inr (inl (y, b)) ↦ absurd (ground (arith, h, m, a, b))
                      | inr (inr b) ↦ absurd (ground (arith, h, m, a, b))
                      | inl (r, b) ↦
                          let results : s'.txn_results ≡ Dict.insert sig r s.txn_results =
                            ground (arith, h, m, a, b, same) in
                          rw results (ground (arith, n, get-insert sig u r s.txn_results))
                    ]
          ]
    ]

-- Where a failure is reported of a transaction that is in the schedule and the call returns, no
-- other transaction that was scheduled keeps a result if it is in another batch and comes, by the
-- predecessor chain, after a transaction of the failed batch.
pub failure_replays :
    (sig : String) (context_id : Option String) (out : TxnOutput) (batch : Batch) (t u : String)
    (s s' : ParallelScheduler)
    → set_transaction_execution_result sig false context_id out s ≡ (ok tt, s')
    → contains s.scheduled sig ≡ true
    → Dict.get sig s.batches_by_txn_id ≡ some batch
    → contains (ids_of batch.transactions) t ≡ true
    → contains s.scheduled u ≡ true
    → (sig == u) ≡ false
    → IsSuccessor t u s
    → Dict.has u s'.txn_results ≡ false
unfolding set_transaction_execution_result is_transaction_in_schedule
    remove_subsequent_result_because_of_batch_failure
failure_replays sig context_id out batch t u s s' h sched known mem l n i =
    elim (Result-cases (set_least_batch_id sig s)) [
      | inr (inl (y, m)) ↦ absurd (ground (arith, h, sched, known, m))
      | inr (inr m) ↦ absurd (ground (arith, h, sched, known, m))
      | inl (s1, m) ↦
          let (t1, same) = least-same sig s s1 m in
          let known1 : Dict.get sig s1.batches_by_txn_id ≡ some batch =
            ground (arith, t1.same_batches, known) in
          let removed = replay_batch batch.transactions [] s1 in
          elim (Result-cases removed.0) [
            | inr (inl (y, a)) ↦ absurd (ground (arith, h, sched, known, m, known1, a))
            | inr (inr a) ↦ absurd (ground (arith, h, sched, known, m, known1, a))
            | inl (_, a) ↦
                let s2 : ParallelScheduler = removed.1 in
                let (t2, gone) =
                  batch_gone batch.transactions [] s1 s2 (λ v k. absurd (ground (arith, k)))
                    (ground (arith, a)) in
                let kept : keep_result sig false context_id out s2 ≡ (ok tt, s') =
                  ground (arith, h, sched, known, m, known1, a) in
                kept_results sig u false context_id out s2 s' n kept
                ∙ gone t u mem (ground (arith, same, l)) (Successor-same t u s s1 t1 i)
          ]
    ]
