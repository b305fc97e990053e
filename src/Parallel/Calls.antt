-- ===== src/Parallel/Calls.antt =====
-- Any calls of a new parallel scheduler: `next_transaction` ends in every state that they reach.
use blockchain_node.Prelude.{
  none, inl, inr, Option-cases, ℕ, ◌+◌, String, ◌≡◌, refl, Bool, true, false, Option, some, List,
  [], ◌++◌, arith, append_assoc, append-nil,
}
use blockchain_node.Python.{Result, ok, err, blocked, Result-cases}
use blockchain_node.Dict
use blockchain_node.Serial.Data.{Transaction, Batch, TxnInformation, TxnOutput}
use blockchain_node.Parallel.Accesses.{Access}
use blockchain_node.Parallel.State.{
  TransactionHeader, ParallelScheduler, new_parallel_scheduler, finalize, add_batch,
}
use blockchain_node.Parallel.Results.{set_transaction_execution_result}
use blockchain_node.Parallel.Next.{
  hand_out, choose, erase_all, next_transaction, get_initial_state_for_transaction,
}
use blockchain_node.Parallel.Squash.{SquashHandler, cancel}
use blockchain_node.Parallel.Unschedule.{unschedule_incomplete_batches}
use blockchain_node.Parallel.Keeping.{
  choose-Keeps, Keeps, set_result-Keeps, unschedule-Keeps, next-Keeps,
}
use blockchain_node.Parallel.Ends.{IsWeight, initial_state_within}
use blockchain_node.Parallel.Ranking.{Ranked}
use blockchain_node.Parallel.Serializable.{StateSerial, Fresh, new-Ready, add_batch-Ready, history}

module _ (parse : String → TransactionHeader) {W : Type 0} (squash : SquashHandler W) where
  -- One call, with the transactions that it adds, whether it returns or raises. The world of the
  -- squash handler may be changed by others between two calls.
  pub data Call : List Transaction → ParallelScheduler → ParallelScheduler → Type 0 where
    add :
        (batch : Batch) (state_hash : Option String) (required : Bool) (s : ParallelScheduler)
        → s.final ≡ false
        → Call batch.transactions s (add_batch parse batch state_hash required s).1
    add_after_finalize :
        (batch : Batch) (state_hash : Option String) (required : Bool) (s : ParallelScheduler)
        → s.final ≡ true
        → Call [] s (add_batch parse batch state_hash required s).1
    next :
        (fuel : ℕ) (out : Result (Option TxnInformation)) (s s' : ParallelScheduler)
        → next_transaction parse fuel s ≡ some (out, s')
        → Call [] s s'
    report :
        (sig : String) (v : Bool) (c : Option String) (out : TxnOutput) (s : ParallelScheduler)
        → Call [] s (set_transaction_execution_result sig v c out s).1
    unschedule : (s : ParallelScheduler) → Call [] s (unschedule_incomplete_batches s).1
    finalizing : (s : ParallelScheduler) → Call [] s (finalize s)
    cancelling : (s : ParallelScheduler) (w : W) → Call [] s (cancel squash s w).1

  -- a new scheduler after some calls, with the transactions that were added in all
  pub data Run : List Transaction → ParallelScheduler → Type 0 where
    begin : (hash : String) (always : Bool) → Run [] (new_parallel_scheduler hash always)
    go :
        {txns added : List Transaction} {s s' : ParallelScheduler}
        → Run txns s
        → Call added s s'
        → Run (txns ++ added) s'

  -- what `Ready` says, for a scheduler that may be final
  abbrev Kept : List Transaction → ParallelScheduler → Type 0
  Kept rest s =
      ((log : List Access) × StateSerial log s)
      × Ranked s.predecessor_chain s.txn_predecessors
      × ((known : String → Bool) × ((x : String) → Dict.has x s.predecessor_chain ≡ known x)
          × Fresh known rest)

  Kept-same :
      (rest : List Transaction) (s s' : ParallelScheduler) → Keeps s s' → Kept rest s → Kept rest s'
  Kept-same rest s s' k (serial, ranked, fresh) =
      let same_predecessors : s'.txn_predecessors ≡ s.txn_predecessors = ground (arith, k) in
      let same_chain : s'.predecessor_chain ≡ s.predecessor_chain = ground (arith, k) in
      let same_tree : s'.predecessor_tree ≡ s.predecessor_tree = ground (arith, k) in
      rw (same_predecessors, same_chain, same_tree) (serial, ranked, fresh)

  cancel-Keeps : (s : ParallelScheduler) (w : W) → Keeps s (cancel squash s w).1
  unfolding cancel
  cancel-Keeps s w = ground arith

  finalize-Keeps : (s : ParallelScheduler) → Keeps s (finalize s)
  unfolding finalize
  finalize-Keeps s = refl

  add_batch-Keeps :
      (batch : Batch) (state_hash : Option String) (required : Bool) (s : ParallelScheduler)
      → s.final ≡ true
      → Keeps s (add_batch parse batch state_hash required s).1
  unfolding add_batch
  add_batch-Keeps batch state_hash required s h = ground (arith, h)

  add_batch-Kept :
      (batch : Batch) (state_hash : Option String) (required : Bool) (rest : List Transaction)
      (s : ParallelScheduler)
      → s.final ≡ false
      → Kept (batch.transactions ++ rest) s
      → Kept rest (add_batch parse batch state_hash required s).1
  add_batch-Kept batch state_hash required rest s h ((log, serial), ranked, fresh) =
      let (s', e, (serial', _, ranked', fresh')) =
        add_batch-Ready parse batch state_hash required log rest s (serial, h, ranked, fresh) in
      let same : (add_batch parse batch state_hash required s).1 ≡ s' = ground (arith, e) in
      rw same ((history parse batch.transactions log, serial'), ranked', fresh')

  Call-Kept :
      (rest : List Transaction) {added : List Transaction} {s s' : ParallelScheduler}
      → Call added s s'
      → Kept (added ++ rest) s
      → Kept rest s'
  Call-Kept rest (add batch state_hash required s h) k =
      add_batch-Kept batch state_hash required rest s h k
  Call-Kept rest (add_after_finalize batch state_hash required s h) k =
      Kept-same rest s (add_batch parse batch state_hash required s).1
        (add_batch-Keeps batch state_hash required s h) k
  Call-Kept rest (next fuel out s s' h) k = Kept-same rest s s' (next-Keeps parse fuel s s' out h) k
  Call-Kept rest (report sig v c out s) k =
      Kept-same rest s (set_transaction_execution_result sig v c out s).1
        (set_result-Keeps sig v c out s) k
  Call-Kept rest (unschedule s) k =
      Kept-same rest s (unschedule_incomplete_batches s).1 (unschedule-Keeps s) k
  Call-Kept rest (finalizing s) k = Kept-same rest s (finalize s) (finalize-Keeps s) k
  Call-Kept rest (cancelling s w) k = Kept-same rest s (cancel squash s w).1 (cancel-Keeps s w) k

  Run-Kept :
      (rest : List Transaction) {txns : List Transaction} {s : ParallelScheduler}
      → Run txns s
      → Fresh (λ x. false) (txns ++ rest)
      → Kept rest s
  Run-Kept rest (begin hash always) fresh =
      let (serial, _, ranked, k) = new-Ready parse hash always rest fresh in
      (([], serial), ranked, k)
  Run-Kept rest (go {txns} {added} {s} {s'} run call) fresh =
      let fresh' : Fresh (λ x. false) (txns ++ (added ++ rest)) =
        rw⁻¹ (append_assoc txns added rest) fresh in
      Call-Kept rest call (Run-Kept (added ++ rest) run fresh')

  hand_out_ends :
      (fuel : ℕ) (txn : Transaction) (s : ParallelScheduler)
      → ((r : Result (List (Option String))) × (get_initial_state_for_transaction fuel txn s
            ≡ some r))
      → (r : Result (Option TxnInformation) × ParallelScheduler) × (hand_out fuel txn s ≡ some r)
  unfolding hand_out
  hand_out_ends fuel txn s (r, h) = elim (Option-cases (hand_out fuel txn s)) [
    | inr (out, e) ↦ (out, e)
    | inl n ↦ elim (Result-cases r) [
      | inl (bases, e) ↦ absurd (ground (arith, n, h, e))
      | inr (inl (y, e)) ↦ absurd (ground (arith, n, h, e))
      | inr (inr e) ↦ absurd (ground (arith, n, h, e))
    ]
  ]

  next_within :
      (s : ParallelScheduler) (weight : String → ℕ)
      → IsWeight weight s.txn_predecessors
      → (fuel : ℕ) × ((more : ℕ)
          → (r : Result (Option TxnInformation) × ParallelScheduler) × (next_transaction parse
                (fuel + more)
                s
              ≡ some r))
  unfolding next_transaction
  next_within s weight is_weight =
      let c = choose parse s.txns_available [] s in
      elim (Result-cases c.0) [
        | inr (inl (y, m)) ↦ (0, λ more. ((err y, c.1), ground (arith, m)))
        | inr (inr m) ↦ (0, λ more. ((blocked, c.1), ground (arith, m)))
        | inl ((found, gone), m) ↦
            let s1 : ParallelScheduler = record c.1 {
              txns_available = erase_all gone c.1.txns_available;
            } in
            elim (Option-cases found) [
              | inl n ↦ (0, λ more. ((ok none, s1), ground (arith, m, n)))
              | inr (txn, n) ↦
                  let fuel = weight txn.header_signature in
                  let same : s1.txn_predecessors ≡ s.txn_predecessors =
                    ground (arith, choose-Keeps parse s.txns_available [] s) in
                  let is_weight' : IsWeight weight s1.txn_predecessors = rw same is_weight in
                  (
                    fuel,
                    λ more.
                        let (out, k) = hand_out_ends (fuel + more) txn s1 (
                          initial_state_within weight (fuel + more) txn s1 is_weight'
                            (omega arith)) in
                        (out, ground (arith, m, n, k)),
                  )
            ]
      ]

  -- In every state that calls of a new scheduler reach, where the transactions added all have
  -- different ids, `next_transaction` ends: there is a number of rounds within which the search for
  -- the contexts of the transaction that it settles on ends, and with more rounds it ends too.
  pub next_transaction_ends :
      {txns : List Transaction} {s : ParallelScheduler}
      → Run txns s
      → Fresh (λ x. false) txns
      → (fuel : ℕ) × ((more : ℕ)
          → (r : Result (Option TxnInformation) × ParallelScheduler) × (next_transaction parse
                (fuel + more)
                s
              ≡ some r))
  next_transaction_ends {txns} {s} run fresh =
      let fresh' : Fresh (λ x. false) (txns ++ []) = rw (append-nil txns) fresh in
      let (_, ranked, _) = Run-Kept [] run fresh' in next_within s ranked.weight ranked.is_weight
