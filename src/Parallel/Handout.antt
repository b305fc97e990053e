-- ===== src/Parallel/Handout.antt =====
-- What `next_transaction` of the parallel scheduler makes sure of before it hands out a transaction.
use blockchain_node.Prelude.{
  ℕ, String, ◌≡◌, refl, some, List, [], ◌∷◌, ◌++◌, arith, inl, inr, ◌⊎◌, Option-cases,
}
use blockchain_node.Python.{ok, Result-cases}
use blockchain_node.Dict
use blockchain_node.Dict.{Dict}
use blockchain_node.Serial.Data.{Transaction, TxnInformation}
use blockchain_node.Serial.Next.{failed_result}
use blockchain_node.Parallel.State.{ParallelScheduler, TransactionHeader}
use blockchain_node.Parallel.Next.{
  Decision, pass, fail, take_it, decide, choose, hand_out, get_initial_state_for_transaction,
  erase_all, next_transaction,
}
use blockchain_node.Parallel.Runnable.{Runnable, taken-Runnable}

abbrev pub HasEntry : String → Transaction → Dict Transaction → Type 0
HasEntry txn_id txn [] = ⊥
HasEntry txn_id txn ((k, t) ∷ d) = ((txn_id ≡ k) × (txn ≡ t)) ⊎ HasEntry txn_id txn d

abbrev Chosen :
    (String → TransactionHeader) → Dict Transaction → Transaction → ParallelScheduler → Type 0
Chosen parse available txn s =
    (txn_id : String) × (HasEntry txn_id txn available
      × Runnable txn_id (parse txn.header).dependencies s)

later-Chosen :
    (parse : String → TransactionHeader) (k : String) (t : Transaction)
    (available : Dict Transaction) (txn : Transaction) (s : ParallelScheduler)
    → Chosen parse available txn s
    → Chosen parse ((k, t) ∷ available) txn s
later-Chosen parse k t available txn s (txn_id, (h, r)) = (txn_id, (inr h, r))

Decision-cases : (d : Decision) → (d ≡ pass) ⊎ ((d ≡ fail) ⊎ (d ≡ take_it))
Decision-cases pass = inl refl
Decision-cases fail = inr (inl refl)
Decision-cases take_it = inr (inr refl)

choose-Runnable :
    (parse : String → TransactionHeader) (available : Dict Transaction) (gone : List String)
    (s s' : ParallelScheduler) (txn : Transaction) (gone' : List String)
    → choose parse available gone s ≡ (ok (some txn, gone'), s')
    → Chosen parse available txn s'
unfolding choose
choose-Runnable parse [] gone s s' txn gone' h = absurd (ground (arith, h))
choose-Runnable parse ((k, t) ∷ available) gone s s' txn gone' h =
    elim (Result-cases (decide parse k t s)) [
      | inr (inl (y, m)) ↦ absurd (ground (arith, h, m))
      | inr (inr m) ↦ absurd (ground (arith, h, m))
      | inl (d, m) ↦ elim (Decision-cases d) [
        | inl n ↦
            later-Chosen parse k t available txn s'
              (choose-Runnable parse available gone s s' txn gone' (ground (arith, h, m, n)))
        | inr (inl n) ↦ later-Chosen parse k t available txn s' (
            choose-Runnable parse available (gone ++ k ∷ [])
              (record s { txn_results = Dict.insert k (failed_result k) s.txn_results }) s' txn
              gone' (ground (arith, h, m, n)))
        | inr (inr n) ↦
            let same_txn : txn ≡ t = ground (arith, h, m, n) in
            let same_state : s' ≡ s = ground (arith, h, m, n) in
            let taken : decide parse k t s ≡ ok take_it = ground (arith, m, n) in
            (
              k,
              (inl (refl, same_txn), rw (same_txn, same_state) (taken-Runnable parse k t s taken)),
            )
      ]
    ]

-- the fields that `Runnable` reads are the same
same-Runnable :
    (txn_id : String) (deps : List String) (s s' : ParallelScheduler)
    → s'.txn_predecessors ≡ s.txn_predecessors
    → s'.txn_results ≡ s.txn_results
    → s'.outstanding ≡ s.outstanding
    → s'.batches_by_txn_id ≡ s.batches_by_txn_id
    → Runnable txn_id deps s
    → Runnable txn_id deps s'
same-Runnable txn_id deps s s' h k l m r = record {
  finished = λ preds p i j. ground (arith, k, r.finished preds p (ground (arith, h, i)) j);
  finished_before = λ preds before p q i j a b. ground (
    arith,
    k,
    r.finished_before preds before p q (ground (arith, h, i)) j (ground (arith, h, a)) b,
  );
  idle = ground (arith, l, r.idle);
  dependencies = λ d b i j. rw k (r.dependencies d b i (ground (arith, m, j)));
}

-- what `hand_out` leaves as it is
record Kept (txn : Transaction) (info : TxnInformation) (s s' : ParallelScheduler) : Type 0 where
  same_txn : info.txn ≡ txn
  same_hash : info.state_hash ≡ s'.first_state_hash
  same_predecessors : s'.txn_predecessors ≡ s.txn_predecessors
  same_results : s'.txn_results ≡ s.txn_results
  same_outstanding : s'.outstanding ≡ s.outstanding
  same_batches : s'.batches_by_txn_id ≡ s.batches_by_txn_id

hand_out-Kept :
    (fuel : ℕ) (txn : Transaction) (s s' : ParallelScheduler) (info : TxnInformation)
    → hand_out fuel txn s ≡ some (ok (some info), s')
    → Kept txn info s s'
unfolding hand_out
hand_out-Kept fuel txn s s' info h =
    elim (Option-cases (get_initial_state_for_transaction fuel txn s)) [
      | inl o ↦ absurd (ground (arith, h, o))
      | inr (bases, o) ↦ elim (Result-cases bases) [
        | inr (inl (y, q)) ↦ absurd (ground (arith, h, o, q))
        | inr (inr q) ↦ absurd (ground (arith, h, o, q))
        | inl (ids, q) ↦ record {
          same_txn = ground (arith, h, o, q);
          same_hash = ground (arith, h, o, q);
          same_predecessors = ground (arith, h, o, q);
          same_results = ground (arith, h, o, q);
          same_outstanding = ground (arith, h, o, q);
          same_batches = ground (arith, h, o, q);
        }
      ]
    ]

-- A transaction that next_transaction hands out was available. All its predecessors and all of
-- their predecessors have results, it is not outstanding, every transaction in the batch of a
-- dependency that the scheduler knows has a valid result, and it starts from the first state
-- hash.
pub next_transaction-Runnable :
    (parse : String → TransactionHeader) (fuel : ℕ) (s s' : ParallelScheduler)
    (info : TxnInformation)
    → next_transaction parse fuel s ≡ some (ok (some info), s')
    → (info.state_hash ≡ s'.first_state_hash)
      × ((txn_id : String) × (HasEntry txn_id info.txn s.txns_available
            × Runnable txn_id (parse info.txn.header).dependencies s'))
unfolding next_transaction
next_transaction-Runnable parse fuel s s' info h =
    let c = choose parse s.txns_available [] s in
    elim (Result-cases c.0) [
      | inr (inl (y, m)) ↦ absurd (ground (arith, h, m))
      | inr (inr m) ↦ absurd (ground (arith, h, m))
      | inl ((next, gone), m) ↦ elim (Option-cases next) [
        | inl n ↦ absurd (ground (arith, h, m, n))
        | inr (txn, n) ↦
            let chosen : c ≡ (ok (some txn, gone), c.1) = ground (arith, m, n) in
            let (txn_id, (entry, r)) =
              choose-Runnable parse s.txns_available [] s (c.1) txn gone chosen in
            let s1 : ParallelScheduler = record c.1 {
              txns_available = erase_all gone c.1.txns_available;
            } in
            let k = hand_out-Kept fuel txn s1 s' info (ground (arith, h, m, n)) in
            (
              k.same_hash,
              (
                txn_id,
                (
                  rw k.same_txn entry,
                  rw k.same_txn (
                      same-Runnable txn_id (parse txn.header).dependencies c.1 s'
                        k.same_predecessors k.same_results k.same_outstanding k.same_batches r),
                ),
              ),
            )
      ]
    ]
