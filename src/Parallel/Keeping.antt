-- ===== src/Parallel/Keeping.antt =====
-- No call of the parallel scheduler but `add_batch` changes the order of the transactions:
-- `_txn_predecessors`, the predecessor chain and the predecessor tree.
use blockchain_node.Prelude.{
  ℕ, String, ◌≡◌, refl, Bool, Option, some, List, [], ◌∷◌, ◌++◌, arith, inl, inr, Bool-cases,
  Option-cases, remove,
}
use blockchain_node.Python.{Result, ok, ◌>>=◌, Result-cases}
use blockchain_node.Dict
use blockchain_node.Dict.{Dict}
use blockchain_node.Serial.Data.{Transaction, TxnInformation, TxnOutput}
use blockchain_node.Serial.Next.{failed_result}
use blockchain_node.Parallel.Predecessors.{PredecessorChain, PredecessorTree}
use blockchain_node.Parallel.State.{TransactionHeader, ParallelScheduler}
use blockchain_node.Parallel.Results.{
  replay, replay_successors, replay_batch, remove_subsequent_result_because_of_batch_failure,
  reschedule_if_outstanding, advance_least, set_least_batch_id, keep_result,
  set_transaction_execution_result,
}
use blockchain_node.Parallel.Next.{
  choose, hand_out, get_initial_state_for_transaction, next_transaction, erase_all,
}
use blockchain_node.Parallel.Unschedule.{
  find_incomplete, in_flight, remove_batch, forget_txns, remove_batches,
  unschedule_incomplete_batches,
}

-- what the order of the transactions is kept in
abbrev pub order_of : ParallelScheduler → Dict (List String) × PredecessorChain × PredecessorTree
order_of s = (s.txn_predecessors, s.predecessor_chain, s.predecessor_tree)

abbrev pub Keeps : ParallelScheduler → ParallelScheduler → Type 0
Keeps s s' = order_of s' ≡ order_of s

pub choose-Keeps :
    (parse : String → TransactionHeader) (available : Dict Transaction) (gone : List String)
    (s : ParallelScheduler)
    → Keeps s (choose parse available gone s).1
unfolding choose
choose-Keeps parse [] gone s = refl
choose-Keeps parse ((k, t) ∷ available) gone s = ground (
  arith,
  choose-Keeps parse available gone s,
  choose-Keeps parse available (gone ++ k ∷ [])
      (record s { txn_results = Dict.insert k (failed_result k) s.txn_results }),
)

replay-Keeps : (txn_id : String) (s : ParallelScheduler) → Keeps s (replay txn_id s).1
unfolding replay
replay-Keeps txn_id s = ground arith

replay_successors-Keeps :
    (t : String) (copy seen : List String) (s : ParallelScheduler)
    → Keeps s (replay_successors t copy seen s).1
unfolding replay_successors
replay_successors-Keeps t [] seen s = refl
replay_successors-Keeps t (x ∷ copy) seen s = ground (
  arith,
  replay-Keeps x s,
  replay_successors-Keeps t copy seen s,
  replay_successors-Keeps t copy (seen ++ x ∷ []) (replay x s).1,
)

replay_batch-Keeps :
    (txns : List Transaction) (seen : List String) (s : ParallelScheduler)
    → Keeps s (replay_batch txns seen s).1
unfolding replay_batch
replay_batch-Keeps [] seen s = refl
replay_batch-Keeps (t ∷ txns) seen s =
    let first = replay_successors t.header_signature s.scheduled seen s in
    let k = replay_successors-Keeps t.header_signature s.scheduled seen s in
    elim (Result-cases first.0) [
      | inl (seen', m) ↦ ground (arith, m, k, replay_batch-Keeps txns seen' first.1)
      | inr (inl (y, m)) ↦ ground (arith, m, k)
      | inr (inr m) ↦ ground (arith, m, k)
    ]

remove_subsequent-Keeps :
    (sig : String) (s : ParallelScheduler)
    → Keeps s (remove_subsequent_result_because_of_batch_failure sig s).1
unfolding remove_subsequent_result_because_of_batch_failure
remove_subsequent-Keeps sig s = elim (Option-cases (Dict.get sig s.batches_by_txn_id)) [
  | inl e ↦ ground (arith, e)
  | inr (batch, e) ↦ ground (arith, e, replay_batch-Keeps batch.transactions [] s)
]

keep_result-Keeps :
    (sig : String) (v : Bool) (c : Option String) (out : TxnOutput) (s : ParallelScheduler)
    → Keeps s (keep_result sig v c out s).1
unfolding keep_result reschedule_if_outstanding
keep_result-Keeps sig v c out s = ground arith

least-Keeps :
    (sig : String) (s s' : ParallelScheduler) → set_least_batch_id sig s ≡ ok s' → Keeps s s'
unfolding set_least_batch_id advance_least
least-Keeps sig s s' h = ground (arith, h)

pub set_result-Keeps :
    (sig : String) (v : Bool) (c : Option String) (out : TxnOutput) (s : ParallelScheduler)
    → Keeps s (set_transaction_execution_result sig v c out s).1
unfolding set_transaction_execution_result
set_result-Keeps sig v c out s = elim (Result-cases (set_least_batch_id sig s)) [
  | inr (inl (y, m)) ↦ ground (arith, m)
  | inr (inr m) ↦ ground (arith, m)
  | inl (s1, m) ↦ elim (Bool-cases v) [
    | inl e ↦ ground (arith, m, e, least-Keeps sig s s1 m, keep_result-Keeps sig v c out s1)
    | inr e ↦
        let removed = remove_subsequent_result_because_of_batch_failure sig s1 in
        ground (
          arith,
          m,
          e,
          least-Keeps sig s s1 m,
          remove_subsequent-Keeps sig s1,
          keep_result-Keeps sig v c out removed.1,
        )
  ]
]

forget_txns-Keeps :
    (txns : List Transaction) (s : ParallelScheduler) → Keeps s (forget_txns txns s).1
unfolding forget_txns
forget_txns-Keeps [] s = refl
forget_txns-Keeps (t ∷ txns) s =
    let txn_id = t.header_signature in
    ground (
      arith,
      forget_txns-Keeps txns (record s {
        batches_by_txn_id = Dict.erase txn_id s.batches_by_txn_id;
        txn_results = Dict.erase txn_id s.txn_results;
        txns_available = Dict.erase txn_id s.txns_available;
        outstanding = remove s.outstanding txn_id;
      }),
    )

remove_batches-Keeps :
    (ids : List String) (s : ParallelScheduler) → Keeps s (remove_batches ids s).1
unfolding remove_batches
remove_batches-Keeps [] s = refl
remove_batches-Keeps (b ∷ ids) s = elim (Option-cases (Dict.get b s.batches_by_id)) [
  | inl e ↦ ground (arith, e)
  | inr (annotated, e) ↦ elim (Option-cases (remove_batch annotated.batch s.batches)) [
    | inl m ↦ ground (arith, e, m)
    | inr (batches, m) ↦
        let s1 : ParallelScheduler = record s {
          batches = batches;
          batches_by_id = Dict.erase b s.batches_by_id;
        } in
        let forgotten = forget_txns annotated.batch.transactions s1 in
        ground (
          arith,
          e,
          m,
          forget_txns-Keeps annotated.batch.transactions s1,
          remove_batches-Keeps ids forgotten.1,
        )
  ]
]

pub unschedule-Keeps : (s : ParallelScheduler) → Keeps s (unschedule_incomplete_batches s).1
unfolding unschedule_incomplete_batches
unschedule-Keeps s =
    let found : Result (List String) = (do
      waiting ← find_incomplete (Dict.keys s.txns_available) [] s
      find_incomplete (in_flight s) waiting s) in
    elim (Result-cases found) [
      | inl (ids, e) ↦ rw (e, unschedule_incomplete_batches) (remove_batches-Keeps ids s)
      | inr (inl (y, e)) ↦ rw (e, unschedule_incomplete_batches) refl
      | inr (inr e) ↦ rw (e, unschedule_incomplete_batches) refl
    ]

hand_out-Keeps :
    (fuel : ℕ) (txn : Transaction) (s s' : ParallelScheduler) (out : Result (Option TxnInformation))
    → hand_out fuel txn s ≡ some (out, s')
    → Keeps s s'
unfolding hand_out
hand_out-Keeps fuel txn s s' out h =
    elim (Option-cases (get_initial_state_for_transaction fuel txn s)) [
      | inl o ↦ absurd (ground (arith, h, o))
      | inr (bases, o) ↦ elim (Result-cases bases) [
        | inl (ids, q) ↦ ground (arith, h, o, q)
        | inr (inl (y, q)) ↦ ground (arith, h, o, q)
        | inr (inr q) ↦ ground (arith, h, o, q)
      ]
    ]

pub next-Keeps :
    (parse : String → TransactionHeader) (fuel : ℕ) (s s' : ParallelScheduler)
    (out : Result (Option TxnInformation))
    → next_transaction parse fuel s ≡ some (out, s')
    → Keeps s s'
unfolding next_transaction
next-Keeps parse fuel s s' out h =
    let c = choose parse s.txns_available [] s in
    let k = choose-Keeps parse s.txns_available [] s in
    elim (Result-cases c.0) [
      | inr (inl (y, m)) ↦ ground (arith, h, m, k)
      | inr (inr m) ↦ ground (arith, h, m, k)
      | inl ((next, gone), m) ↦ elim (Option-cases next) [
        | inl n ↦ ground (arith, h, m, n, k)
        | inr (txn, n) ↦
            let s1 : ParallelScheduler = record c.1 {
              txns_available = erase_all gone c.1.txns_available;
            } in
            ground (arith, k, hand_out-Keeps fuel txn s1 s' out (ground (arith, h, m, n)))
      ]
    ]
