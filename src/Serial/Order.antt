-- ===== src/Serial/Order.antt =====
-- The order in which the scheduler hands out the transactions, over every sequence of its calls.
use blockchain_node.Prelude.{
  String, ◌≡◌, refl, ◌∙◌, Bool, true, false, not, ◌&&◌, Option, List, [], ◌∷◌, ◌++◌, append_assoc,
  append-nil, arith, if◌then◌else◌, is_empty, Bool-cases, inl, inr, is_some,
}
use blockchain_node.Python.{Result-cases}
use blockchain_node.Dict
use blockchain_node.Dict.{Dict}
use blockchain_node.Serial.Data.{Transaction, Batch, TxnInformation}
use blockchain_node.Serial.State.{SerialScheduler, enqueue, annotate, add_batch, finalize}
use blockchain_node.Serial.Next.{
  has_failed, handle_fail_fast, schedule, must_fail, next_loop, next_transaction,
}
use blockchain_node.Serial.Unschedule.{unschedule_incomplete_batches}
use blockchain_node.Serial.Removal.{unschedule-Removal}
use blockchain_node.Serial.Frame.{Frame, Frame-refl, Frame-same_statuses, Frame-handle_fail_fast}
use blockchain_node.Serial.Subsequence.{
  Subsequence, drop, Subsequence-refl, Subsequence-trans, Subsequence-after,
}

abbrev pub scheduled_txns : List TxnInformation → List Transaction
scheduled_txns [] = []
scheduled_txns (i ∷ infos) = i.txn ∷ scheduled_txns infos

-- the transactions that were handed out, and then those that wait
unfoldable pub order : SerialScheduler → List Transaction
order s = scheduled_txns s.scheduled_transactions ++ s.txn_queue

-- `added` is what a call adds to the queue. Nothing else comes in, nothing changes its place, and
-- `b` stays failed.
pub record Advance (b : String) (added : List Transaction) (s s' : SerialScheduler) : Type 0 where
  pub in_order : Subsequence (order s') (order s ++ added)
  pub still_failed : (has_failed b s && not (has_failed b s')) ≡ false

pub scheduled_txns-append :
    (xs ys : List TxnInformation)
    → scheduled_txns (xs ++ ys) ≡ scheduled_txns xs ++ scheduled_txns ys
scheduled_txns-append [] ys = refl
scheduled_txns-append (x ∷ xs) ys = rw (scheduled_txns-append xs ys) refl

module _ (b : String) where
  pub Frame-Advance : {s s' : SerialScheduler} → Frame b s s' → Advance b [] s s'
  unfolding order
  Frame-Advance {s} {s'} f = record {
    in_order =
        rw (f.same_scheduled, f.same_queue, append-nil (order s)) (Subsequence-refl (order s));
    still_failed = f.still_failed;
  }

  -- what `next_transaction` leaves of the waiting transactions `queue`
  record Took (queue : List Transaction) (s s' : SerialScheduler) : Type 0 where
    in_order : Subsequence (order s') (scheduled_txns s.scheduled_transactions ++ queue)
    still_failed : (has_failed b s && not (has_failed b s')) ≡ false

  Took-empty : (s : SerialScheduler) → Took [] s (record s { txn_queue = [] })
  unfolding order
  Took-empty s = record {
    in_order = Subsequence-refl (scheduled_txns s.scheduled_transactions ++ []);
    still_failed = let f = Frame-refl b s in f.still_failed;
  }

  Took-rest :
      (txn : Transaction) (queue : List Transaction) (s t : SerialScheduler)
      → Frame b s t
      → Took (txn ∷ queue) s (record t { txn_queue = queue })
  unfolding order
  Took-rest txn queue s t f = record {
    in_order = rw f.same_scheduled (
        Subsequence-after (scheduled_txns s.scheduled_transactions)
          (drop txn (Subsequence-refl queue)));
    still_failed = f.still_failed;
  }

  Took-schedule :
      (txn : Transaction) (queue : List Transaction) (s : SerialScheduler)
      → Took (txn ∷ queue) s (schedule txn (record s { txn_queue = queue })).1
  unfolding order schedule
  Took-schedule txn queue s = record {
    in_order =
        rw (scheduled_txns-append, append_assoc)
          (Subsequence-refl (scheduled_txns s.scheduled_transactions ++ txn ∷ queue));
    still_failed = let f = Frame-refl b s in f.still_failed;
  }

  Took-step :
      (txn : Transaction) (queue : List Transaction) (s t u : SerialScheduler)
      → Frame b s t
      → Took queue t u
      → Took (txn ∷ queue) s u
  Took-step txn queue s t u f r = record {
    in_order = Subsequence-trans r.in_order (
        rw f.same_scheduled (
          Subsequence-after (scheduled_txns s.scheduled_transactions)
            (drop txn (Subsequence-refl queue))));
    still_failed = ground (arith, f.still_failed, r.still_failed);
  }

  Took-if :
      {A : Type 0} (t : Bool) (queue : List Transaction) (s : SerialScheduler)
      (x y : A × SerialScheduler)
      → Took queue s x.1
      → Took queue s y.1
      → Took queue s (if t then x else y).1
  Took-if true queue s x y p q = p
  Took-if false queue s x y p q = q

  next_loop-Took :
      (dependencies : String → List String) (queue : List Transaction) (s : SerialScheduler)
      → Took queue s (next_loop dependencies queue s).1
  unfolding next_loop
  next_loop-Took dependencies [] s = Took-if s.final [] s _ _ (Took-empty s) (Took-empty s)
  next_loop-Took dependencies (txn ∷ queue) s =
      let f = Frame-handle_fail_fast b txn s in
      let t = (handle_fail_fast txn s).1 in
      elim (Result-cases (must_fail dependencies txn s)) [
        | inl (true, e) ↦ elim (Result-cases (handle_fail_fast txn s).0) [
          | inl (u, r) ↦
              rw (e, next_loop)
                (rw (r, next_loop)
                  (Took-step txn queue s t (next_loop dependencies queue t).1 f
                    (next_loop-Took dependencies queue t)))
          | inr (inl (x, r)) ↦ rw (e, next_loop) (rw (r, next_loop) (Took-rest txn queue s t f))
          | inr (inr r) ↦ rw (e, next_loop) (rw (r, next_loop) (Took-rest txn queue s t f))
        ]
        | inl (false, e) ↦ rw (e, next_loop) (Took-schedule txn queue s)
        | inr (inl (x, e)) ↦ rw (e, next_loop) (Took-rest txn queue s s (Frame-refl b s))
        | inr (inr e) ↦ rw (e, next_loop) (Took-rest txn queue s s (Frame-refl b s))
      ]

  pub next_transaction-Advance :
      (dependencies : String → List String) (s : SerialScheduler)
      → Advance b [] s (next_transaction dependencies s).1
  unfolding next_transaction
  next_transaction-Advance dependencies s = elim (Bool-cases (is_some s.in_progress_transaction)) [
    | inl e ↦ rw (e, next_transaction) (Frame-Advance (Frame-refl b s))
    | inr e ↦
        rw (e, next_transaction)
          (let r = next_loop-Took dependencies s.txn_queue s in
            record {
              in_order = rw (append-nil (order s)) (unfold order in r.in_order);
              still_failed = r.still_failed;
            })
  ]

  same_statuses-failed :
      (s s' : SerialScheduler)
      → s'.batch_statuses ≡ s.batch_statuses
      → (has_failed b s && not (has_failed b s')) ≡ false
  same_statuses-failed s s' r = rw r (ground arith)

  enqueue_keeps :
      (c : String) (txns : List Transaction) (s : SerialScheduler)
      → (enqueue c txns s).scheduled_transactions ≡ s.scheduled_transactions
        × (enqueue c txns s).batch_statuses ≡ s.batch_statuses
        × (enqueue c txns s).txn_queue ≡ s.txn_queue ++ txns
  unfolding enqueue
  enqueue_keeps c [] s = (refl, refl, rw (append-nil s.txn_queue) refl)
  enqueue_keeps c (txn ∷ txns) s =
      let (p, q, r) = enqueue_keeps c txns (record s {
        last_in_batch =
            if is_empty txns then s.last_in_batch ++ txn.header_signature ∷ [] else s.last_in_batch;
        txn_to_batch = Dict.insert txn.header_signature c s.txn_to_batch;
        txn_queue = s.txn_queue ++ txn ∷ [];
      }) in
      (p, q, r ∙ append_assoc s.txn_queue (txn ∷ []) txns)

  Advance-if :
      {A : Type 0} (t : Bool) (ps qs : List Transaction) (s : SerialScheduler)
      (x y : A × SerialScheduler)
      → Advance b ps s x.1
      → Advance b qs s y.1
      → Advance b (if t then ps else qs) s (if t then x else y).1
  Advance-if true ps qs s x y p q = p
  Advance-if false ps qs s x y p q = q

  -- a batch adds its transactions, in their order, unless the scheduler is final
  pub add_batch-Advance :
      (batch : Batch) (h : Option String) (required : Bool) (s : SerialScheduler)
      → Advance b (if s.final then [] else batch.transactions) s (add_batch batch h required s).1
  unfolding add_batch
  add_batch-Advance batch h required s =
      let (p, q, r) =
        enqueue_keeps batch.header_signature batch.transactions (annotate batch h required s) in
      Advance-if s.final [] batch.transactions s _ _ (Frame-Advance (Frame-refl b s)) (record {
        in_order =
            unfold order annotate in
            rw (p, r)
              (rw⁻¹
                (append_assoc (scheduled_txns s.scheduled_transactions) s.txn_queue
                  batch.transactions)
                (Subsequence-refl (order s ++ batch.transactions)));
        still_failed =
            same_statuses-failed s
              (enqueue batch.header_signature batch.transactions (annotate batch h required s))
              (unfold annotate in q);
      })

  pub finalize-Advance : (s : SerialScheduler) → Advance b [] s (finalize s)
  unfolding finalize
  finalize-Advance s =
      Frame-Advance (Frame-same_statuses b s (record s { final = true }) refl refl refl)

  pub unschedule-Advance :
      (s : SerialScheduler) → Advance b [] s (unschedule_incomplete_batches s).1
  unschedule-Advance s =
      let r = unschedule-Removal s in
      record {
        in_order =
            unfold order in
            rw (r.same_scheduled, append-nil (order s))
              (Subsequence-after (scheduled_txns s.scheduled_transactions) r.fewer);
        still_failed = same_statuses-failed s (unschedule_incomplete_batches s).1 r.same_statuses;
      }
