-- ===== src/Serial/Runs.antt =====
-- Sequences of calls of the scheduler: the step relation, and the schedulers that calls lead to.
use blockchain_node.Prelude.{String, ◌≡◌, Bool, true, Option, List, [], ◌++◌, arith, if◌then◌else◌}
use blockchain_node.Serial.Data.{Transaction, Batch, TxnOutput}
use blockchain_node.Serial.State.{SerialScheduler, new_scheduler, add_batch, finalize}
use blockchain_node.Serial.Next.{has_failed, next_transaction}
use blockchain_node.Serial.Finish.{
  SquashHandler, set_transaction_execution_result, complete, cancel,
}
use blockchain_node.Serial.Unschedule.{unschedule_incomplete_batches}
use blockchain_node.Serial.Order.{
  order, Advance, Frame-Advance, next_transaction-Advance, add_batch-Advance, unschedule-Advance,
  finalize-Advance,
}
use blockchain_node.Serial.Frame.{Frame-set_result, Frame-complete, Frame-cancel}
use blockchain_node.Serial.Subsequence.{Subsequence, nothing, Subsequence-trans, Subsequence-before}

module _ (dependencies : String → List String) {W : Type 0} (squash : SquashHandler W) where
  -- One call, with the transactions that it adds. The world of the squash handler may be changed
  -- by others between two calls.
  pub data Step : List Transaction → SerialScheduler → SerialScheduler → Type 0 where
    add :
        (batch : Batch) (h : Option String) (required : Bool) (s : SerialScheduler)
        → Step (if s.final then [] else batch.transactions) s (add_batch batch h required s).1
    next : (s : SerialScheduler) → Step [] s (next_transaction dependencies s).1
    finish :
        (sig : String) (v : Bool) (c : Option String) (out : TxnOutput) (s : SerialScheduler)
        (w : W)
        → Step [] s (set_transaction_execution_result squash sig v c out s w).1
    unschedule : (s : SerialScheduler) → Step [] s (unschedule_incomplete_batches s).1
    finalizing : (s : SerialScheduler) → Step [] s (finalize s)
    completing :
        (block : Bool) (s : SerialScheduler) (w : W) → Step [] s (complete squash block s w).1
    cancelling : (s : SerialScheduler) (w : W) → Step [] s (cancel squash s w).1

  -- a new scheduler after some calls, with the transactions that were added in all
  pub data Run : List Transaction → SerialScheduler → Type 0 where
    begin : (h : String) (persist : Bool) → Run [] (new_scheduler h persist)
    go :
        {txns added : List Transaction} {s s' : SerialScheduler}
        → Run txns s
        → Step added s s'
        → Run (txns ++ added) s'

  Step-Advance :
      (b : String) {added : List Transaction} {s s' : SerialScheduler}
      → Step added s s'
      → Advance b added s s'
  Step-Advance b (add batch h required s) = add_batch-Advance b batch h required s
  Step-Advance b (next s) = next_transaction-Advance b dependencies s
  Step-Advance b (finish sig v c out s w) =
      Frame-Advance b (Frame-set_result b squash sig v c out s w)
  Step-Advance b (unschedule s) = unschedule-Advance b s
  Step-Advance b (finalizing s) = finalize-Advance b s
  Step-Advance b (completing block s w) = Frame-Advance b (Frame-complete b squash block s w)
  Step-Advance b (cancelling s w) = Frame-Advance b (Frame-cancel b squash s w)

  -- After any calls of a new scheduler, the transactions that it has handed out and then those
  -- that wait are among the transactions that the batches added, in the order of the batches and
  -- of the transactions within a batch, and none twice.
  pub runs_in_order :
      {txns : List Transaction} {s : SerialScheduler} → Run txns s → Subsequence (order s) txns
  runs_in_order (begin h persist) = unfold order new_scheduler in nothing
  runs_in_order (go {txns} {added} {s} {s'} r step) =
      let a = Step-Advance "" step in
      Subsequence-trans a.in_order (Subsequence-before added (runs_in_order r))

  -- A batch that has failed before a call has failed after it.
  pub failed_stays_failed :
      (b : String) {added : List Transaction} {s s' : SerialScheduler}
      → Step added s s'
      → has_failed b s ≡ true
      → has_failed b s' ≡ true
  failed_stays_failed b {added} {s} {s'} step e =
      let a = Step-Advance b step in ground (arith, a.still_failed, e)
