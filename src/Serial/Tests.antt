-- ===== src/Serial/Tests.antt =====
-- Runs of the serial scheduler, and the theorems at concrete inputs.
use blockchain_node.Prelude.{
  arith, String, ◌≡◌, refl, Bool, true, false, Option, none, some, List, [], ◌∷◌, if◌then◌else◌,
  ◌==◌, map,
}
use blockchain_node.Python.{ok}
use blockchain_node.Serial.Data.{Transaction, Batch, TxnInformation, no_output}
use blockchain_node.Serial.State.{SerialScheduler, new_scheduler, add_batch, count, is_cancelled}
use blockchain_node.Serial.Next.{
  has_failed, must_fail, set_batch_result, check_change_last_good_context_id, handle_fail_fast,
  schedule, next_loop, next_transaction,
}
use blockchain_node.Serial.Finish.{
  complete, SquashHandler, record_result, record_verdict, compute_merkle_root,
  calculate_if_required, end_of_batch, take_result, set_transaction_execution_result,
}
use blockchain_node.Serial.Unschedule.{unschedule_incomplete_batches}
use blockchain_node.Serial.Choice.{base_ids, next_transaction-safe}
use blockchain_node.Serial.BatchEnd.{verdict, Taken, batch_end}
use blockchain_node.Serial.Subsequence.{Subsequence}
use blockchain_node.Serial.Iterator.{
  Wake, iterator_next, iterator_loop, iterator_pass, iterator_take,
}
use blockchain_node.Serial.IteratorOrder.{Alone, InOrder, iterator_next-InOrder}
use blockchain_node.Serial.Frame.{Frame-set_result}
use blockchain_node.Serial.Order.{order}
use blockchain_node.Serial.Runs.{
  add, next, unschedule, begin, go, runs_in_order, failed_stays_failed,
}

-- the header of a test is the one transaction that it depends on, if it is not empty
abbrev dependencies : String → List String
dependencies header = if header == "" then [] else header ∷ []

abbrev handler : SquashHandler (Unit {0})
handler root ids persist clean_up w = (ok "new root", w)

abbrev txn_1 : Transaction
txn_1 = record { header_signature = "t1"; header = ""; payload = "a" }

abbrev txn_2 : Transaction
txn_2 = record { header_signature = "t2"; header = ""; payload = "b" }

abbrev txn_3 : Transaction
txn_3 = record { header_signature = "t3"; header = "t1"; payload = "c" }

abbrev txn_4 : Transaction
txn_4 = record { header_signature = "t4"; header = "t3"; payload = "d" }

abbrev batch_1 : Batch
batch_1 = record { header_signature = "b1"; transactions = txn_1 ∷ txn_2 ∷ [] }

abbrev batch_2 : Batch
batch_2 = record { header_signature = "b2"; transactions = txn_3 ∷ [] }

abbrev batch_3 : Batch
batch_3 = record { header_signature = "b3"; transactions = txn_4 ∷ [] }

abbrev loaded : SerialScheduler
unfolding new_scheduler add_batch
loaded =
    (add_batch batch_3 none false
      (add_batch batch_2 (some "new root") false
        (add_batch batch_1 none false (new_scheduler "root" true)).1).1).1

abbrev report : String → Bool → Option String → SerialScheduler → SerialScheduler
unfolding set_transaction_execution_result take_result record_result record_verdict end_of_batch
    calculate_if_required compute_merkle_root
report sig v c s = (set_transaction_execution_result handler sig v c no_output s tt).1

abbrev step : SerialScheduler → SerialScheduler
unfolding next_transaction next_loop must_fail schedule handle_fail_fast set_batch_result
    check_change_last_good_context_id
step s = (next_transaction dependencies s).1

-- the first batch has failed, and its second transaction with it
abbrev failed_first : SerialScheduler
failed_first = step (report "t1" false none (step loaded))

-- the first batch is valid
abbrev valid_first : SerialScheduler
valid_first = report "t2" true (some "c2") (step (report "t1" true (some "c1") (step loaded)))

failed_first_drains :
    map (λ i. i.txn.header_signature) failed_first.scheduled_transactions ≡ "t1" ∷ []
unfolding step report loaded
failed_first_drains = refl

-- the transaction of the second batch depends on the first batch, and the third on the second
third_batch_fails : verdict "b3" (step failed_first) ≡ some false
unfolding step report loaded
third_batch_fails = refl

next_transaction-safe_example :
    (has_failed "b1" (step valid_first) ≡ false)
    × ((step valid_first).in_progress_transaction ≡ some "t3")
    × (some "c2" ∷ [] ≡ base_ids (step valid_first).previous_context_id)
    × ("root" ≡ (step valid_first).previous_state_hash)
unfolding next_transaction next_loop must_fail schedule report step loaded
next_transaction-safe_example =
    next_transaction-safe dependencies valid_first (step valid_first)
      (record { txn = txn_3; state_hash = "root"; base_context_ids = some "c2" ∷ [] }) "t1" "b1"
      refl refl refl

-- the first of two transactions has failed
batch_end_example : Taken "t1" "b1" false none (step loaded) failed_first
unfolding step report loaded
batch_end_example = batch_end handler "t1" "b1" false none no_output (step loaded) tt refl refl refl

runs_in_order_example :
    Subsequence
      (order (unschedule_incomplete_batches (step loaded)).1)
      (txn_1 ∷ txn_2 ∷ txn_3 ∷ txn_4 ∷ [])
unfolding new_scheduler step loaded next_transaction add_batch
runs_in_order_example = runs_in_order dependencies handler (
    go
      (go
        (go
          (go (go (begin "root" true) (add batch_1 none false _))
            (add batch_2 (some "new root") false _))
          (add batch_3 none false _))
        (next _))
      (unschedule _))

failed_stays_failed_example : has_failed "b1" (unschedule_incomplete_batches failed_first).1 ≡ true
unfolding step report loaded
failed_stays_failed_example =
    failed_stays_failed dependencies handler "b1" (unschedule failed_first) refl

abbrev first_info : TxnInformation
first_info = record { txn = txn_1; state_hash = "root"; base_context_ids = [] }

-- the first transaction reports while the iterator waits
abbrev first_reports : Wake (Unit {0})
first_reports s w = (report "t1" true (some "c1") s, w)

first_reports-Alone : Alone (first_reports ∷ [])
unfolding report count
first_reports-Alone = (
  λ s w.
      ground
        (arith, (Frame-set_result "" handler "t1" true (some "c1") no_output s tt).same_scheduled),
  tt,
)

abbrev second_info : TxnInformation
second_info = record { txn = txn_2; state_hash = "root"; base_context_ids = some "c1" ∷ [] }

iterator_next-InOrder_example :
    InOrder 1 2 (step (report "t1" true (some "c1") (step loaded))) second_info
unfolding iterator_next iterator_loop iterator_pass iterator_take complete count step loaded report
    next_transaction is_cancelled
iterator_next-InOrder_example =
    iterator_next-InOrder dependencies handler 1 2 (first_reports ∷ []) (step loaded)
      (step (report "t1" true (some "c1") (step loaded))) tt tt second_info first_reports-Alone
      (omega arith) refl

-- another iterator takes the first transaction, and it reports
abbrev others_take : Wake (Unit {0})
others_take s w = (report "t1" true (some "c1") (step loaded), w)

-- An iterator that waits at the start returns the second transaction then, and skips the first.
iterator_skips :
    let (out, next_index, s', w') =
      iterator_next dependencies handler 0 (others_take ∷ []) (new_scheduler "root" true) tt in
    (out ≡ ok second_info) × (next_index ≡ 1)
unfolding iterator_next iterator_loop iterator_pass iterator_take complete count step loaded report
    next_transaction is_cancelled new_scheduler
iterator_skips = (refl, refl)
