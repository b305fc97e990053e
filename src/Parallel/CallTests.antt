-- ===== src/Parallel/CallTests.antt =====
-- Calls of the parallel scheduler at given states, and the theorems at concrete inputs.
use blockchain_node.Prelude.{
  Option, String, ◌≡◌, refl, true, false, none, some, [], ◌∷◌, take, reverse, ℕ, ◌+◌,
}
use blockchain_node.Python.{ok, Result}
use blockchain_node.Dict
use blockchain_node.Dict.{Dict}
use blockchain_node.Serial.Data.{TxnInformation, TxnExecutionResult, no_output, new_txn_result}
use blockchain_node.Parallel.State.{
  ParallelScheduler, new_parallel_scheduler, add_batch, finalize, is_transaction_in_schedule,
}
use blockchain_node.Parallel.Results.{
  all_have_results, txn_has_result, is_in_same_batch, is_predecessor_of_possible_successor,
  is_txn_to_replay, replay, replay_successors, replay_batch,
  remove_subsequent_result_because_of_batch_failure, reschedule_if_outstanding, advance_least,
  set_least_batch_id, keep_result, set_transaction_execution_result,
}
use blockchain_node.Parallel.Replays.{IsSuccessor}
use blockchain_node.Parallel.Calls.{Run, begin, go, add, report, finalizing, next_transaction_ends}
use blockchain_node.Parallel.Failures.{failure_replays}
use blockchain_node.Parallel.Predecessors.{is_predecessor_of_other}
use blockchain_node.Parallel.Next.{
  all_in_batch_have_results, any_in_batch_are_invalid, any_invalid, can_fail_fast, keyed,
  sort_latest, insert_latest, index_of_txn_in_schedule, lacks_result, some_unfinished,
  has_predecessors, is_outstanding, results_are_valid, txn_is_in_valid_batch,
  dependency_not_processed, txn_failed_by_dep, decide_deps, decide, choose, has_context,
  prior_contexts, get_initial_state_for_transaction, hand_out, next_transaction,
}
use blockchain_node.Parallel.Runnable.{Runnable}
use blockchain_node.Parallel.Handout.{HasEntry, next_transaction-Runnable}
use blockchain_node.Parallel.Squash.{
  SquashHandler, is_added, collect_from_batch, collect_contexts, get_contexts_for_squash,
}
use blockchain_node.Parallel.Contexts.{valid_contexts, squash_contexts}
use blockchain_node.Parallel.Tests.{parse, txn_1, txn_2, txn_3, batch_1, batch_2, small}

-- `t1` and `t2` have valid results, and `t3` waits
abbrev result : String → String → TxnExecutionResult
result signature c = record {
  signature = signature;
  is_valid = true;
  context_id = some c;
  state_hash = none;
  state_changes = [];
  events = [];
  output_data = [];
  error_message = "";
  error_data = [];
}

abbrev waiting : ParallelScheduler
waiting = record {
  first_state_hash = "first";
  predecessor_tree = small;
  txn_predecessors = ("t1", []) ∷ ("t2", "t1" ∷ []) ∷ ("t3", "t1" ∷ "t2" ∷ []) ∷ [];
  always_persist = true;
  predecessor_chain = ("t1", []) ∷ ("t2", "t1" ∷ []) ∷ ("t3", "t1" ∷ "t2" ∷ []) ∷ [];
  scheduled = "t1" ∷ "t2" ∷ [];
  outstanding = [];
  least_batch_id_wo_results = some "b2";
  scheduled_txn_info = [];
  batches = batch_1 ∷ batch_2 ∷ [];
  batches_with_state_hash = ("b2", "root") ∷ [];
  batches_by_id =
      ("b1", record { batch = batch_1; required = false; preserve = false })
      ∷ ("b2", record { batch = batch_2; required = true; preserve = true })
      ∷ [];
  batches_by_txn_id = ("t1", batch_1) ∷ ("t2", batch_1) ∷ ("t3", batch_2) ∷ [];
  txn_results = ("t1", result "t1" "c1") ∷ ("t2", result "t2" "c2") ∷ [];
  txns_available = ("t3", txn_3) ∷ [];
  transactions = ("t1", txn_1) ∷ ("t2", txn_2) ∷ ("t3", txn_3) ∷ [];
  cancelled = false;
  final = false;
}

abbrev info_3 : TxnInformation
info_3 = record { txn = txn_3; state_hash = "first"; base_context_ids = some "c2" ∷ some "c1" ∷ [] }

abbrev after_3 : ParallelScheduler
after_3 = record waiting {
  scheduled = "t1" ∷ "t2" ∷ "t3" ∷ [];
  txns_available = [];
  scheduled_txn_info = Dict.insert "t3" info_3 [];
}

next_run : next_transaction parse 9 waiting ≡ some (ok (some info_3), after_3)
unfolding next_transaction choose decide has_predecessors some_unfinished lacks_result
    is_outstanding decide_deps dependency_not_processed txn_failed_by_dep all_in_batch_have_results
    any_in_batch_are_invalid any_invalid all_have_results can_fail_fast has_context
    txn_is_in_valid_batch results_are_valid hand_out get_initial_state_for_transaction
    prior_contexts keyed sort_latest insert_latest index_of_txn_in_schedule
next_run = refl

next_transaction-Runnable_example :
    (info_3.state_hash ≡ after_3.first_state_hash)
    × ((txn_id : String) × (HasEntry txn_id txn_3 waiting.txns_available
          × Runnable txn_id ("t1" ∷ []) after_3))
next_transaction-Runnable_example =
    next_transaction-Runnable parse 9 waiting after_3 info_3 next_run

abbrev finished : ParallelScheduler
finished = record after_3 { txn_results = Dict.insert "t3" (result "t3" "c3") waiting.txn_results }

squash_run : get_contexts_for_squash "b2" finished ≡ ok (some "c3" ∷ some "c2" ∷ some "c1" ∷ [])
unfolding get_contexts_for_squash collect_contexts collect_from_batch is_added
squash_run = refl

squash_contexts_example :
    (some "c3" ∷ some "c2" ∷ some "c1" ∷ [])
    ≡ valid_contexts finished.txn_results (reverse (take 2 finished.batches))
squash_contexts_example =
    squash_contexts "b2" (record { batch = batch_2; required = true; preserve = true }) 1
      (some "c3" ∷ some "c2" ∷ some "c1" ∷ []) finished refl refl squash_run

-- `t3` has a result when `t1` fails
abbrev failing : ParallelScheduler
failing = record finished { txn_results = ("t2", result "t2" "c2") ∷ ("t3", result "t3" "c3") ∷ [] }

abbrev failed : TxnExecutionResult
failed = record {
  signature = "t1";
  is_valid = false;
  context_id = none;
  state_hash = none;
  state_changes = [];
  events = [];
  output_data = [];
  error_message = "";
  error_data = [];
}

abbrev replayed : ParallelScheduler
replayed = record failing {
  txn_results = ("t2", result "t2" "c2") ∷ ("t1", failed) ∷ [];
  scheduled = "t1" ∷ "t2" ∷ [];
  txns_available = ("t3", txn_3) ∷ [];
}

failure_run :
    set_transaction_execution_result "t1" false (some "c1") no_output failing ≡ (ok tt, replayed)
unfolding set_transaction_execution_result is_transaction_in_schedule set_least_batch_id
    advance_least remove_subsequent_result_because_of_batch_failure replay_batch replay_successors
    is_txn_to_replay is_predecessor_of_possible_successor is_predecessor_of_other is_in_same_batch
    replay txn_has_result keep_result reschedule_if_outstanding new_txn_result
failure_run = refl

t3-IsSuccessor : IsSuccessor "t1" "t3" failing
unfolding is_transaction_in_schedule is_in_same_batch
t3-IsSuccessor = (refl, refl, refl)

failure_replays_example : Dict.has "t3" replayed.txn_results ≡ false
failure_replays_example =
    failure_replays "t1" (some "c1") no_output batch_1 "t1" "t3" failing replayed failure_run refl
      refl refl refl refl t3-IsSuccessor

-- A batch is added, its first transaction gets a result, and the scheduler is finalized.
abbrev no_squash : SquashHandler (Unit {0})
no_squash root ids persist clean_up w = (ok "root", w)

abbrev added : ParallelScheduler
added = (add_batch parse batch_1 none false (new_parallel_scheduler "first" true)).1

abbrev reported : ParallelScheduler
reported = (set_transaction_execution_result "t1" true (some "c1") no_output added).1

new-open : (new_parallel_scheduler "first" true).final ≡ false
unfolding new_parallel_scheduler
new-open = refl

calls-Run : Run parse no_squash (txn_1 ∷ txn_2 ∷ []) (finalize reported)
calls-Run =
    go
      (go
        (go (begin "first" true)
          (add batch_1 none false (new_parallel_scheduler "first" true) new-open))
        (report "t1" true (some "c1") no_output added))
      (finalizing reported)

next_transaction_ends_example :
    (fuel : ℕ) × ((more : ℕ)
      → (r : Result (Option TxnInformation) × ParallelScheduler) × (next_transaction parse
            (fuel + more)
            (finalize reported)
          ≡ some r))
next_transaction_ends_example = next_transaction_ends parse no_squash calls-Run (refl, (refl, tt))
