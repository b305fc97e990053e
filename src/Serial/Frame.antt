-- ===== src/Serial/Frame.antt =====
-- The calls that take in results leave the order of the transactions alone, and a failed batch
-- stays failed.
use blockchain_node.Prelude.{
  String, ◌≡◌, refl, ◌∙◌, Bool, true, false, not, ◌&&◌, Option, none, some, List, [], ◌∷◌, arith,
  eq_iff, if◌then◌else◌, Bool-cases, Option-cases, inl, inr, contains, last, reverse,
}
use blockchain_node.Python.{Result, ok, err, blocked, Result-cases}
use blockchain_node.Dict
use blockchain_node.Dict.{Dict, get-insert, contains-keys, get-erase}
use blockchain_node.Serial.Data.{Transaction, TxnOutput}
use blockchain_node.Serial.State.{SerialScheduler, is_complete}
use blockchain_node.Serial.Next.{
  has_failed, put_status, set_batch_result, check_change_last_good_context_id, handle_fail_fast,
}
use blockchain_node.Serial.Finish.{
  SquashHandler, same_hash, record_result, record_verdict, compute_merkle_root,
  calculate_if_required, end_of_batch, take_result, set_transaction_execution_result,
  set_last_valid, calculate_if_not_done, answer, truthy, complete, cancel,
}
use blockchain_node.Serial.BatchEnd.{calculate_keeps, record_result_keeps}

-- Nothing is scheduled or queued, and `b` has failed afterwards if it had before.
pub record Frame (b : String) (s s' : SerialScheduler) : Type 0 where
  pub same_scheduled : s'.scheduled_transactions ≡ s.scheduled_transactions
  pub same_queue : s'.txn_queue ≡ s.txn_queue
  pub still_failed : (has_failed b s && not (has_failed b s')) ≡ false

module _ (b : String) where
  pub Frame-refl : (s : SerialScheduler) → Frame b s s
  Frame-refl s = record { same_scheduled = refl; same_queue = refl; still_failed = ground arith }

  pub Frame-trans : {s t u : SerialScheduler} → Frame b s t → Frame b t u → Frame b s u
  Frame-trans f g = record {
    same_scheduled = g.same_scheduled ∙ f.same_scheduled;
    same_queue = g.same_queue ∙ f.same_queue;
    still_failed = ground (arith, f.still_failed, g.still_failed);
  }

  -- only the verdicts matter for `Frame`
  pub Frame-same_statuses :
      (s s' : SerialScheduler)
      → s'.scheduled_transactions ≡ s.scheduled_transactions
      → s'.txn_queue ≡ s.txn_queue
      → s'.batch_statuses ≡ s.batch_statuses
      → Frame b s s'
  Frame-same_statuses s s' p q r = record {
    same_scheduled = p;
    same_queue = q;
    still_failed = rw r (ground arith);
  }

  Frame-fail :
      (c : String) (h : Option String) (s : SerialScheduler) → Frame b s (put_status c false h s)
  Frame-fail c h s = record {
    same_scheduled = refl;
    same_queue = refl;
    still_failed =
        ground
          (arith, get-insert c b (record { is_valid = false; state_hash = h }) s.batch_statuses);
  }

  Frame-pass :
      (c : String) (h : Option String) (s : SerialScheduler)
      → has_failed c s ≡ false
      → Frame b s (put_status c true h s)
  Frame-pass c h s p = record {
    same_scheduled = refl;
    same_queue = refl;
    still_failed = ground (
      arith,
      eq_iff c b,
      p,
      get-insert c b (record { is_valid = true; state_hash = h }) s.batch_statuses,
    );
  }

  Frame-set_batch_result :
      (t : String) (h : Option String) (s : SerialScheduler)
      → Frame b s (set_batch_result t false h s).1
  unfolding set_batch_result
  Frame-set_batch_result t h s = elim (Option-cases (Dict.get t s.txn_to_batch)) [
    | inl e ↦ rw (e, set_batch_result) (Frame-refl s)
    | inr (c, e) ↦ elim (Option-cases (Dict.get c s.batch_by_id)) [
      | inl q ↦ rw (e, set_batch_result) (rw (q, set_batch_result) (Frame-fail c h s))
      | inr (a, q) ↦
          rw (e, set_batch_result)
            (rw (q, set_batch_result)
              (let f = Frame-fail c h s in
                record { same_scheduled = refl; same_queue = refl; still_failed = f.still_failed }))
    ]
  ]

  Frame-check_change :
      (txn : Transaction) (s : SerialScheduler)
      → Frame b s (check_change_last_good_context_id txn s)
  unfolding check_change_last_good_context_id
  Frame-check_change txn s = elim (Bool-cases (contains s.last_in_batch txn.header_signature)) [
    | inl e ↦
        rw (e, check_change_last_good_context_id)
          (let f = Frame-refl s in
            record { same_scheduled = refl; same_queue = refl; still_failed = f.still_failed })
    | inr e ↦ rw (e, check_change_last_good_context_id) (Frame-refl s)
  ]

  pub Frame-handle_fail_fast :
      (txn : Transaction) (s : SerialScheduler) → Frame b s (handle_fail_fast txn s).1
  unfolding handle_fail_fast
  Frame-handle_fail_fast txn s =
      let out = set_batch_result txn.header_signature false none s in
      let f = Frame-set_batch_result txn.header_signature none s in
      elim (Result-cases out.0) [
        | inl (x, r) ↦ rw (r, handle_fail_fast) (Frame-trans f (Frame-check_change txn out.1))
        | inr (inl (x, r)) ↦ rw (r, handle_fail_fast) f
        | inr (inr r) ↦ rw (r, handle_fail_fast) f
      ]

  Frame-set_last_valid :
      (t_ids : List String) (h : Option String) (s s' : SerialScheduler)
      → set_last_valid t_ids h s ≡ ok s'
      → Frame b s s'
  unfolding set_last_valid
  Frame-set_last_valid [] h s s' q = let e : s' ≡ s = ground (arith, q) in rw e (Frame-refl s)
  Frame-set_last_valid (t ∷ t_ids) h s s' q = elim (Option-cases (Dict.get t s.txn_to_batch)) [
    | inl e ↦ absurd (ground (arith, e, q))
    | inr (c, e) ↦ elim (Option-cases (Dict.get c s.batch_statuses)) [
      | inl p ↦ absurd (ground (arith, e, p, q))
      | inr (st, p) ↦ elim (Bool-cases st.is_valid) [
        | inl v ↦
            let same : s' ≡ put_status c true h s = ground (arith, e, p, v, q) in
            rw same (Frame-pass c h s (ground (arith, p, v)))
        | inr v ↦ Frame-set_last_valid t_ids h s s' (ground (arith, e, p, v, q))
      ]
    ]
  ]

  module _ {W : Type 0} (squash : SquashHandler W) where
    Frame-calculate_if_required :
        (c : String) (s : SerialScheduler) (w : W)
        → Frame b s (calculate_if_required squash c s w).1
    Frame-calculate_if_required c s w =
        let (_, _, p, q, r) = calculate_keeps squash c s w in
        Frame-same_statuses s (calculate_if_required squash c s w).1 q r p

    Frame-end_of_batch :
        (c : String) (s : SerialScheduler) (w : W) → Frame b s (end_of_batch squash c s w).1
    unfolding end_of_batch
    Frame-end_of_batch c s w =
        let s1 = record s { previous_valid_batch_c_id = s.previous_context_id } in
        let out = calculate_if_required squash c s1 w in
        let f =
          Frame-trans (Frame-same_statuses s s1 refl refl refl)
            (Frame-calculate_if_required c s1 w) in
        elim (Option-cases (Dict.get c s.batch_statuses)) [
          | inl e ↦ elim (Result-cases out.0) [
            | inl (h, r) ↦
                rw (e, end_of_batch)
                  (rw (r, end_of_batch)
                    (Frame-trans f (
                      Frame-pass c h out.1 (
                        let (_, _, p, _, _) = calculate_keeps squash c s1 w in
                        ground (arith, p, e)))))
            | inr (inl (x, r)) ↦ rw (e, end_of_batch) (rw (r, end_of_batch) f)
            | inr (inr r) ↦ rw (e, end_of_batch) (rw (r, end_of_batch) f)
          ]
          | inr (a, e) ↦
              rw (e, end_of_batch)
                (Frame-same_statuses s
                  (record s { previous_context_id = s.previous_valid_batch_c_id }) refl refl refl)
        ]

    Frame-record_verdict :
        (c : String) (v : Bool) (x : Option String) (s : SerialScheduler)
        → Frame b s (record_verdict c v x s)
    unfolding record_verdict
    Frame-record_verdict c true x s =
        let f = Frame-refl s in
        record { same_scheduled = refl; same_queue = refl; still_failed = f.still_failed }
    Frame-record_verdict c false x s = Frame-fail c none s

    Frame-take_result :
        (sig : String) (v : Bool) (x : Option String) (out : TxnOutput) (s : SerialScheduler)
        (w : W)
        → Frame b s (take_result squash sig v x out s w).1
    unfolding take_result
    Frame-take_result sig v x out s w = elim (Option-cases (Dict.get sig s.txn_to_batch)) [
      | inl e ↦ rw (e, take_result) (Frame-refl s)
      | inr (c, e) ↦ elim (Result-cases (record_result sig v x out s)) [
        | inl (s2, r) ↦
            let (rs, q) = record_result_keeps sig v x out s s2 r in
            let f : Frame b s s2 =
              rw q (Frame-same_statuses s (record s { txn_results = rs }) refl refl refl) in
            let g = Frame-trans f (Frame-record_verdict c v x s2) in
            rw (e, take_result) (rw (r, take_result) (Frame-last c sig s2 v x w g))
        | inr (inl (y, r)) ↦ rw (e, take_result) (rw (r, take_result) (Frame-refl s))
        | inr (inr r) ↦ rw (e, take_result) (rw (r, take_result) (Frame-refl s))
      ]
    ]
      where
        Frame-last :
            (c sig : String) (s2 : SerialScheduler) (v : Bool) (x : Option String) (w : W)
            → Frame b s (record_verdict c v x s2)
            → Frame b s
                (if contains (record_verdict c v x s2).last_in_batch sig
                  then end_of_batch squash c (record_verdict c v x s2) w
                  else (ok tt, record_verdict c v x s2, w)).1
        Frame-last c sig s2 v x w g =
            elim (Bool-cases (contains (record_verdict c v x s2).last_in_batch sig)) [
              | inl l ↦ rw l (Frame-trans g (Frame-end_of_batch c (record_verdict c v x s2) w))
              | inr l ↦ rw l g
            ]

    pub Frame-set_result :
        (sig : String) (v : Bool) (x : Option String) (out : TxnOutput) (s : SerialScheduler)
        (w : W)
        → Frame b s (set_transaction_execution_result squash sig v x out s w).1
    unfolding set_transaction_execution_result
    Frame-set_result sig v x out s w = elim (Bool-cases (same_hash sig s.in_progress_transaction)) [
      | inl e ↦
          rw (e, set_transaction_execution_result)
            (Frame-trans
              (Frame-same_statuses s (record s { in_progress_transaction = none }) refl refl refl)
              (Frame-take_result sig v x out (record s { in_progress_transaction = none }) w))
      | inr e ↦ rw (e, set_transaction_execution_result) (Frame-refl s)
    ]

    Frame-if :
        {A : Type 0} (t : Bool) (s : SerialScheduler) (x y : Result A × SerialScheduler × W)
        → Frame b s x.1
        → Frame b s y.1
        → Frame b s (if t then x else y).1
    Frame-if true s x y f g = f
    Frame-if false s x y f g = g

    Frame-answer :
        (s : SerialScheduler) (x : Result (Unit {0}) × SerialScheduler × W)
        → Frame b s x.1
        → Frame b s (answer true x).1
    Frame-answer s (ok u, s', w) f = f
    Frame-answer s (err e, s', w) f = f
    Frame-answer s (blocked, s', w) f = f

    Frame-calculate_if_not_done :
        (s : SerialScheduler) (w : W) → Frame b s (calculate_if_not_done squash s w).1
    unfolding calculate_if_not_done
    Frame-calculate_if_not_done s w =
        Frame-if s.already_calculated s _ _ (Frame-refl s)
          (elim (Option-cases (last s.last_in_batch)) [
            | inl l ↦ rw (l, calculate_if_not_done) (Frame-refl s)
            | inr (t, l) ↦ elim (Option-cases (Dict.get t s.txn_to_batch)) [
              | inl g ↦ rw (l, calculate_if_not_done) (rw (g, calculate_if_not_done) (Frame-refl s))
              | inr (c, g) ↦
                  rw (l, calculate_if_not_done)
                    (rw (g, calculate_if_not_done)
                      (let out =
                          compute_merkle_root squash (Dict.get c s.required_state_hashes) s w in
                        let s1 = record s { already_calculated = true } in
                        let f = Frame-same_statuses s s1 refl refl refl in
                        elim (Result-cases out.0) [
                          | inl (h, r) ↦
                              elim (Result-cases (set_last_valid (reverse s.last_in_batch) h s1)) [
                                | inl (s2, q) ↦
                                    rw (r, calculate_if_not_done)
                                      (rw (q, calculate_if_not_done)
                                        (Frame-trans f (
                                          Frame-set_last_valid (reverse s.last_in_batch) h s1 s2
                                            q)))
                                | inr (inl (x, q)) ↦
                                    rw (r, calculate_if_not_done) (rw (q, calculate_if_not_done) f)
                                | inr (inr q) ↦
                                    rw (r, calculate_if_not_done) (rw (q, calculate_if_not_done) f)
                              ]
                          | inr (inl (x, r)) ↦ rw (r, calculate_if_not_done) (Frame-refl s)
                          | inr (inr r) ↦ rw (r, calculate_if_not_done) (Frame-refl s)
                        ]))
            ]
          ])

    pub Frame-complete :
        (block : Bool) (s : SerialScheduler) (w : W) → Frame b s (complete squash block s w).1
    unfolding complete
    Frame-complete block s w = Frame-if (not s.final) s _ _ (Frame-refl s) (
        Frame-if (is_complete s) s _ _
          (Frame-answer s (calculate_if_not_done squash s w) (Frame-calculate_if_not_done s w))
          (Frame-if block s _ _ (Frame-refl s) (Frame-refl s)))

    pub Frame-cancel : (s : SerialScheduler) (w : W) → Frame b s (cancel squash s w).1
    unfolding cancel
    Frame-cancel s w =
        let f = Frame-same_statuses s (record s { cancelled = true }) refl refl refl in
        let out =
          squash s.previous_state_hash
            (elim s.previous_context_id [ none ↦ [] | some c_id ↦ c_id ∷ [] ]) false true w in
        Frame-if (not s.cancelled && not s.final && truthy s.previous_context_id) s _
          (ok tt, record s { cancelled = true }, w)
          (elim (Result-cases out.0) [
            | inl (h, r) ↦ rw (r, cancel) f
            | inr (inl (x, r)) ↦ rw (r, cancel) (Frame-refl s)
            | inr (inr r) ↦ rw (r, cancel) (Frame-refl s)
          ])
          f
