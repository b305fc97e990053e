-- ===== src/Serial/BatchEnd.antt =====
-- What a reported result does to the verdict on the batch, and to the context that the next
-- transaction builds on.
use blockchain_node.Prelude.{
  String, ◌≡◌, refl, ◌∙◌, Bool, true, false, not, ◌&&◌, ◌||◌, Option, none, some, arith, eq_refl,
  if◌then◌else◌, Bool-cases, Option-cases, inl, inr, contains,
}
use blockchain_node.Python.{Result, ok, is_ok, Result-cases}
use blockchain_node.Dict
use blockchain_node.Dict.{Dict, get-insert, contains-keys, get-erase}
use blockchain_node.Serial.Data.{TxnExecutionResult, TxnOutput, new_txn_result}
use blockchain_node.Serial.State.{SerialScheduler}
use blockchain_node.Serial.Finish.{
  SquashHandler, record_result, record_verdict, calculate_if_required, end_of_batch, take_result,
  set_transaction_execution_result,
}

-- the verdict on a batch, if there is one
abbrev pub verdict : String → SerialScheduler → Option Bool
verdict b s = elim (Dict.get b s.batch_statuses) [ none ↦ none | some r ↦ some r.is_valid ]

pub record_result_keeps :
    (sig : String) (is_valid : Bool) (context_id : Option String) (out : TxnOutput)
    (s s' : SerialScheduler)
    → record_result sig is_valid context_id out s ≡ ok s'
    → (r : Dict TxnExecutionResult) × (s' ≡ record s { txn_results = r })
unfolding record_result
record_result_keeps sig is_valid context_id out s s' h =
    elim (Bool-cases (Dict.has sig s.txn_results)) [
      | inl e ↦ (s.txn_results, ground (arith, e, h))
      | inr e ↦
          elim (Result-cases (
            new_txn_result sig is_valid (if is_valid then context_id else none)
              (if is_valid then some s.previous_state_hash else none) out)) [
                | inl (x, q) ↦ (Dict.insert sig x s.txn_results, ground (arith, e, q, h))
                | inr (inl (x, q)) ↦ absurd (ground (arith, e, q, h))
                | inr (inr q) ↦ absurd (ground (arith, e, q, h))
              ]
    ]

last-record_verdict :
    (b : String) (is_valid : Bool) (context_id : Option String) (s : SerialScheduler)
    → (record_verdict b is_valid context_id s).last_in_batch ≡ s.last_in_batch
unfolding record_verdict
last-record_verdict b is_valid context_id s = ground arith

not_ok :
    {W : Type 0} {x y : Result (Unit {0}) × SerialScheduler × W}
    → x ≡ y
    → is_ok y.0 ≡ false
    → x.0 ≡ ok tt
    → ⊥
not_ok p q h = ground (arith, p, q, h)

-- what a report does to the verdict, to the last valid context and to the next context
abbrev pub Taken :
    String → String → Bool → Option String → SerialScheduler → SerialScheduler → Type 0
Taken sig b is_valid context_id s s' =
    let is_last = contains s.last_in_batch sig in
    let has_verdict = Dict.has b s.batch_statuses in
    (verdict b s' ≡ (
      if not is_valid
      then some false
      else if has_verdict
      then verdict b s
      else if is_last
      then some true
      else none))
    × (s'.previous_valid_batch_c_id ≡ (
        if is_last && (is_valid && not has_verdict)
        then context_id
        else s.previous_valid_batch_c_id))
    × (s'.previous_context_id ≡ (
        if is_last
        then s'.previous_valid_batch_c_id
        else if is_valid
        then context_id
        else s.previous_context_id))

module _ {W : Type 0} (squash : SquashHandler W) where
  pub calculate_keeps :
      (b : String) (s : SerialScheduler) (w : W)
      → ((calculate_if_required squash b s w).1.previous_context_id ≡ s.previous_context_id)
        × ((calculate_if_required squash b s w).1.previous_valid_batch_c_id
            ≡ s.previous_valid_batch_c_id)
        × ((calculate_if_required squash b s w).1.batch_statuses ≡ s.batch_statuses)
        × ((calculate_if_required squash b s w).1.scheduled_transactions ≡ s.scheduled_transactions)
        × ((calculate_if_required squash b s w).1.txn_queue ≡ s.txn_queue)
  unfolding calculate_if_required
  calculate_keeps b s w = ground arith

  end_of_batch_lem :
      (b : String) (s : SerialScheduler) (w : W)
      → (end_of_batch squash b s w).0 ≡ ok tt
      → ((end_of_batch squash b s w).1.previous_context_id
          ≡ (end_of_batch squash b s w).1.previous_valid_batch_c_id)
        × ((end_of_batch squash b s w).1.previous_valid_batch_c_id ≡ (
            if Dict.has b s.batch_statuses
            then s.previous_valid_batch_c_id
            else s.previous_context_id))
        × (verdict b (end_of_batch squash b s w).1
            ≡ (if Dict.has b s.batch_statuses then verdict b s else some true))
  unfolding end_of_batch
  end_of_batch_lem b s w h =
      let s1 = record s { previous_valid_batch_c_id = s.previous_context_id } in
      let (k1, k2, k3, _, _) = calculate_keeps b s1 w in
      elim (Option-cases (Dict.get b s.batch_statuses)) [
        | inl e ↦ elim (Result-cases (calculate_if_required squash b s1 w).0) [
          | inl (x, r) ↦ ground (
            arith,
            e,
            r,
            k1,
            k2,
            k3,
            eq_refl b,
            get-insert b b (record { is_valid = true; state_hash = x })
                (calculate_if_required squash b s1 w).1.batch_statuses,
          )
          | inr (inl (x, r)) ↦ ground (arith, e, r, h)
          | inr (inr r) ↦ ground (arith, e, r, h)
        ]
        | inr (status, e) ↦ ground (arith, e)
      ]

  end_after_verdict :
      (sig b : String) (is_valid : Bool) (context_id : Option String) (s : SerialScheduler) (w : W)
      → (end_of_batch squash b (record_verdict b is_valid context_id s) w).0 ≡ ok tt
      → let s' = (end_of_batch squash b (record_verdict b is_valid context_id s) w).1 in
        (s'.previous_context_id ≡ s'.previous_valid_batch_c_id)
        × (s'.previous_valid_batch_c_id ≡ (
            if Dict.has b s.batch_statuses || not is_valid
            then s.previous_valid_batch_c_id
            else context_id))
        × (verdict b s' ≡ (
            if not is_valid
            then some false
            else if Dict.has b s.batch_statuses
            then verdict b s
            else some true))
  unfolding record_verdict
  end_after_verdict sig b true context_id s w h =
      ground (arith, end_of_batch_lem b (record_verdict b true context_id s) w h)
  end_after_verdict sig b false context_id s w h = ground (
    arith,
    end_of_batch_lem b (record_verdict b false context_id s) w h,
    eq_refl b,
    get-insert b b (record { is_valid = false; state_hash = none }) s.batch_statuses,
  )

  -- the verdict and the next context where the batch goes on
  middle :
      (b : String) (is_valid : Bool) (context_id : Option String) (s : SerialScheduler)
      → let s' = record_verdict b is_valid context_id s in
        (verdict b s' ≡ (
          if not is_valid
          then some false
          else if Dict.has b s.batch_statuses
          then verdict b s
          else none))
        × (s'.previous_valid_batch_c_id ≡ s.previous_valid_batch_c_id)
        × (s'.previous_context_id ≡ (if is_valid then context_id else s.previous_context_id))
  unfolding record_verdict
  middle b true context_id s = elim (Option-cases (Dict.get b s.batch_statuses)) [
    | inl e ↦ (ground (arith, e), refl, refl)
    | inr (status, e) ↦ (ground (arith, e), refl, refl)
  ]
  middle b false context_id s = (
    ground (
      arith,
      eq_refl b,
      get-insert b b (record { is_valid = false; state_hash = none }) s.batch_statuses,
    ),
    refl,
    refl,
  )

  -- what follows `record_result`
  abbrev after_record :
      String
      → String
      → Bool
      → Option String
      → SerialScheduler
      → W
      → Result (Unit {0}) × SerialScheduler × W
  after_record sig b is_valid context_id s w =
      let s' = record_verdict b is_valid context_id s in
      if contains s.last_in_batch sig then end_of_batch squash b s' w else (ok tt, s', w)

  take_result_on :
      (sig b : String) (is_valid : Bool) (context_id : Option String) (out : TxnOutput)
      (s s2 : SerialScheduler) (rs : Dict TxnExecutionResult) (w : W)
      → Dict.get sig s.txn_to_batch ≡ some b
      → record_result sig is_valid context_id out s ≡ ok s2
      → s2 ≡ record s { txn_results = rs }
      → take_result squash sig is_valid context_id out s w
        ≡ after_record sig b is_valid context_id (record s { txn_results = rs }) w
  unfolding take_result
  take_result_on sig b is_valid context_id out s s2 rs w e r q =
      rw (e, take_result) (rw (r, take_result) (rw q (rw last-record_verdict refl)))

  after_record-Taken :
      (sig b : String) (is_valid : Bool) (context_id : Option String) (s : SerialScheduler) (w : W)
      → (after_record sig b is_valid context_id s w).0 ≡ ok tt
      → Taken sig b is_valid context_id s (after_record sig b is_valid context_id s w).1
  after_record-Taken sig b is_valid context_id s w h =
      elim (Bool-cases (contains s.last_in_batch sig)) [
        | inl l ↦
            let returned : (end_of_batch squash b (record_verdict b is_valid context_id s) w).0
                ≡ ok tt =
              ground (arith, h, l) in
            let (x, y, z) = end_after_verdict sig b is_valid context_id s w returned in
            rw l (ground (arith, z), ground (arith, y), x)
        | inr l ↦ rw l (middle b is_valid context_id s)
      ]

  accept_result :
      (sig : String) (is_valid : Bool) (context_id : Option String) (out : TxnOutput)
      (s : SerialScheduler) (w : W)
      → s.in_progress_transaction ≡ some sig
      → set_transaction_execution_result squash sig is_valid context_id out s w
        ≡ take_result squash sig is_valid context_id out
            (record s { in_progress_transaction = none })
            w
  unfolding set_transaction_execution_result
  accept_result sig is_valid context_id out s w p =
      rw (p, set_transaction_execution_result) (rw eq_refl refl)

  -- Where a reported result of the transaction in progress is taken and the call returns: A failure
  -- decides the batch as invalid. Without one a verdict stays, and a batch without a verdict is
  -- valid if the transaction is its last one, and else has none. The context of the last valid
  -- batch becomes that of the result if the transaction is the last one of its batch, is valid and
  -- the batch had no verdict. The next transaction builds on the context of the last valid batch
  -- after the last transaction of a batch, and before that on the context of the result, or after
  -- a failure on the context that it was.
  pub batch_end :
      (sig b : String) (is_valid : Bool) (context_id : Option String) (out : TxnOutput)
      (s : SerialScheduler) (w : W)
      → s.in_progress_transaction ≡ some sig
      → Dict.get sig s.txn_to_batch ≡ some b
      → (set_transaction_execution_result squash sig is_valid context_id out s w).0 ≡ ok tt
      → Taken sig b is_valid context_id s
          (set_transaction_execution_result squash sig is_valid context_id out s w).1
  batch_end sig b is_valid context_id out s w p e h =
      let s1 = record s { in_progress_transaction = none } in
      elim (Result-cases (record_result sig is_valid context_id out s1)) [
        | inl (s2, r) ↦
            let (rs, q) = record_result_keeps sig is_valid context_id out s1 s2 r in
            let same =
              accept_result sig is_valid context_id out s w p
              ∙ take_result_on sig b is_valid context_id out s1 s2 rs w e r q in
            rw same (
              after_record-Taken sig b is_valid context_id (record s1 { txn_results = rs }) w
                (rw same at h))
        | inr (inl (x, r)) ↦ absurd (
            not_ok (accept_result sig is_valid context_id out s w p)
              (unfold take_result in ground (arith, e, r)) h)
        | inr (inr r) ↦ absurd (
            not_ok (accept_result sig is_valid context_id out s w p)
              (unfold take_result in ground (arith, e, r)) h)
      ]
