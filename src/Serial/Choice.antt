-- ===== src/Serial/Choice.antt =====
-- What `next_transaction` hands out: a transaction none of whose batches has failed, based on the
-- context that is current.
use blockchain_node.Prelude.{
  String, ◌≡◌, refl, sym, ap, ◌∙◌, true, false, Option, none, some, List, [], ◌∷◌, arith, ◌==◌,
  eq_iff, Bool-cases, inl, inr, contains,
}
use blockchain_node.Python.{Result, ok, Result-cases}
use blockchain_node.Dict
use blockchain_node.Dict.{Dict, get-insert, contains-keys, get-erase}
use blockchain_node.Serial.Data.{Transaction, TxnInformation}
use blockchain_node.Serial.State.{SerialScheduler}
use blockchain_node.Serial.Next.{
  dep_is_known, has_failed, in_invalid_batch, any_failed, handle_fail_fast, schedule, must_fail,
  next_loop, next_transaction,
}

abbrev pub base_ids : Option String → List (Option String)
base_ids none = []
base_ids (some c_id) = some c_id ∷ []

module _ (dependencies : String → List String) where
  any_failed-schedule :
      (ds : List String) (txn : Transaction) (queue : List Transaction) (s : SerialScheduler)
      → any_failed ds (schedule txn (record s { txn_queue = queue })).1 ≡ any_failed ds s
  unfolding any_failed schedule dep_is_known in_invalid_batch
  any_failed-schedule [] txn queue s = refl
  any_failed-schedule (d ∷ ds) txn queue s = rw (any_failed-schedule ds txn queue s) refl

  must_fail-schedule :
      (txn : Transaction) (queue : List Transaction) (s : SerialScheduler)
      → must_fail dependencies txn (schedule txn (record s { txn_queue = queue })).1
        ≡ must_fail dependencies txn s
  unfolding must_fail
  must_fail-schedule txn queue s = rw any_failed-schedule (unfold schedule in_invalid_batch in refl)

  -- what holds when a transaction has been handed out
  record IsChosen (info : TxnInformation) (s : SerialScheduler) : Type 0 where
    safe : must_fail dependencies info.txn s ≡ ok false
    running : s.in_progress_transaction ≡ some info.txn.header_signature
    based : info.base_context_ids ≡ base_ids s.previous_context_id
    rooted : info.state_hash ≡ s.previous_state_hash

  schedule-IsChosen :
      (txn : Transaction) (queue : List Transaction) (s s' : SerialScheduler)
      (info : TxnInformation)
      → must_fail dependencies txn s ≡ ok false
      → schedule txn (record s { txn_queue = queue }) ≡ (ok (some info), s')
      → IsChosen info s'
  schedule-IsChosen txn queue s s' info m h =
      let same : s' ≡ (schedule txn (record s { txn_queue = queue })).1 =
        sym (ap (λ (p : Result (Option TxnInformation) × SerialScheduler). p.1) h) in
      let chosen : info.txn ≡ txn = unfold schedule in ground (arith, h) in
      record {
        safe = rw (chosen, same) (must_fail-schedule txn queue s ∙ m);
        running = unfold schedule in ground (arith, h);
        based = unfold schedule in ground (arith, h);
        rooted = unfold schedule in ground (arith, h);
      }

  next_loop-IsChosen :
      (queue : List Transaction) (s s' : SerialScheduler) (info : TxnInformation)
      → next_loop dependencies queue s ≡ (ok (some info), s')
      → IsChosen info s'
  unfolding next_loop
  next_loop-IsChosen [] s s' info h = ground arith
  next_loop-IsChosen (txn ∷ queue) s s' info h =
      elim (Result-cases (must_fail dependencies txn s)) [
        | inl (true, m) ↦ elim (Result-cases (handle_fail_fast txn s).0) [
          | inl (x, f) ↦
              next_loop-IsChosen queue (handle_fail_fast txn s).1 s' info (ground (arith, m, f, h))
          | inr (inl (x, f)) ↦ ground (arith, m, f, h)
          | inr (inr f) ↦ ground (arith, m, f, h)
        ]
        | inl (false, m) ↦ schedule-IsChosen txn queue s s' info m (ground (arith, m, h))
        | inr (inl (x, m)) ↦ ground (arith, m, h)
        | inr (inr m) ↦ ground (arith, m, h)
      ]

  any_failed_sound :
      (ds : List String) (s : SerialScheduler) (d b : String)
      → any_failed ds s ≡ ok false
      → contains ds d ≡ true
      → Dict.get d s.txn_to_batch ≡ some b
      → has_failed b s ≡ false
  unfolding any_failed dep_is_known in_invalid_batch
  any_failed_sound [] s d b h c e = cc
  any_failed_sound (x ∷ ds) s d b h c e = ground (arith, any_failed_sound ds s d b, eq_iff x d)

  must_fail-inv :
      (txn : Transaction) (s : SerialScheduler)
      → must_fail dependencies txn s ≡ ok false
      → (any_failed (dependencies txn.header) s ≡ ok false)
        × (in_invalid_batch txn.header_signature s ≡ ok false)
  unfolding must_fail
  must_fail-inv txn s h = elim (Result-cases (any_failed (dependencies txn.header) s)) [
    | inl (true, m) ↦ ground (arith, m, h)
    | inl (false, m) ↦ ground (arith, m, h)
    | inr (inl (x, m)) ↦ ground (arith, m, h)
    | inr (inr m) ↦ ground (arith, m, h)
  ]

  not_failed :
      (s : SerialScheduler) (info : TxnInformation) (d b : String)
      → any_failed (dependencies info.txn.header) s ≡ ok false
      → in_invalid_batch info.txn.header_signature s ≡ ok false
      → contains (info.txn.header_signature ∷ dependencies info.txn.header) d ≡ true
      → Dict.get d s.txn_to_batch ≡ some b
      → has_failed b s ≡ false
  unfolding in_invalid_batch
  not_failed s info d b deps own c e = elim (Bool-cases (info.txn.header_signature == d)) [
    | inl p ↦ ground (arith, own, e, eq_iff info.txn.header_signature d, p)
    | inr p ↦ any_failed_sound (dependencies info.txn.header) s d b deps (ground (arith, c, p)) e
  ]

  -- A transaction that `next_transaction` hands out is in no failed batch and has no known
  -- dependency in a failed batch; it is marked as in progress and is based on the current context
  -- and state root.
  pub next_transaction-safe :
      (s s' : SerialScheduler) (info : TxnInformation) (d b : String)
      → next_transaction dependencies s ≡ (ok (some info), s')
      → contains (info.txn.header_signature ∷ dependencies info.txn.header) d ≡ true
      → Dict.get d s'.txn_to_batch ≡ some b
      → (has_failed b s' ≡ false)
        × (s'.in_progress_transaction ≡ some info.txn.header_signature)
        × (info.base_context_ids ≡ base_ids s'.previous_context_id)
        × (info.state_hash ≡ s'.previous_state_hash)
  unfolding next_transaction
  next_transaction-safe s s' info d b h c e =
      let inv : IsChosen info s' = next_loop-IsChosen s.txn_queue s s' info (ground (arith, h)) in
      let (deps, own) = must_fail-inv info.txn s' inv.safe in
      (not_failed s' info d b deps own c e, inv.running, inv.based, inv.rooted)
