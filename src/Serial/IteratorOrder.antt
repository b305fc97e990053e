-- ===== src/Serial/IteratorOrder.antt =====
-- `SchedulerIterator` goes through the schedule in order, where it is the only one that waits.
use blockchain_node.Prelude.{
  ℕ, zero, suc, ◌≤◌, String, ◌≡◌, refl, sym, ◌∙◌, true, false, ◌&&◌, ◌||◌, Option, none, some, List,
  [], ◌∷◌, ◌++◌, arith, Bool-cases, Option-cases, inl, inr, length, get_elem?, ltb, eqb, is_some,
}
use blockchain_node.Python.{Result, ok, err, blocked, Result-cases}
use blockchain_node.Serial.Data.{Transaction, TxnInformation}
use blockchain_node.Serial.State.{SerialScheduler, count, get_transaction, is_cancelled}
use blockchain_node.Serial.Next.{handle_fail_fast, schedule, must_fail, next_loop, next_transaction}
use blockchain_node.Serial.Finish.{SquashHandler, complete}
use blockchain_node.Serial.Frame.{Frame-handle_fail_fast, Frame-complete}
use blockchain_node.Serial.Iterator.{
  Wake, iterator_catch_up, iterator_take, iterator_pass, iterator_loop, iterator_next,
}

module _ (dependencies : String → List String) where
  schedule-appends :
      (txn : Transaction) (queue : List Transaction) (s s' : SerialScheduler)
      (info : TxnInformation)
      → schedule txn (record s { txn_queue = queue }) ≡ (ok (some info), s')
      → s'.scheduled_transactions ≡ s.scheduled_transactions ++ info ∷ []
  unfolding schedule
  schedule-appends txn queue s s' info h = ground (arith, h)

  next_loop-appends :
      (queue : List Transaction) (s s' : SerialScheduler) (info : TxnInformation)
      → next_loop dependencies queue s ≡ (ok (some info), s')
      → s'.scheduled_transactions ≡ s.scheduled_transactions ++ info ∷ []
  unfolding next_loop
  next_loop-appends [] s s' info h = ground arith
  next_loop-appends (txn ∷ queue) s s' info h = elim (Result-cases (must_fail dependencies txn s)) [
    | inl (true, m) ↦ elim (Result-cases (handle_fail_fast txn s).0) [
      | inl (x, f) ↦
          let fr = Frame-handle_fail_fast "" txn s in
          let ih =
            next_loop-appends queue (handle_fail_fast txn s).1 s' info (ground (arith, m, f, h)) in
          rw⁻¹ fr.same_scheduled ih
      | inr (inl (x, f)) ↦ ground (arith, m, f, h)
      | inr (inr f) ↦ ground (arith, m, f, h)
    ]
    | inl (false, m) ↦ schedule-appends txn queue s s' info (ground (arith, m, h))
    | inr (inl (x, m)) ↦ ground (arith, m, h)
    | inr (inr m) ↦ ground (arith, m, h)
  ]

  pub next_transaction-appends :
      (s s' : SerialScheduler) (info : TxnInformation)
      → next_transaction dependencies s ≡ (ok (some info), s')
      → s'.scheduled_transactions ≡ s.scheduled_transactions ++ info ∷ []
  unfolding next_transaction
  next_transaction-appends s s' info h = next_loop-appends s.txn_queue s s' info (ground (arith, h))

module _ (dependencies : String → List String) where
  next_loop-none :
      (queue : List Transaction) (s s' : SerialScheduler)
      → next_loop dependencies queue s ≡ (ok none, s')
      → s'.scheduled_transactions ≡ s.scheduled_transactions
  unfolding next_loop schedule
  next_loop-none [] s s' h = ground (arith, h)
  next_loop-none (txn ∷ queue) s s' h = elim (Result-cases (must_fail dependencies txn s)) [
    | inl (true, m) ↦ elim (Result-cases (handle_fail_fast txn s).0) [
      | inl (x, f) ↦
          let fr = Frame-handle_fail_fast "" txn s in
          rw⁻¹ fr.same_scheduled
            (next_loop-none queue (handle_fail_fast txn s).1 s' (ground (arith, m, f, h)))
      | inr (inl (x, f)) ↦ absurd (ground (arith, m, f, h))
      | inr (inr f) ↦ absurd (ground (arith, m, f, h))
    ]
    | inl (false, m) ↦ absurd (ground (arith, m, h))
    | inr (inl (x, m)) ↦ absurd (ground (arith, m, h))
    | inr (inr m) ↦ absurd (ground (arith, m, h))
  ]

  next_transaction-none :
      (s s' : SerialScheduler)
      → next_transaction dependencies s ≡ (ok none, s')
      → s'.scheduled_transactions ≡ s.scheduled_transactions
  unfolding next_transaction
  next_transaction-none s s' h = elim (Bool-cases (is_some s.in_progress_transaction)) [
    | inl e ↦ let same : s' ≡ s = ground (arith, h, e) in rw same refl
    | inr e ↦ next_loop-none s.txn_queue s s' (ground (arith, h, e))
  ]

get_elem?-append :
    (infos : List TxnInformation) (info : TxnInformation)
    → get_elem? (infos ++ info ∷ []) (length infos) ≡ some info
get_elem?-append [] info = refl
get_elem?-append (x ∷ infos) info = get_elem?-append infos info

get_elem?-bound :
    (infos : List TxnInformation) (i : ℕ) (info : TxnInformation)
    → get_elem? infos i ≡ some info
    → suc i ≤ length infos
get_elem?-bound [] i info h = ground (arith, h)
get_elem?-bound (x ∷ infos) zero info h = omega arith
get_elem?-bound (x ∷ infos) (suc i) info h = omega (arith, get_elem?-bound infos i info h)

catch_up-inv :
    (i i' : ℕ) (s : SerialScheduler) (info : TxnInformation)
    → iterator_catch_up i s ≡ (ok info, i')
    → (i' ≡ suc i) × (get_elem? s.scheduled_transactions i ≡ some info)
unfolding iterator_catch_up get_transaction
catch_up-inv i i' s info h = elim (Option-cases (get_elem? s.scheduled_transactions i)) [
  | inl e ↦ absurd (ground (arith, e, h))
  | inr (x, e) ↦ (ground (arith, e, h), ground (arith, e, h))
]

iterator_take-some :
    {W : Type 0} (i i' : ℕ) (out : Result (Option TxnInformation) × SerialScheduler) (w w' : W)
    (s' : SerialScheduler) (info : TxnInformation)
    → iterator_take i out w ≡ (ok (some info), i', s', w')
    → (i' ≡ suc i) × (out ≡ (ok (some info), s'))
unfolding iterator_take
iterator_take-some i i' (ok (some txn), s) w w' s' info h = (ground (arith, h), ground (arith, h))
iterator_take-some i i' (ok none, s) w w' s' info h = absurd (ground (arith, h))
iterator_take-some i i' (err e, s) w w' s' info h = absurd (ground (arith, h))
iterator_take-some i i' (blocked, s) w w' s' info h = absurd (ground (arith, h))

iterator_take-none :
    {W : Type 0} (i i' : ℕ) (out : Result (Option TxnInformation) × SerialScheduler) (w w' : W)
    (s' : SerialScheduler)
    → iterator_take i out w ≡ (ok none, i', s', w')
    → (i' ≡ i) × (out ≡ (ok none, s'))
unfolding iterator_take
iterator_take-none i i' (ok (some txn), s) w w' s' h = absurd (ground (arith, h))
iterator_take-none i i' (ok none, s) w w' s' h = (ground (arith, h), ground (arith, h))
iterator_take-none i i' (err e, s) w w' s' h = absurd (ground (arith, h))
iterator_take-none i i' (blocked, s) w w' s' h = absurd (ground (arith, h))

-- during the waits no other iterator has a transaction scheduled
abbrev pub Alone : {W : Type 0} → List (Wake W) → Type 0
Alone [] = Unit {0}
Alone (wake ∷ wakes) = ((s : SerialScheduler) (w : _) → count (wake s w).0 ≡ count s) × Alone wakes

-- the transaction stands at the index, which goes on by one and is not past the schedule
abbrev pub InOrder : ℕ → ℕ → SerialScheduler → TxnInformation → Type 0
InOrder i i' s' info =
    (i' ≡ suc i) × (get_elem? s'.scheduled_transactions i ≡ some info) × (i' ≤ count s')

module _ (dependencies : String → List String) {W : Type 0} (squash : SquashHandler W) where
  -- a pass that returns or waits has asked `next_transaction`
  pass_asks :
      (i i' : ℕ) (s s' : SerialScheduler) (w w' : W) (out : Option TxnInformation)
      → iterator_pass dependencies squash i s w ≡ (ok out, i', s', w')
      → iterator_take i
          (next_transaction dependencies (complete squash false s w).1)
          (complete squash false s w).2
        ≡ (ok out, i', s', w')
  unfolding iterator_pass
  pass_asks i i' s s' w w' out h =
      let done = complete squash false s w in
      elim (Result-cases done.0) [
        | inl (b, r) ↦ elim (Bool-cases (b && eqb (count done.1) i || is_cancelled done.1)) [
          | inl p ↦ absurd (ground (arith, h, r, p))
          | inr p ↦ ground (arith, h, r, p)
        ]
        | inr (inl (x, r)) ↦ absurd (ground (arith, h, r))
        | inr (inr r) ↦ absurd (ground (arith, h, r))
      ]

  pass_takes :
      (i i' : ℕ) (s s' : SerialScheduler) (w w' : W) (info : TxnInformation)
      → iterator_pass dependencies squash i s w ≡ (ok (some info), i', s', w')
      → (i' ≡ suc i) × (s'.scheduled_transactions ≡ s.scheduled_transactions ++ info ∷ [])
  pass_takes i i' s s' w w' info h =
      let done = complete squash false s w in
      let f = Frame-complete "" squash false s w in
      let (q, t) =
        iterator_take-some i i' (next_transaction dependencies done.1) done.2 w' s' info
          (pass_asks i i' s s' w w' (some info) h) in
      (q, rw⁻¹ f.same_scheduled (next_transaction-appends dependencies done.1 s' info t))

  pass_waits :
      (i i' : ℕ) (s s' : SerialScheduler) (w w' : W)
      → iterator_pass dependencies squash i s w ≡ (ok none, i', s', w')
      → (i' ≡ i) × (s'.scheduled_transactions ≡ s.scheduled_transactions)
  pass_waits i i' s s' w w' h =
      let done = complete squash false s w in
      let f = Frame-complete "" squash false s w in
      let (q, t) =
        iterator_take-none i i' (next_transaction dependencies done.1) done.2 w' s'
          (pass_asks i i' s s' w w' none h) in
      (q, rw⁻¹ f.same_scheduled (next_transaction-none dependencies done.1 s' t))

  waited :
      (s s' : SerialScheduler)
      → s'.scheduled_transactions ≡ s.scheduled_transactions
      → count s ≡ count s'
  unfolding count
  waited s s' h = rw h refl

  pass-InOrder :
      (i i' : ℕ) (s s' : SerialScheduler) (w w' : W) (info : TxnInformation)
      → i ≡ count s
      → iterator_pass dependencies squash i s w ≡ (ok (some info), i', s', w')
      → InOrder i i' s' info
  unfolding count
  pass-InOrder i i' s s' w w' info at_end h =
      let (q, t) = pass_takes i i' s s' w w' info h in
      let found : get_elem? s'.scheduled_transactions i ≡ some info =
        rw (t, at_end) (get_elem?-append s.scheduled_transactions info) in
      (q, found, rw q (get_elem?-bound s'.scheduled_transactions i info found))

  loop-InOrder :
      (i i' : ℕ) (wakes : List (Wake W)) (s s' : SerialScheduler) (w w' : W) (info : TxnInformation)
      → Alone wakes
      → i ≡ count s
      → iterator_loop dependencies squash i wakes s w ≡ (ok info, i', s', w')
      → InOrder i i' s' info
  unfolding iterator_loop
  loop-InOrder i i' [] s s' w w' info alone at_end h =
      let p = iterator_pass dependencies squash i s w in
      elim (Result-cases p.0) [
        | inr (inl (x, e)) ↦ absurd (ground (arith, h, e))
        | inr (inr e) ↦ absurd (ground (arith, h, e))
        | inl (out, e) ↦ elim (Option-cases out) [
          | inl n ↦ absurd (ground (arith, h, e, n))
          | inr (txn, n) ↦ pass-InOrder i i' s s' w w' info at_end (ground (arith, h, e, n))
        ]
      ]
  loop-InOrder i i' (wake ∷ wakes) s s' w w' info (keeps, alone) at_end h =
      let p = iterator_pass dependencies squash i s w in
      elim (Result-cases p.0) [
        | inr (inl (x, e)) ↦ absurd (ground (arith, h, e))
        | inr (inr e) ↦ absurd (ground (arith, h, e))
        | inl (out, e) ↦ elim (Option-cases out) [
          | inr (txn, n) ↦ pass-InOrder i i' s s' w w' info at_end (ground (arith, h, e, n))
          | inl n ↦
              let (j, same) = pass_waits i p.1 s p.2 w p.3 (ground (arith, e, n)) in
              let woken = wake p.2 p.3 in
              let again : iterator_loop dependencies squash i wakes woken.0 woken.1
                  ≡ (ok info, i', s', w') =
                ground (arith, h, e, n, j) in
              let still : i ≡ count woken.0 = at_end ∙ waited s p.2 same ∙ sym (keeps p.2 p.3) in
              loop-InOrder i i' wakes woken.0 s' woken.1 w' info alone still again
        ]
      ]

  -- Where no other iterator has a transaction scheduled while it waits, an iterator whose index is
  -- not past the schedule returns the transaction that stands at its index in the schedule, one
  -- that was there or one that it has just had scheduled, however often it has waited. Its index
  -- goes up by one and is again not past the schedule.
  pub iterator_next-InOrder :
      (i i' : ℕ) (wakes : List (Wake W)) (s s' : SerialScheduler) (w w' : W) (info : TxnInformation)
      → Alone wakes
      → i ≤ count s
      → iterator_next dependencies squash i wakes s w ≡ (ok info, i', s', w')
      → InOrder i i' s' info
  unfolding iterator_next count
  iterator_next-InOrder i i' wakes s s' w w' info alone bound h =
      elim (Bool-cases (ltb i (count s))) [
        | inl p ↦
            (let same : s' ≡ s = ground (arith, h, p) in
              let got : iterator_catch_up i s ≡ (ok info, i') = ground (arith, h, p) in
              let (q, t') = catch_up-inv i i' s info got in
              let t : get_elem? s'.scheduled_transactions i ≡ some info = rw same t' in
              (q, t, rw q (get_elem?-bound s'.scheduled_transactions i info t)))
        | inr p ↦
            loop-InOrder i i' wakes s s' w w' info alone (ground (arith, bound, p))
              (ground (arith, h, p))
      ]
