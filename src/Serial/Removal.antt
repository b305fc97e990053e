-- ===== src/Serial/Removal.antt =====
-- What `unschedule_incomplete_batches` leaves alone: the transactions that were handed out, the
-- verdicts, and the order of those that wait.
use blockchain_node.Prelude.{
  String, ◌≡◌, refl, ◌∙◌, Bool, true, false, Option, none, List, [], ◌∷◌, arith, if◌then◌else◌,
  Bool-cases, Option-cases, inl, inr, last, contains,
}
use blockchain_node.Python.{ok, Result-cases}
use blockchain_node.Dict
use blockchain_node.Dict.{Dict}
use blockchain_node.Serial.Data.{Transaction, Batch, AnnotatedBatch, signatures}
use blockchain_node.Serial.State.{SerialScheduler}
use blockchain_node.Serial.Unschedule.{
  remove_txn, release_in_progress, incomplete_batches, forget_txns, forget_batch, remove_batches,
  unschedule_incomplete_batches,
}
use blockchain_node.Serial.Subsequence.{
  Subsequence, Subsequence-refl, Subsequence-trans, Subsequence-remove,
}

pub record Removal (s s' : SerialScheduler) : Type 0 where
  pub same_scheduled : s'.scheduled_transactions ≡ s.scheduled_transactions
  pub same_statuses : s'.batch_statuses ≡ s.batch_statuses
  pub fewer : Subsequence s'.txn_queue s.txn_queue

pub Removal-refl : (s : SerialScheduler) → Removal s s
Removal-refl s = record {
  same_scheduled = refl;
  same_statuses = refl;
  fewer = Subsequence-refl s.txn_queue;
}

Removal-trans : {s t u : SerialScheduler} → Removal s t → Removal t u → Removal s u
Removal-trans p q = record {
  same_scheduled = q.same_scheduled ∙ p.same_scheduled;
  same_statuses = q.same_statuses ∙ p.same_statuses;
  fewer = Subsequence-trans q.fewer p.fewer;
}

Removal-if :
    {A : Type 0} (t : Bool) (s : SerialScheduler) (x y : A × SerialScheduler)
    → Removal s x.1
    → Removal s y.1
    → Removal s (if t then x else y).1
Removal-if true s x y p q = p
Removal-if false s x y p q = q

forget_txns-Removal :
    (txns : List Transaction) (s : SerialScheduler) → Removal s (forget_txns txns s).1
unfolding forget_txns
forget_txns-Removal [] s = Removal-refl s
forget_txns-Removal (txn ∷ txns) s =
    let s1 = record s {
      txn_results = Dict.erase txn.header_signature s.txn_results;
      txn_queue = remove_txn s.txn_queue txn;
    } in
    let s2 = record s1 { txn_to_batch = Dict.erase txn.header_signature s.txn_to_batch } in
    let f : Removal s s1 = record {
      same_scheduled = refl;
      same_statuses = refl;
      fewer = Subsequence-remove s.txn_queue txn;
    } in
    let g : Removal s s2 = record {
      same_scheduled = refl;
      same_statuses = refl;
      fewer = Subsequence-remove s.txn_queue txn;
    } in
    Removal-if (Dict.has txn.header_signature s.txn_to_batch) s _ _
      (Removal-trans g (forget_txns-Removal txns s2)) f

forget_batch-Removal :
    (c : String) (batch : Batch) (s : SerialScheduler) → Removal s (forget_batch c batch s).1
unfolding forget_batch
forget_batch-Removal c batch s = elim (Option-cases (last (signatures batch.transactions))) [
  | inl e ↦ rw (e, forget_batch) (Removal-refl s)
  | inr (sig, e) ↦
      rw (e, forget_batch)
        (Removal-if (contains s.last_in_batch sig) s _ _
          (record {
            same_scheduled = refl;
            same_statuses = refl;
            fewer = Subsequence-refl s.txn_queue;
          })
          (Removal-refl s))
]

remove_batches-Removal :
    (batches : Dict AnnotatedBatch) (s : SerialScheduler) → Removal s (remove_batches batches s).1
unfolding remove_batches
remove_batches-Removal [] s = Removal-refl s
remove_batches-Removal ((c, annotated) ∷ batches) s =
    let txns = forget_txns annotated.batch.transactions s in
    let f = forget_txns-Removal annotated.batch.transactions s in
    let out = forget_batch c annotated.batch txns.1 in
    let g = Removal-trans f (forget_batch-Removal c annotated.batch txns.1) in
    elim (Result-cases txns.0) [
      | inl (u, r) ↦ elim (Result-cases out.0) [
        | inl (v, q) ↦
            rw (r, remove_batches)
              (rw (q, remove_batches) (Removal-trans g (remove_batches-Removal batches out.1)))
        | inr (inl (x, q)) ↦ rw (r, remove_batches) (rw (q, remove_batches) g)
        | inr (inr q) ↦ rw (r, remove_batches) (rw (q, remove_batches) g)
      ]
      | inr (inl (x, r)) ↦ rw (r, remove_batches) f
      | inr (inr r) ↦ rw (r, remove_batches) f
    ]

release-Removal :
    (s : SerialScheduler) (kept : Option String) (s1 : SerialScheduler)
    → release_in_progress s ≡ ok (kept, s1)
    → Removal s s1
unfolding release_in_progress
release-Removal s kept s1 e = elim (Option-cases s.in_progress_transaction) [
  | inl p ↦ let q : s1 ≡ s = ground (arith, p, e) in rw q (Removal-refl s)
  | inr (t, p) ↦ elim (Option-cases (Dict.get t s.txn_to_batch)) [
    | inl g ↦ absurd (ground (arith, p, g, e))
    | inr (c, g) ↦ elim (Option-cases (Dict.get c s.batch_by_id)) [
      | inl h ↦ absurd (ground (arith, p, g, h, e))
      | inr (a, h) ↦ elim (Bool-cases a.preserve) [
        | inl v ↦ let q : s1 ≡ s = ground (arith, p, g, h, v, e) in rw q (Removal-refl s)
        | inr v ↦
            let q : s1 ≡ record s { in_progress_transaction = none } =
              ground (arith, p, g, h, v, e) in
            rw q (record {
              same_scheduled = refl;
              same_statuses = refl;
              fewer = Subsequence-refl s.txn_queue;
            })
      ]
    ]
  ]
]

pub unschedule-Removal : (s : SerialScheduler) → Removal s (unschedule_incomplete_batches s).1
unfolding unschedule_incomplete_batches
unschedule-Removal s = elim (Result-cases (release_in_progress s)) [
  | inl ((kept, s1), e) ↦
      rw (e, unschedule_incomplete_batches)
        (Removal-trans (release-Removal s kept s1 e)
          (remove_batches-Removal (incomplete_batches kept s1 s1.batch_by_id) s1))
  | inr (inl (x, e)) ↦ rw (e, unschedule_incomplete_batches) (Removal-refl s)
  | inr (inr e) ↦ rw (e, unschedule_incomplete_batches) (Removal-refl s)
]
