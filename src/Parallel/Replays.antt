-- ===== src/Parallel/Replays.antt =====
-- What `set_transaction_execution_result` of the parallel scheduler throws away when a transaction
-- fails.
use blockchain_node.Prelude.{
  String, ◌≡◌, refl, ◌∙◌, true, false, not, List, [], ◌∷◌, ◌++◌, arith, inl, inr, Bool-cases,
  Option-cases, contains, contains-append, remove, eq_iff, eq_refl, if◌then◌else◌, ◌==◌,
}
use blockchain_node.Python.{ok, Result-cases}
use blockchain_node.Dict
use blockchain_node.Dict.{Dict, get-erase}
use blockchain_node.Parallel.Predecessors.{is_predecessor_of_other}
use blockchain_node.Parallel.Chains.{is_before}
use blockchain_node.Parallel.State.{ParallelScheduler, is_transaction_in_schedule}
use blockchain_node.Parallel.Results.{
  txn_has_result, is_in_same_batch, is_predecessor_of_possible_successor, is_txn_to_replay, replay,
  replay_successors,
}

-- Results are only taken away, and who keeps a result stays scheduled.
pub record Thinner (s s' : ParallelScheduler) : Type 0 where
  pub same_chain : s'.predecessor_chain ≡ s.predecessor_chain
  pub same_batches : s'.batches_by_txn_id ≡ s.batches_by_txn_id
  pub fewer : (u : String) → Dict.has u s'.txn_results ≡ true → Dict.has u s.txn_results ≡ true
  pub stays :
      (u : String)
      → Dict.has u s'.txn_results ≡ true
      → contains s.scheduled u ≡ true
      → contains s'.scheduled u ≡ true

pub Thinner-refl : (s : ParallelScheduler) → Thinner s s
Thinner-refl s = record {
  same_chain = refl;
  same_batches = refl;
  fewer = λ u h. h;
  stays = λ u h k. k;
}

pub Thinner-trans : (a b c : ParallelScheduler) → Thinner a b → Thinner b c → Thinner a c
Thinner-trans a b c p q = record {
  same_chain = q.same_chain ∙ p.same_chain;
  same_batches = q.same_batches ∙ p.same_batches;
  fewer = λ u h. p.fewer u (q.fewer u h);
  stays = λ u h k. q.stays u h (p.stays u (q.fewer u h) k);
}

contains-remove :
    (xs : List String) (x u : String) → (x == u) ≡ false → contains (remove xs x) u ≡ contains xs u
contains-remove [] x u h = refl
contains-remove (y ∷ ys) x u h = elim (Bool-cases (y == x)) [
  | inl e ↦ let same : y ≡ x = ground (arith, e, eq_iff y x) in ground (arith, e, h, same)
  | inr e ↦ ground (arith, e, contains-remove ys x u h)
]

replay-Thinner :
    (txn_id : String) (s s' : ParallelScheduler)
    → replay txn_id s ≡ (ok tt, s')
    → Thinner s s' × (Dict.has txn_id s'.txn_results ≡ false)
unfolding replay txn_has_result
replay-Thinner txn_id s s' h = elim (Bool-cases (Dict.has txn_id s.txn_results)) [
  | inr e ↦
      let results : s'.txn_results ≡ s.txn_results = ground (arith, h, e) in
      let scheduled : s'.scheduled ≡ s.scheduled = ground (arith, h, e) in
      (
        record {
          same_chain = ground (arith, h, e);
          same_batches = ground (arith, h, e);
          fewer = λ u k. ground (arith, results, k);
          stays = λ u k l. ground (arith, scheduled, l);
        },
        ground (arith, results, e),
      )
  | inl e ↦ elim (Option-cases (Dict.get txn_id s.transactions)) [
    | inl m ↦ absurd (ground (arith, h, e, m))
    | inr (txn, m) ↦
        let results : s'.txn_results ≡ Dict.erase txn_id s.txn_results = ground (arith, h, e, m) in
        let scheduled : s'.scheduled ≡ remove s.scheduled txn_id = ground (arith, h, e, m) in
        let has : (u : String)
            → Dict.has u s'.txn_results
              ≡ (if txn_id == u then false else Dict.has u s.txn_results) =
          λ u. rw results (ground (arith, get-erase txn_id u s.txn_results)) in
        (
          record {
            same_chain = ground (arith, h, e, m);
            same_batches = ground (arith, h, e, m);
            fewer = λ u k. ground (arith, has u, k);
            stays = λ u k l. rw scheduled (
                ground (arith, l, contains-remove s.scheduled txn_id u (ground (arith, has u, k))));
          },
          ground (arith, has txn_id, eq_refl txn_id),
        )
  ]
]

-- `u` comes after `t` and is in another batch, by the tables of the state
abbrev pub IsSuccessor : String → String → ParallelScheduler → Type 0
IsSuccessor t u s =
    (is_before s.predecessor_chain t u ≡ true)
    × (is_transaction_in_schedule u s ≡ true)
    × (is_in_same_batch t u s ≡ ok false)

abbrev pub NoResults : List String → ParallelScheduler → Type 0
NoResults seen s = (u : String) → contains seen u ≡ true → Dict.has u s.txn_results ≡ false

pub no_result :
    (u : String) (s s' : ParallelScheduler)
    → Thinner s s'
    → Dict.has u s.txn_results ≡ false
    → Dict.has u s'.txn_results ≡ false
no_result u s s' t h = elim (Bool-cases (Dict.has u s'.txn_results)) [
  | inl e ↦ absurd (ground (arith, h, t.fewer u e))
  | inr e ↦ e
]

pub Successor-same :
    (t u : String) (s s' : ParallelScheduler)
    → Thinner s s'
    → IsSuccessor t u s
    → IsSuccessor t u s'
unfolding is_transaction_in_schedule is_in_same_batch
Successor-same t u s s' th (a, b, c) =
    (rw th.same_chain a, rw th.same_batches b, rw th.same_batches c)

-- a successor is replayed, unless it has been
successor_replayed :
    (t u : String) (seen : List String) (s : ParallelScheduler)
    → IsSuccessor t u s
    → is_txn_to_replay t u seen s ≡ ok (not (contains seen u))
unfolding is_txn_to_replay is_predecessor_of_possible_successor is_predecessor_of_other
successor_replayed t u seen s (a, b, c) = elim (Option-cases (Dict.get u s.predecessor_chain)) [
  | inl e ↦ absurd (ground (arith, a, e))
  | inr (before, e) ↦ ground (arith, a, e, c)
]

-- the inner loop, over `copy`
pub successors_gone :
    (t : String) (copy seen seen' : List String) (s s' : ParallelScheduler)
    → NoResults seen s
    → replay_successors t copy seen s ≡ (ok seen', s')
    → Thinner s s'
      × NoResults seen' s'
      × ((u : String)
          → contains copy u ≡ true
          → IsSuccessor t u s
          → Dict.has u s'.txn_results ≡ false)
unfolding replay_successors
successors_gone t [] seen seen' s s' n h =
    let same : s' ≡ s = ground (arith, h) in
    let same_seen : seen' ≡ seen = ground (arith, h) in
    rw (same, same_seen) (Thinner-refl s, n, λ u k. absurd (ground (arith, k)))
successors_gone t (x ∷ copy) seen seen' s s' n h =
    elim (Bool-cases (is_transaction_in_schedule x s)) [
      | inr e ↦
          let (th, m, gone) = successors_gone t copy seen seen' s s' n (ground (arith, h, e)) in
          (
            th,
            m,
            λ u k i. elim (Bool-cases (x == u)) [
              | inl l ↦ absurd (ground (arith, i.1, e, l, eq_iff x u))
              | inr l ↦ gone u (ground (arith, k, l)) i
            ],
          )
      | inl e ↦ elim (Result-cases (is_txn_to_replay t x seen s)) [
        | inr (inl (y, m)) ↦ absurd (ground (arith, h, e, m))
        | inr (inr m) ↦ absurd (ground (arith, h, e, m))
        | inl (again, m) ↦ elim (Bool-cases again) [
          | inr a ↦
              let (th, o, gone) =
                successors_gone t copy seen seen' s s' n (ground (arith, h, e, m, a)) in
              (
                th,
                o,
                λ u k i. elim (Bool-cases (x == u)) [
                  | inl l ↦
                      let same : x ≡ u = ground (arith, l, eq_iff x u) in
                      let was_seen : contains seen u ≡ true =
                        ground (arith, successor_replayed t u seen s i, m, a, same) in
                      no_result u s s' th (n u was_seen)
                  | inr l ↦ gone u (ground (arith, k, l)) i
                ],
              )
          | inl a ↦ elim (Result-cases (replay x s).0) [
            | inr (inl (y, q)) ↦ absurd (ground (arith, h, e, m, a, q))
            | inr (inr q) ↦ absurd (ground (arith, h, e, m, a, q))
            | inl (done, q) ↦
                let s1 : ParallelScheduler = (replay x s).1 in
                let (t1, gone_x) = replay-Thinner x s s1 (ground (arith, q)) in
                let n1 : NoResults (seen ++ x ∷ []) s1 = λ u k. elim (Bool-cases (x == u)) [
                  | inl l ↦ ground (arith, gone_x, l, eq_iff x u)
                  | inr l ↦
                      no_result u s s1 t1
                        (n u (ground (arith, k, l, contains-append seen (x ∷ []) u)))
                ] in
                let (t2, o, gone) =
                  successors_gone t copy (seen ++ x ∷ []) seen' s1 s' n1
                    (ground (arith, h, e, m, a, q)) in
                (
                  Thinner-trans s s1 s' t1 t2,
                  o,
                  λ u k i. elim (Bool-cases (x == u)) [
                    | inl l ↦ no_result u s1 s' t2 (ground (arith, gone_x, l, eq_iff x u))
                    | inr l ↦ gone u (ground (arith, k, l)) (Successor-same t u s s1 t1 i)
                  ],
                )
          ]
        ]
      ]
    ]
