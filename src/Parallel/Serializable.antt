-- ===== src/Parallel/Serializable.antt =====
-- `add_batch` of the parallel scheduler, for any batches: it returns, and every transaction is
-- ordered after the older ones that it is in conflict with.
use blockchain_node.Prelude.{
  String, ◌≡◌, refl, ◌∙◌, Bool, false, ◌||◌, Option, List, [], ◌∷◌, ◌++◌, arith, inl, inr, ◌==◌,
}
use blockchain_node.Python.{Result, ok, err, blocked}
use blockchain_node.Dict
use blockchain_node.Serial.Data.{Transaction, Batch}
use blockchain_node.Parallel.Tree.{Address}
use blockchain_node.Parallel.Predecessors.{
  PredecessorChain, Predecessors, new_tree, add_all, add_relationship,
}
use blockchain_node.Parallel.Queries.{HasNode}
use blockchain_node.Parallel.Chains.{add_relationship-Related}
use blockchain_node.Parallel.Accesses.{Access, Ordered}
use blockchain_node.Parallel.Known.{
  append-Known, find_input_total, find_output_total, add_relationship_total,
}
use blockchain_node.Parallel.Conflicts.{with_reads, with_writes, IsSerial, access-IsSerial}
use blockchain_node.Parallel.Finding.{contains-add_all}
use blockchain_node.Parallel.Ranking.{Ranked, Ranked-insert}
use blockchain_node.Parallel.State.{
  TransactionHeader, ParallelScheduler, new_parallel_scheduler, find_input_dependencies,
  find_output_dependencies, register_txns, register_batch, relate_txn, relate_txns, add_readers,
  set_writers, add_batch,
}

abbrev pub StateSerial : List Access → ParallelScheduler → Type 0
StateSerial log s = IsSerial log s.predecessor_chain s.predecessor_tree

-- None of the ids is known, and no two transactions have the same.
abbrev pub Fresh : (String → Bool) → List Transaction → Type 0
Fresh known [] = Unit {0}
Fresh known (txn ∷ txns) =
    (known txn.header_signature ≡ false) × Fresh (λ x. txn.header_signature == x || known x) txns

abbrev pub all_txns : List (Batch × Option String × Bool) → List Transaction
all_txns [] = []
all_txns ((batch, _, _) ∷ batches) = batch.transactions ++ all_txns batches

-- the new tree has no data
new_tree-empty : (p : Address) (d : Predecessors) → HasNode new_tree p d → ⊥
new_tree-empty p d (inl (_, h)) = absurd (ground (arith, h))
new_tree-empty p d (inr (inl h)) = absurd h
new_tree-empty p d (inr (inr h)) = absurd h

new-StateSerial :
    (hash : String) (always : Bool) → StateSerial [] (new_parallel_scheduler hash always)
unfolding new_parallel_scheduler
new-StateSerial hash always = record {
  ordered = tt;
  closed = record {
    transitive = λ x y z h k. absurd (ground (arith, h));
    known = λ x y h. absurd (ground (arith, h));
  };
  prefix_tree = (refl, tt);
  nested = λ p q d e w v h i j k l. absurd (new_tree-empty p d h);
  represented = λ x i. absurd i;
  known = λ p d r h i. absurd (new_tree-empty p d h);
}

register_txns-same :
    (batch : Batch) (txns : List Transaction) (s : ParallelScheduler)
    → ((register_txns batch txns s).predecessor_tree ≡ s.predecessor_tree)
      × ((register_txns batch txns s).predecessor_chain ≡ s.predecessor_chain)
      × ((register_txns batch txns s).final ≡ s.final)
      × ((register_txns batch txns s).txn_predecessors ≡ s.txn_predecessors)
unfolding register_txns
register_txns-same batch [] s = (refl, refl, refl, refl)
register_txns-same batch (txn ∷ txns) s = register_txns-same batch txns _

register_batch-same :
    (batch : Batch) (state_hash : Option String) (required : Bool) (s : ParallelScheduler)
    → let s' = register_batch batch state_hash required s in
      (s'.predecessor_tree ≡ s.predecessor_tree)
      × (s'.predecessor_chain ≡ s.predecessor_chain)
      × (s'.final ≡ s.final)
      × (s'.txn_predecessors ≡ s.txn_predecessors)
unfolding register_batch
register_batch-same batch state_hash required s = register_txns-same batch batch.transactions _

module _ (parse : String → TransactionHeader) where
  -- the accesses of transactions on top of the older ones, the newest first
  abbrev pub history : List Transaction → List Access → List Access
  history [] log = log
  history (txn ∷ txns) log =
      let header = parse txn.header in
      let txn_id = txn.header_signature in
      history txns (with_writes txn_id header.outputs (with_reads txn_id header.inputs log))

  -- the state after the second part of `add_batch` for a transaction
  abbrev related_state :
      Transaction → List String → PredecessorChain → ParallelScheduler → ParallelScheduler
  related_state txn preds chain s =
      let header = parse txn.header in
      let txn_id = txn.header_signature in
      record s {
        txn_predecessors = Dict.insert txn_id (add_all [] preds) s.txn_predecessors;
        predecessor_chain = chain;
        predecessor_tree =
            set_writers header.outputs txn_id (add_readers header.inputs txn_id s.predecessor_tree);
      }

  relate_txn-returns :
      (txn : Transaction) (reads written : List String) (chain : PredecessorChain)
      (s : ParallelScheduler)
      → find_input_dependencies (parse txn.header).inputs s.predecessor_tree ≡ ok reads
      → find_output_dependencies (parse txn.header).outputs s.predecessor_tree ≡ ok written
      → add_relationship txn.header_signature (reads ++ written) s.predecessor_chain ≡ ok chain
      → relate_txn parse txn s ≡ (ok tt, related_state txn (reads ++ written) chain s)
  unfolding relate_txn
  relate_txn-returns txn reads written chain s h k e = ground (arith, h, k, e)

  relate_txn-StateSerial :
      (txn : Transaction) (log : List Access) (s : ParallelScheduler)
      → StateSerial log s
      → Ranked s.predecessor_chain s.txn_predecessors
      → Dict.has txn.header_signature s.predecessor_chain ≡ false
      → (s' : ParallelScheduler) × (relate_txn parse txn s ≡ (ok tt, s'))
        × StateSerial (history (txn ∷ []) log) s'
        × ((x : String)
            → Dict.has x s'.predecessor_chain
              ≡ (txn.header_signature == x || Dict.has x s.predecessor_chain))
        × (s'.final ≡ s.final)
        × Ranked s'.predecessor_chain s'.txn_predecessors
  unfolding relate_txn
  relate_txn-StateSerial txn log s g ranked fresh =
      let header = parse txn.header in
      let txn_id = txn.header_signature in
      let has_known : String → Bool = λ r. Dict.has r s.predecessor_chain in
      let (reads, h, i) =
        find_input_total has_known header.inputs s.predecessor_tree g.prefix_tree
          (λ x d k r. g.known x d r k) in
      let (written, k, l) =
        find_output_total has_known header.outputs s.predecessor_tree g.prefix_tree
          (λ x d k r. g.known x d r k) in
      let preds = reads ++ written in
      let (chain, e) =
        add_relationship_total txn_id preds s.predecessor_chain
          (append-Known has_known reads written i l) in
      let related =
        add_relationship-Related txn_id preds s.predecessor_chain chain g.closed fresh e in
      let serial =
        access-IsSerial txn_id preds s.predecessor_chain chain related log s.predecessor_tree
          header.inputs header.outputs reads written g h k refl in
      (
        related_state txn preds chain s,
        relate_txn-returns txn reads written chain s h k e,
        serial,
        related.entry,
        refl,
        Ranked-insert s.predecessor_chain chain s.txn_predecessors txn_id (add_all [] preds) ranked
            fresh
            (λ r m.
              append-Known has_known reads written i l r
                (ground (arith, m, contains-add_all [] preds r)))
            related.entry,
      )

  relate_txns-next :
      (txn : Transaction) (txns : List Transaction) (s s' : ParallelScheduler)
      → relate_txn parse txn s ≡ (ok tt, s')
      → relate_txns parse (txn ∷ txns) s ≡ relate_txns parse txns s'
  unfolding relate_txns
  relate_txns-next txn txns s s' h = ground (arith, h)

  add_batch-open :
      (batch : Batch) (state_hash : Option String) (required : Bool) (s : ParallelScheduler)
      → s.final ≡ false
      → add_batch parse batch state_hash required s
        ≡ relate_txns parse batch.transactions (register_batch batch state_hash required s)
  unfolding add_batch
  add_batch-open batch state_hash required s h = ground (arith, h)

  -- all that is kept about a scheduler from one transaction to the next, before those of `rest`
  abbrev pub Ready : List Access → List Transaction → ParallelScheduler → Type 0
  Ready log rest s =
      StateSerial log s
      × (s.final ≡ false)
      × Ranked s.predecessor_chain s.txn_predecessors
      × ((known : String → Bool) × ((x : String) → Dict.has x s.predecessor_chain ≡ known x)
          × Fresh known rest)

  relate_txns-Ready :
      (txns rest : List Transaction) (log : List Access) (s : ParallelScheduler)
      → Ready log (txns ++ rest) s
      → (s' : ParallelScheduler) × (relate_txns parse txns s ≡ (ok tt, s'))
        × Ready (history txns log) rest s'
  unfolding relate_txns
  relate_txns-Ready [] rest log s g = (s, refl, g)
  relate_txns-Ready (txn ∷ txns) rest log s (g, final, ranked, (known, same, (f, fs))) =
      let (s1, e, g1, entry, final1, ranked1) =
        relate_txn-StateSerial txn log s g ranked (same txn.header_signature ∙ f) in
      let (s2, e2, g2) = relate_txns-Ready txns rest _ s1 (
        g1,
        final1 ∙ final,
        ranked1,
        ((λ x. txn.header_signature == x || known x), (λ x. ground (arith, entry x, same x)), fs),
      ) in
      (s2, relate_txns-next txn txns s s1 e ∙ e2, g2)

  Ready-same :
      (log : List Access) (rest : List Transaction) (s s' : ParallelScheduler)
      → s'.predecessor_tree ≡ s.predecessor_tree
      → s'.predecessor_chain ≡ s.predecessor_chain
      → s'.final ≡ s.final
      → s'.txn_predecessors ≡ s.txn_predecessors
      → Ready log rest s
      → Ready log rest s'
  Ready-same log rest s s' h k l m g = rw (h, k, l, m) g

  -- `add_batch` returns for a batch of new transactions, and keeps the scheduler ready.
  pub add_batch-Ready :
      (batch : Batch) (state_hash : Option String) (required : Bool) (log : List Access)
      (rest : List Transaction) (s : ParallelScheduler)
      → Ready log (batch.transactions ++ rest) s
      → (s' : ParallelScheduler) × (add_batch parse batch state_hash required s ≡ (ok tt, s'))
        × Ready (history batch.transactions log) rest s'
  add_batch-Ready batch state_hash required log rest s g =
      let s1 = register_batch batch state_hash required s in
      let (tree, chain, final, predecessors) = register_batch-same batch state_hash required s in
      let (s2, e, g2) =
        relate_txns-Ready batch.transactions rest log s1
          (Ready-same log (batch.transactions ++ rest) s s1 tree chain final predecessors g) in
      (s2, add_batch-open batch state_hash required s (g.1) ∙ e, g2)

  -- `add_batch` for one batch after the other, with the state hash and the flag of each
  abbrev pub add_batches :
      List (Batch × Option String × Bool)
      → ParallelScheduler
      → Result (Unit {0}) × ParallelScheduler
  add_batches [] s = (ok tt, s)
  add_batches ((batch, state_hash, required) ∷ batches) s =
      let added = add_batch parse batch state_hash required s in
      elim added.0 [
        | err e ↦ (err e, added.1)
        | blocked ↦ (blocked, added.1)
        | ok _ ↦ add_batches batches added.1
      ]

  add_batches-next :
      (batch : Batch) (state_hash : Option String) (required : Bool)
      (batches : List (Batch × Option String × Bool)) (s s' : ParallelScheduler)
      → add_batch parse batch state_hash required s ≡ (ok tt, s')
      → add_batches ((batch, state_hash, required) ∷ batches) s ≡ add_batches batches s'
  add_batches-next batch state_hash required batches s s' h = ground (arith, h)

  history-append :
      (xs ys : List Transaction) (log : List Access)
      → history (xs ++ ys) log ≡ history ys (history xs log)
  history-append [] ys log = refl
  history-append (x ∷ xs) ys log = history-append xs ys _

  pub add_batches-Ordered :
      (batches : List (Batch × Option String × Bool)) (log : List Access) (s : ParallelScheduler)
      → Ready log (all_txns batches) s
      → (s' : ParallelScheduler) × (add_batches batches s ≡ (ok tt, s'))
        × Ordered s'.predecessor_chain (history (all_txns batches) log)
        × Ranked s'.predecessor_chain s'.txn_predecessors
  add_batches-Ordered [] log s (g, _, ranked, _) = (s, refl, g.ordered, ranked)
  add_batches-Ordered ((batch, state_hash, required) ∷ batches) log s g =
      let (s1, e, g1) = add_batch-Ready batch state_hash required log (all_txns batches) s g in
      let (s2, e2, o, ranked) =
        add_batches-Ordered batches (history batch.transactions log) s1 g1 in
      (
        s2,
        add_batches-next batch state_hash required batches s s1 e ∙ e2,
        rw (history-append batch.transactions (all_txns batches) log) o,
        ranked,
      )

  -- a new scheduler is ready for transactions of different ids
  pub new-Ready :
      (first_state_hash : String) (always_persist : Bool) (rest : List Transaction)
      → Fresh (λ x. false) rest
      → Ready [] rest (new_parallel_scheduler first_state_hash always_persist)
  unfolding new_parallel_scheduler
  new-Ready first_state_hash always_persist rest fresh = (
    new-StateSerial first_state_hash always_persist,
    refl,
    record {
      weight = λ x. 0;
      is_weight = λ p before h. absurd (ground (arith, h));
      members = λ p before r h i. absurd (ground (arith, h));
    },
    ((λ x. false), (λ x. refl), fresh),
  )

  -- Batches of transactions that all have different ids can be added to a new scheduler one
  -- after the other, without an error. Then, of any two accesses of which one writes and the
  -- address of one starts with that of the other, the predecessor chain has the transaction of
  -- the older before that of the newer, where they differ.
  pub add_batches_in_order :
      (first_state_hash : String) (always_persist : Bool)
      (batches : List (Batch × Option String × Bool))
      → Fresh (λ x. false) (all_txns batches)
      → (s : ParallelScheduler) × (add_batches batches
            (new_parallel_scheduler first_state_hash always_persist)
          ≡ (ok tt, s))
        × Ordered s.predecessor_chain (history (all_txns batches) [])
  add_batches_in_order first_state_hash always_persist batches fresh =
      let (s, e, ordered, _) =
        add_batches-Ordered batches [] (new_parallel_scheduler first_state_hash always_persist)
          (new-Ready first_state_hash always_persist (all_txns batches) fresh) in
      (s, e, ordered)
