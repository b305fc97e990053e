-- ===== src/Parallel/Writing.antt =====
-- `set_writer` keeps the tree and the order of the accesses.
use blockchain_node.Prelude.{
  String, ◌≡◌, refl, sym, true, false, some, List, [], ◌∷◌, arith, inl, inr, ◌⊎◌, Bool-cases,
  contains, eq_iff, eq_refl,
}
use blockchain_node.Parallel.Tree.{Address, starts_with, update}
use blockchain_node.Parallel.Prefix.{starts_with_refl, starts_with_trans}
use blockchain_node.Parallel.Updates.{hit, NewData}
use blockchain_node.Parallel.Predecessors.{
  Predecessors, PredecessorTree, PredecessorChain, written_by, set_writer,
}
use blockchain_node.Parallel.Finding.{writes}
use blockchain_node.Parallel.Queries.{HasNode, nodes_of}
use blockchain_node.Parallel.Chains.{at_or_before, at_or_before-at_or_before, IsClosed}
use blockchain_node.Parallel.Accesses.{Access, touch, IsIn, Represented, Nested, Finds, Progress}
use blockchain_node.Parallel.AccessSteps.{
  Has-same, writes-same, contains-same, Represented-same, updated_tree, next-Ordered, from_source,
}

module _ (chain : PredecessorChain) (closed : IsClosed chain) (tree0 : PredecessorTree)
    (log0 : List Access) (txn : String)
    (represented0 : (x : Access) → IsIn x log0 → Represented chain tree0 x) where
  pub set_writer-Progress :
      (b : Address) (tree : PredecessorTree) (log : List Access)
      → Finds chain tree0 txn b true
      → Progress chain tree0 log0 txn tree log
      → Progress chain tree0 log0 txn
          (set_writer b txn tree)
          (record { txn = txn; at = b; is_write = true } ∷ log)
  unfolding set_writer written_by
  set_writer-Progress b tree log f g =
      let new : Predecessors = record { readers = []; writer = some txn } in
      let y : Access = record { txn = txn; at = b; is_write = true } in
      let tree' = update b (written_by txn) true tree in
      let (shape, c) = updated_tree b (written_by txn) true tree g.prefix_tree in
      let before_writer : (p : Address) (d : Predecessors) (w : String)
          → HasNode tree p d
          → touch p b ≡ true
          → writes d.writer w ≡ true
          → at_or_before chain w txn ≡ true =
        λ p d w h n i. elim (g.old_writer p d w h i) [
          | inl j ↦ ground (arith, j, eq_refl w)
          | inr (e, j, k) ↦ ground (arith, f.writer p e w j n k)
        ] in
      let before_reader : (p : Address) (d : Predecessors) (r : String)
          → HasNode tree p d
          → touch p b ≡ true
          → contains d.readers r ≡ true
          → at_or_before chain r txn ≡ true =
        λ p d r h n i. elim (g.old_reader p d r h i) [
          | inl j ↦ ground (arith, j, eq_refl r)
          | inr (e, j, k) ↦ ground (arith, f.readers p e r refl j n k)
        ] in
      let at_new : (e : Predecessors)
          → NewData b (written_by txn) true (nodes_of tree) e
          → e ≡ new =
        λ e n. elim n [ inl j ↦ j | inr (d, _, j) ↦ j ] in
      let origin : (p : Address) (e : Predecessors)
          → HasNode tree' p e
          → (HasNode tree p e × (hit b (written_by txn) true p ≡ false)) ⊎ ((p ≡ b) × (e ≡ new)) =
        λ p e h. elim (c.origin p e h) [ inl j ↦ inl j | inr (j, k) ↦ inr (j, at_new e k) ] in
      let placed : HasNode tree' b (new) =
        let (e, h, n) = c.placed in
        Has-same b b (new) e (nodes_of tree') refl (sym (at_new e n)) h in
      let kept : (x : Access) → IsIn x log → Represented chain tree' x = λ x i.
        let (p, d, r, (h, s, k, l)) = g.represented x i in
        elim (Bool-cases (hit b (written_by txn) true p)) [
          | inl n ↦
              let below : starts_with p b ≡ true = ground (arith, n) in
              let r_before : at_or_before chain r txn ≡ true = elim k [
                | inl m ↦ before_writer p d r h (ground (arith, below)) m
                | inr (_, _, m) ↦ before_reader p d r h (ground (arith, below)) m
              ] in
              (
                b,
                new,
                txn,
                (
                  placed,
                  starts_with_trans x.at p b s below,
                  inl (eq_refl txn),
                  at_or_before-at_or_before chain x.txn r txn closed l r_before,
                ),
              )
          | inr n ↦ (p, d, r, (c.kept p d h n, s, k, l))
        ] in
      let nested : Nested chain tree' = λ p q d e w v h i j k l. elim (origin p d h) [
        | inl (h0, _) ↦ elim (origin q e i) [
          | inl (i0, _) ↦ g.nested p q d e w v h0 i0 j k l
          | inr (m, o) ↦
              let v_new : txn ≡ v = ground (arith, writes-same e new v o l, eq_iff txn v) in
              rw⁻¹ v_new (before_writer p d w h0 (ground (arith, j.0, m)) k)
        ]
        | inr (m, o) ↦ elim (origin q e i) [
          | inl (_, n) ↦ absurd (ground (arith, n, j.0, m))
          | inr (n, _) ↦ absurd (ground (arith, starts_with_refl b, j.1, m, n))
        ]
      ] in
      record {
        prefix_tree = shape;
        nested = nested;
        represented = λ x i. elim i [
          | inl j ↦ Represented-same chain tree' x y j (
            b,
            new,
            txn,
            (placed, starts_with_refl b, inl (eq_refl txn), ground (arith, eq_refl txn)),
          )
          | inr j ↦ kept x j
        ];
        ordered = next-Ordered chain closed tree0 log0 txn represented0 tree log y g refl f;
        source = from_source chain closed tree0 log0 txn represented0 tree log y g refl;
        old_writer = λ p d w h i. elim (origin p d h) [
          | inl (j, _) ↦ g.old_writer p d w j i
          | inr (_, j) ↦ inl (ground (arith, writes-same d new w j i, eq_iff txn w))
        ];
        old_reader = λ p d r h i. elim (origin p d h) [
          | inl (j, _) ↦ g.old_reader p d r j i
          | inr (_, j) ↦ absurd (ground (arith, contains-same d new r j i))
        ];
      }
