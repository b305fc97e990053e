-- ===== src/Parallel/Reading.antt =====
-- `add_reader` keeps the tree and the order of the accesses.
use blockchain_node.Prelude.{
  String, ◌≡◌, refl, sym, true, false, some, List, ◌∷◌, arith, inl, inr, ◌⊎◌, Bool-cases, contains,
}
use blockchain_node.Parallel.Tree.{Address, update}
use blockchain_node.Parallel.Prefix.{starts_with_antisym}
use blockchain_node.Parallel.Updates.{hit}
use blockchain_node.Parallel.Predecessors.{
  Predecessors, PredecessorTree, PredecessorChain, add, read_by, add_reader,
}
use blockchain_node.Parallel.Finding.{writes, contains-add}
use blockchain_node.Parallel.Queries.{HasNode, nodes_of}
use blockchain_node.Parallel.Chains.{IsClosed}
use blockchain_node.Parallel.Accesses.{Access, IsIn, Represented, Finds, Progress}
use blockchain_node.Parallel.AccessSteps.{
  Has-same, read-writer, read-readers, Represented-same, read_new, updated_tree, next-Ordered,
  from_source,
}

module _ (chain : PredecessorChain) (closed : IsClosed chain) (tree0 : PredecessorTree)
    (log0 : List Access) (txn : String)
    (represented0 : (x : Access) → IsIn x log0 → Represented chain tree0 x) where
  pub add_reader-Progress :
      (b : Address) (tree : PredecessorTree) (log : List Access)
      → Finds chain tree0 txn b false
      → Progress chain tree0 log0 txn tree log
      → Progress chain tree0 log0 txn
          (add_reader b txn tree)
          (record { txn = txn; at = b; is_write = false } ∷ log)
  unfolding add_reader read_by
  add_reader-Progress b tree log f g =
      let y : Access = record { txn = txn; at = b; is_write = false } in
      let tree' = update b (read_by txn) false tree in
      let (shape, c) = updated_tree b (read_by txn) false tree g.prefix_tree in
      let writer : (p : Address) (e : Predecessors) (w : String)
          → HasNode tree' p e
          → writes e.writer w ≡ true
          → (d : Predecessors) × HasNode tree p d × (writes d.writer w ≡ true) =
        λ p e w h i. elim (c.origin p e h) [
          | inl (j, _) ↦ (e, j, i)
          | inr (j, k) ↦
              let (d, l, m) = read-writer txn b tree e w k i in
              (d, Has-same p b d d (nodes_of tree) j refl l, m)
        ] in
      let reader : (p : Address) (e : Predecessors) (r : String)
          → HasNode tree' p e
          → contains e.readers r ≡ true
          → (r ≡ txn) ⊎ ((d : Predecessors) × HasNode tree p d × (contains d.readers r ≡ true)) =
        λ p e r h i. elim (c.origin p e h) [
          | inl (j, _) ↦ inr (e, j, i)
          | inr (j, k) ↦ elim (read-readers txn b tree e r k i) [
            | inl l ↦ inl l
            | inr (d, l, m) ↦ inr (d, Has-same p b d d (nodes_of tree) j refl l, m)
          ]
        ] in
      let kept : (x : Access) → IsIn x log → Represented chain tree' x = λ x i.
        let (p, d, r, (h, s, k, l)) = g.represented x i in
        elim (Bool-cases (hit b (read_by txn) false p)) [
          | inl n ↦
              let same : p ≡ b = starts_with_antisym p b (ground (arith, n)) (ground (arith, n)) in
              let stands : (writes d.writer r ≡ true)
                  ⊎ ((x.is_write ≡ false) × (p ≡ x.at) × (contains (add d.readers txn) r ≡ true)) =
                elim k [
                  | inl m ↦ inl m
                  | inr (m, o, q) ↦ inr (m, o, ground (arith, q, contains-add d.readers txn r))
                ] in
              (
                p,
                read_by txn (some d),
                r,
                (
                  Has-same p b (read_by txn (some d)) (read_by txn (some d)) (nodes_of tree') same
                      refl (c.updated d (Has-same b p d d (nodes_of tree) (sym same) refl h)),
                  s,
                  stands,
                  l,
                ),
              )
          | inr n ↦ (p, d, r, (c.kept p d h n, s, k, l))
        ] in
      record {
        prefix_tree = shape;
        nested = λ p q d e w v h i j k l.
            let (d0, h0, k0) = writer p d w h k in
            let (e0, i0, l0) = writer q e v i l in g.nested p q d0 e0 w v h0 i0 j k0 l0;
        represented = λ x i. elim i [
          | inl j ↦ Represented-same chain tree' x y j (read_new chain txn b tree tree' c.placed)
          | inr j ↦ kept x j
        ];
        ordered = next-Ordered chain closed tree0 log0 txn represented0 tree log y g refl f;
        source = from_source chain closed tree0 log0 txn represented0 tree log y g refl;
        old_writer = λ p d w h i. let (d0, h0, i0) = writer p d w h i in g.old_writer p d0 w h0 i0;
        old_reader = λ p d r h i. elim (reader p d r h i) [
          | inl j ↦ inl j
          | inr (d0, h0, i0) ↦ g.old_reader p d0 r h0 i0
        ];
      }
