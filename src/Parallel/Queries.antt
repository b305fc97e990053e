-- ===== src/Parallel/Queries.antt =====
-- What `find_write_predecessors` and `find_read_predecessors` find, over a prefix tree: for every
-- node above or below the address, its writer or a writer further below it; and for a write its
-- readers.
use blockchain_node.Prelude.{
  ℕ, zero, suc, String, ◌≡◌, refl, true, false, ◌||◌, none, some, List, [], arith, inl, inr, ◌⊎◌,
  Bool-cases, Option-cases, length, contains,
}
use blockchain_node.Python.{ok}
use blockchain_node.Parallel.Tree.{Address, starts_with, Nodes, no_nodes, node, walk}
use blockchain_node.Parallel.Prefix.{starts_with_trans, starts_with-length}
use blockchain_node.Parallel.Nodes.{Has, Extends, IsTree, Yields}
use blockchain_node.Parallel.Coverage.{walk-Covers}
use blockchain_node.Parallel.Predecessors.{
  Predecessors, PredecessorTree, enclosing_write, below_write, after_enclosing,
  find_write_predecessors,
}
use blockchain_node.Parallel.Finding.{writes, collected}
use blockchain_node.Parallel.WriteLoops.{
  enclosing_write-readers, enclosing_write-writer, enclosing_write-left,
}

abbrev pub nodes_of : PredecessorTree → Nodes Predecessors
nodes_of tree = node tree.address tree.value tree.children no_nodes

abbrev pub HasNode : PredecessorTree → Address → Predecessors → Type 0
HasNode tree x d = Has x d (nodes_of tree)

abbrev pub IsPrefixTree : PredecessorTree → Type 0
IsPrefixTree tree = (tree.address ≡ []) × IsTree tree.address tree.children

pub starts_with-root :
    (a : Address) (tree : PredecessorTree) → tree.address ≡ [] → starts_with a tree.address ≡ true
unfolding starts_with
starts_with-root a tree h = rw h refl

-- The writer of the node at `x` is found, or, where `x` does not start with `a`, that of a node
-- below `x`.
abbrev pub WriterFound : List String → PredecessorTree → Address → Address → Predecessors → Type 0
WriterFound found tree a x d =
    (w : String)
    → writes d.writer w ≡ true
    → (contains found w ≡ true)
      ⊎ ((starts_with x a ≡ false)
          × ((y : Address) × (c : Predecessors) × (v : String) × Extends x y
              × (HasNode tree y c × (writes c.writer v ≡ true) × (contains found v ≡ true))))

abbrev pub ReadersFound : List String → Predecessors → Type 0
ReadersFound found d = (r : String) → contains d.readers r ≡ true → contains found r ≡ true

-- what a write finds of a node
abbrev pub FoundWrite : List String → PredecessorTree → Address → Address → Predecessors → Type 0
FoundWrite found tree a x d = ReadersFound found d × WriterFound found tree a x d

found_in_write :
    (tree : PredecessorTree) (a x : Address) (d : Predecessors) (found : List String)
    → starts_with a tree.address ≡ true
    → IsTree tree.address tree.children
    → found ≡ collected below_write (enclosing_write (length a) (walk a tree).yielded [] none)
    → Yields x d (walk a tree).yielded
    → FoundWrite found tree a x d
found_in_write tree a x d found h t same y =
    let c = walk-Covers a tree h t in
    let writer : WriterFound found tree a x d = λ w i.
      rw same (elim (enclosing_write-writer a (walk a tree).yielded [] none x d w c.ordered y i) [
        | inl j ↦ inl j
        | inr (l, (z, b, v, e, (j, k, m))) ↦ inr (
          elim (Bool-cases (starts_with x a)) [
            | inl n ↦ absurd (ground (arith, l, starts_with-length x a n))
            | inr n ↦ n
          ],
          (z, b, v, e, (c.sound z b j, k, m)),
        )
      ]) in
    (
      λ r i. rw same (enclosing_write-readers (length a) (walk a tree).yielded [] none x d r y i),
      writer,
    )

found_again_write :
    (tree : PredecessorTree) (a m x : Address) (d : Predecessors) (found : List String)
    → starts_with a tree.address ≡ true
    → IsTree tree.address tree.children
    → (enclosing_write (length a) (walk a tree).yielded [] none).left ≡ none
    → (walk a tree).raised ≡ some (some m)
    → HasNode tree x d
    → (starts_with x a || starts_with a x) ≡ true
    → ((starts_with x m || starts_with m x) ≡ true → FoundWrite found tree m x d)
    → FoundWrite found tree a x d
found_again_write tree a m x d found h t left raised has near ih =
    let c = walk-Covers a tree h t in
    let m_below = c.match m raised in
    elim (Bool-cases (starts_with x a)) [
      | inl i ↦
          let at_m : starts_with x m ≡ true = elim (c.below x d has i) [
            | inl y ↦ absurd (
                ground (
                  arith,
                  enclosing_write-left (length a) (walk a tree).yielded [] none x d left y,
                  starts_with-length x a i,
                ))
            | inr (b, r, j) ↦ let same : b ≡ m = ground (arith, r, raised) in rw⁻¹ same j
          ] in
          let f = ih (ground (arith, at_m)) in
          let writer : WriterFound found tree a x d = λ w j. elim (f.1 w j) [
            | inl k ↦ inl k
            | inr (k, _) ↦ absurd (ground (arith, k, at_m))
          ] in
          (f.0, writer)
      | inr i ↦
          let a_x : starts_with a x ≡ true = ground (arith, i, near) in
          let f = ih (ground (arith, starts_with_trans m a x m_below a_x)) in
          let writer : WriterFound found tree a x d =
            λ w j. elim (f.1 w j) [ inl k ↦ inl k | inr (_, k) ↦ inr (i, k) ] in
          (f.0, writer)
    ]

-- In a prefix tree, where the search for the predecessors of a write returns, of every node
-- whose address starts with the address or the other way round, the readers are found, and the
-- writer is found or, where the node is above the address, a writer of a node further below
-- it.
pub write_found :
    (depth : ℕ) (tree : PredecessorTree) (a x : Address) (d : Predecessors) (found : List String)
    → starts_with a tree.address ≡ true
    → IsTree tree.address tree.children
    → find_write_predecessors depth tree a ≡ ok found
    → HasNode tree x d
    → (starts_with x a || starts_with a x) ≡ true
    → FoundWrite found tree a x d
unfolding find_write_predecessors after_enclosing
write_found zero tree a x d found h t f has near = absurd (ground (arith, f))
write_found (suc depth) tree a x d found h t f has near =
    let c = walk-Covers a tree h t in
    let e = enclosing_write (length a) (walk a tree).yielded [] none in
    let yielded : ((m : Address) → (walk a tree).raised ≡ some (some m) → ⊥)
        → Yields x d (walk a tree).yielded =
      λ no_match. elim (Bool-cases (starts_with x a)) [
        | inl i ↦ elim (c.below x d has i) [ inl y ↦ y | inr (m, r, _) ↦ absurd (no_match m r) ]
        | inr i ↦ c.above x d has (ground (arith, i, near))
      ] in
    elim (Option-cases (walk a tree).raised) [
      | inl r ↦
          found_in_write tree a x d found h t
            (unfold collected in
              (elim (Option-cases e.left) [
                | inl l ↦ ground (arith, f, r, l)
                | inr (s, l) ↦ ground (arith, f, r, l)
              ]))
            (yielded (λ m q. absurd (ground (arith, q, r))))
      | inr (match, r) ↦ elim (Option-cases e.left) [
        | inr (s, l) ↦ absurd (ground (arith, f, r, l))
        | inl l ↦ elim (Option-cases match) [
          | inl n ↦
              found_in_write tree a x d found h t (unfold collected in (ground (arith, f, r, l, n)))
                (yielded (λ m q. absurd (ground (arith, q, r, n))))
          | inr (m, n) ↦
              let raised : (walk a tree).raised ≡ some (some m) = ground (arith, r, n) in
              found_again_write tree a m x d found h t l raised has near (
                write_found depth tree m x d found
                  (starts_with_trans m a tree.address (c.match m raised) h) t
                  (ground (arith, f, r, l, n)) has)
        ]
      ]
    ]
