-- ===== src/Parallel/ReadQueries.antt =====
-- What `find_read_predecessors` finds, over a prefix tree: for every node above or below the address,
-- its writer or a writer further below it.
use blockchain_node.Prelude.{
  ℕ, zero, suc, String, ◌≡◌, true, ◌||◌, none, some, List, arith, inl, inr, Bool-cases,
  Option-cases, length,
}
use blockchain_node.Python.{ok}
use blockchain_node.Parallel.Tree.{Address, starts_with, walk}
use blockchain_node.Parallel.Prefix.{starts_with_trans, starts_with-length}
use blockchain_node.Parallel.Nodes.{IsTree, Yields}
use blockchain_node.Parallel.Coverage.{walk-Covers}
use blockchain_node.Parallel.Predecessors.{
  Predecessors, PredecessorTree, enclosing_read, below_read, after_enclosing,
  find_read_predecessors,
}
use blockchain_node.Parallel.Finding.{collected}
use blockchain_node.Parallel.ReadLoops.{enclosing_read-writer, enclosing_read-left}
use blockchain_node.Parallel.Queries.{HasNode, WriterFound}

-- what a read finds of a node
abbrev pub FoundRead : List String → PredecessorTree → Address → Address → Predecessors → Type 0
FoundRead found tree a x d = WriterFound found tree a x d

found_in_read :
    (tree : PredecessorTree) (a x : Address) (d : Predecessors) (found : List String)
    → starts_with a tree.address ≡ true
    → IsTree tree.address tree.children
    → found ≡ collected below_read (enclosing_read (length a) (walk a tree).yielded none)
    → Yields x d (walk a tree).yielded
    → FoundRead found tree a x d
found_in_read tree a x d found h t same y =
    let c = walk-Covers a tree h t in
    let writer : WriterFound found tree a x d = λ w i.
      rw same (elim (enclosing_read-writer a (walk a tree).yielded none x d w c.ordered y i) [
        | inl j ↦ inl j
        | inr (l, (z, b, v, e, (j, k, m))) ↦ inr (
          elim (Bool-cases (starts_with x a)) [
            | inl n ↦ absurd (ground (arith, l, starts_with-length x a n))
            | inr n ↦ n
          ],
          (z, b, v, e, (c.sound z b j, k, m)),
        )
      ]) in
    writer

found_again_read :
    (tree : PredecessorTree) (a m x : Address) (d : Predecessors) (found : List String)
    → starts_with a tree.address ≡ true
    → IsTree tree.address tree.children
    → (enclosing_read (length a) (walk a tree).yielded none).left ≡ none
    → (walk a tree).raised ≡ some (some m)
    → HasNode tree x d
    → (starts_with x a || starts_with a x) ≡ true
    → ((starts_with x m || starts_with m x) ≡ true → FoundRead found tree m x d)
    → FoundRead found tree a x d
found_again_read tree a m x d found h t left raised has near ih =
    let c = walk-Covers a tree h t in
    let m_below = c.match m raised in
    elim (Bool-cases (starts_with x a)) [
      | inl i ↦
          let at_m : starts_with x m ≡ true = elim (c.below x d has i) [
            | inl y ↦ absurd (
                ground (
                  arith,
                  enclosing_read-left (length a) (walk a tree).yielded none x d left y,
                  starts_with-length x a i,
                ))
            | inr (b, r, j) ↦ let same : b ≡ m = ground (arith, r, raised) in rw⁻¹ same j
          ] in
          let f = ih (ground (arith, at_m)) in
          let writer : WriterFound found tree a x d =
            λ w j. elim (f w j) [ inl k ↦ inl k | inr (k, _) ↦ absurd (ground (arith, k, at_m)) ] in
          writer
      | inr i ↦
          let a_x : starts_with a x ≡ true = ground (arith, i, near) in
          let f = ih (ground (arith, starts_with_trans m a x m_below a_x)) in
          let writer : WriterFound found tree a x d =
            λ w j. elim (f w j) [ inl k ↦ inl k | inr (_, k) ↦ inr (i, k) ] in
          writer
    ]

-- In a prefix tree, where the search for the predecessors of a read returns, of every node
-- whose address starts with the address or the other way round, the writer is found or, where
-- the node is above the address, a writer of a node further below it.
pub read_found :
    (depth : ℕ) (tree : PredecessorTree) (a x : Address) (d : Predecessors) (found : List String)
    → starts_with a tree.address ≡ true
    → IsTree tree.address tree.children
    → find_read_predecessors depth tree a ≡ ok found
    → HasNode tree x d
    → (starts_with x a || starts_with a x) ≡ true
    → FoundRead found tree a x d
unfolding find_read_predecessors after_enclosing
read_found zero tree a x d found h t f has near = absurd (ground (arith, f))
read_found (suc depth) tree a x d found h t f has near =
    let c = walk-Covers a tree h t in
    let e = enclosing_read (length a) (walk a tree).yielded none in
    let yielded : ((m : Address) → (walk a tree).raised ≡ some (some m) → ⊥)
        → Yields x d (walk a tree).yielded =
      λ no_match. elim (Bool-cases (starts_with x a)) [
        | inl i ↦ elim (c.below x d has i) [ inl y ↦ y | inr (m, r, _) ↦ absurd (no_match m r) ]
        | inr i ↦ c.above x d has (ground (arith, i, near))
      ] in
    elim (Option-cases (walk a tree).raised) [
      | inl r ↦
          found_in_read tree a x d found h t
            (unfold collected in
              (elim (Option-cases e.left) [
                | inl l ↦ ground (arith, f, r, l)
                | inr (s, l) ↦ ground (arith, f, r, l)
              ]))
            (yielded (λ m q. absurd (ground (arith, q, r))))
      | inr (match, r) ↦ elim (Option-cases e.left) [
        | inr (s, l) ↦ absurd (ground (arith, f, r, l))
        | inl l ↦ elim (Option-cases match) [
          | inl n ↦
              found_in_read tree a x d found h t (unfold collected in (ground (arith, f, r, l, n)))
                (yielded (λ m q. absurd (ground (arith, q, r, n))))
          | inr (m, n) ↦
              let raised : (walk a tree).raised ≡ some (some m) = ground (arith, r, n) in
              found_again_read tree a m x d found h t l raised has near (
                read_found depth tree m x d found
                  (starts_with_trans m a tree.address (c.match m raised) h) t
                  (ground (arith, f, r, l, n)) has)
        ]
      ]
    ]
