-- ===== src/Parallel/Totality.antt =====
-- `find_write_predecessors` and `find_read_predecessors` return: where the walk raises a match, the
-- walk to the match does not raise, and the loop before it has not broken.
use blockchain_node.Prelude.{
  ℕ, suc, String, ◌≡◌, refl, ◌∙◌, true, false, Option, none, some, List, [], ◌∷◌, arith, inl, inr,
  Bool-cases, Option-cases, length, leb,
}
use blockchain_node.Python.{Result, ok}
use blockchain_node.Parallel.Tree.{
  Address, starts_with, less, Nodes, no_nodes, node, Node, Walk, walk, walk_at, walk_children,
  child_below,
}
use blockchain_node.Parallel.Prefix.{
  starts_with_refl, starts_with_trans, starts_with-longer, less-prefix,
}
use blockchain_node.Parallel.Nodes.{IsTree}
use blockchain_node.Parallel.Walks.{HasChild, no_common, child_below-some}
use blockchain_node.Parallel.Coverage.{walk-Covers, walk_children-Walked}
use blockchain_node.Parallel.Predecessors.{
  Predecessors, PredecessorTree, Enclosing, nearer, add_all, add_option, enclosing_write,
  enclosing_read, after_enclosing, find_write_predecessors, find_read_predecessors,
}
use blockchain_node.Parallel.Queries.{IsPrefixTree, starts_with-root}

shorter :
    (a p : Address) → starts_with a p ≡ true → less p a ≡ true → leb (length a) (length p) ≡ false
shorter a p h l = elim (Bool-cases (leb (length a) (length p))) [
  | inl e ↦
      absurd (ground (arith, l, less-prefix a p h, starts_with-longer a p h (ground (arith, e))))
  | inr e ↦ e
]

module _ {D : Type 0} where
  -- every address of the stream is shorter
  abbrev pub Short : ℕ → List (Address × Option D) → Type 0
  Short n [] = Unit {0}
  Short n ((p, d) ∷ stream) = (leb n (length p) ≡ false) × Short n stream

  walk_children-Short :
      (a : Address) (nodes : Nodes D) (w : Walk D) (r : Option Address)
      → walk_children a nodes ≡ some w
      → w.raised ≡ some r
      → Short (length a) w.yielded
  unfolding walk_children walk_at
  walk_children-Short a no_nodes w r h k = absurd (ground (arith, h))
  walk_children-Short a (node p d below others) w r h k = elim (Bool-cases (starts_with a p)) [
    | inl e ↦ elim (Bool-cases (less p a)) [
      | inl l ↦ elim (Option-cases (walk_children a below)) [
        | inl m ↦
            let same : w ≡ record { yielded = (p, d) ∷ []; raised = some (child_below a below) } =
              ground (arith, h, e, l, m) in
            rw same (shorter a p e l, tt)
        | inr (v, m) ↦
            let same : w ≡ record { yielded = (p, d) ∷ v.yielded; raised = v.raised } =
              ground (arith, h, e, l, m) in
            rw same (shorter a p e l, walk_children-Short a below v r m (ground (arith, same, k)))
      ]
      | inr l ↦ absurd (ground (arith, h, e, l, k))
    ]
    | inr e ↦ walk_children-Short a others w r (ground (arith, h, e)) k
  ]

  -- the walk reaches a child
  walk_children-child :
      (q m : Address) (nodes : Nodes D)
      → IsTree q nodes
      → HasChild m nodes
      → (w : Walk D) × (walk_children m nodes ≡ some w) × (w.raised ≡ none)
  unfolding walk_children walk_at
  walk_children-child q m no_nodes t h = absurd h
  walk_children-child q m (node p d below others) t (inl h) =
      let at_p : starts_with m p ≡ true = rw h (starts_with_refl p) in
      let not_less : less p m ≡ false =
        rw h (ground (arith, less-prefix p p (starts_with_refl p), starts_with_refl p)) in
      (walk_at m p d below (walk_children m below), ground (arith, at_p), ground (arith, not_less))
  walk_children-child q m (node p d below others) (g, s, t, u) (inr h) =
      elim (Bool-cases (starts_with m p)) [
        | inl e ↦ absurd (no_common q p m m others g s u h e (starts_with_refl m))
        | inr e ↦ let (w, i, j) = walk_children-child q m others u h in (w, ground (arith, e, i), j)
      ]

  -- the walk to a match below a node does not raise
  walk_at-match :
      (a m p : Address) (d : Option D) (below : Nodes D)
      → IsTree p below
      → starts_with a p ≡ true
      → starts_with m a ≡ true
      → ((w : Walk D)
          → walk_children a below ≡ some w
          → w.raised ≡ some (some m)
          → (v : Walk D) × (walk_children m below ≡ some v) × (v.raised ≡ none))
      → (walk_at a p d below (walk_children a below)).raised ≡ some (some m)
      → (walk_at m p d below (walk_children m below)).raised ≡ none
  unfolding walk_at
  walk_at-match a m p d below t e b ih k = elim (Bool-cases (less p a)) [
    | inr l ↦ absurd (ground (arith, l, k))
    | inl l ↦
        let m_p = starts_with_trans m a p b e in
        let not_p : starts_with p a ≡ false = ground (arith, l, less-prefix a p e) in
        let not_m : starts_with p m ≡ false = elim (Bool-cases (starts_with p m)) [
          | inl n ↦ absurd (ground (arith, not_p, starts_with_trans p m a n b))
          | inr n ↦ n
        ] in
        let m_l : less p m ≡ true = ground (arith, not_m, less-prefix m p m_p) in
        let reached : (v : Walk D) × (walk_children m below ≡ some v) × (v.raised ≡ none) =
          elim (Option-cases (walk_children a below)) [
            | inl n ↦
                let same : child_below a below ≡ some m = ground (arith, l, n, k) in
                walk_children-child p m below t (child_below-some a m below same).0
            | inr (v, n) ↦ ih v n (ground (arith, l, n, k))
          ] in
        let (v, n, r) = reached in ground (arith, m_l, n, r)
  ]

  walk_children-match :
      (q a m : Address) (nodes : Nodes D) (w : Walk D)
      → IsTree q nodes
      → walk_children a nodes ≡ some w
      → w.raised ≡ some (some m)
      → starts_with m a ≡ true
      → (v : Walk D) × (walk_children m nodes ≡ some v) × (v.raised ≡ none)
  unfolding walk_children
  walk_children-match q a m no_nodes w t h k b = absurd (ground (arith, h))
  walk_children-match q a m (node p d below others) w (g, s, t, u) h k b =
      elim (Bool-cases (starts_with a p)) [
        | inl e ↦
            let same : w ≡ walk_at a p d below (walk_children a below) = ground (arith, h, e) in
            (
              walk_at m p d below (walk_children m below),
              ground (arith, starts_with_trans m a p b e),
              walk_at-match a m p d below t e b (λ v n r. walk_children-match p a m below v t n r b)
                  (rw⁻¹ same k),
            )
        | inr e ↦
            let below_other : starts_with m p ≡ false = elim (walk_children-Walked a q others u) [
              | inl (n, _) ↦ absurd (ground (arith, n, h, e))
              | inr (_, _, _, (c, i, j)) ↦ elim (Bool-cases (starts_with m p)) [
                | inl n ↦ absurd (no_common q p c m others g s u i n (starts_with_trans m a c b j))
                | inr n ↦ n
              ]
            ] in
            let (v, n, r) = walk_children-match q a m others w u (ground (arith, h, e)) k b in
            (v, ground (arith, below_other, n), r)
      ]

  walk-Short :
      (a : Address) (root : Node D) (r : Option Address)
      → starts_with a root.address ≡ true
      → (walk a root).raised ≡ some r
      → Short (length a) (walk a root).yielded
  unfolding walk
  walk-Short a root r h k =
      let others : Nodes D = no_nodes in
      walk_children-Short a (node root.address root.value root.children others) (walk a root) r
        (unfold walk_children in (ground (arith, h))) k

  walk-match :
      (a m : Address) (root : Node D)
      → starts_with a root.address ≡ true
      → IsTree root.address root.children
      → (walk a root).raised ≡ some (some m)
      → starts_with m a ≡ true
      → (walk m root).raised ≡ none
  unfolding walk
  walk-match a m root h t k b =
      walk_at-match a m root.address root.value root.children t h b
        (λ v n r. walk_children-match root.address a m root.children v t n r b) k

pub Short-enclosing_write :
    (n : ℕ) (stream : List (Address × Option Predecessors)) (preds : List String)
    (enc : Option String)
    → Short n stream
    → (enclosing_write n stream preds enc).left ≡ none
unfolding enclosing_write
Short-enclosing_write n [] preds enc h = refl
Short-enclosing_write n ((p, none) ∷ stream) preds enc (h, k) =
    Short-enclosing_write n stream preds enc k
Short-enclosing_write n ((p, some d) ∷ stream) preds enc (h, k) =
    rw h (Short-enclosing_write n stream (add_all preds d.readers) (nearer d.writer enc) k)

pub Short-enclosing_read :
    (n : ℕ) (stream : List (Address × Option Predecessors)) (enc : Option String)
    → Short n stream
    → (enclosing_read n stream enc).left ≡ none
unfolding enclosing_read
Short-enclosing_read n [] enc h = refl
Short-enclosing_read n ((p, none) ∷ stream) enc (h, k) = Short-enclosing_read n stream enc k
Short-enclosing_read n ((p, some d) ∷ stream) enc (h, k) =
    rw h (Short-enclosing_read n stream (nearer d.writer enc) k)

-- after a walk that does not raise
after_walk :
    (second : List (Address × Option Predecessors) → List String → List String) (e : Enclosing)
    (raised : Option (Option Address)) (again : Address → Result (List String))
    → raised ≡ none
    → (found : List String) × (after_enclosing second e raised again ≡ ok found)
unfolding after_enclosing
after_walk second e raised again h = elim (Option-cases e.left) [
  | inl l ↦ (add_option e.predecessors e.enclosing_writer, ground (arith, l, h))
  | inr (s, l) ↦ (second s (add_option e.predecessors e.enclosing_writer), ground (arith, l, h))
]

-- after a walk that raises, and a loop that has not broken
after_raise :
    (second : List (Address × Option Predecessors) → List String → List String) (e : Enclosing)
    (match : Option Address) (raised : Option (Option Address))
    (again : Address → Result (List String))
    → e.left ≡ none
    → raised ≡ some match
    → ((m : Address) → match ≡ some m → (found : List String) × (again m ≡ ok found))
    → (found : List String) × (after_enclosing second e raised again ≡ ok found)
unfolding after_enclosing
after_raise second e none raised again l h k =
    (add_option e.predecessors e.enclosing_writer, ground (arith, l, h))
after_raise second e (some m) raised again l h k =
    let (found, n) = k m refl in (found, ground (arith, l, h, n))

-- The search for the predecessors of a write returns without an error for every prefix tree
-- and address, where two nested calls or more are allowed.
pub find_write_total :
    (n : ℕ) (tree : PredecessorTree) (a : Address)
    → IsPrefixTree tree
    → (found : List String) × (find_write_predecessors (suc (suc n)) tree a ≡ ok found)
unfolding find_write_predecessors
find_write_total n tree a (root, t) =
    let h = starts_with-root a tree root in
    elim (Option-cases (walk a tree).raised) [
      | inl r ↦ after_walk _ _ _ _ r
      | inr (match, r) ↦
          after_raise _ _ match _ _
            (Short-enclosing_write (length a) (walk a tree).yielded [] none
              (walk-Short a tree match h r))
            r
            (λ m i.
              let raised : (walk a tree).raised ≡ some (some m) = r ∙ (rw i refl) in
              after_walk _ _ _ _
                (walk-match a m tree h t raised ((walk-Covers a tree h t).match m raised)))
    ]

-- The search for the predecessors of a read returns without an error for every prefix tree and
-- address, where two nested calls or more are allowed.
pub find_read_total :
    (n : ℕ) (tree : PredecessorTree) (a : Address)
    → IsPrefixTree tree
    → (found : List String) × (find_read_predecessors (suc (suc n)) tree a ≡ ok found)
unfolding find_read_predecessors
find_read_total n tree a (root, t) =
    let h = starts_with-root a tree root in
    elim (Option-cases (walk a tree).raised) [
      | inl r ↦ after_walk _ _ _ _ r
      | inr (match, r) ↦
          after_raise _ _ match _ _
            (Short-enclosing_read (length a) (walk a tree).yielded none
              (walk-Short a tree match h r))
            r
            (λ m i.
              let raised : (walk a tree).raised ≡ some (some m) = r ∙ (rw i refl) in
              after_walk _ _ _ _
                (walk-match a m tree h t raised ((walk-Covers a tree h t).match m raised)))
    ]
