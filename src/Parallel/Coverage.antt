-- ===== src/Parallel/Coverage.antt =====
-- `walk` covers the tree: the theorem of `Walks`, by the recursion of the walk.
-- unless it raises with a match that stands for them.
use blockchain_node.Prelude.{
  ◌≡◌, refl, true, false, Option, none, some, [], ◌∷◌, arith, inl, inr, ◌⊎◌, Bool-cases,
  Option-cases,
}
use blockchain_node.Parallel.Tree.{
  Address, starts_with, Nodes, no_nodes, node, Node, size, descendants, Walk, child_below, walk_at,
  walk_children, walk,
}
use blockchain_node.Parallel.Prefix.{
  starts_with_refl, starts_with_trans, starts_with_comparable, starts_with_antisym,
  starts_with-length, less-prefix,
}
use blockchain_node.Parallel.Nodes.{
  Has, IsTree, Has-Extends, Yields, Yields-descendants, descendants-Has,
}
use blockchain_node.Parallel.Walks.{
  HasChild, child_over, same_child, no_common, child_below-some, child_below-none, Ordered-below,
  Ordered-cons, Covers,
}

module _ {D : Type 0} where
  -- what is known of the walk of the children of a node
  abbrev pub Walked : Address → Nodes D → Type 0
  Walked a nodes =
      ((walk_children a nodes ≡ none)
        × ((c : Address) → HasChild c nodes → starts_with a c ≡ false))
      ⊎ ((w : Walk D) × (walk_children a nodes ≡ some w)
          × Covers a w nodes
          × ((c : Address) × HasChild c nodes × (starts_with a c ≡ true)))

  -- the walk ends at `p`, which is `a`
  walk_here :
      (a p : Address) (d : Option D) (below : Nodes D)
      → starts_with a p ≡ true
      → starts_with p a ≡ true
      → IsTree p below
      → Covers a
          (record { yielded = (p, d) ∷ descendants (size below) below; raised = none })
          (node p d below no_nodes)
  walk_here a p d below h k t =
      let same = starts_with_antisym a p h k in
      let all_below : (x : Address) (e : D) → Has x e below → starts_with x a ≡ true =
        λ x e i. let (j, _) = Has-Extends p below x e t i in rw same j in
      let found : (x : Address) (e : D)
          → Has x e (node p d below no_nodes)
          → Yields x e ((p, d) ∷ descendants (size below) below) =
        λ x e i. elim i [
          | inl j ↦ inl j
          | inr (inl j) ↦ inr (Yields-descendants (size below) below x e (omega arith) j)
          | inr (inr j) ↦ absurd j
        ] in
      record {
        sound = λ x e i. elim i [
          | inl j ↦ inl j
          | inr j ↦ inr (inl (descendants-Has (size below) below x e j))
        ];
        above = λ x e i j. found x e i;
        below = λ x e i j. inl (found x e i);
        match = λ m i. absurd (ground (arith, i));
        ordered =
            Ordered-cons a p d (descendants (size below) below)
              (λ l. absurd (ground (arith, l, starts_with-length p a k)))
              (Ordered-below a (descendants (size below) below)
                (λ x e i. all_below x e (descendants-Has (size below) below x e i)));
      }

  -- the walk stops at `p`, above `a`
  walk_stops :
      (a p : Address) (d : Option D) (below : Nodes D)
      → starts_with a p ≡ true
      → starts_with p a ≡ false
      → IsTree p below
      → ((c : Address) → HasChild c below → starts_with a c ≡ false)
      → Covers a
          (record { yielded = (p, d) ∷ []; raised = some (child_below a below) })
          (node p d below no_nodes)
  walk_stops a p d below h k t none_over = record {
    sound = λ x e i. elim i [ inl j ↦ inl j | inr j ↦ absurd j ];
    above = λ x e i j. elim i [
      | inl l ↦ inl l
      | inr (inl l) ↦
          let (c, m, n) = child_over p below x e t l in
          absurd (ground (arith, none_over c m, starts_with_trans a x c j n))
      | inr (inr l) ↦ absurd l
    ];
    below = λ x e i j. elim i [
      | inl (l, _) ↦ (let m : starts_with p a ≡ true = rw⁻¹ l j in absurd (ground (arith, k, m)))
      | inr (inl l) ↦
          (let (c, m, n) = child_over p below x e t l in
            let at_c : starts_with c a ≡ true =
              ground (arith, none_over c m, starts_with_comparable x a c j n) in
            inr (elim (Option-cases (child_below a below)) [
              | inl o ↦ absurd (ground (arith, at_c, child_below-none a c below o m))
              | inr (b, o) ↦
                  let (q, r) = child_below-some a b below o in
                  let same = same_child p a b c below t q m r at_c k in (b, rw o refl, rw same n)
            ]))
      | inr (inr l) ↦ absurd l
    ];
    match = λ m i. let (_, j) = child_below-some a m below (ground (arith, i)) in j;
    ordered = Ordered-cons a p d [] (λ l x e i. absurd i) tt;
  }

  -- the walk goes on below `p`
  walk_on :
      (a p : Address) (d : Option D) (below : Nodes D) (w : Walk D)
      → starts_with a p ≡ true
      → starts_with p a ≡ false
      → IsTree p below
      → Covers a w below
      → Covers a
          (record { yielded = (p, d) ∷ w.yielded; raised = w.raised })
          (node p d below no_nodes)
  walk_on a p d below w h k t c = record {
    sound = λ x e i. elim i [ inl j ↦ inl j | inr j ↦ inr (inl (c.sound x e j)) ];
    above = λ x e i j. elim i [
      | inl l ↦ inl l
      | inr (inl l) ↦ inr (c.above x e l j)
      | inr (inr l) ↦ absurd l
    ];
    below = λ x e i j. elim i [
      | inl (l, _) ↦ (let m : starts_with p a ≡ true = rw⁻¹ l j in absurd (ground (arith, k, m)))
      | inr (inl l) ↦ elim (c.below x e l j) [ inl m ↦ inl (inr m) | inr m ↦ inr m ]
      | inr (inr l) ↦ absurd l
    ];
    match = c.match;
    ordered =
        Ordered-cons a p d w.yielded (λ l x e i. Has-Extends p below x e t (c.sound x e i))
          c.ordered;
  }

  walk_at-Covers :
      (a p : Address) (d : Option D) (below : Nodes D)
      → starts_with a p ≡ true
      → IsTree p below
      → Walked a below
      → Covers a (walk_at a p d below (walk_children a below)) (node p d below no_nodes)
  unfolding walk_at
  walk_at-Covers a p d below h t walked = elim (Bool-cases (starts_with p a)) [
    | inl k ↦ rw (less-prefix a p h, k) (walk_here a p d below h k t)
    | inr k ↦
        rw (less-prefix a p h, k)
          (elim walked [
            | inl (e, none_over) ↦ rw e (walk_stops a p d below h k t none_over)
            | inr (w, e, c, _) ↦ rw e (walk_on a p d below w h k t c)
          ])
  ]

  -- a node that is one of these, or one of the others
  pub split_first :
      (p x : Address) (d : Option D) (below others : Nodes D) (e : D)
      → Has x e (node p d below others)
      → Has x e (node p d below no_nodes) ⊎ Has x e others
  split_first p x d below others e (inl h) = inl (inl h)
  split_first p x d below others e (inr (inl h)) = inl (inr (inl h))
  split_first p x d below others e (inr (inr h)) = inr h

  pub join_first :
      (p x : Address) (d : Option D) (below others : Nodes D) (e : D)
      → Has x e (node p d below no_nodes)
      → Has x e (node p d below others)
  join_first p x d below others e (inl h) = inl h
  join_first p x d below others e (inr (inl h)) = inr (inl h)
  join_first p x d below others e (inr (inr h)) = absurd h

  pub first-starts_with :
      (p x : Address) (d : Option D) (below : Nodes D) (e : D)
      → IsTree p below
      → Has x e (node p d below no_nodes)
      → starts_with x p ≡ true
  first-starts_with p x d below e t (inl (h, k)) = rw h (starts_with_refl p)
  first-starts_with p x d below e t (inr (inl h)) = let (k, _) = Has-Extends p below x e t h in k
  first-starts_with p x d below e t (inr (inr h)) = absurd h

  Covers-beside :
      (a q p : Address) (d : Option D) (below others : Nodes D) (w : Walk D)
      → starts_with a p ≡ true
      → IsTree q (node p d below others)
      → Covers a w (node p d below no_nodes)
      → Covers a w (node p d below others)
  Covers-beside a q p d below others w h (g, s, t, u) c = record {
    sound = λ x e i. join_first p x d below others e (c.sound x e i);
    above = λ x e i j. elim (split_first p x d below others e i) [
      | inl k ↦ c.above x e k j
      | inr k ↦
          let (b, l, m) = child_over q others x e u k in
          absurd (no_common q p b a others g s u l h (starts_with_trans a x b j m))
    ];
    below = λ x e i j. elim (split_first p x d below others e i) [
      | inl k ↦ c.below x e k j
      | inr k ↦
          let (b, l, m) = child_over q others x e u k in
          absurd (no_common q p b x others g s u l (starts_with_trans x a p j h) m)
    ];
    match = c.match;
    ordered = c.ordered;
  }

  Covers-past :
      (a q p m : Address) (d : Option D) (below others : Nodes D) (w : Walk D)
      → starts_with a p ≡ false
      → IsTree q (node p d below others)
      → HasChild m others
      → starts_with a m ≡ true
      → Covers a w others
      → Covers a w (node p d below others)
  Covers-past a q p m d below others w h (g, s, t, u) k l c = record {
    sound = λ x e i. inr (inr (c.sound x e i));
    above = λ x e i j. elim (split_first p x d below others e i) [
      | inl n ↦
          absurd
            (ground (arith, h, starts_with_trans a x p j (first-starts_with p x d below e t n)))
      | inr n ↦ c.above x e n j
    ];
    below = λ x e i j. elim (split_first p x d below others e i) [
      | inl n ↦ absurd (
          no_common q p m x others g s u k (first-starts_with p x d below e t n)
            (starts_with_trans x a m j l))
      | inr n ↦ c.below x e n j
    ];
    match = c.match;
    ordered = c.ordered;
  }

  pub walk_children-Walked : (a q : Address) (nodes : Nodes D) → IsTree q nodes → Walked a nodes
  unfolding walk_children
  walk_children-Walked a q no_nodes t = inl (refl, λ c h. absurd h)
  walk_children-Walked a q (node p d below others) (g, s, t, u) =
      elim (Bool-cases (starts_with a p)) [
        | inl h ↦
            let c = walk_at-Covers a p d below h t (walk_children-Walked a p below t) in
            inr (
              walk_at a p d below (walk_children a below),
              ground (arith, h),
              Covers-beside a q p d below others _ h (g, s, t, u) c,
              (p, inl refl, h),
            )
        | inr h ↦ elim (walk_children-Walked a q others u) [
          | inl (e, n) ↦
              inl (ground (arith, h, e), λ c i. elim i [ inl o ↦ rw o h | inr o ↦ n c o ])
          | inr (w, e, c, (m, i, j)) ↦ inr (
            w,
            ground (arith, h, e),
            Covers-past a q p m d below others w h (g, s, t, u) i j c,
            (m, inr i, j),
          )
        ]
      ]

  -- The walk from the root yields every node whose address the wanted one starts with, and
  -- every node that starts with the wanted one or else, with the match that it raises; nothing
  -- else. After a node with data that is shorter than the wanted address come only nodes below
  -- it.
  pub walk-Covers :
      (a : Address) (root : Node D)
      → starts_with a root.address ≡ true
      → IsTree root.address root.children
      → Covers a (walk a root) (node root.address root.value root.children no_nodes)
  unfolding walk
  walk-Covers a root h t =
      walk_at-Covers a root.address root.value root.children h t
        (walk_children-Walked a root.address root.children t)
