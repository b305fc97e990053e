-- ===== src/Parallel/Rewriting.antt =====
-- `update` over the whole tree: by the recursion of the walk.
use blockchain_node.Prelude.{
  ◌≡◌, refl, Bool, true, Option, none, some, arith, inl, inr, ◌⊎◌, Bool-cases, Option-cases, length,
}
use blockchain_node.Parallel.Tree.{
  Address, starts_with, Nodes, no_nodes, node, Node, put_node, at_address, in_children,
  walk_and_change, next_match, add_node, update,
}
use blockchain_node.Parallel.Prefix.{less-prefix}
use blockchain_node.Parallel.Nodes.{Apart, IsTree}
use blockchain_node.Parallel.Walks.{HasChild}
use blockchain_node.Parallel.Updates.{
  pruned-IsTree, Change, finish, Change-below, Change-others, Change-here, Far, others-Far,
}
use blockchain_node.Parallel.Insertion.{NoneOver, add_node-Added}

add_node-shape :
    {D : Type 0} (a : Address) (f : Node D → Node D) (n : Node D)
    → add_node a f n ≡ record n { children = (add_node a f n).children }
unfolding add_node
add_node-shape a f n = elim (Option-cases (next_match (length n.address) a n.children)) [
  | inl e ↦ rw (e, add_node) refl
  | inr ((m, others), e) ↦ elim (Bool-cases (starts_with m.address a)) [
    | inl b ↦ rw (e, add_node) (rw (b, add_node) refl)
    | inr b ↦ rw (e, add_node) (rw (b, add_node) refl)
  ]
]

module _ {D : Type 0} (a : Address) (u : Option D → D) (prune : Bool) where
  -- the change, and that the children stay where they are
  abbrev pub Good : Address → Nodes D → Nodes D → Type 0
  Good q nodes nodes' =
      Change a u prune nodes nodes'
      × IsTree q nodes'
      × ((b : Address) → Apart q b nodes → Apart q b nodes')

  abbrev done : Node D → Node D
  done = finish a u prune

  abbrev added : Node D → Node D
  added = add_node a (finish a u prune)

  abbrev Changed : Address → Nodes D → Type 0
  Changed q nodes =
      ((in_children a done added nodes ≡ none) × NoneOver a u prune nodes)
      ⊎ ((nodes' : Nodes D) × (in_children a done added nodes ≡ some nodes')
          × Good q nodes nodes'
          × ((c : Address) × HasChild c nodes × (starts_with a c ≡ true)))

  at_address-Change :
      (p : Address) (d : Option D) (below others : Nodes D)
      → Far a u prune others
      → IsTree p below
      → starts_with a p ≡ true
      → Changed p below
      → let n =
          at_address a done added
            (record { address = p; value = d; children = below })
            (in_children a done added below) in
        (n.address ≡ p)
        × IsTree p n.children
        × Change a u prune (node p d below others) (node p n.value n.children others)
  unfolding at_address
  at_address-Change p d below others far t h changed =
      let n : Node D = record { address = p; value = d; children = below } in
      elim (Bool-cases (starts_with p a)) [
        | inl k ↦
            rw (less-prefix a p h, k)
              (
                refl,
                pruned-IsTree prune p below t,
                Change-here a u prune p d below others far t h k,
              )
        | inr k ↦
            rw (less-prefix a p h, k)
              (elim changed [
                | inl (e, none_over) ↦
                    let (c, tree) = add_node-Added a u prune n t h k none_over in
                    rw (e, add_node-shape a done n)
                      (
                        refl,
                        tree,
                        Change-below a u prune p d below (added n).children others far k c,
                      )
                | inr (below', e, (c, tree, ap), _) ↦
                    rw e (refl, tree, Change-below a u prune p d below below' others far k c)
              ])
      ]

  at_address-Good :
      (q p : Address) (d : Option D) (below others : Nodes D)
      → IsTree q (node p d below others)
      → starts_with a p ≡ true
      → Changed p below
      → let n : Node D = record { address = p; value = d; children = below } in
        Good q
          (node p d below others)
          (put_node (at_address a done added n (in_children a done added below)) others)
  at_address-Good q p d below others (g, s, t, v) h changed =
      let far = others-Far a u prune q p d below others (g, s, t, v) h in
      let (same, tree, c) = at_address-Change p d below others far t h changed in
      rw same (c, (g, s, tree, v), λ b i. i)

  in_children-Changed : (q : Address) (nodes : Nodes D) → IsTree q nodes → Changed q nodes
  unfolding in_children
  in_children-Changed q no_nodes t = inl (refl, λ c i. absurd i)
  in_children-Changed q (node p d below others) (g, s, t, v) =
      let n : Node D = record { address = p; value = d; children = below } in
      elim (Bool-cases (starts_with a p)) [
        | inl h ↦
            let good =
              at_address-Good q p d below others (g, s, t, v) h (in_children-Changed p below t) in
            inr (
              put_node (at_address a done added n (in_children a done added below)) others,
              ground (arith, h),
              good,
              (p, inl refl, h),
            )
        | inr h ↦ elim (in_children-Changed q others v) [
          | inl (e, none_over) ↦
              inl (ground (arith, h, e), λ c i. elim i [ inl j ↦ rw j h | inr j ↦ none_over c j ])
          | inr (others', e, (c, tree, ap), (m, i, j)) ↦ inr (
            node p d below others',
            ground (arith, h, e),
            (
              Change-others a u prune q p m d below others others' (g, s, t, v) h i j c,
              (g, ap p s, t, tree),
              λ b l. let (l1, l2) = l in (l1, ap b l2),
            ),
            (m, inr i, j),
          )
        ]
      ]

  -- An update of a prefix tree leaves a prefix tree. The nodes at the address and, where it
  -- prunes, below it give way to one node with the updated data; all others stay as they are.
  pub update-Change :
      (root : Node D)
      → starts_with a root.address ≡ true
      → IsTree root.address root.children
      → let nodes = node root.address root.value root.children no_nodes in
        let root' = update a u prune root in
        (root'.address ≡ root.address)
        × IsTree root.address root'.children
        × Change a u prune nodes (node root.address root'.value root'.children no_nodes)
  unfolding update walk_and_change
  update-Change root h t =
      at_address-Change root.address root.value root.children no_nodes (λ x e i. absurd i) t h
        (in_children-Changed root.address root.children t)
