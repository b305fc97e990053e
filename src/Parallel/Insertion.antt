-- ===== src/Parallel/Insertion.antt =====
-- `update`: what it does to a prefix tree, on every branch of the walk and of `_get_or_create`.
use blockchain_node.Prelude.{
  ◌≡◌, refl, Bool, true, false, Option, none, some, arith, inl, inr, Bool-cases, Option-cases,
  length, if◌then◌else◌,
}
use blockchain_node.Parallel.Tree.{
  Address, starts_with, Nodes, no_nodes, node, Node, put_node, same_next, next_match, common_prefix,
  add_node,
}
use blockchain_node.Parallel.Prefix.{
  starts_with_refl, starts_with_trans, starts_with_comparable, same_next-apart, common_prefix_lem,
}
use blockchain_node.Parallel.Nodes.{Has, IsTree}
use blockchain_node.Parallel.Walks.{HasChild, child-Extends, child_over}
use blockchain_node.Parallel.Coverage.{split_first, join_first, first-starts_with}
use blockchain_node.Parallel.Updates.{pruned-Has, not_pruned, pruned-IsTree, Change, finish}
use blockchain_node.Parallel.Additions.{
  next_match-none, Picked, next_match-Picked, Apart-all, Apart-prefix, others_miss,
}

module _ {D : Type 0} (a : Address) (u : Option D → D) (prune : Bool) where
  abbrev pub Added : Address → Nodes D → Nodes D → Type 0
  Added p nodes nodes' = Change a u prune nodes nodes' × IsTree p nodes'

  -- no child is above `a`
  abbrev pub NoneOver : Nodes D → Type 0
  NoneOver nodes = (c : Address) → HasChild c nodes → starts_with a c ≡ false

  -- then `a` has no data yet
  none_there :
      (p : Address) (nodes : Nodes D) (d : D) → IsTree p nodes → NoneOver nodes → Has a d nodes → ⊥
  none_there p nodes d t none_over h =
      let (c, i, j) = child_over p nodes a d t h in ground (arith, none_over c i, j)

  abbrev new_value : Option D
  new_value = some (u none)

  -- no child goes on as `a` does
  add_alone :
      (p : Address) (nodes : Nodes D)
      → IsTree p nodes
      → starts_with a p ≡ true
      → starts_with p a ≡ false
      → NoneOver nodes
      → ((c : Address) → HasChild c nodes → same_next (length p) a c ≡ false)
      → Added p nodes (node a new_value (if prune then no_nodes else no_nodes) nodes)
  add_alone p nodes t h k none_over apart =
      let miss : (c : Address) → HasChild c nodes → starts_with c a ≡ false = λ c i.
        let (g, _) = child-Extends p c nodes t i in
        ground (arith, same_next-apart p a c a h g (apart c i) (starts_with_refl a), k) in
      (
        record {
          kept = λ x e i j. inr (inr i);
          origin = λ x e i. elim i [
            | inl (l, m) ↦ inr (l, inl (ground (arith, m)))
            | inr (inl l) ↦ let (_, m) = pruned-Has prune no_nodes x e l in absurd m
            | inr (inr l) ↦
                let (c, m, n) = child_over p nodes x e t l in
                inl (
                  l,
                  elim (Bool-cases (starts_with x a)) [
                    | inl o ↦
                        absurd (
                          ground (arith, starts_with_comparable x a c o n, miss c m, none_over c m))
                    | inr o ↦ ground (arith, o)
                  ],
                )
          ];
          updated = λ d i. absurd (none_there p nodes d t none_over i);
          placed = (u none, inl (refl, refl), inl refl);
        },
        (
          (h, k),
          Apart-all p a nodes (λ c i x j l.
              let (g, _) = child-Extends p c nodes t i in
              same_next-apart p a c x h g (apart c i) j l),
          pruned-IsTree prune a no_nodes tt,
          t,
        ),
      )

  -- the match is below `a`
  add_above :
      (p : Address) (nodes others : Nodes D) (m : Node D)
      → IsTree p nodes
      → starts_with a p ≡ true
      → starts_with p a ≡ false
      → NoneOver nodes
      → Picked p (length p) a m others nodes
      → starts_with m.address a ≡ true
      → Added p nodes (node a new_value (if prune then no_nodes else put_node m no_nodes) others)
  add_above p nodes others m t h k none_over pk below =
      let (gm, sm, tm, vo) = pk.tree in
      let not_over = none_over m.address pk.child in
      let first = λ (x : Address) (e : D) (i : Has x e (put_node m no_nodes)).
        first-starts_with m.address x m.value m.children e tm i in
      (
        record {
          kept = λ x e i j.
              elim (split_first m.address x m.value m.children others e (pk.there x e i)) [
                | inl l ↦ inr (
                    inl (
                      not_pruned prune (put_node m no_nodes) x e
                        (ground (arith, j, starts_with_trans x m.address a (first x e l) below)) l))
                | inr l ↦ inr (inr l)
              ];
          origin = λ x e i. elim i [
            | inl (l, n) ↦ inr (l, inl (ground (arith, n)))
            | inr (inl l) ↦
                let (b, n) = pruned-Has prune (put_node m no_nodes) x e l in
                inl (
                  pk.back x e (join_first m.address x m.value m.children others e n),
                  ground (arith, b, not_over, first x e n, starts_with_trans a x m.address),
                )
            | inr (inr l) ↦ inl (
              pk.back x e (inr (inr l)),
              ground (arith, others_miss p m.address a x others e sm vo below k l),
            )
          ];
          updated = λ d i. absurd (none_there p nodes d t none_over i);
          placed = (u none, inl (refl, refl), inl refl);
        },
        (
          (h, k),
          Apart-prefix p a m.address others below sm,
          pruned-IsTree prune a (put_node m no_nodes) ((below, not_over), tt, tm, tt),
          vo,
        ),
      )

  -- the match and `a` part below a common prefix
  add_beside :
      (p : Address) (nodes others : Nodes D) (m : Node D)
      → IsTree p nodes
      → starts_with a p ≡ true
      → starts_with p a ≡ false
      → NoneOver nodes
      → Picked p (length p) a m others nodes
      → starts_with m.address a ≡ false
      → Added p nodes (
          node
            (common_prefix a m.address)
            none
            (node a new_value (if prune then no_nodes else no_nodes) (put_node m no_nodes))
            others)
  add_beside p nodes others m t h k none_over pk beside =
      let (gm, sm, tm, vo) = pk.tree in
      let (g1, _) = gm in
      let not_over = none_over m.address pk.child in
      let z = common_prefix a m.address in
      let (c1, c2, c3, c4, c5) = common_prefix_lem p a m.address h g1 pk.same in
      (
        record {
          kept = λ x e i j.
              elim (split_first m.address x m.value m.children others e (pk.there x e i)) [
                | inl l ↦ inr (inl (inr (inr l)))
                | inr l ↦ inr (inr l)
              ];
          origin = λ x e i. elim i [
            | inl (l, n) ↦ absurd (ground (arith, n))
            | inr (inl (inl (l, n))) ↦ inr (l, inl (ground (arith, n)))
            | inr (inl (inr (inl l))) ↦ let (_, n) = pruned-Has prune no_nodes x e l in absurd n
            | inr (inl (inr (inr l))) ↦ inl (
              pk.back x e (join_first m.address x m.value m.children others e l),
              elim (Bool-cases (starts_with x a)) [
                | inl o ↦ absurd (
                    ground (
                      arith,
                      starts_with_comparable x a m.address o
                          (first-starts_with m.address x m.value m.children e tm l),
                      beside,
                      not_over,
                    ))
                | inr o ↦ ground (arith, o)
              ],
            )
            | inr (inr l) ↦ inl (
              pk.back x e (inr (inr l)),
              ground (
                arith,
                others_miss p m.address z x others e sm vo c2 c4 l,
                λ (o : starts_with x a ≡ true). starts_with_trans x a z o c1,
              ),
            )
          ];
          updated = λ d i. absurd (none_there p nodes d t none_over i);
          placed = (u none, inr (inl (inl (refl, refl))), inl refl);
        },
        (
          (c3, c4),
          Apart-prefix p z m.address others c2 sm,
          (
            (c1, ground (arith, starts_with_trans m.address z a c2, beside)),
            (c5, tt),
            pruned-IsTree prune a no_nodes tt,
            ((c2, ground (arith, starts_with_trans a z m.address c1, not_over)), tt, tm, tt),
          ),
          vo,
        ),
      )

  pub add_node-Added :
      (n : Node D)
      → IsTree n.address n.children
      → starts_with a n.address ≡ true
      → starts_with n.address a ≡ false
      → NoneOver n.children
      → Added n.address n.children (add_node a (finish a u prune) n).children
  unfolding add_node
  add_node-Added n t h k none_over =
      elim (Option-cases (next_match (length n.address) a n.children)) [
        | inl e ↦
            rw (e, add_node)
              (add_alone n.address n.children t h k none_over
                (λ c i. next_match-none (length n.address) a c n.children e i))
        | inr ((m, others), e) ↦
            let pk = next_match-Picked n.address (length n.address) a m others n.children t e in
            elim (Bool-cases (starts_with m.address a)) [
              | inl b ↦
                  rw (e, add_node)
                    (rw (b, add_node)
                      (add_above n.address n.children others m t h k none_over pk b))
              | inr b ↦
                  rw (e, add_node)
                    (rw (b, add_node)
                      (add_beside n.address n.children others m t h k none_over pk b))
            ]
      ]
