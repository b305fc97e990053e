-- ===== src/Parallel/Additions.antt =====
-- `add_node`: a new node keeps the prefix tree one, and changes nothing else.
use blockchain_node.Prelude.{
  ℕ, ◌≡◌, refl, true, false, Option, none, some, arith, inl, inr, Bool-cases, Option-cases,
}
use blockchain_node.Parallel.Tree.{
  Address, starts_with, Nodes, no_nodes, node, Node, put_node, same_next, next_match,
}
use blockchain_node.Parallel.Prefix.{starts_with_refl, starts_with_trans, starts_with_comparable}
use blockchain_node.Parallel.Nodes.{Has, Extends, Apart, IsTree}
use blockchain_node.Parallel.Walks.{HasChild, Apart-child, child-Extends, child_over}

module _ {D : Type 0} where
  pub next_match-none :
      (k : ℕ) (a c : Address) (nodes : Nodes D)
      → next_match k a nodes ≡ none
      → HasChild c nodes
      → same_next k a c ≡ false
  unfolding next_match
  next_match-none k a c no_nodes h i = absurd i
  next_match-none k a c (node p d below others) h i = elim (Bool-cases (same_next k a p)) [
    | inl n ↦ absurd (ground (arith, h, n))
    | inr n ↦ elim (Option-cases (next_match k a others)) [
      | inl e ↦ elim i [ inl j ↦ rw j n | inr j ↦ next_match-none k a c others e j ]
      | inr ((m, r), e) ↦ absurd (ground (arith, h, n, e))
    ]
  ]

  -- the match stands first, the others behind it
  pub record Picked (q : Address) (k : ℕ) (a : Address) (m : Node D) (others nodes : Nodes D)
      : Type 0 where
    pub child : HasChild m.address nodes
    pub same : same_next k a m.address ≡ true
    pub tree : IsTree q (put_node m others)
    pub there : (x : Address) (e : D) → Has x e nodes → Has x e (put_node m others)
    pub back : (x : Address) (e : D) → Has x e (put_node m others) → Has x e nodes
    pub apart : (p : Address) → Apart q p nodes → Apart q p (put_node m others)

  pub next_match-Picked :
      (q : Address) (k : ℕ) (a : Address) (m : Node D) (others nodes : Nodes D)
      → IsTree q nodes
      → next_match k a nodes ≡ some (m, others)
      → Picked q k a m others nodes
  unfolding next_match
  next_match-Picked q k a m others no_nodes t h = absurd (ground (arith, h))
  next_match-Picked q k a m others (node p d below rest) (g, s, t, v) h =
      elim (Bool-cases (same_next k a p)) [
        | inl n ↦
            let first : m ≡ record { address = p; value = d; children = below } =
              ground (arith, h, n) in
            let left : others ≡ rest = ground (arith, h, n) in
            rw (first, left)
              (record {
                child = inl refl;
                same = n;
                tree = (g, s, t, v);
                there = λ x e i. i;
                back = λ x e i. i;
                apart = λ b i. i;
              })
        | inr n ↦ elim (Option-cases (next_match k a rest)) [
          | inl e ↦ absurd (ground (arith, h, n, e))
          | inr ((w, r), e) ↦
              let first : m ≡ w = ground (arith, h, n, e) in
              let left : others ≡ node p d below r = ground (arith, h, n, e) in
              rw (first, left)
                (later q k a w r p d below rest g s t (next_match-Picked q k a w r rest v e))
        ]
      ]
    where
      later :
          (q : Address) (k : ℕ) (a : Address) (w : Node D) (r : Nodes D) (p : Address)
          (d : Option D) (below rest : Nodes D)
          → Extends q p
          → Apart q p rest
          → IsTree p below
          → Picked q k a w r rest
          → Picked q k a w (node p d below r) (node p d below rest)
      later q k a w r p d below rest g s t pk =
          let (gw, sw, tw, vw) = pk.tree in
          let (pw, pr) = pk.apart p s in
          record {
            child = inr pk.child;
            same = pk.same;
            tree = (gw, (λ x i j. pw x j i, sw), tw, (g, pr, t, vw));
            there = λ x e i. elim i [
              | inl j ↦ inr (inr (inl j))
              | inr (inl j) ↦ inr (inr (inr (inl j)))
              | inr (inr j) ↦ elim (pk.there x e j) [
                | inl l ↦ inl l
                | inr (inl l) ↦ inr (inl l)
                | inr (inr l) ↦ inr (inr (inr (inr l)))
              ]
            ];
            back = λ x e i. elim i [
              | inl j ↦ inr (inr (pk.back x e (inl j)))
              | inr (inl j) ↦ inr (inr (pk.back x e (inr (inl j))))
              | inr (inr (inl j)) ↦ inl j
              | inr (inr (inr (inl j))) ↦ inr (inl j)
              | inr (inr (inr (inr j))) ↦ inr (inr (pk.back x e (inr (inr j))))
            ];
            apart = λ b i. let (i1, i2) = i in let (j1, j2) = pk.apart b i2 in (j1, (i1, j2));
          }

  pub Apart-all :
      (q a : Address) (nodes : Nodes D)
      → ((c : Address)
          → HasChild c nodes
          → (x : Address) → starts_with a x ≡ true
          → starts_with c x ≡ true
          → starts_with q x ≡ true)
      → Apart q a nodes
  Apart-all q a no_nodes h = tt
  Apart-all q a (node p d below others) h =
      (h p (inl refl), Apart-all q a others (λ c i. h c (inr i)))

  pub Apart-prefix :
      (q a m : Address) (nodes : Nodes D)
      → starts_with m a ≡ true
      → Apart q m nodes
      → Apart q a nodes
  Apart-prefix q a m no_nodes h s = tt
  Apart-prefix q a m (node p d below others) h (s, r) =
      (λ x i j. s x (starts_with_trans m a x h i) j, Apart-prefix q a m others h r)

  -- the others are not below a prefix of the match
  pub others_miss :
      (q m z x : Address) (others : Nodes D) (e : D)
      → Apart q m others
      → IsTree q others
      → starts_with m z ≡ true
      → starts_with q z ≡ false
      → Has x e others
      → starts_with x z ≡ false
  others_miss q m z x others e s t h k i = elim (Bool-cases (starts_with x z)) [
    | inl n ↦
        let (c, j, l) = child_over q others x e t i in
        let (g1, g2) = child-Extends q c others t j in
        let ap = Apart-child q m c others s j in
        absurd (
          ground (
            arith,
            starts_with_comparable x z c n l,
            ap z h,
            ap c,
            starts_with_trans m z c h,
            starts_with_refl c,
            g2,
            k,
          ))
    | inr n ↦ n
  ]
