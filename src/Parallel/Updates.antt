-- ===== src/Parallel/Updates.antt =====
-- What an update does to the nodes of a prefix tree.
use blockchain_node.Prelude.{
  ◌≡◌, refl, sym, ◌∙◌, Bool, true, false, ◌&&◌, ◌||◌, Option, none, some, arith, inl, inr, ◌⊎◌,
  Bool-cases, Option-cases, if◌then◌else◌,
}
use blockchain_node.Parallel.Tree.{Address, starts_with, Nodes, no_nodes, node, Node}
use blockchain_node.Parallel.Prefix.{starts_with_refl, starts_with_trans, starts_with_antisym}
use blockchain_node.Parallel.Nodes.{Has, IsTree, Has-Extends}
use blockchain_node.Parallel.Walks.{HasChild, child_over, no_common}
use blockchain_node.Parallel.Coverage.{split_first, join_first, first-starts_with}

module _ {D : Type 0} where
  pub pruned-Has :
      (b : Bool) (below : Nodes D) (x : Address) (e : D)
      → Has x e (if b then no_nodes else below)
      → (b ≡ false) × Has x e below
  pruned-Has true below x e h = absurd h
  pruned-Has false below x e h = (refl, h)

  pub not_pruned :
      (b : Bool) (below : Nodes D) (x : Address) (e : D)
      → b ≡ false
      → Has x e below
      → Has x e (if b then no_nodes else below)
  not_pruned true below x e h k = absurd (ground (arith, h))
  not_pruned false below x e h k = k

  pub pruned-IsTree :
      (b : Bool) (q : Address) (below : Nodes D)
      → IsTree q below
      → IsTree q (if b then no_nodes else below)
  pruned-IsTree true q below t = tt
  pruned-IsTree false q below t = t

module _ {D : Type 0} (a : Address) (u : Option D → D) (prune : Bool) where
  -- the nodes that the update takes away or replaces
  abbrev pub hit : Address → Bool
  hit x = starts_with x a && (prune || starts_with a x)

  -- the data that the update puts at `a`
  abbrev pub NewData : Nodes D → D → Type 0
  NewData t e = (e ≡ u none) ⊎ ((d : D) × Has a d t × (e ≡ u (some d)))

  pub record Change (t t' : Nodes D) : Type 0 where
    pub kept : (x : Address) (e : D) → Has x e t → hit x ≡ false → Has x e t'
    pub origin :
        (x : Address) (e : D) → Has x e t' → (Has x e t × (hit x ≡ false)) ⊎ ((x ≡ a) × NewData t e)
    pub updated : (d : D) → Has a d t → Has a (u (some d)) t'
    pub placed : (e : D) × Has a e t' × NewData t e

  abbrev pub finish : Node D → Node D
  finish n = record n {
    value = some (u n.value);
    children = if prune then no_nodes else n.children;
  }

  -- none of these is at or below `a`
  abbrev pub Far : Nodes D → Type 0
  Far nodes = (x : Address) (e : D) → Has x e nodes → starts_with x a ≡ false

  pub others-Far :
      (q p : Address) (d : Option D) (below others : Nodes D)
      → IsTree q (node p d below others)
      → starts_with a p ≡ true
      → Far others
  others-Far q p d below others (g, s, t, v) h x e l = elim (Bool-cases (starts_with x a)) [
    | inl m ↦
        let (b, i, j) = child_over q others x e v l in
        absurd (no_common q p b x others g s v i (starts_with_trans x a p m h) j)
    | inr m ↦ m
  ]

  -- a change below the first of some nodes
  pub Change-below :
      (p : Address) (d : Option D) (below below' others : Nodes D)
      → Far others
      → starts_with p a ≡ false
      → Change below below'
      → Change (node p d below others) (node p d below' others)
  Change-below p d below below' others far k c =
      let lift : (e : D) → NewData below e → NewData (node p d below others) e =
        λ e i. elim i [ inl j ↦ inl j | inr (b, j, l) ↦ inr (b, inr (inl j), l) ] in
      record {
        kept = λ x e i j. elim i [
          | inl l ↦ inl l
          | inr (inl l) ↦ inr (inl (c.kept x e l j))
          | inr (inr l) ↦ inr (inr l)
        ];
        origin = λ x e i. elim i [
          | inl (l, m) ↦ inl (inl (l, m), rw l (ground (arith, k)))
          | inr (inl l) ↦ elim (c.origin x e l) [
            | inl (m, n) ↦ inl (inr (inl m), n)
            | inr (m, n) ↦ inr (m, lift e n)
          ]
          | inr (inr l) ↦ inl (inr (inr l), ground (arith, far x e l))
        ];
        updated = λ b i. elim i [
          | inl (l, m) ↦
              let same : starts_with p a ≡ true = rw⁻¹ l (starts_with_refl a) in
              absurd (ground (arith, same, k))
          | inr (inl l) ↦ inr (inl (c.updated b l))
          | inr (inr l) ↦ absurd (ground (arith, far a b l, starts_with_refl a))
        ];
        placed = let (e, i, j) = c.placed in (e, inr (inl i), lift e j);
      }

  -- a change of the others, one of which is above `a`
  pub Change-others :
      (q p m : Address) (d : Option D) (below others others' : Nodes D)
      → IsTree q (node p d below others)
      → starts_with a p ≡ false
      → HasChild m others
      → starts_with a m ≡ true
      → Change others others'
      → Change (node p d below others) (node p d below others')
  Change-others q p m d below others others' (g, s, t, v) h i j c =
      let lift : (e : D) → NewData others e → NewData (node p d below others) e =
        λ e k. elim k [ inl l ↦ inl l | inr (b, k, l) ↦ inr (b, inr (inr k), l) ] in
      let not_first : (x : Address) (e : D)
          → Has x e (node p d below no_nodes)
          → starts_with x a ≡ false =
        λ x e k. elim (Bool-cases (starts_with x a)) [
          | inl l ↦ absurd (
              no_common q p m x others g s v i (first-starts_with p x d below e t k)
                (starts_with_trans x a m l j))
          | inr l ↦ l
        ] in
      record {
        kept = λ x e k l. elim (split_first p x d below others e k) [
          | inl n ↦ join_first p x d below others' e n
          | inr n ↦ inr (inr (c.kept x e n l))
        ];
        origin = λ x e k. elim (split_first p x d below others' e k) [
          | inl n ↦ inl (join_first p x d below others e n, ground (arith, not_first x e n))
          | inr n ↦ elim (c.origin x e n) [
            | inl (o, r) ↦ inl (inr (inr o), r)
            | inr (o, r) ↦ inr (o, lift e r)
          ]
        ];
        updated = λ b k. elim (split_first p a d below others b k) [
          | inl n ↦ absurd (ground (arith, h, first-starts_with p a d below b t n))
          | inr n ↦ inr (inr (c.updated b n))
        ];
        placed = let (e, k, l) = c.placed in (e, inr (inr k), lift e l);
      }

  -- the node at `a` itself
  pub Change-here :
      (p : Address) (d : Option D) (below others : Nodes D)
      → Far others
      → IsTree p below
      → starts_with a p ≡ true
      → starts_with p a ≡ true
      → Change
          (node p d below others)
          (node p (some (u d)) (if prune then no_nodes else below) others)
  Change-here p d below others far t h k =
      let same : a ≡ p = starts_with_antisym a p h k in
      let new : NewData (node p d below others) (u d) = elim (Option-cases d) [
        | inl n ↦ inl (rw n refl)
        | inr (b, n) ↦ inr (b, inl (same, n), rw n refl)
      ] in
      record {
        kept = λ x e i j. elim i [
          | inl (l, m) ↦
              (let x_a : starts_with x a ≡ true = rw l k in
                let a_x : starts_with a x ≡ true = rw l h in absurd (ground (arith, j, x_a, a_x)))
          | inr (inl l) ↦
              (let (m, _) = Has-Extends p below x e t l in
                inr (
                  inl (
                    not_pruned prune below x e (ground (arith, j, starts_with_trans x p a m k)) l)))
          | inr (inr l) ↦ inr (inr l)
        ];
        origin = λ x e i. elim i [
          | inl (l, m) ↦ inr (l ∙ sym same, (let eq : u d ≡ e = ground (arith, m) in rw⁻¹ eq new))
          | inr (inl l) ↦
              (let (b, m) = pruned-Has prune below x e l in
                let (_, n) = Has-Extends p below x e t m in
                let a_x : starts_with a x ≡ false = rw same n in
                inl (inr (inl m), ground (arith, b, a_x)))
          | inr (inr l) ↦ inl (inr (inr l), ground (arith, far x e l))
        ];
        updated = λ b i. elim i [
          | inl (l, m) ↦ inl (same, rw m refl)
          | inr (inl l) ↦ let (m, n) = Has-Extends p below a b t l in absurd (ground (arith, n, k))
          | inr (inr l) ↦ absurd (ground (arith, far a b l, starts_with_refl a))
        ];
        placed = (u d, inl (same, refl), new);
      }
