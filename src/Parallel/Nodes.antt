-- ===== src/Parallel/Nodes.antt =====
-- The nodes of a prefix tree, and what makes it one: every node goes on from its parent, and two
-- children of a node have no longer prefix in common than the node.
use blockchain_node.Prelude.{
  ℕ, zero, suc, ◌+◌, ◌≤◌, ◌≡◌, true, false, Option, some, List, [], ◌∷◌, arith, inl, inr, ◌⊎◌,
}
use blockchain_node.Parallel.Tree.{
  Address, starts_with, Nodes, no_nodes, node, join, size, descendants,
}
use blockchain_node.Parallel.Prefix.{starts_with_trans}

-- `p` is longer than its prefix `q`
abbrev pub Extends : Address → Address → Type 0
Extends q p = (starts_with p q ≡ true) × (starts_with q p ≡ false)

module _ {D : Type 0} where
  -- a node at `x` with the data `e`
  abbrev pub Has : Address → D → Nodes D → Type 0
  Has x e no_nodes = ⊥
  Has x e (node p d below others) = ((x ≡ p) × (d ≡ some e)) ⊎ (Has x e below ⊎ Has x e others)

  -- no address longer than `q` is a prefix of `p` and of one of the nodes
  abbrev pub Apart : Address → Address → Nodes D → Type 0
  Apart q p no_nodes = Unit {0}
  Apart q p (node s d below others) =
      ((x : Address) → starts_with p x ≡ true → starts_with s x ≡ true → starts_with q x ≡ true)
      × Apart q p others

  abbrev pub IsTree : Address → Nodes D → Type 0
  IsTree q no_nodes = Unit {0}
  IsTree q (node p d below others) =
      Extends q p × Apart q p others × IsTree p below × IsTree q others

  pub Has-Extends :
      (q : Address) (nodes : Nodes D) (x : Address) (e : D)
      → IsTree q nodes
      → Has x e nodes
      → Extends q x
  Has-Extends q no_nodes x e t h = absurd h
  Has-Extends q (node p d below others) x e (g, a, t, u) (inl (h, k)) = rw h g
  Has-Extends q (node p d below others) x e ((g1, g2), a, t, u) (inr (inl h)) =
      let (k1, k2) = Has-Extends p below x e t h in
      (starts_with_trans x p q k1 g1, ground (arith, g2, k2, k1, starts_with_trans q x p))
  Has-Extends q (node p d below others) x e (g, a, t, u) (inr (inr h)) =
      Has-Extends q others x e u h

  pub Has-join :
      (nodes more : Nodes D) (x : Address) (e : D)
      → Has x e nodes ⊎ Has x e more
      → Has x e (join nodes more)
  Has-join no_nodes more x e (inl h) = absurd h
  Has-join no_nodes more x e (inr h) = h
  Has-join (node p d below others) more x e (inl (inl h)) = inl h
  Has-join (node p d below others) more x e (inl (inr (inl h))) = inr (inl h)
  Has-join (node p d below others) more x e (inl (inr (inr h))) =
      inr (inr (Has-join others more x e (inl h)))
  Has-join (node p d below others) more x e (inr h) = inr (inr (Has-join others more x e (inr h)))

  pub join-Has :
      (nodes more : Nodes D) (x : Address) (e : D)
      → Has x e (join nodes more)
      → Has x e nodes ⊎ Has x e more
  join-Has no_nodes more x e h = inr h
  join-Has (node p d below others) more x e (inl h) = inl (inl h)
  join-Has (node p d below others) more x e (inr (inl h)) = inl (inr (inl h))
  join-Has (node p d below others) more x e (inr (inr h)) = elim (join-Has others more x e h) [
    | inl k ↦ inl (inr (inr k))
    | inr k ↦ inr k
  ]

  -- the stream yields the node
  abbrev pub Yields : Address → D → List (Address × Option D) → Type 0
  Yields x e [] = ⊥
  Yields x e ((p, d) ∷ stream) = ((x ≡ p) × (d ≡ some e)) ⊎ Yields x e stream

  size-join : (nodes more : Nodes D) → size (join nodes more) ≡ size nodes + size more
  size-join no_nodes more = omega arith
  size-join (node p d below others) more = omega (arith, size-join others more)

  -- the level-by-level walk misses no node
  pub Yields-descendants :
      (fuel : ℕ) (nodes : Nodes D) (x : Address) (e : D)
      → size nodes ≤ fuel
      → Has x e nodes
      → Yields x e (descendants fuel nodes)
  unfolding descendants
  Yields-descendants zero no_nodes x e h k = absurd k
  Yields-descendants (suc fuel) no_nodes x e h k = absurd k
  Yields-descendants zero (node p d below others) x e h k = absurd (omega (arith, h))
  Yields-descendants (suc fuel) (node p d below others) x e h (inl k) = inl k
  Yields-descendants (suc fuel) (node p d below others) x e h (inr (inl k)) = inr (
      Yields-descendants fuel (join others below) x e (omega (arith, h, size-join others below))
        (Has-join others below x e (inr k)))
  Yields-descendants (suc fuel) (node p d below others) x e h (inr (inr k)) = inr (
      Yields-descendants fuel (join others below) x e (omega (arith, h, size-join others below))
        (Has-join others below x e (inl k)))

  -- and yields nothing else
  pub descendants-Has :
      (fuel : ℕ) (nodes : Nodes D) (x : Address) (e : D)
      → Yields x e (descendants fuel nodes)
      → Has x e nodes
  unfolding descendants
  descendants-Has zero nodes x e h = absurd h
  descendants-Has (suc fuel) no_nodes x e h = absurd h
  descendants-Has (suc fuel) (node p d below others) x e (inl h) = inl h
  descendants-Has (suc fuel) (node p d below others) x e (inr h) =
      elim (join-Has others below x e (descendants-Has fuel (join others below) x e h)) [
        | inl k ↦ inr (inr k)
        | inr k ↦ inr (inl k)
      ]
