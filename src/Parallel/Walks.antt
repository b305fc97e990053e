-- ===== src/Parallel/Walks.antt =====
-- `walk`: what it yields. It yields every node above or at the address, and every node below it,
-- unless it raises with a match that stands for them.
use blockchain_node.Prelude.{
  ◌≡◌, refl, sym, ◌∙◌, true, false, Option, none, some, List, [], ◌∷◌, arith, inl, inr, ◌⊎◌,
  Bool-cases, Option-cases, length, leb,
}
use blockchain_node.Parallel.Tree.{Address, starts_with, Nodes, no_nodes, node, Walk, child_below}
use blockchain_node.Parallel.Prefix.{starts_with_refl, starts_with_comparable, starts_with-length}
use blockchain_node.Parallel.Nodes.{Has, Extends, Apart, IsTree, Has-Extends, Yields}

module _ {D : Type 0} where
  abbrev pub HasChild : Address → Nodes D → Type 0
  HasChild c no_nodes = ⊥
  HasChild c (node p d below others) = (c ≡ p) ⊎ HasChild c others

  pub child-Extends :
      (q c : Address) (nodes : Nodes D) → IsTree q nodes → HasChild c nodes → Extends q c
  child-Extends q c no_nodes t h = absurd h
  child-Extends q c (node p d below others) (g, a, t, u) (inl h) = rw h g
  child-Extends q c (node p d below others) (g, a, t, u) (inr h) = child-Extends q c others u h

  -- the child that a node is at or below
  pub child_over :
      (q : Address) (nodes : Nodes D) (x : Address) (e : D)
      → IsTree q nodes
      → Has x e nodes
      → (c : Address) × HasChild c nodes × (starts_with x c ≡ true)
  child_over q no_nodes x e t h = absurd h
  child_over q (node p d below others) x e t (inl (h, k)) = (p, inl refl, rw h (starts_with_refl p))
  child_over q (node p d below others) x e (g, a, t, u) (inr (inl h)) =
      let (k, _) = Has-Extends p below x e t h in (p, inl refl, k)
  child_over q (node p d below others) x e (g, a, t, u) (inr (inr h)) =
      let (c, k, l) = child_over q others x e u h in (c, inr k, l)

  pub Apart-child :
      (q p c : Address) (nodes : Nodes D)
      → Apart q p nodes
      → HasChild c nodes
      → (x : Address) → starts_with p x ≡ true
      → starts_with c x ≡ true
      → starts_with q x ≡ true
  Apart-child q p c no_nodes a h x = absurd h
  Apart-child q p c (node s d below others) (a, b) (inl h) x = rw h (a x)
  Apart-child q p c (node s d below others) (a, b) (inr h) x = Apart-child q p c others b h x

  -- two children that share a prefix longer than the node are the same
  pub same_child :
      (q a m c : Address) (nodes : Nodes D)
      → IsTree q nodes
      → HasChild m nodes
      → HasChild c nodes
      → starts_with m a ≡ true
      → starts_with c a ≡ true
      → starts_with q a ≡ false
      → m ≡ c
  same_child q a m c no_nodes t h k i j l = absurd h
  same_child q a m c (node p d below others) t (inl h) (inl k) i j l = h ∙ sym k
  same_child q a m c (node p d below others) (g, s, t, u) (inl h) (inr k) i j l =
      absurd (ground (arith, Apart-child q p c others s k a (rw⁻¹ h i) j, l))
  same_child q a m c (node p d below others) (g, s, t, u) (inr h) (inl k) i j l =
      absurd (ground (arith, Apart-child q p m others s h a (rw⁻¹ k j) i, l))
  same_child q a m c (node p d below others) (g, s, t, u) (inr h) (inr k) i j l =
      same_child q a m c others u h k i j l

  -- a child and another child have no address below both
  pub no_common :
      (q p c x : Address) (others : Nodes D)
      → Extends q p
      → Apart q p others
      → IsTree q others
      → HasChild c others
      → starts_with x p ≡ true
      → starts_with x c ≡ true
      → ⊥
  no_common q p c x others (g1, g2) s u h i j =
      let (k1, k2) = child-Extends q c others u h in
      ground (
        arith,
        starts_with_comparable x p c i j,
        Apart-child q p c others s h p (starts_with_refl p),
        Apart-child q p c others s h c,
        starts_with_refl c,
        g2,
        k2,
      )

  pub child_below-some :
      (a m : Address) (nodes : Nodes D)
      → child_below a nodes ≡ some m
      → HasChild m nodes × (starts_with m a ≡ true)
  unfolding child_below
  child_below-some a m no_nodes h = ground (arith, h)
  child_below-some a m (node p d below others) h = elim (Option-cases (child_below a others)) [
    | inl e ↦ elim (Bool-cases (starts_with p a)) [
      | inl k ↦ let q : m ≡ p = ground (arith, h, e, k) in (inl q, rw q k)
      | inr k ↦ absurd (ground (arith, h, e, k))
    ]
    | inr (q, e) ↦ let (i, j) = child_below-some a m others (ground (arith, h, e)) in (inr i, j)
  ]

  pub child_below-none :
      (a c : Address) (nodes : Nodes D)
      → child_below a nodes ≡ none
      → HasChild c nodes
      → starts_with c a ≡ false
  unfolding child_below
  child_below-none a c no_nodes h k = absurd k
  child_below-none a c (node p d below others) h (inl k) =
      rw k (elim (Option-cases (child_below a others)) [
        | inl e ↦ ground (arith, h, e)
        | inr (q, e) ↦ absurd (ground (arith, h, e))
      ])
  child_below-none a c (node p d below others) h (inr k) =
      child_below-none a c others
        (elim (Option-cases (child_below a others)) [
          | inl e ↦ e
          | inr (q, e) ↦ absurd (ground (arith, h, e))
        ])
        k

  -- after a node that is not as long as `a`, only nodes below it
  abbrev pub Ordered : Address → List (Address × Option D) → Type 0
  Ordered a [] = Unit {0}
  Ordered a ((p, none) ∷ stream) = Ordered a stream
  Ordered a ((p, some d) ∷ stream) =
      (leb (length a) (length p) ≡ false → (x : Address) (e : D) → Yields x e stream → Extends p x)
      × Ordered a stream

  pub Ordered-cons :
      (a p : Address) (d : Option D) (stream : List (Address × Option D))
      → (leb (length a) (length p) ≡ false
          → (x : Address) (e : D) → Yields x e stream
          → Extends p x)
      → Ordered a stream
      → Ordered a ((p, d) ∷ stream)
  Ordered-cons a p none stream h o = o
  Ordered-cons a p (some d) stream h o = (h, o)

  pub Ordered-below :
      (a : Address) (stream : List (Address × Option D))
      → ((x : Address) (e : D) → Yields x e stream → starts_with x a ≡ true)
      → Ordered a stream
  Ordered-below a [] h = tt
  Ordered-below a ((p, none) ∷ stream) h = Ordered-below a stream (λ x e k. h x e (inr k))
  Ordered-below a ((p, some d) ∷ stream) h = (
    λ l. absurd (ground (arith, l, starts_with-length p a (h p d (inl (refl, refl))))),
    Ordered-below a stream (λ x e k. h x e (inr k)),
  )

  pub record Covers (a : Address) (w : Walk D) (nodes : Nodes D) : Type 0 where
    pub sound : (x : Address) (e : D) → Yields x e w.yielded → Has x e nodes
    pub above :
        (x : Address) (e : D) → Has x e nodes → starts_with a x ≡ true → Yields x e w.yielded
    pub below :
        (x : Address) (e : D)
        → Has x e nodes
        → starts_with x a ≡ true
        → Yields x e w.yielded
          ⊎ ((m : Address) × (w.raised ≡ some (some m)) × (starts_with x m ≡ true))
    pub match : (m : Address) → w.raised ≡ some (some m) → starts_with m a ≡ true
    pub ordered : Ordered a w.yielded
