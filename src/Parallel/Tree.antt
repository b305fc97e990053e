-- ===== src/Parallel/Tree.antt =====
-- `Tree`, the prefix tree over addresses. An address is the list of its characters. The children of
-- a node are a set in the source; they are a list here, a new child first.
use blockchain_node.Prelude.{
  ℕ, zero, suc, ◌+◌, Bool, true, false, ◌&&◌, Option, none, some, List, [], ◌∷◌, if◌then◌else◌,
  length, ltb, eqb,
}

abbrev pub Address : Type 0
Address = List ℕ

-- `a.startswith(p)`
unfoldable pub starts_with : Address → Address → Bool
starts_with a [] = true
starts_with [] (y ∷ p) = false
starts_with (x ∷ a) (y ∷ p) = eqb x y && starts_with a p

-- `a < b`, of texts
unfoldable pub less : Address → Address → Bool
less a [] = false
less [] (y ∷ b) = true
less (x ∷ a) (y ∷ b) = let rest = less a b in if eqb x y then rest else ltb x y

-- the nodes of a set of children: a node with its own children, and the others
pub data Nodes (D : Type 0) : Type 0 where
  no_nodes : Nodes D
  node : Address → Option D → Nodes D → Nodes D → Nodes D

pub record Node (D : Type 0) : Type 0 where
  pub address : Address
  pub value : Option D
  pub children : Nodes D

module _ {D : Type 0} where
  abbrev pub put_node : Node D → Nodes D → Nodes D
  put_node n others = node n.address n.value n.children others

  abbrev pub join : Nodes D → Nodes D → Nodes D
  join no_nodes more = more
  join (node p d below others) more = node p d below (join others more)

  abbrev pub size : Nodes D → ℕ
  size no_nodes = 0
  size (node p d below others) = suc (size below + size others)

  -- Walks to `address`: `found` is done to the node there, or, where the walk stops before it,
  -- `missing` to the last node. `deeper` is what comes of the children of `n`.
  unfoldable pub at_address :
      Address → (Node D → Node D) → (Node D → Node D) → Node D → Option (Nodes D) → Node D
  at_address address found missing n deeper =
      if less n.address address
      then elim deeper [ none ↦ missing n | some children ↦ record n { children = children } ]
      else found n

  -- the child whose address `address` starts with, if there is one
  unfoldable pub in_children :
      Address → (Node D → Node D) → (Node D → Node D) → Nodes D → Option (Nodes D)
  in_children address found missing no_nodes = none
  in_children address found missing (node p d below others) =
      let deeper = in_children address found missing below in
      let rest = in_children address found missing others in
      if starts_with address p
      then (let n : Node D = record { address = p; value = d; children = below } in
          some (put_node (at_address address found missing n deeper) others))
      else elim rest [ none ↦ none | some others' ↦ some (node p d below others') ]

  unfoldable pub walk_and_change : Address → (Node D → Node D) → (Node D → Node D) → Node D → Node D
  walk_and_change address found missing n =
      at_address address found missing n (in_children address found missing n.children)

-- `child.address[k:].startswith(address[k:][0])`
unfoldable pub same_next : ℕ → Address → Address → Bool
same_next zero (x ∷ a) (y ∷ b) = eqb x y
same_next (suc k) (x ∷ a) (y ∷ b) = same_next k a b
same_next k a b = false

module _ {D : Type 0} where
  -- The child that goes on with the same character after the first `k`, and the other children.
  unfoldable pub next_match : ℕ → Address → Nodes D → Option (Node D × Nodes D)
  next_match k address no_nodes = none
  next_match k address (node p d below others) =
      let rest = next_match k address others in
      if same_next k address p
      then some (record { address = p; value = d; children = below }, others)
      else elim rest [ none ↦ none | some (m, others') ↦ some (m, node p d below others') ]

-- the characters up to the first at which the two differ
unfoldable pub agreement : Address → Address → Address
agreement [] b = []
agreement (x ∷ a) [] = []
agreement (x ∷ a) (y ∷ b) = let rest = agreement a b in if eqb x y then x ∷ rest else []

-- `for i in range(1, len(shorter)): if address[i] != match.address[i]`: the common prefix, which
-- is taken to have the first character. Where there is no such index, the source has no `prefix`;
-- neither text is then a prefix of the other.
unfoldable pub common_prefix : Address → Address → Address
common_prefix [] b = []
common_prefix (x ∷ a) [] = []
common_prefix (x ∷ a) (y ∷ b) = x ∷ agreement a b

-- What `walk` yields, and where it raises `AddressNotInTree`, the match.
pub record Walk (D : Type 0) : Type 0 where
  pub yielded : List (Address × Option D)
  pub raised : Option (Option Address)

module _ {D : Type 0} where
  -- The part of `_get_or_create` that adds a node, below the last node `n` of the walk. `finish` is
  -- what `update` does to the new node.
  unfoldable pub add_node : Address → (Node D → Node D) → Node D → Node D
  add_node address finish n =
      let new : Nodes D → Node D =
        λ below. finish (record { address = address; value = none; children = below }) in
      elim (next_match (length n.address) address n.children) [
        | none ↦ record n { children = put_node (new no_nodes) n.children }
        | some (match, others) ↦
            if starts_with match.address address
            then record n { children = put_node (new (put_node match no_nodes)) others }
            else record n {
              children =
                  node (common_prefix address match.address) none
                    (put_node (new no_nodes) (put_node match no_nodes)) others;
            }
      ]

  -- `update`
  unfoldable pub update : Address → (Option D → D) → Bool → Node D → Node D
  update address updater prune root =
      let finish : Node D → Node D = λ n. record n {
        value = some (updater n.value);
        children = if prune then no_nodes else n.children;
      } in
      walk_and_change address finish (add_node address finish) root

  -- `Tree.prune`
  unfoldable pub prune : Address → Node D → Node D
  prune address root = walk_and_change address (λ n. record n { children = no_nodes }) (λ n. n) root

  -- the last child whose address starts with `address`
  unfoldable pub child_below : Address → Nodes D → Option Address
  child_below address no_nodes = none
  child_below address (node p d below others) =
      let rest = child_below address others in
      elim rest [ some q ↦ some q | none ↦ if starts_with p address then some p else none ]

  -- The nodes below, level by level: the deque of `walk`, whose front is the list's.
  unfoldable pub descendants : ℕ → Nodes D → List (Address × Option D)
  descendants zero to_process = []
  descendants (suc fuel) no_nodes = []
  descendants (suc fuel) (node p d below others) = (p, d) ∷ descendants fuel (join others below)

  unfoldable pub walk_at : Address → Address → Option D → Nodes D → Option (Walk D) → Walk D
  walk_at address p d children deeper =
      if less p address
      then elim deeper [
        | none ↦ record { yielded = (p, d) ∷ []; raised = some (child_below address children) }
        | some w ↦ record { yielded = (p, d) ∷ w.yielded; raised = w.raised }
      ]
      else record { yielded = (p, d) ∷ descendants (size children) children; raised = none }

  unfoldable pub walk_children : Address → Nodes D → Option (Walk D)
  walk_children address no_nodes = none
  walk_children address (node p d below others) =
      let deeper = walk_children address below in
      let rest = walk_children address others in
      if starts_with address p then some (walk_at address p d below deeper) else rest

  -- `walk`
  unfoldable pub walk : Address → Node D → Walk D
  walk address root =
      walk_at address root.address root.value root.children (walk_children address root.children)
