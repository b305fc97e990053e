-- ===== src/Parallel/Accesses.antt =====
-- The accesses of the transactions that were added to the predecessor tree, and how the tree stands
-- for them.
use blockchain_node.Prelude.{
  String, ◌≡◌, Bool, true, false, ◌&&◌, ◌||◌, List, [], ◌∷◌, arith, inl, inr, ◌⊎◌, Bool-cases,
  contains,
}
use blockchain_node.Parallel.Tree.{Address, starts_with}
use blockchain_node.Parallel.Prefix.{starts_with_trans, starts_with_comparable}
use blockchain_node.Parallel.Nodes.{Extends}
use blockchain_node.Parallel.Predecessors.{Predecessors, PredecessorTree, PredecessorChain}
use blockchain_node.Parallel.Finding.{writes}
use blockchain_node.Parallel.Queries.{HasNode, IsPrefixTree}
use blockchain_node.Parallel.Chains.{is_before, at_or_before}

pub record Access : Type 0 where
  pub txn : String
  pub at : Address
  pub is_write : Bool

-- the addresses of one start with the other, a prefix of addresses or one address
abbrev pub touch : Address → Address → Bool
touch a b = starts_with a b || starts_with b a

abbrev pub conflict : Access → Access → Bool
conflict x y = touch x.at y.at && (x.is_write || y.is_write)

abbrev pub IsIn : Access → List Access → Type 0
IsIn x [] = ⊥
IsIn x (y ∷ log) = (x ≡ y) ⊎ IsIn x log

-- Of two accesses in conflict, the transaction of the older comes before that of the newer, where
-- they differ. The newest access is the first.
abbrev pub Ordered : PredecessorChain → List Access → Type 0
Ordered chain [] = Unit {0}
Ordered chain (y ∷ log) =
    ((x : Access) → IsIn x log → conflict x y ≡ true → at_or_before chain x.txn y.txn ≡ true)
    × Ordered chain log

-- The node at `p` stands for the access, by a writer or, for a read of that address, by a reader,
-- that is the transaction or comes after it.
abbrev pub Represented : PredecessorChain → PredecessorTree → Access → Type 0
Represented chain tree x =
    (p : Address) × (d : Predecessors) × (r : String) × (HasNode tree p d
      × (starts_with x.at p ≡ true)
      × (((writes d.writer r ≡ true))
          ⊎ ((x.is_write ≡ false) × (p ≡ x.at) × (contains d.readers r ≡ true)))
      × (at_or_before chain x.txn r ≡ true))

-- a writer comes before the writers of the nodes below
abbrev pub Nested : PredecessorChain → PredecessorTree → Type 0
Nested chain tree =
    (p q : Address) (d e : Predecessors) (w v : String)
    → HasNode tree p d
    → HasNode tree q e
    → Extends p q
    → writes d.writer w ≡ true
    → writes e.writer v ≡ true
    → at_or_before chain w v ≡ true

-- Every node at or below an address that touches `b` has its writers before `txn`, and where `b` is
-- written its readers.
pub record Finds (chain : PredecessorChain) (tree : PredecessorTree) (txn : String) (b : Address)
    (is_write : Bool) : Type 0 where
  pub writer :
      (x : Address) (d : Predecessors) (w : String)
      → HasNode tree x d
      → touch x b ≡ true
      → writes d.writer w ≡ true
      → is_before chain w txn ≡ true
  pub readers :
      (x : Address) (d : Predecessors) (r : String)
      → is_write ≡ true
      → HasNode tree x d
      → touch x b ≡ true
      → contains d.readers r ≡ true
      → is_before chain r txn ≡ true

pub touch_above : (a p b : Address) → starts_with a p ≡ true → touch a b ≡ true → touch p b ≡ true
touch_above a p b h k = elim (Bool-cases (starts_with a b)) [
  | inl e ↦ starts_with_comparable a p b h e
  | inr e ↦ ground (arith, starts_with_trans b a p, h, k, e)
]

-- what has been done for some of the accesses of `txn`, from the tree `tree0` and the accesses
-- `log0`
pub record Progress (chain : PredecessorChain) (tree0 : PredecessorTree) (log0 : List Access)
    (txn : String) (tree : PredecessorTree) (log : List Access) : Type 0 where
  pub prefix_tree : IsPrefixTree tree
  pub nested : Nested chain tree
  pub represented : (x : Access) → IsIn x log → Represented chain tree x
  pub ordered : Ordered chain log
  pub source : (x : Access) → IsIn x log → IsIn x log0 ⊎ (x.txn ≡ txn)
  pub old_writer :
      (p : Address) (d : Predecessors) (w : String)
      → HasNode tree p d
      → writes d.writer w ≡ true
      → (w ≡ txn) ⊎ ((e : Predecessors) × HasNode tree0 p e × (writes e.writer w ≡ true))
  pub old_reader :
      (p : Address) (d : Predecessors) (r : String)
      → HasNode tree p d
      → contains d.readers r ≡ true
      → (r ≡ txn) ⊎ ((e : Predecessors) × HasNode tree0 p e × (contains e.readers r ≡ true))
