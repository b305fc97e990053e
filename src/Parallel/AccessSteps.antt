-- ===== src/Parallel/AccessSteps.antt =====
-- What one access adds to the tree and to the order of the accesses.
use blockchain_node.Prelude.{
  String, ◌≡◌, refl, sym, ◌∙◌, Bool, true, false, Option, none, some, List, ◌∷◌, arith, inl, inr,
  ◌⊎◌, Bool-cases, contains, eq_iff, eq_refl,
}
use blockchain_node.Parallel.Tree.{Address, Nodes, update}
use blockchain_node.Parallel.Prefix.{starts_with_refl}
use blockchain_node.Parallel.Nodes.{Has}
use blockchain_node.Parallel.Updates.{NewData, Change}
use blockchain_node.Parallel.Rewriting.{update-Change}
use blockchain_node.Parallel.Predecessors.{Predecessors, PredecessorTree, PredecessorChain, read_by}
use blockchain_node.Parallel.Finding.{writes, contains-add}
use blockchain_node.Parallel.Queries.{HasNode, IsPrefixTree, nodes_of, starts_with-root}
use blockchain_node.Parallel.Chains.{is_before, at_or_before, at_or_before_trans, IsClosed}
use blockchain_node.Parallel.Accesses.{
  Access, conflict, IsIn, Ordered, Represented, Finds, Progress, touch_above,
}

pub Has-same :
    (x y : Address) (d e : Predecessors) (nodes : Nodes Predecessors)
    → x ≡ y
    → d ≡ e
    → Has y e nodes
    → Has x d nodes
Has-same x y d e nodes h k i = rw (h, k) i

pub writes-same :
    (d e : Predecessors) (w : String) → d ≡ e → writes d.writer w ≡ true → writes e.writer w ≡ true
writes-same d e w h i = rw⁻¹ h i

pub contains-same :
    (d e : Predecessors) (r : String)
    → d ≡ e
    → contains d.readers r ≡ true
    → contains e.readers r ≡ true
contains-same d e r h i = rw⁻¹ h i

-- of the writer and the readers, what `read_by` does
pub read-writer :
    (txn : String) (b : Address) (tree : PredecessorTree) (e : Predecessors) (w : String)
    → NewData b (read_by txn) false (nodes_of tree) e
    → writes e.writer w ≡ true
    → (d : Predecessors) × HasNode tree b d × (writes d.writer w ≡ true)
unfolding read_by
read-writer txn b tree e w (inl i) h =
    absurd (ground (arith, writes-same e (read_by txn none) w i h))
read-writer txn b tree e w (inr (d, i, j)) h = (d, i, writes-same e (read_by txn (some d)) w j h)

pub read-readers :
    (txn : String) (b : Address) (tree : PredecessorTree) (e : Predecessors) (r : String)
    → NewData b (read_by txn) false (nodes_of tree) e
    → contains e.readers r ≡ true
    → (r ≡ txn) ⊎ ((d : Predecessors) × HasNode tree b d × (contains d.readers r ≡ true))
unfolding read_by
read-readers txn b tree e r (inl i) h =
    inl (ground (arith, contains-same e (read_by txn none) r i h, eq_iff txn r))
read-readers txn b tree e r (inr (d, i, j)) h = elim (Bool-cases (contains d.readers r)) [
  | inl k ↦ inr (d, i, k)
  | inr k ↦ inl (
      ground (
        arith,
        contains-same e (read_by txn (some d)) r j h,
        k,
        contains-add d.readers txn r,
        eq_iff txn r,
      ))
]

pub Represented-same :
    (chain : PredecessorChain) (tree : PredecessorTree) (x y : Access)
    → x ≡ y
    → Represented chain tree y
    → Represented chain tree x
Represented-same chain tree x y h i = rw h i

pub read_new :
    (chain : PredecessorChain) (txn : String) (b : Address) (tree tree' : PredecessorTree)
    → (e : Predecessors) × HasNode tree' b e × NewData b (read_by txn) false (nodes_of tree) e
    → Represented chain tree' (record { txn = txn; at = b; is_write = false })
unfolding read_by
read_new chain txn b tree tree' (e, h, n) =
    let reads : contains e.readers txn ≡ true = elim n [
      | inl j ↦ contains-same (read_by txn none) e txn (sym j) (ground (arith, eq_refl txn))
      | inr (d, _, j) ↦
          contains-same (read_by txn (some d)) e txn (sym j)
            (ground (arith, contains-add d.readers txn txn, eq_refl txn))
    ] in
    (b, e, txn, (h, starts_with_refl b, inr (refl, refl, reads), ground (arith, eq_refl txn)))

pub updated_tree :
    (b : Address) (u : Option Predecessors → Predecessors) (prune : Bool) (tree : PredecessorTree)
    → IsPrefixTree tree
    → IsPrefixTree (update b u prune tree)
      × Change b u prune (nodes_of tree) (nodes_of (update b u prune tree))
updated_tree b u prune tree (h, t) =
    let (same, t', c) = update-Change b u prune tree (starts_with-root b tree h) t in
    ((same ∙ h, rw same t'), rw same c)

module _ (chain : PredecessorChain) (closed : IsClosed chain) (tree0 : PredecessorTree)
    (log0 : List Access) (txn : String)
    (represented0 : (x : Access) → IsIn x log0 → Represented chain tree0 x) where
  -- an older access in conflict with a new one
  older_before :
      (x y : Access)
      → y.txn ≡ txn
      → Finds chain tree0 txn y.at y.is_write
      → IsIn x log0
      → conflict x y ≡ true
      → at_or_before chain x.txn txn ≡ true
  older_before x y same f i c =
      let (p, d, r, (h, s, k, l)) = represented0 x i in
      let near = touch_above x.at p y.at s (ground (arith, c)) in
      let before : is_before chain r txn ≡ true = elim k [
        | inl m ↦ f.writer p d r h near m
        | inr (m, _, n) ↦ f.readers p d r (ground (arith, m, c)) h near n
      ] in
      ground (arith, at_or_before_trans chain x.txn r txn closed l before)

  pub next-Ordered :
      (tree : PredecessorTree) (log : List Access) (y : Access)
      → Progress chain tree0 log0 txn tree log
      → y.txn ≡ txn
      → Finds chain tree0 txn y.at y.is_write
      → Ordered chain (y ∷ log)
  next-Ordered tree log y g same f = (
    λ x i c. elim (g.source x i) [
      | inl j ↦ rw same (older_before x y same f j c)
      | inr j ↦ ground (arith, j, same, eq_refl y.txn)
    ],
    g.ordered,
  )

  abbrev pub from_source :
      (tree : PredecessorTree) (log : List Access) (y : Access)
      → Progress chain tree0 log0 txn tree log
      → y.txn ≡ txn
      → (x : Access) → IsIn x (y ∷ log)
      → IsIn x log0 ⊎ (x.txn ≡ txn)
  from_source tree log y g same x (inl i) = inr (rw i same)
  from_source tree log y g same x (inr i) = g.source x i
