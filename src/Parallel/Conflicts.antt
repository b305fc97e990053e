-- ===== src/Parallel/Conflicts.antt =====
-- `add_batch` of the parallel scheduler: what the predecessor tree and the chain keep of the
-- conflicts between transactions.
use blockchain_node.Prelude.{
  ℕ, String, ◌≡◌, Bool, true, false, ◌||◌, List, [], ◌∷◌, ◌++◌, arith, inl, inr, Bool-cases,
  contains, contains-append, ◌==◌, eq_refl,
}
use blockchain_node.Python.{ok, Result-cases}
use blockchain_node.Dict
use blockchain_node.Parallel.Tree.{Address}
use blockchain_node.Parallel.Predecessors.{
  Predecessors, PredecessorTree, PredecessorChain, find_write_predecessors, find_read_predecessors,
}
use blockchain_node.Parallel.Finding.{writes}
use blockchain_node.Parallel.ReadQueries.{read_found}
use blockchain_node.Parallel.Queries.{
  HasNode, IsPrefixTree, WriterFound, write_found, starts_with-root,
}
use blockchain_node.Parallel.Chains.{is_before, at_or_before, at_or_before_trans, IsClosed, Related}
use blockchain_node.Parallel.Reading.{add_reader-Progress}
use blockchain_node.Parallel.Writing.{set_writer-Progress}
use blockchain_node.Parallel.Accesses.{Access, IsIn, Ordered, Represented, Nested, Finds, Progress}
use blockchain_node.Parallel.State.{
  find_input_dependencies, find_output_dependencies, add_readers, set_writers, recursion_limit,
}

-- the accesses of a transaction on top of the older ones
abbrev pub with_reads : String → List Address → List Access → List Access
with_reads txn [] log = log
with_reads txn (a ∷ inputs) log =
    with_reads txn inputs (record { txn = txn; at = a; is_write = false } ∷ log)

abbrev pub with_writes : String → List Address → List Access → List Access
with_writes txn [] log = log
with_writes txn (a ∷ outputs) log =
    with_writes txn outputs (record { txn = txn; at = a; is_write = true } ∷ log)

-- The chain has every older transaction in conflict before a newer one, and the tree knows enough
-- to keep it so.
pub record IsSerial (log : List Access) (chain : PredecessorChain) (tree : PredecessorTree)
    : Type 0 where
  pub ordered : Ordered chain log
  pub closed : IsClosed chain
  pub prefix_tree : IsPrefixTree tree
  pub nested : Nested chain tree
  pub represented : (x : Access) → IsIn x log → Represented chain tree x
  pub known :
      (p : Address) (d : Predecessors) (r : String)
      → HasNode tree p d
      → (writes d.writer r || contains d.readers r) ≡ true
      → Dict.has r chain ≡ true

-- the writers that a search finds come before the transaction
found_before :
    (chain : PredecessorChain) (tree : PredecessorTree) (txn : String) (a x : Address)
    (d : Predecessors) (found : List String)
    → IsClosed chain
    → Nested chain tree
    → ((p : String) → contains found p ≡ true → is_before chain p txn ≡ true)
    → HasNode tree x d
    → WriterFound found tree a x d
    → (w : String) → writes d.writer w ≡ true
    → is_before chain w txn ≡ true
found_before chain tree txn a x d found c n before h f w i = elim (f w i) [
  | inl j ↦ before w j
  | inr (_, (y, e, v, ext, (k, l, m))) ↦
      at_or_before_trans chain w v txn c (n x y d e w v h k ext i l) (before v m)
]

module _ (chain : PredecessorChain) (closed : IsClosed chain) (tree : PredecessorTree)
    (prefix_tree : IsPrefixTree tree) (nested : Nested chain tree) (txn : String) where
  -- for each of the addresses
  abbrev pub AllFinds : Bool → List Address → Type 0
  AllFinds is_write [] = Unit {0}
  AllFinds is_write (a ∷ addresses) = Finds chain tree txn a is_write × AllFinds is_write addresses

  abbrev pub Before : List String → Type 0
  Before found = (p : String) → contains found p ≡ true → is_before chain p txn ≡ true

  write-Finds :
      (n : ℕ) (a : Address) (found : List String)
      → find_write_predecessors n tree a ≡ ok found
      → Before found
      → Finds chain tree txn a true
  write-Finds n a found h before =
      let (root, t) = prefix_tree in
      record {
        writer = λ x d w i near.
            found_before chain tree txn a x d found closed nested before i
              (write_found n tree a x d found (starts_with-root a tree root) t h i near).1 w;
        readers = λ x d r _ i near j.
            before r
              ((write_found n tree a x d found (starts_with-root a tree root) t h i near).0 r j);
      }

  read-Finds :
      (n : ℕ) (a : Address) (found : List String)
      → find_read_predecessors n tree a ≡ ok found
      → Before found
      → Finds chain tree txn a false
  read-Finds n a found h before =
      let (root, t) = prefix_tree in
      record {
        writer = λ x d w i near.
            found_before chain tree txn a x d found closed nested before i
              (read_found n tree a x d found (starts_with-root a tree root) t h i near) w;
        readers = λ x d r i. absurd (ground (arith, i));
      }

  inputs-AllFinds :
      (inputs : List Address) (found : List String)
      → find_input_dependencies inputs tree ≡ ok found
      → Before found
      → AllFinds false inputs
  unfolding find_input_dependencies
  inputs-AllFinds [] found h before = tt
  inputs-AllFinds (a ∷ inputs) found h before =
      elim (Result-cases (find_read_predecessors recursion_limit tree a)) [
        | inr (inl (x, e)) ↦ absurd (ground (arith, e, h))
        | inr (inr e) ↦ absurd (ground (arith, e, h))
        | inl (here, e) ↦ elim (Result-cases (find_input_dependencies inputs tree)) [
          | inr (inl (x, k)) ↦ absurd (ground (arith, e, h, k))
          | inr (inr k) ↦ absurd (ground (arith, e, h, k))
          | inl (rest, k) ↦
              let same : found ≡ here ++ rest = ground (arith, e, h, k) in
              (
                read-Finds recursion_limit a here e
                    (λ p i. before p (ground (arith, same, i, contains-append here rest p))),
                inputs-AllFinds inputs rest k
                    (λ p i. before p (ground (arith, same, i, contains-append here rest p))),
              )
        ]
      ]

  outputs-AllFinds :
      (outputs : List Address) (found : List String)
      → find_output_dependencies outputs tree ≡ ok found
      → Before found
      → AllFinds true outputs
  unfolding find_output_dependencies
  outputs-AllFinds [] found h before = tt
  outputs-AllFinds (a ∷ outputs) found h before =
      elim (Result-cases (find_write_predecessors recursion_limit tree a)) [
        | inr (inl (x, e)) ↦ absurd (ground (arith, e, h))
        | inr (inr e) ↦ absurd (ground (arith, e, h))
        | inl (here, e) ↦ elim (Result-cases (find_output_dependencies outputs tree)) [
          | inr (inl (x, k)) ↦ absurd (ground (arith, e, h, k))
          | inr (inr k) ↦ absurd (ground (arith, e, h, k))
          | inl (rest, k) ↦
              let same : found ≡ here ++ rest = ground (arith, e, h, k) in
              (
                write-Finds recursion_limit a here e
                    (λ p i. before p (ground (arith, same, i, contains-append here rest p))),
                outputs-AllFinds outputs rest k
                    (λ p i. before p (ground (arith, same, i, contains-append here rest p))),
              )
        ]
      ]

  module _ (log0 : List Access)
      (represented0 : (x : Access) → IsIn x log0 → Represented chain tree x) where
    readers-Progress :
        (inputs : List Address) (tree' : PredecessorTree) (log : List Access)
        → AllFinds false inputs
        → Progress chain tree log0 txn tree' log
        → Progress chain tree log0 txn (add_readers inputs txn tree') (with_reads txn inputs log)
    unfolding add_readers
    readers-Progress [] tree' log f g = g
    readers-Progress (a ∷ inputs) tree' log (f, fs) g =
        readers-Progress inputs _ _ fs
          (add_reader-Progress chain closed tree log0 txn represented0 a tree' log f g)

    writers-Progress :
        (outputs : List Address) (tree' : PredecessorTree) (log : List Access)
        → AllFinds true outputs
        → Progress chain tree log0 txn tree' log
        → Progress chain tree log0 txn (set_writers outputs txn tree') (with_writes txn outputs log)
    unfolding set_writers
    writers-Progress [] tree' log f g = g
    writers-Progress (a ∷ outputs) tree' log (f, fs) g =
        writers-Progress outputs _ _ fs
          (set_writer-Progress chain closed tree log0 txn represented0 a tree' log f g)

module _ (txn : String) (preds : List String) (chain chain' : PredecessorChain)
    (related : Related txn preds chain chain') where
  at_or_before-keeps :
      (x y : String) → at_or_before chain x y ≡ true → at_or_before chain' x y ≡ true
  at_or_before-keeps x y h = elim (Bool-cases (x == y)) [
    | inl e ↦ ground (arith, e)
    | inr e ↦ ground (arith, related.keeps x y (ground (arith, e, h)))
  ]

  Ordered-keeps : (log : List Access) → Ordered chain log → Ordered chain' log
  Ordered-keeps [] h = tt
  Ordered-keeps (y ∷ log) (h, k) =
      (λ x i c. at_or_before-keeps x.txn y.txn (h x i c), Ordered-keeps log k)

  Represented-keeps :
      (tree : PredecessorTree) (x : Access) → Represented chain tree x → Represented chain' tree x
  Represented-keeps tree x (p, d, r, (h, s, k, l)) =
      (p, d, r, (h, s, k, at_or_before-keeps x.txn r l))

  -- the accesses of a transaction with the predecessors that were found for it
  pub access-IsSerial :
      (log : List Access) (tree : PredecessorTree) (inputs outputs : List Address)
      (found_reads found_writes : List String)
      → IsSerial log chain tree
      → find_input_dependencies inputs tree ≡ ok found_reads
      → find_output_dependencies outputs tree ≡ ok found_writes
      → preds ≡ found_reads ++ found_writes
      → IsSerial
          (with_writes txn outputs (with_reads txn inputs log))
          chain'
          (set_writers outputs txn (add_readers inputs txn tree))
  access-IsSerial log tree inputs outputs found_reads found_writes g h k same =
      let nested : Nested chain' tree =
        λ p q d e w v a b i j l. at_or_before-keeps w v (g.nested p q d e w v a b i j l) in
      let represented : (x : Access) → IsIn x log → Represented chain' tree x =
        λ x i. Represented-keeps tree x (g.represented x i) in
      let start : Progress chain' tree log txn tree log = record {
        prefix_tree = g.prefix_tree;
        nested = nested;
        represented = represented;
        ordered = Ordered-keeps log g.ordered;
        source = λ x i. inl i;
        old_writer = λ p d w i j. inr (d, i, j);
        old_reader = λ p d r i j. inr (d, i, j);
      } in
      let read_finds =
        inputs-AllFinds chain' related.closed tree g.prefix_tree nested txn inputs found_reads h
          (λ p i.
            related.direct p
              (ground (arith, same, i, contains-append found_reads found_writes p))) in
      let write_finds =
        outputs-AllFinds chain' related.closed tree g.prefix_tree nested txn outputs found_writes k
          (λ p i.
            related.direct p
              (ground (arith, same, i, contains-append found_reads found_writes p))) in
      let done =
        writers-Progress chain' related.closed tree g.prefix_tree nested txn log represented outputs
          _ _ write_finds
          (readers-Progress chain' related.closed tree g.prefix_tree nested txn log represented
            inputs tree log read_finds start) in
      record {
        ordered = done.ordered;
        closed = related.closed;
        prefix_tree = done.prefix_tree;
        nested = done.nested;
        represented = done.represented;
        known = λ p d r i j. elim (Bool-cases (writes d.writer r)) [
          | inl l ↦ elim (done.old_writer p d r i l) [
            | inl n ↦ ground (arith, related.entry r, n, eq_refl r)
            | inr (e, a, b) ↦ ground (arith, related.entry r, g.known p e r a (ground (arith, b)))
          ]
          | inr l ↦ elim (done.old_reader p d r i (ground (arith, j, l))) [
            | inl n ↦ ground (arith, related.entry r, n, eq_refl r)
            | inr (e, a, b) ↦ ground (arith, related.entry r, g.known p e r a (ground (arith, b)))
          ]
        ];
      }
