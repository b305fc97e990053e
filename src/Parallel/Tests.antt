-- ===== src/Parallel/Tests.antt =====
-- Runs of the parallel scheduler, and the theorems at concrete inputs.
use blockchain_node.Prelude.{
  String, ◌≡◌, refl, Bool, true, false, Option, none, some, List, [], ◌∷◌, ◌==◌, ◌||◌,
  if◌then◌else◌, inl, inr, arith, Bool-cases,
}
use blockchain_node.Python.{ok}
use blockchain_node.Dict
use blockchain_node.Dict.{Dict}
use blockchain_node.Serial.Data.{Transaction, Batch}
use blockchain_node.Parallel.Tree.{
  Address, starts_with, less, no_nodes, node, update, child_below, descendants, walk_at,
  walk_children, walk,
}
use blockchain_node.Parallel.Nodes.{IsTree}
use blockchain_node.Parallel.Walks.{Covers}
use blockchain_node.Parallel.Coverage.{walk-Covers}
use blockchain_node.Parallel.Updates.{Change}
use blockchain_node.Parallel.Rewriting.{update-Change}
use blockchain_node.Parallel.Predecessors.{
  Predecessors, PredecessorTree, PredecessorChain, written_by, enclosing_write, enclosing_read,
  below_write, below_read, after_enclosing, find_write_predecessors, find_read_predecessors, close,
  add_relationship,
}
use blockchain_node.Parallel.Queries.{FoundWrite, write_found}
use blockchain_node.Parallel.ReadQueries.{FoundRead, read_found}
use blockchain_node.Parallel.Totality.{find_write_total, find_read_total}
use blockchain_node.Parallel.Chains.{IsClosed, Related, add_relationship-Related}
use blockchain_node.Parallel.Accesses.{Ordered}
use blockchain_node.Parallel.State.{TransactionHeader, ParallelScheduler, new_parallel_scheduler}
use blockchain_node.Parallel.Serializable.{all_txns, history, add_batches, add_batches_in_order}

-- the headers of the tests: what a transaction reads and writes
abbrev pub parse : String → TransactionHeader
parse h =
    if h == "write"
    then record { inputs = []; outputs = (1 ∷ 2 ∷ []) ∷ []; dependencies = [] }
    else if h == "read"
    then record { inputs = (1 ∷ []) ∷ []; outputs = []; dependencies = [] }
    else record {
      inputs = (1 ∷ 2 ∷ []) ∷ [];
      outputs = (1 ∷ 3 ∷ []) ∷ [];
      dependencies = "t1" ∷ [];
    }

abbrev pub txn_1 : Transaction
txn_1 = record { header_signature = "t1"; header = "write"; payload = "a" }

abbrev pub txn_2 : Transaction
txn_2 = record { header_signature = "t2"; header = "read"; payload = "b" }

abbrev pub txn_3 : Transaction
txn_3 = record { header_signature = "t3"; header = "both"; payload = "c" }

abbrev pub batch_1 : Batch
batch_1 = record { header_signature = "b1"; transactions = txn_1 ∷ txn_2 ∷ [] }

abbrev pub batch_2 : Batch
batch_2 = record { header_signature = "b2"; transactions = txn_3 ∷ [] }

abbrev two_batches : List (Batch × Option String × Bool)
two_batches = (batch_1, none, false) ∷ (batch_2, some "root", true) ∷ []

add_batches_in_order_example :
    (s : ParallelScheduler) × (add_batches parse two_batches (new_parallel_scheduler "first" true)
      ≡ (ok tt, s))
    × Ordered s.predecessor_chain (history parse (all_txns two_batches) [])
add_batches_in_order_example =
    add_batches_in_order parse "first" true two_batches (refl, (refl, (refl, tt)))

-- a tree: `t1` has written [1], then `t3` has read and `t2` has written below
abbrev low : Predecessors
low = record { readers = "t3" ∷ []; writer = some "t2" }

abbrev high : Predecessors
high = record { readers = []; writer = some "t1" }

abbrev pub small : PredecessorTree
small = record {
  address = [];
  value = none;
  children = node (1 ∷ []) (some high) (node (1 ∷ 2 ∷ []) (some low) no_nodes no_nodes) no_nodes;
}

small-IsTree : IsTree small.address small.children
unfolding starts_with
small-IsTree = ((refl, refl), tt, ((refl, refl), tt, tt, tt), tt)

starts : (a : Address) → starts_with a [] ≡ true
unfolding starts_with
starts a = refl

write_run : find_write_predecessors 5 small (1 ∷ []) ≡ ok ("t1" ∷ "t2" ∷ "t3" ∷ [])
unfolding find_write_predecessors after_enclosing enclosing_write below_write walk walk_at
    walk_children descendants starts_with less child_below
write_run = refl

read_run : find_read_predecessors 5 small (1 ∷ []) ≡ ok ("t1" ∷ "t2" ∷ [])
unfolding find_read_predecessors after_enclosing enclosing_read below_read walk walk_at
    walk_children descendants starts_with less child_below
read_run = refl

near : (starts_with (1 ∷ 2 ∷ []) (1 ∷ []) || starts_with (1 ∷ []) (1 ∷ 2 ∷ [])) ≡ true
unfolding starts_with
near = refl

write_found_example : FoundWrite ("t1" ∷ "t2" ∷ "t3" ∷ []) small (1 ∷ []) (1 ∷ 2 ∷ []) low
write_found_example =
    write_found 5 small (1 ∷ []) (1 ∷ 2 ∷ []) low ("t1" ∷ "t2" ∷ "t3" ∷ []) (starts (1 ∷ []))
      small-IsTree write_run (inr (inl (inr (inl (inl (refl, refl)))))) near

read_found_example : FoundRead ("t1" ∷ "t2" ∷ []) small (1 ∷ []) (1 ∷ 2 ∷ []) low
read_found_example =
    read_found 5 small (1 ∷ []) (1 ∷ 2 ∷ []) low ("t1" ∷ "t2" ∷ []) (starts (1 ∷ [])) small-IsTree
      read_run (inr (inl (inr (inl (inl (refl, refl)))))) near

find_write_total_example :
    (found : List String) × (find_write_predecessors 2 small (1 ∷ 2 ∷ 3 ∷ []) ≡ ok found)
find_write_total_example = find_write_total 0 small (1 ∷ 2 ∷ 3 ∷ []) (refl, small-IsTree)

find_read_total_example :
    (found : List String) × (find_read_predecessors 2 small (1 ∷ 2 ∷ 3 ∷ []) ≡ ok found)
find_read_total_example = find_read_total 0 small (1 ∷ 2 ∷ 3 ∷ []) (refl, small-IsTree)

walk-Covers_example : Covers (1 ∷ []) (walk (1 ∷ []) small) (node [] none small.children no_nodes)
walk-Covers_example = walk-Covers (1 ∷ []) small (starts (1 ∷ [])) small-IsTree

update-Change_example :
    let small' = update (1 ∷ 3 ∷ []) (written_by "t4") true small in
    (small'.address ≡ [])
    × IsTree [] small'.children
    × Change
        (1 ∷ 3 ∷ [])
        (written_by "t4")
        true
        (node [] none small.children no_nodes)
        (node [] small'.value small'.children no_nodes)
update-Change_example =
    update-Change (1 ∷ 3 ∷ []) (written_by "t4") true small (starts (1 ∷ 3 ∷ [])) small-IsTree

abbrev short_chain : PredecessorChain
short_chain = ("t1", []) ∷ []

abbrev longer_chain : PredecessorChain
longer_chain = Dict.insert "t2" ("t1" ∷ []) short_chain

relationship_run : add_relationship "t2" ("t1" ∷ []) short_chain ≡ ok longer_chain
unfolding add_relationship close
relationship_run = refl

short_chain-IsClosed : IsClosed short_chain
short_chain-IsClosed = record {
  transitive = λ x y z h k. elim (Bool-cases (z == "t1")) [
    | inl e ↦ absurd (ground (arith, k, e))
    | inr e ↦ absurd (ground (arith, k, e))
  ];
  known = λ x y h. elim (Bool-cases (y == "t1")) [
    | inl e ↦ absurd (ground (arith, h, e))
    | inr e ↦ absurd (ground (arith, h, e))
  ];
}

add_relationship-Related_example : Related "t2" ("t1" ∷ []) short_chain longer_chain
add_relationship-Related_example =
    add_relationship-Related "t2" ("t1" ∷ []) short_chain longer_chain short_chain-IsClosed refl
      relationship_run
