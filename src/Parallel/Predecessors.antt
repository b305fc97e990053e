-- ===== src/Parallel/Predecessors.antt =====
-- `PredecessorTree`: the readers and the writer of each address, and which of them come before a
-- read or a write. `PredecessorChain`: all that comes before a transaction. Sets of transaction ids
-- are lists without repetition.
use blockchain_node.Prelude.{
  ℕ, zero, suc, String, Bool, true, false, Option, none, some, List, [], ◌∷◌, ◌++◌, if◌then◌else◌,
  length, leb, contains,
}
use blockchain_node.Python.{
  Result, ok, err, key_error, recursion_error, address_not_in_tree, or_raise, ◌>>=◌,
}
use blockchain_node.Dict
use blockchain_node.Dict.{Dict}
use blockchain_node.Parallel.Tree.{Address, no_nodes, Node, update, walk}

-- `s.add(x)` and `s.update(xs)`
abbrev pub add : List String → String → List String
add s x = if contains s x then s else s ++ x ∷ []

abbrev pub add_all : List String → List String → List String
add_all s [] = s
add_all s (x ∷ xs) = add_all (add s x) xs

abbrev pub add_option : List String → Option String → List String
add_option s none = s
add_option s (some x) = add s x

pub record Predecessors : Type 0 where
  pub readers : List String
  pub writer : Option String

abbrev pub PredecessorTree : Type 0
PredecessorTree = Node Predecessors

abbrev pub new_tree : PredecessorTree
new_tree = record { address = []; value = none; children = no_nodes }

-- the updaters of `add_reader` and `set_writer`
unfoldable pub read_by : String → Option Predecessors → Predecessors
read_by reader none = record { readers = reader ∷ []; writer = none }
read_by reader (some d) = record d { readers = add d.readers reader }

unfoldable pub written_by : String → Option Predecessors → Predecessors
written_by writer d = record { readers = []; writer = some writer }

unfoldable pub add_reader : Address → String → PredecessorTree → PredecessorTree
add_reader address reader tree = update address (read_by reader) false tree

unfoldable pub set_writer : Address → String → PredecessorTree → PredecessorTree
set_writer address writer tree = update address (written_by writer) true tree

-- The first loops over the stream: the predecessors, the enclosing writer, and, where the loop
-- breaks, what is left of the stream.
pub record Enclosing : Type 0 where
  pub predecessors : List String
  pub enclosing_writer : Option String
  pub left : Option (List (Address × Option Predecessors))

-- the writer of the node, if it has one, in place of the one before
abbrev pub nearer : Option String → Option String → Option String
nearer none before = before
nearer (some w) before = some w

unfoldable pub enclosing_write :
    ℕ → List (Address × Option Predecessors) → List String → Option String → Enclosing
enclosing_write address_len [] predecessors writer = record {
  predecessors = predecessors;
  enclosing_writer = writer;
  left = none;
}
enclosing_write address_len ((p, none) ∷ stream) predecessors writer =
    enclosing_write address_len stream predecessors writer
enclosing_write address_len ((p, some d) ∷ stream) predecessors writer =
    let predecessors' = add_all predecessors d.readers in
    let rest = enclosing_write address_len stream predecessors' (nearer d.writer writer) in
    if leb address_len (length p)
    then record {
      predecessors = predecessors';
      enclosing_writer = nearer d.writer writer;
      left = some stream;
    }
    else rest

unfoldable pub enclosing_read : ℕ → List (Address × Option Predecessors) → Option String → Enclosing
enclosing_read address_len [] writer = record {
  predecessors = [];
  enclosing_writer = writer;
  left = none;
}
enclosing_read address_len ((p, none) ∷ stream) writer = enclosing_read address_len stream writer
enclosing_read address_len ((p, some d) ∷ stream) writer =
    let rest = enclosing_read address_len stream (nearer d.writer writer) in
    if leb address_len (length p)
    then record { predecessors = []; enclosing_writer = nearer d.writer writer; left = some stream }
    else rest

-- the second loops
unfoldable pub below_write : List (Address × Option Predecessors) → List String → List String
below_write [] predecessors = predecessors
below_write ((p, none) ∷ stream) predecessors = below_write stream predecessors
below_write ((p, some d) ∷ stream) predecessors =
    below_write stream (add_all (add_option predecessors d.writer) d.readers)

unfoldable pub below_read : List (Address × Option Predecessors) → List String → List String
below_read [] predecessors = predecessors
below_read ((p, none) ∷ stream) predecessors = below_read stream predecessors
below_read ((p, some d) ∷ stream) predecessors =
    below_read stream (add_option predecessors d.writer)

-- `finally`, and then the second loop over what is left of the stream; `again` is the call for the
-- match of the exception
unfoldable pub after_enclosing :
    (List (Address × Option Predecessors) → List String → List String)
    → Enclosing
    → Option (Option Address)
    → (Address → Result (List String))
    → Result (List String)
after_enclosing second e raised again =
    let predecessors = add_option e.predecessors e.enclosing_writer in
    elim e.left [
      | some stream ↦ elim raised [
        | none ↦ ok (second stream predecessors)
        | some match ↦ err address_not_in_tree
      ]
      | none ↦ elim raised [
        | none ↦ ok predecessors
        | some none ↦ ok predecessors
        | some (some match) ↦ again match
      ]
    ]

-- The calls nest at most `depth` deep, the recursion limit of Python.
unfoldable pub find_write_predecessors : ℕ → PredecessorTree → Address → Result (List String)
find_write_predecessors zero tree address = err recursion_error
find_write_predecessors (suc depth) tree address =
    let stream = walk address tree in
    after_enclosing below_write (enclosing_write (length address) stream.yielded [] none)
      stream.raised (λ match. find_write_predecessors depth tree match)

unfoldable pub find_read_predecessors : ℕ → PredecessorTree → Address → Result (List String)
find_read_predecessors zero tree address = err recursion_error
find_read_predecessors (suc depth) tree address =
    let stream = walk address tree in
    after_enclosing below_read (enclosing_read (length address) stream.yielded none) stream.raised
      (λ match. find_read_predecessors depth tree match)

-- `_predecessors_by_id`
abbrev pub PredecessorChain : Type 0
PredecessorChain = Dict (List String)

-- the loop of `add_relationship`
unfoldable pub close : List String → PredecessorChain → List String → Result (List String)
close all_pred chain [] = ok all_pred
close all_pred chain (pred ∷ predecessors) = do
  before ← or_raise (Dict.get pred chain) key_error
  close (add_all all_pred before) chain predecessors

unfoldable pub add_relationship : String → List String → PredecessorChain → Result PredecessorChain
add_relationship txn_id predecessors chain = do
  all_pred ← close (add_all [] predecessors) chain predecessors
  ok (Dict.insert txn_id all_pred chain)

-- for one of `others`; `any` stops at the first that it is a predecessor of
unfoldable pub is_predecessor_of_other : String → List String → PredecessorChain → Result Bool
is_predecessor_of_other predecessor [] chain = ok false
is_predecessor_of_other predecessor (o ∷ others) chain =
    let rest = is_predecessor_of_other predecessor others chain in
    do
      before ← or_raise (Dict.get o chain) key_error
      if contains before predecessor then ok true else rest
