-- ===== src/Lib.antt =====
-- The transaction execution core of the validator: execution contexts, the context manager, and
-- the serial and the parallel scheduler.
--
-- A transaction runs in an execution context, which holds the values that the transaction reads and
-- writes and the prefixes that its header authorizes. A context is based on earlier contexts. The
-- context manager creates the contexts, looks values up through the chain of base contexts, and
-- squashes a chain into one set of updates and deletes of the Merkle tree. The scheduler decides
-- which transaction runs next, on which context, and asks for a squash at the end of a batch.
--
-- Files and sources, below validator/sawtooth_validator/execution/:
--   Prelude, Python, Dict   shared: Boolean tests, lists, the errors that calls raise (`err`), calls
--                           that would wait (`blocked`), dictionaries in insertion order
--   Context                 execution_context.py. Future is `_ContextFuture`; State is
--                           `ExecutionContext` with its reads and writes; Access, Steps, Results,
--                           Writes and Freeze are the theorems
--   Manager                 context_manager.py. Address is the address patterns; Store is the
--                           contexts by id; Sets is the sets of addresses; Search is
--                           `_find_address_values_in_chain`; Squash is the squash handler; Calls is
--                           the other calls and a round of each of the two threads; Fuel,
--                           SquashMerge, SquashValues, SearchRound, SearchValues, Requests and
--                           Confinement are the theorems
--   Serial                  scheduler_serial.py, with the results of scheduler.py. Data and State are
--                           the fields and the calls that add or read; Next is `next_transaction`;
--                           Finish is the calls that take results and compute roots; Unschedule is
--                           `unschedule_incomplete_batches`; Iterator is `SchedulerIterator`;
--                           Choice, BatchEnd, Frame, Subsequence, Removal, Order, Runs and
--                           IteratorOrder are the theorems
--   Parallel                scheduler_parallel.py. Tree is `Tree`; Predecessors is `PredecessorTree`
--                           and `PredecessorChain`; State is the fields, `add_batch` and the calls
--                           that read; Results is `set_transaction_execution_result`; Next is
--                           `next_transaction`; Squash is `get_batch_execution_result` and `cancel`;
--                           Unschedule is `unschedule_incomplete_batches`. Theorems: Prefix, Nodes,
--                           Walks and Coverage on the walk; Finding, WriteLoops, ReadLoops,
--                           Queries, ReadQueries, Known and Totality on the searches; Updates,
--                           Additions, Insertion and Rewriting on `update`; Chains, Accesses,
--                           AccessSteps, Reading, Writing, Conflicts and Serializable on the order of
--                           transactions; Ends, Ranking, Keeping and Calls on the end of
--                           `next_transaction`; Runnable, Handout, Replays, Failures and Contexts
--                           on the other calls
--
-- Parameters: the Merkle database, the ids that uuid4 gives, the reader of a transaction header,
-- and the squash handler of a scheduler with a world of its own. Opening the database, a lookup, a
-- membership test and an update may raise. A lock is held for a whole call, so that a call is one
-- step; the two threads of the manager are functions that do one round. A wait that is not
-- satisfied at once is the result `blocked`; for the iterator, what the other threads do while it
-- waits is an argument. Sets are lists, in the order of insertion.
--
-- The two breadth-first loops of the manager run on fuel: `chain_fuel` is one more than the number
-- of base ids that the start and all the contexts name. The loops push an id once, so that the
-- fuel is enough for every graph of contexts, cycles included. The walk of the prefix tree below
-- an address runs on fuel, the number of its nodes. The searches of the predecessor tree have
-- Python's recursion limit, 1000, as their depth; two are enough for a prefix tree. The loop that
-- collects the contexts of the predecessors runs on fuel that the caller gives, and its end is
-- `none`; some fuel is enough, since the predecessors of a transaction are older than it. The loop
-- of the iterator runs over the waits that return. All other loops are structural.
--
-- The children of a node of the prefix tree are a set in the source and a list here. Two of them never
-- go on with the same character, so that the order in which the source meets them does not matter.
--
-- Not modelled: logging, metrics, `__iter__` and `__del__` of the schedulers, the executor, the
-- journal, gossip, networking, the REST API, the transaction families and the command line.
pub mod Prelude
pub mod Python
pub mod Dict
pub mod Context
pub mod Manager
pub mod Serial
pub mod Parallel
