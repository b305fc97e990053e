-- ===== src/Parallel.antt =====
-- validator/sawtooth_validator/execution/scheduler_parallel.py: the scheduler that hands out every
-- transaction whose predecessors have results.
pub mod Tree
pub mod Prefix
pub mod Nodes
pub mod Walks
pub mod Coverage
pub mod Finding
pub mod WriteLoops
pub mod ReadLoops
pub mod Queries
pub mod ReadQueries
pub mod Updates
pub mod Additions
pub mod Insertion
pub mod Rewriting
pub mod Chains
pub mod Accesses
pub mod AccessSteps
pub mod Reading
pub mod Writing
pub mod Totality
pub mod Known
pub mod Conflicts
pub mod Serializable
pub mod Predecessors
pub mod State
pub mod Results
pub mod Next
pub mod Runnable
pub mod Handout
pub mod Ends
pub mod Ranking
pub mod Keeping
pub mod Calls
pub mod Squash
pub mod Contexts
pub mod Replays
pub mod Failures
pub mod Unschedule
mod Tests
mod CallTests
