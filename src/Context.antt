-- ===== src/Context.antt =====
-- validator/sawtooth_validator/execution/execution_context.py: the state that one transaction
-- reads and writes. `Future` is `_ContextFuture`, `State` is `ExecutionContext`.
pub mod Future
pub mod State
pub mod Access
pub mod Steps
pub mod Results
pub mod Writes
pub mod Freeze
mod Tests
