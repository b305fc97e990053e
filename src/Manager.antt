-- ===== src/Manager.antt =====
-- validator/sawtooth_validator/execution/context_manager.py: the contexts of the transactions in
-- flight, the search through their chains, and the squash of a chain into a new state root.
pub mod Address
pub mod Store
pub mod Sets
pub mod Search
pub mod Squash
pub mod Fuel
pub mod SquashMerge
pub mod SquashValues
pub mod SearchRound
pub mod SearchValues
pub mod Calls
pub mod Requests
pub mod Confinement
mod RequestTests
mod Tests
