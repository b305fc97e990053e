-- ===== src/Serial.antt =====
-- validator/sawtooth_validator/execution/scheduler_serial.py, with the results and the iterator of
-- scheduler.py: the scheduler that runs one transaction at a time, in the order of the batches.
pub mod Data
pub mod State
pub mod Next
pub mod Finish
pub mod Unschedule
pub mod Choice
pub mod BatchEnd
pub mod Frame
pub mod Subsequence
pub mod Removal
pub mod Order
pub mod Runs
pub mod Iterator
pub mod IteratorOrder
mod Tests
