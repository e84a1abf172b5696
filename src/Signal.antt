-- ===== src/Signal.antt =====
-- Signals, sys/kern/sig.cpp, with task_suspend and task_resume of sys/kern/task.cpp.
pub mod Sets
pub mod State
pub mod Sending
pub mod Delivery
pub mod Calls
pub mod Kill
pub mod Members
pub mod Offers
pub mod Flush
pub mod Sent
pub mod Masks
pub mod Handled
pub mod Exec
pub mod Discard
pub mod Clean
pub mod Action
mod Tests
