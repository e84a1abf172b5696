-- ===== src/Sched.antt =====
-- The scheduler, sys/kern/sch.cpp.
pub mod Defs
pub mod Sleep
pub mod Control
pub mod Runq
pub mod Valid
pub mod Wake
pub mod Block
pub mod Run
pub mod Adjust
pub mod Dpcs
pub mod Steps
mod Tests
