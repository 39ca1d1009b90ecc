-- ===== src/Runtime.antt =====
-- lib/runtime/record-runtime.cpp: the runtime's versions of the pthread calls, on top of the
-- round-robin scheduler. State has what they share, and the other modules the calls by kind.
pub mod Calls
pub mod Methods
pub mod State
pub mod Time
pub mod Locks
pub mod Cond
pub mod Sem
pub mod Barrier
pub mod Lineup
pub mod Regions
pub mod Blocking
pub mod Sleep
pub mod Fork
pub mod Ending
