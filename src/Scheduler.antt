-- ===== src/Scheduler.antt =====
-- include/tern/runtime/record-scheduler.h and lib/runtime/record-scheduler.cpp: the round-robin
-- scheduler. State has the scheduler's state, Waiting the wait queue, Turn the passing of the turn.
pub mod State
pub mod Tokens
pub mod Waiting
pub mod Turn
pub mod Threads
pub mod Exclusion
