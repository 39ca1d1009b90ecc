-- ===== src/Tests.antt =====
-- Concrete states of the program, and the theorems of the library at them.
pub mod States
pub mod Queues
pub mod Scheduling
pub mod Maps
pub mod Calls
pub mod Threads
pub mod Processes
pub mod Locking
pub mod Logs
pub mod Layers
pub mod Rounds
