-- ===== src/Hooks.antt =====
-- lib/runtime/hooks.cpp: the functions that the interception of calls turns an application's calls
-- into. Crossing has what they share, and the other modules the hooks by kind.
pub mod Crossing
pub mod Threads
pub mod Locks
pub mod Sockets
pub mod Names
pub mod Files
pub mod Times
pub mod Table
pub mod Services
