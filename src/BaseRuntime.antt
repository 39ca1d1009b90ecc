-- ===== src/BaseRuntime.antt =====
-- lib/runtime/runtime.cpp: the methods of struct Runtime, which make the C library's calls, in the
-- build without DBUG. Errno has what they share, and the other modules the methods by kind.
pub mod Errno
pub mod Threads
pub mod Locks
pub mod Sockets
pub mod Names
pub mod Files
pub mod Times
pub mod Receiving
pub mod Table
