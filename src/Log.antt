-- ===== src/Log.antt =====
-- The log of synchronization operations: include/tern/logdefs.h, include/tern/syncfuncs.def.h and
-- lib/runtime/record-log.cpp.
pub mod SyncFunc
pub mod Records
pub mod Bin
pub mod Txt
