-- ===== src/Runtime/Fork/Laws.antt =====
-- The child of a fork in lib/runtime/record-runtime.cpp.
use xtern.RunQueue.{RunQueue}
use xtern.Scheduler.Waiting
use xtern.Scheduler.Threads
