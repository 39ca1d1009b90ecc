-- ===== src/Lib.antt =====
-- xtern (Parrot): a runtime that makes the synchronization of a multithreaded program happen in a
-- deterministic order. Each intercepted pthread call first gets a turn, acts, and then passes the
-- turn to the next thread of a run queue. This library models the scheduler that hands out the
-- turns, the data structures under it, the calls of the runtime above it, and the way of a call from
-- the application to the runtime and the C library.
--
-- The parts and where they are:
-- - RunQueue.antt: include/tern/runtime/run-queue.h, class run_queue. A pointer to an element is the
--   thread id of its slot in tid_map; an operation that reads a null pointer or an empty slot gives
--   `none`. RunQueue/Repr.antt relates a queue to the list of threads that it holds, and the
--   scheduler's theorems use the queue through it alone.
-- - TidMap.antt: struct TidMap of include/tern/runtime/scheduler.h (create, self, zombify, reap,
--   getTid, getPthreadTid, zombie, init, reset).
-- - NonDetThreadSet.antt: include/tern/runtime/non-det-thread-set.h (insert, erase, size,
--   first_thread, get_clock, in).
-- - Scheduler/State.antt: the fields of RRScheduler and its bases, and wait_t (wait, post, reset).
--   Scheduler/Waiting.antt: signal, fireTimeouts, nextTimeout, wakeup, check_wakeup, incTurnCount,
--   getTurnCount and selfcheck. Scheduler/Turn.antt: getTurn, putTurn, next, nextRunnable,
--   wakeUpIdleThread, checkNonDetBound, wait, block, interProStart and interProEnd.
--   Scheduler/Threads.antt: the constructor, create, childForkReturn, tryPutTurn and
--   idleThreadCondWait. All are from lib/runtime/record-scheduler.cpp, lib/runtime/scheduler.cpp and
--   the two headers include/tern/runtime/scheduler.h and record-scheduler.h.
-- - Scheduler/Exclusion.antt: the threads of a process over one scheduler, as a step relation of
--   which each step is a call. Scheduler/Tokens.antt counts the turns that a thread has been handed.
-- - Runtime/: lib/runtime/record-runtime.cpp over RRScheduler. State.antt has the macros
--   SCHED_TIMER_START and SCHED_TIMER_END, syncWait and syncSignal; Time.antt the conversion of
--   times to turns; Locks.antt, Cond.antt, Sem.antt, Barrier.antt, Lineup.antt the calls of these
--   names; Regions.antt nonDetStart, nonDetEnd, BLOCK_TIMER_START and BLOCK_TIMER_END, the start, end
--   and join of threads, and the idle thread's operations. Calls.antt lists the calls on sockets,
--   files, processes and names, and Blocking.antt has the runtime's versions of them (__accept,
--   __read, __poll and so on); Sleep.antt has __sleep, __usleep, __nanosleep, schedYield, symbolic
--   and printStat, Fork.antt __fork and __execv.
-- - The way of a call: Interception.antt has the functions that stand in for the C library's
--   (dync_hook/func_template.cpp and hook.cpp; Interception/Annotations.antt those of user.h), which
--   call Hooks/ (lib/runtime/hooks.cpp), which call a method of struct Runtime. The derived runtime of
--   Runtime/ ends in the methods of BaseRuntime/ (lib/runtime/runtime.cpp), which call the C library.
--   Thread.antt is what these layers share: a thread with its errno and its space (Space.antt:
--   lib/common/space.cpp), the C library as the parameter CLib, and struct Runtime as a record of
--   methods, over which the hooks are stated. Runtime/Methods.antt lists the calls. The two Table.antt
--   put the hooks and the methods together by call.
-- - Program.antt: lib/runtime/helper.cpp, the start and the end of the program, its threads and the
--   loop of the idle thread, over the hooks.
-- - Log/: include/tern/logdefs.h, include/tern/syncfuncs.def.h and lib/runtime/record-log.cpp.
--   SyncFunc.antt is the table of operations, Records.antt the records of the binary log with setInsid,
--   numRecForInst and numArgsInRec, Bin.antt BinLogger, Txt.antt the lines of TxtLogger and TestLogger.
--   A log is the list of its records; the calls of Runtime/ do not write it (log_sync is off by default).
-- - The modules in a part's folder hold its proofs, under the name of what they prove: the calls
--   that pass the turn are in Scheduler/Turn/ (PutTurn, Wait, Block, Leaving, Rejoining, Rounds), the
--   threads that are woken in Scheduler/Waiting/ (Signal, Count, Rejoin, Selfcheck), and the laws of
--   one component in its Laws.antt.
-- - Base.antt: shared names, tests and lemmas. Tests.antt: concrete states, and each theorem at one.
--
-- How the code is written here: a failed assertion, exit(1) and a read of a null pointer are `none`.
-- The calling thread's id is an argument (`self`), and so is its pthread id (`th`). A call is cut
-- where its thread sleeps: a piece runs from one return of getTurn to the next sleep, and gives back
-- whom the turn went to. `unsigned` and `size_t` wrap around at 2 ^ 32 and 2 ^ 64; thread ids and
-- their count, which the array of 5000 elements bounds, are natural numbers. The hash maps are
-- functions; the order in which a hash set is visited is the parameter hash_order. The C library is
-- the parameter Libc: a state, and for each call the result and the next state. In the layers above
-- (CLib) a call also finds and leaves errno, and what other threads do meanwhile is part of what it
-- does to the world.
--
-- The plain options, which several results ask for, are those of default.options: neither
-- nondeterministic regions (enforce_non_det_annotations) nor their clock bound
-- (enforce_non_det_clock_bound) are enforced.
--
-- Loops: nextRunnable runs on fuel, which `next` sets to two more than the number of threads on the
-- two queues; each round but the last takes a thread off the queues for good. tryPutTurn and
-- selfcheck walk the run queue, on as many rounds as the queue has elements. The loop of
-- __recv runs on as much fuel as the buffer has bytes and pauses are allowed: each round but the last
-- takes a byte or a pause. The idle thread's loop, which another thread ends, takes any fuel. All other
-- loops are over lists.
--
-- What is not modelled: the log inside the calls of the runtime, the digits of its text, rdtsc
-- records, the timers, errno inside Runtime/, the build with DBUG, the checks under DEBUG_RUN_QUEUE;
-- spin locks and mutexes that guard single steps; setBaseTime, whose time is an argument of the timed
-- calls; the runtime over RecordSerializer; the reading of the options; the generator of the
-- interception and the search for the original functions.
pub mod Base
pub mod RunQueue
pub mod TidMap
pub mod NonDetThreadSet
pub mod Scheduler
pub mod Runtime
pub mod Space
pub mod Thread
pub mod BaseRuntime
pub mod Hooks
pub mod Interception
pub mod Program
pub mod Log
pub mod Tests
