-- ===== src/Scheduler/Threads.antt =====
-- The start of the scheduler, of a thread and of a forked process (RRScheduler's constructor,
-- Scheduler::create, childForkReturn), and the idle thread's tryPutTurn and idleThreadCondWait, from
-- lib/runtime/record-scheduler.cpp and include/tern/runtime/scheduler.h.
pub mod Start
pub mod Quiet
use xtern.Base.{
  ℕ, zero, suc, Bool, true, false, not, Option, none, some, [], ◌∷◌, ◌++◌, ltb, ◌==◌, if◌then◌else◌,
  ◌>>=◌, ◌>>◌, require,
}
use xtern.RunQueue
use xtern.RunQueue.{
  RunQueue, RunqElem, ThdStatus, runnable, running_reg, running_inter_pro, inter_pro_stop, deref,
  max_thread_num,
}
use xtern.TidMap
use xtern.TidMap.{TidMap, main_thread_tid, idle_thread_tid}
use xtern.NonDetThreadSet.{empty_set}
use xtern.Scheduler.State.{Options, WaitT, Sched, at_wait, reset, post, null, forever}
use xtern.Scheduler.Turn.{Next, next, put_turn}

-- The wait record that `wait_t()` makes.
abbrev fresh_wait : WaitT
fresh_wait = record { sem = 0; chan = null; timeout = forever; status = 0; waken_up = false }

abbrev no_threads : RunQueue
no_threads = record { head = none; tail = none; num_elements = 0; tid_map = λ t. none }

-- The element of the main thread, made, queued and running.
pub start_main : RunQueue → Option RunQueue
start_main q = do
  q₁ ← RunQueue.create_thd_elem q main_thread_tid
  q₂ ← RunQueue.push_back q₁ main_thread_tid
  RunQueue.set_status q₂ main_thread_tid running_reg

-- The constructor, in the thread `main_th`.
pub init : Options → ℕ → Option Sched
init o main_th = do
  m ← TidMap.init main_th
  q ← start_main no_threads
  some (record {
    tids = m;
    runq = q;
    waitq = [];
    waits = at_wait (λ t. fresh_wait) main_thread_tid (post o fresh_wait);
    turn_count = 0;
    non_det_thds = empty_set;
    inter_pro_wakeup_tids = [];
    inter_pro_wakeup_flag = false;
    n_non_det_wait = 0;
    idle_done = false;
  })

-- `create(new_th)`, by the head of the queue: the new thread gets the next id and the last place.
pub create : ℕ → ℕ → Sched → Option Sched
create self new_th s = do
  front ← RunQueue.front s.runq
  require (self == front)
  (tid, m) ← TidMap.create s.tids new_th
  q ← RunQueue.create_thd_elem s.runq tid
  q' ← RunQueue.push_back q tid
  some (record s { tids = m; runq = q' })

-- The wait records after the loop of `childForkReturn` over the array.
abbrev pub reset_all : (ℕ → WaitT) → ℕ → WaitT
reset_all w t = if ltb t max_thread_num then reset 0 (w t) else w t

-- `childForkReturn()` in the child process. The set of threads under the bound on nondeterminism and
-- the threads that wait to be queued again are left as they were.
pub child_fork_return : ℕ → Sched → Option Sched
child_fork_return th s = do
  m ← TidMap.reset s.tids th
  q ← RunQueue.deep_clear s.runq
  q' ← start_main q
  some (record s { tids = m; waitq = []; runq = q'; waits = reset_all s.waits })

abbrev pub is_runnable : ThdStatus → Bool
is_runnable runnable = true
is_runnable _ = false

-- The loop of `tryPutTurn` from an iterator on. The rounds are bounded by the size of the queue.
pub scan_runnable : ℕ → Option ℕ → RunQueue → Option (Bool × RunQueue)
scan_runnable fuel none q = some (false, q)
scan_runnable zero (some t) q = none
scan_runnable (suc fuel) (some t) q = deref q (some t) >>= λ e. elim (is_runnable e.status) [
  | true ↦ RunQueue.set_status q t running_reg >>= λ q'. some (true, q')
  | false ↦ scan_runnable fuel e.next q
]

pub try_put_turn : ℕ → Sched → Option (Bool × Sched)
try_put_turn self s = do
  require (not (RunQueue.empty s.runq))
  e ← RunQueue.front_elem s.runq
  require (self == e.tid)
  (b, q) ← scan_runnable (RunQueue.size s.runq) e.next s.runq
  some (b, record s { runq = q })

-- `idleThreadCondWait()`, up to the wait on the condition variable.
pub idle_thread_cond_wait : Options → ℕ → ℕ → Sched → Option (Next × Sched)
idle_thread_cond_wait o self th s = do
  (b, s₁) ← try_put_turn self s
  if b
      then (require (self == idle_thread_tid) >> RunQueue.front s₁.runq >>= λ front.
          require (self == front)
          >> next o self false false (record s₁ {
            waits =
                at_wait s₁.waits self
                  (record (s₁.waits self) { chan = o.idle_cond; timeout = forever });
            waitq = s₁.waitq ++ self ∷ [];
          }))
      else put_turn o self th false s₁
