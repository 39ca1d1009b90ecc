-- ===== src/Runtime/Methods.antt =====
-- The functions that the program's calls are turned into: those of the C library that struct Runtime
-- of include/tern/runtime/runtime.h has a method for, with their arguments, and the methods that have
-- no such function.
use xtern.Base.{ℕ}
use xtern.Runtime.Calls.{
  SocketCall, FileCall, PollCall, ProcessCall, SetupCall, NameCall, DirectCall,
}

pub data ThreadCall : Type 0 where
  create : ℕ → ℕ → ℕ → ℕ → ThreadCall
  join : ℕ → ℕ → ThreadCall
  cancel : ℕ → ThreadCall

pub data MutexCall : Type 0 where
  init timed_lock : ℕ → ℕ → MutexCall
  destroy lock try_lock unlock : ℕ → MutexCall

pub data RwlockCall : Type 0 where
  rdlock tryrdlock wrlock trywrlock unlock destroy : ℕ → RwlockCall
  init : ℕ → ℕ → RwlockCall

pub data CondCall : Type 0 where
  wait : ℕ → ℕ → CondCall
  timed_wait : ℕ → ℕ → ℕ → CondCall
  signal broadcast : ℕ → CondCall

pub data BarrierCall : Type 0 where
  init : ℕ → ℕ → ℕ → BarrierCall
  wait destroy : ℕ → BarrierCall

pub data SemCall : Type 0 where
  init : ℕ → ℕ → ℕ → SemCall
  wait try_wait post : ℕ → SemCall
  timed_wait : ℕ → ℕ → SemCall

pub data SleepCall : Type 0 where
  sched_yield : SleepCall
  sleep usleep : ℕ → SleepCall
  nanosleep : ℕ → ℕ → SleepCall

pub data TaskCall : Type 0 where
  fork : TaskCall
  execv : ℕ → ℕ → TaskCall

pub data CCall : Type 0 where
  thread_call : ThreadCall → CCall
  mutex_call : MutexCall → CCall
  rwlock_call : RwlockCall → CCall
  cond_call : CondCall → CCall
  barrier_call : BarrierCall → CCall
  sem_call : SemCall → CCall
  sleep_call : SleepCall → CCall
  task_call : TaskCall → CCall
  socket_call : SocketCall → CCall
  file_call : FileCall → CCall
  fgets : ℕ → ℕ → ℕ → CCall
  poll_call : PollCall → CCall
  process_call : ProcessCall → CCall
  setup_call : SetupCall → CCall
  name_call : NameCall → CCall
  direct_call : DirectCall → CCall

-- The methods that return nothing and have no argument for errno.
pub data Service : Type 0 where
  prog_begin prog_end thread_begin idle_sleep idle_cond_wait print_stat : Service
  thread_end : ℕ → Service
  lineup_init : ℕ → ℕ → ℕ → Service
  lineup_destroy lineup_start lineup_end : ℕ → Service
  non_det_start non_det_end thread_detach : Service
  set_base_time : ℕ → Service
  non_det_barrier_end : ℕ → ℕ → Service
