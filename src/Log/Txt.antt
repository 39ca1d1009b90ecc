-- ===== src/Log/Txt.antt =====
-- The text log of lib/runtime/record-log.cpp, TxtLogger::logSync: which line an operation gets. The
-- digits of the line are not modelled.
use xtern.Base.{
  ℕ, Bool, true, false, Option, none, some, List, ◌==◌, if◌then◌else◌, ◌>>=◌, take_args,
}
use xtern.Runtime.Time.{Timespec}
use xtern.Log.Records.{num_records_for_sync}
use xtern.Log.SyncFunc.{SyncFunc}
use xtern.Log.SyncFunc.{
  accept4, recv, recvfrom, recvmsg, select, poll, bind, listen, getsockopt, setsockopt, pipe, fcntl,
  shutdown, gethostbyname, gethostbyname_r, getaddrinfo, freeaddrinfo, gethostbyaddr, inet_ntoa,
  strtok, epoll_wait, epoll_create, epoll_ctl, sigwait, fgets, kill, fork, execv, sched_yield, wait,
  waitpid, tern_idle, tern_non_det_start, tern_non_det_end, pthread_mutex_init,
  pthread_mutex_destroy, pthread_mutex_lock, pthread_mutex_unlock, pthread_barrier_wait,
  pthread_barrier_destroy, pthread_cond_signal, pthread_cond_broadcast, sem_wait, sem_init,
  sem_post, pthread_join, pthread_detach, sleep, usleep, nanosleep, pthread_rwlock_rdlock,
  pthread_rwlock_wrlock, tern_lineup_start, tern_lineup_end, tern_lineup_destroy,
  pthread_mutex_timedlock, pthread_cond_wait, pthread_barrier_init, pthread_create,
  pthread_mutex_trylock, sem_trywait, sem_timedwait, pthread_rwlock_tryrdlock,
  pthread_rwlock_trywrlock, pthread_rwlock_unlock, pthread_cond_timedwait, read, pread, accept,
  write, pwrite, tern_lineup_init, connect, tern_thread_begin, tern_thread_end,
}

pub data Suffix : Type 0 where
  no_suffix first second : Suffix

pub record Line : Type 0 where
  pub name : SyncFunc
  pub suffix : Suffix
  pub insid : ℕ
  pub turn : ℕ
  pub time1 : Timespec
  pub time2 : Timespec
  pub sched_time : Timespec
  pub tid : ℕ
  pub args : List ℕ

-- The number of arguments that the switch reads; `none` is its default, an assertion that fails.
pub args_read : SyncFunc → Option ℕ
args_read accept4 = some 0
args_read recv = some 0
args_read recvfrom = some 0
args_read recvmsg = some 0
args_read select = some 0
args_read poll = some 0
args_read bind = some 0
args_read listen = some 0
args_read getsockopt = some 0
args_read setsockopt = some 0
args_read pipe = some 0
args_read fcntl = some 0
args_read shutdown = some 0
args_read gethostbyname = some 0
args_read gethostbyname_r = some 0
args_read getaddrinfo = some 0
args_read freeaddrinfo = some 0
args_read gethostbyaddr = some 0
args_read inet_ntoa = some 0
args_read strtok = some 0
args_read epoll_wait = some 0
args_read epoll_create = some 0
args_read epoll_ctl = some 0
args_read sigwait = some 0
args_read fgets = some 0
args_read kill = some 0
args_read fork = some 0
args_read execv = some 0
args_read sched_yield = some 0
args_read wait = some 0
args_read waitpid = some 0
args_read tern_idle = some 0
args_read tern_non_det_start = some 0
args_read tern_non_det_end = some 0
args_read pthread_mutex_init = some 1
args_read pthread_mutex_destroy = some 1
args_read pthread_mutex_lock = some 1
args_read pthread_mutex_unlock = some 1
args_read pthread_barrier_wait = some 1
args_read pthread_barrier_destroy = some 1
args_read pthread_cond_signal = some 1
args_read pthread_cond_broadcast = some 1
args_read sem_wait = some 1
args_read sem_init = some 1
args_read sem_post = some 1
args_read pthread_join = some 1
args_read pthread_detach = some 1
args_read sleep = some 1
args_read usleep = some 1
args_read nanosleep = some 1
args_read pthread_rwlock_rdlock = some 1
args_read pthread_rwlock_wrlock = some 1
args_read tern_lineup_start = some 1
args_read tern_lineup_end = some 1
args_read tern_lineup_destroy = some 1
args_read pthread_mutex_timedlock = some 2
args_read pthread_cond_wait = some 2
args_read pthread_barrier_init = some 2
args_read pthread_create = some 2
args_read pthread_mutex_trylock = some 2
args_read sem_trywait = some 2
args_read sem_timedwait = some 2
args_read pthread_rwlock_tryrdlock = some 2
args_read pthread_rwlock_trywrlock = some 2
args_read pthread_rwlock_unlock = some 2
args_read pthread_cond_timedwait = some 3
args_read read = some 3
args_read pread = some 3
args_read accept = some 3
args_read write = some 3
args_read pwrite = some 3
args_read tern_lineup_init = some 3
args_read connect = some 4
args_read _ = none

pub is_thread_mark : SyncFunc → Bool
is_thread_mark tern_thread_begin = true
is_thread_mark tern_thread_end = true
is_thread_mark _ = false

pub suffix_of : SyncFunc → Bool → Suffix
suffix_of sync after =
    if num_records_for_sync sync == 2 then (if after then second else first) else no_suffix

-- The arguments are a list of those passed; `none` also where more are read than are passed.
pub txt_log_sync :
    ℕ → ℕ → SyncFunc → ℕ → Timespec → Timespec → Timespec → Bool → List ℕ → Option Line
txt_log_sync tid insid sync turn time1 time2 sched_time after args = do
  n ← (if is_thread_mark sync then some 1 else args_read sync)
  (shown, rest) ← take_args n args
  some (record {
    name = sync;
    suffix = (if is_thread_mark sync then no_suffix else suffix_of sync after);
    insid = insid;
    turn = turn;
    time1 = time1;
    time2 = time2;
    sched_time = sched_time;
    tid = tid;
    args = shown;
  })

abbrev no_time : Timespec
no_time = record { tv_sec = 0; tv_nsec = 0 }

-- TestLogger::logSync, whose lines are the same in each deterministic run.
pub test_log_sync :
    ℕ → ℕ → SyncFunc → ℕ → Timespec → Timespec → Timespec → Bool → List ℕ → Option Line
test_log_sync tid insid sync turn time1 time2 sched_time after args =
    txt_log_sync tid 0 sync turn no_time no_time no_time after args
