-- ===== src/Log/SyncFunc.antt =====
-- The operations that the log knows, from the table include/tern/syncfuncs.def.h.

pub data SyncFunc : Type 0 where
  pthread_create pthread_join pthread_detach pthread_cancel pthread_exit : SyncFunc
  pthread_mutex_init pthread_mutex_lock pthread_mutex_unlock pthread_mutex_trylock : SyncFunc
  pthread_mutex_timedlock pthread_mutex_destroy pthread_rwlock_rdlock : SyncFunc
  pthread_rwlock_tryrdlock pthread_rwlock_trywrlock pthread_rwlock_wrlock : SyncFunc
  pthread_rwlock_unlock pthread_rwlock_destroy pthread_rwlock_init pthread_cond_wait : SyncFunc
  pthread_cond_timedwait pthread_cond_broadcast pthread_cond_signal pthread_barrier_init : SyncFunc
  pthread_barrier_wait pthread_barrier_destroy sem_init sem_post sem_wait sem_trywait : SyncFunc
  sem_timedwait socket listen accept accept4 connect gethostbyname gethostbyname_r : SyncFunc
  getaddrinfo freeaddrinfo gethostbyaddr inet_ntoa strtok send sendto sendmsg recv : SyncFunc
  recvfrom recvmsg shutdown getpeername getsockopt setsockopt pipe fcntl close read write : SyncFunc
  pread pwrite select poll bind kill fork execv sched_yield wait waitpid time clock_getres :
      SyncFunc
  clock_gettime clock_settime gettimeofday settimeofday sleep usleep nanosleep epoll_wait : SyncFunc
  epoll_create epoll_ctl sigwait fgets tern_symbolic tern_thread_begin tern_thread_end : SyncFunc
  tern_task_begin tern_task_end tern_lineup_init tern_lineup_destroy tern_lineup_start : SyncFunc
  tern_lineup_end tern_lineup tern_non_det_start tern_non_det_end tern_fix_up : SyncFunc
  tern_fix_down tern_idle : SyncFunc

pub data Kind : Type 0 where
  synchronization blocking_syscall tern_user tern_auto : Kind

-- The kind that the table gives.
pub kind : SyncFunc → Kind
kind accept = blocking_syscall
kind accept4 = blocking_syscall
kind connect = blocking_syscall
kind recv = blocking_syscall
kind recvfrom = blocking_syscall
kind recvmsg = blocking_syscall
kind pipe = blocking_syscall
kind read = blocking_syscall
kind pread = blocking_syscall
kind select = blocking_syscall
kind sleep = blocking_syscall
kind usleep = blocking_syscall
kind nanosleep = blocking_syscall
kind epoll_wait = blocking_syscall
kind sigwait = blocking_syscall
kind fgets = blocking_syscall
kind tern_symbolic = tern_user
kind tern_task_begin = tern_user
kind tern_task_end = tern_user
kind tern_lineup_init = tern_user
kind tern_lineup_destroy = tern_user
kind tern_lineup_start = tern_user
kind tern_lineup_end = tern_user
kind tern_lineup = tern_user
kind tern_non_det_start = tern_user
kind tern_non_det_end = tern_user
kind tern_thread_begin = tern_auto
kind tern_thread_end = tern_auto
kind tern_fix_up = tern_auto
kind tern_fix_down = tern_auto
kind tern_idle = tern_auto
kind _ = synchronization
