-- ===== src/BaseRuntime/Table/Laws.antt =====
-- The methods of lib/runtime/runtime.cpp, one and all: each is its function of the C library, with
-- errno handed over.
use xtern.Base.{ℕ, ◌≡◌, refl, ◌^◌, ◌<◌, Bool, true, false, is_some, if◌then◌else◌, ap}
use xtern.Runtime.Calls.{SocketCall}
use xtern.Runtime.Methods
use xtern.Runtime.Methods.{
  CCall, ThreadCall, MutexCall, SleepCall, thread_call, mutex_call, rwlock_call, cond_call,
  barrier_call, sem_call, sleep_call, task_call, socket_call, file_call, poll_call, process_call,
  setup_call, name_call, direct_call,
}
use xtern.Thread.{CLib, ProcOptions, Thread, Method}
use xtern.BaseRuntime.Errno.{with_errno, late_errno}
use xtern.BaseRuntime.Threads.{process_method-with_errno, task_method-with_errno, pthread_cancel}
use xtern.BaseRuntime.Locks.{rwlock_method-late_errno, pthread_mutex_init, pthread_mutex_destroy}
use xtern.BaseRuntime.Sockets.{
  setup_method-with_errno, accept4, send, sendto, sendmsg, recvfrom, recvmsg,
}
use xtern.BaseRuntime.Names.{name_method-with_errno}
use xtern.BaseRuntime.Files.{file_method-with_errno, poll_method-with_errno, fgets}
use xtern.BaseRuntime.Times.{direct_method-with_errno, sleep, usleep, nanosleep}
use xtern.BaseRuntime.Receiving.{int_lt, set_nonblock, then_nonblock, accept, connect}
use xtern.BaseRuntime.Receiving.Laws.{Receives, recv-Blocking}
use xtern.BaseRuntime.Table.{socket_method, method_of, base_runtime}

abbrev pub is_rwlock : CCall → Bool
is_rwlock (rwlock_call k) = true
is_rwlock _ = false

-- Where recv makes one call: the buffer lies in memory, and the low 32 bits of its length are a
-- positive `int`.
abbrev pub FitsInt : CCall → Type 0
FitsInt (socket_call (SocketCall.recv sockfd buf len flags)) =
    (buf < 2 ^ 64) × (len < 2 ^ 63) × (int_lt 0 len ≡ true)
FitsInt _ = Unit {0}

-- How errno is handed over: by the read-write locks too late.
abbrev pub handed : (c : CLib) → CCall → Method c
handed c k = if is_rwlock k then late_errno c k else with_errno c k

module _ (c : CLib) (o : ProcOptions) (ts : ℕ) (blocking : o.non_block_recv ≡ false)
    (sane : Receives c) where
  then_nonblock-with_errno :
      (k : CCall) (fd ins error : ℕ) (t : Thread c)
      → then_nonblock c o k fd ins error t ≡ with_errno c k ins error t
  unfolding then_nonblock set_nonblock with_errno
  then_nonblock-with_errno k fd ins error t = simp (blocking)

  socket_method-with_errno :
      (k : SocketCall) (ins error : ℕ) (t : Thread c)
      → FitsInt (socket_call k)
      → socket_method c o ts k ins error t ≡ with_errno c (socket_call k) ins error t
  unfolding socket_method accept connect accept4 send sendto sendmsg recvfrom recvmsg
  socket_method-with_errno (SocketCall.accept a b d) ins error t fits =
      then_nonblock-with_errno (socket_call (SocketCall.accept a b d)) a ins error t
  socket_method-with_errno (SocketCall.connect a b d) ins error t fits =
      then_nonblock-with_errno (socket_call (SocketCall.connect a b d)) a ins error t
  socket_method-with_errno (SocketCall.recv a b d e) ins error t fits =
      recv-Blocking c o ts a b d e ins error t sane fits.0 fits.1 blocking fits.2
  socket_method-with_errno _ ins error t fits = refl

  -- For every function that the base runtime has a method for.
  pub base_call-handed :
      (k : CCall) (ins error : ℕ) (t : Thread c)
      → FitsInt k
      → is_some (method_of c o ts k) ≡ true
      → (base_runtime c o ts).call k ins error t ≡ handed c k ins error t
  unfolding base_runtime method_of fgets pthread_cancel pthread_mutex_init pthread_mutex_destroy
      sleep usleep nanosleep
  base_call-handed (socket_call k) ins error t fits h = socket_method-with_errno k ins error t fits
  base_call-handed (setup_call k) ins error t fits h =
      ap (λ m. m ins error t) (setup_method-with_errno c k)
  base_call-handed (file_call k) ins error t fits h =
      ap (λ m. m ins error t) (file_method-with_errno c k)
  base_call-handed (poll_call k) ins error t fits h =
      ap (λ m. m ins error t) (poll_method-with_errno c k)
  base_call-handed (name_call k) ins error t fits h =
      ap (λ m. m ins error t) (name_method-with_errno c k)
  base_call-handed (direct_call k) ins error t fits h =
      ap (λ m. m ins error t) (direct_method-with_errno c k)
  base_call-handed (process_call k) ins error t fits h =
      ap (λ m. m ins error t) (process_method-with_errno c k)
  base_call-handed (task_call k) ins error t fits h =
      ap (λ m. m ins error t) (task_method-with_errno c k)
  base_call-handed (rwlock_call k) ins error t fits h =
      ap (λ m. m ins error t) (rwlock_method-late_errno c k)
  base_call-handed (Methods.fgets s size stream) ins error t fits h = refl
  base_call-handed (thread_call (ThreadCall.cancel th)) ins error t fits h = refl
  base_call-handed (mutex_call (MutexCall.init mutex attr)) ins error t fits h = refl
  base_call-handed (mutex_call (MutexCall.destroy mutex)) ins error t fits h = refl
  base_call-handed (sleep_call (SleepCall.sleep n)) ins error t fits h = refl
  base_call-handed (sleep_call (SleepCall.usleep n)) ins error t fits h = refl
  base_call-handed (sleep_call (SleepCall.nanosleep a b)) ins error t fits h = refl
  base_call-handed _ ins error t fits h = cc
