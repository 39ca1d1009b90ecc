-- ===== src/BaseRuntime/Table.antt =====
-- The methods of struct Runtime of include/tern/runtime/runtime.h as it is without a derived class:
-- those of lib/runtime/runtime.cpp, and the empty ones of the header. A pure virtual method is `none`.
pub mod Laws
use xtern.Base.{ℕ, Option, none, some, ◌>>=◌}
use xtern.Runtime.Calls.{SocketCall}
use xtern.Runtime.Methods
use xtern.Runtime.Methods.{
  CCall, Service, ThreadCall, MutexCall, SleepCall, thread_call, mutex_call, rwlock_call,
  sleep_call, task_call, socket_call, file_call, poll_call, process_call, setup_call, name_call,
  direct_call,
}
use xtern.Thread.{CLib, ProcOptions, Thread, Method, Runtime}
use xtern.BaseRuntime.Threads
use xtern.BaseRuntime.Locks
use xtern.BaseRuntime.Sockets
use xtern.BaseRuntime.Names
use xtern.BaseRuntime.Files
use xtern.BaseRuntime.Times
use xtern.BaseRuntime.Receiving

module _ (c : CLib) (o : ProcOptions) (ts : ℕ) where
  pub socket_method : SocketCall → Method c
  socket_method (SocketCall.accept sockfd cliaddr addrlen) =
      Receiving.accept c o sockfd cliaddr addrlen
  socket_method (SocketCall.connect sockfd serv_addr addrlen) =
      Receiving.connect c o sockfd serv_addr addrlen
  socket_method (SocketCall.recv sockfd buf len flags) = Receiving.recv c o ts sockfd buf len flags
  socket_method (SocketCall.accept4 sockfd cliaddr addrlen flags) =
      Sockets.accept4 c sockfd cliaddr addrlen flags
  socket_method (SocketCall.send sockfd buf len flags) = Sockets.send c sockfd buf len flags
  socket_method (SocketCall.sendto sockfd buf len flags dest_addr addrlen) =
      Sockets.sendto c sockfd buf len flags dest_addr addrlen
  socket_method (SocketCall.recvfrom sockfd buf len flags src_addr addrlen) =
      Sockets.recvfrom c sockfd buf len flags src_addr addrlen
  socket_method (SocketCall.sendmsg sockfd msg flags) = Sockets.sendmsg c sockfd msg flags
  socket_method (SocketCall.recvmsg sockfd msg flags) = Sockets.recvmsg c sockfd msg flags

  unfoldable pub method_of : CCall → Option (Method c)
  method_of (socket_call k) = some (socket_method k)
  method_of (setup_call k) = some (Sockets.setup_method c k)
  method_of (file_call k) = some (Files.file_method c k)
  method_of (poll_call k) = some (Files.poll_method c k)
  method_of (Methods.fgets s size stream) = some (Files.fgets c s size stream)
  method_of (name_call k) = some (Names.name_method c k)
  method_of (direct_call k) = some (Times.direct_method c k)
  method_of (process_call k) = some (Threads.process_method c k)
  method_of (task_call k) = some (Threads.task_method c k)
  method_of (rwlock_call k) = some (Locks.rwlock_method c k)
  method_of (thread_call (ThreadCall.cancel thread)) = some (Threads.pthread_cancel c thread)
  method_of (mutex_call (MutexCall.init mutex mutexattr)) =
      some (Locks.pthread_mutex_init c mutex mutexattr)
  method_of (mutex_call (MutexCall.destroy mutex)) = some (Locks.pthread_mutex_destroy c mutex)
  method_of (sleep_call (SleepCall.sleep seconds)) = some (Times.sleep c seconds)
  method_of (sleep_call (SleepCall.usleep usec)) = some (Times.usleep c usec)
  method_of (sleep_call (SleepCall.nanosleep req rem)) = some (Times.nanosleep c req rem)
  method_of _ = none

  pub base_serve : Service → Thread c → Option (Thread c)
  base_serve Service.prog_begin t = some t
  base_serve Service.prog_end t = some t
  base_serve Service.thread_begin t = some t
  base_serve (Service.thread_end ins) t = some t
  base_serve Service.idle_sleep t = some t
  base_serve Service.idle_cond_wait t = some t
  base_serve _ t = none

  pub base_runtime : Runtime c
  base_runtime = record {
    call = λ k ins error t. method_of k >>= λ m. m ins error t;
    serve = base_serve;
    symbolic = λ ins error addr nbytes name t. some (error, t);
  }
