-- ===== src/Runtime/Calls.antt =====
-- The calls on sockets, files, processes and names that lib/runtime/record-runtime.cpp puts between
-- BLOCK_TIMER_START and BLOCK_TIMER_END, by kind, with their arguments. An argument is its bit
-- pattern, a pointer its address.
use xtern.Base.{ℕ}

pub data SocketCall : Type 0 where
  accept connect : ℕ → ℕ → ℕ → SocketCall
  accept4 : ℕ → ℕ → ℕ → ℕ → SocketCall
  send recv : ℕ → ℕ → ℕ → ℕ → SocketCall
  sendto recvfrom : ℕ → ℕ → ℕ → ℕ → ℕ → ℕ → SocketCall
  sendmsg recvmsg : ℕ → ℕ → ℕ → SocketCall

-- The calls that look at what their descriptor is first.
pub data FileCall : Type 0 where
  read write : ℕ → ℕ → ℕ → FileCall
  pread pwrite : ℕ → ℕ → ℕ → ℕ → FileCall
  close : ℕ → FileCall

pub data PollCall : Type 0 where
  select : ℕ → ℕ → ℕ → ℕ → ℕ → PollCall
  epoll_wait epoll_ctl : ℕ → ℕ → ℕ → ℕ → PollCall
  epoll_create : ℕ → PollCall
  poll bind : ℕ → ℕ → ℕ → PollCall
  sigwait : ℕ → ℕ → PollCall

pub data ProcessCall : Type 0 where
  kill : ℕ → ℕ → ProcessCall
  wait : ℕ → ProcessCall
  waitpid : ℕ → ℕ → ℕ → ProcessCall
  pthread_detach : ℕ → ProcessCall

pub data SetupCall : Type 0 where
  socket : ℕ → ℕ → ℕ → SetupCall
  listen shutdown : ℕ → ℕ → SetupCall
  getsockopt setsockopt : ℕ → ℕ → ℕ → ℕ → ℕ → SetupCall
  pipe : ℕ → SetupCall
  fcntl : ℕ → ℕ → ℕ → SetupCall

pub data NameCall : Type 0 where
  gethostbyname freeaddrinfo inet_ntoa : ℕ → NameCall
  gethostbyname_r : ℕ → ℕ → ℕ → ℕ → ℕ → ℕ → NameCall
  getaddrinfo : ℕ → ℕ → ℕ → ℕ → NameCall
  gethostbyaddr : ℕ → ℕ → ℕ → NameCall
  strtok : ℕ → ℕ → NameCall

-- The calls that are handed on as they are, without a turn.
pub data DirectCall : Type 0 where
  getpeername : ℕ → ℕ → ℕ → DirectCall
  time : ℕ → DirectCall
  clock_getres clock_gettime clock_settime gettimeofday settimeofday : ℕ → ℕ → DirectCall
