-- ===== src/Runtime/Blocking.antt =====
-- The calls of lib/runtime/record-runtime.cpp that may block outside the process: sockets, files,
-- polling, processes and names. Each is the C library's call between BLOCK_TIMER_START and
-- BLOCK_TIMER_END. What they read for the log (ports) is not modelled; the statistics that `close`
-- prints are output.
pub mod Laws
use xtern.Base.{
  ℕ, ◌+◌, ◌-◌, ◌%◌, ◌^◌, Bool, true, false, not, ◌&&◌, Option, none, some, ltb, ◌==◌, if◌then◌else◌,
  ◌>>=◌,
}
use xtern.Runtime.Calls.{
  SocketCall, FileCall, PollCall, ProcessCall, SetupCall, NameCall, DirectCall, send, sendto,
  sendmsg, read, write, pread, pwrite, close,
}
use xtern.Runtime.State.{
  Libc, LibcCall, RtOptions, Rt, Seg, returned, libc, socket_call, file_call, fgets, poll_call,
  process_call, setup_call, name_call, direct_call,
}
use xtern.Runtime.Regions.{block_timer_start, block_timer_end}

-- The `int` that __send, __sendto and __sendmsg keep the C library's ssize_t in, and return as a
-- ssize_t again.
unfoldable pub as_int : ℕ → ℕ
as_int w = if ltb (w % 2 ^ 32) (2 ^ 31) then w % 2 ^ 32 else w % 2 ^ 32 + (2 ^ 64 - 2 ^ 32)

pub kept_result : SocketCall → ℕ → ℕ
kept_result (send a b d e) w = as_int w
kept_result (sendto a b d e f g) w = as_int w
kept_result (sendmsg a b d) w = as_int w
kept_result _ w = w

-- The descriptor that a call on a file looks at.
abbrev pub descriptor : FileCall → ℕ
descriptor (read fd a b) = fd
descriptor (write fd a b) = fd
descriptor (pread fd a b d) = fd
descriptor (pwrite fd a b d) = fd
descriptor (close fd) = fd

module _ (c : Libc) (o : RtOptions) where
  -- How a call begins: it has returned; or its thread is at the head of the run queue and waits for
  -- the turn to leave it (`block_self`); or its thread is stopped where it stands in the queue. The
  -- last two go on with the C library's call.
  pub data Started : Type 0 where
    finished : ℕ → Rt c → Started
    at_head : Rt c → Started
    stopped_inside : Rt c → Started

  -- BLOCK_TIMER_START of a call.
  pub blocking_start : LibcCall → ℕ → Rt c → Option Started
  blocking_start k self r = do
    (entry, r') ← block_timer_start c o self r
    some (elim entry [
      | none ↦ finished (libc c k r').0 (libc c k r').1
      | some b ↦ if b then at_head r' else stopped_inside r'
    ])

  -- The C library's call and BLOCK_TIMER_END.
  pub blocking_finish : (ℕ → ℕ) → LibcCall → ℕ → Rt c → Option (Seg c)
  blocking_finish kept k self r =
      let (ret, r') = libc c k r in
      do r'' ← block_timer_end c o self r'; some (returned (kept ret) r'')

  -- `regularFile(fd)`: neither a socket nor a pipe.
  pub regular_file : ℕ → Rt c → Bool
  regular_file fd r =
      not (c.s_ifsock == c.file_type r.world fd) && not (c.s_ififo == c.file_type r.world fd)

  -- A call on a file: at once on a regular file, if the options say so.
  pub start_unless_regular : LibcCall → ℕ → ℕ → Rt c → Option Started
  start_unless_regular k fd self r =
      if o.rr_ignore_rw_regular_file && regular_file fd r
      then some (finished (libc c k r).0 (libc c k r).1)
      else blocking_start k self r

  -- __accept, __accept4, __connect, __send, __sendto, __sendmsg, __recv, __recvfrom and __recvmsg.
  pub socket_start : SocketCall → ℕ → Rt c → Option Started
  socket_start k = blocking_start (socket_call k)

  pub socket_finish : SocketCall → ℕ → Rt c → Option (Seg c)
  socket_finish k = blocking_finish (kept_result k) (socket_call k)

  -- __read, __write, __pread, __pwrite and __close.
  pub file_start : FileCall → ℕ → Rt c → Option Started
  file_start k = start_unless_regular (file_call k) (descriptor k)

  pub file_finish : FileCall → ℕ → Rt c → Option (Seg c)
  file_finish k = blocking_finish (λ w. w) (file_call k)

  pub fgets_start : ℕ → ℕ → ℕ → ℕ → Rt c → Option Started
  fgets_start s size stream = start_unless_regular (fgets s size stream) (c.fileno stream)

  pub fgets_finish : ℕ → ℕ → ℕ → ℕ → Rt c → Option (Seg c)
  fgets_finish s size stream = blocking_finish (λ w. w) (fgets s size stream)

  -- __select, __epoll_wait, __epoll_create, __epoll_ctl, __poll, __bind and __sigwait.
  pub poll_start : PollCall → ℕ → Rt c → Option Started
  poll_start k = blocking_start (poll_call k)

  pub poll_finish : PollCall → ℕ → Rt c → Option (Seg c)
  poll_finish k = blocking_finish (λ w. w) (poll_call k)

  -- __kill, __wait, __waitpid and __pthread_detach.
  pub process_start : ProcessCall → ℕ → Rt c → Option Started
  process_start k = blocking_start (process_call k)

  pub process_finish : ProcessCall → ℕ → Rt c → Option (Seg c)
  process_finish k = blocking_finish (λ w. w) (process_call k)

  -- __socket, __listen, __shutdown, __getsockopt, __setsockopt, __pipe and __fcntl.
  pub setup_start : SetupCall → ℕ → Rt c → Option Started
  setup_start k = blocking_start (setup_call k)

  pub setup_finish : SetupCall → ℕ → Rt c → Option (Seg c)
  setup_finish k = blocking_finish (λ w. w) (setup_call k)

  -- __gethostbyname, __gethostbyname_r, __getaddrinfo, __freeaddrinfo, __gethostbyaddr, __inet_ntoa
  -- and __strtok.
  pub name_start : NameCall → ℕ → Rt c → Option Started
  name_start k = blocking_start (name_call k)

  pub name_finish : NameCall → ℕ → Rt c → Option (Seg c)
  name_finish k = blocking_finish (λ w. w) (name_call k)

  -- __getpeername, and the clocks: __time, __clock_getres, __clock_gettime, __clock_settime,
  -- __gettimeofday and __settimeofday.
  pub forward : DirectCall → Rt c → Seg c
  forward k r = let (ret, r') = libc c (direct_call k) r in returned ret r'
