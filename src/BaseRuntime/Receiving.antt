-- ===== src/BaseRuntime/Receiving.antt =====
-- The methods of struct Runtime in lib/runtime/runtime.cpp that look at the option non_block_recv:
-- accept, connect and recv. The build has its assertions, and is without DBUG.
pub mod Laws
use xtern.Base.{
  ℕ, zero, suc, ◌+◌, ◌-◌, ◌%◌, ◌^◌, Bool, true, false, not, ◌&&◌, ◌||◌, Option, none, some, ltb,
  ◌==◌, if◌then◌else◌, require, ◌>>=◌, ◌>>◌,
}
use xtern.Runtime.Calls.{SocketCall, SetupCall}
use xtern.Runtime.Methods
use xtern.Runtime.Methods.{CCall, SleepCall, socket_call, setup_call, sleep_call}
use xtern.Scheduler.State.{null}
use xtern.Thread.{CLib, ProcOptions, Thread, Method, libc}

-- `(int) a < (int) b`.
unfoldable pub int_lt : ℕ → ℕ → Bool
int_lt a b = ltb ((a + 2 ^ 31) % 2 ^ 32) ((b + 2 ^ 31) % 2 ^ 32)

-- -1 as a `ssize_t`, and whether a `ssize_t` is negative.
abbrev pub failed_size : ℕ
failed_size = 2 ^ 64 - 1

pub is_negative : ℕ → Bool
is_negative w = not (ltb w (2 ^ 63))

-- The tries of recv at an empty socket.
abbrev pub max_tries : ℕ
max_tries = 10

-- `ret` after a call that returned `sr`.
pub add_received : ℕ → ℕ → ℕ
add_received ret sr =
    if is_negative sr then (if ret == 0 then failed_size else ret) else (ret + sr) % 2 ^ 64

module _ (c : CLib) where
  -- What recv has so far: `ret`, `try_count` and the thread.
  pub record Receipt : Type 0 where
    pub ret : ℕ
    pub try_count : ℕ
    pub thread : Thread c

module _ (c : CLib) (o : ProcOptions) where
  -- `assert(sock_nonblock(fd))`, under the option.
  unfoldable pub set_nonblock : ℕ → Thread c → Option (Thread c)
  set_nonblock fd t =
      if o.non_block_recv
      then (let (ret, t') = libc c (setup_call (SetupCall.fcntl fd c.f_setfl c.o_nonblock)) t in
          do require (ltb ret (2 ^ 31)); some t')
      else some t

  -- The end of accept and connect.
  unfoldable pub then_nonblock : CCall → ℕ → Method c
  then_nonblock k fd ins error t =
      let (ret, t') = libc c k (record t { errno = error }) in
      do t'' ← set_nonblock fd t'; some (ret, t''.errno, t'')

  unfoldable pub accept : ℕ → ℕ → ℕ → Method c
  accept sockfd cliaddr addrlen =
      then_nonblock (socket_call (SocketCall.accept sockfd cliaddr addrlen)) sockfd

  unfoldable pub connect : ℕ → ℕ → ℕ → Method c
  connect sockfd serv_addr addrlen =
      then_nonblock (socket_call (SocketCall.connect sockfd serv_addr addrlen)) sockfd

  -- A round of the loop, and whether another may follow. `ts` is the address of the pause.
  pub receive : ℕ → ℕ → ℕ → ℕ → ℕ → Receipt c → Bool × Receipt c
  receive ts sockfd buf len flags r =
      let k : CCall =
        socket_call (
          SocketCall.recv sockfd ((buf + r.ret) % 2 ^ 64) ((len + 2 ^ 64 - r.ret) % 2 ^ 64)
            flags) in
      let (sr, t) = libc c k r.thread in
      let ret : ℕ = add_received r.ret sr in
      if is_negative sr || not o.non_block_recv
      then (false, record r { ret = ret; thread = t })
      else if sr == 0
      then (
        true,
        record {
          ret = ret;
          try_count = r.try_count + 1;
          thread = (libc c (sleep_call (SleepCall.nanosleep ts null)) t).1;
        },
      )
      else (true, record r { ret = ret; thread = t })

  -- The loop on fuel; `none` means that the fuel ran out.
  pub receive_loop : ℕ → ℕ → ℕ → ℕ → ℕ → ℕ → Receipt c → Option (Receipt c)
  receive_loop zero ts sockfd buf len flags r = none
  receive_loop (suc fuel) ts sockfd buf len flags r =
      let (again, r') = receive ts sockfd buf len flags r in
      let rest : Option (Receipt c) = receive_loop fuel ts sockfd buf len flags r' in
      let on : Option (Receipt c) = if again then rest else some r' in
      if int_lt r.ret len && ltb r.try_count max_tries then on else some r

  pub recv : ℕ → ℕ → ℕ → ℕ → ℕ → Method c
  recv ts sockfd buf len flags ins error t = do
    r ←
        receive_loop (len + max_tries + 1) ts sockfd buf len flags
          (record { ret = 0; try_count = 0; thread = record t { errno = error } })
    some (r.ret, r.thread.errno, r.thread)
