-- ===== src/Hooks/Files.antt =====
-- The hooks of lib/runtime/hooks.cpp for files and polling.
use xtern.Base.{ℕ, ◌≡◌, refl}
use xtern.Runtime.Calls.{FileCall, PollCall}
use xtern.Runtime.Methods
use xtern.Runtime.Methods.{CCall, file_call, poll_call}
use xtern.Runtime.Blocking.{as_int}
use xtern.Thread.{CLib, Runtime}
use xtern.Hooks.Crossing.{Hook, crossing, kept}

module _ (c : CLib) (rt : Runtime c) where
  pub sigwait : ℕ → ℕ → ℕ → Hook c rt
  sigwait ins set sig = crossing c rt (λ w. w) (poll_call (PollCall.sigwait set sig)) ins

  pub close : ℕ → ℕ → Hook c rt
  close ins fd = crossing c rt (λ w. w) (file_call (FileCall.close fd)) ins

  pub read : ℕ → ℕ → ℕ → ℕ → Hook c rt
  read ins fd buf count = crossing c rt as_int (file_call (FileCall.read fd buf count)) ins

  pub write : ℕ → ℕ → ℕ → ℕ → Hook c rt
  write ins fd buf count = crossing c rt as_int (file_call (FileCall.write fd buf count)) ins

  pub pread : ℕ → ℕ → ℕ → ℕ → ℕ → Hook c rt
  pread ins fd buf count offset =
      crossing c rt as_int (file_call (FileCall.pread fd buf count offset)) ins

  pub pwrite : ℕ → ℕ → ℕ → ℕ → ℕ → Hook c rt
  pwrite ins fd buf count offset =
      crossing c rt as_int (file_call (FileCall.pwrite fd buf count offset)) ins

  pub epoll_wait : ℕ → ℕ → ℕ → ℕ → ℕ → Hook c rt
  epoll_wait ins epfd events maxevents timeout =
      crossing c rt (λ w. w) (poll_call (PollCall.epoll_wait epfd events maxevents timeout)) ins

  pub epoll_create : ℕ → ℕ → Hook c rt
  epoll_create ins size = crossing c rt (λ w. w) (poll_call (PollCall.epoll_create size)) ins

  pub epoll_ctl : ℕ → ℕ → ℕ → ℕ → ℕ → Hook c rt
  epoll_ctl ins epfd op fd event =
      crossing c rt (λ w. w) (poll_call (PollCall.epoll_ctl epfd op fd event)) ins

  pub select : ℕ → ℕ → ℕ → ℕ → ℕ → ℕ → Hook c rt
  select ins nfds readfds writefds exceptfds timeout =
      crossing c rt (λ w. w) (poll_call (PollCall.select nfds readfds writefds exceptfds timeout))
        ins

  pub poll : ℕ → ℕ → ℕ → ℕ → Hook c rt
  poll ins fds nfds timeout =
      crossing c rt (λ w. w) (poll_call (PollCall.poll fds nfds timeout)) ins

  pub bind : ℕ → ℕ → ℕ → ℕ → Hook c rt
  bind ins sockfd addr addrlen =
      crossing c rt (λ w. w) (poll_call (PollCall.bind sockfd addr addrlen)) ins

  unfoldable pub fgets : ℕ → ℕ → ℕ → ℕ → Hook c rt
  fgets ins s size stream = crossing c rt (λ w. w) (Methods.fgets s size stream) ins

  pub file_hook : FileCall → ℕ → Hook c rt
  file_hook (FileCall.close fd) ins = close ins fd
  file_hook (FileCall.read fd buf count) ins = read ins fd buf count
  file_hook (FileCall.write fd buf count) ins = write ins fd buf count
  file_hook (FileCall.pread fd buf count offset) ins = pread ins fd buf count offset
  file_hook (FileCall.pwrite fd buf count offset) ins = pwrite ins fd buf count offset

  pub poll_hook : PollCall → ℕ → Hook c rt
  poll_hook (PollCall.epoll_wait epfd events maxevents timeout) ins =
      epoll_wait ins epfd events maxevents timeout
  poll_hook (PollCall.epoll_create size) ins = epoll_create ins size
  poll_hook (PollCall.epoll_ctl epfd op fd event) ins = epoll_ctl ins epfd op fd event
  poll_hook (PollCall.select nfds readfds writefds exceptfds timeout) ins =
      select ins nfds readfds writefds exceptfds timeout
  poll_hook (PollCall.poll fds nfds timeout) ins = poll ins fds nfds timeout
  poll_hook (PollCall.bind sockfd addr addrlen) ins = bind ins sockfd addr addrlen
  poll_hook (PollCall.sigwait set sig) ins = sigwait ins set sig

  pub file_hook-crossing :
      (k : FileCall) (ins : ℕ)
      → file_hook k ins ≡ crossing c rt (kept (file_call k)) ((file_call k)) ins
  unfolding file_hook close read write pread pwrite
  file_hook-crossing (FileCall.close fd) ins = refl
  file_hook-crossing _ ins = refl

  pub poll_hook-crossing :
      (k : PollCall) (ins : ℕ)
      → poll_hook k ins ≡ crossing c rt (kept (poll_call k)) ((poll_call k)) ins
  unfolding poll_hook epoll_wait epoll_create epoll_ctl select poll bind sigwait
  poll_hook-crossing (PollCall.epoll_wait epfd events maxevents timeout) ins = refl
  poll_hook-crossing _ ins = refl
