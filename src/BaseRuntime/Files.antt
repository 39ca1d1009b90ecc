-- ===== src/BaseRuntime/Files.antt =====
-- The methods of struct Runtime in lib/runtime/runtime.cpp for files and polling, in the build
-- without DBUG.
use xtern.Base.{ℕ, ◌≡◌, refl}
use xtern.Runtime.Calls.{FileCall, PollCall}
use xtern.Runtime.Methods
use xtern.Runtime.Methods.{CCall, file_call, poll_call}
use xtern.Thread.{CLib, Method}
use xtern.BaseRuntime.Errno.{with_errno}

module _ (c : CLib) where
  pub close : ℕ → Method c
  close fd = with_errno c (file_call (FileCall.close fd))

  pub read : ℕ → ℕ → ℕ → Method c
  read fd buf count = with_errno c (file_call (FileCall.read fd buf count))

  pub write : ℕ → ℕ → ℕ → Method c
  write fd buf count = with_errno c (file_call (FileCall.write fd buf count))

  pub pread : ℕ → ℕ → ℕ → ℕ → Method c
  pread fd buf count offset = with_errno c (file_call (FileCall.pread fd buf count offset))

  pub pwrite : ℕ → ℕ → ℕ → ℕ → Method c
  pwrite fd buf count offset = with_errno c (file_call (FileCall.pwrite fd buf count offset))

  pub select : ℕ → ℕ → ℕ → ℕ → ℕ → Method c
  select nfds readfds writefds exceptfds timeout =
      with_errno c (poll_call (PollCall.select nfds readfds writefds exceptfds timeout))

  pub poll : ℕ → ℕ → ℕ → Method c
  poll fds nfds timeout = with_errno c (poll_call (PollCall.poll fds nfds timeout))

  pub bind : ℕ → ℕ → ℕ → Method c
  bind socket address address_len =
      with_errno c (poll_call (PollCall.bind socket address address_len))

  pub sigwait : ℕ → ℕ → Method c
  sigwait set sig = with_errno c (poll_call (PollCall.sigwait set sig))

  pub epoll_wait : ℕ → ℕ → ℕ → ℕ → Method c
  epoll_wait epfd events maxevents timeout =
      with_errno c (poll_call (PollCall.epoll_wait epfd events maxevents timeout))

  pub epoll_create : ℕ → Method c
  epoll_create size = with_errno c (poll_call (PollCall.epoll_create size))

  pub epoll_ctl : ℕ → ℕ → ℕ → ℕ → Method c
  epoll_ctl epfd op fd event = with_errno c (poll_call (PollCall.epoll_ctl epfd op fd event))

  unfoldable pub fgets : ℕ → ℕ → ℕ → Method c
  fgets s size stream = with_errno c (Methods.fgets s size stream)

  pub file_method : FileCall → Method c
  file_method (FileCall.close fd) = close fd
  file_method (FileCall.read fd buf count) = read fd buf count
  file_method (FileCall.write fd buf count) = write fd buf count
  file_method (FileCall.pread fd buf count offset) = pread fd buf count offset
  file_method (FileCall.pwrite fd buf count offset) = pwrite fd buf count offset

  pub poll_method : PollCall → Method c
  poll_method (PollCall.epoll_wait epfd events maxevents timeout) =
      epoll_wait epfd events maxevents timeout
  poll_method (PollCall.epoll_create size) = epoll_create size
  poll_method (PollCall.epoll_ctl epfd op fd event) = epoll_ctl epfd op fd event
  poll_method (PollCall.select nfds readfds writefds exceptfds timeout) =
      select nfds readfds writefds exceptfds timeout
  poll_method (PollCall.poll fds nfds timeout) = poll fds nfds timeout
  poll_method (PollCall.bind sockfd addr addrlen) = bind sockfd addr addrlen
  poll_method (PollCall.sigwait set sig) = sigwait set sig

  pub file_method-with_errno : (k : FileCall) → file_method k ≡ with_errno c (file_call k)
  unfolding file_method close read write pread pwrite
  file_method-with_errno (FileCall.close fd) = refl
  file_method-with_errno _ = refl

  pub poll_method-with_errno : (k : PollCall) → poll_method k ≡ with_errno c (poll_call k)
  unfolding poll_method epoll_wait epoll_create epoll_ctl select poll bind sigwait
  poll_method-with_errno (PollCall.epoll_wait epfd events maxevents timeout) = refl
  poll_method-with_errno _ = refl
