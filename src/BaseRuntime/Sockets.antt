-- ===== src/BaseRuntime/Sockets.antt =====
-- The methods of struct Runtime in lib/runtime/runtime.cpp for sockets and descriptors, in the build
-- without DBUG.
use xtern.Base.{ℕ, ◌≡◌, refl}
use xtern.Runtime.Calls.{SetupCall, SocketCall}
use xtern.Runtime.Methods.{setup_call, socket_call}
use xtern.Thread.{CLib, Method}
use xtern.BaseRuntime.Errno.{with_errno}

module _ (c : CLib) where
  pub socket : ℕ → ℕ → ℕ → Method c
  socket domain kind protocol = with_errno c (setup_call (SetupCall.socket domain kind protocol))

  pub getsockopt : ℕ → ℕ → ℕ → ℕ → ℕ → Method c
  getsockopt sockfd level optname optval optlen =
      with_errno c (setup_call (SetupCall.getsockopt sockfd level optname optval optlen))

  pub setsockopt : ℕ → ℕ → ℕ → ℕ → ℕ → Method c
  setsockopt sockfd level optname optval optlen =
      with_errno c (setup_call (SetupCall.setsockopt sockfd level optname optval optlen))

  pub pipe : ℕ → Method c
  pipe pipefd = with_errno c (setup_call (SetupCall.pipe pipefd))

  pub fcntl : ℕ → ℕ → ℕ → Method c
  fcntl fd cmd arg = with_errno c (setup_call (SetupCall.fcntl fd cmd arg))

  pub listen : ℕ → ℕ → Method c
  listen sockfd backlog = with_errno c (setup_call (SetupCall.listen sockfd backlog))

  unfoldable pub accept4 : ℕ → ℕ → ℕ → ℕ → Method c
  accept4 sockfd cliaddr addrlen flags =
      with_errno c (socket_call (SocketCall.accept4 sockfd cliaddr addrlen flags))

  unfoldable pub send : ℕ → ℕ → ℕ → ℕ → Method c
  send sockfd buf len flags = with_errno c (socket_call (SocketCall.send sockfd buf len flags))

  unfoldable pub sendto : ℕ → ℕ → ℕ → ℕ → ℕ → ℕ → Method c
  sendto sockfd buf len flags dest_addr addrlen =
      with_errno c (socket_call (SocketCall.sendto sockfd buf len flags dest_addr addrlen))

  unfoldable pub sendmsg : ℕ → ℕ → ℕ → Method c
  sendmsg sockfd msg flags = with_errno c (socket_call (SocketCall.sendmsg sockfd msg flags))

  unfoldable pub recvfrom : ℕ → ℕ → ℕ → ℕ → ℕ → ℕ → Method c
  recvfrom sockfd buf len flags src_addr addrlen =
      with_errno c (socket_call (SocketCall.recvfrom sockfd buf len flags src_addr addrlen))

  unfoldable pub recvmsg : ℕ → ℕ → ℕ → Method c
  recvmsg sockfd msg flags = with_errno c (socket_call (SocketCall.recvmsg sockfd msg flags))

  pub shutdown : ℕ → ℕ → Method c
  shutdown sockfd how = with_errno c (setup_call (SetupCall.shutdown sockfd how))

  pub setup_method : SetupCall → Method c
  setup_method (SetupCall.socket domain kind protocol) = socket domain kind protocol
  setup_method (SetupCall.listen sockfd backlog) = listen sockfd backlog
  setup_method (SetupCall.shutdown sockfd how) = shutdown sockfd how
  setup_method (SetupCall.getsockopt sockfd level optname optval optlen) =
      getsockopt sockfd level optname optval optlen
  setup_method (SetupCall.setsockopt sockfd level optname optval optlen) =
      setsockopt sockfd level optname optval optlen
  setup_method (SetupCall.pipe pipefd) = pipe pipefd
  setup_method (SetupCall.fcntl fd cmd arg) = fcntl fd cmd arg

  pub setup_method-with_errno : (k : SetupCall) → setup_method k ≡ with_errno c (setup_call k)
  unfolding setup_method socket listen shutdown getsockopt setsockopt pipe fcntl
  setup_method-with_errno (SetupCall.socket domain kind protocol) = refl
  setup_method-with_errno _ = refl
