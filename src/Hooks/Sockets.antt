-- ===== src/Hooks/Sockets.antt =====
-- The hooks of lib/runtime/hooks.cpp for sockets and descriptors.
use xtern.Base.{ℕ, ◌≡◌, refl}
use xtern.Runtime.Calls.{SetupCall, SocketCall}
use xtern.Runtime.Methods.{setup_call, socket_call}
use xtern.Runtime.Blocking.{as_int}
use xtern.Thread.{CLib, Runtime}
use xtern.Hooks.Crossing.{Hook, crossing, kept}

module _ (c : CLib) (rt : Runtime c) where
  pub socket : ℕ → ℕ → ℕ → ℕ → Hook c rt
  socket ins domain kind protocol =
      crossing c rt (λ w. w) (setup_call (SetupCall.socket domain kind protocol)) ins

  pub listen : ℕ → ℕ → ℕ → Hook c rt
  listen ins sockfd backlog =
      crossing c rt (λ w. w) (setup_call (SetupCall.listen sockfd backlog)) ins

  pub accept : ℕ → ℕ → ℕ → ℕ → Hook c rt
  accept ins sockfd cliaddr addrlen =
      crossing c rt (λ w. w) (socket_call (SocketCall.accept sockfd cliaddr addrlen)) ins

  pub accept4 : ℕ → ℕ → ℕ → ℕ → ℕ → Hook c rt
  accept4 ins sockfd cliaddr addrlen flags =
      crossing c rt (λ w. w) (socket_call (SocketCall.accept4 sockfd cliaddr addrlen flags)) ins

  pub connect : ℕ → ℕ → ℕ → ℕ → Hook c rt
  connect ins sockfd serv_addr addrlen =
      crossing c rt (λ w. w) (socket_call (SocketCall.connect sockfd serv_addr addrlen)) ins

  pub send : ℕ → ℕ → ℕ → ℕ → ℕ → Hook c rt
  send ins sockfd buf len flags =
      crossing c rt as_int (socket_call (SocketCall.send sockfd buf len flags)) ins

  pub sendto : ℕ → ℕ → ℕ → ℕ → ℕ → ℕ → ℕ → Hook c rt
  sendto ins sockfd buf len flags dest_addr addrlen =
      crossing c rt as_int (socket_call (SocketCall.sendto sockfd buf len flags dest_addr addrlen))
        ins

  pub sendmsg : ℕ → ℕ → ℕ → ℕ → Hook c rt
  sendmsg ins sockfd msg flags =
      crossing c rt as_int (socket_call (SocketCall.sendmsg sockfd msg flags)) ins

  pub recv : ℕ → ℕ → ℕ → ℕ → ℕ → Hook c rt
  recv ins sockfd buf len flags =
      crossing c rt as_int (socket_call (SocketCall.recv sockfd buf len flags)) ins

  pub recvfrom : ℕ → ℕ → ℕ → ℕ → ℕ → ℕ → ℕ → Hook c rt
  recvfrom ins sockfd buf len flags src_addr addrlen =
      crossing c rt as_int (socket_call (SocketCall.recvfrom sockfd buf len flags src_addr addrlen))
        ins

  pub recvmsg : ℕ → ℕ → ℕ → ℕ → Hook c rt
  recvmsg ins sockfd msg flags =
      crossing c rt as_int (socket_call (SocketCall.recvmsg sockfd msg flags)) ins

  pub shutdown : ℕ → ℕ → ℕ → Hook c rt
  shutdown ins sockfd how = crossing c rt (λ w. w) (setup_call (SetupCall.shutdown sockfd how)) ins

  pub getsockopt : ℕ → ℕ → ℕ → ℕ → ℕ → ℕ → Hook c rt
  getsockopt ins sockfd level optname optval optlen =
      crossing c rt (λ w. w) (setup_call (SetupCall.getsockopt sockfd level optname optval optlen))
        ins

  pub setsockopt : ℕ → ℕ → ℕ → ℕ → ℕ → ℕ → Hook c rt
  setsockopt ins sockfd level optname optval optlen =
      crossing c rt (λ w. w) (setup_call (SetupCall.setsockopt sockfd level optname optval optlen))
        ins

  pub pipe : ℕ → ℕ → Hook c rt
  pipe ins pipefd = crossing c rt (λ w. w) (setup_call (SetupCall.pipe pipefd)) ins

  pub fcntl : ℕ → ℕ → ℕ → ℕ → Hook c rt
  fcntl ins fd cmd arg = crossing c rt (λ w. w) (setup_call (SetupCall.fcntl fd cmd arg)) ins

  pub socket_hook : SocketCall → ℕ → Hook c rt
  socket_hook (SocketCall.accept sockfd cliaddr addrlen) ins = accept ins sockfd cliaddr addrlen
  socket_hook (SocketCall.accept4 sockfd cliaddr addrlen flags) ins =
      accept4 ins sockfd cliaddr addrlen flags
  socket_hook (SocketCall.connect sockfd serv_addr addrlen) ins =
      connect ins sockfd serv_addr addrlen
  socket_hook (SocketCall.send sockfd buf len flags) ins = send ins sockfd buf len flags
  socket_hook (SocketCall.sendto sockfd buf len flags dest_addr addrlen) ins =
      sendto ins sockfd buf len flags dest_addr addrlen
  socket_hook (SocketCall.sendmsg sockfd msg flags) ins = sendmsg ins sockfd msg flags
  socket_hook (SocketCall.recv sockfd buf len flags) ins = recv ins sockfd buf len flags
  socket_hook (SocketCall.recvfrom sockfd buf len flags src_addr addrlen) ins =
      recvfrom ins sockfd buf len flags src_addr addrlen
  socket_hook (SocketCall.recvmsg sockfd msg flags) ins = recvmsg ins sockfd msg flags

  pub setup_hook : SetupCall → ℕ → Hook c rt
  setup_hook (SetupCall.socket domain kind protocol) ins = socket ins domain kind protocol
  setup_hook (SetupCall.listen sockfd backlog) ins = listen ins sockfd backlog
  setup_hook (SetupCall.shutdown sockfd how) ins = shutdown ins sockfd how
  setup_hook (SetupCall.getsockopt sockfd level optname optval optlen) ins =
      getsockopt ins sockfd level optname optval optlen
  setup_hook (SetupCall.setsockopt sockfd level optname optval optlen) ins =
      setsockopt ins sockfd level optname optval optlen
  setup_hook (SetupCall.pipe pipefd) ins = pipe ins pipefd
  setup_hook (SetupCall.fcntl fd cmd arg) ins = fcntl ins fd cmd arg

  pub socket_hook-crossing :
      (k : SocketCall) (ins : ℕ)
      → socket_hook k ins ≡ crossing c rt (kept (socket_call k)) ((socket_call k)) ins
  unfolding socket_hook accept accept4 connect send sendto sendmsg recv recvfrom recvmsg
  socket_hook-crossing (SocketCall.accept sockfd cliaddr addrlen) ins = refl
  socket_hook-crossing _ ins = refl

  pub setup_hook-crossing :
      (k : SetupCall) (ins : ℕ)
      → setup_hook k ins ≡ crossing c rt (kept (setup_call k)) ((setup_call k)) ins
  unfolding setup_hook socket listen shutdown getsockopt setsockopt pipe fcntl
  setup_hook-crossing (SetupCall.socket domain kind protocol) ins = refl
  setup_hook-crossing _ ins = refl
