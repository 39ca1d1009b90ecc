-- ===== src/BaseRuntime/Names.antt =====
-- The methods of struct Runtime in lib/runtime/runtime.cpp for names and texts, in the build
-- without DBUG.
use xtern.Base.{ℕ, ◌≡◌, refl}
use xtern.Runtime.Calls.{NameCall}
use xtern.Runtime.Methods.{name_call}
use xtern.Thread.{CLib, Method}
use xtern.BaseRuntime.Errno.{with_errno}

module _ (c : CLib) where
  pub gethostbyname : ℕ → Method c
  gethostbyname name = with_errno c (name_call (NameCall.gethostbyname name))

  pub gethostbyname_r : ℕ → ℕ → ℕ → ℕ → ℕ → ℕ → Method c
  gethostbyname_r name ret buf buflen result h_errnop =
      with_errno c (name_call (NameCall.gethostbyname_r name ret buf buflen result h_errnop))

  pub getaddrinfo : ℕ → ℕ → ℕ → ℕ → Method c
  getaddrinfo node service hints res =
      with_errno c (name_call (NameCall.getaddrinfo node service hints res))

  pub freeaddrinfo : ℕ → Method c
  freeaddrinfo res = with_errno c (name_call (NameCall.freeaddrinfo res))

  pub gethostbyaddr : ℕ → ℕ → ℕ → Method c
  gethostbyaddr addr len kind = with_errno c (name_call (NameCall.gethostbyaddr addr len kind))

  pub inet_ntoa : ℕ → Method c
  inet_ntoa in_addr = with_errno c (name_call (NameCall.inet_ntoa in_addr))

  pub strtok : ℕ → ℕ → Method c
  strtok str delimiters = with_errno c (name_call (NameCall.strtok str delimiters))

  pub name_method : NameCall → Method c
  name_method (NameCall.gethostbyname name) = gethostbyname name
  name_method (NameCall.gethostbyname_r name ret buf buflen result h_errnop) =
      gethostbyname_r name ret buf buflen result h_errnop
  name_method (NameCall.getaddrinfo node service hints res) = getaddrinfo node service hints res
  name_method (NameCall.freeaddrinfo res) = freeaddrinfo res
  name_method (NameCall.gethostbyaddr addr len kind) = gethostbyaddr addr len kind
  name_method (NameCall.inet_ntoa in_addr) = inet_ntoa in_addr
  name_method (NameCall.strtok str delimiters) = strtok str delimiters

  pub name_method-with_errno : (k : NameCall) → name_method k ≡ with_errno c (name_call k)
  unfolding name_method gethostbyname gethostbyname_r getaddrinfo freeaddrinfo gethostbyaddr
      inet_ntoa strtok
  name_method-with_errno (NameCall.gethostbyname name) = refl
  name_method-with_errno _ = refl
