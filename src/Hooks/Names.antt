-- ===== src/Hooks/Names.antt =====
-- The hooks of lib/runtime/hooks.cpp for names and texts.
use xtern.Base.{ℕ, ◌≡◌, refl}
use xtern.Runtime.Calls.{NameCall}
use xtern.Runtime.Methods.{name_call}
use xtern.Thread.{CLib, Runtime}
use xtern.Hooks.Crossing.{Hook, crossing, kept}

module _ (c : CLib) (rt : Runtime c) where
  pub gethostbyname : ℕ → ℕ → Hook c rt
  gethostbyname ins name = crossing c rt (λ w. w) (name_call (NameCall.gethostbyname name)) ins

  pub gethostbyname_r : ℕ → ℕ → ℕ → ℕ → ℕ → ℕ → ℕ → Hook c rt
  gethostbyname_r ins name ret buf buflen result h_errnop =
      crossing c rt (λ w. w)
        (name_call (NameCall.gethostbyname_r name ret buf buflen result h_errnop)) ins

  pub getaddrinfo : ℕ → ℕ → ℕ → ℕ → ℕ → Hook c rt
  getaddrinfo ins node service hints res =
      crossing c rt (λ w. w) (name_call (NameCall.getaddrinfo node service hints res)) ins

  pub freeaddrinfo : ℕ → ℕ → Hook c rt
  freeaddrinfo ins res = crossing c rt (λ w. w) (name_call (NameCall.freeaddrinfo res)) ins

  pub gethostbyaddr : ℕ → ℕ → ℕ → ℕ → Hook c rt
  gethostbyaddr ins addr len kind =
      crossing c rt (λ w. w) (name_call (NameCall.gethostbyaddr addr len kind)) ins

  pub inet_ntoa : ℕ → ℕ → Hook c rt
  inet_ntoa ins in_addr = crossing c rt (λ w. w) (name_call (NameCall.inet_ntoa in_addr)) ins

  pub strtok : ℕ → ℕ → ℕ → Hook c rt
  strtok ins str delimiters =
      crossing c rt (λ w. w) (name_call (NameCall.strtok str delimiters)) ins

  pub name_hook : NameCall → ℕ → Hook c rt
  name_hook (NameCall.gethostbyname name) ins = gethostbyname ins name
  name_hook (NameCall.gethostbyname_r name ret buf buflen result h_errnop) ins =
      gethostbyname_r ins name ret buf buflen result h_errnop
  name_hook (NameCall.getaddrinfo node service hints res) ins =
      getaddrinfo ins node service hints res
  name_hook (NameCall.freeaddrinfo res) ins = freeaddrinfo ins res
  name_hook (NameCall.gethostbyaddr addr len kind) ins = gethostbyaddr ins addr len kind
  name_hook (NameCall.inet_ntoa in_addr) ins = inet_ntoa ins in_addr
  name_hook (NameCall.strtok str delimiters) ins = strtok ins str delimiters

  pub name_hook-crossing :
      (k : NameCall) (ins : ℕ)
      → name_hook k ins ≡ crossing c rt (kept (name_call k)) ((name_call k)) ins
  unfolding name_hook gethostbyname gethostbyname_r getaddrinfo freeaddrinfo gethostbyaddr inet_ntoa
      strtok
  name_hook-crossing (NameCall.gethostbyname name) ins = refl
  name_hook-crossing _ ins = refl
