-- ===== src/BaseRuntime/Receiving/Laws.antt =====
-- What recv of lib/runtime/runtime.cpp returns.
use xtern.Base.{
  ℕ, zero, suc, ◌+◌, ◌-◌, ◌%◌, ◌^◌, ◌≤◌, ◌<◌, ◌≡◌, refl, ◌⊎◌, inl, inr, Bool, true, false, ◌&&◌,
  ◌||◌, some, ltb, ◌==◌, arith, Bool-cases,
}
use xtern.Runtime.Calls.{SocketCall}
use xtern.Runtime.Methods.{CCall, socket_call}
use xtern.Thread.{CLib, ProcOptions, Thread, libc}
use xtern.BaseRuntime.Errno.{with_errno}
use xtern.BaseRuntime.Receiving.{
  int_lt, is_negative, add_received, failed_size, max_tries, Receipt, receive, receive_loop, recv,
}

-- What the C library documents of recv: it returns -1, or at most as many bytes as it was asked for.
pub record Receives (c : CLib) : Type 0 where
  pub in_range :
      (fd buf len flags error : ℕ) (w : c.World)
      → ((c.call (socket_call (SocketCall.recv fd buf len flags)) error w).0 ≡ failed_size)
        ⊎ ((c.call (socket_call (SocketCall.recv fd buf len flags)) error w).0 ≤ len)

-- What a call of recv for the rest of the buffer makes of `ret`.
add_received_bounds :
    (ret len sr : ℕ)
    → len < 2 ^ 63
    → ret ≤ len
    → (sr ≡ failed_size) ⊎ (sr ≤ len - ret)
    → (add_received ret sr ≡ failed_size) ⊎ (add_received ret sr ≤ len)
unfolding add_received is_negative
add_received_bounds ret len sr small le (inl e) = elim (Bool-cases (ret == 0)) [
  | inl z ↦ inl (ground arith)
  | inr n ↦ inr (ground arith)
]
add_received_bounds ret len sr small le (inr h) = inr (ground arith)

add_received-eq :
    (ret len sr : ℕ)
    → len < 2 ^ 63
    → ret ≤ len
    → (sr ≡ failed_size) ⊎ (sr ≤ len - ret)
    → is_negative sr ≡ false
    → (add_received ret sr ≡ ret + sr) × (ret + sr ≤ len)
unfolding add_received is_negative
add_received-eq ret len sr small le (inl e) pos = absurd (ground arith)
add_received-eq ret len sr small le (inr h) pos = (ground arith, omega arith)

int_lt-lt : (a b : ℕ) → a ≤ b → int_lt a b ≡ true → a < b
unfolding int_lt
int_lt-lt a b le h = ground arith

-- The bytes that are missing and the tries that are left.
abbrev remaining : {c : CLib} → ℕ → Receipt c → ℕ
remaining len r = (len - r.ret) + (max_tries - r.try_count)

-- A receipt at the end: a failure of the first call, or as many bytes as came.
abbrev InRange : {c : CLib} → ℕ → Receipt c → Type 0
InRange len r = (r.ret ≡ failed_size) ⊎ (r.ret ≤ len)

module _ (c : CLib) (o : ProcOptions) (sane : Receives c) (ts sockfd buf len flags : ℕ)
    (small : len < 2 ^ 63) where
  abbrev asked : Receipt c → CCall
  asked r =
      socket_call
        (SocketCall.recv sockfd ((buf + r.ret) % 2 ^ 64) ((len + 2 ^ 64 - r.ret) % 2 ^ 64) flags)

  -- What a round's call of the C library returns.
  asked_range :
      (r : Receipt c)
      → r.ret ≤ len
      → ((libc c (asked r) r.thread).0 ≡ failed_size)
        ⊎ ((libc c (asked r) r.thread).0 ≤ len - r.ret)
  unfolding libc
  asked_range r le =
      elim (sane.in_range sockfd ((buf + r.ret) % 2 ^ 64) ((len + 2 ^ 64 - r.ret) % 2 ^ 64) flags
        r.thread.errno r.thread.world) [ inl e ↦ inl e | inr h ↦ inr (omega arith) ]

  -- A round that may be followed by another has made progress.
  receive-again :
      (r : Receipt c)
      → r.ret < len
      → r.try_count < max_tries
      → (receive c o ts sockfd buf len flags r).0 ≡ true
      → ((receive c o ts sockfd buf len flags r).1.ret ≤ len)
        × (remaining len (receive c o ts sockfd buf len flags r).1 < remaining len r)
  unfolding receive
  receive-again r lt tries again =
      let range = asked_range r (omega arith) in
      let sr : ℕ = (libc c (asked r) r.thread).0 in
      let eq = add_received-eq r.ret len sr small (omega arith) range in ground (arith, eq)

  receive-InRange :
      (r : Receipt c) → r.ret < len → InRange len (receive c o ts sockfd buf len flags r).1
  unfolding receive
  receive-InRange r lt =
      let range = asked_range r (omega arith) in
      let sr : ℕ = (libc c (asked r) r.thread).0 in
      let fin = add_received_bounds r.ret len sr small (omega arith) range in ground (arith)

  receive_loop_total :
      (fuel : ℕ) (r : Receipt c)
      → r.ret ≤ len
      → remaining len r < fuel
      → (r' : Receipt c) × (receive_loop c o fuel ts sockfd buf len flags r ≡ some r')
        × InRange len r'
  unfolding receive_loop
  receive_loop_total zero r le enough = absurd (omega arith)
  receive_loop_total (suc fuel) r le enough =
      elim (Bool-cases (int_lt r.ret len && ltb r.try_count max_tries)) [
        | inl on ↦ elim (Bool-cases (receive c o ts sockfd buf len flags r).0) [
          | inl again ↦
              let lt : r.ret < len = int_lt-lt r.ret len le (ground arith) in
              let (le', less) = receive-again r lt (ground arith) again in
              let (r', run, range) =
                receive_loop_total fuel (receive c o ts sockfd buf len flags r).1 le'
                  (omega arith) in
              (r', rw on (rw again run), range)
          | inr last ↦ (
            (receive c o ts sockfd buf len flags r).1,
            rw on (rw last refl),
            receive-InRange r (int_lt-lt r.ret len le (ground arith)),
          )
        ]
        | inr off ↦ (r, rw off refl, inr le)
      ]

  -- Under what the C library documents of recv, and for a length below 2 ^ 63: recv returns, with -1
  -- or with at most `len`, whatever the socket does, and with errno as it is in the end.
  pub recv_total :
      (ins error : ℕ) (t : Thread c)
      → (ret : ℕ) × (t' : Thread c) × (recv c o ts sockfd buf len flags ins error t
          ≡ some (ret, t'.errno, t'))
        × ((ret ≡ failed_size) ⊎ (ret ≤ len))
  unfolding recv
  recv_total ins error t =
      let start : Receipt c = record {
        ret = 0;
        try_count = 0;
        thread = record t { errno = error };
      } in
      let (r, run, range) =
        receive_loop_total (len + max_tries + 1) start (omega arith) (omega arith) in
      (r.ret, r.thread, rw run refl, range)

not_positive : (len : ℕ) → (len % 2 ^ 32 ≡ 0) ⊎ (2 ^ 31 ≤ len % 2 ^ 32) → int_lt 0 len ≡ false
unfolding int_lt
not_positive len (inl zero_bits) = ground arith
not_positive len (inr high) = ground arith

-- For a length of which the low 32 bits are 0 or a negative `int`, recv returns 0, as at the end of
-- the stream, and makes no call.
pub recv_nothing :
    (c : CLib) (o : ProcOptions) (ts sockfd buf len flags ins error : ℕ) (t : Thread c)
    → (len % 2 ^ 32 ≡ 0) ⊎ (2 ^ 31 ≤ len % 2 ^ 32)
    → recv c o ts sockfd buf len flags ins error t ≡ some (0, error, record t { errno = error })
unfolding recv receive_loop
recv_nothing c o ts sockfd buf len flags ins error t none_left =
    let e : len + max_tries + 1 ≡ suc (len + max_tries) = omega arith in
    rw e (rw (not_positive len none_left) refl)

-- Without non_block_recv, `ret` after the one call is what the call returned.
received_once :
    (len sr : ℕ) → len < 2 ^ 63 → (sr ≡ failed_size) ⊎ (sr ≤ len) → add_received 0 sr ≡ sr
unfolding add_received is_negative
received_once len sr small (inl e) = ground arith
received_once len sr small (inr h) = ground arith

or-true : (b : Bool) → (b || true) ≡ true
or-true true = refl
or-true false = refl

-- Without non_block_recv the first round is the last, and makes the call that recv was given.
receive-Blocking :
    (c : CLib) (o : ProcOptions) (ts sockfd buf len flags : ℕ) (t : Thread c)
    → Receives c
    → buf < 2 ^ 64
    → len < 2 ^ 63
    → o.non_block_recv ≡ false
    → receive c o ts sockfd buf len flags (record { ret = 0; try_count = 0; thread = t }) ≡ (
      false,
      record {
        ret = (libc c (socket_call (SocketCall.recv sockfd buf len flags)) t).0;
        try_count = 0;
        thread = (libc c (socket_call (SocketCall.recv sockfd buf len flags)) t).1;
      },
    )
unfolding receive libc
receive-Blocking c o ts sockfd buf len flags t sane fits small blocking =
    let at : (buf + 0) % 2 ^ 64 ≡ buf = omega arith in
    let all : (len + 2 ^ 64 - 0) % 2 ^ 64 ≡ len = omega arith in
    let k : CCall = socket_call (SocketCall.recv sockfd buf len flags) in
    let sr : ℕ = (c.call k t.errno t.world).0 in
    let once = received_once len sr small (sane.in_range sockfd buf len flags t.errno t.world) in
    simp (at, all, blocking, or-true, once)

-- Without non_block_recv, and with a length of which the low 32 bits are a positive `int`, recv is
-- the C library's call with errno handed over.
pub recv-Blocking :
    (c : CLib) (o : ProcOptions) (ts sockfd buf len flags ins error : ℕ) (t : Thread c)
    → Receives c
    → buf < 2 ^ 64
    → len < 2 ^ 63
    → o.non_block_recv ≡ false
    → int_lt 0 len ≡ true
    → recv c o ts sockfd buf len flags ins error t
      ≡ with_errno c (socket_call (SocketCall.recv sockfd buf len flags)) ins error t
unfolding recv receive_loop with_errno
recv-Blocking c o ts sockfd buf len flags ins error t sane fits small blocking some_left =
    let e : len + max_tries + 1 ≡ suc (len + max_tries) = omega arith in
    rw e (
      rw some_left (
        rw
          (receive-Blocking c o ts sockfd buf len flags (record t { errno = error }) sane fits small
            blocking)
          refl))
