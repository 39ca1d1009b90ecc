-- ===== src/Hooks/Crossing.antt =====
-- What every function of lib/runtime/hooks.cpp does round its method: it keeps errno, goes into the
-- runtime's space, calls the method, goes back and sets errno to what the method left in `error`.
use xtern.Base.{ℕ, Bool, true, false, ◌&&◌, ◌==◌, if◌then◌else◌, Option, some, ◌>>=◌}
use xtern.Runtime.Blocking.{as_int}
use xtern.Runtime.Calls.{SocketCall, FileCall, DirectCall}
use xtern.Runtime.Methods.{
  CCall, Service, MutexCall, BarrierCall, socket_call, file_call, direct_call,
}
use xtern.Scheduler.State.{null}
use xtern.Thread.{ProcOptions, CLib, Thread, Runtime, entered, left}

-- Whether a call returns a `ssize_t` or a `time_t`, of which the hook's variable, an `int` or a
-- `pid_t`, keeps the low 32 bits.
abbrev pub is_wide : CCall → Bool
is_wide (socket_call (SocketCall.accept a b d)) = false
is_wide (socket_call (SocketCall.accept4 a b d e)) = false
is_wide (socket_call (SocketCall.connect a b d)) = false
is_wide (socket_call _) = true
is_wide (file_call (FileCall.close fd)) = false
is_wide (file_call _) = true
is_wide (direct_call (DirectCall.time t)) = true
is_wide _ = false

-- What the caller of a hook gets of the method's result.
abbrev pub kept : CCall → ℕ → ℕ
kept k = if is_wide k then as_int else λ w. w

-- The call that the hook of a barrier makes: the attributes are not handed on.
abbrev pub without_attr : BarrierCall → BarrierCall
without_attr (BarrierCall.init barrier attr count) = BarrierCall.init barrier null count
without_attr k = k

-- The call that the hook of a mutex makes: with no attributes given, those of an error-checking
-- mutex, at the address `errorcheck`, if the options say so.
abbrev pub checked : ProcOptions → ℕ → MutexCall → MutexCall
checked o errorcheck (MutexCall.init mutex attr) =
    MutexCall.init mutex (if o.set_mutex_errorcheck && attr == null then errorcheck else attr)
checked o errorcheck k = k

module _ (c : CLib) (rt : Runtime c) where
  -- A hook: `none` where an assertion fails.
  abbrev pub Hook : Type 0
  Hook = Thread c → Option (ℕ × Thread c)

  -- `kept` is what the variable `ret` keeps of the method's result.
  unfoldable pub crossing : (ℕ → ℕ) → CCall → ℕ → Hook
  crossing kept k ins t = do
    t₁ ← entered c t
    (ret, error, t₂) ← rt.call k ins t.errno t₁
    t₃ ← left c t₂
    some (kept ret, record t₃ { errno = error })

  -- A hook of a method that returns nothing and is given no errno.
  unfoldable pub service : Service → Thread c → Option (Thread c)
  service m t = do
    t₁ ← entered c t
    t₂ ← rt.serve m t₁
    t₃ ← left c t₂
    some (record t₃ { errno = t.errno })

  -- The hooks that do not keep errno.
  unfoldable pub bare_service : Service → Thread c → Option (Thread c)
  bare_service m t = do t₁ ← entered c t; t₂ ← rt.serve m t₁; left c t₂
