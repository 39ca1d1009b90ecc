-- ===== src/Runtime/Sleep.antt =====
-- Sleeping, yielding and the calls of lib/runtime/record-runtime.cpp that only take a turn. A sleep
-- is a wait on no channel, for the turns that stand for its time.
pub mod Laws
use xtern.Base.{ℕ, ◌+◌, ◌*◌, ◌%◌, ◌^◌, Bool, true, false, Option, none, some, if◌then◌else◌, ◌>>=◌}
use xtern.Scheduler.State.{Sched, null, unsigned_mod}
use xtern.Scheduler.Waiting
use xtern.Scheduler.Turn
use xtern.Scheduler.Turn.{Next}
use xtern.Runtime.Time.{Timespec, rel_time_to_turn, word}
use xtern.Runtime.State.{
  Libc, LibcCall, RtOptions, Rt, Seg, returned, asleep, with_sched, libc, bypasses,
  sched_timer_start, sched_timer_end, sleep, usleep, nanosleep, sched_yield,
}

-- The time of a sleep in seconds, and in microseconds: `1000*usec` is computed in 32 bits.
abbrev pub seconds_time : ℕ → Timespec
seconds_time seconds = record { tv_sec = seconds; tv_nsec = 0 }

abbrev pub usec_time : ℕ → Timespec
usec_time usec = record { tv_sec = 0; tv_nsec = (1000 * usec) % 2 ^ 32 }

-- `absTimeToTurn`.
abbrev pub abs_time_to_turn : Sched → ℕ
abs_time_to_turn s = (Waiting.get_turn_count s + 30) % unsigned_mod

module _ (c : Libc) (o : RtOptions) where
  -- A sleep for a time up to the point where its thread sleeps. The timeout is computed with the
  -- turn held.
  pub sleep_begin : Option Timespec → ℕ → Rt c → Option (Seg c)
  sleep_begin time self r = do
    r₁ ← sched_timer_start c o self r
    n ← rel_time_to_turn o r₁.sched time
    (next, s) ←
        Turn.wait_begin o.sched self null ((Waiting.get_turn_count r₁.sched + n) % unsigned_mod)
          r₁.sched
    some (asleep (with_sched c r₁ s))

  -- The end of a sleep: with `exec_sleep` the C library sleeps too.
  pub sleep_end : LibcCall → ℕ → ℕ → Rt c → Option (Seg c)
  sleep_end k self th r = do
    (status, s) ← Turn.wait_end o.sched self r.sched
    ended ← sched_timer_end c o self th 0 (with_sched c r s)
    some (if o.exec_sleep then slept ended else ended)
    where
      slept : Seg c → Seg c
      slept (returned ret r') = returned ret (libc c k r').1
      slept (asleep r') = asleep r'

  -- __sleep, __usleep and __nanosleep, in the build without DBUG.
  pub sleep_start : ℕ → ℕ → Rt c → Option (Seg c)
  sleep_start seconds = sleep_begin (some (seconds_time seconds))

  pub sleep_resume : ℕ → ℕ → ℕ → Rt c → Option (Seg c)
  sleep_resume seconds = sleep_end (sleep seconds)

  pub usleep_start : ℕ → ℕ → Rt c → Option (Seg c)
  usleep_start usec = sleep_begin (some (usec_time usec))

  pub usleep_resume : ℕ → ℕ → ℕ → Rt c → Option (Seg c)
  usleep_resume usec = sleep_end (usleep usec)

  -- The request is at the address `req`, and `time` is what it holds, if the pointer is not null.
  pub nanosleep_start : Option Timespec → ℕ → Rt c → Option (Seg c)
  nanosleep_start time = sleep_begin time

  pub nanosleep_resume : ℕ → ℕ → ℕ → ℕ → Rt c → Option (Seg c)
  nanosleep_resume req rem = sleep_end (nanosleep req rem)

  -- `schedYield`.
  pub yield_turn : ℕ → ℕ → Rt c → Option (Seg c)
  yield_turn self th r =
      if bypasses c o self r
      then some (returned (libc c sched_yield r).0 (libc c sched_yield r).1)
      else (sched_timer_start c o self r >>= λ r₁.
          let (ret, r₂) = libc c sched_yield r₁ in sched_timer_end c o self th ret r₂)

  -- `symbolic`, which takes a turn and does nothing.
  pub symbolic : ℕ → ℕ → Rt c → Option (Seg c)
  symbolic self th r = sched_timer_start c o self r >>= sched_timer_end c o self th 0

  -- `printStat`, without its output.
  pub print_stat : ℕ → ℕ → Rt c → Option (Next × Rt c)
  print_stat self th r = do
    s ← Turn.get_turn o.sched self r.sched
    (turn, s₁) ← Waiting.inc_turn_count o.sched s
    (n, s₂) ← Turn.put_turn o.sched self th false s₁
    some (n, with_sched c r s₂)
