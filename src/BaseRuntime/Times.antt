-- ===== src/BaseRuntime/Times.antt =====
-- The methods of struct Runtime in lib/runtime/runtime.cpp for sleeps, clocks and the name of a peer, in the build
-- without DBUG.
use xtern.Base.{ℕ, ◌≡◌, refl}
use xtern.Runtime.Calls.{DirectCall}
use xtern.Runtime.Methods.{SleepCall, direct_call, sleep_call}
use xtern.Thread.{CLib, Method}
use xtern.BaseRuntime.Errno.{with_errno}

module _ (c : CLib) where
  pub getpeername : ℕ → ℕ → ℕ → Method c
  getpeername sockfd addr addrlen =
      with_errno c (direct_call (DirectCall.getpeername sockfd addr addrlen))

  unfoldable pub sleep : ℕ → Method c
  sleep seconds = with_errno c (sleep_call (SleepCall.sleep seconds))

  unfoldable pub usleep : ℕ → Method c
  usleep usec = with_errno c (sleep_call (SleepCall.usleep usec))

  pub sched_yield : Method c
  sched_yield = with_errno c (sleep_call SleepCall.sched_yield)

  unfoldable pub nanosleep : ℕ → ℕ → Method c
  nanosleep req rem = with_errno c (sleep_call (SleepCall.nanosleep req rem))

  pub time : ℕ → Method c
  time t = with_errno c (direct_call (DirectCall.time t))

  pub clock_getres : ℕ → ℕ → Method c
  clock_getres clk_id res = with_errno c (direct_call (DirectCall.clock_getres clk_id res))

  pub clock_gettime : ℕ → ℕ → Method c
  clock_gettime clk_id tp = with_errno c (direct_call (DirectCall.clock_gettime clk_id tp))

  pub clock_settime : ℕ → ℕ → Method c
  clock_settime clk_id tp = with_errno c (direct_call (DirectCall.clock_settime clk_id tp))

  pub gettimeofday : ℕ → ℕ → Method c
  gettimeofday tv tz = with_errno c (direct_call (DirectCall.gettimeofday tv tz))

  pub settimeofday : ℕ → ℕ → Method c
  settimeofday tv tz = with_errno c (direct_call (DirectCall.settimeofday tv tz))

  pub direct_method : DirectCall → Method c
  direct_method (DirectCall.getpeername sockfd addr addrlen) = getpeername sockfd addr addrlen
  direct_method (DirectCall.time t) = time t
  direct_method (DirectCall.clock_getres clk_id res) = clock_getres clk_id res
  direct_method (DirectCall.clock_gettime clk_id tp) = clock_gettime clk_id tp
  direct_method (DirectCall.clock_settime clk_id tp) = clock_settime clk_id tp
  direct_method (DirectCall.gettimeofday tv tz) = gettimeofday tv tz
  direct_method (DirectCall.settimeofday tv tz) = settimeofday tv tz

  pub direct_method-with_errno : (k : DirectCall) → direct_method k ≡ with_errno c (direct_call k)
  unfolding direct_method getpeername time clock_getres clock_gettime clock_settime gettimeofday
      settimeofday
  direct_method-with_errno (DirectCall.getpeername sockfd addr addrlen) = refl
  direct_method-with_errno _ = refl
