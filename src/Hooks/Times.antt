-- ===== src/Hooks/Times.antt =====
-- The hooks of lib/runtime/hooks.cpp for sleeps, clocks and the name of a peer.
use xtern.Base.{ℕ, ◌≡◌, refl}
use xtern.Runtime.Calls.{DirectCall}
use xtern.Runtime.Methods.{SleepCall, direct_call, sleep_call}
use xtern.Runtime.Blocking.{as_int}
use xtern.Thread.{CLib, Runtime}
use xtern.Hooks.Crossing.{Hook, crossing, kept}

module _ (c : CLib) (rt : Runtime c) where
  pub getpeername : ℕ → ℕ → ℕ → ℕ → Hook c rt
  getpeername ins sockfd addr addrlen =
      crossing c rt (λ w. w) (direct_call (DirectCall.getpeername sockfd addr addrlen)) ins

  pub sched_yield : ℕ → Hook c rt
  sched_yield ins = crossing c rt (λ w. w) (sleep_call SleepCall.sched_yield) ins

  pub sleep : ℕ → ℕ → Hook c rt
  sleep ins seconds = crossing c rt (λ w. w) (sleep_call (SleepCall.sleep seconds)) ins

  pub usleep : ℕ → ℕ → Hook c rt
  usleep ins usec = crossing c rt (λ w. w) (sleep_call (SleepCall.usleep usec)) ins

  pub nanosleep : ℕ → ℕ → ℕ → Hook c rt
  nanosleep ins req rem = crossing c rt (λ w. w) (sleep_call (SleepCall.nanosleep req rem)) ins

  pub time : ℕ → ℕ → Hook c rt
  time ins t = crossing c rt as_int (direct_call (DirectCall.time t)) ins

  pub clock_getres : ℕ → ℕ → ℕ → Hook c rt
  clock_getres ins clk_id res =
      crossing c rt (λ w. w) (direct_call (DirectCall.clock_getres clk_id res)) ins

  pub clock_gettime : ℕ → ℕ → ℕ → Hook c rt
  clock_gettime ins clk_id tp =
      crossing c rt (λ w. w) (direct_call (DirectCall.clock_gettime clk_id tp)) ins

  pub clock_settime : ℕ → ℕ → ℕ → Hook c rt
  clock_settime ins clk_id tp =
      crossing c rt (λ w. w) (direct_call (DirectCall.clock_settime clk_id tp)) ins

  pub gettimeofday : ℕ → ℕ → ℕ → Hook c rt
  gettimeofday ins tv tz = crossing c rt (λ w. w) (direct_call (DirectCall.gettimeofday tv tz)) ins

  pub settimeofday : ℕ → ℕ → ℕ → Hook c rt
  settimeofday ins tv tz = crossing c rt (λ w. w) (direct_call (DirectCall.settimeofday tv tz)) ins

  pub sleep_hook : SleepCall → ℕ → Hook c rt
  sleep_hook SleepCall.sched_yield ins = sched_yield ins
  sleep_hook (SleepCall.sleep seconds) ins = sleep ins seconds
  sleep_hook (SleepCall.usleep usec) ins = usleep ins usec
  sleep_hook (SleepCall.nanosleep req rem) ins = nanosleep ins req rem

  pub direct_hook : DirectCall → ℕ → Hook c rt
  direct_hook (DirectCall.getpeername sockfd addr addrlen) ins = getpeername ins sockfd addr addrlen
  direct_hook (DirectCall.time t) ins = time ins t
  direct_hook (DirectCall.clock_getres clk_id res) ins = clock_getres ins clk_id res
  direct_hook (DirectCall.clock_gettime clk_id tp) ins = clock_gettime ins clk_id tp
  direct_hook (DirectCall.clock_settime clk_id tp) ins = clock_settime ins clk_id tp
  direct_hook (DirectCall.gettimeofday tv tz) ins = gettimeofday ins tv tz
  direct_hook (DirectCall.settimeofday tv tz) ins = settimeofday ins tv tz

  pub sleep_hook-crossing :
      (k : SleepCall) (ins : ℕ)
      → sleep_hook k ins ≡ crossing c rt (kept (sleep_call k)) ((sleep_call k)) ins
  unfolding sleep_hook sched_yield sleep usleep nanosleep
  sleep_hook-crossing SleepCall.sched_yield ins = refl
  sleep_hook-crossing _ ins = refl

  pub direct_hook-crossing :
      (k : DirectCall) (ins : ℕ)
      → direct_hook k ins ≡ crossing c rt (kept (direct_call k)) ((direct_call k)) ins
  unfolding direct_hook getpeername time clock_getres clock_gettime clock_settime gettimeofday
      settimeofday
  direct_hook-crossing (DirectCall.getpeername sockfd addr addrlen) ins = refl
  direct_hook-crossing _ ins = refl
