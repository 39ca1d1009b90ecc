-- ===== src/Hooks/Services.antt =====
-- The hooks of lib/runtime/hooks.cpp that begin and end the program and its threads, and those of
-- the annotations and the idle thread. A failed assertion is `none`.
use xtern.Base.{ℕ, ◌==◌, if◌then◌else◌, Option, none, some, require, ◌>>=◌, ◌>>◌}
use xtern.Space.{is_app, is_sys}
use xtern.Runtime.Methods.{Service}
use xtern.TidMap.{main_thread_tid}
use xtern.Thread.{CLib, Thread, Runtime, entered, left}
use xtern.Hooks.Crossing.{service, bare_service}

-- How pthread_exit leaves: by exit(0), or by the real pthread_exit, which ends the thread alone.
pub data Exit (A : Type 0) : Type 0 where
  exit_process : A → Exit A
  exit_thread : A → Exit A

module _ (c : CLib) (rt : Runtime c) where
  unfoldable pub prog_begin : Thread c → Option (Thread c)
  prog_begin t = do
    require (is_sys t.space)
    t₁ ← rt.serve Service.prog_begin t
    require (is_sys t₁.space)
    some t₁

  unfoldable pub prog_end : Thread c → Option (Thread c)
  prog_end t = do
    require (is_sys t.space)
    t₁ ← rt.serve Service.prog_end t
    require (is_sys t₁.space)
    some t₁

  -- It stays in the space that it is called in.
  pub symbolic_real : ℕ → ℕ → ℕ → ℕ → Thread c → Option (Thread c)
  symbolic_real ins addr nbytes name t = do
    (error, t₁) ← rt.symbolic ins t.errno addr nbytes name t
    some (record t₁ { errno = error })

  unfoldable pub thread_begin : Thread c → Option (Thread c)
  thread_begin t = do
    require (is_sys t.space)
    t₁ ← rt.serve Service.thread_begin t
    t₂ ← left c t₁
    require (is_app t₂.space)
    some (record t₂ { errno = t.errno })

  unfoldable pub thread_end : ℕ → Thread c → Option (Thread c)
  thread_end ins t = do
    require (is_app t.space)
    t₁ ← entered c t
    t₂ ← rt.serve (Service.thread_end ins) t₁
    require (is_sys t₂.space)
    some (record t₂ { errno = t.errno })

  pub lineup_init_real : ℕ → ℕ → ℕ → Thread c → Option (Thread c)
  lineup_init_real opaque_type count timeout_turns =
      service c rt (Service.lineup_init opaque_type count timeout_turns)

  pub lineup_destroy_real : ℕ → Thread c → Option (Thread c)
  lineup_destroy_real opaque_type = service c rt (Service.lineup_destroy opaque_type)

  pub lineup_start_real : ℕ → Thread c → Option (Thread c)
  lineup_start_real opaque_type = service c rt (Service.lineup_start opaque_type)

  pub lineup_end_real : ℕ → Thread c → Option (Thread c)
  lineup_end_real opaque_type = service c rt (Service.lineup_end opaque_type)

  pub non_det_start_real : Thread c → Option (Thread c)
  non_det_start_real = service c rt Service.non_det_start

  pub non_det_end_real : Thread c → Option (Thread c)
  non_det_end_real = service c rt Service.non_det_end

  pub detach_real : Thread c → Option (Thread c)
  detach_real = service c rt Service.thread_detach

  pub set_base_time_real : ℕ → Thread c → Option (Thread c)
  set_base_time_real ts = service c rt (Service.set_base_time ts)

  pub non_det_barrier_end_real : ℕ → ℕ → Thread c → Option (Thread c)
  non_det_barrier_end_real bar_id cnt = service c rt (Service.non_det_barrier_end bar_id cnt)

  -- The hook of exit(3) fails at once.
  pub exit : ℕ → ℕ → Thread c → Option (Thread c)
  exit ins status t = none

  -- `self` is `Scheduler::self()`.
  pub pthread_exit : ℕ → ℕ → Thread c → Option (Exit (Thread c))
  pthread_exit self ins t =
      if self == main_thread_tid
      then some (exit_process t)
      else (do t₁ ← thread_end ins t; require (is_sys t₁.space); some (exit_thread t₁))

  unfoldable pub idle_sleep : Thread c → Option (Thread c)
  idle_sleep = bare_service c rt Service.idle_sleep

  unfoldable pub idle_cond_wait : Thread c → Option (Thread c)
  idle_cond_wait = bare_service c rt Service.idle_cond_wait

  unfoldable pub print_runtime_stat : Thread c → Option (Thread c)
  print_runtime_stat = bare_service c rt Service.print_stat
