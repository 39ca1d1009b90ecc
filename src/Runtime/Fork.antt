-- ===== src/Runtime/Fork.antt =====
-- fork and exec in lib/runtime/record-runtime.cpp. The logs and the semaphores of the hand-over of
-- thread ids are not modelled; the idle thread that a child starts is a call of `pthread_create` that
-- follows.
pub mod Laws
use xtern.Base.{
  ℕ, ◌^◌, Bool, not, ◌&&◌, Option, none, some, ltb, ◌==◌, if◌then◌else◌, ◌>>=◌, ◌>>◌, require,
}
use xtern.Scheduler.Threads
use xtern.Runtime.State.{
  Libc, RtOptions, Rt, Seg, with_sched, libc, sched_timer_start, sched_timer_end, fork, execv,
}

module _ (c : Libc) (o : RtOptions) where
  -- Behind the C library's fork, which has returned `ret`: the child, where it is 0, begins with a
  -- scheduler of its own; in the parent it is a process id, so positive as an `int`.
  pub after_fork : ℕ → ℕ → Rt c → Option (Rt c)
  after_fork th ret r =
      if ret == 0
      then (Threads.child_fork_return th r.sched >>= λ s. some (with_sched c r s))
      else (require (ltb ret (2 ^ 31)) >> some r)

  -- The thread that calls goes on as the child's main thread.
  abbrev pub forked_self : ℕ → ℕ → ℕ
  forked_self ret self = if ret == 0 then 0 else self

  pub fork_process : ℕ → ℕ → Rt c → Option (Seg c)
  fork_process self th r = sched_timer_start c o self r >>= λ r₁.
      let (ret, r₂) = libc c fork r₁ in
      after_fork th ret r₂ >>= sched_timer_end c o (forked_self ret self) th ret

  -- `execv` returns only where it fails, and then the assertion does.
  pub exec_process : ℕ → ℕ → ℕ → Rt c → Option (Seg c)
  exec_process path argv self r =
      sched_timer_start c o self r >>= λ r₁. let (ret, r₂) = libc c (execv path argv) r₁ in none
