-- ===== src/Runtime/Sem.antt =====
-- Semaphores in lib/runtime/record-runtime.cpp.
use xtern.Base.{ℕ, ◌||◌, Option, none, some, ◌==◌, if◌then◌else◌, ◌>>=◌, ◌>>◌, require}
use xtern.Scheduler.State.{forever}
use xtern.Scheduler.Turn
use xtern.Scheduler.Turn.{Next}
use xtern.Runtime.Time.{Timespec, deadline_turn}
use xtern.Runtime.Locks.{Attempt, taken, sleeps, finish_lock}
use xtern.Runtime.State.{
  Libc, RtOptions, Rt, Seg, with_sched, libc, bypasses, non_det_call, minus_one, sched_timer_start,
  sched_timer_end, sync_wait, plain_call, release_call, sem_init, sem_wait, sem_trywait,
  sem_timedwait, sem_post,
}

module _ (c : Libc) (o : RtOptions) where
  -- The loop of semWait from its test to its next sleep.
  pub sem_attempt : ℕ → ℕ → ℕ → Rt c → Option (Attempt c)
  sem_attempt sem self timeout r =
      let (ret, r') = libc c (sem_trywait sem) r in
      if ret == 0
      then some (taken 0 r')
      else (require (c.errno_again r'.world) >> sync_wait c o self sem timeout r' >>= λ r''.
          some (sleeps r''))

  pub sem_wait_start : ℕ → ℕ → ℕ → Rt c → Option (Seg c)
  sem_wait_start sem self th r =
      if bypasses c o self r
      then some (non_det_call c o (sem_wait sem) r)
      else (sched_timer_start c o self r
          >>= sem_attempt sem self forever
          >>= finish_lock c o (λ ret. 0) self th)

  pub sem_wait_resume : ℕ → ℕ → ℕ → Rt c → Option (Seg c)
  sem_wait_resume sem self th r = do
    (status, s) ← Turn.wait_end o.sched self r.sched
    a ← sem_attempt sem self forever (with_sched c r s)
    finish_lock c o (λ ret. 0) self th a

  pub sem_try_wait : ℕ → ℕ → ℕ → Rt c → Option (Seg c)
  sem_try_wait sem self th r =
      if bypasses c o self r
      then some (non_det_call c o (sem_trywait sem) r)
      else (sched_timer_start c o self r >>= λ r₁.
          let (ret, r₂) = libc c (sem_trywait sem) r₁ in
          require ((ret == 0) || c.errno_again r₂.world) >> sched_timer_end c o self th ret r₂)

  pub sem_timed_wait : Option Timespec → Timespec → Timespec → ℕ → ℕ → ℕ → Rt c → Option (ℕ × Seg c)
  sem_timed_wait none base clock sem self th r =
      sem_wait_start sem self th r >>= λ seg. some (forever, seg)
  sem_timed_wait (some t) base clock sem self th r =
      if bypasses c o self r
      then some (forever, non_det_call c o (sem_timedwait sem) r)
      else (sched_timer_start c o self r >>= λ r₁.
          deadline_turn o base clock t r₁.sched >>= λ timeout.
          sem_attempt sem self timeout r₁ >>= finish_lock c o (λ ret. ret) self th >>= λ seg.
          some (timeout, seg))

  -- A timeout makes the call return -1.
  pub sem_timed_wait_resume : ℕ → ℕ → ℕ → ℕ → Rt c → Option (Seg c)
  sem_timed_wait_resume timeout sem self th r = do
    (status, s) ← Turn.wait_end o.sched self r.sched
    if status == o.sched.etimedout
        then sched_timer_end c o self th minus_one (with_sched c r s)
        else (sem_attempt sem self timeout (with_sched c r s)
            >>= finish_lock c o (λ ret. ret) self th)

  pub sem_post_call : ℕ → ℕ → ℕ → Rt c → Option (Seg c)
  sem_post_call sem = release_call c o (sem_post sem) (λ ret. ret == 0) sem

  pub sem_init_call : ℕ → ℕ → ℕ → ℕ → ℕ → Rt c → Option (Seg c)
  sem_init_call sem pshared value =
      plain_call c o (sem_init sem pshared value) (sem_init sem pshared value) (λ ret. ret == 0)
