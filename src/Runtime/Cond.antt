-- ===== src/Runtime/Cond.antt =====
-- Condition variables in lib/runtime/record-runtime.cpp. A wait releases the mutex and sleeps on the
-- condition variable without giving up the turn in between, then takes the mutex again.
pub mod Laws
use xtern.Base.{ℕ, Bool, true, false, Option, none, some, if◌then◌else◌, ◌>>=◌}
use xtern.Scheduler.State.{forever}
use xtern.Scheduler.Turn
use xtern.Scheduler.Turn.{Next}
use xtern.Runtime.Time.{Timespec, deadline_turn}
use xtern.Runtime.Locks.{lock_helper, lock_helper_resume, finish_lock}
use xtern.Runtime.State.{
  Libc, LibcCall, RtOptions, Rt, Seg, asleep, with_sched, libc, bypasses, non_det_call,
  sched_timer_start, sched_timer_end, sched_timer_fake_end, sync_wait, sync_signal, mutex_trylock,
  mutex_unlock, cond_wait, cond_timedwait, cond_signal, cond_broadcast,
}

module _ (c : Libc) (o : RtOptions) where
  -- Up to the sleep on the condition variable.
  unfoldable pub pthread_cond_wait : ℕ → ℕ → ℕ → ℕ → Rt c → Option (Seg c)
  pthread_cond_wait cv mu self th r =
      if bypasses c o self r
      then some (non_det_call c o (cond_wait cv mu) r)
      else (sched_timer_start c o self r >>= λ r₁.
          let (ret, r₂) = libc c (mutex_unlock mu) r₁ in
          sync_signal c o self mu false r₂
          >>= sched_timer_fake_end c o
          >>= sync_wait c o self cv forever
          >>= λ r₃. some (asleep r₃))

  -- Behind that sleep: the status of the wait, and the mutex again.
  pub cond_woken : (ℕ → ℕ) → ℕ → ℕ → ℕ → Rt c → Option (Seg c)
  cond_woken result mu self th r = do
    (status, s) ← Turn.wait_end o.sched self r.sched
    a ← lock_helper c o (mutex_trylock mu) mu self forever (with_sched c r s)
    finish_lock c o (λ ret. result status) self th a

  pub pthread_cond_wait_woken : ℕ → ℕ → ℕ → Rt c → Option (Seg c)
  pthread_cond_wait_woken mu = cond_woken (λ status. 0) mu

  -- Behind a sleep on the mutex.
  pub pthread_cond_wait_relock : ℕ → ℕ → ℕ → Rt c → Option (Seg c)
  pthread_cond_wait_relock mu self th r =
      lock_helper_resume c o (mutex_trylock mu) mu self forever r
      >>= finish_lock c o (λ ret. 0) self th

  pub pthread_cond_timed_wait :
      Option Timespec → Timespec → Timespec → ℕ → ℕ → ℕ → ℕ → Rt c → Option (Seg c)
  pthread_cond_timed_wait none base clock cv mu self th r = pthread_cond_wait cv mu self th r
  pthread_cond_timed_wait (some t) base clock cv mu self th r =
      if bypasses c o self r
      then some (non_det_call c o (cond_timedwait cv mu) r)
      else (sched_timer_start c o self r >>= λ r₁.
          let (ret, r₂) = libc c (mutex_unlock mu) r₁ in
          sched_timer_fake_end c o r₂ >>= λ r₃. sync_signal c o self mu false r₃ >>= λ r₄.
          deadline_turn o base clock t r₄.sched >>= λ timeout.
          sync_wait c o self cv timeout r₄ >>= λ r₅. some (asleep r₅))

  pub pthread_cond_timed_wait_woken : ℕ → ℕ → ℕ → Rt c → Option (Seg c)
  pthread_cond_timed_wait_woken mu = cond_woken (λ status. status) mu

  pub pthread_cond_timed_wait_relock : ℕ → ℕ → ℕ → ℕ → Rt c → Option (Seg c)
  pthread_cond_timed_wait_relock saved mu self th r =
      lock_helper_resume c o (mutex_trylock mu) mu self forever r
      >>= finish_lock c o (λ ret. saved) self th

  -- The wake-up of the first waiter, or of all.
  notify : LibcCall → Bool → ℕ → ℕ → ℕ → Rt c → Option (Seg c)
  notify direct all cv self th r =
      if bypasses c o self r
      then some (non_det_call c o direct r)
      else (sched_timer_start c o self r
          >>= sync_signal c o self cv all
          >>= sched_timer_end c o self th 0)

  pub pthread_cond_signal : ℕ → ℕ → ℕ → Rt c → Option (Seg c)
  unfolding notify
  pthread_cond_signal cv = notify (cond_signal cv) false cv

  pub pthread_cond_broadcast : ℕ → ℕ → ℕ → Rt c → Option (Seg c)
  unfolding notify
  pthread_cond_broadcast cv = notify (cond_broadcast cv) true cv
