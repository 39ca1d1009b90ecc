-- ===== src/Runtime/Locks.antt =====
-- Mutexes and read-write locks in lib/runtime/record-runtime.cpp. A lock call tries the lock with
-- the turn, and sleeps on its address while it is held.
pub mod Laws
use xtern.Base.{ℕ, Bool, true, ◌||◌, Option, none, some, ◌==◌, if◌then◌else◌, ◌>>=◌, ◌>>◌, require}
use xtern.Scheduler.State.{forever}
use xtern.Scheduler.Turn
use xtern.Runtime.Time.{Timespec, deadline_turn}
use xtern.Runtime.State.{
  Libc, LibcCall, RtOptions, Rt, Seg, asleep, with_sched, libc, bypasses, non_det_call,
  sched_timer_start, sched_timer_end, sync_wait, plain_call, release_call, mutex_init,
  mutex_destroy, mutex_trylock, mutex_lock, mutex_timedlock, mutex_unlock, rwlock_init,
  rwlock_destroy, rwlock_rdlock, rwlock_wrlock, rwlock_tryrdlock, rwlock_trywrlock, rwlock_unlock,
}

-- One round of a lock helper: the lock is taken, or the thread sleeps.
pub data Attempt (c : Libc) : Type 0 where
  taken : ℕ → Rt c → Attempt c
  sleeps : Rt c → Attempt c

abbrev pub any : ℕ → Bool
any ret = true

module _ (c : Libc) (o : RtOptions) where
  -- pthreadMutexLockHelper, pthreadRWLockWrLockHelper and pthreadRWLockRdLockHelper, from the test of
  -- the loop to its next sleep.
  unfoldable pub lock_helper : LibcCall → ℕ → ℕ → ℕ → Rt c → Option (Attempt c)
  lock_helper try mu self timeout r =
      let (ret, r') = libc c try r in
      if ret == 0
      then some (taken 0 r')
      else (require (ret == c.ebusy) >> sync_wait c o self mu timeout r' >>= λ r''.
          some (sleeps r''))

  -- The same from the return of the sleep on: a timeout ends the loop.
  unfoldable pub lock_helper_resume : LibcCall → ℕ → ℕ → ℕ → Rt c → Option (Attempt c)
  lock_helper_resume try mu self timeout r = do
    (status, s) ← Turn.wait_end o.sched self r.sched
    if status == o.sched.etimedout
        then some (taken o.sched.etimedout (with_sched c r s))
        else lock_helper try mu self timeout (with_sched c r s)

  -- What a lock call makes of the helper's result: it returns `ret`, or sleeps on.
  unfoldable pub finish_lock : (ℕ → ℕ) → ℕ → ℕ → Attempt c → Option (Seg c)
  finish_lock result self th (taken ret r) = sched_timer_end c o self th (result ret) r
  finish_lock result self th (sleeps r) = some (asleep r)

  abbrev always_zero : ℕ → ℕ
  always_zero ret = 0

  abbrev as_is : ℕ → ℕ
  as_is ret = ret

  -- A lock call without a deadline, up to its first sleep.
  unfoldable lock_call : LibcCall → LibcCall → ℕ → ℕ → ℕ → Rt c → Option (Seg c)
  lock_call direct try mu self th r =
      if bypasses c o self r
      then some (non_det_call c o direct r)
      else (sched_timer_start c o self r >>= λ r₁.
          lock_helper try mu self forever r₁ >>= finish_lock always_zero self th)

  unfoldable lock_resume : LibcCall → ℕ → ℕ → ℕ → Rt c → Option (Seg c)
  lock_resume try mu self th r =
      lock_helper_resume try mu self forever r >>= finish_lock always_zero self th

  pub pthread_mutex_init : ℕ → ℕ → ℕ → Rt c → Option (Seg c)
  pthread_mutex_init mu = plain_call c o (mutex_init mu) (mutex_init mu) any

  pub pthread_mutex_destroy : ℕ → ℕ → ℕ → Rt c → Option (Seg c)
  pthread_mutex_destroy mu = plain_call c o (mutex_destroy mu) (mutex_destroy mu) any

  unfoldable pub pthread_mutex_lock : ℕ → ℕ → ℕ → Rt c → Option (Seg c)
  unfolding lock_call
  pthread_mutex_lock mu = lock_call (mutex_lock mu) (mutex_trylock mu) mu

  unfoldable pub pthread_mutex_lock_resume : ℕ → ℕ → ℕ → Rt c → Option (Seg c)
  unfolding lock_resume
  pthread_mutex_lock_resume mu = lock_resume (mutex_trylock mu) mu

  pub pthread_mutex_try_lock : ℕ → ℕ → ℕ → Rt c → Option (Seg c)
  pthread_mutex_try_lock mu =
      plain_call c o (mutex_trylock mu) (mutex_trylock mu) (λ ret. (ret == 0) || (ret == c.ebusy))

  -- The deadline is a null pointer, or a time; `base` is what tern_set_base_time has set, and `clock`
  -- the time. The first result is the turn of the timeout, which the resumption goes by.
  pub pthread_mutex_timed_lock :
      Option Timespec → Timespec → Timespec → ℕ → ℕ → ℕ → Rt c → Option (ℕ × Seg c)
  unfolding pthread_mutex_lock
  pthread_mutex_timed_lock abstime base clock mu self th r =
      if bypasses c o self r
      then some (forever, non_det_call c o (mutex_timedlock mu) r)
      else elim abstime [
        | none ↦ pthread_mutex_lock mu self th r >>= λ seg. some (forever, seg)
        | some t ↦ sched_timer_start c o self r >>= λ r₁.
            deadline_turn o base clock t r₁.sched >>= λ timeout.
            lock_helper (mutex_trylock mu) mu self timeout r₁
            >>= finish_lock as_is self th
            >>= λ seg. some (timeout, seg)
      ]

  pub pthread_mutex_timed_lock_resume : ℕ → ℕ → ℕ → ℕ → Rt c → Option (Seg c)
  pthread_mutex_timed_lock_resume timeout mu self th r =
      lock_helper_resume (mutex_trylock mu) mu self timeout r >>= finish_lock as_is self th

  unfoldable pub pthread_mutex_unlock : ℕ → ℕ → ℕ → Rt c → Option (Seg c)
  pthread_mutex_unlock mu = release_call c o (mutex_unlock mu) (λ ret. ret == 0) mu

  pub pthread_rwlock_rdlock : ℕ → ℕ → ℕ → Rt c → Option (Seg c)
  unfolding lock_call
  pthread_rwlock_rdlock rw = lock_call (rwlock_rdlock rw) (rwlock_tryrdlock rw) rw

  pub pthread_rwlock_rdlock_resume : ℕ → ℕ → ℕ → Rt c → Option (Seg c)
  unfolding lock_resume
  pthread_rwlock_rdlock_resume rw = lock_resume (rwlock_tryrdlock rw) rw

  pub pthread_rwlock_wrlock : ℕ → ℕ → ℕ → Rt c → Option (Seg c)
  unfolding lock_call
  pthread_rwlock_wrlock rw = lock_call (rwlock_wrlock rw) (rwlock_trywrlock rw) rw

  pub pthread_rwlock_wrlock_resume : ℕ → ℕ → ℕ → Rt c → Option (Seg c)
  unfolding lock_resume
  pthread_rwlock_wrlock_resume rw = lock_resume (rwlock_trywrlock rw) rw

  -- With the turn, a try for reading tries for writing.
  pub pthread_rwlock_tryrdlock : ℕ → ℕ → ℕ → Rt c → Option (Seg c)
  pthread_rwlock_tryrdlock rw = plain_call c o (rwlock_tryrdlock rw) (rwlock_trywrlock rw) any

  pub pthread_rwlock_trywrlock : ℕ → ℕ → ℕ → Rt c → Option (Seg c)
  pthread_rwlock_trywrlock rw = plain_call c o (rwlock_trywrlock rw) (rwlock_trywrlock rw) any

  pub pthread_rwlock_unlock : ℕ → ℕ → ℕ → Rt c → Option (Seg c)
  pthread_rwlock_unlock rw = release_call c o (rwlock_unlock rw) any rw

  pub pthread_rwlock_destroy : ℕ → ℕ → ℕ → Rt c → Option (Seg c)
  pthread_rwlock_destroy rw = plain_call c o (rwlock_destroy rw) (rwlock_destroy rw) any

  pub pthread_rwlock_init : ℕ → ℕ → ℕ → Rt c → Option (Seg c)
  pthread_rwlock_init rw = plain_call c o (rwlock_init rw) (rwlock_init rw) any
