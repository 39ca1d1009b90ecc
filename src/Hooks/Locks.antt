-- ===== src/Hooks/Locks.antt =====
-- The hooks of lib/runtime/hooks.cpp for mutexes, condition variables, barriers, semaphores and read-write locks.
use xtern.Base.{ℕ, ◌≡◌, refl, ◌==◌, if◌then◌else◌, ◌&&◌}
use xtern.Runtime.Methods.{
  BarrierCall, CondCall, MutexCall, RwlockCall, SemCall, barrier_call, cond_call, mutex_call,
  rwlock_call, sem_call,
}
use xtern.Thread.{CLib, Runtime, ProcOptions}
use xtern.Scheduler.State.{null}
use xtern.Hooks.Crossing.{Hook, crossing, kept, without_attr, checked}

module _ (c : CLib) (rt : Runtime c) where
  -- With no attributes given, those of an error-checking mutex, at the address `errorcheck`, if the
  -- options say so.
  unfoldable pub pthread_mutex_init : ProcOptions → ℕ → ℕ → ℕ → ℕ → Hook c rt
  pthread_mutex_init o errorcheck ins mutex mutexattr =
      crossing c rt (λ w. w)
        (mutex_call (
          MutexCall.init mutex
            (if o.set_mutex_errorcheck && mutexattr == null then errorcheck else mutexattr)))
        ins

  pub pthread_mutex_destroy : ℕ → ℕ → Hook c rt
  pthread_mutex_destroy ins mutex =
      crossing c rt (λ w. w) (mutex_call (MutexCall.destroy mutex)) ins

  unfoldable pub pthread_mutex_lock : ℕ → ℕ → Hook c rt
  pthread_mutex_lock ins mutex = crossing c rt (λ w. w) (mutex_call (MutexCall.lock mutex)) ins

  pub pthread_mutex_trylock : ℕ → ℕ → Hook c rt
  pthread_mutex_trylock ins mutex =
      crossing c rt (λ w. w) (mutex_call (MutexCall.try_lock mutex)) ins

  pub pthread_mutex_timedlock : ℕ → ℕ → ℕ → Hook c rt
  pthread_mutex_timedlock ins mutex t =
      crossing c rt (λ w. w) (mutex_call (MutexCall.timed_lock mutex t)) ins

  unfoldable pub pthread_mutex_unlock : ℕ → ℕ → Hook c rt
  pthread_mutex_unlock ins mutex = crossing c rt (λ w. w) (mutex_call (MutexCall.unlock mutex)) ins

  pub pthread_cond_wait : ℕ → ℕ → ℕ → Hook c rt
  pthread_cond_wait ins cv mu = crossing c rt (λ w. w) (cond_call (CondCall.wait cv mu)) ins

  pub pthread_cond_timedwait : ℕ → ℕ → ℕ → ℕ → Hook c rt
  pthread_cond_timedwait ins cv mu t =
      crossing c rt (λ w. w) (cond_call (CondCall.timed_wait cv mu t)) ins

  unfoldable pub pthread_cond_signal : ℕ → ℕ → Hook c rt
  pthread_cond_signal ins cv = crossing c rt (λ w. w) (cond_call (CondCall.signal cv)) ins

  pub pthread_cond_broadcast : ℕ → ℕ → Hook c rt
  pthread_cond_broadcast ins cv = crossing c rt (λ w. w) (cond_call (CondCall.broadcast cv)) ins

  -- The attributes are not handed on.
  pub pthread_barrier_init : ℕ → ℕ → ℕ → ℕ → Hook c rt
  pthread_barrier_init ins barrier attr count =
      crossing c rt (λ w. w) (barrier_call (BarrierCall.init barrier null count)) ins

  pub pthread_barrier_wait : ℕ → ℕ → Hook c rt
  pthread_barrier_wait ins barrier =
      crossing c rt (λ w. w) (barrier_call (BarrierCall.wait barrier)) ins

  pub pthread_barrier_destroy : ℕ → ℕ → Hook c rt
  pthread_barrier_destroy ins barrier =
      crossing c rt (λ w. w) (barrier_call (BarrierCall.destroy barrier)) ins

  pub sem_init : ℕ → ℕ → ℕ → ℕ → Hook c rt
  sem_init ins sem pshared value =
      crossing c rt (λ w. w) (sem_call (SemCall.init sem pshared value)) ins

  pub sem_wait : ℕ → ℕ → Hook c rt
  sem_wait ins sem = crossing c rt (λ w. w) (sem_call (SemCall.wait sem)) ins

  pub sem_trywait : ℕ → ℕ → Hook c rt
  sem_trywait ins sem = crossing c rt (λ w. w) (sem_call (SemCall.try_wait sem)) ins

  pub sem_timedwait : ℕ → ℕ → ℕ → Hook c rt
  sem_timedwait ins sem t = crossing c rt (λ w. w) (sem_call (SemCall.timed_wait sem t)) ins

  pub sem_post : ℕ → ℕ → Hook c rt
  sem_post ins sem = crossing c rt (λ w. w) (sem_call (SemCall.post sem)) ins

  pub pthread_rwlock_rdlock : ℕ → ℕ → Hook c rt
  pthread_rwlock_rdlock ins rwlock =
      crossing c rt (λ w. w) (rwlock_call (RwlockCall.rdlock rwlock)) ins

  pub pthread_rwlock_tryrdlock : ℕ → ℕ → Hook c rt
  pthread_rwlock_tryrdlock ins rwlock =
      crossing c rt (λ w. w) (rwlock_call (RwlockCall.tryrdlock rwlock)) ins

  pub pthread_rwlock_wrlock : ℕ → ℕ → Hook c rt
  pthread_rwlock_wrlock ins rwlock =
      crossing c rt (λ w. w) (rwlock_call (RwlockCall.wrlock rwlock)) ins

  pub pthread_rwlock_trywrlock : ℕ → ℕ → Hook c rt
  pthread_rwlock_trywrlock ins rwlock =
      crossing c rt (λ w. w) (rwlock_call (RwlockCall.trywrlock rwlock)) ins

  pub pthread_rwlock_unlock : ℕ → ℕ → Hook c rt
  pthread_rwlock_unlock ins rwlock =
      crossing c rt (λ w. w) (rwlock_call (RwlockCall.unlock rwlock)) ins

  pub pthread_rwlock_destroy : ℕ → ℕ → Hook c rt
  pthread_rwlock_destroy ins rwlock =
      crossing c rt (λ w. w) (rwlock_call (RwlockCall.destroy rwlock)) ins

  pub pthread_rwlock_init : ℕ → ℕ → ℕ → Hook c rt
  pthread_rwlock_init ins rwlock attr =
      crossing c rt (λ w. w) (rwlock_call (RwlockCall.init rwlock attr)) ins

  pub mutex_hook : ProcOptions → ℕ → MutexCall → ℕ → Hook c rt
  mutex_hook o errorcheck (MutexCall.init mutex mutexattr) ins =
      pthread_mutex_init o errorcheck ins mutex mutexattr
  mutex_hook o errorcheck (MutexCall.destroy mutex) ins = pthread_mutex_destroy ins mutex
  mutex_hook o errorcheck (MutexCall.lock mutex) ins = pthread_mutex_lock ins mutex
  mutex_hook o errorcheck (MutexCall.try_lock mutex) ins = pthread_mutex_trylock ins mutex
  mutex_hook o errorcheck (MutexCall.timed_lock mutex t) ins = pthread_mutex_timedlock ins mutex t
  mutex_hook o errorcheck (MutexCall.unlock mutex) ins = pthread_mutex_unlock ins mutex

  pub cond_hook : CondCall → ℕ → Hook c rt
  cond_hook (CondCall.wait cv mu) ins = pthread_cond_wait ins cv mu
  cond_hook (CondCall.timed_wait cv mu t) ins = pthread_cond_timedwait ins cv mu t
  cond_hook (CondCall.signal cv) ins = pthread_cond_signal ins cv
  cond_hook (CondCall.broadcast cv) ins = pthread_cond_broadcast ins cv

  pub barrier_hook : BarrierCall → ℕ → Hook c rt
  barrier_hook (BarrierCall.init barrier attr count) ins =
      pthread_barrier_init ins barrier attr count
  barrier_hook (BarrierCall.wait barrier) ins = pthread_barrier_wait ins barrier
  barrier_hook (BarrierCall.destroy barrier) ins = pthread_barrier_destroy ins barrier

  pub sem_hook : SemCall → ℕ → Hook c rt
  sem_hook (SemCall.init sem pshared value) ins = sem_init ins sem pshared value
  sem_hook (SemCall.wait sem) ins = sem_wait ins sem
  sem_hook (SemCall.try_wait sem) ins = sem_trywait ins sem
  sem_hook (SemCall.timed_wait sem t) ins = sem_timedwait ins sem t
  sem_hook (SemCall.post sem) ins = sem_post ins sem

  pub rwlock_hook : RwlockCall → ℕ → Hook c rt
  rwlock_hook (RwlockCall.rdlock rwlock) ins = pthread_rwlock_rdlock ins rwlock
  rwlock_hook (RwlockCall.tryrdlock rwlock) ins = pthread_rwlock_tryrdlock ins rwlock
  rwlock_hook (RwlockCall.wrlock rwlock) ins = pthread_rwlock_wrlock ins rwlock
  rwlock_hook (RwlockCall.trywrlock rwlock) ins = pthread_rwlock_trywrlock ins rwlock
  rwlock_hook (RwlockCall.unlock rwlock) ins = pthread_rwlock_unlock ins rwlock
  rwlock_hook (RwlockCall.destroy rwlock) ins = pthread_rwlock_destroy ins rwlock
  rwlock_hook (RwlockCall.init rwlock attr) ins = pthread_rwlock_init ins rwlock attr

  pub mutex_hook-crossing :
      (o : ProcOptions) (errorcheck : ℕ) (k : MutexCall) (ins : ℕ)
      → mutex_hook o errorcheck k ins
        ≡ crossing c rt (kept (mutex_call k)) (mutex_call (checked o errorcheck k)) ins
  unfolding mutex_hook pthread_mutex_init pthread_mutex_destroy pthread_mutex_lock
      pthread_mutex_trylock pthread_mutex_timedlock pthread_mutex_unlock
  mutex_hook-crossing o errorcheck (MutexCall.init mutex mutexattr) ins = refl
  mutex_hook-crossing o errorcheck _ ins = refl

  pub cond_hook-crossing :
      (k : CondCall) (ins : ℕ)
      → cond_hook k ins ≡ crossing c rt (kept (cond_call k)) ((cond_call k)) ins
  unfolding cond_hook pthread_cond_wait pthread_cond_timedwait pthread_cond_signal
      pthread_cond_broadcast
  cond_hook-crossing (CondCall.wait cv mu) ins = refl
  cond_hook-crossing _ ins = refl

  pub barrier_hook-crossing :
      (k : BarrierCall) (ins : ℕ)
      → barrier_hook k ins
        ≡ crossing c rt (kept (barrier_call k)) (barrier_call (without_attr k)) ins
  unfolding barrier_hook pthread_barrier_init pthread_barrier_wait pthread_barrier_destroy
  barrier_hook-crossing (BarrierCall.init barrier attr count) ins = refl
  barrier_hook-crossing _ ins = refl

  pub sem_hook-crossing :
      (k : SemCall) (ins : ℕ)
      → sem_hook k ins ≡ crossing c rt (kept (sem_call k)) ((sem_call k)) ins
  unfolding sem_hook sem_init sem_wait sem_trywait sem_timedwait sem_post
  sem_hook-crossing (SemCall.init sem pshared value) ins = refl
  sem_hook-crossing _ ins = refl

  pub rwlock_hook-crossing :
      (k : RwlockCall) (ins : ℕ)
      → rwlock_hook k ins ≡ crossing c rt (kept (rwlock_call k)) ((rwlock_call k)) ins
  unfolding rwlock_hook pthread_rwlock_rdlock pthread_rwlock_tryrdlock pthread_rwlock_wrlock
      pthread_rwlock_trywrlock pthread_rwlock_unlock pthread_rwlock_destroy pthread_rwlock_init
  rwlock_hook-crossing (RwlockCall.rdlock rwlock) ins = refl
  rwlock_hook-crossing _ ins = refl
