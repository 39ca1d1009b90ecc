-- ===== src/BaseRuntime/Locks.antt =====
-- The methods of struct Runtime in lib/runtime/runtime.cpp for mutexes, condition variables, barriers, semaphores and read-write locks, in the build
-- without DBUG.
use xtern.Base.{ℕ, ◌≡◌, refl}
use xtern.Runtime.Methods.{MutexCall, RwlockCall, SemCall, mutex_call, rwlock_call, sem_call}
use xtern.Thread.{CLib, Method}
use xtern.BaseRuntime.Errno.{with_errno, late_errno}

module _ (c : CLib) where
  unfoldable pub pthread_mutex_init : ℕ → ℕ → Method c
  pthread_mutex_init mutex mutexattr = with_errno c (mutex_call (MutexCall.init mutex mutexattr))

  unfoldable pub pthread_mutex_destroy : ℕ → Method c
  pthread_mutex_destroy mutex = with_errno c (mutex_call (MutexCall.destroy mutex))

  pub sem_init : ℕ → ℕ → ℕ → Method c
  sem_init sem pshared value = with_errno c (sem_call (SemCall.init sem pshared value))

  pub sem_wait : ℕ → Method c
  sem_wait sem = with_errno c (sem_call (SemCall.wait sem))

  pub sem_post : ℕ → Method c
  sem_post sem = with_errno c (sem_call (SemCall.post sem))

  pub pthread_mutex_init_inner : ℕ → ℕ → Method c
  pthread_mutex_init_inner mutex mutexattr =
      with_errno c (mutex_call (MutexCall.init mutex mutexattr))

  pub pthread_mutex_destroy_inner : ℕ → Method c
  pthread_mutex_destroy_inner mutex = with_errno c (mutex_call (MutexCall.destroy mutex))

  pub pthread_mutex_lock : ℕ → Method c
  pthread_mutex_lock mutex = with_errno c (mutex_call (MutexCall.lock mutex))

  pub pthread_mutex_unlock : ℕ → Method c
  pthread_mutex_unlock mutex = with_errno c (mutex_call (MutexCall.unlock mutex))

  pub pthread_rwlock_rdlock : ℕ → Method c
  pthread_rwlock_rdlock rwlock = late_errno c (rwlock_call (RwlockCall.rdlock rwlock))

  pub pthread_rwlock_tryrdlock : ℕ → Method c
  pthread_rwlock_tryrdlock rwlock = late_errno c (rwlock_call (RwlockCall.tryrdlock rwlock))

  pub pthread_rwlock_wrlock : ℕ → Method c
  pthread_rwlock_wrlock rwlock = late_errno c (rwlock_call (RwlockCall.wrlock rwlock))

  pub pthread_rwlock_trywrlock : ℕ → Method c
  pthread_rwlock_trywrlock rwlock = late_errno c (rwlock_call (RwlockCall.trywrlock rwlock))

  pub pthread_rwlock_unlock : ℕ → Method c
  pthread_rwlock_unlock rwlock = late_errno c (rwlock_call (RwlockCall.unlock rwlock))

  pub pthread_rwlock_destroy : ℕ → Method c
  pthread_rwlock_destroy rwlock = late_errno c (rwlock_call (RwlockCall.destroy rwlock))

  pub pthread_rwlock_init : ℕ → ℕ → Method c
  pthread_rwlock_init rwlock attr = late_errno c (rwlock_call (RwlockCall.init rwlock attr))

  pub rwlock_method : RwlockCall → Method c
  rwlock_method (RwlockCall.rdlock rwlock) = pthread_rwlock_rdlock rwlock
  rwlock_method (RwlockCall.tryrdlock rwlock) = pthread_rwlock_tryrdlock rwlock
  rwlock_method (RwlockCall.wrlock rwlock) = pthread_rwlock_wrlock rwlock
  rwlock_method (RwlockCall.trywrlock rwlock) = pthread_rwlock_trywrlock rwlock
  rwlock_method (RwlockCall.unlock rwlock) = pthread_rwlock_unlock rwlock
  rwlock_method (RwlockCall.destroy rwlock) = pthread_rwlock_destroy rwlock
  rwlock_method (RwlockCall.init rwlock attr) = pthread_rwlock_init rwlock attr

  pub rwlock_method-late_errno : (k : RwlockCall) → rwlock_method k ≡ late_errno c (rwlock_call k)
  unfolding rwlock_method pthread_rwlock_rdlock pthread_rwlock_tryrdlock pthread_rwlock_wrlock
      pthread_rwlock_trywrlock pthread_rwlock_unlock pthread_rwlock_destroy pthread_rwlock_init
  rwlock_method-late_errno (RwlockCall.rdlock rwlock) = refl
  rwlock_method-late_errno _ = refl
