-- ===== src/Tests/Locking.antt =====
-- The theorems on the locks of lib/runtime/record-runtime.cpp: a lock that is held, and an unlock
-- and a wait on a condition variable, where another thread waits for the mutex.
use xtern.Base.{ℕ, ◌+◌, ◌≡◌, refl, inl, inr, some, [], ◌∷◌}
use xtern.Scheduler.State.{Sched}
use xtern.Scheduler.Turn.{get_turn, wait_end}
use xtern.Runtime.State.{Libc, Rt, libc, mutex_trylock, mutex_unlock, sched_timer_start}
use xtern.Runtime.Locks.{pthread_mutex_lock, pthread_mutex_lock_resume, pthread_mutex_unlock}
use xtern.Runtime.Locks.Laws.{
  LocksOrSleeps, WakesAndReturns, pthread_mutex_lock-LocksOrSleeps,
  pthread_mutex_lock_resume-LocksOrSleeps, pthread_mutex_unlock-WakesAndReturns,
}
use xtern.Runtime.Cond.{pthread_cond_wait}
use xtern.Runtime.Cond.Laws.{ReleasesAndSleeps, pthread_cond_wait-ReleasesAndSleeps}
use xtern.Tests.States.{five_threads, some_options-IsPlain}
use xtern.Tests.Calls.{ready_libc, runtime_options, at_barrier}
use xtern.Tests.Processes.{in_state, given, taken, counted_state, starts, taken-WellFormed}

-- A C library under which every lock is held.
abbrev held_libc : Libc
held_libc = record ready_libc { call = λ k w. (16, w + 1) }

abbrev held_state : ℕ → Sched → Rt held_libc
held_state n s = record {
  sched = s;
  world = 0;
  barriers = at_barrier.barriers;
  refcnt_bars = at_barrier.refcnt_bars;
  in_non_det = at_barrier.in_non_det;
  stat = record at_barrier.stat { n_det_pthread_sync_op = n };
}

held_starts :
    sched_timer_start held_libc runtime_options 0 (held_state 0 (given five_threads))
    ≡ some (held_state 1 (taken five_threads))
unfolding sched_timer_start get_turn
held_starts = refl

-- Thread 0 sleeps on the mutex 9, and the turn goes to thread 2.
pthread_mutex_lock-LocksOrSleeps_example :
    LocksOrSleeps held_libc runtime_options 9 0 77
      (1 ∷ 2 ∷ [])
      2
      (3 ∷ [])
      (libc held_libc (mutex_trylock 9) (held_state 1 (taken five_threads)))
      (pthread_mutex_lock held_libc runtime_options 9 0 77 (held_state 0 (given five_threads)))
pthread_mutex_lock-LocksOrSleeps_example =
    pthread_mutex_lock-LocksOrSleeps held_libc runtime_options 9 0 77
      (held_state 0 (given five_threads)) (held_state 1 (taken five_threads)) (1 ∷ 2 ∷ []) 2
      (3 ∷ []) some_options-IsPlain refl held_starts taken-WellFormed refl refl refl refl (inr refl)
      refl

-- Thread 3 waits on the mutex 7.
pthread_mutex_unlock-WakesAndReturns_example :
    WakesAndReturns ready_libc runtime_options 7 0 77 0
      (1 ∷ 2 ∷ [])
      (libc ready_libc (mutex_unlock 7) (counted_state five_threads)).1
      (pthread_mutex_unlock ready_libc runtime_options 7 0 77 (in_state (given five_threads)))
pthread_mutex_unlock-WakesAndReturns_example =
    pthread_mutex_unlock-WakesAndReturns ready_libc runtime_options 7 0 77
      (in_state (given five_threads)) (counted_state five_threads) (1 ∷ 2 ∷ []) some_options-IsPlain
      refl (starts five_threads refl) taken-WellFormed refl refl refl refl

-- Thread 0 is woken, and gets the mutex 9.
woken_with_turn :
    wait_end runtime_options.sched 0 (given five_threads) ≡ some (0, taken five_threads)
unfolding wait_end get_turn
woken_with_turn = refl

pthread_mutex_lock_resume-LocksOrSleeps_example :
    LocksOrSleeps ready_libc runtime_options 9 0 77
      (1 ∷ 2 ∷ [])
      2
      (3 ∷ [])
      (libc ready_libc (mutex_trylock 9) (in_state (taken five_threads)))
      (pthread_mutex_lock_resume ready_libc runtime_options 9 0 77 (in_state (given five_threads)))
pthread_mutex_lock_resume-LocksOrSleeps_example =
    pthread_mutex_lock_resume-LocksOrSleeps ready_libc runtime_options 9 0 77 0
      (in_state (given five_threads)) (taken five_threads) (1 ∷ 2 ∷ []) 2 (3 ∷ [])
      some_options-IsPlain woken_with_turn refl taken-WellFormed refl refl refl refl (inl refl) refl

-- Thread 0 waits on the condition variable 9 and wakes thread 3, which waits on the mutex 7.
pthread_cond_wait-ReleasesAndSleeps_example :
    ReleasesAndSleeps ready_libc runtime_options 9 7 0
      (1 ∷ 2 ∷ [])
      (libc ready_libc (mutex_unlock 7) (counted_state five_threads)).1
      (pthread_cond_wait ready_libc runtime_options 9 7 0 77 (in_state (given five_threads)))
pthread_cond_wait-ReleasesAndSleeps_example =
    pthread_cond_wait-ReleasesAndSleeps ready_libc runtime_options 9 7 0 77 2
      (in_state (given five_threads)) (counted_state five_threads) (1 ∷ 2 ∷ []) some_options-IsPlain
      refl (starts five_threads refl) taken-WellFormed refl refl refl refl refl refl
