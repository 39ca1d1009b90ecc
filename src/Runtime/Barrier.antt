-- ===== src/Runtime/Barrier.antt =====
-- Barriers in lib/runtime/record-runtime.cpp: the runtime counts the threads that arrive, and the last
-- one wakes the others.
pub mod Laws
use xtern.Base.{
  ℕ, ◌+◌, ◌-◌, ◌%◌, ◌^◌, Bool, true, false, ◌&&◌, ◌||◌, not, Option, none, some, ltb, leb, ◌==◌,
  if◌then◌else◌, is_some, ◌>>=◌, ◌>>◌, require,
}
use xtern.RunQueue
use xtern.TidMap
use xtern.TidMap.{main_thread_tid}
use xtern.Scheduler.State.{Sched, forever, unsigned_mod}
use xtern.Scheduler.Waiting
use xtern.Scheduler.Turn
use xtern.Scheduler.Turn.{Next}
use xtern.Scheduler.Threads
use xtern.Runtime.Time.{Timespec, deadline_turn}
use xtern.Runtime.Locks.{Attempt, taken, sleeps, lock_helper, lock_helper_resume, finish_lock, any}
use xtern.Runtime.State.{
  Libc, LibcCall, RtOptions, Rt, Seg, Stat, BarrierT, RefCntBarrier, Phase, arriving, leaving,
  returned, asleep, with_sched, libc, bypasses, non_det_call, replace, minus_one, sched_timer_start,
  sched_timer_end, sched_timer_fake_end, sync_wait, sync_signal, plain_call, release_call,
  mutex_trylock, mutex_unlock, cond_wait, cond_timedwait, cond_signal, cond_broadcast, sem_init,
  sem_wait, sem_trywait, sem_timedwait, sem_post, barrier_init, barrier_wait, barrier_destroy,
}

module _ (c : Libc) (o : RtOptions) where
  abbrev pub set_barrier : ℕ → Option BarrierT → Rt c → Rt c
  set_barrier ba b r = record r { barriers = replace r.barriers ba b }

  pub pthread_barrier_init : ℕ → ℕ → ℕ → ℕ → Rt c → Option (Seg c)
  pthread_barrier_init ba count self th r =
      if bypasses c o self r
      then some (non_det_call c o (barrier_init ba count) r)
      else (sched_timer_start c o self r >>= λ r₁.
          let (ret, r₂) = libc c (barrier_init ba count) r₁ in
          require (ret == 0)
          >> require (not (is_some (r₂.barriers ba)))
          >> sched_timer_end c o self th ret
              (set_barrier ba (some (record { count = count; narrived = 0 })) r₂))

  -- The arrival at a barrier b, with the turn: the last thread wakes the others and passes the turn,
  -- any other sleeps. The result is what the call will return.
  pub arrive : ℕ → ℕ → ℕ → BarrierT → Rt c → Option (ℕ × Rt c)
  arrive ba self th b r = do
    require (leb (b.narrived + 1) b.count)
    if b.count == b.narrived + 1
        then (sync_signal c o self ba true (set_barrier ba (some (record b { narrived = 0 })) r)
            >>= λ r₁. Turn.put_turn o.sched self th false r₁.sched >>= λ (n, s).
                some (c.barrier_serial_thread, with_sched c r₁ s))
        else (sync_wait c o self ba forever
              (set_barrier ba (some (record b { narrived = b.narrived + 1 })) r)
            >>= λ r₁. some (0, r₁))

  -- Up to the sleep, with what the call will return.
  pub pthread_barrier_wait : ℕ → ℕ → ℕ → Rt c → Option (ℕ × Seg c)
  pthread_barrier_wait ba self th r =
      if bypasses c o self r
      then some (0, non_det_call c o (barrier_wait ba) r)
      else (sched_timer_start c o self r >>= λ r₁. sched_timer_fake_end c o r₁ >>= λ r₂.
          r₂.barriers ba >>= λ b. arrive ba self th b r₂ >>= λ (ret, r₃). some (ret, asleep r₃))

  -- From the return of getTurn, of the last thread's or of the others' sleep.
  pub pthread_barrier_wait_resume : ℕ → ℕ → ℕ → Rt c → Option (Seg c)
  pthread_barrier_wait_resume ret self th r = do
    s ← Turn.get_turn o.sched self r.sched
    sched_timer_end c o self th ret (with_sched c r s)

  pub pthread_barrier_destroy : ℕ → ℕ → ℕ → Rt c → Option (Seg c)
  pthread_barrier_destroy ba self th r =
      if bypasses c o self r
      then some (non_det_call c o (barrier_destroy ba) r)
      else (sched_timer_start c o self r >>= λ r₁.
          let (ret, r₂) = libc c (barrier_destroy ba) r₁ in
          require ((ret == 0) || (ret == c.ebusy))
          >> (if ret == 0 then (r₂.barriers ba >>= λ b. some (set_barrier ba none r₂)) else some r₂)
          >>= sched_timer_end c o self th ret)
