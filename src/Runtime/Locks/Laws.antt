-- ===== src/Runtime/Locks/Laws.antt =====
-- What a lock call of lib/runtime/record-runtime.cpp comes to, and whom an unlock wakes.
use xtern.Base.{
  subst, sym, test_self, ℕ, ◌≡◌, refl, ◌∙◌, ap, ◌⊎◌, inl, inr, true, false, Option, some, List, ◌∷◌,
  ◌++◌, ◌==◌, ◌>>=◌, ◌&&◌,
}
use xtern.RunQueue.{running_reg}
use xtern.Scheduler.State.{Sched, null, forever}
use xtern.Scheduler.Waiting.Waking.{chosen, others}
use xtern.Scheduler.Waiting.Signal.{WellFormed, Woke, signal-Woke}
use xtern.Scheduler.Waiting.Count.{is_due}
use xtern.Scheduler.Turn
use xtern.Scheduler.Turn.{Next, turn_to}
use xtern.Scheduler.Turn.RoundRobin.{IsPlain, skip_stopped}
use xtern.Scheduler.Turn.Passing.{HasStatus}
use xtern.Scheduler.Turn.Wait.{Parks, wait_begin-Parks}
use xtern.Runtime.State.{
  Libc, LibcCall, RtOptions, Rt, Seg, asleep, with_sched, libc, bypasses, sched_timer_start,
  sched_timer_end, sync_wait, sync_signal, release_call, mutex_lock, mutex_trylock, mutex_unlock,
}
use xtern.Runtime.Ending.{Finishes, sched_timer_end-Finishes}
use xtern.Runtime.Locks.{
  lock_helper, finish_lock, lock_call, pthread_mutex_lock, pthread_mutex_lock_resume,
  lock_helper_resume, lock_resume, pthread_mutex_unlock, always_zero,
}

-- What a lock call with the turn comes to, by what the C library's try returned: with the lock it
-- returns 0 and passes the turn; without it, it counts the turn, sleeps on the lock for
-- ever, and posts t, which now runs.
abbrev pub LocksOrSleeps :
    (c : Libc) → RtOptions → ℕ → ℕ → ℕ → List ℕ → ℕ → List ℕ → ℕ × Rt c → Option (Seg c) → Type 0
LocksOrSleeps c o lock self th ts t rest tried m =
    (tried.0 ≡ 0) × Finishes c o self th 0 tried.1.sched ts tried.1 m
    ⊎ ((tried.0 ≡ c.ebusy)
        × (parks : Parks o.sched self lock forever tried.1.sched t rest
            (Turn.wait_begin o.sched self lock forever tried.1.sched))
        × (m ≡ some (asleep (with_sched c tried.1 parks.0))))

-- What an unlock with the turn comes to: the first thread that waits on the lock is woken with the
-- status 0, and the call returns `ret` and passes the turn.
abbrev pub WakesAndReturns :
    (c : Libc) → RtOptions → ℕ → ℕ → ℕ → ℕ → List ℕ → Rt c → Option (Seg c) → Type 0
WakesAndReturns c o lock self th ret ts r m =
    (s₁ : Sched) × Woke 0 r.sched (self ∷ ts)
      (chosen (λ t. (r.sched.waits t).chan == lock) false r.sched.waitq)
      (others (λ t. (r.sched.waits t).chan == lock) false r.sched.waitq) s₁
    × Finishes c o self th ret s₁
        (ts ++ chosen (λ t. (r.sched.waits t).chan == lock) false r.sched.waitq) (with_sched c r s₁)
        m

module _ (c : Libc) (o : RtOptions) where
  lock_helper-sleeps :
      (try : LibcCall) (lock self th : ℕ) (r : Rt c) (s' : Sched) (n : Next)
      → (libc c try r).0 ≡ c.ebusy
      → (c.ebusy == 0) ≡ false
      → Turn.wait_begin o.sched self lock forever r.sched ≡ some (n, s')
      → (lock_helper c o try lock self forever r >>= finish_lock c o (always_zero c o) self th)
        ≡ some (asleep (with_sched c (libc c try r).1 s'))
  unfolding lock_helper finish_lock sync_wait
  lock_helper-sleeps try lock self th r s' n busy nonzero ran =
      rw busy (rw nonzero (rw (test_self c.ebusy) (rw ran refl)))

  lock_helper-locks :
      (try : LibcCall) (lock self th : ℕ) (r : Rt c)
      → (libc c try r).0 ≡ 0
      → (lock_helper c o try lock self forever r >>= finish_lock c o (always_zero c o) self th)
        ≡ sched_timer_end c o self th 0 (libc c try r).1
  unfolding lock_helper finish_lock
  lock_helper-locks try lock self th r free = rw free refl

  lock_call-started :
      (direct try : LibcCall) (lock self th : ℕ) (r r₁ : Rt c)
      → bypasses c o self r ≡ false
      → sched_timer_start c o self r ≡ some r₁
      → lock_call c o direct try lock self th r
        ≡ (lock_helper c o try lock self forever r₁ >>= finish_lock c o (always_zero c o) self th)
  unfolding lock_call
  lock_call-started direct try lock self th r r₁ out start = rw out (rw start refl)

  -- The attempt of a lock call that has the turn, as the first one or behind a sleep.
  pub lock_helper-LocksOrSleeps :
      (try : LibcCall) (lock self th : ℕ) (r : Rt c) (ts : List ℕ) (t : ℕ) (rest : List ℕ)
      → IsPlain o.sched
      → WellFormed r.sched (self ∷ ts)
      → HasStatus r.sched self running_reg
      → r.sched.inter_pro_wakeup_flag ≡ false
      → (lock == null) ≡ false
      → (c.ebusy == 0) ≡ false
      → (((libc c try r).0 ≡ 0) ⊎ ((libc c try r).0 ≡ c.ebusy))
      → skip_stopped r.sched.runq (ts ++ chosen (is_due r.sched) true r.sched.waitq) ≡ t ∷ rest
      → LocksOrSleeps c o lock self th ts t rest
          (libc c try r)
          (lock_helper c o try lock self forever r >>= finish_lock c o (always_zero c o) self th)
  lock_helper-LocksOrSleeps try lock self th r ts t rest plain w st idle real nonzero tried skip =
      elim tried [
        | inl free ↦
            let (s₁, woke, passes, ends) =
              sched_timer_end-Finishes c o self th 0 (libc c try r).1 ts plain w st idle in
            inl (free, (s₁, woke, passes, lock_helper-locks try lock self th r free ∙ ends))
        | inr busy ↦
            let parks =
              wait_begin-Parks o.sched self lock forever r.sched ts t rest plain w st idle
                (ap (λ b. b && (forever == forever)) real) skip in
            inr (
              busy,
              parks,
              lock_helper-sleeps try lock self th r parks.0 (turn_to t) busy nonzero parks.1,
            )
      ]

  lock_resume-woken :
      (try : LibcCall) (lock self th status : ℕ) (r : Rt c) (s : Sched)
      → Turn.wait_end o.sched self r.sched ≡ some (status, s)
      → (status == o.sched.etimedout) ≡ false
      → lock_resume c o try lock self th r ≡ (
          lock_helper c o try lock self forever (with_sched c r s)
          >>= finish_lock c o (always_zero c o) self th)
  unfolding lock_resume lock_helper_resume
  lock_resume-woken try lock self th status r s woken intime = rw woken (rw intime refl)

  -- A lock call of a mutex that is not NULL, outside nondeterministic regions, by the running head of a consistent state with no thread back from a
  -- blocking operation, with the plain options, where the thread may start and another thread can
  -- run, and where the C library's trylock returns 0 or EBUSY, which is not 0. With the lock, the call returns 0,
  -- and passes the turn behind its counting. Without it, the call does not return: the thread goes
  -- to the end of the wait queue with the mutex as its channel and no timeout, and the turn is
  -- counted and goes to the first thread that is not stopped, which alone is posted and now runs, in
  -- a consistent state.
  pub pthread_mutex_lock-LocksOrSleeps :
      (mu self th : ℕ) (r r₁ : Rt c) (ts : List ℕ) (t : ℕ) (rest : List ℕ)
      → IsPlain o.sched
      → bypasses c o self r ≡ false
      → sched_timer_start c o self r ≡ some r₁
      → WellFormed r₁.sched (self ∷ ts)
      → HasStatus r₁.sched self running_reg
      → r₁.sched.inter_pro_wakeup_flag ≡ false
      → (mu == null) ≡ false
      → (c.ebusy == 0) ≡ false
      → (((libc c (mutex_trylock mu) r₁).0 ≡ 0) ⊎ ((libc c (mutex_trylock mu) r₁).0 ≡ c.ebusy))
      → skip_stopped r₁.sched.runq (ts ++ chosen (is_due r₁.sched) true r₁.sched.waitq) ≡ t ∷ rest
      → LocksOrSleeps c o mu self th ts t rest
          (libc c (mutex_trylock mu) r₁)
          (pthread_mutex_lock c o mu self th r)
  unfolding pthread_mutex_lock
  pthread_mutex_lock-LocksOrSleeps mu self th r r₁ ts t rest plain out start w st idle real nonzero
        tried skip =
      subst (LocksOrSleeps c o mu self th ts t rest (libc c (mutex_trylock mu) r₁))
        (sym (lock_call-started (mutex_lock mu) (mutex_trylock mu) mu self th r r₁ out start))
        (lock_helper-LocksOrSleeps (mutex_trylock mu) mu self th r₁ ts t rest plain w st idle real
          nonzero tried skip)

  -- The rest of a lock call of a mutex that is not NULL, behind a sleep from which the thread comes back with the turn
  -- and not by a timeout, as the running head of a consistent state `s` with no thread back from a
  -- blocking operation, with the plain options, where another thread can run and where the C
  -- library's trylock returns 0 or EBUSY, which is not 0. It comes to the same as the call did: it returns 0 with the
  -- lock, and else sleeps on the mutex again, behind all that wait, and posts the next thread.
  pub pthread_mutex_lock_resume-LocksOrSleeps :
      (mu self th status : ℕ) (r : Rt c) (s : Sched) (ts : List ℕ) (t : ℕ) (rest : List ℕ)
      → IsPlain o.sched
      → Turn.wait_end o.sched self r.sched ≡ some (status, s)
      → (status == o.sched.etimedout) ≡ false
      → WellFormed s (self ∷ ts)
      → HasStatus s self running_reg
      → s.inter_pro_wakeup_flag ≡ false
      → (mu == null) ≡ false
      → (c.ebusy == 0) ≡ false
      → (((libc c (mutex_trylock mu) (with_sched c r s)).0 ≡ 0)
          ⊎ ((libc c (mutex_trylock mu) (with_sched c r s)).0 ≡ c.ebusy))
      → skip_stopped s.runq (ts ++ chosen (is_due s) true s.waitq) ≡ t ∷ rest
      → LocksOrSleeps c o mu self th ts t rest
          (libc c (mutex_trylock mu) (with_sched c r s))
          (pthread_mutex_lock_resume c o mu self th r)
  unfolding pthread_mutex_lock_resume
  pthread_mutex_lock_resume-LocksOrSleeps mu self th status r s ts t rest plain woken intime w st
        idle real nonzero tried skip =
      subst (LocksOrSleeps c o mu self th ts t rest (libc c (mutex_trylock mu) (with_sched c r s)))
        (sym (lock_resume-woken (mutex_trylock mu) mu self th status r s woken intime))
        (lock_helper-LocksOrSleeps (mutex_trylock mu) mu self th (with_sched c r s) ts t rest plain
          w st idle real nonzero tried skip)

  -- An unlock of a mutex that is not NULL, outside nondeterministic regions, by the running head of a consistent state with no thread back from a
  -- blocking operation, with the plain options, where the thread may start and the C library
  -- unlocks. The first thread that waits on the mutex, if any, goes to the end of the run queue with
  -- the status 0, and the call returns 0 and passes the turn behind its counting.
  pub pthread_mutex_unlock-WakesAndReturns :
      (mu self th : ℕ) (r r₁ : Rt c) (ts : List ℕ)
      → IsPlain o.sched
      → bypasses c o self r ≡ false
      → sched_timer_start c o self r ≡ some r₁
      → WellFormed r₁.sched (self ∷ ts)
      → HasStatus r₁.sched self running_reg
      → r₁.sched.inter_pro_wakeup_flag ≡ false
      → (mu == null) ≡ false
      → (libc c (mutex_unlock mu) r₁).0 ≡ 0
      → WakesAndReturns c o mu self th 0 ts
          (libc c (mutex_unlock mu) r₁).1
          (pthread_mutex_unlock c o mu self th r)
  unfolding pthread_mutex_unlock release_call sync_signal
  pthread_mutex_unlock-WakesAndReturns mu self th r r₁ ts plain out start w st idle real unlocked =
      let r₂ = (libc c (mutex_unlock mu) r₁).1 in
      let (s₁, ran, woke) = signal-Woke self mu false r₁.sched ts w real in
      let (s₂, counted, passes, ends) =
        sched_timer_end-Finishes c o self th 0 (with_sched c r₂ s₁)
          (ts ++ chosen (λ t. (r₁.sched.waits t).chan == mu) false r₁.sched.waitq) plain woke.formed
          (woke.same self ∙ st) (ap (λ z. z.inter_pro_wakeup_flag) woke.frame ∙ idle) in
      (s₁, woke, (s₂, counted, passes, rw out (rw start (rw unlocked (rw ran ends)))))
