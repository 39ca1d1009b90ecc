-- ===== src/Runtime/Cond/Laws.antt =====
-- What a wait on a condition variable in lib/runtime/record-runtime.cpp comes to, up to its sleep.
use xtern.Base.{
  ℕ, ◌≡◌, refl, ◌∙◌, ap, ◌||◌, ◌&&◌, true, false, Option, some, List, ◌∷◌, ◌++◌, ◌==◌, has,
  has-append,
}
use xtern.RunQueue.{running_reg}
use xtern.RunQueue.Chain.{status_at}
use xtern.Scheduler.State.{Sched, null, forever}
use xtern.Scheduler.Waiting
use xtern.Scheduler.Waiting.Waking.{chosen, others}
use xtern.Scheduler.Waiting.Signal.{WellFormed, Woke, signal-Woke}
use xtern.Scheduler.Waiting.Count.{ticked, is_due, inc_turn_count-Woke}
use xtern.Scheduler.Turn
use xtern.Scheduler.Turn.{Next, turn_to}
use xtern.Scheduler.Turn.RoundRobin.{IsPlain, is_stopped, skip_stopped}
use xtern.Scheduler.Turn.Passing.{HasStatus}
use xtern.Scheduler.Turn.Rejoining.{skip-has}
use xtern.Scheduler.Turn.Wait.{Parks, wait_begin-Parks}
use xtern.Runtime.State.{
  Libc, RtOptions, Rt, Seg, asleep, with_sched, libc, bypasses, sched_timer_start,
  sched_timer_fake_end, sync_wait, sync_signal, mutex_unlock,
}
use xtern.Runtime.Cond.{pthread_cond_wait}

-- The threads that a signal on the mutex wakes.
abbrev pub heirs : Sched → ℕ → List ℕ
heirs s mu = chosen (λ t. (s.waits t).chan == mu) false s.waitq

-- A wait of `self` on cv that has released mu, with `ts` behind it. The first thread that waits on mu
-- is woken with the status 0. The turn is counted, and then once more with the sleep, and each time
-- the threads whose timeout lies before the new count are woken. The thread is last in the wait
-- queue, on cv for ever, and t, the first thread that is not stopped, alone is posted, and runs.
abbrev pub ReleasesAndSleeps :
    (c : Libc) → RtOptions → ℕ → ℕ → ℕ → List ℕ → Rt c → Option (Seg c) → Type 0
ReleasesAndSleeps c o cv mu self ts r m =
    (s₁ : Sched) × (s₂ : Sched) × (t : ℕ) × (rest : List ℕ) × Woke 0 r.sched (self ∷ ts)
      (heirs r.sched mu) (others (λ t. (r.sched.waits t).chan == mu) false r.sched.waitq) s₁
    × Woke o.sched.etimedout (ticked s₁) (self ∷ (ts ++ heirs r.sched mu))
        (chosen (is_due s₁) true s₁.waitq) (others (is_due s₁) true s₁.waitq) s₂
    × (skip_stopped s₂.runq (
          ((ts ++ heirs r.sched mu) ++ chosen (is_due s₁) true s₁.waitq)
          ++ chosen (is_due s₂) true s₂.waitq)
        ≡ t ∷ rest)
    × (parks : Parks o.sched self cv forever s₂ t rest (Turn.wait_begin o.sched self cv forever s₂))
    × (m ≡ some (asleep (with_sched c r parks.0)))

has-front : (x : ℕ) (l l' : List ℕ) → has x l ≡ true → has x (l ++ l') ≡ true
has-front x l l' h = has-append x l l' ∙ ap (λ b. b || has x l') h

module _ (c : Libc) (o : RtOptions) where
  pthread_cond_wait-run :
      (cv mu self th turn : ℕ) (r r₁ : Rt c) (s₁ s₂ s' : Sched) (n : Next)
      → bypasses c o self r ≡ false
      → sched_timer_start c o self r ≡ some r₁
      → Waiting.signal self mu false r₁.sched ≡ some s₁
      → Waiting.inc_turn_count o.sched s₁ ≡ some (turn, s₂)
      → Turn.wait_begin o.sched self cv forever s₂ ≡ some (n, s')
      → pthread_cond_wait c o cv mu self th r
        ≡ some (asleep (with_sched c (libc c (mutex_unlock mu) r₁).1 s'))
  unfolding pthread_cond_wait sync_signal sched_timer_fake_end sync_wait
  pthread_cond_wait-run cv mu self th turn r r₁ s₁ s₂ s' n out start woken counted parks =
      rw out (rw start (rw woken (rw counted (rw parks refl))))

  -- pthread_cond_wait up to its sleep, on a condition variable and a mutex that are not NULL, outside
  -- nondeterministic regions and with the plain options, by the running head of a consistent
  -- state with no thread back from a blocking operation, where the thread may start and some thread
  -- x behind it is not stopped. Nothing comes between the release of the mutex and the sleep: the
  -- call unlocks the mutex, wakes the first thread that waits on it, and with the same turn puts its
  -- thread to the end of the wait queue on the condition variable; the first thread that is
  -- not stopped is then posted, alone, and runs, in a consistent state. The turn is counted twice,
  -- once by the call and once by the sleep.
  pub pthread_cond_wait-ReleasesAndSleeps :
      (cv mu self th x : ℕ) (r r₁ : Rt c) (ts : List ℕ)
      → IsPlain o.sched
      → bypasses c o self r ≡ false
      → sched_timer_start c o self r ≡ some r₁
      → WellFormed r₁.sched (self ∷ ts)
      → HasStatus r₁.sched self running_reg
      → r₁.sched.inter_pro_wakeup_flag ≡ false
      → (mu == null) ≡ false
      → (cv == null) ≡ false
      → has x ts ≡ true
      → is_stopped (status_at (r₁.sched.runq.tid_map x)) ≡ false
      → ReleasesAndSleeps c o cv mu self ts
          (libc c (mutex_unlock mu) r₁).1
          (pthread_cond_wait c o cv mu self th r)
  pthread_cond_wait-ReleasesAndSleeps cv mu self th x r r₁ ts plain out start w st idle real on_cv
        queued goes =
      let (s₁, woken, woke₁) = signal-Woke self mu false r₁.sched ts w real in
      let idle₁ = ap (λ z. z.inter_pro_wakeup_flag) woke₁.frame ∙ idle in
      let ts₁ : List ℕ = ts ++ heirs r₁.sched mu in
      let (s₂, counted, woke₂) = inc_turn_count-Woke o.sched s₁ (self ∷ ts₁) woke₁.formed idle₁ in
      let ts₂ : List ℕ = ts₁ ++ chosen (is_due s₁) true s₁.waitq in
      let ts₃ : List ℕ = ts₂ ++ chosen (is_due s₂) true s₂.waitq in
      let same : (u : ℕ) → status_at (s₂.runq.tid_map u) ≡ status_at (r₁.sched.runq.tid_map u) =
        λ u. woke₂.same u ∙ woke₁.same u in
      let (t, rest, skip) =
        skip-has s₂.runq ts₃ x
          (has-front x ts₂ (chosen (is_due s₂) true s₂.waitq) (
            has-front x ts₁ (chosen (is_due s₁) true s₁.waitq)
              (has-front x ts (heirs r₁.sched mu) queued)))
          (ap is_stopped (same x) ∙ goes) in
      let parks =
        wait_begin-Parks o.sched self cv forever s₂ ts₂ t rest plain woke₂.formed (same self ∙ st)
          (ap (λ z. z.inter_pro_wakeup_flag) woke₂.frame ∙ idle₁)
          (ap (λ b. b && (forever == forever)) on_cv) skip in
      (
        s₁,
        s₂,
        t,
        rest,
        woke₁,
        woke₂,
        skip,
        parks,
        pthread_cond_wait-run cv mu self th s₁.turn_count r r₁ s₁ s₂ parks.0 (turn_to t) out start
            woken counted parks.1,
      )
