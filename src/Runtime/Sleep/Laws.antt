-- ===== src/Runtime/Sleep/Laws.antt =====
-- The sleeps of lib/runtime/record-runtime.cpp: their timeouts, and what they do to the scheduler.
use xtern.Base.{
  ℕ, ◌+◌, ◌-◌, ◌*◌, ◌%◌, ◌^◌, ◌≡◌, refl, ◌∙◌, ap, ◌≤◌, ◌<◌, ◌↔◌, true, false, some, List, [], ◌∷◌,
  ◌++◌, arith, ◌==◌,
}
use xtern.Scheduler.State.{Sched, null, forever, unsigned_mod}
use xtern.Scheduler.Waiting
use xtern.Scheduler.Waiting.Waking.{chosen, others}
use xtern.Scheduler.Waiting.Signal.{WellFormed}
use xtern.Scheduler.Waiting.Count.{is_due, get_turn_count-pred}
use xtern.Scheduler.Turn
use xtern.Scheduler.Turn.{turn_to}
use xtern.Scheduler.Turn.RoundRobin.{IsPlain, skip_stopped}
use xtern.Scheduler.Turn.Passing.{HandedOver, HandedOver-same, HasStatus}
use xtern.Scheduler.Turn.Wait.{waits_after, given_up_by, wait_begin-Parks}
use xtern.RunQueue.{running_reg}
use xtern.Runtime.Time.{Timespec, rel_time_to_turn, least_turns, max_rel}
use xtern.Runtime.Time.Laws.{rel_time_to_turn_bounds}
use xtern.Runtime.State.{Libc, RtOptions, Rt, asleep, with_sched, sched_timer_start}
use xtern.Runtime.Sleep.{usec_time, sleep_begin}

-- The interval that usleep converts is that of its microseconds exactly for less than 4294968 of them;
-- beyond, the product by 1000 wraps around.
usec_time_exact : (usec : ℕ) → ((usec_time usec).tv_nsec ≡ 1000 * usec) ↔ (usec < 4294968)
usec_time_exact usec = (λ h. omega arith, λ h. omega arith)

-- The timeout of a sleep that begins at a turn.
abbrev timeout_of : Sched → ℕ → ℕ
timeout_of s n = (Waiting.get_turn_count s + n) % unsigned_mod

timeout_of_small :
    (s : Sched) (n : ℕ)
    → 0 < s.turn_count
    → s.turn_count + n < 2 ^ 32
    → timeout_of s n ≡ s.turn_count + n - 1
timeout_of_small s n pos small = omega (arith, get_turn_count-pred s pos (omega arith))

module _ (c : Libc) (o : RtOptions) where
  -- A sleep behind its SCHED_TIMER_START parks its thread without a channel.
  sleep_begin-wait :
      (time : Timespec) (self n : ℕ) (r r₁ : Rt c) (s : Sched) (next : Turn.Next)
      → sched_timer_start c o self r ≡ some r₁
      → rel_time_to_turn o r₁.sched (some time) ≡ some n
      → Turn.wait_begin o.sched self null (timeout_of r₁.sched n) r₁.sched ≡ some (next, s)
      → sleep_begin c o (some time) self r ≡ some (asleep (with_sched c r₁ s))
  unfolding sleep_begin
  sleep_begin-wait time self n r r₁ s next start turns parks = rw start (rw turns (rw parks refl))

  -- With the plain options, the idle thread and nanosec_per_turn not 0, a sleep for any time that is
  -- not NULL by the running head of a consistent state, where the thread may start, with no thread back from a blocking operation, where another thread can run,
  -- and whose count of turns is not zero and does not wrap around within the longest sleep. The
  -- thread goes to the end of the wait queue on no channel. Its timeout lies at least five turns for
  -- each thread, and one more, behind the last turn, and at most 1000000 turns above that. The
  -- turn is counted and goes to the first thread that is not stopped, which alone is posted and now
  -- runs.
  pub sleep_begin-Parks :
      (time : Timespec) (self : ℕ) (r r₁ : Rt c) (ts : List ℕ) (t : ℕ) (rest : List ℕ)
      → IsPlain o.sched
      → o.sched.launch_idle_thread ≡ true
      → 0 < o.nanosec_per_turn
      → sched_timer_start c o self r ≡ some r₁
      → WellFormed r₁.sched (self ∷ ts)
      → HasStatus r₁.sched self running_reg
      → r₁.sched.inter_pro_wakeup_flag ≡ false
      → 0 < r₁.sched.turn_count
      → r₁.sched.turn_count + (max_rel + least_turns r₁.sched) < 2 ^ 32
      → skip_stopped r₁.sched.runq (ts ++ chosen (is_due r₁.sched) true r₁.sched.waitq) ≡ t ∷ rest
      → (n : ℕ) × (s' : Sched) × (least_turns r₁.sched ≤ n)
        × (n ≤ max_rel + least_turns r₁.sched)
        × (sleep_begin c o (some time) self r ≡ some (asleep (with_sched c r₁ s')))
        × WellFormed s' (t ∷ rest)
        × (s'.waitq ≡ others (is_due r₁.sched) true r₁.sched.waitq ++ self ∷ [])
        × (s'.waits self
            ≡ record (r₁.sched.waits self) { chan = null; timeout = r₁.sched.turn_count + n - 1 })
        × HandedOver o.sched t
            (r₁.sched.turn_count + 1)
            (waits_after o.sched self null (r₁.sched.turn_count + n - 1) r₁.sched)
            (given_up_by self r₁.sched)
            s'
  sleep_begin-Parks time self r r₁ ts t rest plain launched per_turn start w st idle pos small
        skip =
      let (n, turns, low, high) = rel_time_to_turn_bounds o r₁.sched time launched per_turn in
      let exact = timeout_of_small r₁.sched n pos (omega arith) in
      let early : (timeout_of r₁.sched n == forever) ≡ false = ground (arith, exact) in
      let (s', ran, w', q, v, handed) =
        wait_begin-Parks o.sched self null (timeout_of r₁.sched n) r₁.sched ts t rest plain w st
          idle early skip in
      (
        n,
        s',
        low,
        high,
        sleep_begin-wait time self n r r₁ s' (turn_to t) start turns ran,
        w',
        q,
        v ∙ ap (λ m. record (r₁.sched.waits self) { chan = null; timeout = m }) exact,
        HandedOver-same o.sched t s'
            (waits_after o.sched self null (timeout_of r₁.sched n) r₁.sched)
            (waits_after o.sched self null (r₁.sched.turn_count + n - 1) r₁.sched)
            (given_up_by self r₁.sched) (given_up_by self r₁.sched) (omega arith)
            (λ u. ap (λ m. waits_after o.sched self null m r₁.sched u) exact) (λ u. refl) handed,
      )
