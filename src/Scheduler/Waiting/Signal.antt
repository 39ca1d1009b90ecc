-- ===== src/Scheduler/Waiting/Signal.antt =====
-- signal and fireTimeouts of lib/runtime/record-scheduler.cpp, and the invariant of the two queues and
-- the wait records that `selfcheck` is about.
use xtern.Base.{
  ℕ, ◌≡◌, refl, ◌∙◌, ◌⊎◌, sym, ap, ap₂, subst, ◌<◌, inl, inr, Bool, true, false, ◌||◌, none, some,
  List, [], ◌∷◌, ◌++◌, arith, ltb, ◌==◌, if◌then◌else◌, has, Distinct, has-append, Bool-cases,
  ne_of_has, test_self,
}
use xtern.RunQueue.Repr.{Repr, SameStatus}
use xtern.RunQueue.Access.{front-Repr}
use xtern.Scheduler.State.{Options, WaitT, Sched, reset, null, forever}
use xtern.Scheduler.Waiting.{
  sweep, Swept, with_waitq, signal, fire_timeouts, on_chan, timed_out, check_wakeup,
}
use xtern.Scheduler.Waiting.Sweep.{sweep-IsSwept}
use xtern.Scheduler.Waiting.Waking.{chosen, others, IsLive, IsLive-same, CanWake, IsSwept}

-- A wait record of a thread that does not wait.
abbrev pub IsAtRest : WaitT → Type 0
IsAtRest w = (w.chan ≡ null) × (w.timeout ≡ forever)

-- The state is consistent, with the threads `ts` in the run queue: no thread is in a queue twice or
-- in both, each has an element and an id that was given out, and the wait records say which threads
-- wait.
pub record WellFormed (s : Sched) (ts : List ℕ) : Type 0 where
  pub repr : Repr s.runq ts
  pub distinct : Distinct s.waitq
  pub apart : (t : ℕ) → has t s.waitq ≡ true → has t ts ≡ false
  pub live : (t : ℕ) → has t s.waitq ≡ true → IsLive s.runq t
  pub wait_range : (t : ℕ) → has t s.waitq ≡ true → t < s.tids.nthread
  pub run_range : (t : ℕ) → has t ts ≡ true → t < s.tids.nthread
  pub at_rest : (t : ℕ) → has t ts ≡ true → IsAtRest (s.waits t)
  pub waiting : (t : ℕ) → has t s.waitq ≡ true → ¬ IsAtRest (s.waits t)

module _ (p : ℕ → Bool) (all : Bool) where
  pub has-chosen : (u : ℕ) (ws : List ℕ) → has u (chosen p all ws) ≡ true → has u ws ≡ true
  has-chosen u [] h = cc
  has-chosen u (t ∷ ws) h = ground (arith, has-chosen u ws)

  pub has-others :
      (u : ℕ) (ws : List ℕ)
      → Distinct ws
      → has u (others p all ws) ≡ true
      → (has u ws ≡ true) × (has u (chosen p all ws) ≡ false)
  has-others u [] d h = cc
  has-others u (t ∷ ws) d h = ground (arith, has-others u ws d.1, ne_of_has u t ws, has-chosen u ws)

  not-has-others : (u : ℕ) (ws : List ℕ) → has u ws ≡ false → has u (others p all ws) ≡ false
  not-has-others u [] h = refl
  not-has-others u (t ∷ ws) h = ground (arith, not-has-others u ws)

  pub Distinct-others : (ws : List ℕ) → Distinct ws → Distinct (others p all ws)
  Distinct-others [] d = tt
  Distinct-others (t ∷ ws) d = ground (arith, Distinct-others ws, not-has-others t ws)

pub WellFormed-CanWake : (s : Sched) (ts : List ℕ) → WellFormed s ts → CanWake s ts s.waitq
WellFormed-CanWake s ts w = record {
  repr = w.repr;
  distinct = w.distinct;
  apart = w.apart;
  live = w.live;
  in_range = w.wait_range;
}

module _ (test : ℕ → WaitT → Bool) (st : ℕ) (all : Bool) (s : Sched) (ts : List ℕ) (r : Swept)
    (w : WellFormed s ts) (is : IsSwept test st all s.waitq s ts r) where
  abbrev went : List ℕ
  went = chosen (λ t. test t (s.waits t)) all s.waitq

  kept_lem : (u : ℕ) → has u r.kept ≡ true → (has u s.waitq ≡ true) × (has u went ≡ false)
  kept_lem u h =
      has-others (λ t. test t (s.waits t)) all u s.waitq w.distinct
        (subst (λ l. has u l ≡ true) is.kept_eq h)

  ran_lem : (u : ℕ) → has u (ts ++ went) ≡ true → (has u ts ≡ true) ⊎ (has u went ≡ true)
  ran_lem u h = ground (arith, has-append u ts went)

  nthread_eq : r.sched.tids.nthread ≡ s.tids.nthread
  nthread_eq = ap (λ z. z.tids.nthread) is.frame

  went_range : (u : ℕ) → has u went ≡ true → u < s.tids.nthread
  went_range u h = w.wait_range u (has-chosen (λ t. test t (s.waits t)) all u s.waitq h)

  not_went : (u : ℕ) → has u ts ≡ true → has u went ≡ false
  not_went u h = elim (Bool-cases (has u went)) [
    | inl e ↦ let out = w.apart u (has-chosen (λ t. test t (s.waits t)) all u s.waitq e) in cc
    | inr e ↦ e
  ]

  -- The loop over the wait queue keeps the state consistent.
  pub swept-WellFormed : WellFormed (with_waitq r) (ts ++ went)
  swept-WellFormed = record {
    repr = is.repr;
    distinct =
        subst Distinct (sym is.kept_eq)
          (Distinct-others (λ t. test t (s.waits t)) all s.waitq w.distinct);
    apart =
        λ u h. let (h₁, h₂) = kept_lem u h in has-append u ts went ∙ ap₂ (◌||◌) (w.apart u h₁) h₂;
    live = λ u h. IsLive-same s.runq r.sched.runq u is.same (w.live u (kept_lem u h).0);
    wait_range = λ u h. let below = w.wait_range u (kept_lem u h).0 in omega (arith, nthread_eq);
    run_range = λ u h. elim (ran_lem u h) [
      | inl e ↦ let below = w.run_range u e in omega (arith, nthread_eq)
      | inr e ↦ let below = went_range u e in omega (arith, nthread_eq)
    ];
    at_rest = λ u h. elim (ran_lem u h) [
      | inl e ↦ rw (is.waits_eq u, not_went u e) (w.at_rest u e)
      | inr e ↦ rw (is.waits_eq u, e) (refl, refl)
    ];
    waiting = λ u h. let (h₁, h₂) = kept_lem u h in rw (is.waits_eq u, h₂) (w.waiting u h₁);
  }

-- The assertion of the calls that pass the turn, on the number of their thread.
pub head_in_range :
    (s : Sched) (self : ℕ) (ts : List ℕ) → WellFormed s (self ∷ ts) → ltb self s.tids.nthread ≡ true
head_in_range s self ts w =
    let below = w.run_range self (ap (λ b. b || has self ts) (test_self self)) in ground arith

-- What an operation that wakes threads achieves: it returns, the threads `went` stand at the end of
-- the run queue with reset records, `left` go on waiting in the old order, and nothing else changes.
pub record Woke (st : ℕ) (s : Sched) (ts went left : List ℕ) (s' : Sched) : Type 0 where
  pub formed : WellFormed s' (ts ++ went)
  pub waitq_eq : s'.waitq ≡ left
  pub waits_eq : (u : ℕ) → s'.waits u ≡ (if has u went then reset st (s.waits u) else s.waits u)
  pub same : SameStatus s.runq s'.runq
  pub frame : s' ≡ record s { runq = s'.runq; waits = s'.waits; waitq = s'.waitq }

pub swept-Woke :
    (test : ℕ → WaitT → Bool) (st : ℕ) (all : Bool) (s : Sched) (ts : List ℕ)
    → WellFormed s ts
    → (r : Swept) × (sweep test st all s.waitq s ≡ some r)
      × Woke st s ts
          (chosen (λ t. test t (s.waits t)) all s.waitq)
          (others (λ t. test t (s.waits t)) all s.waitq)
          (with_waitq r)
swept-Woke test st all s ts w =
    let (r, ran, is) = sweep-IsSwept test st all s.waitq s ts (WellFormed-CanWake s ts w) in
    (
      r,
      ran,
      record {
        formed = swept-WellFormed test st all s ts r w is;
        waitq_eq = is.kept_eq;
        waits_eq = is.waits_eq;
        same = is.same;
        frame = ap {A = Sched} {B = Sched} (λ z. record z { waitq = r.kept }) is.frame;
      },
    )

-- `signal`, by the head of the run queue and on a channel that is not NULL, returns. It moves the
-- threads that wait on the channel, the first one or all of them, to the end of the run queue in the
-- order in which they wait, with the status 0; the state stays consistent.
pub signal-Woke :
    (self chan : ℕ) (all : Bool) (s : Sched) (ts : List ℕ)
    → WellFormed s (self ∷ ts)
    → (chan == null) ≡ false
    → (s' : Sched) × (signal self chan all s ≡ some s')
      × Woke 0 s
          (self ∷ ts)
          (chosen (λ t. (s.waits t).chan == chan) all s.waitq)
          (others (λ t. (s.waits t).chan == chan) all s.waitq)
          s'
unfolding signal
signal-Woke self chan all s ts w real =
    let (r, ran, woke) = swept-Woke (on_chan chan) 0 all s (self ∷ ts) w in
    (
      with_waitq r,
      rw (real, signal) (rw (front-Repr s.runq self ts w.repr) (rw (test_self self) (rw ran refl))),
      woke,
    )

-- `fireTimeouts` returns. It moves exactly the threads whose timeout lies before the turn count to
-- the end of the run queue in the order in which they wait, with the status ETIMEDOUT; the state
-- stays consistent.
pub fire_timeouts-Woke :
    (o : Options) (s : Sched) (ts : List ℕ)
    → WellFormed s ts
    → (s' : Sched) × (fire_timeouts o s ≡ some s')
      × Woke o.etimedout s ts
          (chosen (λ t. ltb (s.waits t).timeout s.turn_count) true s.waitq)
          (others (λ t. ltb (s.waits t).timeout s.turn_count) true s.waitq)
          s'
unfolding fire_timeouts
fire_timeouts-Woke o s ts w =
    let (r, ran, woke) = swept-Woke (timed_out s.turn_count) o.etimedout true s ts w in
    (with_waitq r, rw ran refl, woke)

-- On the NULL channel, or by a thread that is not the head, `signal` is an assertion failure.
pub signal-none :
    (self chan : ℕ) (all : Bool) (s : Sched) (t : ℕ) (ts : List ℕ)
    → WellFormed s (t ∷ ts)
    → ((chan == null) ≡ true) ⊎ ((self == t) ≡ false)
    → signal self chan all s ≡ none
unfolding signal
signal-none self chan all s t ts w (inl e) = rw (e, signal) refl
signal-none self chan all s t ts w (inr e) = elim (Bool-cases (chan == null)) [
  | inl n ↦ rw (n, signal) refl
  | inr n ↦ rw (n, signal) (rw (front-Repr s.runq t ts w.repr) (rw e refl))
]

-- With no thread back from a blocking operation, `check_wakeup` does nothing.
pub check_wakeup-idle :
    (o : Options) (s : Sched) → s.inter_pro_wakeup_flag ≡ false → check_wakeup o s ≡ some s
unfolding check_wakeup
check_wakeup-idle o s idle = ground arith
