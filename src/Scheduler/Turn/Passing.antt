-- ===== src/Scheduler/Turn/Passing.antt =====
-- How `next` of lib/runtime/record-scheduler.cpp passes the turn to the first thread that can run.
use xtern.Base.{
  ℕ, ◌≡◌, refl, ◌∙◌, sym, ap, subst, ◌<◌, inl, inr, Bool, true, false, Option, none, some, List, [],
  ◌∷◌, arith, ◌==◌, if◌then◌else◌, is_some, has, Bool-cases, Option-cases, eq_of_test, eq_of_some,
}
use xtern.RunQueue.{RunQueue, RunqElem, ThdStatus, runnable, running_reg}
use xtern.RunQueue.Chain.{status_at}
use xtern.RunQueue.Repr.{Repr}
use xtern.RunQueue.Access.{size-Repr}
use xtern.Scheduler.State.{Options, WaitT, Sched, at_wait, post}
use xtern.Scheduler.Waiting.Waking.{IsLive}
use xtern.Scheduler.Waiting.{check_wakeup}
use xtern.Scheduler.Waiting.Signal.{WellFormed, check_wakeup-idle}
use xtern.Scheduler.Turn.RoundRobin.{
  IsPlain, is_stopped, skip_stopped, started, next_runnable-FirstOf,
}
use xtern.Scheduler.Turn.{turn_to, rounds, hand_over, next}

-- The status that a thread has.
abbrev pub HasStatus : Sched → ℕ → ThdStatus → Type 0
HasStatus s t st = status_at (s.runq.tid_map t) ≡ some st

pub elem_of_status :
    (q : RunQueue) (t : ℕ) (st : ThdStatus)
    → status_at (q.tid_map t) ≡ some st
    → (e : RunqElem) × (q.tid_map t ≡ some e) × (e.status ≡ st)
elem_of_status q t st h = elim (Option-cases (q.tid_map t)) [
  | inl e ↦ absurd (cc_none (ap status_at (sym e) ∙ h))
  | inr (e, at) ↦ (e, at, eq_of_some e.status st (ap status_at (sym at) ∙ h))
]
  where
    cc_none : ◌≡◌ {A = Option ThdStatus} none (some st) → ⊥
    cc_none h = cc

pub skip-same_stops :
    (q q' : RunQueue) (ts : List ℕ)
    → ((u : ℕ) → is_stopped (status_at (q'.tid_map u)) ≡ is_stopped (status_at (q.tid_map u)))
    → skip_stopped q' ts ≡ skip_stopped q ts
skip-same_stops q q' [] same = refl
skip-same_stops q q' (t ∷ ts) same = rw (same t, skip-same_stops q q' ts same) refl

pub has-skip :
    (q : RunQueue) (ts : List ℕ) (u : ℕ) → has u (skip_stopped q ts) ≡ true → has u ts ≡ true
has-skip q [] u h = h
has-skip q (t ∷ ts) u h = ground (arith, has-skip q ts u)

-- The end of `next`: the chosen thread's wait record is posted.
abbrev pub posted : Options → ℕ → Sched → Sched
posted o t s = record s { waits = at_wait s.waits t (post o (s.waits t)) }

pub hand_over-posted :
    (o : Options) (t : ℕ) (s : Sched)
    → t < s.tids.nthread
    → hand_over o (turn_to t, s) ≡ some (turn_to t, posted o t s)
unfolding hand_over
hand_over-posted o t s small = ground arith

-- The turn has gone to t: from the wait records `waits` and the status `status` of the threads, t alone is
-- posted, and marked as running. The turns counted are `turn`.
pub record HandedOver (o : Options) (t turn : ℕ) (waits : ℕ → WaitT) (status : ℕ → Option ThdStatus)
    (s' : Sched) : Type 0 where
  pub turn_count_eq : s'.turn_count ≡ turn
  pub waits_eq : (u : ℕ) → s'.waits u ≡ (if t == u then post o (waits t) else waits u)
  pub status_eq :
      (u : ℕ) → status_at (s'.runq.tid_map u) ≡ (if t == u then started (status u) else status u)

pub HandedOver-same :
    (o : Options) (t : ℕ) (s' : Sched) (w₁ w₂ : ℕ → WaitT) (st₁ st₂ : ℕ → Option ThdStatus)
    {turn₁ turn₂ : ℕ}
    → turn₁ ≡ turn₂
    → ((u : ℕ) → w₁ u ≡ w₂ u)
    → ((u : ℕ) → st₁ u ≡ st₂ u)
    → HandedOver o t turn₁ w₁ st₁ s'
    → HandedOver o t turn₂ w₂ st₂ s'
HandedOver-same o t s' w₁ w₂ st₁ st₂ turns waits status h = record {
  turn_count_eq = h.turn_count_eq ∙ turns;
  waits_eq = λ u.
      h.waits_eq u
      ∙ ap (λ x. if t == u then post o x else w₁ u) (waits t)
      ∙ ap (λ x. if t == u then post o (w₂ t) else x) (waits u);
  status_eq = λ u. h.status_eq u ∙ ap (λ x. if t == u then started x else x) (status u);
}

-- `next` behind `putTurn`, where the caller is off the head already and check_wakeup gives s₀.
pub next-after :
    (o : Options) (self : ℕ) (s s₀ : Sched) (ts : List ℕ) (t : ℕ) (rest : List ℕ)
    → IsPlain o
    → check_wakeup o s ≡ some s₀
    → Repr s₀.runq ts
    → skip_stopped s₀.runq ts ≡ t ∷ rest
    → t < s₀.tids.nthread
    → (s' : Sched) × (next o self false true s ≡ some (turn_to t, posted o t s'))
      × Repr s'.runq (t ∷ rest)
      × ((u : ℕ)
          → status_at (s'.runq.tid_map u) ≡ (
              if t == u
              then started (status_at (s₀.runq.tid_map u))
              else status_at (s₀.runq.tid_map u)))
      × (s' ≡ record s₀ { runq = s'.runq })
unfolding next
next-after o self s s₀ ts t rest plain checked r skip small =
    let (s', ran, r', st, frame) =
      next_runnable-FirstOf o self false (rounds s₀) s₀ ts t rest plain r skip
        (omega (arith, size-Repr s₀.runq ts r)) in
    let small' : t < s'.tids.nthread = omega (arith, ap (λ z. z.tids.nthread) frame) in
    (s', rw checked (rw ran (hand_over-posted o t s' small')), r', st, frame)

-- The same where no thread is back from a blocking operation.
pub next-FirstOf :
    (o : Options) (self : ℕ) (s : Sched) (ts : List ℕ) (t : ℕ) (rest : List ℕ)
    → IsPlain o
    → s.inter_pro_wakeup_flag ≡ false
    → Repr s.runq ts
    → skip_stopped s.runq ts ≡ t ∷ rest
    → t < s.tids.nthread
    → (s' : Sched) × (next o self false true s ≡ some (turn_to t, posted o t s'))
      × Repr s'.runq (t ∷ rest)
      × ((u : ℕ)
          → status_at (s'.runq.tid_map u) ≡ (
              if t == u
              then started (status_at (s.runq.tid_map u))
              else status_at (s.runq.tid_map u)))
      × (s' ≡ record s { runq = s'.runq })
next-FirstOf o self s ts t rest plain idle r skip small =
    next-after o self s s ts t rest plain (check_wakeup-idle o s idle) r skip small

pub some_status :
    (b : Bool) (x : Option ThdStatus)
    → is_some x ≡ true
    → is_some (if b then started x else x) ≡ true
some_status true none h = h
some_status true (some runnable) h = refl
some_status true (some x) h = refl
some_status false x h = h

pub some_status_at : (x : Option RunqElem) → is_some (status_at x) ≡ is_some x
some_status_at none = refl
some_status_at (some e) = refl

post-at_rest : (o : Options) (w : WaitT) → (post o w).chan ≡ w.chan
post-at_rest o w = ground arith

post-timeout : (o : Options) (w : WaitT) → (post o w).timeout ≡ w.timeout
post-timeout o w = ground arith

-- The state after a pass of the turn to t is consistent.
pub posted-WellFormed :
    (o : Options) (s : Sched) (ts ts' : List ℕ) (t : ℕ) (q : RunQueue)
    → WellFormed s ts
    → Repr q ts'
    → ((u : ℕ) → has u ts' ≡ true → has u ts ≡ true)
    → has t ts' ≡ true
    → ((u : ℕ) → has u s.waitq ≡ true → IsLive q u)
    → WellFormed (posted o t (record s { runq = q })) ts'
posted-WellFormed o s ts ts' t q w r sub chosen live = record {
  repr = r;
  distinct = w.distinct;
  apart = λ u h. elim (Bool-cases (has u ts')) [
    | inl e ↦ let old = sub u e in let out = w.apart u h in cc
    | inr e ↦ e
  ];
  live = live;
  wait_range = w.wait_range;
  run_range = λ u h. w.run_range u (sub u h);
  at_rest = λ u h. elim (Bool-cases (t == u)) [
    | inl e ↦
        let same : t ≡ u = eq_of_test t u e in
        let (c, d) = w.at_rest t (sub t chosen) in
        rw e (post-at_rest o (s.waits t) ∙ c, post-timeout o (s.waits t) ∙ d)
    | inr e ↦ rw e (w.at_rest u (sub u h))
  ];
  waiting = λ u h. elim (Bool-cases (t == u)) [
    | inl e ↦
        let same : t ≡ u = eq_of_test t u e in
        let out = w.apart u h in let inside = subst (λ v. has v ts ≡ true) same (sub t chosen) in cc
    | inr e ↦ rw e (w.waiting u h)
  ];
}

pub IsLive-status :
    (q q' : RunQueue) (u : ℕ) → is_some (status_at (q'.tid_map u)) ≡ true → IsLive q' u
IsLive-status q q' u h = sym (some_status_at (q'.tid_map u)) ∙ h

-- A thread that had the turn and one that can run are both not stopped.
pub same_stop :
    (s : Sched) (self : ℕ) (x : Option ThdStatus) (u : ℕ)
    → HasStatus s self running_reg
    → x ≡ (if self == u then some runnable else status_at (s.runq.tid_map u))
    → is_stopped (status_at (s.runq.tid_map u)) ≡ is_stopped x
same_stop s self x u st e = elim (Bool-cases (self == u)) [
  | inl here ↦
      let same : self ≡ u = eq_of_test self u here in
      let old : status_at (s.runq.tid_map u) ≡ some running_reg =
        subst (λ v. status_at (s.runq.tid_map v) ≡ some running_reg) same st in
      ap is_stopped old ∙ sym (ap is_stopped (e ∙ pick here))
  | inr other ↦ sym (ap is_stopped (e ∙ pick other))
]
  where
    pick :
        {b : Bool}
        → (self == u) ≡ b
        → (if self == u then some runnable else status_at (s.runq.tid_map u))
          ≡ (if b then some runnable else status_at (s.runq.tid_map u))
    pick h = ap (λ b. if b then some runnable else status_at (s.runq.tid_map u)) h

pub some_if :
    (b : Bool) (x : Option ThdStatus)
    → is_some x ≡ true
    → is_some (if b then some runnable else x) ≡ true
some_if true x h = refl
some_if false x h = h
