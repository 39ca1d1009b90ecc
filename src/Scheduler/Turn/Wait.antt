-- ===== src/Scheduler/Turn/Wait.antt =====
-- wait of lib/runtime/record-scheduler.cpp up to its sleep.
use xtern.Base.{
  ℕ, ◌≡◌, refl, ◌∙◌, sym, ap, subst, ◌⊎◌, inl, inr, true, false, ◌||◌, ◌&&◌, Option, some, List, [],
  ◌∷◌, ◌++◌, arith, ◌==◌, if◌then◌else◌, is_some, has, has-append, Distinct-snoc, Bool-cases,
  test_self, eq_of_test,
}
use xtern.RunQueue
use xtern.RunQueue.{RunQueue, RunqElem, ThdStatus, runnable, running_reg}
use xtern.RunQueue.Chain.{status_at}
use xtern.RunQueue.Repr.{Repr}
use xtern.RunQueue.Queue.{pop_front-Repr}
use xtern.RunQueue.Access.{front-Repr, set_status-Repr}
use xtern.Scheduler.State.{Options, WaitT, Sched, at_wait, reset, null, forever}
use xtern.Scheduler.Waiting.Waking.{chosen, others, IsLive}
use xtern.Scheduler.Waiting.Signal.{WellFormed, head_in_range, IsAtRest, has-chosen}
use xtern.Scheduler.Waiting.Count.{ticked, is_due, inc_turn_count-Woke}
use xtern.Scheduler.Turn.RoundRobin.{IsPlain, is_stopped, skip_stopped, started}
use xtern.Scheduler.Turn.Passing.{
  HandedOver, HandedOver-same, HasStatus, elem_of_status, skip-same_stops, has-skip, posted,
  next-FirstOf, some_status, some_status_at, some_if, posted-WellFormed, IsLive-status, same_stop,
}
use xtern.Scheduler.Turn.{Next, turn_to, given_up, leave_head, next, wait_begin}

-- The head, which has the turn, leaves the run queue with the status of one that has given it up.
pub leave_head-Repr :
    (self : ℕ) (s : Sched) (ts : List ℕ) (st st' : ThdStatus)
    → Repr s.runq (self ∷ ts)
    → HasStatus s self st
    → given_up st ≡ some st'
    → (q : RunQueue) × (leave_head self s ≡ some (record s { runq = q }))
      × Repr q ts
      × ((u : ℕ)
          → status_at (q.tid_map u)
            ≡ (if self == u then some st' else status_at (s.runq.tid_map u)))
unfolding leave_head RunQueue.get_my_elem
leave_head-Repr self s ts st st' r has_st gives_up =
    let (e, at, running) = elem_of_status s.runq self st has_st in
    let (q₁, ran₁, r₁, one) = set_status-Repr s.runq self e st' (self ∷ ts) r at in
    let (q₂, ran₂, r₂, same₂) = pop_front-Repr q₁ self ts r₁ in
    (q₂, rw at (rw running (rw gives_up (rw ran₁ (rw ran₂ refl)))), r₂, λ u. same₂ u ∙ one u)

-- The state in which the thread has gone to the end of the wait queue.
abbrev parked : ℕ → WaitT → RunQueue → Sched → Sched
parked self v q s = record s {
  runq = q;
  waits = at_wait s.waits self v;
  waitq = s.waitq ++ self ∷ [];
}

parked-WellFormed :
    (self : ℕ) (v : WaitT) (q : RunQueue) (s : Sched) (ts : List ℕ)
    → WellFormed s (self ∷ ts)
    → Repr q ts
    → ¬ IsAtRest v
    → ((u : ℕ) → has u s.waitq ≡ true → IsLive q u)
    → IsLive q self
    → WellFormed (parked self v q s) ts
parked-WellFormed self v q s ts w r sleeps live mine = record {
  repr = r;
  distinct = Distinct-snoc s.waitq self w.distinct not_waiting;
  apart = λ u h. elim (split u h) [
    | inl e ↦ let out = w.apart u e in later u out
    | inr e ↦ subst (λ x. has x ts ≡ false) e w.repr.distinct.0
  ];
  live = λ u h. elim (split u h) [ inl e ↦ live u e | inr e ↦ subst (IsLive q) e mine ];
  wait_range = λ u h. elim (split u h) [
    | inl e ↦ w.wait_range u e
    | inr e ↦ w.run_range u (subst (λ x. has x (self ∷ ts) ≡ true) e here)
  ];
  run_range = λ u h. w.run_range u (longer u h);
  at_rest = λ u h. elim (Bool-cases (self == u)) [
    | inl e ↦ let out = subst (λ x. has x ts ≡ false) (eq_of_test self u e) w.repr.distinct.0 in cc
    | inr e ↦ rw e (w.at_rest u (longer u h))
  ];
  waiting = λ u h. elim (Bool-cases (self == u)) [
    | inl e ↦ rw e sleeps
    | inr e ↦ rw e (elim (split u h) [
      | inl old ↦ w.waiting u old
      | inr same ↦ let yes = ap (◌==◌ self) (sym same) ∙ test_self self in cc
    ])
  ];
}
  where
    here : has self (self ∷ ts) ≡ true
    here = ap (λ b. b || has self ts) (test_self self)

    later : (u : ℕ) → has u (self ∷ ts) ≡ false → has u ts ≡ false
    later u h = ground arith

    longer : (u : ℕ) → has u ts ≡ true → has u (self ∷ ts) ≡ true
    longer u h = ground arith

    not_waiting : has self s.waitq ≡ false
    not_waiting = elim (Bool-cases (has self s.waitq)) [
      | inl e ↦ let out = w.apart self e in let yes = here in cc
      | inr e ↦ e
    ]

    split : (u : ℕ) → has u (s.waitq ++ self ∷ []) ≡ true → (has u s.waitq ≡ true) ⊎ (self ≡ u)
    split u h = ground (arith, has-append u s.waitq (self ∷ []))

pub next-left :
    (o : Options) (self : ℕ) (s s' : Sched)
    → leave_head self s ≡ some s'
    → next o self false false s ≡ next o self false true s'
unfolding next
next-left o self s s' ran = rw ran refl

-- The wait records once the turn has been counted and `self` waits on chan up to nturn.
abbrev pub waits_after : Options → ℕ → ℕ → ℕ → Sched → ℕ → WaitT
waits_after o self chan nturn s u =
    if self == u
    then record (s.waits self) { chan = chan; timeout = nturn }
    else if has u (chosen (is_due s) true s.waitq)
    then reset o.etimedout (s.waits u)
    else s.waits u

-- The status once `self` has given up the turn.
abbrev pub given_up_by : ℕ → Sched → ℕ → Option ThdStatus
given_up_by self s u = if self == u then some runnable else status_at (s.runq.tid_map u)

-- What is achieved where `self` goes to sleep on chan up to nturn: the turn is counted, and goes to t,
-- before `rest`: t alone is posted, and runs. The state is consistent.
abbrev pub Parks : Options → ℕ → ℕ → ℕ → Sched → ℕ → List ℕ → Option (Next × Sched) → Type 0
Parks o self chan nturn s t rest m =
    (s' : Sched) × (m ≡ some (turn_to t, s'))
    × WellFormed s' (t ∷ rest)
    × (s'.waitq ≡ others (is_due s) true s.waitq ++ self ∷ [])
    × (s'.waits self ≡ record (s.waits self) { chan = chan; timeout = nturn })
    × HandedOver o t (ticked s).turn_count (waits_after o self chan nturn s) (given_up_by self s) s'

next-Parks :
    (o : Options) (self : ℕ) (v : WaitT) (s : Sched) (ts : List ℕ) (t : ℕ) (rest : List ℕ)
    → IsPlain o
    → s.inter_pro_wakeup_flag ≡ false
    → WellFormed s (self ∷ ts)
    → HasStatus s self running_reg
    → ¬ IsAtRest v
    → skip_stopped s.runq ts ≡ t ∷ rest
    → (s' : Sched) × (next o self false false
          (record s { waits = at_wait s.waits self v; waitq = s.waitq ++ self ∷ [] })
        ≡ some (turn_to t, s'))
      × WellFormed s' (t ∷ rest)
      × (s'.waitq ≡ s.waitq ++ self ∷ [])
      × (s'.waits self ≡ v)
      × HandedOver o t s.turn_count (at_wait s.waits self v) (given_up_by self s) s'
next-Parks o self v s ts t rest plain idle w st sleeps skip =
    let s₀ : Sched = record s { waits = at_wait s.waits self v; waitq = s.waitq ++ self ∷ [] } in
    let (q, ran, r, one) = leave_head-Repr self s₀ ts running_reg runnable w.repr st refl in
    let s₁ : Sched = parked self v q s in
    let skip' : skip_stopped q ts ≡ t ∷ rest =
      skip-same_stops s.runq q ts
        (λ u. sym (same_stop s self (status_at (q.tid_map u)) u st (one u)))
      ∙ skip in
    let alive : (u : ℕ)
        → is_some (s.runq.tid_map u) ≡ true
        → is_some (status_at (q.tid_map u)) ≡ true =
      λ u h.
        ap is_some (one u)
        ∙ some_if (self == u) (status_at (s.runq.tid_map u))
            (some_status_at (s.runq.tid_map u) ∙ h) in
    let mine : is_some (status_at (q.tid_map self)) ≡ true =
      ap is_some (one self)
      ∙ ap (λ b. is_some (if b then some runnable else status_at (s.runq.tid_map self)))
          (test_self self) in
    let w₁ =
      parked-WellFormed self v q s ts w r sleeps (λ u h. IsLive-status q q u (alive u (w.live u h)))
        (IsLive-status q q self mine) in
    let sub : (u : ℕ) → has u (t ∷ rest) ≡ true → has u ts ≡ true =
      λ u h. has-skip q ts u (subst (λ l. has u l ≡ true) (sym skip') h) in
    let first : has t (t ∷ rest) ≡ true = ap (λ b. b || has t rest) (test_self t) in
    let (s₂, ran₂, r₂, st₂, frame) =
      next-FirstOf o self s₁ ts t rest plain idle r skip' (w₁.run_range t (sub t first)) in
    let other : (t == self) ≡ false = elim (Bool-cases (t == self)) [
      | inl e ↦
          let out = subst (λ u. has u ts ≡ false) (sym (eq_of_test t self e)) w.repr.distinct.0 in
          let inside = sub t first in cc
      | inr e ↦ e
    ] in
    (
      posted o t s₂,
      next-left o self s₀ s₁ ran ∙ ran₂,
      subst (λ z. WellFormed (posted o t z) (t ∷ rest)) (sym frame)
          (posted-WellFormed o s₁ ts (t ∷ rest) t s₂.runq w₁ r₂ sub first (λ u h.
            IsLive-status q s₂.runq u (
              ap is_some (st₂ u)
              ∙ some_status (t == u) (status_at (q.tid_map u))
                  (some_status_at (q.tid_map u) ∙ w₁.live u h)))),
      ap (λ z. z.waitq) frame,
      ap (λ z. (posted o t z).waits self) frame ∙ own t other,
      record {
        turn_count_eq = ap (λ z. z.turn_count) frame;
        waits_eq = λ u. ap (λ z. (posted o t z).waits u) frame;
        status_eq = λ u. st₂ u ∙ ap (λ x. if t == u then started x else x) (one u);
      },
    )
  where
    own : (t : ℕ) → (t == self) ≡ false → (posted o t (parked self v s.runq s)).waits self ≡ v
    own t other = rw other (ap (λ b. if b then v else s.waits self) (test_self self))

-- `wait` on a channel that is not NULL or with a timeout, by the head `self` that has the turn, with the plain options and
-- no thread back from a blocking operation. The turn is counted, and the threads whose timeout lies
-- before the new count go to the end of the run queue. The caller then goes from the run queue to the
-- end of the wait queue with its channel and timeout. Where some thread behind it is not stopped, the
-- turn goes to the first such thread, which alone is posted and now runs, and the state is consistent
-- again.
pub wait_begin-Parks :
    (o : Options) (self chan nturn : ℕ) (s : Sched) (ts : List ℕ) (t : ℕ) (rest : List ℕ)
    → IsPlain o
    → WellFormed s (self ∷ ts)
    → HasStatus s self running_reg
    → s.inter_pro_wakeup_flag ≡ false
    → ((chan == null) && (nturn == forever)) ≡ false
    → skip_stopped s.runq (ts ++ chosen (is_due s) true s.waitq) ≡ t ∷ rest
    → Parks o self chan nturn s t rest (wait_begin o self chan nturn s)
unfolding wait_begin
wait_begin-Parks o self chan nturn s ts t rest plain w st idle real skip =
    let went : List ℕ = chosen (is_due s) true s.waitq in
    let (s₁, ran, woke) = inc_turn_count-Woke o s (self ∷ ts) w idle in
    let awake : has self went ≡ false = not_went went (has-chosen (is_due s) true self s.waitq) in
    let kept : s₁.waits self ≡ s.waits self =
      woke.waits_eq self
      ∙ ap (λ b. if b then reset o.etimedout (s.waits self) else s.waits self) awake in
    let v₁ = ap {A = WaitT} {B = WaitT} (λ x. record x { chan = chan; timeout = nturn }) kept in
    let (s', ran', w', q, v, handed) =
      next-Parks o self (record (s₁.waits self) { chan = chan; timeout = nturn }) s₁ (ts ++ went) t
        rest plain (ap (λ z. z.inter_pro_wakeup_flag) woke.frame ∙ idle) woke.formed
        (woke.same self ∙ st) (λ h. rests chan nturn real h.0 h.1)
        (skip-same_stops s.runq s₁.runq (ts ++ went) (λ u. ap is_stopped (woke.same u)) ∙ skip) in
    (
      s',
      rw ran (
          rw (head_in_range s₁ self (ts ++ went) woke.formed) (
            rw (front-Repr s₁.runq self (ts ++ went) woke.formed.repr) (rw (test_self self) ran'))),
      w',
      q ∙ ap (λ l. l ++ self ∷ []) woke.waitq_eq,
      v ∙ v₁,
      HandedOver-same o t s'
          (at_wait s₁.waits self (record (s₁.waits self) { chan = chan; timeout = nturn }))
          (waits_after o self chan nturn s) (given_up_by self s₁) (given_up_by self s)
          (ap (λ z. z.turn_count) woke.frame)
          (λ u.
            ap
              (λ x.
                if self == u then record (s₁.waits self) { chan = chan; timeout = nturn } else x)
              (woke.waits_eq u)
            ∙ ap
                (λ x.
                  if self == u
                  then x
                  else if has u went
                  then reset o.etimedout (s.waits u)
                  else s.waits u)
                v₁)
          (λ u. ap (λ x. if self == u then some runnable else x) (woke.same u)) handed,
    )
  where
    rests :
        (chan nturn : ℕ)
        → ((chan == null) && (nturn == forever)) ≡ false
        → chan ≡ null
        → nturn ≡ forever
        → ⊥
    rests chan nturn h e d = ground arith

    not_went : (l : List ℕ) → (has self l ≡ true → has self s.waitq ≡ true) → has self l ≡ false
    not_went l h = elim (Bool-cases (has self l)) [
      | inl e ↦
          let out = w.apart self (h e) in
          let yes : has self (self ∷ ts) ≡ true = ap (λ b. b || has self ts) (test_self self) in cc
      | inr e ↦ e
    ]
