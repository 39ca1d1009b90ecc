-- ===== src/Scheduler/Turn/Block.antt =====
-- block of lib/runtime/record-scheduler.cpp: the head leaves the run queue for an operation between
-- processes.
use xtern.Base.{
  ℕ, ◌≡◌, refl, ◌∙◌, sym, ap, subst, inl, inr, Bool, true, false, ◌||◌, Option, some, List, [], ◌∷◌,
  ◌++◌, arith, ◌==◌, if◌then◌else◌, is_some, ltb, has, ◌>>=◌, ne_of_has, Bool-cases, test_self,
}
use xtern.NonDetThreadSet
use xtern.RunQueue
use xtern.RunQueue.{RunQueue, ThdStatus, running_inter_pro, inter_pro_stop}
use xtern.RunQueue.Chain.{status_at, eq_sym}
use xtern.RunQueue.Access.{front-Repr}
use xtern.Scheduler.State.{Options, WaitT, Sched, reset}
use xtern.Scheduler.Waiting.{inc_turn_count}
use xtern.Scheduler.Waiting.Waking.{chosen, others}
use xtern.Scheduler.Waiting.Signal.{WellFormed, head_in_range}
use xtern.Scheduler.Waiting.Count.{ticked, is_due, inc_turn_count-Woke}
use xtern.Scheduler.Turn.RoundRobin.{IsPlain, skip_stopped, started}
use xtern.Scheduler.Turn.Passing.{
  HandedOver, HandedOver-same, HasStatus, has-skip, posted, next-FirstOf, some_status,
  some_status_at, posted-WellFormed, IsLive-status,
}
use xtern.Scheduler.Turn.Wait.{leave_head-Repr, next-left}
use xtern.Scheduler.Turn.{Next, turn_to, next, block}

-- Two run queues with the same threads of a list stopped.
skip-same_on :
    (q q' : RunQueue) (ts : List ℕ)
    → ((u : ℕ) → has u ts ≡ true → status_at (q'.tid_map u) ≡ status_at (q.tid_map u))
    → skip_stopped q' ts ≡ skip_stopped q ts
skip-same_on q q' [] same = refl
skip-same_on q q' (t ∷ ts) same =
    rw
      (
        same t (ap (λ b. b || has t ts) (test_self t)),
        skip-same_on q q' ts (λ u h. same u (ground arith)),
      )
      refl

-- The wait records once the turn has been counted.
abbrev pub waits_counted : Options → Sched → ℕ → WaitT
waits_counted o s u =
    if has u (chosen (is_due s) true s.waitq) then reset o.etimedout (s.waits u) else s.waits u

-- The status once `self` is stopped in its operation.
abbrev pub stopped_by : ℕ → Sched → ℕ → Option ThdStatus
stopped_by self s u = if self == u then some inter_pro_stop else status_at (s.runq.tid_map u)

-- What is achieved where `self` leaves for the operation: the turn is counted, and goes to t, before
-- `rest`: t alone is posted, and runs. The result is the count before.
abbrev pub Leaves : Options → ℕ → Sched → ℕ → List ℕ → Option (ℕ × Next × Sched) → Type 0
Leaves o self s t rest m =
    (s' : Sched) × (m ≡ some (s.turn_count, turn_to t, s'))
    × WellFormed s' (t ∷ rest)
    × (s'.waitq ≡ others (is_due s) true s.waitq)
    × HasStatus s' self inter_pro_stop
    × (has self (t ∷ rest) ≡ false)
    × HandedOver o t (ticked s).turn_count (waits_counted o s) (stopped_by self s) s'

next-Leaves :
    (o : Options) (self : ℕ) (s : Sched) (ts : List ℕ) (t : ℕ) (rest : List ℕ)
    → IsPlain o
    → s.inter_pro_wakeup_flag ≡ false
    → WellFormed s (self ∷ ts)
    → HasStatus s self running_inter_pro
    → skip_stopped s.runq ts ≡ t ∷ rest
    → (s' : Sched) × (next o self false false s ≡ some (turn_to t, s'))
      × WellFormed s' (t ∷ rest)
      × (s'.waitq ≡ s.waitq)
      × HasStatus s' self inter_pro_stop
      × (has self (t ∷ rest) ≡ false)
      × HandedOver o t s.turn_count s.waits (stopped_by self s) s'
next-Leaves o self s ts t rest plain idle w st skip =
    let (q, ran, r, one) =
      leave_head-Repr self s ts running_inter_pro inter_pro_stop w.repr st refl in
    let s₁ : Sched = record s { runq = q } in
    let skip' : skip_stopped q ts ≡ t ∷ rest =
      skip-same_on s.runq q ts (λ u h. kept q u h (one u)) ∙ skip in
    let sub : (u : ℕ) → has u (t ∷ rest) ≡ true → has u ts ≡ true =
      λ u h. has-skip q ts u (subst (λ l. has u l ≡ true) (sym skip') h) in
    let first : has t (t ∷ rest) ≡ true = ap (λ b. b || has t rest) (test_self t) in
    let other : (t == self) ≡ false = ne_of_has t self ts (sub t first) w.repr.distinct.0 in
    let (s₂, ran₂, r₂, st₂, frame) =
      next-FirstOf o self s₁ ts t rest plain idle r skip' (w.run_range t (older t (sub t first))) in
    (
      posted o t s₂,
      next-left o self s s₁ ran ∙ ran₂,
      subst (λ z. WellFormed (posted o t z) (t ∷ rest)) (sym frame)
          (posted-WellFormed o s (self ∷ ts) (t ∷ rest) t s₂.runq w r₂ (λ u h. older u (sub u h))
            first
            (λ u h. IsLive-status q s₂.runq u (
              ap is_some (st₂ u)
              ∙ some_status (t == u) (status_at (q.tid_map u)) (
                  ap is_some (one u)
                  ∙ some_other (self == u) (status_at (s.runq.tid_map u))
                      (some_status_at (s.runq.tid_map u) ∙ w.live u h))))),
      ap (λ z. z.waitq) frame,
      st₂ self
          ∙ ap (λ b. if b then started (status_at (q.tid_map self)) else status_at (q.tid_map self))
              other
          ∙ one self
          ∙ ap (λ b. if b then some inter_pro_stop else status_at (s.runq.tid_map self))
              (test_self self),
      gone sub,
      record {
        turn_count_eq = ap (λ z. z.turn_count) frame;
        waits_eq = λ u. ap (λ z. (posted o t z).waits u) frame;
        status_eq = λ u. st₂ u ∙ ap (λ x. if t == u then started x else x) (one u);
      },
    )
  where
    older : (u : ℕ) → has u ts ≡ true → has u (self ∷ ts) ≡ true
    older u h = ground arith

    kept :
        (q : RunQueue) (u : ℕ)
        → has u ts ≡ true
        → status_at (q.tid_map u)
          ≡ (if self == u then some inter_pro_stop else status_at (s.runq.tid_map u))
        → status_at (q.tid_map u) ≡ status_at (s.runq.tid_map u)
    kept q u h one =
        one
        ∙ ap (λ b. if b then some inter_pro_stop else status_at (s.runq.tid_map u))
            (eq_sym u self (ne_of_has u self ts h w.repr.distinct.0))

    some_other :
        (b : Bool) (x : Option ThdStatus)
        → is_some x ≡ true
        → is_some (if b then some inter_pro_stop else x) ≡ true
    some_other true x h = refl
    some_other false x h = h

    gone : ((u : ℕ) → has u (t ∷ rest) ≡ true → has u ts ≡ true) → has self (t ∷ rest) ≡ false
    gone sub = elim (Bool-cases (has self (t ∷ rest))) [
      | inl e ↦ let out = w.repr.distinct.0 in let inside = sub self e in cc
      | inr e ↦ e
    ]

-- A test that fails, whatever stands under it.
not_taken : (b : Bool) (x y : Option Sched) → b ≡ false → (if b then x else y) ≡ y
not_taken b x y e = rw e refl

-- The steps of `block`, one after the other.
block-run :
    (o : Options) (self : ℕ) (s s₁ s₂ : Sched) (n : Next)
    → o.enforce_non_det_clock_bound ≡ false
    → ltb self s.tids.nthread ≡ true
    → RunQueue.front s.runq ≡ some self
    → inc_turn_count o s ≡ some (s.turn_count, s₁)
    → next o self false false s₁ ≡ some (n, s₂)
    → block o self s ≡ some (s.turn_count, n, s₂)
unfolding block
block-run o self s s₁ s₂ n e range fr counted ran =
    rw
      (not_taken o.enforce_non_det_clock_bound
        (NonDetThreadSet.insert s.non_det_thds self s.turn_count >>= λ n'.
          some (record s { non_det_thds = n' }))
        (some s) e)
      (rw range (rw fr (rw (test_self self) (rw counted (rw ran refl)))))

-- `block` behind its getTurn, with the plain options, in a consistent state in which the head `self`
-- has the turn for an operation between processes and no thread is back from one. The turn is
-- counted, and the threads whose timeout lies before the new count go to the end of the run queue.
-- The caller leaves the run queue, is on none, and is stopped. Where some thread behind it is not
-- stopped, the turn goes to the first such thread, which alone is posted and now runs, and the state
-- is consistent again.
pub block-Leaves :
    (o : Options) (self : ℕ) (s : Sched) (ts : List ℕ) (t : ℕ) (rest : List ℕ)
    → IsPlain o
    → WellFormed s (self ∷ ts)
    → HasStatus s self running_inter_pro
    → s.inter_pro_wakeup_flag ≡ false
    → skip_stopped s.runq (ts ++ chosen (is_due s) true s.waitq) ≡ t ∷ rest
    → Leaves o self s t rest (block o self s)
block-Leaves o self s ts t rest plain w st idle skip =
    let went : List ℕ = chosen (is_due s) true s.waitq in
    let (s₁, counted, woke) = inc_turn_count-Woke o s (self ∷ ts) w idle in
    let (s', ran, w', q, st', gone, handed) =
      next-Leaves o self s₁ (ts ++ went) t rest plain
        (ap (λ z. z.inter_pro_wakeup_flag) woke.frame ∙ idle) woke.formed (woke.same self ∙ st)
        (skip-same_on s.runq s₁.runq (ts ++ went) (λ u h. woke.same u) ∙ skip) in
    (
      s',
      block-run o self s s₁ s' (turn_to t) plain.no_clock_bound (head_in_range s self ts w)
          (front-Repr s.runq self ts w.repr) counted ran,
      w',
      q ∙ woke.waitq_eq,
      st',
      gone,
      HandedOver-same o t s' s₁.waits (waits_counted o s) (stopped_by self s₁) (stopped_by self s)
          (ap (λ z. z.turn_count) woke.frame) woke.waits_eq
          (λ u. ap (λ x. if self == u then some inter_pro_stop else x) (woke.same u)) handed,
    )
