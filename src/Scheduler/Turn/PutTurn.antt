-- ===== src/Scheduler/Turn/PutTurn.antt =====
-- putTurn of lib/runtime/record-scheduler.cpp by a thread that goes on: the round robin.
use xtern.Base.{
  ℕ, ◌≡◌, refl, ◌∙◌, sym, ap, subst, inl, inr, Bool, true, false, ◌||◌, Option, some, List, [], ◌∷◌,
  ◌++◌, arith, ◌==◌, if◌then◌else◌, is_some, ltb, has, has-append, Bool-cases, test_self,
}
use xtern.RunQueue
use xtern.RunQueue.{RunQueue, RunqElem, ThdStatus, runnable, running_reg}
use xtern.RunQueue.Chain.{status_at}
use xtern.RunQueue.Repr.{Repr}
use xtern.RunQueue.Queue.{push_back-Repr, pop_front-Repr}
use xtern.RunQueue.Access.{front-Repr, set_status-Repr}
use xtern.Scheduler.State.{Options, WaitT, Sched, at_wait, post}
use xtern.Scheduler.Waiting.Waking.{IsLive}
use xtern.Scheduler.Waiting.Signal.{WellFormed, head_in_range}
use xtern.Scheduler.Turn.RoundRobin.{IsPlain, is_stopped, skip_stopped, started}
use xtern.Scheduler.Turn.Passing.{
  HasStatus, elem_of_status, skip-same_stops, has-skip, posted, next-FirstOf, some_status, some_if,
  some_status_at, posted-WellFormed, IsLive-status, same_stop,
}
use xtern.Scheduler.Turn.{Next, turn_to, next, check_non_det_bound, to_the_end, put_turn}

pub to_the_end-Repr :
    (self : ℕ) (s : Sched) (ts : List ℕ)
    → Repr s.runq (self ∷ ts)
    → HasStatus s self running_reg
    → (q : RunQueue) × (to_the_end self s ≡ some (record s { runq = q }))
      × Repr q (ts ++ self ∷ [])
      × ((u : ℕ)
          → status_at (q.tid_map u)
            ≡ (if self == u then some runnable else status_at (s.runq.tid_map u)))
unfolding to_the_end RunQueue.get_my_elem
to_the_end-Repr self s ts r st =
    let (e, at, running) = elem_of_status s.runq self running_reg st in
    let (q₁, ran₁, r₁, one) = set_status-Repr s.runq self e runnable (self ∷ ts) r at in
    let (q₂, ran₂, r₂, same₂) = pop_front-Repr q₁ self ts r₁ in
    let (e₂, at₂, running₂) = elem_of_status q₂ self runnable (
      same₂ self
      ∙ (one self
          ∙ ap (λ b. if b then some runnable else status_at (s.runq.tid_map self))
              (test_self self))) in
    let (q₃, ran₃, r₃, same₃) = push_back-Repr q₂ self e₂ ts r₂ at₂ r₁.distinct.0 in
    (
      q₃,
      rw at (rw running (rw ran₁ (rw ran₂ (rw ran₃ refl)))),
      r₃,
      λ u. same₃ u ∙ (same₂ u ∙ one u),
    )

check_non_det_bound-plain : (o : Options) (s : Sched) → IsPlain o → check_non_det_bound o s ≡ some s
unfolding check_non_det_bound
check_non_det_bound-plain o s plain = ground (arith, plain.no_clock_bound)

-- Something is left of a list of threads whose last one is not stopped.
skip-snoc :
    (q : RunQueue) (ts : List ℕ) (x : ℕ)
    → is_stopped (status_at (q.tid_map x)) ≡ false
    → (t : ℕ) × (rest : List ℕ) × (skip_stopped q (ts ++ x ∷ []) ≡ t ∷ rest)
skip-snoc q [] x goes = (x, [], rw goes refl)
skip-snoc q (y ∷ ts) x goes =
    let (t, rest, e) = skip-snoc q ts x goes in
    elim (Bool-cases (is_stopped (status_at (q.tid_map y)))) [
      | inl stop ↦ (t, rest, rw stop e)
      | inr go ↦ (y, ts ++ x ∷ [], rw go refl)
    ]

pub rotated-WellFormed :
    (s : Sched) (self : ℕ) (ts : List ℕ) (q : RunQueue)
    → WellFormed s (self ∷ ts)
    → Repr q (ts ++ self ∷ [])
    → ((u : ℕ) → has u s.waitq ≡ true → IsLive q u)
    → WellFormed (record s { runq = q }) (ts ++ self ∷ [])
rotated-WellFormed s self ts q w r live = record {
  repr = r;
  distinct = w.distinct;
  apart = λ u h. has-append u ts (self ∷ []) ∙ flip (u == self) (has u ts) (w.apart u h);
  live = live;
  wait_range = w.wait_range;
  run_range = λ u h. w.run_range u (back u h);
  at_rest = λ u h. w.at_rest u (back u h);
  waiting = w.waiting;
}
  where
    flip : (a b : Bool) → (a || b) ≡ false → (b || (a || false)) ≡ false
    flip a b h = ground arith

    back : (u : ℕ) → has u (ts ++ self ∷ []) ≡ true → has u (self ∷ ts) ≡ true
    back u h = swap (u == self) (has u ts) (sym (has-append u ts (self ∷ [])) ∙ h)
      where
        swap : (a b : Bool) → (b || (a || false)) ≡ true → (a || b) ≡ true
        swap a b h = ground arith

-- The status of a thread once `self` has passed the turn to t.
abbrev pub status_after : ℕ → ℕ → Sched → ℕ → Option ThdStatus
status_after self t s u =
    let before = if self == u then some runnable else status_at (s.runq.tid_map u) in
    if t == u then started before else before

-- The turn has gone from the head `self`, before `ts`, to t.
abbrev pub Passes : Options → ℕ → Sched → List ℕ → Option (Next × Sched) → Type 0
Passes o self s ts m =
    (t : ℕ) × (rest : List ℕ) × (s' : Sched) × (m ≡ some (turn_to t, s'))
    × (skip_stopped s.runq (ts ++ self ∷ []) ≡ t ∷ rest)
    × WellFormed s' (t ∷ rest)
    × ((u : ℕ) → s'.waits u ≡ (if t == u then post o (s.waits t) else s.waits u))
    × (s'.waitq ≡ s.waitq)
    × (s'.inter_pro_wakeup_flag ≡ false)
    × ((u : ℕ) → status_at (s'.runq.tid_map u) ≡ status_after self t s u)

next-Passes :
    (o : Options) (self : ℕ) (s : Sched) (ts : List ℕ) (q : RunQueue)
    → IsPlain o
    → WellFormed s (self ∷ ts)
    → HasStatus s self running_reg
    → s.inter_pro_wakeup_flag ≡ false
    → Repr q (ts ++ self ∷ [])
    → ((u : ℕ)
        → status_at (q.tid_map u)
          ≡ (if self == u then some runnable else status_at (s.runq.tid_map u)))
    → Passes o self s ts (next o self false true (record s { runq = q }))
next-Passes o self s ts q plain w st idle r one =
    let s₁ : Sched = record s { runq = q } in
    let live₁ : (u : ℕ) → has u s.waitq ≡ true → is_some (status_at (q.tid_map u)) ≡ true = λ u h.
      ap is_some (one u)
      ∙ some_if (self == u) (status_at (s.runq.tid_map u))
          (some_status_at (s.runq.tid_map u) ∙ w.live u h) in
    let w₁ = rotated-WellFormed s self ts q w r (λ u h. IsLive-status s.runq q u (live₁ u h)) in
    let (t, rest, skip) =
      skip-snoc q ts self (
        sym (same_stop s self (status_at (q.tid_map self)) self st (one self))
        ∙ ap is_stopped st) in
    let sub : (u : ℕ) → has u (t ∷ rest) ≡ true → has u (ts ++ self ∷ []) ≡ true =
      λ u h. has-skip q (ts ++ self ∷ []) u (subst (λ l. has u l ≡ true) (sym skip) h) in
    let mine : has t (t ∷ rest) ≡ true = ap (λ b. b || has t rest) (test_self t) in
    let (s₂, ran₂, r₂, st₂, frame) =
      next-FirstOf o self s₁ (ts ++ self ∷ []) t rest plain idle r skip
        (w₁.run_range t (sub t mine)) in
    (
      t,
      rest,
      posted o t s₂,
      ran₂,
      sym (
            skip-same_stops s.runq q (ts ++ self ∷ [])
              (λ u. sym (same_stop s self (status_at (q.tid_map u)) u st (one u))))
          ∙ skip,
      subst (λ z. WellFormed (posted o t z) (t ∷ rest)) (sym frame)
          (posted-WellFormed o s₁ (ts ++ self ∷ []) (t ∷ rest) t s₂.runq w₁ r₂ sub mine (λ u h.
            IsLive-status q s₂.runq u
              (ap is_some (st₂ u) ∙ some_status (t == u) (status_at (q.tid_map u)) (live₁ u h)))),
      λ u. ap (λ z. (posted o t z).waits u) frame ∙ at_same s.waits t u,
      ap (λ z. z.waitq) frame,
      ap (λ z. z.inter_pro_wakeup_flag) frame ∙ idle,
      λ u. st₂ u ∙ ap (λ x. if t == u then started x else x) (one u),
    )
  where
    at_same :
        (f : ℕ → WaitT) (t u : ℕ)
        → at_wait f t (post o (f t)) u ≡ (if t == u then post o (f t) else f u)
    at_same f t u = refl

pub put_turn-next :
    (o : Options) (self th : ℕ) (s s₁ : Sched)
    → IsPlain o
    → ltb self s.tids.nthread ≡ true
    → RunQueue.front s.runq ≡ some self
    → to_the_end self s ≡ some s₁
    → put_turn o self th false s ≡ next o self false true s₁
unfolding put_turn
put_turn-next o self th s s₁ plain range fr ran =
    rw range (rw fr (rw (test_self self) (rw ran (rw (check_non_det_bound-plain o s₁ plain) refl))))

-- With the plain options, in a consistent state in which the head `self` has the turn and no thread is
-- back from a blocking operation, `putTurn` returns. The caller goes to the end of the run queue. The
-- turn goes to the first thread behind it, itself included, that is not stopped in an operation
-- between processes: this thread alone is posted and now runs. The stopped ones before it leave the queue, the
-- order of the others and the wait queue stay, and the state is consistent again.
pub put_turn-RoundRobin :
    (o : Options) (self th : ℕ) (s : Sched) (ts : List ℕ)
    → IsPlain o
    → WellFormed s (self ∷ ts)
    → HasStatus s self running_reg
    → s.inter_pro_wakeup_flag ≡ false
    → Passes o self s ts (put_turn o self th false s)
put_turn-RoundRobin o self th s ts plain w st idle =
    let (q, ran, r, one) = to_the_end-Repr self s ts w.repr st in
    rw
      (put_turn-next o self th s (record s { runq = q }) plain (head_in_range s self ts w)
        (front-Repr s.runq self ts w.repr) ran)
      (next-Passes o self s ts q plain w st idle r one)
