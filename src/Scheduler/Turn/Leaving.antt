-- ===== src/Scheduler/Turn/Leaving.antt =====
-- interProStart, interProEnd and wakeup of lib/runtime/record-scheduler.cpp: a thread that is stopped
-- where it stands in the run queue, and comes back.
use xtern.Base.{
  ℕ, ◌≡◌, refl, ◌∙◌, ap, true, false, Option, some, List, ◌∷◌, ◌==◌, if◌then◌else◌, has, is_some,
  Bool, arith, test_self,
}
use xtern.RunQueue
use xtern.RunQueue.{RunQueue, ThdStatus, runnable, running_reg, running_inter_pro, inter_pro_stop}
use xtern.RunQueue.Chain.{status_at}
use xtern.RunQueue.Repr.{Repr}
use xtern.RunQueue.Access.{set_status-Repr}
use xtern.Scheduler.State.{Sched}
use xtern.Scheduler.Waiting.{wakeup}
use xtern.Scheduler.Waiting.Signal.{WellFormed}
use xtern.Scheduler.Turn.Passing.{HasStatus, elem_of_status, IsLive-status, some_status_at}
use xtern.Scheduler.Turn.{entered, inter_pro_start, inter_pro_end}

-- The state in which the thread t alone has another status, and where it is as it was.
abbrev pub Restated : ℕ → ThdStatus → Sched → Sched → List ℕ → Type 0
Restated t st s s' ts =
    WellFormed s' ts
    × ((u : ℕ)
        → status_at (s'.runq.tid_map u)
          ≡ (if t == u then some st else status_at (s.runq.tid_map u)))

restated :
    (s : Sched) (ts : List ℕ) (t : ℕ) (st : ThdStatus) (q : RunQueue)
    → WellFormed s ts
    → Repr q ts
    → ((u : ℕ)
        → status_at (q.tid_map u) ≡ (if t == u then some st else status_at (s.runq.tid_map u)))
    → WellFormed (record s { runq = q }) ts
restated s ts t st q w r one = record {
  repr = r;
  distinct = w.distinct;
  apart = w.apart;
  live = λ u h. IsLive-status s.runq q u (
      ap is_some (one u)
      ∙ some_other (t == u) (status_at (s.runq.tid_map u))
          (some_status_at (s.runq.tid_map u) ∙ w.live u h));
  wait_range = w.wait_range;
  run_range = w.run_range;
  at_rest = w.at_rest;
  waiting = w.waiting;
}
  where
    some_other :
        (b : Bool) (x : Option ThdStatus)
        → is_some x ≡ true
        → is_some (if b then some st else x) ≡ true
    some_other true x h = refl
    some_other false x h = h

-- interProStart of a thread with an element: its status changes as `entered` says.
pub inter_pro_start-Restated :
    (self : ℕ) (s : Sched) (ts : List ℕ) (st st' : ThdStatus) (is_head : Bool)
    → WellFormed s ts
    → HasStatus s self st
    → entered st ≡ some (st', is_head)
    → (q : RunQueue) × (inter_pro_start self s ≡ some (is_head, record s { runq = q }))
      × Restated self st' s (record s { runq = q }) ts
unfolding inter_pro_start RunQueue.get_my_elem
inter_pro_start-Restated self s ts st st' is_head w has_st enters =
    let (e, at, eq) = elem_of_status s.runq self st has_st in
    let (q, ran, r, one) = set_status-Repr s.runq self e st' ts w.repr at in
    (q, rw at (rw eq (rw enters (rw ran refl))), (restated s ts self st' q w r one, one))

-- interProEnd of a stopped thread, queued or not: it can run.
pub inter_pro_end-Restated :
    (self : ℕ) (s : Sched) (ts : List ℕ)
    → WellFormed s ts
    → HasStatus s self inter_pro_stop
    → (q : RunQueue) × (inter_pro_end self s ≡ some (true, record s { runq = q }))
      × Restated self runnable s (record s { runq = q }) ts
unfolding inter_pro_end RunQueue.get_my_elem
inter_pro_end-Restated self s ts w has_st =
    let (e, at, eq) = elem_of_status s.runq self inter_pro_stop has_st in
    let (q, ran, r, one) = set_status-Repr s.runq self e runnable ts w.repr at in
    (q, rw at (rw eq (rw ran refl)), (restated s ts self runnable q w r one, one))

-- `wakeup` puts the caller into the set of those that are back and sets the flag; the state stays
-- consistent.
pub wakeup-Asks :
    (self : ℕ) (s : Sched) (ts : List ℕ)
    → WellFormed s ts
    → WellFormed (wakeup self s) ts
      × (has self (wakeup self s).inter_pro_wakeup_tids ≡ true)
      × ((wakeup self s).inter_pro_wakeup_flag ≡ true)
      × ((wakeup self s).runq ≡ s.runq)
unfolding wakeup
wakeup-Asks self s ts w = (
  record {
    repr = w.repr;
    distinct = w.distinct;
    apart = w.apart;
    live = w.live;
    wait_range = w.wait_range;
    run_range = w.run_range;
    at_rest = w.at_rest;
    waiting = w.waiting;
  },
  added s.inter_pro_wakeup_tids,
  refl,
  refl,
)
  where
    added : (xs : List ℕ) → has self (if has self xs then xs else self ∷ xs) ≡ true
    added xs = ground (arith, test_self self)
