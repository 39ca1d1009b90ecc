-- ===== src/Scheduler/Turn/RoundEnds.antt =====
-- How one round of the loop of nextRunnable of lib/runtime/record-scheduler.cpp ends, under all options.
use xtern.Base.{
  ℕ, ◌+◌, ◌≡◌, ◌≢◌, refl, ap, inl, inr, Bool, true, false, not, ◌&&◌, Option, none, some, List, [],
  ◌∷◌, ◌++◌, arith, ltb, ◌==◌, if◌then◌else◌, ◌>>=◌, ◌>>◌, require, length, length-append,
  Bool-cases, eq_of_test,
}
use xtern.RunQueue
use xtern.RunQueue.{
  RunQueue, RunqElem, ThdStatus, runnable, running_reg, running_inter_pro, inter_pro_stop,
  max_thread_num, deref,
}
use xtern.RunQueue.Repr.{Repr, SameStatus}
use xtern.RunQueue.Queue.{pop_front-Repr}
use xtern.RunQueue.Access.{front-Repr, set_status-Repr, front_elem-Repr, empty-Repr, empty-cons}
use xtern.NonDetThreadSet
use xtern.TidMap.{idle_thread_tid, main_thread_tid}
use xtern.Scheduler.State.{Options, Sched, null}
use xtern.Scheduler.Waiting.{signal}
use xtern.Scheduler.Waiting.Waking.{chosen, others, IsLive-same}
use xtern.Scheduler.Waiting.Signal.{WellFormed, Woke, swept-Woke, signal-Woke, signal-none}
use xtern.Scheduler.Turn.{
  Next, turn_to, invalid_tid, exits, thread_exits, out_of_fuel, Round, done, again, is_idle, found,
  wake_up_idle_thread, fill, drop_head, process_status, process_head,
}

pub length-chosen-others :
    (p : ℕ → Bool) (all : Bool) (ws : List ℕ)
    → length (chosen p all ws) + length (others p all ws) ≡ length ws
length-chosen-others p all [] = refl
length-chosen-others p true (t ∷ ws) = ground (arith, length-chosen-others p true ws)
length-chosen-others p false (t ∷ ws) = ground (arith, length-chosen-others p false ws)

-- A round that does not end goes on from a consistent state with n threads on the two queues.
pub data IsRound (n : ℕ) : Option Round → Type 0 where
  faults : IsRound n none
  ends : {x : Next} {s : Sched} → x ≢ out_of_fuel → IsRound n (some (done x s))
  goes_on :
      {s : Sched} (ts : List ℕ)
      → WellFormed s ts
      → length ts + length s.waitq ≡ n
      → IsRound n (some (again s))

pub Woke-length :
    (p : ℕ → Bool) (all : Bool) (st : ℕ) (s s' : Sched) (ts : List ℕ)
    → Woke st s ts (chosen p all s.waitq) (others p all s.waitq) s'
    → length (ts ++ chosen p all s.waitq) + length s'.waitq ≡ length ts + length s.waitq
Woke-length p all st s s' ts w = omega (
  arith,
  length-append ts (chosen p all s.waitq),
  length-chosen-others p all s.waitq,
  ap length w.waitq_eq,
)

pub IsRound-guard :
    (n : ℕ) (m : Option (Unit {0})) (r : Option Round) → IsRound n r → IsRound n (m >> r)
IsRound-guard n none r h = faults
IsRound-guard n (some u) r h = h

pub IsRound-if :
    (n : ℕ) (b : Bool) (r r' : Option Round)
    → (b ≡ true → IsRound n r)
    → (b ≡ false → IsRound n r')
    → IsRound n (if b then r else r')
IsRound-if n true r r' h k = h refl
IsRound-if n false r r' h k = k refl

-- The ends of the loop that are not by fuel.
pub invalid_tid-ne : invalid_tid ≢ out_of_fuel
invalid_tid-ne h = cc

pub exits-ne : exits ≢ out_of_fuel
exits-ne h = cc

pub thread_exits-ne : thread_exits ≢ out_of_fuel
thread_exits-ne h = cc

pub turn_to-ne : (t : ℕ) → turn_to t ≢ out_of_fuel
turn_to-ne t h = cc

pub wake_up_idle_thread-IsRound :
    (s : Sched) (ts : List ℕ)
    → WellFormed s ts
    → IsRound (length ts + length s.waitq) (wake_up_idle_thread s)
unfolding wake_up_idle_thread
wake_up_idle_thread-IsRound s ts w =
    let (r, ran, woke) = swept-Woke is_idle 0 false s ts w in
    IsRound-if _ s.idle_done _ _ (λ e. ends thread_exits-ne)
      (λ e. rw ran (
        IsRound-guard _ (found r.woken >> require (not (RunQueue.empty r.sched.runq))) _
          (goes_on _ woke.formed (Woke-length (λ t. is_idle t (s.waits t)) false 0 s _ ts woke))))

pub signal-IsRound :
    (self chan : ℕ) (s : Sched) (t : ℕ) (ts : List ℕ)
    → WellFormed s (t ∷ ts)
    → IsRound (length (t ∷ ts) + length s.waitq) (signal self chan true s >>= λ s'. some (again s'))
signal-IsRound self chan s t ts w = elim (Bool-cases (self == t)) [
  | inr e ↦ rw (signal-none self chan true s t ts w (inr e)) faults
  | inl e ↦ elim (Bool-cases (chan == null)) [
    | inl n ↦ rw (signal-none self chan true s t ts w (inl n)) faults
    | inr n ↦
        let same : self ≡ t = eq_of_test self t e in
        let (s', ran, woke) = signal-Woke t chan true s ts w n in
        rw same (
          rw ran (
            goes_on _ woke.formed
              (Woke-length (λ u. (s.waits u).chan == chan) true 0 s s' (t ∷ ts) woke)))
  ]
]

pub fill-IsRound :
    (o : Options) (self : ℕ) (at_end : Bool) (s : Sched) (ts : List ℕ)
    → WellFormed s ts
    → IsRound (length ts + length s.waitq) (fill o self at_end s)
unfolding fill
fill-IsRound o self at_end s ts w =
    IsRound-if _ (RunQueue.empty s.runq) _ _
      (λ none_left.
        IsRound-if n (at_end && (length s.waitq == 0)) ended unless_main (λ e. ends invalid_tid-ne)
          λ e.
            IsRound-if n (at_end && (self == main_thread_tid)) ended unless_idle
              (λ e'. ends invalid_tid-ne)
              λ e'.
                IsRound-if n (not o.launch_idle_thread) (some (done exits s)) to_idle
                  (λ e''. ends exits-ne)
                  λ e''.
                    IsRound-guard n (require (not (self == idle_thread_tid))) _
                      (wake_up_idle_thread-IsRound s ts w))
      (λ some_left.
        IsRound-if n
          (o.enforce_non_det_annotations
            && ltb 0 s.n_non_det_wait
            && (self == idle_thread_tid)
            && (RunQueue.size s.runq == 1))
          (RunQueue.front s.runq >>= λ t.
            if t == idle_thread_tid
            then (signal self o.non_det_cv true s >>= λ s'. some (again s'))
            else some (again s))
          (some (again s)) (λ e. wake_waiters ts w some_left) (λ e. goes_on ts w refl))
  where
    n : ℕ
    n = length ts + length s.waitq

    ended : Option Round
    ended = some (done invalid_tid s)

    to_idle : Option Round
    to_idle = require (not (self == idle_thread_tid)) >> wake_up_idle_thread s

    unless_idle : Option Round
    unless_idle = if not o.launch_idle_thread then some (done exits s) else to_idle

    unless_main : Option Round
    unless_main = if at_end && (self == main_thread_tid) then ended else unless_idle

    wake_waiters :
        (ts : List ℕ)
        → WellFormed s ts
        → RunQueue.empty s.runq ≡ false
        → IsRound (length ts + length s.waitq) (
            RunQueue.front s.runq >>= λ t.
            if t == idle_thread_tid
            then (signal self o.non_det_cv true s >>= λ s'. some (again s'))
            else some (again s))
    wake_waiters [] w some_left = let e = empty-Repr s.runq [] w.repr in cc
    wake_waiters (x ∷ xs) w some_left = rw (front-Repr s.runq x xs w.repr) (
        IsRound-if _ (x == idle_thread_tid) _ _ (λ e. signal-IsRound self o.non_det_cv s x xs w)
          (λ e. goes_on (x ∷ xs) w refl))

-- The head off the run queue, and the set under the bound on nondeterminism as it may be.
pub pop-WellFormed :
    (s : Sched) (t : ℕ) (ts : List ℕ) (q : RunQueue) (n : NonDetThreadSet.NonDetThreadSet)
    → WellFormed s (t ∷ ts)
    → Repr q ts
    → SameStatus s.runq q
    → WellFormed (record s { runq = q; non_det_thds = n }) ts
pop-WellFormed s t ts q n w r same = record {
  repr = r;
  distinct = w.distinct;
  apart = λ u h. ground (arith, w.apart u h);
  live = λ u h. IsLive-same s.runq q u same (w.live u h);
  wait_range = w.wait_range;
  run_range = λ u h. w.run_range u (ground (arith, h));
  at_rest = λ u h. w.at_rest u (ground (arith, h));
  waiting = w.waiting;
}

pub drop_head-IsRound :
    (o : Options) (e : RunqElem) (s : Sched) (t : ℕ) (ts : List ℕ)
    → WellFormed s (t ∷ ts)
    → IsRound (length ts + length s.waitq) (drop_head o e s)
unfolding drop_head
drop_head-IsRound o e s t ts w =
    let (q, ran, r, same) = pop_front-Repr s.runq t ts w.repr in
    rw ran (
      IsRound-if (length ts + length s.waitq) o.enforce_non_det_clock_bound
        (NonDetThreadSet.insert s.non_det_thds e.tid s.turn_count >>= λ n.
          some (again (record s { runq = q; non_det_thds = n })))
        (some (again (record s { runq = q })))
        (λ b. after (NonDetThreadSet.insert s.non_det_thds e.tid s.turn_count) q r same)
        (λ b. goes_on ts (pop-WellFormed s t ts q s.non_det_thds w r same) refl))
  where
    after :
        (m : Option NonDetThreadSet.NonDetThreadSet) (q : RunQueue)
        → Repr q ts
        → SameStatus s.runq q
        → IsRound
            (length ts + length s.waitq)
            (m >>= λ n. some (again (record s { runq = q; non_det_thds = n })))
    after none q r same = faults
    after (some n) q r same = goes_on ts (pop-WellFormed s t ts q n w r same) refl

pub process_status-IsRound :
    (o : Options) (e : RunqElem) (st : ThdStatus) (s : Sched) (t : ℕ) (ts : List ℕ)
    → WellFormed s (t ∷ ts)
    → s.runq.tid_map e.tid ≡ some e
    → IsRound (length ts + length s.waitq) (process_status o e st s)
unfolding process_status
process_status-IsRound o e inter_pro_stop s t ts w at = drop_head-IsRound o e s t ts w
process_status-IsRound o e running_reg s t ts w at = ends (turn_to-ne e.tid)
process_status-IsRound o e running_inter_pro s t ts w at = ends (turn_to-ne e.tid)
process_status-IsRound o e runnable s t ts w at =
    let (q, ran, r, one) = set_status-Repr s.runq e.tid e running_reg (t ∷ ts) w.repr at in
    rw ran (ends (turn_to-ne e.tid))

pub process_head-nil : (o : Options) (s : Sched) → WellFormed s [] → process_head o s ≡ none
unfolding process_head
process_head-nil o s w = rw (empty-Repr s.runq [] w.repr) refl

pub process_head-IsRound :
    (o : Options) (s : Sched) (t : ℕ) (ts : List ℕ)
    → WellFormed s (t ∷ ts)
    → IsRound (length ts + length s.waitq) (process_head o s)
unfolding process_head
process_head-IsRound o s t ts w =
    let (e, ran, at, same) = front_elem-Repr s.runq t ts w.repr in
    rw (empty-cons s.runq t ts w.repr, ran)
      (process_status-IsRound o e e.status s t ts w (rw same at))

pub fst_of_some :
    (x y : Next) (a b : Sched) → ◌≡◌ {A = Option (Next × Sched)} (some (x, a)) (some (y, b)) → x ≡ y
fst_of_some x y a b h = cc
