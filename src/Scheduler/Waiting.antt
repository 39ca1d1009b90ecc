-- ===== src/Scheduler/Waiting.antt =====
-- The wait queue of lib/runtime/record-scheduler.cpp: signal, fireTimeouts, nextTimeout,
-- check_wakeup, incTurnCount, and `selfcheck`, the scheduler's own statement of its invariant.
pub mod Waking
pub mod Sweep
pub mod Signal
pub mod Rejoin
pub mod Count
pub mod Quiet
pub mod Selfcheck
use xtern.Base.{
  ℕ, zero, suc, ◌+◌, ◌-◌, ◌%◌, Bool, true, false, ◌&&◌, ◌||◌, not, Option, none, some, List, [],
  ◌∷◌, ◌++◌, ltb, leb, ◌==◌, if◌then◌else◌, ◌>>=◌, ◌>>◌, require, has,
}
use xtern.RunQueue
use xtern.RunQueue.{RunQueue}
use xtern.NonDetThreadSet
use xtern.Scheduler.State.{Options, WaitT, Sched, reset, at_wait, forever, null, unsigned_mod}

-- The loop of `nextTimeout` over the wait queue.
min_timeout : (ℕ → WaitT) → List ℕ → ℕ → ℕ
min_timeout w [] best = best
min_timeout w (t ∷ ts) best =
    min_timeout w ts (if ltb (w t).timeout best then (w t).timeout else best)

pub next_timeout : Sched → ℕ
unfolding min_timeout
next_timeout s = min_timeout s.waits s.waitq forever

-- The body that signal, fireTimeouts and wakeUpIdleThread share: reset the wait record, and queue
-- the thread to run. (Its removal from the wait queue is by the loop.)
pub wake : ℕ → ℕ → Sched → Option Sched
wake st t s = do
  q ← RunQueue.push_back s.runq t
  some (record s { runq = q; waits = at_wait s.waits t (reset st (s.waits t)) })

-- What the delete-safe loop over the wait queue gives back.
pub record Swept : Type 0 where
  pub sched : Sched
  pub kept : List ℕ
  pub woken : List ℕ

-- The loop from the position of a thread on: each thread whose wait record passes the test is woken
-- with the status `st` and erased; unless `all`, the loop breaks at the first.
pub sweep : (ℕ → WaitT → Bool) → ℕ → Bool → List ℕ → Sched → Option Swept
sweep test st all [] s = some (record { sched = s; kept = []; woken = [] })
sweep test st all (t ∷ ts) s = do
  require (ltb t s.tids.nthread)
  elim (test t (s.waits t)) [
    | true ↦ wake st t s >>= λ s'. elim all [
      | true ↦ sweep test st all ts s' >>= λ r. some (record r { woken = t ∷ r.woken })
      | false ↦ some (record { sched = s'; kept = ts; woken = t ∷ [] })
    ]
    | false ↦ sweep test st all ts s >>= λ r. some (record r { kept = t ∷ r.kept })
  ]

abbrev pub with_waitq : Swept → Sched
with_waitq r = record r.sched { waitq = r.kept }

-- The test of `signal`.
abbrev pub on_chan : ℕ → ℕ → WaitT → Bool
on_chan chan t w = w.chan == chan

-- `signal(chan, all)`, called by the thread `self`. The list of woken threads is returned only in
-- the build with DBUG, and is not modelled.
pub signal : ℕ → ℕ → Bool → Sched → Option Sched
signal self chan all s = do
  require (not (chan == null))
  front ← RunQueue.front s.runq
  require (self == front)
  r ← sweep (on_chan chan) 0 all s.waitq s
  some (with_waitq r)

-- The test of `fireTimeouts`.
abbrev pub timed_out : ℕ → ℕ → WaitT → Bool
timed_out now t w = ltb w.timeout now

pub fire_timeouts : Options → Sched → Option Sched
fire_timeouts o s = do
  r ← sweep (timed_out s.turn_count) o.etimedout true s.waitq s
  some (with_waitq r)

-- One round of the loop of `check_wakeup`: a thread that is not queued is put back, and leaves the
-- set of threads under the bound on nondeterminism.
pub requeue : Options → ℕ → Sched → Option Sched
requeue o t s = do
  q ← RunQueue.push_back s.runq t
  if o.enforce_non_det_clock_bound
      then (NonDetThreadSet.erase s.non_det_thds t >>= λ n.
          some (record s { runq = q; non_det_thds = n }))
      else some (record s { runq = q })

-- The loop of `check_wakeup` over the threads that have returned from a blocking operation.
pub wake_inter_pro : Options → List ℕ → Sched → Option Sched
wake_inter_pro o [] s = some s
wake_inter_pro o (t ∷ ts) s = do
  queued ← RunQueue.is_in s.runq t
  s' ← (if queued then some s else requeue o t s)
  wake_inter_pro o ts s'

pub check_wakeup : Options → Sched → Option Sched
check_wakeup o s =
    if s.inter_pro_wakeup_flag
    then (wake_inter_pro o (o.hash_order s.inter_pro_wakeup_tids) s >>= λ s'.
        some (record s' { inter_pro_wakeup_tids = []; inter_pro_wakeup_flag = false }))
    else some s

-- `wakeup()`, which a thread calls without the turn when it is back from a blocking operation.
unfoldable pub wakeup : ℕ → Sched → Sched
wakeup self s = record s {
  inter_pro_wakeup_tids =
      (if has self s.inter_pro_wakeup_tids
        then s.inter_pro_wakeup_tids
        else self ∷ s.inter_pro_wakeup_tids);
  inter_pro_wakeup_flag = true;
}

-- Returns the count before the increment.
pub inc_turn_count : Options → Sched → Option (ℕ × Sched)
inc_turn_count o s = do
  s₁ ← fire_timeouts o (record s { turn_count = (s.turn_count + 1) % unsigned_mod })
  s₂ ← check_wakeup o s₁
  some (s.turn_count, s₂)

-- `getTurnCount()`, the count of the last turn.
pub get_turn_count : Sched → ℕ
get_turn_count s = (s.turn_count + unsigned_mod - 1) % unsigned_mod

-- The loops of `selfcheck`: no thread id out of range (the code's bound is inclusive) or twice, on
-- the run queue or the wait queue, as `seen` grows; and the wait records of each queue.
no_duplicates : ℕ → List ℕ → List ℕ → Bool
no_duplicates n seen [] = true
no_duplicates n seen (t ∷ ts) = leb t n && not (has t seen) && no_duplicates n (t ∷ seen) ts

at_rest : (ℕ → WaitT) → List ℕ → Bool
at_rest w [] = true
at_rest w (t ∷ ts) = ((w t).chan == null) && ((w t).timeout == forever) && at_rest w ts

is_waiting : (ℕ → WaitT) → List ℕ → Bool
is_waiting w [] = true
is_waiting w (t ∷ ts) = not (((w t).chan == null) && ((w t).timeout == forever)) && is_waiting w ts

-- `selfcheck()`: `none` is the failure of one of its assertions.
pub selfcheck : Sched → Option (Unit {0})
unfolding no_duplicates at_rest is_waiting
selfcheck s = do
  ts ← RunQueue.walk (RunQueue.size s.runq) s.runq s.runq.head
  require (no_duplicates s.tids.nthread [] (ts ++ s.waitq))
  require (at_rest s.waits ts)
  require (is_waiting s.waits s.waitq)
