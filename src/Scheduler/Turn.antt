-- ===== src/Scheduler/Turn.antt =====
-- How the turn is passed in lib/runtime/record-scheduler.cpp: nextRunnable with wakeUpIdleThread,
-- next, getTurn, putTurn with checkNonDetBound, wait, block, interProStart and interProEnd. A result
-- `none` is a failed assertion or a null pointer; of getTurn it is a thread that has to go on
-- waiting. The code between getTurn and the next call is not part of a step: `wait` is the two steps
-- before and after the thread sleeps.
pub mod RoundEnds
pub mod Runnable
pub mod RoundRobin
pub mod Passing
pub mod Leaving
pub mod PutTurn
pub mod Rejoining
pub mod Rounds
pub mod Wait
pub mod Block
pub mod Quiet
pub mod Handing
use xtern.Base.{
  ℕ, zero, suc, ◌+◌, ◌%◌, Bool, true, false, ◌&&◌, not, Option, none, some, List, [], ◌∷◌, ◌++◌,
  length, ltb, ◌==◌, if◌then◌else◌, ◌>>=◌, ◌>>◌, require,
}
use xtern.RunQueue
use xtern.RunQueue.{
  RunQueue, RunqElem, ThdStatus, runnable, running_reg, running_inter_pro, inter_pro_stop, deref,
}
use xtern.TidMap
use xtern.TidMap.{main_thread_tid, idle_thread_tid}
use xtern.NonDetThreadSet
use xtern.Scheduler.State.{Options, WaitT, Sched, at_wait, post, wait, forever, unsigned_mod}
use xtern.Scheduler.Waiting.{Swept, sweep, with_waitq, signal, check_wakeup, inc_turn_count}

-- How `nextRunnable` ends: with the thread whose turn is next, with InvalidTid, by exit(1) or by
-- pthread_exit(0). The last one is the model's, where the rounds run out.
pub data Next : Type 0 where
  turn_to : ℕ → Next
  invalid_tid exits thread_exits out_of_fuel : Next

pub data Round : Type 0 where
  done : Next → Sched → Round
  again : Sched → Round

-- The test of `wakeUpIdleThread`.
abbrev pub is_idle : ℕ → WaitT → Bool
is_idle t w = t == idle_thread_tid

-- The assertion that the idle thread was found.
abbrev pub found : List ℕ → Option (Unit {0})
found [] = none
found (t ∷ ts) = some tt

pub wake_up_idle_thread : Sched → Option Round
wake_up_idle_thread s =
    if s.idle_done
    then some (done thread_exits s)
    else (sweep is_idle 0 false s.waitq s >>= λ r.
        found r.woken >> require (not (RunQueue.empty r.sched.runq)) >> some (again (with_waitq r)))

-- The first half of a round: something to run is put into an empty run queue.
pub fill : Options → ℕ → Bool → Sched → Option Round
fill o self at_end s =
    if RunQueue.empty s.runq
    then if at_end && (length s.waitq == 0)
      then some (done invalid_tid s)
      else if at_end && (self == main_thread_tid)
      then some (done invalid_tid s)
      else if not o.launch_idle_thread
      then some (done exits s)
      else (require (not (self == idle_thread_tid)) >> wake_up_idle_thread s)
    else if o.enforce_non_det_annotations
        && ltb 0 s.n_non_det_wait
        && (self == idle_thread_tid)
        && (RunQueue.size s.runq == 1)
    then (RunQueue.front s.runq >>= λ t.
        if t == idle_thread_tid
        then (signal self o.non_det_cv true s >>= λ s'. some (again s'))
        else some (again s))
    else some (again s)

-- A head that is blocked in an operation between processes leaves the queue.
pub drop_head : Options → RunqElem → Sched → Option Round
drop_head o e s = do
  q ← RunQueue.pop_front s.runq
  if o.enforce_non_det_clock_bound
      then (NonDetThreadSet.insert s.non_det_thds e.tid s.turn_count >>= λ n.
          some (again (record s { runq = q; non_det_thds = n })))
      else some (again (record s { runq = q }))

-- The second half: the head element, by its status.
pub process_status : Options → RunqElem → ThdStatus → Sched → Option Round
process_status o e inter_pro_stop s = drop_head o e s
process_status o e runnable s = do
  q ← RunQueue.set_status s.runq e.tid running_reg
  some (done (turn_to e.tid) (record s { runq = q }))
process_status o e running_reg s = some (done (turn_to e.tid) s)
process_status o e running_inter_pro s = some (done (turn_to e.tid) s)

pub process_head : Options → Sched → Option Round
process_head o s = do
  require (not (RunQueue.empty s.runq))
  e ← RunQueue.front_elem s.runq
  process_status o e e.status s

abbrev pub proceed : Options → Round → Option Round
proceed o (done n s) = some (done n s)
proceed o (again s) = process_head o s

pub next_runnable : Options → ℕ → Bool → ℕ → Sched → Option (Next × Sched)
next_runnable o self at_end zero s = some (out_of_fuel, s)
next_runnable o self at_end (suc fuel) s = fill o self at_end s >>= λ r. proceed o r >>= λ r'.
    elim r' [ done n s' ↦ some (n, s') | again s' ↦ next_runnable o self at_end fuel s' ]

-- Each round but the last takes a thread off the two queues.
abbrev pub rounds : Sched → ℕ
rounds s = RunQueue.size s.runq + length s.waitq + 2

-- What the head does to its own status when it gives up the turn in `next`.
abbrev pub given_up : ThdStatus → Option ThdStatus
given_up running_reg = some runnable
given_up running_inter_pro = some inter_pro_stop
given_up runnable = none
given_up inter_pro_stop = none

pub leave_head : ℕ → Sched → Option Sched
leave_head self s = do
  e ← RunQueue.get_my_elem s.runq self
  st ← given_up e.status
  q ← RunQueue.set_status s.runq self st
  q' ← RunQueue.pop_front q
  some (record s { runq = q' })

-- The end of `next`: the wait record of the chosen thread is posted.
pub hand_over : Options → Next × Sched → Option (Next × Sched)
hand_over o (turn_to t, s) = do
  require (ltb t s.tids.nthread)
  some (turn_to t, record s { waits = at_wait s.waits t (post o (s.waits t)) })
hand_over o (n, s) = some (n, s)

pub next : Options → ℕ → Bool → Bool → Sched → Option (Next × Sched)
next o self at_end popped s = do
  s₁ ← (if popped then some s else leave_head self s)
  s₂ ← check_wakeup o s₁
  r ← next_runnable o self at_end (rounds s₂) s₂
  hand_over o r

-- `getTurn()`; `none` while the thread has to wait, or where its number is out of range.
unfoldable pub get_turn : Options → ℕ → Sched → Option Sched
get_turn o self s = do
  require (ltb self s.tids.nthread)
  w ← wait o (s.waits self)
  some (record s { waits = at_wait s.waits self w })

-- The condition under which the deterministic part is blocked: the oldest thread of the set is put
-- back into the run queue.
pub check_non_det_bound : Options → Sched → Option Sched
check_non_det_bound o s =
    if o.enforce_non_det_clock_bound
    then (NonDetThreadSet.size s.non_det_thds >>= λ n.
        if ltb 0 n
        then (NonDetThreadSet.first_thread s.non_det_thds >>= λ t.
            NonDetThreadSet.get_clock s.non_det_thds t >>= λ clock.
            if ltb ((clock + o.non_det_clock_bound) % unsigned_mod) s.turn_count
            then (RunQueue.push_back s.runq t >>= λ q.
                NonDetThreadSet.erase s.non_det_thds t >>= λ n'.
                some (record s { runq = q; non_det_thds = n' }))
            else some s)
        else some s)
    else some s

abbrev pub has_turn : ThdStatus → Bool
has_turn running_reg = true
has_turn _ = false

-- `putTurn()` by a thread that goes on: to the end of the queue.
pub to_the_end : ℕ → Sched → Option Sched
to_the_end self s = do
  e ← RunQueue.get_my_elem s.runq self
  require (has_turn e.status)
  q ← RunQueue.set_status s.runq self runnable
  q' ← RunQueue.pop_front q
  q'' ← RunQueue.push_back q' self
  some (record s { runq = q'' })

-- `putTurn(true)`: the joiners are signalled and the thread becomes a zombie. `th` is its pthread id.
pub end_thread : ℕ → ℕ → Sched → Option Sched
end_thread self th s = do
  s' ← signal self th false s
  m ← TidMap.zombify s'.tids self th
  some (record s' { tids = m })

pub put_turn : Options → ℕ → ℕ → Bool → Sched → Option (Next × Sched)
put_turn o self th at_end s = do
  require (ltb self s.tids.nthread)
  front ← RunQueue.front s.runq
  require (self == front)
  s₁ ← (if at_end then end_thread self th s else to_the_end self s)
  s₂ ← check_non_det_bound o s₁
  next o self at_end (not at_end) s₂

-- `wait(chan, nturn)` up to the sleep, and its return value after it.
pub wait_begin : Options → ℕ → ℕ → ℕ → Sched → Option (Next × Sched)
wait_begin o self chan nturn s = do
  (turn, s₁) ← inc_turn_count o s
  require (ltb self s₁.tids.nthread)
  front ← RunQueue.front s₁.runq
  require (self == front)
  next o self false false (record s₁ {
    waits = at_wait s₁.waits self (record (s₁.waits self) { chan = chan; timeout = nturn });
    waitq = s₁.waitq ++ self ∷ [];
  })

unfoldable pub wait_end : Options → ℕ → Sched → Option (ℕ × Sched)
wait_end o self s = do s' ← get_turn o self s; some ((s'.waits self).status, s')

-- `block()` behind its getTurn: the thread leaves the run queue for a blocking operation.
pub block : Options → ℕ → Sched → Option (ℕ × Next × Sched)
block o self s = do
  s₁ ←
      (if o.enforce_non_det_clock_bound
        then (NonDetThreadSet.insert s.non_det_thds self s.turn_count >>= λ n.
            some (record s { non_det_thds = n }))
        else some s)
  require (ltb self s₁.tids.nthread)
  front ← RunQueue.front s₁.runq
  require (self == front)
  (ret, s₂) ← inc_turn_count o s₁
  (n, s₃) ← next o self false false s₂
  some (ret, n, s₃)

-- The change of status on entering an operation between processes, and whether the thread is the
-- head, which has the turn or is about to get it.
abbrev pub entered : ThdStatus → Option (ThdStatus × Bool)
entered runnable = some (inter_pro_stop, false)
entered running_reg = some (running_inter_pro, true)
entered running_inter_pro = none
entered inter_pro_stop = none

pub inter_pro_start : ℕ → Sched → Option (Bool × Sched)
inter_pro_start self s = do
  e ← RunQueue.get_my_elem s.runq self
  (st, is_head) ← entered e.status
  q ← RunQueue.set_status s.runq self st
  some (is_head, record s { runq = q })

abbrev pub stopped : ThdStatus → Option (Unit {0})
stopped inter_pro_stop = some tt
stopped _ = none

pub inter_pro_end : ℕ → Sched → Option (Bool × Sched)
inter_pro_end self s = do
  e ← RunQueue.get_my_elem s.runq self
  stopped e.status
  q ← RunQueue.set_status s.runq self runnable
  some (true, record s { runq = q })
