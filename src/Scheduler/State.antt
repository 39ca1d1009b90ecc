-- ===== src/Scheduler/State.antt =====
-- The state of the round-robin scheduler (struct RRScheduler and its bases Scheduler, Serializer and
-- TidMap in include/tern/runtime/scheduler.h and include/tern/runtime/record-scheduler.h), the
-- options that it reads, and its per-thread wait records.
use xtern.Base.{
  ℕ, ◌+◌, ◌-◌, ◌^◌, Bool, true, false, Option, none, some, List, ltb, ◌==◌, if◌then◌else◌,
}
use xtern.RunQueue.{RunQueue}
use xtern.TidMap.{TidMap}
use xtern.NonDetThreadSet.{NonDetThreadSet}

-- The modulus of `unsigned`.
abbrev pub unsigned_mod : ℕ
unsigned_mod = 2 ^ 32

-- FOREVER, which is UINT_MAX.
abbrev pub forever : ℕ
forever = 2 ^ 32 - 1

-- A channel is an address; this one is NULL.
abbrev pub null : ℕ
null = 0

-- What the scheduler reads and does not change: the options of default.options, the error number of
-- <errno.h>, the addresses of two condition variables, and the order in which an iterator of the
-- hash set of woken threads visits it.
pub record Options : Type 0 where
  pub enforce_turn_type : ℕ
  pub launch_idle_thread : Bool
  pub enforce_non_det_annotations : Bool
  pub enforce_non_det_clock_bound : Bool
  pub non_det_clock_bound : ℕ
  pub etimedout : ℕ
  pub non_det_cv : ℕ
  pub idle_cond : ℕ
  pub hash_order : List ℕ → List ℕ

pub record WaitT : Type 0 where
  pub sem : ℕ
  pub chan : ℕ
  pub timeout : ℕ
  pub status : ℕ
  pub waken_up : Bool

-- `wait_t::reset(st)`.
abbrev pub reset : ℕ → WaitT → WaitT
reset st w = record w { chan = null; timeout = forever; status = st; waken_up = false }

-- `wait_t::post()`: by semaphore, or by the flag in the hybrid and the busy relay.
abbrev pub post : Options → WaitT → WaitT
post o w =
    if o.enforce_turn_type == 1 then record w { sem = w.sem + 1 } else record w { waken_up = true }

-- `wait_t::wait()`: `none` while the thread has to go on waiting. The hybrid relay first spins and
-- then sleeps on its condition variable, the busy relay only spins; both end when the flag is set,
-- and clear it.
abbrev pub wait : Options → WaitT → Option WaitT
wait o w =
    if o.enforce_turn_type == 1
    then if ltb 0 w.sem then some (record w { sem = w.sem - 1 }) else none
    else if w.waken_up
    then some (record w { waken_up = false })
    else none

pub record Sched : Type 0 where
  pub tids : TidMap
  pub runq : RunQueue
  pub waitq : List ℕ
  pub waits : ℕ → WaitT
  pub turn_count : ℕ
  pub non_det_thds : NonDetThreadSet
  pub inter_pro_wakeup_tids : List ℕ
  pub inter_pro_wakeup_flag : Bool
  pub n_non_det_wait : ℕ
  pub idle_done : Bool

-- `waits[t]` replaced.
abbrev pub at_wait : (ℕ → WaitT) → ℕ → WaitT → ℕ → WaitT
at_wait f t w u = if t == u then w else f u
