-- ===== src/Scheduler/Exclusion.antt =====
-- The threads of a process over one scheduler of lib/runtime/record-scheduler.cpp, interleaved in any
-- order. A step is one call of the scheduler, or the part of a call up to its sleep: `wait` and `block`
-- are cut at their getTurn. A thread holds the turn from the return of a getTurn until it gives the
-- turn up. The calls marked there as made with the turn are made by a thread that holds it, others by
-- any thread at any time.
pub mod Safety
pub mod First
use xtern.Base.{ℕ, ◌≡◌, Bool, true, false, Option, some, ◌==◌, if◌then◌else◌}
use xtern.TidMap
use xtern.Scheduler.State.{Options, Sched}
use xtern.Scheduler.Waiting.{signal, inc_turn_count, wakeup}
use xtern.Scheduler.Turn.{
  Next, get_turn, put_turn, wait_begin, block, inter_pro_start, inter_pro_end,
}
use xtern.Scheduler.Threads.{init, create, idle_thread_cond_wait}

pub record System : Type 0 where
  pub holds : ℕ → Bool
  pub sched : Sched

abbrev pub mark : (ℕ → Bool) → ℕ → Bool → ℕ → Bool
mark h t b u = if t == u then b else h u

-- A state of the scheduler in which nothing has changed but the holders of the turn.
abbrev pub took : System → ℕ → Sched → System
took x t s = record { holds = mark x.holds t true; sched = s }

abbrev pub gave : System → ℕ → Sched → System
gave x t s = record { holds = mark x.holds t false; sched = s }

abbrev pub went_on : System → Sched → System
went_on x s = record x { sched = s }

pub data Step (o : Options) (x : System) : System → Type 0 where
  gets : (t : ℕ) (s : Sched) → get_turn o t x.sched ≡ some s → Step o x (took x t s)
  puts :
      (t th : ℕ) (at_end : Bool) (n : Next) (s : Sched)
      → x.holds t ≡ true
      → put_turn o t th at_end x.sched ≡ some (n, s)
      → Step o x (gave x t s)
  waits :
      (t chan nturn : ℕ) (n : Next) (s : Sched)
      → x.holds t ≡ true
      → wait_begin o t chan nturn x.sched ≡ some (n, s)
      → Step o x (gave x t s)
  blocks :
      (t ret : ℕ) (n : Next) (s : Sched)
      → x.holds t ≡ true
      → block o t x.sched ≡ some (ret, n, s)
      → Step o x (gave x t s)
  idles :
      (t th : ℕ) (n : Next) (s : Sched)
      → x.holds t ≡ true
      → idle_thread_cond_wait o t th x.sched ≡ some (n, s)
      → Step o x (gave x t s)
  signals :
      (t chan : ℕ) (all : Bool) (s : Sched)
      → x.holds t ≡ true
      → signal t chan all x.sched ≡ some s
      → Step o x (went_on x s)
  counts :
      (t turn : ℕ) (s : Sched)
      → x.holds t ≡ true
      → inc_turn_count o x.sched ≡ some (turn, s)
      → Step o x (went_on x s)
  creates :
      (t th : ℕ) (s : Sched)
      → x.holds t ≡ true
      → create t th x.sched ≡ some s
      → Step o x (went_on x s)
  joins :
      (t th : ℕ)
      → x.holds t ≡ true
      → Step o x (went_on x (record x.sched { tids = TidMap.reap x.sched.tids th }))
  -- nNonDetWait, which nonDetStart writes.
  counts_waiters :
      (t n : ℕ) → x.holds t ≡ true → Step o x (went_on x (record x.sched { n_non_det_wait = n }))
  enters :
      (t : ℕ) (b : Bool) (s : Sched)
      → inter_pro_start t x.sched ≡ some (b, s)
      → Step o x (went_on x s)
  leaves :
      (t : ℕ) (b : Bool) (s : Sched)
      → inter_pro_end t x.sched ≡ some (b, s)
      → Step o x (went_on x s)
  wakes : (t : ℕ) → Step o x (went_on x (wakeup t x.sched))
  -- The end of the program, which tells the idle thread.
  ends : Step o x (went_on x (record x.sched { idle_done = true }))

-- A process from the constructor on, in its main thread `th`.
pub data Reach (o : Options) (th : ℕ) : System → Type 0 where
  start : (s : Sched) → init o th ≡ some s → Reach o th (record { holds = λ t. false; sched = s })
  later : {x y : System} → Reach o th x → Step o x y → Reach o th y
