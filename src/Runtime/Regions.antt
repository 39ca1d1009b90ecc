-- ===== src/Runtime/Regions.antt =====
-- Nondeterministic regions, blocking operations and the life of threads in
-- lib/runtime/record-runtime.cpp.
use xtern.Base.{
  ℕ, ◌+◌, ◌-◌, ◌^◌, Bool, true, false, not, Option, none, some, ltb, leb, if◌then◌else◌, ◌>>=◌,
  ◌>>◌, require,
}
use xtern.RunQueue
use xtern.TidMap
use xtern.TidMap.{main_thread_tid}
use xtern.Scheduler.State.{forever}
use xtern.Scheduler.Waiting
use xtern.Scheduler.Turn
use xtern.Scheduler.Turn.{Next}
use xtern.Scheduler.Threads
use xtern.Runtime.State.{
  Libc, RtOptions, Rt, Seg, returned, asleep, with_sched, bypasses, replace, sched_timer_start,
  sched_timer_end, sync_wait,
}

module _ (c : Libc) (o : RtOptions) where
  abbrev counting : ℕ → Rt c → Rt c
  counting n r = with_sched c r (record r.sched { n_non_det_wait = n })

  -- nonDetStart up to the sleep on nonDetCV, which lasts until the run queue is empty.
  pub non_det_start : ℕ → Rt c → Option (Seg c)
  non_det_start self r = do
    r₁ ← sched_timer_start c o self r
    r₂ ← sync_wait c o self o.sched.non_det_cv forever (
        counting (r₁.sched.n_non_det_wait + 1) (record r₁ {
          stat =
              (if o.record_runtime_stat
                then record r₁.stat { n_non_det_regions = r₁.stat.n_non_det_regions + 1 }
                else r₁.stat);
        }))
    some (asleep r₂)

  pub non_det_start_woken : ℕ → ℕ → Rt c → Option (Seg c)
  non_det_start_woken self th r = do
    (status, s) ← Turn.wait_end o.sched self r.sched
    sched_timer_end c o self th 0 (counting (s.n_non_det_wait - 1) (with_sched c r s))

  -- `block()`, with its getTurn.
  pub block_self : ℕ → Rt c → Option (Rt c)
  block_self self r = do
    s ← Turn.get_turn o.sched self r.sched
    (ret, n, s') ← Turn.block o.sched self s
    some (with_sched c r s')

  -- The end of nonDetStart: the thread leaves the run queue, and is inside the region.
  pub non_det_start_enter : ℕ → Rt c → Option (Rt c)
  non_det_start_enter self r = do
    r' ← block_self self r
    require (not (r'.in_non_det self))
    some (record r' { in_non_det = replace r'.in_non_det self true })

  pub non_det_end : ℕ → Rt c → Option (Rt c)
  non_det_end self r = do
    require o.sched.enforce_non_det_annotations
    require (r.in_non_det self)
    some (record r {
      in_non_det = replace r.in_non_det self false;
      sched = Waiting.wakeup self r.sched;
    })

  -- `nonDetBarrierEnd(bar_id, cnt)`, which uses its arguments with DBUG only.
  pub non_det_barrier_end : ℕ → ℕ → ℕ → Rt c → Option (Rt c)
  non_det_barrier_end bar_id cnt self r = do
    require o.sched.enforce_non_det_annotations
    require (r.in_non_det self)
    some (record r {
      in_non_det = replace r.in_non_det self false;
      sched = Waiting.wakeup self r.sched;
    })

  -- BLOCK_TIMER_START, of an operation between processes. `none` stands for a thread inside a
  -- nondeterministic region, which makes the real call at once. A thread at the head gives up its
  -- turn (the second step, `block_self`, which waits for it); any other is stopped where it stands.
  unfoldable pub block_timer_start : ℕ → Rt c → Option (Option Bool × Rt c)
  block_timer_start self r =
      let r' : Rt c = record r {
        stat =
            (if o.record_runtime_stat
              then record r.stat { n_inter_proc_sync_op = r.stat.n_inter_proc_sync_op + 1 }
              else r.stat);
      } in
      if bypasses c o self r
      then some (none, r')
      else (Turn.inter_pro_start self r'.sched >>= λ (is_head, s).
          some (some is_head, with_sched c r' s))

  -- BLOCK_TIMER_END: the thread can run again, and asks to be queued.
  unfoldable pub block_timer_end : ℕ → Rt c → Option (Rt c)
  block_timer_end self r = do
    (b, s) ← Turn.inter_pro_end self r.sched
    some (with_sched c r (if b then Waiting.wakeup self s else s))

  -- threadBegin behind the hand-over of the thread id.
  pub thread_begin : ℕ → ℕ → Rt c → Option (Seg c)
  thread_begin self th r = sched_timer_start c o self r >>= sched_timer_end c o self th 0

  -- threadEnd, with SCHED_TIMER_THREAD_END.
  pub thread_end : ℕ → ℕ → Rt c → Option (Next × Rt c)
  thread_end self th r = do
    r₁ ← sched_timer_start c o self r
    (turn, s) ← Waiting.inc_turn_count o.sched r₁.sched
    (n, s') ← Turn.put_turn o.sched self th true s
    some (n, with_sched c r₁ s')

  -- pthreadCreate, where the C library has made the thread `new_th`.
  pub pthread_create : ℕ → ℕ → ℕ → Rt c → Option (Seg c)
  pthread_create new_th self th r = do
    r₁ ← sched_timer_start c o self r
    s ← Threads.create self new_th r₁.sched
    sched_timer_end c o self th 0 (with_sched c r₁ s)

  -- The loop of pthreadJoin from its test: the thread is a zombie, or the caller sleeps on it. The
  -- C library's pthread_join of a zombie succeeds.
  pub join_attempt : ℕ → ℕ → ℕ → Rt c → Option (Seg c)
  join_attempt other self th r =
      if TidMap.zombie r.sched.tids other
      then sched_timer_end c o self th 0
          (with_sched c r (record r.sched { tids = TidMap.reap r.sched.tids other }))
      else (sync_wait c o self other forever r >>= λ r'. some (asleep r'))

  pub pthread_join : ℕ → ℕ → ℕ → Rt c → Option (Seg c)
  pthread_join other self th r = sched_timer_start c o self r >>= join_attempt other self th

  pub pthread_join_resume : ℕ → ℕ → ℕ → Rt c → Option (Seg c)
  pthread_join_resume other self th r = do
    (status, s) ← Turn.wait_end o.sched self r.sched
    join_attempt other self th (with_sched c r s)

  -- The two idle operations assert that the turn, as an `int`, is not negative.
  pub idle_sleep : ℕ → ℕ → Rt c → Option (Seg c)
  idle_sleep self th r = do
    s ← Turn.get_turn o.sched self r.sched
    (turn, s₁) ← Waiting.inc_turn_count o.sched s
    require (ltb turn (2 ^ 31))
    (n, s₂) ← Turn.put_turn o.sched self th false s₁
    some (returned 0 (with_sched c r s₂))

  pub idle_cond_wait : ℕ → ℕ → Rt c → Option (Next × Rt c)
  idle_cond_wait self th r = do
    s ← Turn.get_turn o.sched self r.sched
    (turn, s₁) ← Waiting.inc_turn_count o.sched s
    require (ltb turn (2 ^ 31))
    (n, s₂) ←
        (if leb 2 (RunQueue.size s₁.runq)
          then Threads.idle_thread_cond_wait o.sched self th s₁
          else Turn.put_turn o.sched self th false s₁)
    some (n, with_sched c r s₂)
