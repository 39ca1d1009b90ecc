-- ===== src/Runtime/Blocking/Laws.antt =====
-- A call between processes of lib/runtime/record-runtime.cpp: its begin, by the status of its thread, and
-- its end by a thread that is stopped.
use xtern.Base.{ℕ, ◌≡◌, refl, sym, subst, Bool, true, false, some, List, if◌then◌else◌, has}
use xtern.RunQueue.{runnable, running_reg, running_inter_pro, inter_pro_stop}
use xtern.Scheduler.State.{Sched}
use xtern.Scheduler.Waiting.Signal.{WellFormed}
use xtern.Scheduler.Waiting
use xtern.Scheduler.Turn
use xtern.Scheduler.Turn.{entered}
use xtern.Scheduler.Turn.Passing.{HasStatus}
use xtern.Scheduler.Turn.Leaving.{
  Restated, inter_pro_start-Restated, inter_pro_end-Restated, wakeup-Asks,
}
use xtern.Runtime.State.{Libc, LibcCall, RtOptions, Rt, returned, with_sched, libc, bypasses}
use xtern.Runtime.Regions.{block_timer_start, block_timer_end}
use xtern.Runtime.Blocking.{stopped_inside, at_head, blocking_start, blocking_finish}

module _ (c : Libc) (o : RtOptions) where
  block_timer_start-enters :
      (self : ℕ) (r : Rt c) (is_head : Bool) (s : Sched)
      → bypasses c o self r ≡ false
      → Turn.inter_pro_start self r.sched ≡ some (is_head, s)
      → (r' : Rt c) × (block_timer_start c o self r ≡ some (some is_head, r')) × (r'.sched ≡ s)
  unfolding block_timer_start
  block_timer_start-enters self r is_head s outside enters = rw outside (rw enters (_, refl, refl))

  -- Outside nondeterministic regions, in a consistent state, a blocking call begins by the status of
  -- its thread. One that can run but has no turn is stopped where it stands, with the status
  -- INTER_PRO_STOP, and is inside the call. One that runs gets the status RUNNING_INTER_PRO and waits
  -- for its turn to leave the queue. The status of the other threads, and the run queue's order, stay.
  pub blocking_start-Restated :
      (k : LibcCall) (self : ℕ) (r : Rt c) (ts : List ℕ) (runs : Bool)
      → bypasses c o self r ≡ false
      → WellFormed r.sched ts
      → HasStatus r.sched self (if runs then running_reg else runnable)
      → (r' : Rt c) × (blocking_start c o k self r
          ≡ some (if runs then at_head r' else stopped_inside r'))
        × Restated self (if runs then running_inter_pro else inter_pro_stop) r.sched r'.sched ts
  unfolding blocking_start
  blocking_start-Restated k self r ts true outside w has_st =
      let (q, ran, after) =
        inter_pro_start-Restated self r.sched ts running_reg running_inter_pro true w has_st refl in
      let (r', started, same) =
        block_timer_start-enters self r true (record r.sched { runq = q }) outside ran in
      (
        r',
        rw started refl,
        subst (λ s. Restated self running_inter_pro r.sched s ts) (sym same) after,
      )
  blocking_start-Restated k self r ts false outside w has_st =
      let (q, ran, after) =
        inter_pro_start-Restated self r.sched ts runnable inter_pro_stop false w has_st refl in
      let (r', started, same) =
        block_timer_start-enters self r false (record r.sched { runq = q }) outside ran in
      (r', rw started refl, subst (λ s. Restated self inter_pro_stop r.sched s ts) (sym same) after)

  -- The end of a blocking call of a stopped thread, which may have been dropped from the run queue
  -- meanwhile: it returns what the C library's call has returned, as the runtime keeps it. The thread
  -- can run and is in the set of those that are back, whose flag is set. The queue is as it was.
  pub blocking_finish-Asks :
      (kept : ℕ → ℕ) (k : LibcCall) (self : ℕ) (r : Rt c) (ts : List ℕ)
      → WellFormed r.sched ts
      → HasStatus r.sched self inter_pro_stop
      → (r' : Rt c) × (blocking_finish c o kept k self r ≡ some (returned (kept (libc c k r).0) r'))
        × Restated self runnable r.sched r'.sched ts
        × (has self r'.sched.inter_pro_wakeup_tids ≡ true)
        × (r'.sched.inter_pro_wakeup_flag ≡ true)
  unfolding blocking_finish block_timer_end Waiting.wakeup
  blocking_finish-Asks kept k self r ts w has_st =
      let (q, ran, (w', one)) = inter_pro_end-Restated self r.sched ts w has_st in
      let s : Sched = record r.sched { runq = q } in
      let (w'', asks, flag, same) = wakeup-Asks self s ts w' in
      (with_sched c (libc c k r).1 (Waiting.wakeup self s), rw ran refl, (w'', one), asks, flag)
