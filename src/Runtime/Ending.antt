-- ===== src/Runtime/Ending.antt =====
-- SCHED_TIMER_END of lib/runtime/record-runtime.cpp, the end of every call that has the turn.
use xtern.Base.{ℕ, ◌≡◌, refl, ◌∙◌, ap, true, false, Option, some, List, ◌∷◌, ◌++◌}
use xtern.RunQueue.{running_reg}
use xtern.Scheduler.State.{Sched}
use xtern.Scheduler.Waiting.{inc_turn_count}
use xtern.Scheduler.Waiting.Waking.{chosen, others}
use xtern.Scheduler.Waiting.Signal.{WellFormed, Woke}
use xtern.Scheduler.Waiting.Count.{ticked, is_due, inc_turn_count-Woke}
use xtern.Scheduler.Turn.{Next, turn_to, put_turn}
use xtern.Scheduler.Turn.RoundRobin.{IsPlain}
use xtern.Scheduler.Turn.Passing.{HasStatus}
use xtern.Scheduler.Turn.PutTurn.{Passes, put_turn-RoundRobin}
use xtern.Runtime.State.{Libc, RtOptions, Rt, Seg, returned, with_sched, sched_timer_end}

-- A call that ends in the state `s`, with `ts` behind its thread: the turn is counted, the threads
-- whose timeout lies before the new count stand behind `ts`, the turn passes on, and the call has
-- returned `ret`.
abbrev pub Finishes :
    (c : Libc) → RtOptions → ℕ → ℕ → ℕ → Sched → List ℕ → Rt c → Option (Seg c) → Type 0
Finishes c o self th ret s ts r m =
    (s₁ : Sched) × Woke o.sched.etimedout (ticked s) (self ∷ ts) (chosen (is_due s) true s.waitq)
      (others (is_due s) true s.waitq) s₁
    × (passes : Passes o.sched self s₁ (ts ++ chosen (is_due s) true s.waitq)
        (put_turn o.sched self th false s₁))
    × (m ≡ some (returned ret (with_sched c r passes.2)))

sched_timer_end-run :
    (c : Libc) (o : RtOptions) (self th ret turn : ℕ) (r : Rt c) (s s' : Sched) (n : Next)
    → inc_turn_count o.sched r.sched ≡ some (turn, s)
    → put_turn o.sched self th false s ≡ some (n, s')
    → sched_timer_end c o self th ret r ≡ some (returned ret (with_sched c r s'))
unfolding sched_timer_end
sched_timer_end-run c o self th ret turn r s s' n counted ran = rw counted (rw ran refl)

pub sched_timer_end-Finishes :
    (c : Libc) (o : RtOptions) (self th ret : ℕ) (r : Rt c) (ts : List ℕ)
    → IsPlain o.sched
    → WellFormed r.sched (self ∷ ts)
    → HasStatus r.sched self running_reg
    → r.sched.inter_pro_wakeup_flag ≡ false
    → Finishes c o self th ret r.sched ts r (sched_timer_end c o self th ret r)
sched_timer_end-Finishes c o self th ret r ts plain w st idle =
    let (s₁, counted, woke) = inc_turn_count-Woke o.sched r.sched (self ∷ ts) w idle in
    let passes =
      put_turn-RoundRobin o.sched self th s₁ (ts ++ chosen (is_due r.sched) true r.sched.waitq)
        plain woke.formed (woke.same self ∙ st)
        (ap (λ z. z.inter_pro_wakeup_flag) woke.frame ∙ idle) in
    (
      s₁,
      woke,
      passes,
      sched_timer_end-run c o self th ret r.sched.turn_count r s₁ passes.2 (turn_to passes.0)
          counted passes.3,
    )
