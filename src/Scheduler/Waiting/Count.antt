-- ===== src/Scheduler/Waiting/Count.antt =====
-- incTurnCount of lib/runtime/record-scheduler.cpp.
use xtern.Base.{
  ℕ, ◌+◌, ◌-◌, ◌%◌, ◌^◌, ◌<◌, ◌≡◌, refl, arith, ◌∙◌, ap, Bool, true, false, some, List, ltb,
}
use xtern.Scheduler.State.{Options, Sched, unsigned_mod}
use xtern.Scheduler.Waiting.{inc_turn_count, get_turn_count}
use xtern.Scheduler.Waiting.Waking.{chosen, others}
use xtern.Scheduler.Waiting.Signal.{WellFormed, Woke, check_wakeup-idle, fire_timeouts-Woke}

-- The state with the next turn counted, and the test of a timeout in it.
abbrev pub ticked : Sched → Sched
ticked s = record s { turn_count = (s.turn_count + 1) % unsigned_mod }

abbrev pub is_due : Sched → ℕ → Bool
is_due s t = ltb (s.waits t).timeout ((s.turn_count + 1) % unsigned_mod)

ticked-WellFormed : (s : Sched) (ts : List ℕ) → WellFormed s ts → WellFormed (ticked s) ts
ticked-WellFormed s ts w = record {
  repr = w.repr;
  distinct = w.distinct;
  apart = w.apart;
  live = w.live;
  wait_range = w.wait_range;
  run_range = w.run_range;
  at_rest = w.at_rest;
  waiting = w.waiting;
}

-- incTurnCount, where no thread is back from a blocking operation: the count before, and the threads
-- woken whose timeout lies before the new count.
pub inc_turn_count-Woke :
    (o : Options) (s : Sched) (ts : List ℕ)
    → WellFormed s ts
    → s.inter_pro_wakeup_flag ≡ false
    → (s' : Sched) × (inc_turn_count o s ≡ some (s.turn_count, s'))
      × Woke o.etimedout
          (ticked s)
          ts
          (chosen (is_due s) true s.waitq)
          (others (is_due s) true s.waitq)
          s'
unfolding inc_turn_count
inc_turn_count-Woke o s ts w idle =
    let (s', ran, woke) = fire_timeouts-Woke o (ticked s) ts (ticked-WellFormed s ts w) in
    let idle' : s'.inter_pro_wakeup_flag ≡ false =
      ap (λ z. z.inter_pro_wakeup_flag) woke.frame ∙ idle in
    (s', rw (ran, inc_turn_count) (rw (check_wakeup-idle o s' idle') refl), woke)

-- Once a turn has been counted, and before the count wraps around, getTurnCount is one less.
pub get_turn_count-pred :
    (s : Sched) → 0 < s.turn_count → s.turn_count < 2 ^ 32 → get_turn_count s ≡ s.turn_count - 1
unfolding get_turn_count
get_turn_count-pred s pos small = omega arith
