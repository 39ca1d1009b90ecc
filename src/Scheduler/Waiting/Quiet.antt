-- ===== src/Scheduler/Waiting/Quiet.antt =====
-- The operations on the wait queue in lib/runtime/record-scheduler.cpp hand out no turn.
use xtern.Base.{
  ℕ, Bool, true, false, not, some, List, [], ◌∷◌, arith, ltb, ◌==◌, if◌then◌else◌, Bool-cases, inl,
  inr, require, Every, gives, Every-bind, Every-any, Every-if, Every-weaken,
}
use xtern.RunQueue
use xtern.NonDetThreadSet
use xtern.Scheduler.State.{Options, WaitT, Sched, reset, null}
use xtern.Scheduler.Tokens.{Calm, Calm-refl, Calm-trans, tokens-reset, Calm-at_wait}
use xtern.Scheduler.Waiting.{
  wake, sweep, on_chan, signal, timed_out, fire_timeouts, requeue, wake_inter_pro, check_wakeup,
  wakeup, inc_turn_count,
}

wake-Calm : (o : Options) (st t : ℕ) (s : Sched) → Every (Calm o s) (wake st t s)
unfolding wake
wake-Calm o st t s =
    Every-any (RunQueue.push_back s.runq t) _
      λ q. gives (Calm-at_wait o s t (reset st (s.waits t)) (tokens-reset o st (s.waits t)))

pub sweep-Calm :
    (o : Options) (test : ℕ → WaitT → Bool) (st : ℕ) (all : Bool) (ts : List ℕ) (s : Sched)
    → Every (λ r. Calm o s r.sched) (sweep test st all ts s)
unfolding sweep
sweep-Calm o test st all [] s = gives (Calm-refl o s)
sweep-Calm o test st false (t ∷ ts) s = Every-any (require (ltb t s.tids.nthread)) _ λ ok.
    elim (Bool-cases (test t (s.waits t))) [
      | inl e ↦ rw e (Every-bind (wake st t s) _ (wake-Calm o st t s) λ s' calm. gives calm)
      | inr e ↦ rw e (
          Every-bind (sweep test st false ts s) _ (sweep-Calm o test st false ts s)
            λ r calm. gives calm)
    ]
sweep-Calm o test st true (t ∷ ts) s = Every-any (require (ltb t s.tids.nthread)) _ λ ok.
    elim (Bool-cases (test t (s.waits t))) [
      | inl e ↦ rw e (
          Every-bind (wake st t s) _ (wake-Calm o st t s) λ s' calm.
            Every-bind (sweep test st true ts s') _ (sweep-Calm o test st true ts s')
              λ r calm'. gives (Calm-trans o s s' r.sched calm calm'))
      | inr e ↦ rw e (
          Every-bind (sweep test st true ts s) _ (sweep-Calm o test st true ts s)
            λ r calm. gives calm)
    ]

pub signal-Calm :
    (o : Options) (self chan : ℕ) (all : Bool) (s : Sched)
    → Every (Calm o s) (signal self chan all s)
unfolding signal
signal-Calm o self chan all s = Every-any (require (not (chan == null))) _ λ ok.
    Every-any (RunQueue.front s.runq) _ λ front. Every-any (require (self == front)) _ λ ok'.
      Every-bind (sweep (on_chan chan) 0 all s.waitq s) _
        (sweep-Calm o (on_chan chan) 0 all s.waitq s) λ r calm. gives calm

pub fire_timeouts-Calm : (o : Options) (s : Sched) → Every (Calm o s) (fire_timeouts o s)
unfolding fire_timeouts
fire_timeouts-Calm o s =
    Every-bind (sweep (timed_out s.turn_count) o.etimedout true s.waitq s) _
      (sweep-Calm o (timed_out s.turn_count) o.etimedout true s.waitq s) λ r calm. gives calm

requeue-Calm : (o : Options) (t : ℕ) (s : Sched) → Every (Calm o s) (requeue o t s)
unfolding requeue
requeue-Calm o t s = Every-any (RunQueue.push_back s.runq t) _ λ q.
    Every-if o.enforce_non_det_clock_bound _ _
      (Every-any (NonDetThreadSet.erase s.non_det_thds t) _ λ n. gives (Calm-refl o s))
      (gives (Calm-refl o s))

wake_inter_pro-Calm :
    (o : Options) (ts : List ℕ) (s : Sched) → Every (Calm o s) (wake_inter_pro o ts s)
unfolding wake_inter_pro
wake_inter_pro-Calm o [] s = gives (Calm-refl o s)
wake_inter_pro-Calm o (t ∷ ts) s = Every-any (RunQueue.is_in s.runq t) _ λ queued.
    Every-bind (if queued then some s else requeue o t s) _
      (Every-if queued _ _ (gives (Calm-refl o s)) (requeue-Calm o t s))
      λ s' calm.
        Every-weaken (wake_inter_pro o ts s') (wake_inter_pro-Calm o ts s')
          λ s'' calm'. Calm-trans o s s' s'' calm calm'

pub check_wakeup-Calm : (o : Options) (s : Sched) → Every (Calm o s) (check_wakeup o s)
unfolding check_wakeup
check_wakeup-Calm o s =
    Every-if s.inter_pro_wakeup_flag _ _
      (Every-bind (wake_inter_pro o (o.hash_order s.inter_pro_wakeup_tids) s) _
        (wake_inter_pro-Calm o (o.hash_order s.inter_pro_wakeup_tids) s) λ s' calm. gives calm)
      (gives (Calm-refl o s))

pub inc_turn_count-Calm : (o : Options) (s : Sched) → Every (λ r. Calm o s r.1) (inc_turn_count o s)
unfolding inc_turn_count
inc_turn_count-Calm o s = Every-bind (fire_timeouts o _) _ (fire_timeouts-Calm o _) λ s₁ calm₁.
    Every-bind (check_wakeup o s₁) _ (check_wakeup-Calm o s₁)
      λ s₂ calm₂. gives (Calm-trans o s s₁ s₂ calm₁ calm₂)

pub wakeup-Calm : (o : Options) (self : ℕ) (s : Sched) → Calm o s (wakeup self s)
unfolding wakeup
wakeup-Calm o self s u = omega arith
