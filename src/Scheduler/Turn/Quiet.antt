-- ===== src/Scheduler/Turn/Quiet.antt =====
-- How many turns each round of nextRunnable and `next` of lib/runtime/record-scheduler.cpp hand out.
use xtern.Base.{
  ℕ, zero, suc, ◌+◌, ◌≤◌, Bool, true, false, not, ◌&&◌, some, arith, ltb, ◌==◌, if◌then◌else◌,
  length, Bool-cases, inl, inr, ◌>>◌, require, Every, gives, Every-bind, Every-any, Every-if,
  Every-weaken, subst, eq_of_test,
}
use xtern.RunQueue
use xtern.RunQueue.{RunqElem, ThdStatus, runnable, running_reg, running_inter_pro, inter_pro_stop}
use xtern.TidMap.{main_thread_tid, idle_thread_tid}
use xtern.NonDetThreadSet
use xtern.Scheduler.State.{Options, Sched, post, at_wait}
use xtern.Scheduler.Tokens.{tokens, Calm, one_if, Calm-refl, Calm-trans, tokens-post}
use xtern.Scheduler.Waiting.{sweep, signal, check_wakeup}
use xtern.Scheduler.Waiting.Quiet.{sweep-Calm, signal-Calm, check_wakeup-Calm}
use xtern.Scheduler.Turn.{
  Next, turn_to, invalid_tid, exits, thread_exits, out_of_fuel, Round, done, again, is_idle, found,
  wake_up_idle_thread, fill, drop_head, process_status, process_head, proceed, next_runnable,
  rounds, given_up, leave_head, hand_over, next,
}

-- The turns that a thread is handed when the turn is passed on.
abbrev pub gain : Next → ℕ → ℕ
gain (turn_to t) u = one_if (t == u)
gain invalid_tid u = 0
gain exits u = 0
gain thread_exits u = 0
gain out_of_fuel u = 0

-- The thread that the turn goes to is handed one, and no other.
abbrev pub Hands : Options → Sched → Next × Sched → Type 0
Hands o s r = (u : ℕ) → tokens o (r.1.waits u) ≤ tokens o (s.waits u) + gain r.0 u

abbrev pub sched_of : Round → Sched
sched_of (done n s) = s
sched_of (again s) = s

abbrev pub RoundCalm : Options → Sched → Round → Type 0
RoundCalm o s r = Calm o s (sched_of r)

pub wake_up_idle_thread-Calm :
    (o : Options) (s : Sched) → Every (RoundCalm o s) (wake_up_idle_thread s)
unfolding wake_up_idle_thread
wake_up_idle_thread-Calm o s = Every-if s.idle_done _ _ (gives (Calm-refl o s)) (
    Every-bind (sweep is_idle 0 false s.waitq s) _ (sweep-Calm o is_idle 0 false s.waitq s)
      λ r calm.
        Every-any (found r.woken >> require (not (RunQueue.empty r.sched.runq))) _ λ ok. gives calm)

pub fill-Calm :
    (o : Options) (self : ℕ) (at_end : Bool) (s : Sched)
    → Every (RoundCalm o s) (fill o self at_end s)
unfolding fill
fill-Calm o self at_end s =
    let stay : Every (RoundCalm o s) (some (again s)) = gives (Calm-refl o s) in
    Every-if (RunQueue.empty s.runq) _ _
      (Every-if (at_end && (length s.waitq == 0)) _ _ (stop invalid_tid) (
        Every-if (at_end && (self == main_thread_tid)) _ _ (stop invalid_tid) (
          Every-if (not o.launch_idle_thread) _ _ (stop exits) (
            Every-any (require (not (self == idle_thread_tid))) _
              λ ok. wake_up_idle_thread-Calm o s))))
      (Every-if _ _ _
        (Every-any (RunQueue.front s.runq) _ λ t.
          Every-if (t == idle_thread_tid) _ _
            (Every-bind (signal self o.non_det_cv true s) _ (signal-Calm o self o.non_det_cv true s)
              λ s' calm. gives calm)
            stay)
        stay)
  where
    stop : (n : Next) → Every (RoundCalm o s) (some (done n s))
    stop n = gives (Calm-refl o s)

pub drop_head-Calm :
    (o : Options) (e : RunqElem) (s : Sched) → Every (RoundCalm o s) (drop_head o e s)
unfolding drop_head
drop_head-Calm o e s = Every-any (RunQueue.pop_front s.runq) _ λ q.
    Every-if o.enforce_non_det_clock_bound _ _
      (Every-any (NonDetThreadSet.insert s.non_det_thds e.tid s.turn_count) _
        λ n. gives (Calm-refl o s))
      (gives (Calm-refl o s))

pub process_status-Calm :
    (o : Options) (e : RunqElem) (st : ThdStatus) (s : Sched)
    → Every (RoundCalm o s) (process_status o e st s)
unfolding process_status
process_status-Calm o e inter_pro_stop s = drop_head-Calm o e s
process_status-Calm o e runnable s =
    Every-any (RunQueue.set_status s.runq e.tid running_reg) _ λ q. gives (Calm-refl o s)
process_status-Calm o e running_reg s = gives (Calm-refl o s)
process_status-Calm o e running_inter_pro s = gives (Calm-refl o s)

pub process_head-Calm : (o : Options) (s : Sched) → Every (RoundCalm o s) (process_head o s)
unfolding process_head
process_head-Calm o s =
    Every-any (require (not (RunQueue.empty s.runq))) _
      λ ok. Every-any (RunQueue.front_elem s.runq) _ λ e. process_status-Calm o e e.status s

pub proceed-Calm : (o : Options) (r : Round) → Every (RoundCalm o (sched_of r)) (proceed o r)
proceed-Calm o (done n s) = gives (Calm-refl o s)
proceed-Calm o (again s) = process_head-Calm o s

pub next_runnable-Calm :
    (o : Options) (self : ℕ) (at_end : Bool) (fuel : ℕ) (s : Sched)
    → Every (λ (r : Next × Sched). Calm o s r.1) (next_runnable o self at_end fuel s)
unfolding next_runnable
next_runnable-Calm o self at_end zero s = gives (Calm-refl o s)
next_runnable-Calm o self at_end (suc fuel) s =
    Every-bind (fill o self at_end s) _ (fill-Calm o self at_end s) λ r calm.
      Every-bind (proceed o r) _ (proceed-Calm o r) λ r' calm'.
        ends r' (Calm-trans o s (sched_of r) (sched_of r') calm calm')
          (next_runnable-Calm o self at_end fuel)
  where
    ends :
        (r : Round)
        → RoundCalm o s r
        → ((s' : Sched)
            → Every (λ (r : Next × Sched). Calm o s' r.1) (next_runnable o self at_end fuel s'))
        → Every
            (λ (r : Next × Sched). Calm o s r.1)
            (elim r [ done n s' ↦ some (n, s') | again s' ↦ next_runnable o self at_end fuel s' ])
    ends (done n s') calm rest = gives calm
    ends (again s') calm rest =
        Every-weaken (next_runnable o self at_end fuel s') (rest s')
          λ r calm'. Calm-trans o s s' r.1 calm calm'

pub leave_head-Calm : (o : Options) (self : ℕ) (s : Sched) → Every (Calm o s) (leave_head self s)
unfolding leave_head
leave_head-Calm o self s = Every-any (RunQueue.get_my_elem s.runq self) _ λ e.
    Every-any (given_up e.status) _ λ st.
      Every-any (RunQueue.set_status s.runq self st) _
        λ q. Every-any (RunQueue.pop_front q) _ λ q'. gives (Calm-refl o s)

-- The post of a thread's wait record, by that thread or another.
pub hand_over-Hands : (o : Options) (r : Next × Sched) → Every (Hands o r.1) (hand_over o r)
unfolding hand_over
hand_over-Hands o (turn_to t, s) =
    Every-any (require (ltb t s.tids.nthread)) _ λ ok. gives (λ u. posted u)
  where
    posted :
        (u : ℕ)
        → tokens o (at_wait s.waits t (post o (s.waits t)) u)
          ≤ tokens o (s.waits u) + one_if (t == u)
    posted u = elim (Bool-cases (t == u)) [
      | inl e ↦ rw e (
          subst (λ x. tokens o (post o (s.waits t)) ≤ tokens o (s.waits x) + 1) (eq_of_test t u e)
            (tokens-post o (s.waits t)))
      | inr e ↦ rw e (omega arith)
    ]
hand_over-Hands o (invalid_tid, s) = gives (λ u. omega arith)
hand_over-Hands o (exits, s) = gives (λ u. omega arith)
hand_over-Hands o (thread_exits, s) = gives (λ u. omega arith)
hand_over-Hands o (out_of_fuel, s) = gives (λ u. omega arith)

pub Hands-after :
    (o : Options) (s s' : Sched) (r : Next × Sched) → Calm o s s' → Hands o s' r → Hands o s r
Hands-after o s s' r calm hands u = omega (arith, calm u, hands u)

pub next-Hands :
    (o : Options) (self : ℕ) (at_end popped : Bool) (s : Sched)
    → Every (Hands o s) (next o self at_end popped s)
unfolding next
next-Hands o self at_end popped s =
    Every-bind (if popped then some s else leave_head self s) _
      (Every-if popped _ _ (gives (Calm-refl o s)) (leave_head-Calm o self s))
      λ s₁ calm₁. Every-bind (check_wakeup o s₁) _ (check_wakeup-Calm o s₁) λ s₂ calm₂.
        Every-bind (next_runnable o self at_end (rounds s₂) s₂) _
          (next_runnable-Calm o self at_end (rounds s₂) s₂)
          λ r calm₃. Every-weaken (hand_over o r) (hand_over-Hands o r) λ r' hands.
            Hands-after o s r.1 r' (Calm-trans o s s₂ r.1 (Calm-trans o s s₁ s₂ calm₁ calm₂) calm₃)
              hands
