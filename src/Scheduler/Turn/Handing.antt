-- ===== src/Scheduler/Turn/Handing.antt =====
-- How many turns the calls of lib/runtime/record-scheduler.cpp that pass the turn hand out.
use xtern.Base.{
  ℕ, ◌+◌, ◌≡◌, refl, ◌≤◌, Bool, false, not, none, some, arith, ltb, ◌==◌, if◌then◌else◌, inl, inr,
  require, Every, gives, Every-bind, Every-any, Every-eq, Every-if, Every-weaken, test_self,
  Option-cases, Bool-cases, true,
}
use xtern.RunQueue
use xtern.RunQueue.{RunqElem, ThdStatus, runnable, running_reg, running_inter_pro, inter_pro_stop}
use xtern.TidMap
use xtern.TidMap.{main_thread_tid, idle_thread_tid}
use xtern.NonDetThreadSet
use xtern.Scheduler.State.{Options, WaitT, Sched, wait, at_wait}
use xtern.Scheduler.Tokens.{
  tokens, Calm, Calm-refl, Calm-trans, tokens-wait, wait-none, Calm-at_wait,
}
use xtern.Scheduler.Waiting.{signal, inc_turn_count}
use xtern.Scheduler.Waiting.Quiet.{signal-Calm, inc_turn_count-Calm}
use xtern.Scheduler.Turn.{
  Next, next, get_turn, check_non_det_bound, has_turn, to_the_end, end_thread, put_turn, wait_begin,
  block, entered, inter_pro_start, stopped, inter_pro_end,
}
use xtern.Scheduler.Turn.Quiet.{Hands, Hands-after, next-Hands}

check_non_det_bound-Calm : (o : Options) (s : Sched) → Every (Calm o s) (check_non_det_bound o s)
unfolding check_non_det_bound
check_non_det_bound-Calm o s =
    Every-if o.enforce_non_det_clock_bound _ _
      (Every-any (NonDetThreadSet.size s.non_det_thds) _ λ n.
        Every-if (ltb 0 n) _ _
          (Every-any (NonDetThreadSet.first_thread s.non_det_thds) _ λ t.
            Every-any (NonDetThreadSet.get_clock s.non_det_thds t) _ λ clock.
              Every-if _ _ _
                (Every-any (RunQueue.push_back s.runq t) _ λ q.
                  Every-any (NonDetThreadSet.erase s.non_det_thds t) _ λ n'. gives (Calm-refl o s))
                (gives (Calm-refl o s)))
          (gives (Calm-refl o s)))
      (gives (Calm-refl o s))

to_the_end-Calm : (o : Options) (self : ℕ) (s : Sched) → Every (Calm o s) (to_the_end self s)
unfolding to_the_end
to_the_end-Calm o self s = Every-any (RunQueue.get_my_elem s.runq self) _ λ e.
    Every-any (require (has_turn e.status)) _ λ ok.
      Every-any (RunQueue.set_status s.runq self runnable) _ λ q.
        Every-any (RunQueue.pop_front q) _
          λ q'. Every-any (RunQueue.push_back q' self) _ λ q''. gives (Calm-refl o s)

end_thread-Calm : (o : Options) (self th : ℕ) (s : Sched) → Every (Calm o s) (end_thread self th s)
unfolding end_thread
end_thread-Calm o self th s =
    Every-bind (signal self th false s) _ (signal-Calm o self th false s)
      λ s' calm. Every-any (TidMap.zombify s'.tids self th) _ λ m. gives calm

pub put_turn-Hands :
    (o : Options) (self th : ℕ) (at_end : Bool) (s : Sched)
    → Every (Hands o s) (put_turn o self th at_end s)
unfolding put_turn
put_turn-Hands o self th at_end s = Every-any (require (ltb self s.tids.nthread)) _ λ range.
    Every-any (RunQueue.front s.runq) _ λ front. Every-any (require (self == front)) _ λ ok.
      Every-bind (if at_end then end_thread self th s else to_the_end self s) _
        (Every-if at_end _ _ (end_thread-Calm o self th s) (to_the_end-Calm o self s))
        λ s₁ calm₁.
          Every-bind (check_non_det_bound o s₁) _ (check_non_det_bound-Calm o s₁) λ s₂ calm₂.
            Every-weaken (next o self at_end (not at_end) s₂)
              (next-Hands o self at_end (not at_end) s₂)
              λ r hands. Hands-after o s s₂ r (Calm-trans o s s₁ s₂ calm₁ calm₂) hands

-- A thread that parks keeps its turns; it is not handed one unless the turn comes to it.
parked-Calm :
    (o : Options) (self chan nturn : ℕ) (s : Sched) (u : ℕ)
    → tokens o (at_wait s.waits self (record (s.waits self) { chan = chan; timeout = nturn }) u)
      ≤ tokens o (s.waits u)
parked-Calm o self chan nturn s =
    Calm-at_wait o s self (record (s.waits self) { chan = chan; timeout = nturn }) (omega arith)

pub wait_begin-Hands :
    (o : Options) (self chan nturn : ℕ) (s : Sched)
    → Every (Hands o s) (wait_begin o self chan nturn s)
unfolding wait_begin
wait_begin-Hands o self chan nturn s =
    Every-bind (inc_turn_count o s) _ (inc_turn_count-Calm o s) λ (turn, s₁) calm.
      Every-any (require (ltb self s₁.tids.nthread)) _ λ range.
        Every-any (RunQueue.front s₁.runq) _ λ front. Every-any (require (self == front)) _ λ ok.
          Every-weaken (next o self false false _) (next-Hands o self false false _) λ r hands.
            Hands-after o s s₁ r calm
              (λ u. omega (arith, hands u, parked-Calm o self chan nturn s₁ u))

-- `block`, whose result has the turn count first.
pub block-Hands :
    (o : Options) (self : ℕ) (s : Sched)
    → Every (λ (r : ℕ × Next × Sched). Hands o s (r.1, r.2)) (block o self s)
unfolding block
block-Hands o self s =
    Every-bind _ _
      (Every-if o.enforce_non_det_clock_bound _ _
        (Every-any {Q = Calm o s} (NonDetThreadSet.insert s.non_det_thds self s.turn_count) _
          λ n. gives (Calm-refl o s))
        (gives (Calm-refl o s)))
      λ s₁ calm₁. Every-any (require (ltb self s₁.tids.nthread)) _ λ range.
        Every-any (RunQueue.front s₁.runq) _ λ front. Every-any (require (self == front)) _ λ ok.
          Every-bind (inc_turn_count o s₁) _ (inc_turn_count-Calm o s₁) λ (ret, s₂) calm₂.
            Every-bind (next o self false false s₂) _ (next-Hands o self false false s₂)
              λ (n, s₃) hands.
                gives (Hands-after o s s₂ (n, s₃) (Calm-trans o s s₁ s₂ calm₁ calm₂) hands)

pub inter_pro_start-Calm :
    (o : Options) (self : ℕ) (s : Sched)
    → Every (λ (r : Bool × Sched). Calm o s r.1) (inter_pro_start self s)
unfolding inter_pro_start
inter_pro_start-Calm o self s = Every-any (RunQueue.get_my_elem s.runq self) _ λ e.
    Every-any (entered e.status) _
      λ (st, is_head). Every-any (RunQueue.set_status s.runq self st) _ λ q. gives (Calm-refl o s)

pub inter_pro_end-Calm :
    (o : Options) (self : ℕ) (s : Sched)
    → Every (λ (r : Bool × Sched). Calm o s r.1) (inter_pro_end self s)
unfolding inter_pro_end
inter_pro_end-Calm o self s = Every-any (RunQueue.get_my_elem s.runq self) _ λ e.
    Every-any (stopped e.status) _
      λ ok. Every-any (RunQueue.set_status s.runq self runnable) _ λ q. gives (Calm-refl o s)

-- getTurn takes one turn of its own thread, and none of another's.
pub get_turn-takes :
    (o : Options) (self : ℕ) (s : Sched)
    → Every
        (λ (s' : Sched). (tokens o (s.waits self) ≡ tokens o (s'.waits self) + 1) × Calm o s s')
        (get_turn o self s)
unfolding get_turn
get_turn-takes o self s = Every-any (require (ltb self s.tids.nthread)) _ λ range.
    Every-eq (wait o (s.waits self)) _ λ w took.
      let one = tokens-wait o (s.waits self) w took in
      gives (rw (test_self self) one, Calm-at_wait o s self w (omega arith))

pub get_turn-none :
    (o : Options) (self : ℕ) (s : Sched) → tokens o (s.waits self) ≡ 0 → get_turn o self s ≡ none
unfolding get_turn
get_turn-none o self s none_left = elim (Bool-cases (ltb self s.tids.nthread)) [
  | inl e ↦ rw e (rw (wait-none o (s.waits self) none_left) refl)
  | inr e ↦ rw e refl
]

wait-some : (o : Options) (w : WaitT) → tokens o w ≡ 1 → (w' : WaitT) × (wait o w ≡ some w')
wait-some o w h = elim (Option-cases (wait o w)) [ inl e ↦ absurd (stuck e) | inr x ↦ x ]
  where
    stuck : wait o w ≡ none → ⊥
    stuck e = ground arith

pub get_turn-some :
    (o : Options) (self : ℕ) (s : Sched)
    → ltb self s.tids.nthread ≡ true
    → tokens o (s.waits self) ≡ 1
    → (s' : Sched) × (get_turn o self s ≡ some s')
unfolding get_turn
get_turn-some o self s range one =
    let (w, e) = wait-some o (s.waits self) one in
    (record s { waits = at_wait s.waits self w }, rw range (rw e refl))
