-- ===== src/Scheduler/Waiting/Rejoin.antt =====
-- check_wakeup of lib/runtime/record-scheduler.cpp where threads are back from a blocking operation.
use xtern.Base.{
  ℕ, ◌+◌, ◌%◌, ◌≡◌, refl, ◌∙◌, ap, subst, ◌<◌, ◌⊎◌, inl, inr, true, false, ◌||◌, none, some, List,
  ◌>>=◌, [], ◌∷◌, ◌++◌, arith, ◌==◌, if◌then◌else◌, has, has-append, Bool-cases, test_self,
}
use xtern.RunQueue.{RunQueue, is_in, running_reg}
use xtern.RunQueue.Chain.{status_at}
use xtern.RunQueue.Repr.{Repr, SameStatus}
use xtern.RunQueue.Queue.{push_back-Repr}
use xtern.RunQueue.Membership.{is_in-has, is_in-gone}
use xtern.Scheduler.State.{Options, Sched, unsigned_mod}
use xtern.Scheduler.Waiting.{
  requeue, wake_inter_pro, check_wakeup, fire_timeouts, sweep, inc_turn_count,
}
use xtern.Scheduler.Waiting.Waking.{IsLive, IsLive-same, elem_of_IsLive}
use xtern.Scheduler.Waiting.Signal.{WellFormed, IsAtRest}

-- The run queue with the threads of a list put behind it, those left out that are on it already.
abbrev pub joined : List ℕ → List ℕ → List ℕ
joined ts [] = ts
joined ts (w ∷ ws) = joined (if has w ts then ts else ts ++ w ∷ []) ws

pub has-joined : (u : ℕ) (ts ws : List ℕ) → has u ts ≡ true → has u (joined ts ws) ≡ true
has-joined u ts [] h = h
has-joined u ts (w ∷ ws) h = elim (Bool-cases (has w ts)) [
  | inl e ↦ rw e (has-joined u ts ws h)
  | inr e ↦ rw e (has-joined u (ts ++ w ∷ []) ws (ground (arith, has-append u ts (w ∷ []))))
]

-- A thread that is back: it has an element, and does not wait.
pub record IsBack (s : Sched) (w : ℕ) : Type 0 where
  pub live : IsLive s.runq w
  pub awake : has w s.waitq ≡ false
  pub in_range : w < s.tids.nthread
  pub at_rest : IsAtRest (s.waits w)

-- The state with another run queue over the same elements.
IsBack-same :
    (s : Sched) (q : RunQueue) (w : ℕ)
    → SameStatus s.runq q
    → IsBack s w
    → IsBack (record s { runq = q }) w
IsBack-same s q w same b = record {
  live = IsLive-same s.runq q w same b.live;
  awake = b.awake;
  in_range = b.in_range;
  at_rest = b.at_rest;
}

longer-WellFormed :
    (s : Sched) (ts : List ℕ) (w : ℕ) (q : RunQueue)
    → WellFormed s ts
    → IsBack s w
    → Repr q (ts ++ w ∷ [])
    → SameStatus s.runq q
    → WellFormed (record s { runq = q }) (ts ++ w ∷ [])
longer-WellFormed s ts w q wf b r same = record {
  repr = r;
  distinct = wf.distinct;
  apart = λ u h. has-append u ts (w ∷ []) ∙ outside u h;
  live = λ u h. IsLive-same s.runq q u same (wf.live u h);
  wait_range = wf.wait_range;
  run_range = λ u h. elim (member u h) [
    | inl old ↦ wf.run_range u old
    | inr new ↦ subst (λ v. v < s.tids.nthread) new b.in_range
  ];
  at_rest = λ u h. elim (member u h) [
    | inl old ↦ wf.at_rest u old
    | inr new ↦ subst (λ v. IsAtRest (s.waits v)) new b.at_rest
  ];
  waiting = wf.waiting;
}
  where
    outside : (u : ℕ) → has u s.waitq ≡ true → (has u ts || ((u == w) || false)) ≡ false
    outside u h = let out = wf.apart u h in let awake = b.awake in ground arith

    member : (u : ℕ) → has u (ts ++ w ∷ []) ≡ true → (has u ts ≡ true) ⊎ (w ≡ u)
    member u h = let e = has-append u ts (w ∷ []) in ground arith

requeue-Joins :
    (o : Options) (s : Sched) (ts : List ℕ) (w : ℕ)
    → o.enforce_non_det_clock_bound ≡ false
    → WellFormed s ts
    → IsBack s w
    → has w ts ≡ false
    → (q : RunQueue) × (requeue o w s ≡ some (record s { runq = q }))
      × WellFormed (record s { runq = q }) (ts ++ w ∷ [])
      × SameStatus s.runq q
unfolding requeue
requeue-Joins o s ts w unbound wf b out =
    let (e, at) = elem_of_IsLive s.runq w b.live in
    let (q, ran, r, same) = push_back-Repr s.runq w e ts wf.repr at out in
    (q, rw (ran, unbound) refl, longer-WellFormed s ts w q wf b r same, same)

wake_inter_pro-Joins :
    (o : Options) (s : Sched) (ts ws : List ℕ)
    → o.enforce_non_det_clock_bound ≡ false
    → WellFormed s ts
    → ((w : ℕ) → has w ws ≡ true → IsBack s w)
    → (q : RunQueue) × (wake_inter_pro o ws s ≡ some (record s { runq = q }))
      × WellFormed (record s { runq = q }) (joined ts ws)
      × SameStatus s.runq q
unfolding wake_inter_pro
wake_inter_pro-Joins o s ts [] unbound wf back = (s.runq, refl, wf, λ u. refl)
wake_inter_pro-Joins o s ts (w ∷ ws) unbound wf back =
    let b = back w (ap (λ z. z || has w ws) (test_self w)) in
    let later : (u : ℕ) → has u ws ≡ true → IsBack s u = λ u h. back u (ground arith) in
    let (e, at) = elem_of_IsLive s.runq w b.live in
    let found = is_in-has s.runq ts w e wf.repr at in
    elim (Bool-cases (has w ts)) [
      | inl h ↦ rw (found, h) (wake_inter_pro-Joins o s ts ws unbound wf later)
      | inr h ↦
          let (q, ran, wf', same) = requeue-Joins o s ts w unbound wf b h in
          let (q', ran', wf'', same') =
            wake_inter_pro-Joins o (record s { runq = q }) (ts ++ w ∷ []) ws unbound wf'
              (λ u k. IsBack-same s q u same (later u k)) in
          rw (found, h) (q', rw ran ran', wf'', λ u. same' u ∙ same u)
    ]

abbrev cleared : Sched → Sched
cleared s = record s { inter_pro_wakeup_tids = []; inter_pro_wakeup_flag = false }

check_wakeup-flag :
    (o : Options) (s : Sched)
    → s.inter_pro_wakeup_flag ≡ true
    → check_wakeup o s
      ≡ (wake_inter_pro o (o.hash_order s.inter_pro_wakeup_tids) s >>= λ s'. some (cleared s'))
unfolding check_wakeup
check_wakeup-flag o s flag = ground arith

-- Where the clock bound is not enforced, in a consistent state, `check_wakeup` with its flag set puts
-- the threads that are back, which have elements and do not wait, to the end of the run queue, in the
-- order in which the set is visited; a thread that is still queued keeps its place, and none gets a
-- second one. The set and the flag are cleared and the state is consistent again.
pub check_wakeup-Joins :
    (o : Options) (s : Sched) (ts : List ℕ)
    → o.enforce_non_det_clock_bound ≡ false
    → s.inter_pro_wakeup_flag ≡ true
    → WellFormed s ts
    → ((w : ℕ) → has w (o.hash_order s.inter_pro_wakeup_tids) ≡ true → IsBack s w)
    → (q : RunQueue) × (check_wakeup o s
        ≡ some (record s { runq = q; inter_pro_wakeup_tids = []; inter_pro_wakeup_flag = false }))
      × WellFormed
          (record s { runq = q; inter_pro_wakeup_tids = []; inter_pro_wakeup_flag = false })
          (joined ts (o.hash_order s.inter_pro_wakeup_tids))
      × SameStatus s.runq q
check_wakeup-Joins o s ts unbound flag wf back =
    let (q, ran, wf', same) =
      wake_inter_pro-Joins o s ts (o.hash_order s.inter_pro_wakeup_tids) unbound wf back in
    (
      q,
      check_wakeup-flag o s flag ∙ ap (λ m. m >>= λ s'. some (cleared s')) ran,
      record {
        repr = wf'.repr;
        distinct = wf'.distinct;
        apart = wf'.apart;
        live = wf'.live;
        wait_range = wf'.wait_range;
        run_range = wf'.run_range;
        at_rest = wf'.at_rest;
        waiting = wf'.waiting;
      },
      same,
    )

-- A thread without an element on the list stops the loop of check_wakeup, where thread 0 is alone
-- in the run queue.
wake_inter_pro-faults :
    (o : Options) (s : Sched) (t : ℕ) (ws : List ℕ)
    → Repr s.runq (0 ∷ [])
    → status_at (s.runq.tid_map 0) ≡ some running_reg
    → ((u : ℕ) → (0 == u) ≡ false → s.runq.tid_map u ≡ none)
    → (0 == t) ≡ false
    → has t ws ≡ true
    → wake_inter_pro o ws s ≡ none
unfolding wake_inter_pro
wake_inter_pro-faults o s t [] r main gone other h = cc
wake_inter_pro-faults o s t (w ∷ ws) r main gone other h = elim (Bool-cases (0 == w)) [
  | inl e ↦
      let (el, at) = elem_of_IsLive s.runq 0 (live main) in
      let queued : is_in s.runq w ≡ some true =
        subst (λ v. is_in s.runq v ≡ some true) (zero_eq w e)
          (is_in-has s.runq (0 ∷ []) 0 el r at) in
      rw queued (wake_inter_pro-faults o s t ws r main gone other (later e))
  | inr e ↦ rw (is_in-gone s.runq w (gone w e)) refl
]
  where
    live : status_at (s.runq.tid_map 0) ≡ some running_reg → IsLive s.runq 0
    live h = ground (arith, h)

    zero_eq : (w : ℕ) → (0 == w) ≡ true → 0 ≡ w
    zero_eq w e = ground arith

    later : (0 == w) ≡ true → has t ws ≡ true
    later e = ground (arith, e, h, other)

-- incTurnCount, where no thread waits, thread 0 alone has an element, and another thread is in the set
-- of those that are back: the loop of check_wakeup reads through a null pointer.
pub inc_turn_count-faults :
    (o : Options) (s : Sched) (t : ℕ)
    → Repr s.runq (0 ∷ [])
    → status_at (s.runq.tid_map 0) ≡ some running_reg
    → ((u : ℕ) → (0 == u) ≡ false → s.runq.tid_map u ≡ none)
    → s.inter_pro_wakeup_flag ≡ true
    → (0 == t) ≡ false
    → has t (o.hash_order s.inter_pro_wakeup_tids) ≡ true
    → inc_turn_count o (record s { waitq = [] }) ≡ none
unfolding inc_turn_count fire_timeouts sweep
inc_turn_count-faults o s t r main gone flag other h =
    let s₁ : Sched = record s { waitq = []; turn_count = (s.turn_count + 1) % unsigned_mod } in
    let stop : check_wakeup o s₁ ≡ none =
      check_wakeup-flag o s₁ flag
      ∙ ap (λ m. m >>= λ s'. some (cleared s'))
          (wake_inter_pro-faults o s₁ t (o.hash_order s.inter_pro_wakeup_tids) r main gone other
            h) in
    rw (stop, fire_timeouts) refl
