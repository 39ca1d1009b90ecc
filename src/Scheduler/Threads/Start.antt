-- ===== src/Scheduler/Threads/Start.antt =====
-- The states in which a program, a forked process and a thread begin, from the constructor of
-- RRScheduler, childForkReturn and Scheduler::create.
use xtern.Base.{
  ℕ, ◌≡◌, refl, ◌∙◌, sym, ap, subst, ◌<◌, inl, inr, Bool, true, false, Option, none, some, List, [],
  ◌∷◌, ◌++◌, arith, ◌==◌, if◌then◌else◌, has, has-append, Distinct, is_some, Bool-cases, test_self,
}
use xtern.RunQueue.{RunQueue, ThdStatus, max_thread_num, runnable, running_reg, new_elem, put}
use xtern.RunQueue.Chain.{status_at, put_self}
use xtern.RunQueue.Repr.{IsOwned, Repr}
use xtern.RunQueue.Queue.{push_back-Repr}
use xtern.RunQueue.Access.{set_status-Repr, front-Repr}
use xtern.RunQueue.Membership.{absent_of_none, create_thd_elem-Repr}
use xtern.RunQueue.Clear.{deep_clear-Repr}
use xtern.NonDetThreadSet.{empty_set}
use xtern.TidMap.{TidMap, get_tid}
use xtern.TidMap.Laws.{IsInverse, create-IsInverse, init-IsInverse, reset-init}
use xtern.Scheduler.State.{Options, Sched, post, at_wait}
use xtern.Scheduler.Waiting.Waking.{IsLive, IsLive-same}
use xtern.Scheduler.Waiting.Signal.{WellFormed, IsAtRest}
use xtern.Scheduler.Threads.{
  start_main, no_threads, fresh_wait, init, create, reset_all, child_fork_return,
}

-- The element of the main thread is made, queued and running.
start_main-Repr :
    (q : RunQueue)
    → Repr q []
    → q.tid_map 0 ≡ none
    → (q' : RunQueue) × (start_main q ≡ some q')
      × Repr q' (0 ∷ [])
      × ((u : ℕ)
          → status_at (q'.tid_map u)
            ≡ (if 0 == u then some running_reg else status_at (q.tid_map u)))
unfolding start_main
start_main-Repr q r nil =
    let (q₁, ran₁, r₁, at₁) = create_thd_elem-Repr q [] 0 r nil (ground arith) in
    let made : q₁.tid_map 0 ≡ some (new_elem 0) =
      ap (λ m. m 0) at₁ ∙ put_self q.tid_map 0 (some (new_elem 0)) in
    let (q₂, ran₂, r₂, same) = push_back-Repr q₁ 0 (new_elem 0) [] r₁ made refl in
    let (e, at₂, p, n, rest) = r₂.chain in
    let (q₃, ran₃, r₃, one) = set_status-Repr q₂ 0 e running_reg (0 ∷ []) r₂ at₂ in
    let same' : (u : ℕ)
        → status_at (q₂.tid_map u) ≡ status_at (put q.tid_map 0 (some (new_elem 0)) u) =
      λ u. same u ∙ ap (λ m. status_at (m u)) at₁ in
    (q₃, rw (ran₁, ran₂) ran₃, r₃, λ u. one u ∙ either u (same' u))
  where
    either :
        (u : ℕ) {x : Option ThdStatus}
        → x ≡ status_at (put q.tid_map 0 (some (new_elem 0)) u)
        → (if 0 == u then some running_reg else x)
          ≡ (if 0 == u then some running_reg else status_at (q.tid_map u))
    either u h = ground (arith, h)

-- What is known of a state in which the main thread is alone and runs.
abbrev pub StartsAlone : Sched → ℕ → Type 0
StartsAlone s th =
    WellFormed s (0 ∷ [])
    × IsInverse s.tids
    × (get_tid s.tids th ≡ some 0)
    × (status_at (s.runq.tid_map 0) ≡ some running_reg)

alone :
    (s : Sched) (th : ℕ)
    → Repr s.runq (0 ∷ [])
    → s.waitq ≡ []
    → s.tids.nthread ≡ 1
    → IsAtRest (s.waits 0)
    → IsInverse s.tids
    → get_tid s.tids th ≡ some 0
    → status_at (s.runq.tid_map 0) ≡ some running_reg
    → StartsAlone s th
alone s th r empty one rest inverse main st = (
  record {
    repr = r;
    distinct = subst Distinct (sym empty) tt;
    apart = λ t h. absurd (nobody t h);
    live = λ t h. absurd (nobody t h);
    wait_range = λ t h. absurd (nobody t h);
    run_range = λ t h. ground (arith, one);
    at_rest = λ t h. subst (λ u. IsAtRest (s.waits u)) (first t h) rest;
    waiting = λ t h. absurd (nobody t h);
  },
  inverse,
  main,
  st,
)
  where
    nobody : (t : ℕ) → has t s.waitq ≡ true → ⊥
    nobody t h = let no : has t s.waitq ≡ false = ap (has t) empty in cc

    first : (t : ℕ) → has t (0 ∷ []) ≡ true → 0 ≡ t
    first t h = ground arith

no_threads-Repr : Repr no_threads []
no_threads-Repr = record {
  before = none;
  chain = tt;
  head_eq = refl;
  tail_eq = refl;
  count = refl;
  distinct = tt;
  owned = record { tid_eq = λ t e h. cc; in_range = λ t e h. cc };
  detached = λ t e h out. cc;
}

-- The constructor returns a consistent state in which the main thread, with the id 0, is alone in the
-- run queue and runs.
pub init-WellFormed : (o : Options) (th : ℕ) → (s : Sched) × (init o th ≡ some s) × StartsAlone s th
unfolding init
init-WellFormed o th =
    let (m, ranm, inverse, main, one) = init-IsInverse th in
    let (q, ranq, r, st) = start_main-Repr no_threads no_threads-Repr refl in
    let s : Sched = record {
      tids = m;
      runq = q;
      waitq = [];
      waits = at_wait (λ t. fresh_wait) 0 (post o fresh_wait);
      turn_count = 0;
      non_det_thds = empty_set;
      inter_pro_wakeup_tids = [];
      inter_pro_wakeup_flag = false;
      n_non_det_wait = 0;
      idle_done = false;
    } in
    (
      s,
      rw (ranm, ranq) refl,
      alone s th r refl one (posted (o.enforce_turn_type == 1)) inverse main (st 0),
    )
  where
    posted :
        (b : Bool)
        → IsAtRest
            (if b then record fresh_wait { sem = 1 } else record fresh_wait { waken_up = true })
    posted true = (refl, refl)
    posted false = (refl, refl)

-- The state of the child, over its maps of ids and its run queue. The set of the threads that are back
-- from a blocking operation, and its flag, are the parent's.
abbrev pub child_of : Sched → TidMap → RunQueue → Sched
child_of s m q = record s { tids = m; waitq = []; runq = q; waits = reset_all s.waits }

pub child_fork_return-child_of :
    (th : ℕ) (s : Sched)
    → IsOwned s.runq.tid_map
    → (m : TidMap) × (q : RunQueue) × (child_fork_return th s ≡ some (child_of s m q))
      × StartsAlone (child_of s m q) th
      × ((u : ℕ) → status_at (q.tid_map u) ≡ (if 0 == u then some running_reg else none))
unfolding child_fork_return
child_fork_return-child_of th s own =
    let (m, ranm, inverse, main, one) = init-IsInverse th in
    let (q, ranq, r, gone) = deep_clear-Repr s.runq own in
    let (q', ranq', r', st) = start_main-Repr q r (gone 0) in
    let lone : (u : ℕ) → status_at (q'.tid_map u) ≡ (if 0 == u then some running_reg else none) =
      λ u. st u ∙ ap (λ e. if 0 == u then some running_reg else status_at e) (gone u) in
    (
      m,
      q',
      rw (reset-init s.tids th ∙ ranm) (rw (ranq, ranq') refl),
      alone (child_of s m q') th r' refl one (refl, refl) inverse main (lone 0),
      lone,
    )

-- In a child process, `childForkReturn` returns from every state in which each element is in its own
-- slot, also in the midst of an operation. It leaves a consistent state in which the calling thread has
-- the id 0, is alone in the run queue and runs.
pub child_fork_return-WellFormed :
    (th : ℕ) (s : Sched)
    → IsOwned s.runq.tid_map
    → (s' : Sched) × (child_fork_return th s ≡ some s') × StartsAlone s' th
child_fork_return-WellFormed th s own =
    let (m, q, ran, begins, lone) = child_fork_return-child_of th s own in
    (child_of s m q, ran, begins)

-- `create`, by the head of the run queue and for a pthread id that is not known, returns as long as the
-- array of elements has room. The new thread gets the next id and the last place in the run queue; the
-- state and the maps of ids stay consistent.
pub create-WellFormed :
    (self new_th : ℕ) (s : Sched) (ts : List ℕ)
    → WellFormed s (self ∷ ts)
    → IsInverse s.tids
    → get_tid s.tids new_th ≡ none
    → s.runq.tid_map s.tids.nthread ≡ none
    → s.tids.nthread < max_thread_num
    → IsAtRest (s.waits s.tids.nthread)
    → (s' : Sched) × (create self new_th s ≡ some s')
      × WellFormed s' (self ∷ (ts ++ s.tids.nthread ∷ []))
      × IsInverse s'.tids
      × (get_tid s'.tids new_th ≡ some s.tids.nthread)
      × (status_at (s'.runq.tid_map s.tids.nthread) ≡ some runnable)
unfolding create
create-WellFormed self new_th s ts w inverse new nil room rest =
    let n : ℕ = s.tids.nthread in
    let (m, ranm, inverse', found, back, others, more) =
      create-IsInverse s.tids new_th inverse new in
    let (q₁, ran₁, r₁, at₁) = create_thd_elem-Repr s.runq (self ∷ ts) n w.repr nil room in
    let made : q₁.tid_map n ≡ some (new_elem n) =
      ap (λ f. f n) at₁ ∙ put_self s.runq.tid_map n (some (new_elem n)) in
    let out : has n (self ∷ ts) ≡ false = absent_of_none s.runq (self ∷ ts) n w.repr nil in
    let (q₂, ran₂, r₂, same) = push_back-Repr q₁ n (new_elem n) (self ∷ ts) r₁ made out in
    (
      record s { tids = m; runq = q₂ },
      rw (front-Repr s.runq self ts w.repr) (rw (test_self self, ranm) (rw (ran₁, ran₂) refl)),
      record {
        repr = r₂;
        distinct = w.distinct;
        apart = λ t h. ground (arith, has-append t ts (n ∷ []), w.apart t h, w.wait_range t h);
        live = λ t h.
            IsLive-same q₁ q₂ t same
              (ap (λ f. is_some (f t)) at₁ ∙ still_live s.runq n t (w.live t h));
        wait_range = λ t h. let below = w.wait_range t h in omega (arith, more);
        run_range = λ t h. ground (arith, has-append t ts (n ∷ []), w.run_range t, more);
        at_rest = λ t h. elim (Bool-cases (has t (self ∷ ts))) [
          | inl e ↦ w.at_rest t e
          | inr e ↦ subst (λ u. IsAtRest (s.waits u)) (last_one n t (self ∷ ts) h e) rest
        ];
        waiting = w.waiting;
      },
      inverse',
      found,
      same n ∙ ap status_at made,
    )
  where
    still_live :
        (q : RunQueue) (n t : ℕ)
        → IsLive q t
        → is_some (put q.tid_map n (some (new_elem n)) t) ≡ true
    still_live q n t h = ground (arith, h)

    last_one : (n t : ℕ) (ts : List ℕ) → has t (ts ++ n ∷ []) ≡ true → has t ts ≡ false → n ≡ t
    last_one n t ts h out = ground (arith, has-append t ts (n ∷ []))
