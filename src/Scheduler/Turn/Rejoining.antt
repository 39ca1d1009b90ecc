-- ===== src/Scheduler/Turn/Rejoining.antt =====
-- putTurn of lib/runtime/record-scheduler.cpp where threads are back from a blocking operation.
use xtern.Base.{
  ℕ, ◌≡◌, refl, ◌∙◌, sym, ap, subst, inl, inr, true, false, ◌||◌, Option, some, List, [], ◌∷◌, ◌++◌,
  arith, ◌==◌, if◌then◌else◌, is_some, has, has-append, Bool-cases, test_self, eq_of_test,
}
use xtern.RunQueue.{RunQueue, runnable, running_reg}
use xtern.RunQueue.Chain.{status_at}
use xtern.RunQueue.Access.{front-Repr}
use xtern.Scheduler.State.{Options, Sched, post}
use xtern.Scheduler.Waiting.Waking.{IsLive}
use xtern.Scheduler.Waiting.Signal.{head_in_range, WellFormed}
use xtern.Scheduler.Waiting.Rejoin.{IsBack, joined, has-joined, check_wakeup-Joins}
use xtern.Scheduler.Turn.RoundRobin.{IsPlain, is_stopped, skip_stopped}
use xtern.Scheduler.Turn.Passing.{
  HasStatus, skip-same_stops, has-skip, posted, next-after, some_status, some_if, some_status_at,
  posted-WellFormed, IsLive-status, same_stop,
}
use xtern.Scheduler.Turn.PutTurn.{to_the_end-Repr, rotated-WellFormed, put_turn-next}
use xtern.Scheduler.Turn.{Next, turn_to, next, put_turn}

-- Something is left of a list with a thread that is not stopped.
pub skip-has :
    (q : RunQueue) (ts : List ℕ) (x : ℕ)
    → has x ts ≡ true
    → is_stopped (status_at (q.tid_map x)) ≡ false
    → (t : ℕ) × (rest : List ℕ) × (skip_stopped q ts ≡ t ∷ rest)
skip-has q [] x h goes = cc
skip-has q (y ∷ ts) x h goes = elim (Bool-cases (is_stopped (status_at (q.tid_map y)))) [
  | inl stop ↦ let (t, rest, e) = skip-has q ts x (later stop) goes in (t, rest, rw stop e)
  | inr go ↦ (y, ts, rw go refl)
]
  where
    later : is_stopped (status_at (q.tid_map y)) ≡ true → has x ts ≡ true
    later stop = elim (Bool-cases (x == y)) [
      | inl e ↦ let same = ap (λ z. is_stopped (status_at (q.tid_map z))) (eq_of_test x y e) in cc
      | inr e ↦ ground arith
    ]

-- The turn has gone to t, the first that is not stopped of the run queue `l`, and the threads that were
-- back are on it.
abbrev pub Rejoins : Options → Sched → List ℕ → Option (Next × Sched) → Type 0
Rejoins o s l m =
    (t : ℕ) × (rest : List ℕ) × (s' : Sched) × (m ≡ some (turn_to t, s'))
    × (skip_stopped s.runq l ≡ t ∷ rest)
    × WellFormed s' (t ∷ rest)
    × ((u : ℕ) → s'.waits u ≡ (if t == u then post o (s.waits t) else s.waits u))
    × (s'.waitq ≡ s.waitq)
    × (s'.inter_pro_wakeup_flag ≡ false)
    × (s'.inter_pro_wakeup_tids ≡ [])

rotated-IsBack :
    (s : Sched) (self : ℕ) (q : RunQueue) (w : ℕ)
    → ((u : ℕ)
        → status_at (q.tid_map u)
          ≡ (if self == u then some runnable else status_at (s.runq.tid_map u)))
    → IsBack s w
    → IsBack (record s { runq = q }) w
rotated-IsBack s self q w one b = record {
  live = IsLive-status s.runq q w (
      ap is_some (one w)
      ∙ some_if (self == w) (status_at (s.runq.tid_map w))
          (some_status_at (s.runq.tid_map w) ∙ b.live));
  awake = b.awake;
  in_range = b.in_range;
  at_rest = b.at_rest;
}

-- `next` from a consistent state s₁ in which the head has gone to the end, and threads are back.
next-Rejoins :
    (o : Options) (self : ℕ) (s₁ : Sched) (ts : List ℕ)
    → IsPlain o
    → WellFormed s₁ ts
    → has self ts ≡ true
    → is_stopped (status_at (s₁.runq.tid_map self)) ≡ false
    → s₁.inter_pro_wakeup_flag ≡ true
    → ((w : ℕ) → has w (o.hash_order s₁.inter_pro_wakeup_tids) ≡ true → IsBack s₁ w)
    → Rejoins o s₁ (joined ts (o.hash_order s₁.inter_pro_wakeup_tids)) (next o self false true s₁)
next-Rejoins o self s₁ ts plain w₁ queued goes flag back =
    let l : List ℕ = joined ts (o.hash_order s₁.inter_pro_wakeup_tids) in
    let (q, ran, w₂, same) = check_wakeup-Joins o s₁ ts plain.no_clock_bound flag w₁ back in
    let s₂ : Sched = record s₁ {
      runq = q;
      inter_pro_wakeup_tids = [];
      inter_pro_wakeup_flag = false;
    } in
    let (t, rest, skip) =
      skip-has q l self (has-joined self ts (o.hash_order s₁.inter_pro_wakeup_tids) queued)
        (ap is_stopped (same self) ∙ goes) in
    let sub : (u : ℕ) → has u (t ∷ rest) ≡ true → has u l ≡ true =
      λ u h. has-skip q l u (subst (λ z. has u z ≡ true) (sym skip) h) in
    let first : has t (t ∷ rest) ≡ true = ap (λ b. b || has t rest) (test_self t) in
    let (s₃, ran₃, r₃, st₃, frame) =
      next-after o self s₁ s₂ l t rest plain ran w₂.repr skip (w₂.run_range t (sub t first)) in
    (
      t,
      rest,
      posted o t s₃,
      ran₃,
      sym (skip-same_stops s₁.runq q l (λ u. ap is_stopped (same u))) ∙ skip,
      subst (λ z. WellFormed (posted o t z) (t ∷ rest)) (sym frame)
          (posted-WellFormed o s₂ l (t ∷ rest) t s₃.runq w₂ r₃ sub first (λ u h.
            IsLive-status q s₃.runq u (
              ap is_some (st₃ u)
              ∙ some_status (t == u) (status_at (q.tid_map u))
                  (some_status_at (q.tid_map u) ∙ w₂.live u h)))),
      λ u. ap (λ z. (posted o t z).waits u) frame,
      ap (λ z. z.waitq) frame,
      ap (λ z. z.inter_pro_wakeup_flag) frame,
      ap (λ z. z.inter_pro_wakeup_tids) frame,
    )

-- With the plain options, in a consistent state in which the head `self` has the turn and threads are
-- back from blocking operations, which have elements and do not wait, `putTurn` returns. The caller
-- goes to the end of the run queue, and behind it the threads that are back, in the order of their
-- set, as far as they are not queued still. The turn goes to the first thread of this queue that is
-- not stopped, which alone is posted. The set and its flag are cleared, and the state is consistent
-- again.
pub put_turn-Rejoins :
    (o : Options) (self th : ℕ) (s : Sched) (ts : List ℕ)
    → IsPlain o
    → WellFormed s (self ∷ ts)
    → HasStatus s self running_reg
    → s.inter_pro_wakeup_flag ≡ true
    → ((w : ℕ) → has w (o.hash_order s.inter_pro_wakeup_tids) ≡ true → IsBack s w)
    → Rejoins o s
        (joined (ts ++ self ∷ []) (o.hash_order s.inter_pro_wakeup_tids))
        (put_turn o self th false s)
put_turn-Rejoins o self th s ts plain w st flag back =
    let (q, ran, r, one) = to_the_end-Repr self s ts w.repr st in
    let l : List ℕ = joined (ts ++ self ∷ []) (o.hash_order s.inter_pro_wakeup_tids) in
    let s₁ : Sched = record s { runq = q } in
    let back₁ : (u : ℕ) → has u (o.hash_order s.inter_pro_wakeup_tids) ≡ true → IsBack s₁ u =
      λ u h. rotated-IsBack s self q u one (back u h) in
    let live₁ : (u : ℕ) → has u s.waitq ≡ true → IsLive q u = λ u h. IsLive-status q q u (
      ap is_some (one u)
      ∙ some_if (self == u) (status_at (s.runq.tid_map u))
          (some_status_at (s.runq.tid_map u) ∙ w.live u h)) in
    let stops : (u : ℕ)
        → is_stopped (status_at (q.tid_map u)) ≡ is_stopped (status_at (s.runq.tid_map u)) =
      λ u. sym (same_stop s self (status_at (q.tid_map u)) u st (one u)) in
    let (t, rest, s', gone, skip, w', posts, same, off, none_back) =
      next-Rejoins o self s₁ (ts ++ self ∷ []) plain (rotated-WellFormed s self ts q w r live₁)
        (queued ts) (stops self ∙ ap is_stopped st) flag back₁ in
    (
      t,
      rest,
      s',
      put_turn-next o self th s s₁ plain (head_in_range s self ts w)
            (front-Repr s.runq self ts w.repr) ran
          ∙ gone,
      sym (skip-same_stops s.runq q l stops) ∙ skip,
      w',
      posts,
      same,
      off,
      none_back,
    )
  where
    queued : (ts : List ℕ) → has self (ts ++ self ∷ []) ≡ true
    queued ts = ground (arith, has-append self ts (self ∷ []), test_self self)
