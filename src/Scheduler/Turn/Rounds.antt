-- ===== src/Scheduler/Turn/Rounds.antt =====
-- The turn goes round: threads that each take their turn and put it again, with getTurn and putTurn of
-- lib/runtime/record-scheduler.cpp.
use xtern.Base.{
  ℕ, zero, suc, ◌≡◌, refl, ◌∙◌, sym, ap, subst, ◌⊎◌, inl, inr, true, false, ◌||◌, Option, none,
  some, List, [], ◌∷◌, ◌++◌, append_assoc, append-nil, arith, ◌==◌, ltb, if◌then◌else◌, ◌>>=◌, has,
  has-append, length, ne_of_has, Bool-cases, test_self, eq_of_test,
}
use xtern.RunQueue
use xtern.RunQueue.{RunQueue, ThdStatus, runnable, running_reg}
use xtern.RunQueue.Chain.{status_at, eq_sym}
use xtern.RunQueue.Access.{front-Repr}
use xtern.Scheduler.State.{Options, WaitT, Sched, at_wait, post, wait}
use xtern.Scheduler.Tokens.{tokens}
use xtern.Scheduler.Waiting.Signal.{WellFormed, head_in_range}
use xtern.Scheduler.Turn.RoundRobin.{IsPlain, is_stopped, skip_stopped, started}
use xtern.Scheduler.Turn.Passing.{HasStatus}
use xtern.Scheduler.Turn.PutTurn.{put_turn-RoundRobin, status_after}
use xtern.Scheduler.Turn.{Next, turn_to, get_turn, put_turn}

-- The thread that is handed the turn takes it.
pub taken : Options → Next × Sched → Option Sched
taken o (turn_to t, s) = get_turn o t s
taken o _ = none

-- The head of the run queue puts its turn, and the thread that is handed it takes it.
pub pass : Options → ℕ → Sched → Option Sched
pass o th s = do self ← RunQueue.front s.runq; handed ← put_turn o self th false s; taken o handed

pub passes : Options → ℕ → ℕ → Sched → Option Sched
passes o th zero s = some s
passes o th (suc n) s = pass o th s >>= passes o th n

-- The head x runs, the threads behind it can run, and none has a turn left to take.
pub record IsTurning (o : Options) (s : Sched) (x : ℕ) (ts : List ℕ) : Type 0 where
  pub formed : WellFormed s (x ∷ ts)
  pub running : HasStatus s x running_reg
  pub ready : (u : ℕ) → has u ts ≡ true → HasStatus s u runnable
  pub idle : s.inter_pro_wakeup_flag ≡ false
  pub untaken : (u : ℕ) → has u (x ∷ ts) ≡ true → tokens o (s.waits u) ≡ 0

abbrev pub Turning : Options → Sched → List ℕ → Type 0
Turning o s [] = ⊥
Turning o s (x ∷ ts) = IsTurning o s x ts

skip-none :
    (q : RunQueue) (ts : List ℕ)
    → ((u : ℕ) → has u ts ≡ true → is_stopped (status_at (q.tid_map u)) ≡ false)
    → skip_stopped q ts ≡ ts
skip-none q [] go = refl
skip-none q (t ∷ ts) go = rw (go t (ap (λ b. b || has t ts) (test_self t))) refl

-- A turn that is posted is taken, and is the only one.
wait-post :
    (o : Options) (w : WaitT)
    → tokens o w ≡ 0
    → (w' : WaitT) × (wait o (post o w) ≡ some w')
      × (w'.chan ≡ w.chan)
      × (w'.timeout ≡ w.timeout)
      × (tokens o w' ≡ 0)
wait-post o w zero_left = elim (Bool-cases (o.enforce_turn_type == 1)) [
  | inl e ↦ (record w { sem = 0 }, ground (arith, zero_left, e), refl, refl, ground (arith, e))
  | inr e ↦ (record w { waken_up = false }, ground (arith, e), refl, refl, ground (arith, e))
]

-- Wait records with the same channels and timeouts.
rewaited-WellFormed :
    (s : Sched) (ts : List ℕ) (v : ℕ → WaitT)
    → WellFormed s ts
    → ((u : ℕ) → ((v u).chan ≡ (s.waits u).chan) × ((v u).timeout ≡ (s.waits u).timeout))
    → WellFormed (record s { waits = v }) ts
rewaited-WellFormed s ts v w same = record {
  repr = w.repr;
  distinct = w.distinct;
  apart = w.apart;
  live = w.live;
  wait_range = w.wait_range;
  run_range = w.run_range;
  at_rest = λ u h. ((same u).0 ∙ (w.at_rest u h).0, (same u).1 ∙ (w.at_rest u h).1);
  waiting = λ u h r. w.waiting u h (sym (same u).0 ∙ r.0, sym (same u).1 ∙ r.1);
}

get_turn-wait :
    (o : Options) (t : ℕ) (s : Sched) (w : WaitT)
    → ltb t s.tids.nthread ≡ true
    → wait o (s.waits t) ≡ some w
    → get_turn o t s ≡ some (record s { waits = at_wait s.waits t w })
unfolding get_turn
get_turn-wait o t s w range ran = rw range (rw ran refl)

member : (u x : ℕ) (ts : List ℕ) → has u (ts ++ x ∷ []) ≡ true → (has u ts ≡ true) ⊎ (x ≡ u)
member u x ts h = ground (arith, has-append u ts (x ∷ []))

to_front : (u x : ℕ) (ts : List ℕ) → has u (ts ++ x ∷ []) ≡ true → has u (x ∷ ts) ≡ true
to_front u x ts h = ground (arith, has-append u ts (x ∷ []))

-- The status of a thread of the queue, once the head's is that of one that can run.
before_runnable :
    (o : Options) (s : Sched) (x : ℕ) (ts : List ℕ) (u : ℕ)
    → IsTurning o s x ts
    → has u (ts ++ x ∷ []) ≡ true
    → (if x == u then some runnable else status_at (s.runq.tid_map u)) ≡ some runnable
before_runnable o s x ts u v h = elim (Bool-cases (x == u)) [
  | inl e ↦ rw e refl
  | inr e ↦ elim (member u x ts h) [
    | inl old ↦ rw e (v.ready u old)
    | inr same ↦ let yes = ap (◌==◌ x) (sym same) ∙ test_self x in cc
  ]
]

goes :
    (o : Options) (s : Sched) (x : ℕ) (ts : List ℕ) (u : ℕ)
    → IsTurning o s x ts
    → has u (ts ++ x ∷ []) ≡ true
    → is_stopped (status_at (s.runq.tid_map u)) ≡ false
goes o s x ts u v h = elim (member u x ts h) [
  | inl old ↦ ap is_stopped (v.ready u old)
  | inr same ↦
      subst (λ z. is_stopped (status_at (s.runq.tid_map z)) ≡ false) same (ap is_stopped v.running)
]

-- The state in which the thread that is handed the turn has taken it.
turned :
    (o : Options) (s s₁ : Sched) (x : ℕ) (ts : List ℕ) (t : ℕ) (rest : List ℕ) (w : WaitT)
    → IsTurning o s x ts
    → ts ++ x ∷ [] ≡ t ∷ rest
    → WellFormed s₁ (t ∷ rest)
    → ((u : ℕ) → s₁.waits u ≡ (if t == u then post o (s.waits t) else s.waits u))
    → s₁.inter_pro_wakeup_flag ≡ false
    → ((u : ℕ) → status_at (s₁.runq.tid_map u) ≡ status_after x t s u)
    → (w.chan ≡ (s₁.waits t).chan) × (w.timeout ≡ (s₁.waits t).timeout)
    → tokens o w ≡ 0
    → IsTurning o (record s₁ { waits = at_wait s₁.waits t w }) t rest
turned o s s₁ x ts t rest w v order w₁ posts off st same empty = record {
  formed = rewaited-WellFormed s₁ (t ∷ rest) (at_wait s₁.waits t w) w₁ (λ u. kept u);
  running = st t ∙ rw (test_self t) (ap started (before_runnable o s x ts t v (queued t first)));
  ready = λ u h.
      let other : (t == u) ≡ false = eq_sym u t (ne_of_has u t rest h w₁.repr.distinct.0) in
      st u ∙ rw other (before_runnable o s x ts u v (queued u (later u h)));
  idle = off;
  untaken = λ u h. elim (Bool-cases (t == u)) [
    | inl e ↦ rw e empty
    | inr e ↦ rw e (ap (tokens o) (posts u) ∙ rw e (v.untaken u (to_front u x ts (queued u h))))
  ];
}
  where
    first : has t (t ∷ rest) ≡ true
    first = ap (λ b. b || has t rest) (test_self t)

    later : (u : ℕ) → has u rest ≡ true → has u (t ∷ rest) ≡ true
    later u h = ground arith

    queued : (u : ℕ) → has u (t ∷ rest) ≡ true → has u (ts ++ x ∷ []) ≡ true
    queued u h = subst (λ l. has u l ≡ true) (sym order) h

    kept :
        (u : ℕ)
        → ((at_wait s₁.waits t w u).chan ≡ (s₁.waits u).chan)
          × ((at_wait s₁.waits t w u).timeout ≡ (s₁.waits u).timeout)
    kept u = elim (Bool-cases (t == u)) [
      | inl e ↦ rw e (
          subst (λ z. (w.chan ≡ (s₁.waits z).chan) × (w.timeout ≡ (s₁.waits z).timeout))
            (eq_of_test t u e) same)
      | inr e ↦ rw e (refl, refl)
    ]

pass-IsTurning :
    (o : Options) (th : ℕ) (s : Sched) (x : ℕ) (ts : List ℕ)
    → IsPlain o
    → IsTurning o s x ts
    → (s' : Sched) × (pass o th s ≡ some s') × Turning o s' (ts ++ x ∷ [])
unfolding pass taken
pass-IsTurning o th s x ts plain v =
    let (t, rest, s₁, ran, skip, w₁, posts, same, off, st) =
      put_turn-RoundRobin o x th s ts plain v.formed v.running v.idle in
    let order : ts ++ x ∷ [] ≡ t ∷ rest =
      sym (skip-none s.runq (ts ++ x ∷ []) (λ u h. goes o s x ts u v h)) ∙ skip in
    let mine : s₁.waits t ≡ post o (s.waits t) =
      posts t ∙ ap (λ b. if b then post o (s.waits t) else s.waits t) (test_self t) in
    let (w, took, c, d, empty) = wait-post o (s.waits t) (untaken_first t rest order) in
    let got = get_turn-wait o t s₁ w (head_in_range s₁ t rest w₁) (ap (wait o) mine ∙ took) in
    (
      record s₁ { waits = at_wait s₁.waits t w },
      rw (front-Repr s.runq x ts v.formed.repr) (rw ran got),
      subst (Turning o (record s₁ { waits = at_wait s₁.waits t w })) (sym order) (
          turned o s s₁ x ts t rest w v order w₁ posts off st
            (
              c ∙ sym (post-chan o (s.waits t)) ∙ sym (ap (λ z. z.chan) mine),
              d ∙ sym (post-timeout o (s.waits t)) ∙ sym (ap (λ z. z.timeout) mine),
            )
            empty),
    )
  where
    untaken_first : (t : ℕ) (rest : List ℕ) → ts ++ x ∷ [] ≡ t ∷ rest → tokens o (s.waits t) ≡ 0
    untaken_first t rest order = v.untaken t (
        to_front t x ts
          (subst (λ l. has t l ≡ true) (sym order) (ap (λ b. b || has t rest) (test_self t))))

    post-chan : (o : Options) (w : WaitT) → (post o w).chan ≡ w.chan
    post-chan o w = ground arith

    post-timeout : (o : Options) (w : WaitT) → (post o w).timeout ≡ w.timeout
    post-timeout o w = ground arith

-- With the plain options, and from a consistent state in which the head of the run queue runs, all
-- threads behind it can run, none has a turn left to take and none is back from a blocking operation:
-- if each thread that gets the turn puts it again, every putTurn and every getTurn of the thread that
-- is handed the turn returns, and a thread with n threads before it has the turn after n passes. It
-- is then the head and runs, and those before it are queued behind the others, in order.
pub turn_comes :
    (o : Options) (th : ℕ) (s : Sched) (before : List ℕ) (t : ℕ) (after : List ℕ)
    → IsPlain o
    → Turning o s (before ++ t ∷ after)
    → (s' : Sched) × (passes o th (length before) s ≡ some s') × IsTurning o s' t (after ++ before)
unfolding passes
turn_comes o th s [] t after plain v = (s, refl, subst (IsTurning o s t) (sym (append-nil after)) v)
turn_comes o th s (x ∷ before) t after plain v =
    let (s₁, ran, v₁) = pass-IsTurning o th s x (before ++ t ∷ after) plain v in
    let (s₂, ran₂, v₂) =
      turn_comes o th s₁ before t (after ++ x ∷ []) plain
        (subst (Turning o s₁) (append_assoc before (t ∷ after) (x ∷ [])) v₁) in
    (s₂, rw ran ran₂, subst (IsTurning o s₂ t) (append_assoc after (x ∷ []) before) v₂)
