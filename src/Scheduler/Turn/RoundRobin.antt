-- ===== src/Scheduler/Turn/RoundRobin.antt =====
-- Whom nextRunnable of lib/runtime/record-scheduler.cpp gives the turn, where neither nondeterministic
-- regions nor their clock bound are enforced (the plain options).
use xtern.Base.{
  ℕ, zero, suc, ◌≡◌, ◌≤◌, refl, ◌∙◌, sym, ap, subst, inl, inr, Bool, true, false, Option, some,
  List, [], ◌∷◌, arith, ◌==◌, if◌then◌else◌, length, Bool-cases, eq_of_test,
}
use xtern.RunQueue
use xtern.RunQueue.{
  RunQueue, RunqElem, ThdStatus, runnable, running_reg, running_inter_pro, inter_pro_stop,
}
use xtern.RunQueue.Chain.{status_at}
use xtern.RunQueue.Repr.{Repr, SameStatus}
use xtern.RunQueue.Queue.{pop_front-Repr}
use xtern.RunQueue.Access.{set_status-Repr, front_elem-Repr, empty-cons}
use xtern.Scheduler.State.{Options, Sched}
use xtern.Scheduler.Turn.{
  Next, turn_to, Round, done, again, fill, drop_head, process_status, process_head, next_runnable,
}

-- The build's default options for a program with no nondeterministic regions.
pub record IsPlain (o : Options) : Type 0 where
  pub no_annotations : o.enforce_non_det_annotations ≡ false
  pub no_clock_bound : o.enforce_non_det_clock_bound ≡ false

abbrev pub is_stopped : Option ThdStatus → Bool
is_stopped (some inter_pro_stop) = true
is_stopped _ = false

-- The run queue from its first thread on that is not stopped.
abbrev pub skip_stopped : RunQueue → List ℕ → List ℕ
skip_stopped q [] = []
skip_stopped q (t ∷ ts) = if is_stopped (status_at (q.tid_map t)) then skip_stopped q ts else t ∷ ts

fill-again :
    (o : Options) (self : ℕ) (at_end : Bool) (s : Sched)
    → IsPlain o
    → RunQueue.empty s.runq ≡ false
    → fill o self at_end s ≡ some (again s)
unfolding fill
fill-again o self at_end s plain some_left = ground (arith, plain.no_annotations)

drop_head-plain :
    (o : Options) (e : RunqElem) (s : Sched) (q : RunQueue)
    → IsPlain o
    → RunQueue.pop_front s.runq ≡ some q
    → drop_head o e s ≡ some (again (record s { runq = q }))
unfolding drop_head
drop_head-plain o e s q plain ran = ground (arith, plain.no_clock_bound)

skip-same :
    (q q' : RunQueue) (ts : List ℕ) → SameStatus q q' → skip_stopped q' ts ≡ skip_stopped q ts
skip-same q q' [] same = refl
skip-same q q' (t ∷ ts) same = rw (same t, skip-same q q' ts same) refl

abbrev pub started : Option ThdStatus → Option ThdStatus
started (some runnable) = some running_reg
started x = x

-- The thread t is at the head with the turn, in front of `ts`; the other statuses, the queue of
-- waiting threads and all else stay.
pub record TurnOf (s : Sched) (t : ℕ) (ts : List ℕ) (s' : Sched) : Type 0 where
  pub repr : Repr s'.runq (t ∷ ts)
  pub status_eq :
      (u : ℕ)
      → status_at (s'.runq.tid_map u)
        ≡ (if t == u then started (status_at (s.runq.tid_map u)) else status_at (s.runq.tid_map u))
  pub frame : s' ≡ record s { runq = s'.runq }

abbrev Picks : Sched → ℕ → List ℕ → Option Round → Type 0
Picks s t ts m = (s' : Sched) × (m ≡ some (done (turn_to t) s')) × TurnOf s t ts s'

as_it_is :
    (s : Sched) (t : ℕ) (ts : List ℕ) (e : RunqElem) (st : ThdStatus)
    → Repr s.runq (t ∷ ts)
    → s.runq.tid_map t ≡ some e
    → e.status ≡ st
    → started (some st) ≡ some st
    → TurnOf s t ts s
as_it_is s t ts e st r at same fixed = record {
  repr = r;
  status_eq = λ u. elim (Bool-cases (t == u)) [
    | inl here ↦
        let e' : t ≡ u = eq_of_test t u here in
        let got : status_at (s.runq.tid_map u) ≡ some st =
          ap (λ v. status_at (s.runq.tid_map v)) (sym e') ∙ (ap status_at at ∙ ap some same) in
        rw here (got ∙ (sym fixed ∙ ap started (sym got)))
    | inr other ↦ rw other refl
  ];
  frame = refl;
}

process_status-Picks :
    (o : Options) (s : Sched) (t : ℕ) (ts : List ℕ) (e : RunqElem) (st : ThdStatus)
    → Repr s.runq (t ∷ ts)
    → s.runq.tid_map t ≡ some e
    → e.tid ≡ t
    → e.status ≡ st
    → is_stopped (some st) ≡ false
    → Picks s t ts (process_status o e st s)
unfolding process_status
process_status-Picks o s t ts e inter_pro_stop r at own same goes = cc
process_status-Picks o s t ts e running_reg r at own same goes =
    (s, rw own refl, as_it_is s t ts e running_reg r at same refl)
process_status-Picks o s t ts e running_inter_pro r at own same goes =
    (s, rw own refl, as_it_is s t ts e running_inter_pro r at same refl)
process_status-Picks o s t ts e runnable r at own same goes =
    let (q, ran, r', one) = set_status-Repr s.runq t e running_reg (t ∷ ts) r at in
    (
      record s { runq = q },
      rw own (rw ran refl),
      record {
        repr = r';
        status_eq = λ u. elim (Bool-cases (t == u)) [
          | inl here ↦
              let e' : t ≡ u = eq_of_test t u here in
              let got : status_at (s.runq.tid_map u) ≡ some runnable =
                ap (λ v. status_at (s.runq.tid_map v)) (sym e')
                ∙ (ap status_at at ∙ ap some same) in
              one u ∙ rw here (ap started (sym got))
          | inr other ↦ one u ∙ rw other refl
        ];
        frame = refl;
      },
    )

process_head-Picks :
    (o : Options) (s : Sched) (t : ℕ) (ts : List ℕ)
    → Repr s.runq (t ∷ ts)
    → is_stopped (status_at (s.runq.tid_map t)) ≡ false
    → Picks s t ts (process_head o s)
unfolding process_head
process_head-Picks o s t ts r goes =
    let (e, ran, at, own) = front_elem-Repr s.runq t ts r in
    rw (empty-cons s.runq t ts r, ran)
      (process_status-Picks o s t ts e e.status r at own refl
        (ap (λ x. is_stopped (status_at x)) (sym at) ∙ goes))

process_head-stopped :
    (o : Options) (s : Sched) (t : ℕ) (ts : List ℕ) (q : RunQueue)
    → IsPlain o
    → Repr s.runq (t ∷ ts)
    → is_stopped (status_at (s.runq.tid_map t)) ≡ true
    → RunQueue.pop_front s.runq ≡ some q
    → process_head o s ≡ some (again (record s { runq = q }))
unfolding process_head process_status
process_head-stopped o s t ts q plain r stop popped =
    let (e, ran, at, own) = front_elem-Repr s.runq t ts r in
    let st : e.status ≡ inter_pro_stop =
      stopped_eq e.status (ap (λ x. is_stopped (status_at x)) (sym at) ∙ stop) in
    rw (empty-cons s.runq t ts r, ran)
      (ap (λ x. process_status o e x s) st ∙ drop_head-plain o e s q plain popped)
  where
    stopped_eq : (x : ThdStatus) → is_stopped (some x) ≡ true → x ≡ inter_pro_stop
    stopped_eq inter_pro_stop h = refl
    stopped_eq runnable h = cc
    stopped_eq running_reg h = cc
    stopped_eq running_inter_pro h = cc

-- What `nextRunnable` finds from a queue whose first thread that is not stopped is t, before `rest`.
abbrev pub FirstOf : Sched → ℕ → List ℕ → Option (Next × Sched) → Type 0
FirstOf s t rest m =
    (s' : Sched) × (m ≡ some (turn_to t, s'))
    × Repr s'.runq (t ∷ rest)
    × ((u : ℕ)
        → status_at (s'.runq.tid_map u) ≡ (
            if t == u
            then started (status_at (s.runq.tid_map u))
            else status_at (s.runq.tid_map u)))
    × (s' ≡ record s { runq = s'.runq })

if-same :
    (b : Bool) (x y : Option ThdStatus)
    → x ≡ y
    → (if b then started x else x) ≡ (if b then started y else y)
if-same b x y e = ap (λ z. if b then started z else z) e

abbrev head_or : List ℕ → ℕ
head_or [] = 0
head_or (t ∷ ts) = t

-- With the plain options, for a run queue that holds a thread that is not stopped in an operation
-- between processes, and on as many rounds as it holds threads, `nextRunnable` returns the first such
-- thread. It takes the stopped ones before it off the queue, and changes no status but the one of this
-- thread, from RUNNABLE to RUNNING_REG, and no field of the scheduler but the run queue.
pub next_runnable-FirstOf :
    (o : Options) (self : ℕ) (at_end : Bool) (fuel : ℕ) (s : Sched) (ts : List ℕ) (t : ℕ)
    (rest : List ℕ)
    → IsPlain o
    → Repr s.runq ts
    → skip_stopped s.runq ts ≡ t ∷ rest
    → length ts ≤ fuel
    → FirstOf s t rest (next_runnable o self at_end fuel s)
unfolding next_runnable
next_runnable-FirstOf o self at_end fuel s [] t rest plain r skip enough = cc
next_runnable-FirstOf o self at_end zero s (x ∷ ts) t rest plain r skip enough =
    absurd (omega arith)
next_runnable-FirstOf o self at_end (suc fuel) s (x ∷ ts) t rest plain r skip enough =
    let (q, popped, r', same) = pop_front-Repr s.runq x ts r in
    let s₁ : Sched = record s { runq = q } in
    let filled = fill-again o self at_end s plain (empty-cons s.runq x ts r) in
    elim (Bool-cases (is_stopped (status_at (s.runq.tid_map x)))) [
      | inl stop ↦
          let skipped : skip_stopped q ts ≡ t ∷ rest =
            skip-same s.runq q ts same
            ∙ (ap (λ b. if b then skip_stopped s.runq ts else x ∷ ts) (sym stop) ∙ skip) in
          let (s', ran, r'', st, frame) =
            next_runnable-FirstOf o self at_end fuel s₁ ts t rest plain r' skipped (omega arith) in
          (
            s',
            rw filled (rw (process_head-stopped o s x ts q plain r stop popped) ran),
            r'',
            λ u. st u ∙ if-same (t == u) _ _ (same u),
            frame,
          )
      | inr goes ↦
          let (s', ran, turn) = process_head-Picks o s x ts r goes in
          let here : x ∷ ts ≡ t ∷ rest =
            ap (λ b. if b then skip_stopped s.runq ts else x ∷ ts) (sym goes) ∙ skip in
          (
            s',
            rw filled (rw ran (ap (λ l. some (turn_to (head_or l), s')) here)),
            subst (Repr s'.runq) here turn.repr,
            λ u.
                turn.status_eq u
                ∙ ap
                    (λ l.
                      if head_or l == u
                      then started (status_at (s.runq.tid_map u))
                      else status_at (s.runq.tid_map u))
                    here,
            turn.frame,
          )
    ]
