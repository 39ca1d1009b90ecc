-- ===== src/Scheduler/Waiting/Sweep.antt =====
-- The loop over the wait queue that signal, fireTimeouts and wakeUpIdleThread of
-- lib/runtime/record-scheduler.cpp share: which threads it wakes, which it keeps, and in what order.
use xtern.Base.{
  ℕ, ◌≡◌, refl, ◌∙◌, ap, subst, ◌<◌, inl, inr, Bool, true, false, some, List, [], ◌∷◌, ◌++◌,
  append_assoc, append-nil, arith, ltb, ◌==◌, if◌then◌else◌, has, Bool-cases, ne_of_has, eq_of_test,
}
use xtern.RunQueue.{RunQueue}
use xtern.RunQueue.Repr.{Repr, SameStatus}
use xtern.Scheduler.State.{WaitT, Sched, reset, at_wait}
use xtern.Scheduler.Waiting.{wake, sweep, Swept}
use xtern.Scheduler.Waiting.Waking.{
  chosen, chosen-same, CanWake, IsSwept, CanWake-skip, wake-CanWake,
}

module _ (test : ℕ → WaitT → Bool) (st : ℕ) where
  abbrev passes : Sched → ℕ → Bool
  passes s t = test t (s.waits t)

  abbrev Ends : Bool → List ℕ → Sched → List ℕ → Type 0
  Ends all ws s ts = (r : Swept) × (sweep test st all ws s ≡ some r) × IsSwept test st all ws s ts r

  sweep-nil : (all : Bool) (s : Sched) (ts : List ℕ) → CanWake s ts [] → Ends all [] s ts
  unfolding sweep
  sweep-nil all s ts c = (
    record { sched = s; kept = []; woken = [] },
    refl,
    record {
      kept_eq = refl;
      woken_eq = refl;
      repr = rw append-nil c.repr;
      same = λ u. refl;
      waits_eq = λ u. refl;
      frame = refl;
    },
  )

  sweep-skip :
      (all : Bool) (s : Sched) (ts : List ℕ) (t : ℕ) (ws : List ℕ)
      → CanWake s ts (t ∷ ws)
      → passes s t ≡ false
      → Ends all ws s ts
      → Ends all (t ∷ ws) s ts
  unfolding sweep
  sweep-skip all s ts t ws c miss (r, ran, is) =
      let small : ltb t s.tids.nthread ≡ true = ground (arith, c.in_range t) in
      (
        record r { kept = t ∷ r.kept },
        rw (small, sweep) (rw miss (rw ran refl)),
        record {
          kept_eq = rw miss (ap (◌∷◌ t) is.kept_eq);
          woken_eq = rw miss is.woken_eq;
          repr = rw miss is.repr;
          same = is.same;
          waits_eq = λ u. rw miss (is.waits_eq u);
          frame = is.frame;
        },
      )

  sweep-first :
      (s : Sched) (ts : List ℕ) (t : ℕ) (ws : List ℕ)
      → CanWake s ts (t ∷ ws)
      → passes s t ≡ true
      → Ends false (t ∷ ws) s ts
  unfolding sweep
  sweep-first s ts t ws c hit =
      let small : ltb t s.tids.nthread ≡ true = ground (arith, c.in_range t) in
      let (q, ran, c', same) = wake-CanWake st s ts t ws c in
      (
        record {
          sched = record s { runq = q; waits = at_wait s.waits t (reset st (s.waits t)) };
          kept = ws;
          woken = t ∷ [];
        },
        rw (small, sweep) (rw hit (rw ran refl)),
        record {
          kept_eq = rw hit refl;
          woken_eq = rw hit refl;
          repr = rw hit c'.repr;
          same = same;
          waits_eq = λ u. rw hit (reset_one s.waits t u);
          frame = refl;
        },
      )
    where
      reset_one :
          (w : ℕ → WaitT) (t u : ℕ)
          → at_wait w t (reset st (w t)) u ≡ (if has u (t ∷ []) then reset st (w u) else w u)
      reset_one w t u = ground (arith, ap w {x = t} {y = u})

  reset_more :
      (w : ℕ → WaitT) (t u : ℕ) (cs : List ℕ)
      → (if has u cs
          then reset st (at_wait w t (reset st (w t)) u)
          else at_wait w t (reset st (w t)) u)
        ≡ (if has u (t ∷ cs) then reset st (w u) else w u)
  reset_more w t u cs = elim (Bool-cases (t == u)) [
    | inl e ↦ let same : t ≡ u = eq_of_test t u e in rw (← same) (ground arith)
    | inr e ↦ ground arith
  ]

  sweep-more :
      (s : Sched) (ts : List ℕ) (t : ℕ) (ws : List ℕ) (q : RunQueue)
      → has t ws ≡ false
      → t < s.tids.nthread
      → passes s t ≡ true
      → wake st t s ≡ some (record s { runq = q; waits = at_wait s.waits t (reset st (s.waits t)) })
      → SameStatus s.runq q
      → Ends true ws
          (record s { runq = q; waits = at_wait s.waits t (reset st (s.waits t)) })
          (ts ++ t ∷ [])
      → Ends true (t ∷ ws) s ts
  unfolding sweep
  sweep-more s ts t ws q new below hit ran same (r, rans, is) =
      let small : ltb t s.tids.nthread ≡ true = ground arith in
      let w' : ℕ → WaitT = at_wait s.waits t (reset st (s.waits t)) in
      let (cs, os) =
        chosen-same (λ u. test u (w' u)) (passes s) true ws
          (λ u h.
            let ne : (u == t) ≡ false = ne_of_has u t ws h new in ap (test u) (ground arith)) in
      (
        record r { woken = t ∷ r.woken },
        rw (small, sweep) (rw hit (rw ran (rw rans refl))),
        record {
          kept_eq = rw hit (is.kept_eq ∙ os);
          woken_eq = rw hit (ap (◌∷◌ t) (is.woken_eq ∙ cs));
          repr = rw hit (
              subst (Repr r.sched.runq)
                (append_assoc ts (t ∷ []) (chosen (λ u. test u (w' u)) true ws)
                  ∙ ap (λ l. ts ++ t ∷ l) cs)
                is.repr);
          same = λ u. is.same u ∙ same u;
          waits_eq = λ u. rw hit (
              is.waits_eq u
              ∙ (reset_more s.waits t u (chosen (λ v. test v (w' v)) true ws)
                  ∙ ap (λ l. if has u (t ∷ l) then reset st (s.waits u) else s.waits u) cs));
          frame = is.frame;
        },
      )

  sweep-all : (ws : List ℕ) (s : Sched) (ts : List ℕ) → CanWake s ts ws → Ends true ws s ts
  sweep-all [] s ts c = sweep-nil true s ts c
  sweep-all (t ∷ ws) s ts c =
      let (q, ran, c', same) = wake-CanWake st s ts t ws c in
      let s' : Sched = record s { runq = q; waits = at_wait s.waits t (reset st (s.waits t)) } in
      let rest = sweep-all ws s' (ts ++ t ∷ []) c' in
      let skipped = sweep-all ws s ts (CanWake-skip s ts t ws c) in
      elim (Bool-cases (passes s t)) [
        | inl hit ↦
            sweep-more s ts t ws q c.distinct.0 (c.in_range t (ground arith)) hit ran same rest
        | inr miss ↦ sweep-skip true s ts t ws c miss skipped
      ]

  sweep-one : (ws : List ℕ) (s : Sched) (ts : List ℕ) → CanWake s ts ws → Ends false ws s ts
  sweep-one [] s ts c = sweep-nil false s ts c
  sweep-one (t ∷ ws) s ts c =
      let skipped = sweep-one ws s ts (CanWake-skip s ts t ws c) in
      elim (Bool-cases (passes s t)) [
        | inl hit ↦ sweep-first s ts t ws c hit
        | inr miss ↦ sweep-skip false s ts t ws c miss skipped
      ]

  -- The loop returns. It moves the chosen threads to the end of the run queue in the order in which
  -- they waited, resets their records, keeps the others, and changes nothing else.
  pub sweep-IsSwept :
      (all : Bool) (ws : List ℕ) (s : Sched) (ts : List ℕ) → CanWake s ts ws → Ends all ws s ts
  sweep-IsSwept true ws s ts c = sweep-all ws s ts c
  sweep-IsSwept false ws s ts c = sweep-one ws s ts c
