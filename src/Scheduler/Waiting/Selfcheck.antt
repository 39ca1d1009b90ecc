-- ===== src/Scheduler/Waiting/Selfcheck.antt =====
-- selfcheck of lib/runtime/record-scheduler.cpp, the assertions that the scheduler makes under SELFCHECK.
use xtern.Base.{
  ℕ, ◌≡◌, refl, ◌∙◌, sym, ap, ◌<◌, inl, inr, Bool, true, false, ◌||◌, ◌&&◌, List, [], ◌∷◌, ◌++◌,
  arith, ◌==◌, has, has-append, Distinct, Bool-cases, ne_of_has, eq_of_test,
}
use xtern.RunQueue.Walk.{walk-Repr}
use xtern.Base.{some}
use xtern.Scheduler.State.{WaitT, Sched, null, forever}
use xtern.Scheduler.Waiting.{no_duplicates, at_rest, is_waiting, selfcheck}
use xtern.Scheduler.Waiting.Signal.{WellFormed, IsAtRest}

Distinct-append :
    (xs ys : List ℕ)
    → Distinct xs
    → Distinct ys
    → ((u : ℕ) → has u ys ≡ true → has u xs ≡ false)
    → Distinct (xs ++ ys)
Distinct-append [] ys d e apart = e
Distinct-append (x ∷ xs) ys d e apart = (
  fresh (has x ys) refl,
  Distinct-append xs ys d.1 e (λ u h. let out = apart u h in ground arith),
)
  where
    fresh : (b : Bool) → has x ys ≡ b → has x (xs ++ ys) ≡ false
    fresh true h = let out = apart x h in ground arith
    fresh false h = let out = d.0 in has-append x xs ys ∙ ground arith

-- What the first two loops test, of a list of distinct threads in range.
no_duplicates_lem :
    (n : ℕ) (seen ts : List ℕ)
    → Distinct ts
    → ((u : ℕ) → has u ts ≡ true → u < n)
    → ((u : ℕ) → has u ts ≡ true → has u seen ≡ false)
    → no_duplicates n seen ts ≡ true
unfolding no_duplicates
no_duplicates_lem n seen [] d below new = refl
no_duplicates_lem n seen (t ∷ ts) d below new =
    let head : has t (t ∷ ts) ≡ true = ground arith in
    let small = below t head in
    let out = new t head in
    let rest =
      no_duplicates_lem n (t ∷ seen) ts d.1 (λ u h. below u (ground arith))
        (λ u h.
          let other = ne_of_has u t ts h d.0 in let old = new u (ground arith) in ground arith) in
    ground arith

at_rest_lem :
    (w : ℕ → WaitT) (ts : List ℕ)
    → ((u : ℕ) → has u ts ≡ true → IsAtRest (w u))
    → at_rest w ts ≡ true
unfolding at_rest
at_rest_lem w [] h = refl
at_rest_lem w (t ∷ ts) h =
    let (c, d) = h t (ground arith) in
    let rest = at_rest_lem w ts (λ u i. h u (ground arith)) in ground arith

is_waiting_lem :
    (w : ℕ → WaitT) (ts : List ℕ)
    → ((u : ℕ) → has u ts ≡ true → ¬ IsAtRest (w u))
    → is_waiting w ts ≡ true
unfolding is_waiting
is_waiting_lem w [] h = refl
is_waiting_lem w (t ∷ ts) h =
    let rest = is_waiting_lem w ts (λ u i. h u (ground arith)) in
    let here = not_idle (w t) (h t (ground arith)) in ground arith
  where
    not_idle : (v : WaitT) → ¬ IsAtRest v → ((v.chan == null) && (v.timeout == forever)) ≡ false
    not_idle v h = elim (Bool-cases ((v.chan == null) && (v.timeout == forever))) [
      | inl e ↦
          absurd
            (h (eq_of_test v.chan null (ground arith), eq_of_test v.timeout forever (ground arith)))
      | inr e ↦ e
    ]

-- In a consistent state no assertion of `selfcheck` fails.
selfcheck-WellFormed : (s : Sched) (ts : List ℕ) → WellFormed s ts → selfcheck s ≡ some tt
unfolding selfcheck
selfcheck-WellFormed s ts w =
    let once =
      no_duplicates_lem s.tids.nthread [] (ts ++ s.waitq)
        (Distinct-append ts s.waitq w.repr.distinct w.distinct w.apart)
        (λ u h. in_range u (has u ts) refl h) (λ u h. refl) in
    let resting = at_rest_lem s.waits ts w.at_rest in
    let sleeping = is_waiting_lem s.waits s.waitq w.waiting in
    rw (walk-Repr s.runq ts w.repr) (rw (once, resting) (rw sleeping refl))
  where
    in_range : (u : ℕ) (b : Bool) → has u ts ≡ b → has u (ts ++ s.waitq) ≡ true → u < s.tids.nthread
    in_range u true e h = w.run_range u e
    in_range u false e h =
        w.wait_range u (ap (λ b. b || has u s.waitq) (sym e) ∙ (sym (has-append u ts s.waitq) ∙ h))
