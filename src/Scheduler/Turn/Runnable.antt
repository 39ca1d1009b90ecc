-- ===== src/Scheduler/Turn/Runnable.antt =====
-- The loop of nextRunnable of lib/runtime/record-scheduler.cpp, under all options.
use xtern.Base.{
  ℕ, zero, suc, ◌+◌, ◌≡◌, ◌≢◌, refl, ◌∙◌, ◌<◌, ◌⊎◌, inl, inr, Bool, Option, none, some, List, [],
  ◌∷◌, arith, ◌>>=◌, length, Option-cases, ◌⊎◌, Option-cases,
}
use xtern.Scheduler.State.{Options, Sched}
use xtern.Scheduler.Waiting.Signal.{WellFormed}
use xtern.Scheduler.Turn.{
  Next, out_of_fuel, Round, done, again, fill, process_head, proceed, next_runnable,
}
use xtern.Scheduler.Turn.RoundEnds.{
  faults, ends, goes_on, IsRound, fill-IsRound, process_head-nil, process_head-IsRound, fst_of_some,
}

-- No run of the loop ends for want of fuel.
abbrev Ended : Option (Next × Sched) → Type 0
Ended r = (x : Next) (s' : Sched) → r ≡ some (x, s') → x ≢ out_of_fuel

abbrev loop : Options → ℕ → Bool → ℕ → Option Round → Option (Next × Sched)
loop o self at_end fuel m =
    m >>= λ r. elim r [ done n s' ↦ some (n, s') | again s' ↦ next_runnable o self at_end fuel s' ]

module _ (o : Options) (self : ℕ) (at_end : Bool) (fuel : ℕ)
    (rest : (s : Sched) (ts : List ℕ)
      → WellFormed s ts
      → length ts + length s.waitq < fuel
      → Ended (next_runnable o self at_end fuel s)) where
  head-Ended :
      {n : ℕ} {m : Option Round} → IsRound n m → n < fuel → Ended (loop o self at_end fuel m)
  head-Ended faults small = λ y s' h. cc
  head-Ended (ends {x} {s} ne) small = λ y s' h e. ne (fst_of_some x y s s' h ∙ e)
  head-Ended (goes_on {s} ts w e) small = rest s ts w (omega arith)

  process-Ended :
      (s : Sched) (ts : List ℕ)
      → WellFormed s ts
      → length ts + length s.waitq < suc fuel
      → Ended (loop o self at_end fuel (process_head o s))
  process-Ended s [] w small = rw (process_head-nil o s w) (λ y s' h. cc)
  process-Ended s (t ∷ ts) w small = head-Ended (process_head-IsRound o s t ts w) (omega arith)

  round-Ended :
      {n : ℕ} {m : Option Round}
      → IsRound n m
      → n < suc fuel
      → Ended (loop o self at_end fuel (m >>= proceed o))
  round-Ended faults small = λ y s' h. cc
  round-Ended (ends {x} {s} ne) small = λ y s' h e. ne (fst_of_some x y s s' h ∙ e)
  round-Ended (goes_on {s} ts w e) small = process-Ended s ts w (omega arith)

loop_assoc :
    (o : Options) (self : ℕ) (at_end : Bool) (fuel : ℕ) (m : Option Round)
    → (m >>= λ r. loop o self at_end fuel (proceed o r)) ≡ loop o self at_end fuel (m >>= proceed o)
loop_assoc o self at_end fuel none = refl
loop_assoc o self at_end fuel (some r) = refl

-- The loop, over the rounds that are left.
next_runnable-Ended :
    (o : Options) (self : ℕ) (at_end : Bool) (fuel : ℕ) (s : Sched) (ts : List ℕ)
    → WellFormed s ts
    → length ts + length s.waitq < fuel
    → (x : Next) (s' : Sched) → next_runnable o self at_end fuel s ≡ some (x, s')
    → x ≢ out_of_fuel
unfolding next_runnable
next_runnable-Ended o self at_end zero s ts w small = absurd (omega arith)
next_runnable-Ended o self at_end (suc fuel) s ts w small =
    rw (loop_assoc o self at_end fuel (fill o self at_end s)) (
      round-Ended o self at_end fuel (next_runnable-Ended o self at_end fuel)
        (fill-IsRound o self at_end s ts w) small)

-- In a consistent state the loop of `nextRunnable` ends by a fault (`none`) or by one of its own
-- exits, within one round more than there are threads on the two queues.
pub next_runnable-exits :
    (o : Options) (self : ℕ) (at_end : Bool) (fuel : ℕ) (s : Sched) (ts : List ℕ)
    → WellFormed s ts
    → length ts + length s.waitq < fuel
    → (next_runnable o self at_end fuel s ≡ none)
      ⊎ ((x : Next) × (s' : Sched) × (next_runnable o self at_end fuel s ≡ some (x, s'))
          × (x ≢ out_of_fuel))
next_runnable-exits o self at_end fuel s ts w small =
    elim (Option-cases (next_runnable o self at_end fuel s)) [
      | inl e ↦ inl e
      | inr ((x, s'), e) ↦
          inr (x, s', e, next_runnable-Ended o self at_end fuel s ts w small x s' e)
    ]
