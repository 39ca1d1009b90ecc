-- ===== src/Scheduler/Tokens.antt =====
-- How often the wait of a thread's wait_t in lib/runtime/record-scheduler.cpp would return before the
-- next post: the turns that the thread has been handed and has not taken.
use xtern.Base.{
  ℕ, ◌+◌, ◌≡◌, ◌≤◌, Bool, true, false, none, some, arith, ◌==◌, if◌then◌else◌, Bool-cases, inl, inr,
  subst, eq_of_test,
}
use xtern.Scheduler.State.{Options, WaitT, Sched, reset, post, wait, at_wait}

abbrev pub tokens : Options → WaitT → ℕ
tokens o w = if o.enforce_turn_type == 1 then w.sem else if w.waken_up then 1 else 0

-- No thread is handed a turn between two states.
abbrev pub Calm : Options → Sched → Sched → Type 0
Calm o s s' = (u : ℕ) → tokens o (s'.waits u) ≤ tokens o (s.waits u)

-- One thread at most is handed a turn, and that once.
abbrev pub one_if : Bool → ℕ
one_if true = 1
one_if false = 0

pub Calm-refl : (o : Options) (s : Sched) → Calm o s s
Calm-refl o s u = omega arith

pub Calm-trans : (o : Options) (s s' s'' : Sched) → Calm o s s' → Calm o s' s'' → Calm o s s''
Calm-trans o s s' s'' c d u = omega (arith, c u, d u)

pub tokens-reset : (o : Options) (st : ℕ) (w : WaitT) → tokens o (reset st w) ≤ tokens o w
tokens-reset o st w = ground arith

pub tokens-post : (o : Options) (w : WaitT) → tokens o (post o w) ≤ tokens o w + 1
tokens-post o w = ground arith

-- A wait that returns takes a turn, and in the relays by a flag the only one.
pub tokens-wait : (o : Options) (w w' : WaitT) → wait o w ≡ some w' → tokens o w ≡ tokens o w' + 1
tokens-wait o w w' h = ground arith

pub wait-none : (o : Options) (w : WaitT) → tokens o w ≡ 0 → wait o w ≡ none
wait-none o w h = ground arith

-- The wait record of one thread changed, to one with no more turns.
pub Calm-at_wait :
    (o : Options) (s : Sched) (t : ℕ) (v : WaitT)
    → tokens o v ≤ tokens o (s.waits t)
    → (u : ℕ) → tokens o (at_wait s.waits t v u) ≤ tokens o (s.waits u)
Calm-at_wait o s t v le u = elim (Bool-cases (t == u)) [
  | inl e ↦ rw e (subst (λ x. tokens o v ≤ tokens o (s.waits x)) (eq_of_test t u e) le)
  | inr e ↦ rw e (omega arith)
]
