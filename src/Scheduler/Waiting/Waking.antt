-- ===== src/Scheduler/Waiting/Waking.antt =====
-- What one round of the loop over the wait queue in lib/runtime/record-scheduler.cpp does, and what the
-- loop is to achieve.
-- lib/runtime/record-scheduler.cpp share: which threads it wakes, which it keeps, and in what order.
use xtern.Base.{
  ℕ, ◌≡◌, refl, ◌<◌, inl, inr, Bool, true, false, some, List, [], ◌∷◌, ◌++◌, arith, if◌then◌else◌,
  is_some, has, Distinct, has-append, Option-cases, ne_of_has,
}
use xtern.RunQueue
use xtern.RunQueue.{RunQueue}
use xtern.RunQueue.Repr.{Repr, SameStatus}
use xtern.RunQueue.Queue.{push_back-Repr}
use xtern.Scheduler.State.{WaitT, Sched, reset, at_wait}
use xtern.Scheduler.Waiting.{wake, Swept}

-- The threads of a list that pass a test: all, or the first.
abbrev pub chosen : (ℕ → Bool) → Bool → List ℕ → List ℕ
chosen p all [] = []
chosen p all (t ∷ ts) = elim (p t) [
  | true ↦ t ∷ elim all [ true ↦ chosen p all ts | false ↦ [] ]
  | false ↦ chosen p all ts
]

-- The other ones, in order.
abbrev pub others : (ℕ → Bool) → Bool → List ℕ → List ℕ
others p all [] = []
others p all (t ∷ ts) = elim (p t) [
  | true ↦ elim all [ true ↦ others p all ts | false ↦ ts ]
  | false ↦ t ∷ others p all ts
]

-- A thread that has an element.
abbrev pub IsLive : RunQueue → ℕ → Type 0
IsLive q t = is_some (q.tid_map t) ≡ true

pub IsLive-same : (q q' : RunQueue) (t : ℕ) → SameStatus q q' → IsLive q t → IsLive q' t
IsLive-same q q' t same h = ground (arith, same t)

pub elem_of_IsLive :
    (q : RunQueue) (t : ℕ) → IsLive q t → (e : RunQueue.RunqElem) × (q.tid_map t ≡ some e)
elem_of_IsLive q t h = elim (Option-cases (q.tid_map t)) [ inl e ↦ cc | inr x ↦ x ]

pub chosen-same :
    (p p' : ℕ → Bool) (all : Bool) (ts : List ℕ)
    → ((t : ℕ) → has t ts ≡ true → p t ≡ p' t)
    → (chosen p all ts ≡ chosen p' all ts) × (others p all ts ≡ others p' all ts)
chosen-same p p' all [] h = (refl, refl)
chosen-same p p' all (t ∷ ts) h =
    let head : p t ≡ p' t = h t (ground arith) in
    let rest = chosen-same p p' all ts (λ u i. h u (ground (arith, i))) in ground arith

-- The threads `ws` can be woken: they are distinct, not in the run queue, have elements and are in
-- range.
pub record CanWake (s : Sched) (ts ws : List ℕ) : Type 0 where
  pub repr : Repr s.runq ts
  pub distinct : Distinct ws
  pub apart : (t : ℕ) → has t ws ≡ true → has t ts ≡ false
  pub live : (t : ℕ) → has t ws ≡ true → IsLive s.runq t
  pub in_range : (t : ℕ) → has t ws ≡ true → t < s.tids.nthread

-- What the loop over `ws` gives back.
pub record IsSwept (test : ℕ → WaitT → Bool) (st : ℕ) (all : Bool) (ws : List ℕ) (s : Sched)
    (ts : List ℕ) (r : Swept) : Type 0 where
  pub kept_eq : r.kept ≡ others (λ t. test t (s.waits t)) all ws
  pub woken_eq : r.woken ≡ chosen (λ t. test t (s.waits t)) all ws
  pub repr : Repr r.sched.runq (ts ++ chosen (λ t. test t (s.waits t)) all ws)
  pub same : SameStatus s.runq r.sched.runq
  pub waits_eq :
      (u : ℕ)
      → r.sched.waits u ≡ (
          if has u (chosen (λ t. test t (s.waits t)) all ws)
          then reset st (s.waits u)
          else s.waits u)
  pub frame : r.sched ≡ record s { runq = r.sched.runq; waits = r.sched.waits }

pub CanWake-skip :
    (s : Sched) (ts : List ℕ) (t : ℕ) (ws : List ℕ) → CanWake s ts (t ∷ ws) → CanWake s ts ws
CanWake-skip s ts t ws c = record {
  repr = c.repr;
  distinct = c.distinct.1;
  apart = λ u h. c.apart u (ground (arith, h));
  live = λ u h. c.live u (ground (arith, h));
  in_range = λ u h. c.in_range u (ground (arith, h));
}

-- The body of the loop: the thread is queued behind the others and its record is reset.
pub wake-CanWake :
    (st : ℕ) (s : Sched) (ts : List ℕ) (t : ℕ) (ws : List ℕ)
    → CanWake s ts (t ∷ ws)
    → (q : RunQueue) × (wake st t s
        ≡ some (record s { runq = q; waits = at_wait s.waits t (reset st (s.waits t)) }))
      × CanWake
          (record s { runq = q; waits = at_wait s.waits t (reset st (s.waits t)) })
          (ts ++ t ∷ [])
          ws
      × SameStatus s.runq q
unfolding wake
wake-CanWake st s ts t ws c =
    let (e, at) = elem_of_IsLive s.runq t (c.live t (ground arith)) in
    let (q, ran, r, same) = push_back-Repr s.runq t e ts c.repr at (c.apart t (ground arith)) in
    (
      q,
      rw ran refl,
      record {
        repr = r;
        distinct = c.distinct.1;
        apart = λ u h. ground (
          arith,
          has-append u ts (t ∷ []),
          c.apart u (ground (arith, h)),
          ne_of_has u t ws h c.distinct.0,
        );
        live = λ u h. IsLive-same s.runq q u same (c.live u (ground (arith, h)));
        in_range = λ u h. c.in_range u (ground (arith, h));
      },
      same,
    )
