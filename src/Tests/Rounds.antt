-- ===== src/Tests/Rounds.antt =====
-- The round of the turn over a run queue of three threads that can all run.
use xtern.Base.{refl, ◌≡◌, ◌||◌, none, some, [], ◌∷◌, arith, ◌==◌, if◌then◌else◌}
use xtern.RunQueue.{ElemMap, RunQueue, runnable, running_reg}
use xtern.RunQueue.Repr.{Repr}
use xtern.Scheduler.State.{Sched}
use xtern.Scheduler.Waiting.Signal.{WellFormed}
use xtern.Scheduler.Turn.Rounds.{passes, IsTurning, turn_comes}
use xtern.Tests.States.{elem_of, five_threads, three, some_options, some_options-IsPlain}

abbrev ready_elems : ElemMap
ready_elems t =
    if t == 0
    then some (elem_of 0 running_reg none (some 1))
    else if t == 1
    then some (elem_of 1 runnable (some 0) (some 2))
    else if t == 2
    then some (elem_of 2 runnable (some 1) none)
    else if t == 3 || t == 4
    then some (elem_of t runnable none none)
    else none

abbrev ready_queue : RunQueue
ready_queue = record { head = some 0; tail = some 2; num_elements = 3; tid_map = ready_elems }

ready-Repr : Repr ready_queue three
ready-Repr = record {
  before = none;
  chain = (
    elem_of 0 running_reg none (some 1),
    refl,
    refl,
    refl,
    (
      elem_of 1 runnable (some 0) (some 2),
      refl,
      refl,
      refl,
      (elem_of 2 runnable (some 1) none, refl, refl, refl, tt),
    ),
  );
  head_eq = refl;
  tail_eq = refl;
  count = refl;
  distinct = (refl, (refl, (refl, tt)));
  owned = record { tid_eq = λ t e h. ground arith; in_range = λ t e h. ground arith };
  detached = λ t e h out. ground arith;
}

abbrev all_ready : Sched
all_ready = record five_threads { runq = ready_queue }

all_ready-WellFormed : WellFormed all_ready three
all_ready-WellFormed = record {
  repr = ready-Repr;
  distinct = (refl, (refl, tt));
  apart = λ t h. ground arith;
  live = λ t h. ground arith;
  wait_range = λ t h. ground arith;
  run_range = λ t h. ground arith;
  at_rest = λ t h. ground arith;
  waiting = λ t h. ground arith;
}

all_ready-IsTurning : IsTurning some_options all_ready 0 (1 ∷ 2 ∷ [])
all_ready-IsTurning = record {
  formed = all_ready-WellFormed;
  running = refl;
  ready = λ u h. ground arith;
  idle = refl;
  untaken = λ u h. ground arith;
}

-- Thread 2 has the turn after two passes.
turn_comes_example :
    (s' : Sched) × (passes some_options 77 2 all_ready ≡ some s')
    × IsTurning some_options s' 2 (0 ∷ 1 ∷ [])
turn_comes_example =
    turn_comes some_options 77 all_ready (0 ∷ 1 ∷ []) 2 [] some_options-IsPlain all_ready-IsTurning
