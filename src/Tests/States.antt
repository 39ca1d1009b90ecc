-- ===== src/Tests/States.antt =====
-- A run queue of three threads, of which the second is stopped in an operation between processes,
-- and a scheduler in which two more threads wait.
use xtern.Base.{
  ℕ, refl, ◌||◌, true, false, Option, none, some, List, [], ◌∷◌, arith, ◌==◌, if◌then◌else◌,
}
use xtern.RunQueue.{RunqElem, ElemMap, RunQueue, ThdStatus, runnable, running_reg, inter_pro_stop}
use xtern.RunQueue.Repr.{IsOwned, Repr}
use xtern.NonDetThreadSet.{empty_set}
use xtern.Scheduler.State.{Options, WaitT, Sched, forever}
use xtern.Scheduler.Waiting.Signal.{WellFormed}
use xtern.Scheduler.Turn.RoundRobin.{IsPlain}

abbrev pub elem_of : ℕ → ThdStatus → Option ℕ → Option ℕ → RunqElem
elem_of t s p n = record { tid = t; status = s; prev = p; next = n }

-- The elements, by the status of the head.
abbrev pub elems_at : ThdStatus → ElemMap
elems_at s t =
    if t == 0
    then some (elem_of 0 s none (some 1))
    else if t == 1
    then some (elem_of 1 inter_pro_stop (some 0) (some 2))
    else if t == 2
    then some (elem_of 2 runnable (some 1) none)
    else if t == 3 || t == 4
    then some (elem_of t runnable none none)
    else none

abbrev pub queued_at : ThdStatus → RunQueue
queued_at s = record { head = some 0; tail = some 2; num_elements = 3; tid_map = elems_at s }

abbrev pub three_queued : RunQueue
three_queued = queued_at running_reg

abbrev pub three : List ℕ
three = 0 ∷ 1 ∷ 2 ∷ []

elems_at-IsOwned : (s : ThdStatus) → IsOwned (elems_at s)
elems_at-IsOwned s = record { tid_eq = λ t e h. ground arith; in_range = λ t e h. ground arith }

queued_at-Repr : (s : ThdStatus) → Repr (queued_at s) three
queued_at-Repr s = record {
  before = none;
  chain = (
    elem_of 0 s none (some 1),
    refl,
    refl,
    refl,
    (
      elem_of 1 inter_pro_stop (some 0) (some 2),
      refl,
      refl,
      refl,
      (elem_of 2 runnable (some 1) none, refl, refl, refl, tt),
    ),
  );
  head_eq = refl;
  tail_eq = refl;
  count = refl;
  distinct = (refl, (refl, (refl, tt)));
  owned = elems_at-IsOwned s;
  detached = λ t e h out. ground arith;
}

pub three-Repr : Repr three_queued three
three-Repr = queued_at-Repr running_reg

abbrev pub some_options : Options
some_options = record {
  enforce_turn_type = 2;
  launch_idle_thread = true;
  enforce_non_det_annotations = false;
  enforce_non_det_clock_bound = false;
  non_det_clock_bound = 10;
  etimedout = 110;
  non_det_cv = 9001;
  idle_cond = 9002;
  hash_order = λ l. l;
}

pub some_options-IsPlain : IsPlain some_options
some_options-IsPlain = record { no_annotations = refl; no_clock_bound = refl }

-- Thread 3 waits on the channel 7 up to turn 20, thread 4 on the channel 8 for ever.
abbrev pub two_wait : ℕ → WaitT
two_wait t =
    if t == 3
    then record { sem = 0; chan = 7; timeout = 20; status = 0; waken_up = false }
    else if t == 4
    then record { sem = 0; chan = 8; timeout = forever; status = 0; waken_up = false }
    else record { sem = 0; chan = 0; timeout = forever; status = 0; waken_up = false }

abbrev pub threads_at : ThdStatus → Sched
threads_at s = record {
  tids = record { p_t_map = λ p. none; t_p_map = λ t. none; zombies = λ p. false; nthread = 5 };
  runq = queued_at s;
  waitq = 3 ∷ 4 ∷ [];
  waits = two_wait;
  turn_count = 21;
  non_det_thds = empty_set;
  inter_pro_wakeup_tids = [];
  inter_pro_wakeup_flag = false;
  n_non_det_wait = 0;
  idle_done = false;
}

abbrev pub five_threads : Sched
five_threads = threads_at running_reg

pub threads_at-WellFormed : (s : ThdStatus) → WellFormed (threads_at s) three
threads_at-WellFormed s = record {
  repr = queued_at-Repr s;
  distinct = (refl, (refl, tt));
  apart = λ t h. ground arith;
  live = λ t h. ground arith;
  wait_range = λ t h. ground arith;
  run_range = λ t h. ground arith;
  at_rest = λ t h. ground arith;
  waiting = λ t h. ground arith;
}

pub five_threads-WellFormed : WellFormed five_threads three
five_threads-WellFormed = threads_at-WellFormed running_reg
