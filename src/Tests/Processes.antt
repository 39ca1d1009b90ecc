-- ===== src/Tests/Processes.antt =====
-- The theorems on blocking calls, sleeps and fork, at a run queue of three threads.
use xtern.Base.{
  ℕ, ◌+◌, ◌-◌, ◌≡◌, refl, ◌≤◌, true, false, some, [], ◌∷◌, arith, ◌==◌, if◌then◌else◌, has, ltb,
}
use xtern.RunQueue.{RunQueue, runnable, running_inter_pro}
use xtern.Scheduler.State.{Sched, WaitT, forever}
use xtern.Scheduler.Waiting.{check_wakeup}
use xtern.Scheduler.Waiting.Signal.{WellFormed}
use xtern.Scheduler.Waiting.Rejoin.{IsBack, check_wakeup-Joins}
use xtern.RunQueue.Repr.{SameStatus}
use xtern.Scheduler.Turn.{get_turn, put_turn}
use xtern.Scheduler.Turn.Rejoining.{Rejoins, put_turn-Rejoins}
use xtern.Scheduler.Turn.Passing.{HandedOver}
use xtern.Scheduler.Turn.Wait.{waits_after, given_up_by}
use xtern.Scheduler.Turn.Leaving.{Restated}
use xtern.Runtime.Calls.{accept, recv}
use xtern.Runtime.State.{Rt, returned, asleep, with_sched, socket_call, sched_timer_start}
use xtern.Runtime.Blocking.{at_head, blocking_start, blocking_finish}
use xtern.Runtime.Blocking.Laws.{blocking_start-Restated, blocking_finish-Asks}
use xtern.Runtime.Sleep.{sleep_begin}
use xtern.Runtime.Sleep.Laws.{sleep_begin-Parks}
use xtern.Tests.States.{
  five_threads, five_threads-WellFormed, three, three-Repr, some_options, some_options-IsPlain,
}
use xtern.Tests.Calls.{ready_libc, runtime_options, at_barrier}

-- Thread 3 is back from a blocking operation, and 2, which is queued still, too.
abbrev one_waits : ℕ → WaitT
one_waits t =
    if t == 4
    then record { sem = 0; chan = 8; timeout = forever; status = 0; waken_up = false }
    else record { sem = 0; chan = 0; timeout = forever; status = 0; waken_up = false }

abbrev two_back : Sched
two_back = record five_threads {
  waitq = 4 ∷ [];
  waits = one_waits;
  inter_pro_wakeup_tids = 3 ∷ 2 ∷ [];
  inter_pro_wakeup_flag = true;
}

two_back-WellFormed : WellFormed two_back three
two_back-WellFormed = record {
  repr = three-Repr;
  distinct = (refl, tt);
  apart = λ t h. ground arith;
  live = λ t h. ground arith;
  wait_range = λ t h. ground arith;
  run_range = λ t h. ground arith;
  at_rest = λ t h. ground arith;
  waiting = λ t h. ground arith;
}

two_back-IsBack : (w : ℕ) → has w (3 ∷ 2 ∷ []) ≡ true → IsBack two_back w
two_back-IsBack w h = record {
  live = ground arith;
  awake = ground arith;
  in_range = ground arith;
  at_rest = ground arith;
}

check_wakeup-Joins_example :
    (q : RunQueue) × (check_wakeup some_options two_back
      ≡ some
          (record two_back { runq = q; inter_pro_wakeup_tids = []; inter_pro_wakeup_flag = false }))
    × WellFormed
        (record two_back { runq = q; inter_pro_wakeup_tids = []; inter_pro_wakeup_flag = false })
        (0 ∷ 1 ∷ 2 ∷ 3 ∷ [])
    × SameStatus two_back.runq q
check_wakeup-Joins_example =
    check_wakeup-Joins some_options two_back three refl refl two_back-WellFormed two_back-IsBack

put_turn-Rejoins_example :
    Rejoins some_options two_back (1 ∷ 2 ∷ 0 ∷ 3 ∷ []) (put_turn some_options 0 77 false two_back)
put_turn-Rejoins_example =
    put_turn-Rejoins some_options 0 77 two_back (1 ∷ 2 ∷ []) some_options-IsPlain
      two_back-WellFormed refl refl two_back-IsBack

abbrev pub in_state : Sched → Rt ready_libc
in_state s = record at_barrier { sched = s }

-- Thread 1, which is stopped, ends its call.
blocking_finish-Asks_example :
    (r' : Rt ready_libc) × (blocking_finish ready_libc runtime_options
        (λ w. w)
        (socket_call (recv 3 500 8 0))
        1
        (in_state five_threads)
      ≡ some (returned 0 r'))
    × Restated 1 runnable five_threads r'.sched three
    × (has 1 r'.sched.inter_pro_wakeup_tids ≡ true)
    × (r'.sched.inter_pro_wakeup_flag ≡ true)
blocking_finish-Asks_example =
    blocking_finish-Asks ready_libc runtime_options (λ w. w) (socket_call (recv 3 500 8 0)) 1
      (in_state five_threads) three five_threads-WellFormed refl

-- Thread 0, at the head, begins one.
blocking_start-Restated_example :
    (r' : Rt ready_libc) × (blocking_start ready_libc runtime_options
        (socket_call (accept 3 0 0))
        0
        (in_state five_threads)
      ≡ some (at_head r'))
    × Restated 0 running_inter_pro five_threads r'.sched three
blocking_start-Restated_example =
    blocking_start-Restated ready_libc runtime_options (socket_call (accept 3 0 0)) 0
      (in_state five_threads) three true refl five_threads-WellFormed refl

-- Thread 0 is posted its turn.
abbrev pub given : Sched → Sched
given s = record s {
  waits = λ t.
      if t == 0
      then record { sem = 0; chan = 0; timeout = forever; status = 0; waken_up = true }
      else s.waits t;
}

abbrev pub taken : Sched → Sched
taken s = record s {
  waits = λ t.
      if 0 == t
      then record { sem = 0; chan = 0; timeout = forever; status = 0; waken_up = false }
      else (given s).waits t;
}

abbrev pub counted_state : Sched → Rt ready_libc
counted_state s = record (in_state (taken s)) {
  stat = record at_barrier.stat { n_det_pthread_sync_op = 1 };
}

pub starts :
    (s : Sched)
    → ltb 0 s.tids.nthread ≡ true
    → sched_timer_start ready_libc runtime_options 0 (in_state (given s)) ≡ some (counted_state s)
unfolding sched_timer_start get_turn
starts s range = rw range refl

pub taken-WellFormed : WellFormed (taken five_threads) three
taken-WellFormed = record {
  repr = three-Repr;
  distinct = (refl, (refl, tt));
  apart = λ t h. ground arith;
  live = λ t h. ground arith;
  wait_range = λ t h. ground arith;
  run_range = λ t h. ground arith;
  at_rest = λ t h. ground arith;
  waiting = λ t h. ground arith;
}

-- Thread 0 sleeps for two seconds, and the turn goes to thread 2.
sleep_begin-Parks_example :
    (n : ℕ) × (s' : Sched) × (26 ≤ n)
    × (n ≤ 1000026)
    × (sleep_begin ready_libc runtime_options
          (some (record { tv_sec = 2; tv_nsec = 0 }))
          0
          (in_state (given five_threads))
        ≡ some (asleep (with_sched ready_libc (counted_state five_threads) s')))
    × WellFormed s' (2 ∷ 3 ∷ [])
    × (s'.waitq ≡ 4 ∷ 0 ∷ [])
    × (s'.waits 0
        ≡ record { sem = 0; chan = 0; timeout = 21 + n - 1; status = 0; waken_up = false })
    × HandedOver some_options 2 22
        (waits_after some_options 0 0 (21 + n - 1) (taken five_threads))
        (given_up_by 0 (taken five_threads))
        s'
sleep_begin-Parks_example =
    sleep_begin-Parks ready_libc runtime_options (record { tv_sec = 2; tv_nsec = 0 }) 0
      (in_state (given five_threads)) (counted_state five_threads) (1 ∷ 2 ∷ []) 2 (3 ∷ [])
      some_options-IsPlain refl (ground arith) (starts five_threads refl) taken-WellFormed refl refl
      (ground arith) (ground arith) refl
