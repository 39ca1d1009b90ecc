-- ===== src/Tests/Calls.antt =====
-- The theorems on lib/runtime/record-runtime.cpp at concrete times and at a barrier of two threads.
use xtern.Base.{
  ℕ, ◌+◌, ◌-◌, ◌^◌, ◌≡◌, refl, ◌≤◌, true, false, none, some, [], ◌∷◌, arith, ◌>>=◌, ◌==◌,
  if◌then◌else◌,
}
use xtern.Scheduler.State.{Sched}
use xtern.Scheduler.Turn
use xtern.Scheduler.Waiting.Signal.{Woke}
use xtern.Runtime.State.{Libc, RtOptions, Rt, BarrierT, with_sched}
use xtern.Runtime.Time.{rel_time_to_turn, max_rel, least_turns, sub_word}
use xtern.Runtime.Time.Laws.{rel_time_to_turn_bounds, past_deadline}
use xtern.Runtime.Barrier.{arrive, set_barrier}
use xtern.Runtime.Barrier.Laws.{arrive_last}
use xtern.Runtime.State.{RefCntBarrier, arriving, leaving, sched_timer_end}
use xtern.Runtime.Lineup.{line_up, lineup_of}
use xtern.Runtime.Lineup.Laws.{line_up_last}
use xtern.Tests.States.{five_threads, five_threads-WellFormed, some_options}

abbrev pub runtime_options : RtOptions
runtime_options = record {
  sched = some_options;
  nanosec_per_turn = 100000;
  record_runtime_stat = true;
  rr_ignore_rw_regular_file = true;
  exec_sleep = false;
}

rel_time_to_turn_bounds_example :
    (n : ℕ) × (rel_time_to_turn runtime_options five_threads
        (some (record { tv_sec = 2; tv_nsec = 5 }))
      ≡ some n)
    × (least_turns five_threads ≤ n)
    × (n ≤ max_rel + least_turns five_threads)
rel_time_to_turn_bounds_example =
    rel_time_to_turn_bounds runtime_options five_threads (record { tv_sec = 2; tv_nsec = 5 }) refl
      (ground arith)

past_deadline_example :
    rel_time_to_turn runtime_options five_threads
      (some (record { tv_sec = sub_word 0 3; tv_nsec = 5 }))
    ≡ some max_rel
past_deadline_example =
    past_deadline runtime_options five_threads 3 5 refl (ground arith) (ground arith) (ground arith)
      (ground arith) (ground arith) (ground arith)

-- A C library whose calls all succeed.
abbrev pub ready_libc : Libc
ready_libc = record {
  World = ℕ;
  call = λ k w. (0, w + 1);
  ebusy = 16;
  barrier_serial_thread = 2 ^ 32 - 1;
  errno_again = λ w. false;
  bar_address = λ k. k;
  fileno = λ stream. stream;
  file_type = λ w fd. if fd == 3 then 49152 else 32768;
  s_ifsock = 49152;
  s_ififo = 4096;
}

-- Of two threads of the barrier at 7, thread 3 waits.
abbrev one_arrived : BarrierT
one_arrived = record { count = 2; narrived = 1 }

abbrev pub at_barrier : Rt ready_libc
at_barrier = record {
  sched = five_threads;
  world = 0;
  barriers = λ a. some one_arrived;
  refcnt_bars = λ a. none;
  in_non_det = λ t. false;
  stat = record {
    n_det_pthread_sync_op = 0;
    n_inter_proc_sync_op = 0;
    n_non_det_regions = 0;
    n_non_det_pthread_sync = 0;
    n_lineup_succ = 0;
    n_lineup_timeout = 0;
  };
}

arrive_last_example :
    (s : Sched) × Woke 0 five_threads (0 ∷ 1 ∷ 2 ∷ []) (3 ∷ []) (4 ∷ []) s
    × (arrive ready_libc runtime_options 7 0 77 one_arrived at_barrier ≡ (
        Turn.put_turn some_options 0 77 false s >>= λ (n, s'). some (
          ready_libc.barrier_serial_thread,
          with_sched ready_libc
              (set_barrier ready_libc runtime_options 7
                (some (record { count = 2; narrived = 0 }))
                at_barrier)
              s',
        )))
arrive_last_example =
    arrive_last ready_libc runtime_options 7 0 77 one_arrived at_barrier (1 ∷ 2 ∷ [])
      five_threads-WellFormed refl refl

-- A lineup of two threads, where thread 3 waits and the other thread arrives.
abbrev one_lined_up : RefCntBarrier
one_lined_up = record { count = 2; nactive = 1; timeout = 50; phase = arriving }

line_up_last_example :
    (s : Sched) × Woke 0 five_threads (0 ∷ 1 ∷ 2 ∷ []) (3 ∷ []) (4 ∷ []) s
    × (r' : Rt ready_libc) × (line_up ready_libc runtime_options 7 0 77 one_lined_up at_barrier
        ≡ sched_timer_end ready_libc runtime_options 0 77 0 r')
    × (r'.sched ≡ s)
    × (lineup_of ready_libc runtime_options 7 r'
        ≡ some (record { count = 2; nactive = 2; timeout = 50; phase = leaving }))
    × (r'.world ≡ 0)
line_up_last_example =
    line_up_last ready_libc runtime_options 7 0 77 one_lined_up at_barrier (1 ∷ 2 ∷ [])
      five_threads-WellFormed refl refl refl (ground arith)
