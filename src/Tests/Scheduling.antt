-- ===== src/Tests/Scheduling.antt =====
-- The theorems on the scheduler of lib/runtime/record-scheduler.cpp at a state of five threads.
use xtern.Base.{◌≡◌, ◌≢◌, refl, ◌⊎◌, true, false, none, some, [], ◌∷◌, arith}
use xtern.Scheduler.State.{Sched}
use xtern.Scheduler.Waiting.{signal, fire_timeouts}
use xtern.Scheduler.Waiting.Signal.{Woke, signal-Woke, fire_timeouts-Woke}
use xtern.Scheduler.Turn.{Next, out_of_fuel, next_runnable, put_turn}
use xtern.Scheduler.Turn.Runnable.{next_runnable-exits}
use xtern.Scheduler.Turn.RoundRobin.{FirstOf, next_runnable-FirstOf}
use xtern.Scheduler.Turn.PutTurn.{Passes, put_turn-RoundRobin}
use xtern.Scheduler.Waiting.Signal.{WellFormed}
use xtern.RunQueue.{runnable, running_inter_pro}
use xtern.RunQueue.Chain.{status_at}
use xtern.TidMap.{get_tid}
use xtern.TidMap.Laws.{IsInverse}
use xtern.Scheduler.Threads.{init, create}
use xtern.Scheduler.Threads.Start.{StartsAlone, init-WellFormed, create-WellFormed}
use xtern.Scheduler.Turn.{wait_begin, block}
use xtern.Scheduler.Turn.Wait.{Parks, wait_begin-Parks}
use xtern.Scheduler.Turn.Block.{Leaves, block-Leaves}
use xtern.Scheduler.Waiting.{inc_turn_count}
use xtern.Scheduler.Waiting.Count.{ticked, inc_turn_count-Woke}
use xtern.Tests.States.{
  three, three-Repr, some_options, some_options-IsPlain, five_threads, five_threads-WellFormed,
  threads_at, threads_at-WellFormed,
}

put_turn-RoundRobin_example :
    Passes some_options 0 five_threads (1 ∷ 2 ∷ []) (put_turn some_options 0 77 false five_threads)
put_turn-RoundRobin_example =
    put_turn-RoundRobin some_options 0 77 five_threads (1 ∷ 2 ∷ []) some_options-IsPlain
      five_threads-WellFormed refl refl

next_runnable-FirstOf_example :
    FirstOf five_threads 0 (1 ∷ 2 ∷ []) (next_runnable some_options 0 false 3 five_threads)
next_runnable-FirstOf_example =
    next_runnable-FirstOf some_options 0 false 3 five_threads three 0 (1 ∷ 2 ∷ [])
      some_options-IsPlain three-Repr refl (ground arith)

next_runnable-exits_example :
    (next_runnable some_options 0 false 6 five_threads ≡ none)
    ⊎ ((x : Next) × (s' : Sched) × (next_runnable some_options 0 false 6 five_threads
          ≡ some (x, s'))
        × (x ≢ out_of_fuel))
next_runnable-exits_example =
    next_runnable-exits some_options 0 false 6 five_threads three five_threads-WellFormed
      (ground arith)

signal-Woke_example :
    (s' : Sched) × (signal 0 7 true five_threads ≡ some s')
    × Woke 0 five_threads three (3 ∷ []) (4 ∷ []) s'
signal-Woke_example = signal-Woke 0 7 true five_threads (1 ∷ 2 ∷ []) five_threads-WellFormed refl

fire_timeouts-Woke_example :
    (s' : Sched) × (fire_timeouts some_options five_threads ≡ some s')
    × Woke 110 five_threads three (3 ∷ []) (4 ∷ []) s'
fire_timeouts-Woke_example =
    fire_timeouts-Woke some_options five_threads three five_threads-WellFormed

init-WellFormed_example : (s : Sched) × (init some_options 70 ≡ some s) × StartsAlone s 70
init-WellFormed_example = init-WellFormed some_options 70

no_ids-IsInverse : IsInverse five_threads.tids
no_ids-IsInverse = record { there = λ p t h. cc; back = λ p t h. cc; given = λ p t h. cc }

unknown : get_tid five_threads.tids 78 ≡ none
unfolding get_tid
unknown = refl

create-WellFormed_example :
    (s' : Sched) × (create 0 78 five_threads ≡ some s')
    × WellFormed s' (0 ∷ 1 ∷ 2 ∷ 5 ∷ [])
    × IsInverse s'.tids
    × (get_tid s'.tids 78 ≡ some 5)
    × (status_at (s'.runq.tid_map 5) ≡ some runnable)
create-WellFormed_example =
    create-WellFormed 0 78 five_threads (1 ∷ 2 ∷ []) five_threads-WellFormed no_ids-IsInverse
      unknown refl (ground arith) (refl, refl)

wait_begin-Parks_example :
    Parks some_options 0 9 100 five_threads 2
      (3 ∷ [])
      (wait_begin some_options 0 9 100 five_threads)
wait_begin-Parks_example =
    wait_begin-Parks some_options 0 9 100 five_threads (1 ∷ 2 ∷ []) 2 (3 ∷ []) some_options-IsPlain
      five_threads-WellFormed refl refl refl refl

inc_turn_count-Woke_example :
    (s' : Sched) × (inc_turn_count some_options five_threads ≡ some (21, s'))
    × Woke 110 (ticked five_threads) three (3 ∷ []) (4 ∷ []) s'
inc_turn_count-Woke_example =
    inc_turn_count-Woke some_options five_threads three five_threads-WellFormed refl

-- Thread 0 blocks: 1 is stopped, and the turn goes to 2, before 3, whose timeout has come.
block-Leaves_example :
    Leaves some_options 0
      (threads_at running_inter_pro)
      2
      (3 ∷ [])
      (block some_options 0 (threads_at running_inter_pro))
block-Leaves_example =
    block-Leaves some_options 0 (threads_at running_inter_pro) (1 ∷ 2 ∷ []) 2 (3 ∷ [])
      some_options-IsPlain (threads_at-WellFormed running_inter_pro) refl refl refl
