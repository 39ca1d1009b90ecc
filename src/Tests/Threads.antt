-- ===== src/Tests/Threads.antt =====
-- The theorems on the threads of a process, where the main thread has taken the first turn.
use xtern.Base.{ℕ, ◌≡◌, none}
use xtern.Scheduler.Turn.{get_turn}
use xtern.Scheduler.Exclusion.Safety.{mutual_exclusion, get_turn_waits}
use xtern.Scheduler.Exclusion.First.{first_turn}
use xtern.Tests.States.{some_options}

mutual_exclusion_example : ◌≡◌ {A = ℕ} 0 0
mutual_exclusion_example =
    mutual_exclusion some_options 70 (first_turn some_options 70).0 0 0
      (first_turn some_options 70).1 (first_turn some_options 70).2 (first_turn some_options 70).2

get_turn_waits_example : get_turn some_options 3 (first_turn some_options 70).0.sched ≡ none
get_turn_waits_example =
    get_turn_waits some_options 70 (first_turn some_options 70).0 0 3 (first_turn some_options 70).1
      (first_turn some_options 70).2
