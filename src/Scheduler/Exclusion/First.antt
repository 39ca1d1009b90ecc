-- ===== src/Scheduler/Exclusion/First.antt =====
-- The first turn of a process of lib/runtime/record-scheduler.cpp: the main thread takes it.
use xtern.Base.{ℕ, ◌≡◌, refl, true, false, some, [], Every-result}
use xtern.Scheduler.State.{Options, Sched}
use xtern.Scheduler.Waiting.Signal.{head_in_range}
use xtern.Scheduler.Turn.{get_turn}
use xtern.Scheduler.Turn.Handing.{get_turn-some}
use xtern.Scheduler.Threads.{init}
use xtern.Scheduler.Threads.Start.{init-WellFormed}
use xtern.Scheduler.Threads.Quiet.{init-tokens}
use xtern.Scheduler.Exclusion.{System, Reach, start, later, gets, took}

pub first_turn :
    (o : Options) (th : ℕ)
    → (x : System) × Reach o th x
      × (x.holds 0 ≡ true)
      × (s : Sched) × (s' : Sched) × Reach o th (record { holds = λ t. false; sched = s })
      × (get_turn o 0 s ≡ some s')
first_turn o th =
    let (s, ran, alone) = init-WellFormed o th in
    let one = Every-result (init o th) s (init-tokens o th) ran 0 in
    let (s', took_it) = get_turn-some o 0 s (head_in_range s 0 [] alone.0) one in
    (
      took (record { holds = λ t. false; sched = s }) 0 s',
      later (start s ran) (gets 0 s' took_it),
      refl,
      s,
      s',
      start s ran,
      took_it,
    )
