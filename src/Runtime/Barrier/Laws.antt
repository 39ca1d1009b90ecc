-- ===== src/Runtime/Barrier/Laws.antt =====
-- The count of a barrier in lib/runtime/record-runtime.cpp, and whom the last thread wakes.
use xtern.Base.{ℕ, ◌+◌, ◌≡◌, refl, true, false, some, List, ◌∷◌, arith, leb, ◌==◌, ◌>>=◌}
use xtern.Scheduler.State.{Sched, null}
use xtern.Scheduler.Turn
use xtern.Scheduler.Turn.{Next}
use xtern.Scheduler.Waiting.Waking.{chosen, others}
use xtern.Scheduler.Waiting.Signal.{WellFormed, Woke, signal-Woke}
use xtern.Runtime.State.{Libc, RtOptions, Rt, BarrierT, with_sched, sync_signal}
use xtern.Runtime.Barrier.{arrive, set_barrier}

module _ (c : Libc) (o : RtOptions) (ba self th : ℕ) (b : BarrierT) (r : Rt c) where
  -- The last of the threads of a barrier, the head of the run queue in a consistent state: its count
  -- starts again from 0, every thread that waits on the barrier stands at the end of the run queue, in
  -- the order of arrival and with the status 0, and the call goes on by a putTurn, to return
  -- PTHREAD_BARRIER_SERIAL_THREAD.
  pub arrive_last :
      (ts : List ℕ)
      → WellFormed r.sched (self ∷ ts)
      → (ba == null) ≡ false
      → b.count ≡ b.narrived + 1
      → (s : Sched) × Woke 0 r.sched
          (self ∷ ts)
          (chosen (λ t. (r.sched.waits t).chan == ba) true r.sched.waitq)
          (others (λ t. (r.sched.waits t).chan == ba) true r.sched.waitq)
          s
        × (arrive c o ba self th b r ≡ (
            Turn.put_turn o.sched self th false s >>= λ (n, s'). some (
              c.barrier_serial_thread,
              with_sched c (set_barrier c o ba (some (record b { narrived = 0 })) r) s',
            )))
  unfolding arrive sync_signal
  arrive_last ts w real full =
      let (s, ran, woke) = signal-Woke self ba true r.sched ts w real in
      let fits : leb (b.narrived + 1) b.count ≡ true = ground arith in
      let last : (b.count == b.narrived + 1) ≡ true = ground arith in
      (s, woke, rw (fits, last, ran) refl)
