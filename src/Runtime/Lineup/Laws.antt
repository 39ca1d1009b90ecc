-- ===== src/Runtime/Lineup/Laws.antt =====
-- The phases of a lineup in lib/runtime/record-runtime.cpp: whom the last thread that arrives wakes,
-- and how the lineup comes back to its first phase.
use xtern.Base.{
  ℕ, zero, suc, ◌+◌, ◌-◌, ◌%◌, ◌^◌, ◌≡◌, ◌<◌, refl, true, false, some, List, ◌∷◌, arith, ◌==◌,
  if◌then◌else◌,
}
use xtern.Scheduler.State.{Sched, null, unsigned_mod}
use xtern.Scheduler.Waiting.Waking.{chosen, others}
use xtern.Scheduler.Waiting.Signal.{WellFormed, Woke, signal-Woke}
use xtern.Runtime.State.{
  Libc, RtOptions, Rt, RefCntBarrier, arriving, leaving, with_sched, sched_timer_end, sync_signal,
}
use xtern.Runtime.Lineup.{set_lineup, lineup_of, leave, line_up, ended}

-- n threads end the lineup, one after the other.
abbrev pub all_end : ℕ → RefCntBarrier → RefCntBarrier
all_end zero b = b
all_end (suc n) b = all_end n (ended b)

-- When all the threads that are active in a lineup have ended it, whatever its phase was, it is in the
-- phase of arrival again with no active thread, and its count and timeout are the old ones.
pub all_end-arriving :
    (n : ℕ) (b : RefCntBarrier)
    → b.nactive ≡ suc n
    → suc n < 2 ^ 32
    → all_end (suc n) b ≡ record b { nactive = 0; phase = arriving }
unfolding ended
all_end-arriving zero b active small = ground (arith, active)
all_end-arriving (suc n) b active small =
    let fewer : (b.nactive + (2 ^ 32) - 1) % (2 ^ 32) ≡ suc n = omega (arith, active) in
    all_end-arriving n (ended b) fewer (omega arith)

module _ (c : Libc) (o : RtOptions) (k self th : ℕ) (b : RefCntBarrier) (r : Rt c) where
  abbrev counted_up : RefCntBarrier
  counted_up = record b { nactive = b.nactive + 1; phase = leaving }

  abbrev succeeded : Rt c
  succeeded = record r {
    stat =
        (if o.record_runtime_stat
          then record r.stat { n_lineup_succ = r.stat.n_lineup_succ + 1 }
          else r.stat);
  }

  -- The last of the threads of a lineup in the phase of arrival, the head of the run queue in a
  -- consistent state: every thread that waits for the lineup stands at the end of the run queue, in the
  -- order of arrival and with the status 0; the lineup is in the phase of leaving, and the call goes on
  -- to its end.
  pub line_up_last :
      (ts : List ℕ)
      → WellFormed r.sched (self ∷ ts)
      → (c.bar_address (k % unsigned_mod) == null) ≡ false
      → b.phase ≡ arriving
      → b.count ≡ b.nactive + 1
      → b.count < 2 ^ 32
      → (s : Sched) × Woke 0 r.sched
          (self ∷ ts)
          (chosen
            (λ t. (r.sched.waits t).chan == c.bar_address (k % unsigned_mod))
            true
            r.sched.waitq)
          (others
            (λ t. (r.sched.waits t).chan == c.bar_address (k % unsigned_mod))
            true
            r.sched.waitq)
          s
        × (r' : Rt c) × (line_up c o k self th b r ≡ sched_timer_end c o self th 0 r')
        × (r'.sched ≡ s)
        × (lineup_of c o k r' ≡ some counted_up)
        × (r'.world ≡ r.world)
  unfolding line_up leave sync_signal
  line_up_last ts w real phase full small =
      let (s, ran, woke) =
        signal-Woke self (c.bar_address (k % unsigned_mod)) true r.sched ts w real in
      let up : (b.nactive + 1) % unsigned_mod ≡ b.nactive + 1 = omega arith in
      let last : (b.nactive + 1 == b.count) ≡ true = ground arith in
      (
        s,
        woke,
        with_sched c
            (set_lineup c o k (some counted_up)
              (record (set_lineup c o k (some (record b { nactive = b.nactive + 1 })) r) {
                stat = succeeded.stat;
              }))
            s,
        rw up (rw last (rw phase (rw ran refl))),
        refl,
        ground arith,
        refl,
      )
