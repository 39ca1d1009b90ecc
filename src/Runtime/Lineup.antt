-- ===== src/Runtime/Lineup.antt =====
-- Lineups in lib/runtime/record-runtime.cpp: a reference-counted barrier with a timeout in turns. The
-- table of lineups is keyed by `unsigned`, so by the low 32 bits of the caller's number.
pub mod Laws
use xtern.Base.{
  ℕ, ◌+◌, ◌-◌, ◌%◌, Bool, true, false, ◌&&◌, not, Option, none, some, ltb, ◌==◌, if◌then◌else◌,
  is_some, ◌>>=◌, ◌>>◌, require,
}
use xtern.Scheduler.State.{unsigned_mod}
use xtern.Scheduler.Waiting
use xtern.Scheduler.Turn
use xtern.Scheduler.Turn.{Next}
use xtern.Runtime.State.{
  Libc, RtOptions, Rt, Seg, Stat, RefCntBarrier, Phase, arriving, leaving, returned, asleep,
  with_sched, bypasses, replace, sched_timer_start, sched_timer_end, sync_wait, sync_signal,
}

abbrev pub is_arriving : Phase → Bool
is_arriving arriving = true
is_arriving leaving = false

-- What `lineupEnd` makes of the lineup: the last thread to end it lets others arrive again.
pub ended : RefCntBarrier → RefCntBarrier
ended b =
    let n : ℕ = (b.nactive + unsigned_mod - 1) % unsigned_mod in
    record b {
      nactive = n;
      phase = (if (n == 0) && not (is_arriving b.phase) then arriving else b.phase);
    }

module _ (c : Libc) (o : RtOptions) where
  abbrev pub set_lineup : ℕ → Option RefCntBarrier → Rt c → Rt c
  set_lineup k b r = record r { refcnt_bars = replace r.refcnt_bars (k % unsigned_mod) b }

  abbrev pub lineup_of : ℕ → Rt c → Option RefCntBarrier
  lineup_of k r = r.refcnt_bars (k % unsigned_mod)

  -- A thread inside a nondeterministic region only counts.
  counted : Rt c → Seg c
  counted r = returned 0 (record r {
    stat =
        (if o.record_runtime_stat
          then record r.stat { n_non_det_pthread_sync = r.stat.n_non_det_pthread_sync + 1 }
          else r.stat);
  })

  pub lineup_init : ℕ → ℕ → ℕ → ℕ → ℕ → Rt c → Option (Seg c)
  unfolding counted
  lineup_init k count timeout_turns self th r =
      if bypasses c o self r
      then some (counted r)
      else (sched_timer_start c o self r >>= λ r₁.
          require (not (is_some (lineup_of k r₁)))
          >> sched_timer_end c o self th 0 (
              set_lineup k
                (some (record {
                  count = count;
                  nactive = 0;
                  timeout = timeout_turns;
                  phase = arriving;
                }))
                r₁))

  pub lineup_destroy : ℕ → ℕ → ℕ → Rt c → Option (Seg c)
  unfolding counted
  lineup_destroy k self th r =
      if bypasses c o self r
      then some (counted r)
      else (sched_timer_start c o self r >>= λ r₁.
          require (is_some (lineup_of k r₁))
          >> sched_timer_end c o self th 0 (set_lineup k none r₁))

  -- The lineup is left, and the threads that wait for it are woken.
  pub leave : ℕ → ℕ → RefCntBarrier → Stat → Rt c → Option (Rt c)
  leave k self b st r = sync_signal c o self (c.bar_address (k % unsigned_mod)) true (
      set_lineup k (some (record b { phase = leaving }))
        (record r { stat = (if o.record_runtime_stat then st else r.stat) }))

  -- The arrival at a lineup b, with the turn.
  pub line_up : ℕ → ℕ → ℕ → RefCntBarrier → Rt c → Option (Seg c)
  line_up k self th b r =
      let b' : RefCntBarrier = record b { nactive = (b.nactive + 1) % unsigned_mod } in
      let r' : Rt c = set_lineup k (some b') r in
      if b'.nactive == b.count
      then if is_arriving b.phase
        then (leave k self b' (record r.stat { n_lineup_succ = r.stat.n_lineup_succ + 1 }) r'
            >>= sched_timer_end c o self th 0)
        else sched_timer_end c o self th 0 r'
      else if is_arriving b.phase
      then (sync_wait c o self (c.bar_address (k % unsigned_mod))
            ((Waiting.get_turn_count r'.sched + b.timeout) % unsigned_mod) r'
          >>= λ r₁. some (asleep r₁))
      else sched_timer_end c o self th 0 r'

  pub lineup_start : ℕ → ℕ → ℕ → Rt c → Option (Seg c)
  unfolding counted
  lineup_start k self th r =
      if bypasses c o self r
      then some (counted r)
      else (sched_timer_start c o self r >>= λ r₁. lineup_of k r₁ >>= λ b. line_up k self th b r₁)

  -- Behind the sleep: the first thread that has timed out while too few have arrived lets all leave.
  pub lineup_start_resume : ℕ → ℕ → ℕ → Rt c → Option (Seg c)
  lineup_start_resume k self th r = Turn.wait_end o.sched self r.sched >>= λ (status, s).
      let r₁ : Rt c = with_sched c r s in
      lineup_of k r₁ >>= λ b.
      (if ltb b.nactive b.count && is_arriving b.phase
        then leave k self b (record r₁.stat { n_lineup_timeout = r₁.stat.n_lineup_timeout + 1 }) r₁
        else some r₁)
      >>= sched_timer_end c o self th 0

  pub lineup_end : ℕ → ℕ → ℕ → Rt c → Option (Seg c)
  unfolding counted
  lineup_end k self th r =
      if bypasses c o self r
      then some (counted r)
      else (sched_timer_start c o self r >>= λ r₁.
          lineup_of k r₁ >>= λ b. sched_timer_end c o self th 0 (set_lineup k (some (ended b)) r₁))
