-- ===== src/Runtime/State.antt =====
-- What the calls of lib/runtime/record-runtime.cpp share: the runtime's state, the C library as a
-- parameter, and the macros SCHED_TIMER_START and SCHED_TIMER_END. Logging (options::log_sync, off
-- by default), errno and the timers are not modelled;
-- add_non_det_var does nothing. A call is cut where its thread sleeps: each
-- piece runs while the thread has the turn, and says whether the call has returned.
use xtern.Base.{
  ℕ, ◌+◌, ◌-◌, ◌^◌, Bool, false, ◌&&◌, not, Option, some, ◌==◌, if◌then◌else◌, ◌>>=◌, ◌>>◌, require,
}
use xtern.TidMap.{idle_thread_tid}
use xtern.Runtime.Calls.{
  SocketCall, FileCall, PollCall, ProcessCall, SetupCall, NameCall, DirectCall,
}
use xtern.Scheduler.State.{Options, Sched}
use xtern.Scheduler.Waiting
use xtern.Scheduler.Turn

-- The functions of the C library that the calls make, with their arguments.
pub data LibcCall : Type 0 where
  mutex_init mutex_destroy mutex_trylock mutex_lock mutex_unlock : ℕ → LibcCall
  mutex_timedlock : ℕ → LibcCall
  rwlock_init rwlock_destroy rwlock_rdlock rwlock_wrlock rwlock_tryrdlock : ℕ → LibcCall
  rwlock_trywrlock rwlock_unlock : ℕ → LibcCall
  cond_wait cond_timedwait : ℕ → ℕ → LibcCall
  cond_signal cond_broadcast : ℕ → LibcCall
  sem_init : ℕ → ℕ → ℕ → LibcCall
  sem_wait sem_trywait sem_timedwait sem_post : ℕ → LibcCall
  barrier_init : ℕ → ℕ → LibcCall
  barrier_wait barrier_destroy : ℕ → LibcCall
  sched_yield fork : LibcCall
  execv : ℕ → ℕ → LibcCall
  sleep usleep : ℕ → LibcCall
  nanosleep : ℕ → ℕ → LibcCall
  socket_call : SocketCall → LibcCall
  file_call : FileCall → LibcCall
  fgets : ℕ → ℕ → ℕ → LibcCall
  poll_call : PollCall → LibcCall
  process_call : ProcessCall → LibcCall
  setup_call : SetupCall → LibcCall
  name_call : NameCall → LibcCall
  direct_call : DirectCall → LibcCall

-- The C library: its state, and what a call returns and does. The constants are of its headers.
pub record Libc : Type 1 where
  pub World : Type 0
  pub call : LibcCall → World → ℕ × World
  pub ebusy : ℕ
  pub barrier_serial_thread : ℕ
  -- Whether errno is EAGAIN.
  pub errno_again : World → Bool
  -- Where the hash table of the lineups keeps the value of a key.
  pub bar_address : ℕ → ℕ
  -- The descriptor of a stream, and what fstat says of a descriptor: `st_mode & S_IFMT`.
  pub fileno : ℕ → ℕ
  pub file_type : World → ℕ → ℕ
  pub s_ifsock : ℕ
  pub s_ififo : ℕ

-- -1 as an `int`.
abbrev pub minus_one : ℕ
minus_one = 2 ^ 32 - 1

pub record RtOptions : Type 0 where
  pub sched : Options
  pub nanosec_per_turn : ℕ
  pub record_runtime_stat : Bool
  pub rr_ignore_rw_regular_file : Bool
  pub exec_sleep : Bool

-- lib/runtime/runtime-stat.h.
pub record Stat : Type 0 where
  pub n_det_pthread_sync_op : ℕ
  pub n_inter_proc_sync_op : ℕ
  pub n_non_det_regions : ℕ
  pub n_non_det_pthread_sync : ℕ
  pub n_lineup_succ : ℕ
  pub n_lineup_timeout : ℕ

pub record BarrierT : Type 0 where
  pub count : ℕ
  pub narrived : ℕ

pub data Phase : Type 0 where
  arriving leaving : Phase

pub record RefCntBarrier : Type 0 where
  pub count : ℕ
  pub nactive : ℕ
  pub timeout : ℕ
  pub phase : Phase

abbrev pub replace {ℓ} : {A : Type ℓ} → (ℕ → A) → ℕ → A → ℕ → A
replace f k v j = if k == j then v else f j

module _ (c : Libc) where
  pub record Rt : Type 0 where
    pub sched : Sched
    pub world : c.World
    pub barriers : ℕ → Option BarrierT
    pub refcnt_bars : ℕ → Option RefCntBarrier
    pub in_non_det : ℕ → Bool
    pub stat : Stat

  -- How a piece of a call ends: the call has returned, or its thread sleeps until it has the turn
  -- again.
  pub data Seg : Type 0 where
    returned : ℕ → Rt → Seg
    asleep : Rt → Seg

  abbrev pub with_sched : Rt → Sched → Rt
  with_sched r s = record r { sched = s }

  -- A call of the C library.
  abbrev pub libc : LibcCall → Rt → ℕ × Rt
  libc k r = ((c.call k r.world).0, record r { world = (c.call k r.world).1 })

module _ (c : Libc) (o : RtOptions) where
  -- Whether the thread is inside a nondeterministic region.
  abbrev pub bypasses : ℕ → Rt c → Bool
  bypasses self r = o.sched.enforce_non_det_annotations && r.in_non_det self

  -- The branch of a thread inside a nondeterministic region: the real call.
  pub non_det_call : LibcCall → Rt c → Seg c
  non_det_call k r =
      let (ret, r') = libc c k r in
      returned ret (record r' {
        stat =
            (if o.record_runtime_stat
              then record r.stat { n_non_det_pthread_sync = r.stat.n_non_det_pthread_sync + 1 }
              else r.stat);
      })

  -- SCHED_TIMER_START: `none` while the thread has to wait for the turn. The
  -- idle thread is not counted.
  unfoldable pub sched_timer_start : ℕ → Rt c → Option (Rt c)
  sched_timer_start self r = do
    require (not (bypasses self r))
    s ← Turn.get_turn o.sched self r.sched
    some (record r {
      sched = s;
      stat =
          (if o.record_runtime_stat && not (self == idle_thread_tid)
            then record r.stat { n_det_pthread_sync_op = r.stat.n_det_pthread_sync_op + 1 }
            else r.stat);
    })

  -- SCHED_TIMER_END: the turn is counted and put.
  unfoldable pub sched_timer_end : ℕ → ℕ → ℕ → Rt c → Option (Seg c)
  sched_timer_end self th ret r = do
    (turn, s) ← Waiting.inc_turn_count o.sched r.sched
    (n, s') ← Turn.put_turn o.sched self th false s
    some (returned ret (with_sched c r s'))

  -- SCHED_TIMER_FAKE_END: the turn is counted and kept.
  unfoldable pub sched_timer_fake_end : Rt c → Option (Rt c)
  sched_timer_fake_end r = do
    (turn, s) ← Waiting.inc_turn_count o.sched r.sched
    some (with_sched c r s)

  -- syncWait and syncSignal, in the build without DBUG.
  unfoldable pub sync_wait : ℕ → ℕ → ℕ → Rt c → Option (Rt c)
  sync_wait self chan timeout r = do
    (n, s) ← Turn.wait_begin o.sched self chan timeout r.sched
    some (with_sched c r s)

  unfoldable pub sync_signal : ℕ → ℕ → Bool → Rt c → Option (Rt c)
  sync_signal self chan all r = do s ← Waiting.signal self chan all r.sched; some (with_sched c r s)

  -- The shape of a call that neither sleeps nor wakes others: `direct` in a nondeterministic region,
  -- `ordered` with the turn, under an assertion on what it returns.
  pub plain_call : LibcCall → LibcCall → (ℕ → Bool) → ℕ → ℕ → Rt c → Option (Seg c)
  plain_call direct ordered allowed self th r =
      if bypasses self r
      then some (non_det_call direct r)
      else (sched_timer_start self r >>= λ r₁.
          let (ret, r₂) = libc c ordered r₁ in
          require (allowed ret) >> sched_timer_end self th ret r₂)

  -- The shape of a call that releases an object and wakes the first thread that waits on it.
  unfoldable pub release_call : LibcCall → (ℕ → Bool) → ℕ → ℕ → ℕ → Rt c → Option (Seg c)
  release_call k allowed chan self th r =
      if bypasses self r
      then some (non_det_call k r)
      else (sched_timer_start self r >>= λ r₁.
          let (ret, r₂) = libc c k r₁ in
          require (allowed ret) >> sync_signal self chan false r₂ >>= λ r₃.
          sched_timer_end self th ret r₃)
