-- ===== src/Program.antt =====
-- lib/runtime/helper.cpp: the start and the end of the program, the threads it creates and the idle
-- thread, in the build without DBUG. A failed assertion is `none`. Reading the options and
-- InstallRuntime come before: they are the parameters `o` and `rt`.
use xtern.Base.{
  ℕ, zero, suc, ◌+◌, ◌-◌, ◌%◌, ◌^◌, ◌||◌, Bool, true, false, not, if◌then◌else◌, ltb, ◌==◌, Option,
  none, some, List, [], ◌∷◌, require, ◌>>=◌, ◌>>◌,
}
use xtern.Scheduler.State.{null}
use xtern.Space.{is_app, is_sys}
use xtern.Runtime.Methods.{ThreadCall, MutexCall, CondCall, thread_call, mutex_call, cond_call}
use xtern.Thread.{CLib, ProcOptions, Thread, Runtime, libc, entered, left}
use xtern.BaseRuntime.Receiving.{int_lt}
use xtern.Hooks.Threads
use xtern.Hooks.Locks
use xtern.Hooks.Services
use xtern.Hooks.Services.{Exit}

-- Where helper.cpp's objects are in memory, and what they hold.
pub record Statics (c : CLib) : Type 0 where
  pub idle_th : ℕ
  pub idle_mutex : ℕ
  pub idle_cond : ℕ
  -- The functions that the idle thread and all threads start with.
  pub idle_thread : ℕ
  pub thread_func : ℕ
  -- `idle_done`, and the id in `idle_th`.
  pub done : c.World → Bool
  pub set_done : c.World → c.World
  pub idle_id : c.World → ℕ

-- The numbers of the calls that helper.cpp makes itself, as `unsigned`.
abbrev pub idle_mutex_ins : ℕ
idle_mutex_ins = 0xdeadbeaf

abbrev pub idle_create_ins : ℕ
idle_create_ins = 0xdead0000

abbrev pub idle_join_ins : ℕ
idle_join_ins = 0xdeadffff

abbrev pub no_ins : ℕ
no_ins = 2 ^ 32 - 1

-- `delete[]`.
pub freed : ℕ → List ℕ → List ℕ
freed a [] = []
freed a (b ∷ bs) = if a == b then bs else b ∷ freed a bs

-- A thread, with the static variable of helper.cpp and whether __tern_prog_end is registered to run
-- at exit.
pub record Prog (c : CLib) : Type 0 where
  pub thread : Thread c
  pub prog_began : Bool
  pub at_exit : Bool

module _ (c : CLib) (rt : Runtime c) where
  -- `__tern_symbolic`.
  pub symbolic : ℕ → ℕ → ℕ → ℕ → Thread c → Option (Thread c)
  symbolic insid addr nbytes symname t =
      if not (int_lt 0 nbytes) || addr == null
      then some t
      else Services.symbolic_real c rt insid addr nbytes symname t

  -- `__tern_symbolic_argv`, of arguments with their addresses and lengths; `name` is where each name
  -- is written.
  pub symbolic_argv : ℕ → ℕ → List (ℕ × ℕ) → Thread c → Option (Thread c)
  symbolic_argv insid name [] t = some t
  symbolic_argv insid name ((addr, len) ∷ args) t = do
    t₁ ← Services.symbolic_real c rt insid addr ((len + 1) % 2 ^ 32) name t
    symbolic_argv insid name args t₁

module _ (c : CLib) (rt : Runtime c) (o : ProcOptions) (s : Statics c) (errorcheck : ℕ) where
  -- The idle thread is created behind the hook, which gives its number.
  pub start_idle : Thread c → Option (Thread c)
  start_idle t =
      if o.launch_idle_thread
      then (do
        (r, t₁) ← Locks.pthread_mutex_init c rt o errorcheck idle_mutex_ins s.idle_mutex null t
        (r', t₂) ← Threads.pthread_create c rt idle_create_ins s.idle_th null s.idle_thread null t₁
        some t₂)
      else some t

  -- `__tern_prog_begin`.
  pub prog_begin : Prog c → Option (Prog c)
  prog_begin p = do
    require (not p.prog_began)
    require (is_sys p.thread.space)
    t₁ ← Services.prog_begin c rt p.thread
    require (is_sys t₁.space)
    t₂ ← Services.thread_begin c rt t₁
    require (is_app t₂.space)
    t₃ ← start_idle t₂
    require (is_app t₃.space)
    some (record p { thread = t₃; prog_began = true; at_exit = true })

  -- `idle_done = 1`, behind the hooks of the lock, and the signal.
  pub stop_idle : Thread c → Option (Thread c)
  stop_idle t = do
    (r, t₁) ← Locks.pthread_mutex_lock c rt idle_mutex_ins s.idle_mutex t
    (r', t₂) ←
        Locks.pthread_mutex_unlock c rt idle_mutex_ins s.idle_mutex
          (record t₁ { world = s.set_done t₁.world })
    (r'', t₃) ← Locks.pthread_cond_signal c rt idle_mutex_ins s.idle_cond t₂
    some t₃

  -- The same signal by the C library's functions.
  pub signal_idle : Thread c → Option (Thread c)
  signal_idle t = do
    t₁ ← entered c t
    let t₂ = (libc c (mutex_call (MutexCall.lock s.idle_mutex)) t₁).1
    let t₃ = (libc c (cond_call (CondCall.signal s.idle_cond)) t₂).1
    left c (libc c (mutex_call (MutexCall.unlock s.idle_mutex)) t₃).1

  -- The calling thread, whose id is `th`, waits for the idle thread.
  pub join_idle : ℕ → Thread c → Option (Thread c)
  join_idle th t =
      if o.launch_idle_thread
      then (do
        require (not (th == s.idle_id t.world))
        (r, t₁) ← Threads.pthread_join c rt idle_join_ins (s.idle_id t.world) null t
        some t₁)
      else some t

  -- `__tern_prog_end`, by the thread `th`.
  pub prog_end : ℕ → Prog c → Option (Prog c)
  prog_end th p = do
    require p.prog_began
    require (is_app p.thread.space)
    t₁ ← Services.print_runtime_stat c rt p.thread
    t₂ ← stop_idle t₁
    t₃ ← signal_idle t₂
    t₄ ← join_idle th t₃
    t₅ ← Services.thread_end c rt no_ins t₄
    require (is_sys t₅.space)
    t₆ ← Services.prog_end c rt t₅
    require (is_sys t₆.space)
    some (record p { thread = t₆; prog_began = false })

  -- A round of the idle thread under its lock, by what it reads of `idle_done`, and whether another
  -- round follows.
  pub idle_locked : Bool → Thread c → Option (Bool × Thread c)
  idle_locked true t = do
    (r, t₁) ← Locks.pthread_mutex_unlock c rt idle_mutex_ins s.idle_mutex t
    some (false, t₁)
  idle_locked false t = do
    t₁ ← Services.idle_cond_wait c rt t
    (r, t₂) ← Locks.pthread_mutex_unlock c rt idle_mutex_ins s.idle_mutex t₁
    t₃ ← Services.idle_sleep c rt t₂
    some (true, t₃)

  pub idle_round : Thread c → Option (Bool × Thread c)
  idle_round t = do
    (r, t₁) ← Locks.pthread_mutex_lock c rt idle_mutex_ins s.idle_mutex t
    idle_locked (s.done t₁.world) t₁

  -- `idle_thread` on fuel: `none` also where the fuel runs out.
  pub idle_thread : ℕ → Thread c → Option (Thread c)
  idle_thread zero t = none
  idle_thread (suc fuel) t = idle_round t >>= λ r.
      let rest : Option (Thread c) = idle_thread fuel r.1 in if r.0 then rest else some r.1

  -- `__tern_pthread_create` with the heap blocks in use: `args` is the new block. It is given back
  -- where the result, an `int`, is negative.
  pub create_thread : ℕ → ℕ → ℕ → List ℕ → Thread c → ℕ × List ℕ × Thread c
  create_thread args thread attr heap t =
      let (ret, t') = libc c (thread_call (ThreadCall.create thread attr s.thread_func args)) t in
      (ret, (if ltb ret (2 ^ 31) then args ∷ heap else heap), t')

  -- `__tern_thread_func` of a thread that is `self`: the block of its arguments, which hold the
  -- function `user`, is given back before the function is called.
  pub thread_main :
      (ℕ → Thread c → Option (ℕ × Thread c))
      → ℕ
      → ℕ
      → ℕ
      → List ℕ
      → Thread c
      → Option (Exit (Thread c) × List ℕ)
  thread_main user arg self args heap t = do
    t₁ ← Services.thread_begin c rt t
    (ret, t₂) ← user arg t₁
    e ← Services.pthread_exit c rt self no_ins t₂
    some (e, freed args heap)
