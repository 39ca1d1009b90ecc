-- ===== src/Hooks/Threads.antt =====
-- The hooks of lib/runtime/hooks.cpp for threads and processes.
use xtern.Base.{ℕ, ◌≡◌, refl}
use xtern.Runtime.Calls.{ProcessCall}
use xtern.Runtime.Methods.{TaskCall, ThreadCall, process_call, task_call, thread_call}
use xtern.Thread.{CLib, Runtime}
use xtern.Hooks.Crossing.{Hook, crossing, kept}

module _ (c : CLib) (rt : Runtime c) where
  pub pthread_cancel : ℕ → ℕ → Hook c rt
  pthread_cancel ins thread = crossing c rt (λ w. w) (thread_call (ThreadCall.cancel thread)) ins

  unfoldable pub pthread_create : ℕ → ℕ → ℕ → ℕ → ℕ → Hook c rt
  pthread_create ins thread attr thread_func arg =
      crossing c rt (λ w. w) (thread_call (ThreadCall.create thread attr thread_func arg)) ins

  unfoldable pub pthread_join : ℕ → ℕ → ℕ → Hook c rt
  pthread_join ins th retval = crossing c rt (λ w. w) (thread_call (ThreadCall.join th retval)) ins

  pub pthread_detach : ℕ → ℕ → Hook c rt
  pthread_detach ins th = crossing c rt (λ w. w) (process_call (ProcessCall.pthread_detach th)) ins

  pub kill : ℕ → ℕ → ℕ → Hook c rt
  kill ins pid sig = crossing c rt (λ w. w) (process_call (ProcessCall.kill pid sig)) ins

  pub fork : ℕ → Hook c rt
  fork ins = crossing c rt (λ w. w) (task_call TaskCall.fork) ins

  pub execv : ℕ → ℕ → ℕ → Hook c rt
  execv ins path argv = crossing c rt (λ w. w) (task_call (TaskCall.execv path argv)) ins

  pub wait : ℕ → ℕ → Hook c rt
  wait ins status = crossing c rt (λ w. w) (process_call (ProcessCall.wait status)) ins

  pub waitpid : ℕ → ℕ → ℕ → ℕ → Hook c rt
  waitpid ins pid status options =
      crossing c rt (λ w. w) (process_call (ProcessCall.waitpid pid status options)) ins

  pub thread_hook : ThreadCall → ℕ → Hook c rt
  thread_hook (ThreadCall.cancel thread) ins = pthread_cancel ins thread
  thread_hook (ThreadCall.create thread attr thread_func arg) ins =
      pthread_create ins thread attr thread_func arg
  thread_hook (ThreadCall.join th retval) ins = pthread_join ins th retval

  pub process_hook : ProcessCall → ℕ → Hook c rt
  process_hook (ProcessCall.pthread_detach th) ins = pthread_detach ins th
  process_hook (ProcessCall.kill pid sig) ins = kill ins pid sig
  process_hook (ProcessCall.wait status) ins = wait ins status
  process_hook (ProcessCall.waitpid pid status options) ins = waitpid ins pid status options

  pub task_hook : TaskCall → ℕ → Hook c rt
  task_hook TaskCall.fork ins = fork ins
  task_hook (TaskCall.execv path argv) ins = execv ins path argv

  pub thread_hook-crossing :
      (k : ThreadCall) (ins : ℕ)
      → thread_hook k ins ≡ crossing c rt (kept (thread_call k)) ((thread_call k)) ins
  unfolding thread_hook pthread_cancel pthread_create pthread_join
  thread_hook-crossing (ThreadCall.cancel thread) ins = refl
  thread_hook-crossing _ ins = refl

  pub process_hook-crossing :
      (k : ProcessCall) (ins : ℕ)
      → process_hook k ins ≡ crossing c rt (kept (process_call k)) ((process_call k)) ins
  unfolding process_hook pthread_detach kill wait waitpid
  process_hook-crossing (ProcessCall.pthread_detach th) ins = refl
  process_hook-crossing _ ins = refl

  pub task_hook-crossing :
      (k : TaskCall) (ins : ℕ)
      → task_hook k ins ≡ crossing c rt (kept (task_call k)) ((task_call k)) ins
  unfolding task_hook fork execv
  task_hook-crossing TaskCall.fork ins = refl
  task_hook-crossing _ ins = refl
