-- ===== src/BaseRuntime/Threads.antt =====
-- The methods of struct Runtime in lib/runtime/runtime.cpp for threads and processes, in the build
-- without DBUG.
use xtern.Base.{ℕ, ◌≡◌, refl}
use xtern.Runtime.Calls.{ProcessCall}
use xtern.Runtime.Methods.{TaskCall, ThreadCall, process_call, task_call, thread_call}
use xtern.Thread.{CLib, Method}
use xtern.BaseRuntime.Errno.{with_errno}

module _ (c : CLib) where
  unfoldable pub pthread_cancel : ℕ → Method c
  pthread_cancel thread = with_errno c (thread_call (ThreadCall.cancel thread))

  pub pthread_detach : ℕ → Method c
  pthread_detach th = with_errno c (process_call (ProcessCall.pthread_detach th))

  pub kill : ℕ → ℕ → Method c
  kill pid sig = with_errno c (process_call (ProcessCall.kill pid sig))

  pub fork : Method c
  fork = with_errno c (task_call TaskCall.fork)

  pub execv : ℕ → ℕ → Method c
  execv path argv = with_errno c (task_call (TaskCall.execv path argv))

  pub wait : ℕ → Method c
  wait status = with_errno c (process_call (ProcessCall.wait status))

  pub waitpid : ℕ → ℕ → ℕ → Method c
  waitpid pid status options = with_errno c (process_call (ProcessCall.waitpid pid status options))

  pub process_method : ProcessCall → Method c
  process_method (ProcessCall.pthread_detach th) = pthread_detach th
  process_method (ProcessCall.kill pid sig) = kill pid sig
  process_method (ProcessCall.wait status) = wait status
  process_method (ProcessCall.waitpid pid status options) = waitpid pid status options

  pub task_method : TaskCall → Method c
  task_method TaskCall.fork = fork
  task_method (TaskCall.execv path argv) = execv path argv

  pub process_method-with_errno :
      (k : ProcessCall) → process_method k ≡ with_errno c (process_call k)
  unfolding process_method pthread_detach kill wait waitpid
  process_method-with_errno (ProcessCall.pthread_detach th) = refl
  process_method-with_errno _ = refl

  pub task_method-with_errno : (k : TaskCall) → task_method k ≡ with_errno c (task_call k)
  unfolding task_method fork execv
  task_method-with_errno TaskCall.fork = refl
  task_method-with_errno _ = refl
