-- ===== src/Hooks/Table.antt =====
-- The hooks of lib/runtime/hooks.cpp, by the function of the C library that each stands for.
pub mod Laws
use xtern.Base.{ℕ, ◌≡◌, refl}
use xtern.Runtime.Methods
use xtern.Runtime.Methods.{
  CCall, thread_call, mutex_call, rwlock_call, cond_call, barrier_call, sem_call, sleep_call,
  task_call, socket_call, file_call, poll_call, process_call, setup_call, name_call, direct_call,
}
use xtern.Thread.{CLib, ProcOptions, Runtime}
use xtern.Hooks.Crossing.{Hook, crossing, kept, checked, without_attr}
use xtern.Hooks.Threads.{
  thread_hook, process_hook, task_hook, thread_hook-crossing, process_hook-crossing,
  task_hook-crossing,
}
use xtern.Hooks.Locks.{
  mutex_hook, cond_hook, barrier_hook, sem_hook, rwlock_hook, mutex_hook-crossing,
  cond_hook-crossing, barrier_hook-crossing, sem_hook-crossing, rwlock_hook-crossing,
}
use xtern.Hooks.Sockets.{socket_hook, setup_hook, socket_hook-crossing, setup_hook-crossing}
use xtern.Hooks.Names.{name_hook, name_hook-crossing}
use xtern.Hooks.Files.{file_hook, poll_hook, fgets, file_hook-crossing, poll_hook-crossing}
use xtern.Hooks.Times.{sleep_hook, direct_hook, sleep_hook-crossing, direct_hook-crossing}

-- The call that a hook hands on to the runtime's method.
abbrev pub passed : ProcOptions → ℕ → CCall → CCall
passed o errorcheck (mutex_call k) = mutex_call (checked o errorcheck k)
passed o errorcheck (barrier_call k) = barrier_call (without_attr k)
passed o errorcheck k = k

module _ (c : CLib) (rt : Runtime c) (o : ProcOptions) (errorcheck : ℕ) where
  pub hook_of : CCall → ℕ → Hook c rt
  hook_of (thread_call k) = thread_hook c rt k
  hook_of (mutex_call k) = mutex_hook c rt o errorcheck k
  hook_of (rwlock_call k) = rwlock_hook c rt k
  hook_of (cond_call k) = cond_hook c rt k
  hook_of (barrier_call k) = barrier_hook c rt k
  hook_of (sem_call k) = sem_hook c rt k
  hook_of (sleep_call k) = sleep_hook c rt k
  hook_of (task_call k) = task_hook c rt k
  hook_of (socket_call k) = socket_hook c rt k
  hook_of (file_call k) = file_hook c rt k
  hook_of (Methods.fgets s size stream) = λ ins. fgets c rt ins s size stream
  hook_of (poll_call k) = poll_hook c rt k
  hook_of (process_call k) = process_hook c rt k
  hook_of (setup_call k) = setup_hook c rt k
  hook_of (name_call k) = name_hook c rt k
  hook_of (direct_call k) = direct_hook c rt k

  -- Every hook crosses into the runtime's space and back round its method.
  pub hook_of-crossing :
      (k : CCall) (ins : ℕ) → hook_of k ins ≡ crossing c rt (kept k) (passed o errorcheck k) ins
  unfolding hook_of fgets
  hook_of-crossing (thread_call k) ins = thread_hook-crossing c rt k ins
  hook_of-crossing (mutex_call k) ins = mutex_hook-crossing c rt o errorcheck k ins
  hook_of-crossing (rwlock_call k) ins = rwlock_hook-crossing c rt k ins
  hook_of-crossing (cond_call k) ins = cond_hook-crossing c rt k ins
  hook_of-crossing (barrier_call k) ins = barrier_hook-crossing c rt k ins
  hook_of-crossing (sem_call k) ins = sem_hook-crossing c rt k ins
  hook_of-crossing (sleep_call k) ins = sleep_hook-crossing c rt k ins
  hook_of-crossing (task_call k) ins = task_hook-crossing c rt k ins
  hook_of-crossing (socket_call k) ins = socket_hook-crossing c rt k ins
  hook_of-crossing (file_call k) ins = file_hook-crossing c rt k ins
  hook_of-crossing (Methods.fgets s size stream) ins = refl
  hook_of-crossing (poll_call k) ins = poll_hook-crossing c rt k ins
  hook_of-crossing (process_call k) ins = process_hook-crossing c rt k ins
  hook_of-crossing (setup_call k) ins = setup_hook-crossing c rt k ins
  hook_of-crossing (name_call k) ins = name_hook-crossing c rt k ins
  hook_of-crossing (direct_call k) ins = direct_hook-crossing c rt k ins
