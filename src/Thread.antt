-- ===== src/Thread.antt =====
-- What one thread's call from the application goes through, from lib/runtime/hooks.cpp to the C
-- library: the thread's errno and space, the C library as a parameter, and the methods of struct
-- Runtime of include/tern/runtime/runtime.h. What other threads do while a call runs is part of what
-- the C library and the runtime do to the world.
use xtern.Base.{ℕ, Option, some, Bool, ◌>>=◌}
use xtern.Space.{Space, enter_sys, exit_sys}
use xtern.Runtime.Methods.{CCall, Service}

-- The C library: a call finds errno and the world, and leaves a result, errno and the world. The
-- constants are of its headers.
pub record CLib : Type 1 where
  pub World : Type 0
  pub call : CCall → ℕ → World → ℕ × ℕ × World
  pub f_setfl : ℕ
  pub o_nonblock : ℕ

pub record ProcOptions : Type 0 where
  pub dmt : Bool
  pub non_block_recv : Bool
  pub set_mutex_errorcheck : Bool
  pub dync_geteip : Bool
  pub whole_stack_eip_signature : Bool
  pub launch_idle_thread : Bool
  pub enforce_annotations : Bool
  pub enforce_non_det_annotations : Bool

module _ (c : CLib) where
  pub record Thread : Type 0 where
    pub world : c.World
    pub errno : ℕ
    pub space : Space

  -- A call of the C library.
  unfoldable pub libc : CCall → Thread → ℕ × Thread
  libc k t =
      let (ret, error, w) = c.call k t.errno t.world in (ret, record t { world = w; errno = error })

  -- A method with its `unsigned insid` and `int &error`: the result, what is left in `error`, and the
  -- thread.
  abbrev pub Method : Type 0
  Method = ℕ → ℕ → Thread → Option (ℕ × ℕ × Thread)

  -- `Runtime::the`.
  pub record Runtime : Type 0 where
    pub call : CCall → Method
    pub serve : Service → Thread → Option Thread
    pub symbolic : ℕ → ℕ → ℕ → ℕ → ℕ → Thread → Option (ℕ × Thread)

  unfoldable pub entered : Thread → Option Thread
  entered t = do s ← enter_sys t.space; some (record t { space = s })

  unfoldable pub left : Thread → Option Thread
  left t = do s ← exit_sys t.space; some (record t { space = s })
