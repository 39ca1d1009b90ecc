-- ===== src/TidMap.antt =====
-- include/tern/runtime/scheduler.h, struct TidMap: the thread ids that the runtime gives out, and the
-- maps between them and the pthread ids. The hash maps and the hash set are functions; the thread
-- that calls (`self_tid`, which is thread-local) is an argument.
pub mod Laws
use xtern.Base.{
  ℕ, ◌+◌, Bool, true, false, ◌&&◌, not, Option, none, some, ◌==◌, if◌then◌else◌, is_some, ◌>>=◌,
  ◌>>◌, require,
}

abbrev pub main_thread_tid : ℕ
main_thread_tid = 0

abbrev pub idle_thread_tid : ℕ
idle_thread_tid = 1

pub record TidMap : Type 0 where
  pub p_t_map : ℕ → Option ℕ
  pub t_p_map : ℕ → Option ℕ
  pub zombies : ℕ → Bool
  pub nthread : ℕ

-- One entry of a map written, or removed by `none`.
abbrev pub assign : (ℕ → Option ℕ) → ℕ → Option ℕ → ℕ → Option ℕ
assign m k v j = if k == j then v else m j

-- One key of a set written or erased.
abbrev pub mark : (ℕ → Bool) → ℕ → Bool → ℕ → Bool
mark z k b j = if k == j then b else z j

-- Returns the new thread id. A pthread id that is mapped already is an assertion failure.
pub create : TidMap → ℕ → Option (ℕ × TidMap)
create m th = do
  require (not (is_some (m.p_t_map th)))
  some (
    m.nthread,
    record m {
      p_t_map = assign m.p_t_map th (some m.nthread);
      t_p_map = assign m.t_p_map m.nthread (some th);
      nthread = m.nthread + 1;
    },
  )

-- The thread id that the calling thread is told.
pub self_of : TidMap → ℕ → Option ℕ
self_of m th = m.p_t_map th

pub zombify : TidMap → ℕ → ℕ → Option TidMap
zombify m self th = do
  p ← m.t_p_map self
  require (p == th)
  some (record m {
    zombies = mark m.zombies p true;
    p_t_map = assign m.p_t_map p none;
    t_p_map = assign m.t_p_map self none;
  })

pub reap : TidMap → ℕ → TidMap
reap m th = record m { zombies = mark m.zombies th false }

-- `none` stands for InvalidTid.
unfoldable pub get_tid : TidMap → ℕ → Option ℕ
get_tid m th = m.p_t_map th

pub get_pthread_tid : TidMap → ℕ → Option ℕ
get_pthread_tid m t = m.t_p_map t

pub zombie : TidMap → ℕ → Bool
zombie m th = m.zombies th

-- The state that `init` finds, with the maps and the set cleared by `reset` or by their constructors.
abbrev cleared : TidMap
cleared = record { p_t_map = λ _. none; t_p_map = λ _. none; zombies = λ _. false; nthread = 0 }

pub init : ℕ → Option TidMap
unfolding create
init main_th = do (t, m) ← create cleared main_th; some m

pub reset : TidMap → ℕ → Option TidMap
unfolding init
reset m main_th = init main_th
