-- ===== src/Hooks/Table/Laws.antt =====
-- What a call of the application through a hook of lib/runtime/hooks.cpp does to its thread's space
-- and errno, and what it does over the methods of lib/runtime/runtime.cpp.
use xtern.Base.{
  ℕ, ◌≡◌, refl, sym, ap, ◌∙◌, ◌⊎◌, inl, inr, Bool, true, false, none, some, is_some, if◌then◌else◌,
}
use xtern.Runtime.Methods.{CCall, MutexCall, mutex_call, barrier_call}
use xtern.Space.{sys, app, is_app, is_sys, cross, enter_sys, exit_sys}
use xtern.Thread.{CLib, ProcOptions, Thread, Runtime, libc, entered, left}
use xtern.BaseRuntime.Errno.{with_errno, late_errno}
use xtern.BaseRuntime.Receiving.Laws.{Receives}
use xtern.BaseRuntime.Table.{method_of, base_runtime}
use xtern.BaseRuntime.Table.Laws.{is_rwlock, FitsInt, base_call-handed}
use xtern.Hooks.Crossing.{crossing, kept}
use xtern.Hooks.Table.{passed, hook_of, hook_of-crossing}

module _ (c : CLib) (rt : Runtime c) (o : ProcOptions) (errorcheck : ℕ) where
  -- Of any runtime: a call from the application's space of which the method returns in the runtime's
  -- space returns in the application's, with what the method left in `error` as errno, and with the
  -- method's result, cut to an `int` where the hook's variable is narrower than the function's type.
  pub hook_of-Returns :
      (k : CCall) (ins : ℕ) (t : Thread c) (ret error : ℕ) (t' : Thread c)
      → t.space ≡ app
      → rt.call (passed o errorcheck k) ins t.errno (record t { space = sys })
        ≡ some (ret, error, t')
      → t'.space ≡ sys
      → hook_of c rt o errorcheck k ins t
        ≡ some (kept k ret, record t' { space = app; errno = error })
  unfolding crossing entered left enter_sys exit_sys is_app is_sys cross
  hook_of-Returns k ins t ret error t' start ran end =
      rw (hook_of-crossing c rt o errorcheck k ins) (simp (start, ran, end))

  -- A call from the runtime's space is an assertion failure, and so is one from the application's
  -- space of which the method returns there.
  pub hook_of-none :
      (k : CCall) (ins : ℕ) (t : Thread c)
      → (t.space ≡ sys)
        ⊎ ((ret : ℕ) × (error : ℕ) × (t' : Thread c) × (t.space ≡ app)
            × (rt.call (passed o errorcheck k) ins t.errno (record t { space = sys })
                ≡ some (ret, error, t'))
            × (t'.space ≡ app))
      → hook_of c rt o errorcheck k ins t ≡ none
  unfolding crossing entered left enter_sys exit_sys is_app is_sys cross
  hook_of-none k ins t (inl start) = rw (hook_of-crossing c rt o errorcheck k ins) (simp (start))
  hook_of-none k ins t (inr (ret, error, t', start, ran, end)) =
      rw (hook_of-crossing c rt o errorcheck k ins) (simp (start, ran, end))

-- What is left of errno by a call: nothing where the base runtime hands it over too late.
abbrev pub errno_after : (c : CLib) → CCall → Thread c → ℕ
errno_after c k t = if is_rwlock k then t.errno else (libc c k t).1.errno

-- What errno is handed over as, early or late.
handed-libc :
    (c : CLib) (late : Bool) (k : CCall) (ins : ℕ) (t : Thread c)
    → (if late then late_errno c k else with_errno c k) ins t.errno (record t { space = sys })
      ≡ some (
        (libc c k t).0,
        (if late then t.errno else (libc c k t).1.errno),
        record t {
          world = (libc c k t).1.world;
          errno = (if late then t.errno else (libc c k t).1.errno);
          space = sys;
        },
      )
unfolding late_errno with_errno libc
handed-libc c true k ins t = refl
handed-libc c false k ins t = refl

module _ (c : CLib) (o : ProcOptions) (ts errorcheck : ℕ) (blocking : o.non_block_recv ≡ false)
    (unchecked : o.set_mutex_errorcheck ≡ false) (sane : Receives c) where
  passed-same : (k : CCall) → is_some (method_of c o ts k) ≡ true → passed o errorcheck k ≡ k
  unfolding method_of
  passed-same (mutex_call (MutexCall.init mutex attr)) has = simp (unchecked)
  passed-same (barrier_call k) has = cc
  passed-same _ has = refl

  -- Over the base runtime, with the options as they are by default, a call of the application is the
  -- C library's: its result, cut to an `int` where the hook's variable is too narrow, its world and
  -- its errno, except that a read-write lock leaves errno as it was.
  pub hook_of-Transparent :
      (k : CCall) (ins : ℕ) (t : Thread c)
      → t.space ≡ app
      → FitsInt k
      → is_some (method_of c o ts k) ≡ true
      → hook_of c (base_runtime c o ts) o errorcheck k ins t
        ≡ some (
          kept k (libc c k t).0,
          record t { world = (libc c k t).1.world; errno = errno_after c k t },
        )
  hook_of-Transparent k ins t start fits has =
      let at : Thread c = record t { space = sys } in
      let ran =
        base_call-handed c o ts blocking sane k ins t.errno at fits has
        ∙ handed-libc c (is_rwlock k) k ins t in
      let error : ℕ = errno_after c k t in
      let t' : Thread c = record t { world = (libc c k t).1.world; errno = error; space = sys } in
      hook_of-Returns c (base_runtime c o ts) o errorcheck k ins t (libc c k t).0 error t' start
        (ap (λ p. (base_runtime c o ts).call p ins t.errno at) (passed-same k has) ∙ ran) refl
      ∙ ap (λ x. some (kept k (libc c k t).0, record t' { space = x })) (sym start)
