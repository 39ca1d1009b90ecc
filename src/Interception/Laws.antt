-- ===== src/Interception/Laws.antt =====
-- What the application and the runtime get of a function that stands in for one of the C library.
use xtern.Base.{
  ℕ, ◌≡◌, refl, sym, ap, ◌∙◌, true, false, is_some, if◌then◌else◌, Option, none, some, List,
  Bool-cases, inl, inr, ◌%◌, ◌^◌,
}
use xtern.Runtime.Methods.{CCall}
use xtern.Space.{sys, app, is_app, is_sys, cross, enter_sys, exit_sys}
use xtern.Thread.{CLib, ProcOptions, Thread, Runtime, libc, entered, left}
use xtern.BaseRuntime.Receiving.Laws.{Receives}
use xtern.BaseRuntime.Table.{method_of, base_runtime}
use xtern.BaseRuntime.Table.Laws.{FitsInt}
use xtern.Hooks.Crossing.{kept}
use xtern.Hooks.Table.Laws.{errno_after, hook_of-Transparent}
use xtern.Interception.{get_eip, call_site, original, intercepted}

is_some-some : (x : Option ℕ) → is_some x ≡ true → (a : ℕ) × (x ≡ some a)
is_some-some (some a) h = (a, refl)
is_some-some none h = cc

-- What the runtime itself calls is the C library's function, whatever the options: the runtime's own
-- calls are not intercepted again.
intercepted-sys :
    (c : CLib) (rt : Runtime c) (o : ProcOptions) (errorcheck : ℕ) (trace : List ℕ) (k : CCall)
    (t : Thread c)
    → t.space ≡ sys
    → intercepted c rt o errorcheck trace k t ≡ some (libc c k t)
unfolding intercepted is_app
intercepted-sys c rt o errorcheck trace k t start = simp (start)

module _ (c : CLib) (rt : Runtime c) (o : ProcOptions) (errorcheck : ℕ) where
  call_site-same :
      (trace : List ℕ) (t : Thread c)
      → t.space ≡ app
      → is_some (get_eip o trace) ≡ true
      → (eip : ℕ) × (call_site c rt o errorcheck trace t ≡ some (eip, t))
  unfolding call_site entered left enter_sys exit_sys is_app is_sys cross
  call_site-same trace t start deep = elim (Bool-cases o.dync_geteip) [
    | inl on ↦
        let (eip, e) = is_some-some (get_eip o trace) deep in
        let back : call_site c rt o errorcheck trace t ≡ some (eip, record t { space = app }) =
          simp (on, start, e) in
        (eip, back ∙ ap (λ x. some (eip, record t { space = x })) (sym start))
    | inr off ↦ (0, simp (off))
  ]

  original-libc :
      (k : CCall) (t : Thread c)
      → t.space ≡ app
      → original c rt o errorcheck k t
        ≡ some (
          (libc c k t).0,
          record t { world = (libc c k t).1.world; errno = (libc c k t).1.errno },
        )
  unfolding original entered left enter_sys exit_sys is_app is_sys cross libc
  original-libc k t start =
      let after : Thread c = record t {
        world = (libc c k t).1.world;
        errno = (libc c k t).1.errno;
      } in
      let back : original c rt o errorcheck k t
          ≡ some ((libc c k t).0, record after { space = app }) =
        simp (start) in
      back ∙ ap (λ x. some ((libc c k t).0, record after { space = x })) (sym start)

module _ (c : CLib) (o : ProcOptions) (ts errorcheck : ℕ) (blocking : o.non_block_recv ≡ false)
    (unchecked : o.set_mutex_errorcheck ≡ false) (sane : Receives c) where
  -- Over the base runtime, and where the stack is deep enough for get_eip if it is asked for: an
  -- intercepted call of the application is the C library's. With DMT off that is so to the letter;
  -- with DMT on the result is cut to the hook's variable, and a read-write lock leaves errno as it
  -- was.
  pub intercepted-Transparent :
      (trace : List ℕ) (k : CCall) (t : Thread c)
      → t.space ≡ app
      → is_some (get_eip o trace) ≡ true
      → FitsInt k
      → is_some (method_of c o ts k) ≡ true
      → intercepted c (base_runtime c o ts) o errorcheck trace k t
        ≡ some (
          (if o.dmt then kept k (libc c k t).0 else (libc c k t).0),
          record t {
            world = (libc c k t).1.world;
            errno = (if o.dmt then errno_after c k t else (libc c k t).1.errno);
          },
        )
  unfolding intercepted is_app
  intercepted-Transparent trace k t start deep fits has =
      let (eip, site) = call_site-same c (base_runtime c o ts) o errorcheck trace t start deep in
      let hooked =
        hook_of-Transparent c o ts errorcheck blocking unchecked sane k (eip % 2 ^ 32) t start fits
          has in
      let direct = original-libc c (base_runtime c o ts) o errorcheck k t start in
      elim (Bool-cases o.dmt) [
        | inl on ↦ simp (start, site, on, hooked)
        | inr off ↦ simp (start, site, off, direct)
      ]
