-- ===== src/Interception.antt =====
-- dync_hook/: what the functions that stand in for the C library's do with a call. func_template.cpp
-- and void_func_template.cpp are the code of each, hook.cpp has get_eip, and annotation_hooks.cpp the
-- annotations of tern/user.h. The original functions, which dlsym finds, are the parameter CLib; the
-- records of the cycle counter are not modelled.
pub mod Annotations
pub mod Laws
use xtern.Base.{
  ℕ, ◌+◌, ◌*◌, ◌%◌, ◌^◌, Bool, true, false, ◌&&◌, if◌then◌else◌, Option, none, some, List, [], ◌∷◌,
  ◌>>=◌, ◌>>◌,
}
use xtern.Space.{is_app}
use xtern.Runtime.Methods.{CCall}
use xtern.Thread.{CLib, ProcOptions, Thread, Runtime, libc, entered, left}
use xtern.Hooks.Table.{hook_of}
use xtern.Hooks.Services

-- The signature of the whole stack, in 64 bits.
pub stack_signature : ℕ → List ℕ → ℕ
stack_signature ret [] = ret
stack_signature ret (p ∷ ps) = stack_signature ((ret * 97 + p) % 2 ^ 64) ps

-- The third frame; with fewer frames it is a read of what backtrace has not written.
unfoldable pub third : List ℕ → Option ℕ
third (a ∷ b ∷ p ∷ ps) = some p
third _ = none

-- `trace` is what backtrace gives, at most five frames.
unfoldable pub get_eip : ProcOptions → List ℕ → Option ℕ
get_eip o trace =
    if o.whole_stack_eip_signature then some (stack_signature 0 trace) else third trace

module _ (c : CLib) (rt : Runtime c) (o : ProcOptions) (errorcheck : ℕ) where
  -- The `eip` of a call, in the runtime's space.
  pub call_site : List ℕ → Thread c → Option (ℕ × Thread c)
  call_site trace t =
      if o.dync_geteip
      then (do t₁ ← entered c t; eip ← get_eip o trace; t₂ ← left c t₁; some (eip, t₂))
      else some (0, t)

  -- The original function, in the runtime's space.
  pub original : CCall → Thread c → Option (ℕ × Thread c)
  original k t = do t₁ ← entered c t; t₂ ← left c (libc c k t₁).1; some ((libc c k t₁).0, t₂)

  pub intercepted : List ℕ → CCall → Thread c → Option (ℕ × Thread c)
  intercepted trace k t =
      if is_app t.space
      then (do
        (eip, t₁) ← call_site trace t
        if o.dmt then hook_of c rt o errorcheck k (eip % 2 ^ 32) t₁ else original k t₁)
      else some (libc c k t)
