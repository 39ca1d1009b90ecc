-- ===== src/Tests/Layers.antt =====
-- The theorems on the calls of the application, from the interception down to the C library, at a
-- library that counts its calls.
use xtern.Base.{ℕ, ◌+◌, ◌^◌, ◌≡◌, refl, ◌≤◌, ◌⊎◌, inl, inr, true, false, some, arith, [], ◌∷◌}
use xtern.Space.{sys, app}
use xtern.Runtime.Calls.{FileCall}
use xtern.Runtime.Methods.{CCall, socket_call, file_call}
use xtern.Thread.{CLib, ProcOptions, Thread, Runtime, libc}
use xtern.BaseRuntime.Errno.{with_errno}
use xtern.BaseRuntime.Receiving.{failed_size, recv}
use xtern.BaseRuntime.Receiving.Laws.{Receives, recv_total, recv_nothing}
use xtern.BaseRuntime.Table.{base_runtime, method_of}
use xtern.Hooks.Table.{hook_of}
use xtern.Hooks.Table.Laws.{hook_of-Returns}
use xtern.Runtime.Blocking.{as_int}
use xtern.Interception.{intercepted, get_eip, third}
use xtern.Interception.Laws.{intercepted-Transparent}

-- A call on a socket fails with errno 11; others return 2 ^ 32 + 7, with errno 4.
abbrev echo : CCall → ℕ × ℕ
echo (socket_call k) = (failed_size, 11)
echo _ = (2 ^ 32 + 7, 4)

abbrev echo_lib : CLib
echo_lib = record {
  World = ℕ;
  call = λ k error w. ((echo k).0, (echo k).1, w + 1);
  f_setfl = 4;
  o_nonblock = 2048;
}

echo_lib-Receives : Receives echo_lib
echo_lib-Receives = record { in_range = λ fd buf len flags error w. inl refl }

abbrev echo_runtime : Runtime echo_lib
echo_runtime = record {
  call = λ k ins. with_errno echo_lib k ins;
  serve = λ m t. some t;
  symbolic = λ ins error addr nbytes name t. some (error, t);
}

abbrev default_options : ProcOptions
default_options = record {
  dmt = true;
  non_block_recv = false;
  set_mutex_errorcheck = false;
  dync_geteip = false;
  whole_stack_eip_signature = false;
  launch_idle_thread = true;
  enforce_annotations = true;
  enforce_non_det_annotations = false;
}

abbrev outside : Thread echo_lib
outside = record { world = 0; errno = 5; space = app }

abbrev read_ten : CCall
read_ten = file_call (FileCall.read 3 4096 10)

-- The hook's `int` keeps 7 of 2 ^ 32 + 7.
hook_of-Returns_example :
    hook_of echo_lib echo_runtime default_options 900 read_ten 1 outside
    ≡ some (7, record { world = 1; errno = 4; space = app })
unfolding with_errno libc as_int
hook_of-Returns_example =
    hook_of-Returns echo_lib echo_runtime default_options 900 read_ten 1 outside (2 ^ 32 + 7) 4
      (record { world = 1; errno = 4; space = sys }) refl refl refl

intercepted-Transparent_example :
    intercepted echo_lib
      (base_runtime echo_lib default_options 800)
      default_options
      900
      (11 ∷ 12 ∷ 13 ∷ [])
      read_ten
      outside
    ≡ some (7, record { world = 1; errno = 4; space = app })
unfolding libc as_int get_eip third method_of
intercepted-Transparent_example =
    intercepted-Transparent echo_lib default_options 800 900 refl refl echo_lib-Receives
      (11 ∷ 12 ∷ 13 ∷ []) read_ten outside refl refl tt refl

recv_total_example :
    (ret : ℕ) × (t' : Thread echo_lib) × (recv echo_lib default_options 800 3 4096 10 0 1 5 outside
      ≡ some (ret, t'.errno, t'))
    × ((ret ≡ failed_size) ⊎ (ret ≤ 10))
recv_total_example =
    recv_total echo_lib default_options echo_lib-Receives 800 3 4096 10 0 (ground arith) 1 5 outside

recv_nothing_example :
    recv echo_lib default_options 800 3 4096 (2 ^ 31) 0 1 5 outside ≡ some (0, 5, outside)
recv_nothing_example =
    recv_nothing echo_lib default_options 800 3 4096 (2 ^ 31) 0 1 5 outside (inr (ground arith))
