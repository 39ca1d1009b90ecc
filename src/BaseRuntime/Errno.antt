-- ===== src/BaseRuntime/Errno.antt =====
-- How the methods of struct Runtime in lib/runtime/runtime.cpp hand errno over round the C library's
-- call.
use xtern.Base.{some}
use xtern.Runtime.Methods.{CCall}
use xtern.Thread.{CLib, Method, libc}

module _ (c : CLib) where
  -- `errno = error; ret = …; error = errno;`
  unfoldable pub with_errno : CCall → Method c
  with_errno k ins error t =
      let (ret, t') = libc c k (record t { errno = error }) in some (ret, t'.errno, t')

  -- `error = errno; ret = …; errno = error;`, of the read-write locks.
  unfoldable pub late_errno : CCall → Method c
  late_errno k ins error t =
      let (ret, t') = libc c k t in some (ret, t.errno, record t' { errno = t.errno })
