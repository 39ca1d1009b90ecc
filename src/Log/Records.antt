-- ===== src/Log/Records.antt =====
-- The layout of the binary log, from include/tern/logdefs.h.
pub mod Laws
use xtern.Base.{
  ℕ, ◌+◌, ◌-◌, ◌*◌, ◌/◌, ◌%◌, ◌^◌, Bool, not, Option, none, some, List, ltb, leb, ◌==◌,
  if◌then◌else◌, ◌>>=◌, ◌>>◌, require,
}
use xtern.Log.SyncFunc.{SyncFunc}
use xtern.Log.SyncFunc.{
  accept, accept4, connect, recv, recvfrom, recvmsg, read, select, epoll_wait, epoll_create,
  epoll_ctl, sigwait, fgets, wait, pthread_cond_wait, pthread_barrier_wait, pthread_cond_timedwait,
}

abbrev pub record_size : ℕ
record_size = 32

-- TRUNK_SIZE, one gigabyte.
abbrev pub trunk_size : ℕ
trunk_size = 1024 * 1024 * 1024

abbrev pub max_inline_args : ℕ
max_inline_args = 2

abbrev pub max_extra_args : ℕ
max_extra_args = 3

abbrev pub invalid_insid : ℕ
invalid_insid = 2 ^ 32 - 1

-- What stands for an invalid id in the 29 bits of a record.
abbrev pub invalid_insid_in_rec : ℕ
invalid_insid_in_rec = invalid_insid % 2 ^ 29

-- `setInsid`: the bits that are kept of an id.
unfoldable pub set_insid : ℕ → Option ℕ
set_insid id =
    let kept = if id == invalid_insid then invalid_insid_in_rec else id in
    require (ltb kept (2 ^ 29)) >> some kept

unfoldable pub valid_insid : ℕ → Bool
valid_insid insid = not (insid == invalid_insid_in_rec)

unfoldable pub get_insid : ℕ → ℕ
get_insid insid = if valid_insid insid then insid else invalid_insid

-- The bits of `flags`.
abbrev pub is_indirect : ℕ → Bool
is_indirect flags = flags % 2 == 1

abbrev pub is_no_return : ℕ → Bool
is_no_return flags = (flags / 2) % 2 == 1

abbrev pub set_no_return : ℕ → ℕ
set_no_return flags = if is_no_return flags then flags else flags + 2

-- What the records of a call and of its return have first.
pub record CallPrefix : Type 0 where
  pub insid : ℕ
  pub flags : ℕ
  pub seq : ℕ
  pub narg : ℕ

pub record SyncFields : Type 0 where
  pub insid : ℕ
  pub sync : SyncFunc
  pub turn : ℕ
  pub after : Bool
  pub args : List ℕ

-- A record, with its `type` as the constructor. Of `args` the slots that are written.
pub data LogRec : Type 0 where
  insid_rec : ℕ → LogRec
  load_rec store_rec : ℕ → ℕ → ℕ → LogRec
  call_rec : CallPrefix → ℕ → List ℕ → LogRec
  extra_args_rec : CallPrefix → List ℕ → LogRec
  return_rec : CallPrefix → ℕ → ℕ → LogRec
  sync_rec : SyncFields → LogRec

-- The number of arguments as an unsigned expression; narg is not negative here.
unfoldable pub num_extra_args_records : ℕ → ℕ
num_extra_args_records narg =
    ((narg + 2 ^ 32 - max_inline_args + max_extra_args - 1) % 2 ^ 32) / max_extra_args

pub num_sync_args : SyncFunc → ℕ
num_sync_args pthread_cond_wait = 2
num_sync_args _ = 1

pub num_records_for_sync : SyncFunc → ℕ
num_records_for_sync accept = 2
num_records_for_sync accept4 = 2
num_records_for_sync connect = 2
num_records_for_sync recv = 2
num_records_for_sync recvfrom = 2
num_records_for_sync recvmsg = 2
num_records_for_sync read = 2
num_records_for_sync select = 2
num_records_for_sync epoll_wait = 2
num_records_for_sync epoll_create = 2
num_records_for_sync epoll_ctl = 2
num_records_for_sync sigwait = 2
num_records_for_sync fgets = 2
num_records_for_sync wait = 2
num_records_for_sync pthread_cond_wait = 2
num_records_for_sync pthread_barrier_wait = 2
num_records_for_sync pthread_cond_timedwait = 2
num_records_for_sync _ = 1

-- `numRecForInst`.
abbrev for_call : CallPrefix → ℕ
for_call p = 1 + num_extra_args_records p.narg + (if is_no_return p.flags then 0 else 1)

unfoldable pub num_rec_for_inst : LogRec → ℕ
num_rec_for_inst (call_rec p f args) = for_call p
num_rec_for_inst (extra_args_rec p args) = for_call p
num_rec_for_inst (return_rec p f v) = for_call p
num_rec_for_inst (sync_rec fields) = num_records_for_sync fields.sync
num_rec_for_inst _ = 1

abbrev pub min : ℕ → ℕ → ℕ
min a b = if ltb b a then b else a

-- `CallRec::numArgsInRec`, and `ExtraArgsRec::numArgsInRec`, whose difference narg - MAX_INLINE_ARGS -
-- (seq - 1) * MAX_EXTRA_ARGS is not to be negative; seq may be 0.
unfoldable pub num_args_in_call : CallPrefix → ℕ
num_args_in_call p = min p.narg max_inline_args

unfoldable pub num_args_in_extra : CallPrefix → ℕ
num_args_in_extra p =
    min (p.narg + max_extra_args - max_inline_args - p.seq * max_extra_args) max_extra_args
