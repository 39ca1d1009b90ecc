-- ===== src/Log/Bin.antt =====
-- The binary log of lib/runtime/record-log.cpp, BinLogger. The mapped part of the file is the list of
-- the records written to it; what its bytes hold before they are written shows in the flags of
-- an ExtraArgsRec, which are not written: the field stale has the flags of the record at an offset.
pub mod Laws
use xtern.Base.{
  ℕ, zero, suc, ◌+◌, ◌-◌, ◌*◌, ◌%◌, ◌^◌, Bool, true, false, not, ◌&&◌, ◌||◌, Option, none, some,
  List, [], ◌∷◌, ◌++◌, ltb, leb, ◌==◌, if◌then◌else◌, ◌>>=◌, ◌>>◌, require, take_args,
}
use xtern.Log.SyncFunc.{SyncFunc}
use xtern.Log.Records.{
  LogRec, CallPrefix, SyncFields, insid_rec, load_rec, store_rec, call_rec, extra_args_rec,
  return_rec, sync_rec, record_size, trunk_size, max_inline_args, max_extra_args, set_insid,
  is_indirect, is_no_return, set_no_return, num_extra_args_records, num_sync_args, min,
}

pub record BinLogger : Type 0 where
  pub records : List LogRec
  pub off : ℕ
  pub foff : ℕ
  pub stale : ℕ → ℕ

-- Logger::funcs and the addresses of exit and pthread_exit.
pub record Funcs : Type 0 where
  pub ids : ℕ → Option ℕ
  pub exit : ℕ
  pub pthread_exit : ℕ

-- `mapLogTrunk`, and the constructor on a file with the given bytes.
pub map_log_trunk : BinLogger → BinLogger
map_log_trunk b = record b { records = []; off = 0; foff = b.foff + trunk_size }

pub open_log : (ℕ → ℕ) → BinLogger
open_log stale = map_log_trunk (record { records = []; off = 0; foff = 0; stale = stale })

-- The size that the destructor truncates the file to.
pub file_size : BinLogger → ℕ
file_size b = b.foff - trunk_size + b.off

-- `checkAndGrowLogSize`, and a record at the end.
pub put_rec : LogRec → BinLogger → Option BinLogger
put_rec r b =
    require (leb (b.off + record_size) trunk_size)
    >> some (record b { records = b.records ++ r ∷ []; off = b.off + record_size })

pub log_insid : ℕ → BinLogger → Option BinLogger
log_insid insid b = do i ← set_insid insid; put_rec (insid_rec i) b

pub log_load : ℕ → ℕ → ℕ → BinLogger → Option BinLogger
log_load insid addr data_ b = do i ← set_insid insid; put_rec (load_rec i addr data_) b

pub log_store : ℕ → ℕ → ℕ → BinLogger → Option BinLogger
log_store insid addr data_ b = do i ← set_insid insid; put_rec (store_rec i addr data_) b

-- The flags of a call: an indirect call of exit or pthread_exit does not return.
pub call_flags : Funcs → ℕ → ℕ → ℕ
call_flags fs flags func =
    if is_indirect flags && (func == fs.exit || func == fs.pthread_exit)
    then set_no_return flags
    else flags

-- The number of the argument before which the record `seq` ends: the limit is a `short`, so that a
-- limit of 2 ^ 15 and more is negative.
pub extra_limit : ℕ → ℕ → ℕ
extra_limit narg seq =
    let limit = (max_inline_args + max_extra_args * seq) % 2 ^ 16 in
    if leb (2 ^ 15) limit then 0 else min narg limit

-- The loop over the extra records, of which `n` are left; `i` arguments are written. A record keeps
-- its number in a `uint8_t`.
pub extra_loop : ℕ → ℕ → ℕ → ℕ → ℕ → List ℕ → BinLogger → Option BinLogger
extra_loop zero insid narg seq i args b = some b
extra_loop (suc n) insid narg seq i args b = do
  kept ← set_insid insid
  (written, rest) ← take_args (extra_limit narg seq - i) args
  b' ←
      put_rec
        (extra_args_rec
          (record { insid = kept; flags = b.stale b.off; seq = seq % 2 ^ 8; narg = narg }) written)
        b
  extra_loop n insid narg (seq + 1)
      (if ltb i (extra_limit narg seq) then extra_limit narg seq else i) rest b'

pub log_call : Funcs → ℕ → ℕ → ℕ → ℕ → List ℕ → BinLogger → Option BinLogger
log_call fs flags insid narg func args b = do
  funcid ← fs.ids func
  kept ← set_insid insid
  (written, rest) ← take_args (min narg max_inline_args) args
  b' ←
      put_rec
        (call_rec (record { insid = kept; flags = call_flags fs flags func; seq = 0; narg = narg })
          funcid written)
        b
  extra_loop (num_extra_args_records narg) insid narg 1 (min narg max_inline_args) rest b'

pub log_ret : Funcs → ℕ → ℕ → ℕ → ℕ → ℕ → BinLogger → Option BinLogger
log_ret fs flags insid narg func value b = do
  funcid ← fs.ids func
  require (not (is_no_return (call_flags fs flags func)))
  kept ← set_insid insid
  put_rec
      (return_rec
        (record {
          insid = kept;
          flags = call_flags fs flags func;
          seq = (num_extra_args_records narg + 1) % 2 ^ 8;
          narg = narg;
        })
        funcid value)
      b

pub log_sync : ℕ → SyncFunc → ℕ → Bool → List ℕ → BinLogger → Option BinLogger
log_sync insid sync turn after args b = do
  kept ← set_insid insid
  (written, rest) ← take_args (num_sync_args sync) args
  put_rec
      (sync_rec (record { insid = kept; sync = sync; turn = turn; after = after; args = written }))
      b
