-- ===== src/Tests/Logs.antt =====
-- The theorems on the log, at a call of six arguments.
use xtern.Base.{
  ℕ, ◌-◌, ◌^◌, ◌≡◌, refl, ◌<◌, ◌↔◌, false, none, some, List, [], ◌∷◌, arith, ◌==◌, if◌then◌else◌,
  length,
}
use xtern.Log.Records.{LogRec, set_insid, get_insid, num_extra_args_records}
use xtern.Log.Records.Laws.{get_insid-set_insid}
use xtern.Log.Bin.{BinLogger, Funcs, log_call}
use xtern.Log.Bin.Laws.{AllRead, all_args, log_call-AllRead}

abbrev one_function : Funcs
one_function = record { ids = λ f. if f == 4096 then some 5 else none; exit = 1; pthread_exit = 2 }

abbrev fresh_log : BinLogger
fresh_log = record { records = []; off = 0; foff = 1073741824; stale = λ a. 0 }

abbrev six_args : List ℕ
six_args = 10 ∷ 20 ∷ 30 ∷ 40 ∷ 50 ∷ 60 ∷ []

valid : set_insid 77 ≡ some 77
unfolding set_insid
valid = refl

log_call-AllRead_example :
    (new : List LogRec) × (b : BinLogger) × (log_call one_function 0 77 6 4096 six_args fresh_log
      ≡ some b)
    × (b.records ≡ new)
    × (all_args new ≡ six_args)
    × AllRead new
    × (length new ≡ 3)
    × (b.off ≡ 96)
unfolding num_extra_args_records
log_call-AllRead_example =
    log_call-AllRead one_function 0 77 77 6 4096 5 six_args fresh_log refl valid refl (ground arith)
      (ground arith)

get_insid-set_insid_example : (77 < 2 ^ 29) × ((get_insid 77 ≡ 77) ↔ ((77 == 2 ^ 29 - 1) ≡ false))
get_insid-set_insid_example = get_insid-set_insid 77 77 (ground arith) valid
