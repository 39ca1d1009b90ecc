-- ===== src/Log/Bin/Laws.antt =====
-- What the binary log of lib/runtime/record-log.cpp keeps of a call, as numArgsInRec and numRecForInst
-- of include/tern/logdefs.h read it.
use xtern.Base.{
  ℕ, zero, suc, ◌+◌, ◌-◌, ◌*◌, ◌/◌, ◌%◌, ◌^◌, ◌≡◌, refl, ◌∙◌, ap, sym, ◌≤◌, ◌<◌, Option, some, List,
  [], ◌∷◌, ◌++◌, append_assoc, append-nil, arith, length, length-append, ltb, if◌then◌else◌,
  take_args, take_args-append,
}
use xtern.Log.Records.{
  LogRec, call_rec, extra_args_rec, record_size, trunk_size, set_insid, num_extra_args_records,
  num_args_in_call, num_args_in_extra, min,
}
use xtern.Log.Bin.{BinLogger, Funcs, put_rec, extra_limit, extra_loop, log_call, call_flags}

-- The arguments that a reader finds in records of a call, one after the other.
abbrev pub args_of : LogRec → List ℕ
args_of (call_rec p f args) = args
args_of (extra_args_rec p args) = args
args_of _ = []

abbrev pub all_args : List LogRec → List ℕ
all_args [] = []
all_args (r ∷ rs) = args_of r ++ all_args rs

-- Whether each record holds as many arguments as its own numArgsInRec says.
abbrev pub IsRead : LogRec → Type 0
IsRead (call_rec p f args) = length args ≡ num_args_in_call p
IsRead (extra_args_rec p args) = length args ≡ num_args_in_extra p
IsRead _ = Unit {0}

abbrev pub AllRead : List LogRec → Type 0
AllRead [] = Unit {0}
AllRead (r ∷ rs) = IsRead r × AllRead rs

put_rec-room :
    (r : LogRec) (b : BinLogger)
    → b.off + record_size ≤ trunk_size
    → put_rec r b ≡ some (record b { records = b.records ++ r ∷ []; off = b.off + record_size })
unfolding put_rec
put_rec-room r b room = ground arith

-- What the loop over the extra records writes, in n records.
abbrev Extends : BinLogger → ℕ → List ℕ → Option BinLogger → Type 0
Extends b n args m =
    (new : List LogRec) × (b' : BinLogger) × (m ≡ some b')
    × (b'.records ≡ b.records ++ new)
    × (all_args new ≡ args)
    × AllRead new
    × (length new ≡ n)
    × (b'.off ≡ b.off + record_size * n)

-- One record and then the others.
extended :
    (r : LogRec) (b : BinLogger) (n : ℕ) (rest args : List ℕ) (m m' : Option BinLogger)
    → IsRead r
    → args_of r ++ rest ≡ args
    → m ≡ m'
    → Extends (record b { records = b.records ++ r ∷ []; off = b.off + record_size }) n rest m'
    → Extends b (suc n) args m
extended r b n rest args m m' own parts same (new, b', ran, grown, read, all_own, many, size) = (
  r ∷ new,
  b',
  same ∙ ran,
  grown ∙ append_assoc b.records (r ∷ []) new,
  ap (◌++◌ (args_of r)) read ∙ parts,
  (own, all_own),
  ap suc many,
  omega arith,
)

limit_of :
    (narg seq i len : ℕ)
    → i + len ≡ narg
    → narg < 768
    → 0 < len
    → i + 1 ≡ 3 * seq
    → extra_limit narg seq ≡ i + min len 3
unfolding extra_limit
limit_of narg seq i len all small some_left at = ground arith

extra_record :
    (narg seq i len : ℕ)
    → i + len ≡ narg
    → 0 < seq
    → i + 1 ≡ 3 * seq
    → narg < 768
    → 0 < len
    → min len 3 ≡ min (narg + 3 - 2 - (seq % 2 ^ 8) * 3) 3
extra_record narg seq i len all pos at small some_left =
    let short : seq % 2 ^ 8 ≡ seq = omega arith in rw short (ground arith)

extra_loop-step :
    (n insid kept narg seq i k : ℕ) (args ys rest : List ℕ) (b : BinLogger)
    → set_insid insid ≡ some kept
    → extra_limit narg seq ≡ i + k
    → 0 < k
    → take_args k args ≡ some (ys, rest)
    → b.off + record_size ≤ trunk_size
    → let r =
        extra_args_rec
          (record { insid = kept; flags = b.stale b.off; seq = seq % 2 ^ 8; narg = narg })
          ys in
      extra_loop (suc n) insid narg seq i args b
      ≡ extra_loop n insid narg
          (seq + 1)
          (i + k)
          rest
          (record b { records = b.records ++ r ∷ []; off = b.off + record_size })
unfolding extra_loop
extra_loop-step n insid kept narg seq i k args ys rest b valid limit pos taken room =
    let width : extra_limit narg seq - i ≡ k = omega arith in
    let next : (if ltb i (extra_limit narg seq) then extra_limit narg seq else i) ≡ i + k =
      ground arith in
    rw valid (rw width (rw taken (rw (put_rec-room _ b room) (rw next refl))))

extra_loop-Extends :
    (n insid kept narg seq i : ℕ) (args : List ℕ) (b : BinLogger)
    → set_insid insid ≡ some kept
    → narg < 768
    → i + length args ≡ narg
    → 0 < seq
    → length args ≤ 3 * n
    → (0 < n → (i + 1 ≡ 3 * seq) × (3 * n < length args + 3))
    → b.off + record_size * n ≤ trunk_size
    → Extends b n args (extra_loop n insid narg seq i args b)
unfolding extra_loop num_args_in_extra
extra_loop-Extends zero insid kept narg seq i [] b valid small all pos few at room =
    ([], b, refl, sym (append-nil b.records), refl, tt, refl, omega arith)
extra_loop-Extends zero insid kept narg seq i (x ∷ args) b valid small all pos few at room =
    absurd (omega arith)
extra_loop-Extends (suc n) insid kept narg seq i args b valid small all pos few at room =
    let (from, many) = at (omega arith) in
    let limit = limit_of narg seq i (length args) all small (omega arith) from in
    let (ys, rest, ran, parts, count) =
      take_args-append (min (length args) 3) args (ground arith) in
    let taken : length ys + length rest ≡ length args =
      sym (length-append ys rest) ∙ ap length parts in
    extended _ b n rest args _ _
      (count ∙ extra_record narg seq i (length args) all pos from small (omega arith)) parts
      (extra_loop-step n insid kept narg seq i (min (length args) 3) args ys rest b valid limit
        (ground arith) ran (omega arith))
      (extra_loop-Extends n insid kept narg (seq + 1) (i + min (length args) 3) rest
        (record b {
          records =
              b.records
              ++ extra_args_rec
                  (record { insid = kept; flags = b.stale b.off; seq = seq % 2 ^ 8; narg = narg })
                  ys
                ∷ [];
          off = b.off + record_size;
        })
        valid small (omega arith) (omega arith) (ground arith) (λ h. (ground arith, ground arith))
        (omega arith))

extra_records :
    (narg : ℕ)
    → narg < 768
    → (num_extra_args_records narg ≡ narg / 3)
      × (narg - min narg 2 ≤ 3 * (narg / 3))
      × (0 < narg / 3 → (min narg 2 + 1 ≡ 3) × (3 * (narg / 3) < narg - min narg 2 + 3))
unfolding num_extra_args_records
extra_records narg small = (omega arith, ground arith, λ h. (ground arith, ground arith))

-- A call of a function with an id, of fewer than 768 arguments, under an id of an instruction that is
-- valid and with room in the log, is logged. It gets one record and as many more as
-- NumExtraArgsRecords says. Each record holds as many arguments as its own numArgsInRec says, and
-- read one after the other they are the arguments of the call.
pub log_call-AllRead :
    (fs : Funcs) (flags insid kept narg func funcid : ℕ) (args : List ℕ) (b : BinLogger)
    → fs.ids func ≡ some funcid
    → set_insid insid ≡ some kept
    → length args ≡ narg
    → narg < 768
    → b.off + record_size * (1 + narg / 3) ≤ trunk_size
    → Extends b (suc (num_extra_args_records narg)) args (log_call fs flags insid narg func args b)
unfolding log_call num_args_in_call
log_call-AllRead fs flags insid kept narg func funcid args b has_id valid all small room =
    let (count, few, at) = extra_records narg small in
    let (ys, rest, ran, parts, taken) = take_args-append (min narg 2) args (ground arith) in
    let total : length ys + length rest ≡ length args =
      sym (length-append ys rest) ∙ ap length parts in
    let r : LogRec =
      call_rec (record { insid = kept; flags = call_flags fs flags func; seq = 0; narg = narg })
        funcid ys in
    let fits : b.off + record_size ≤ trunk_size = omega arith in
    extended r b (num_extra_args_records narg) rest args _ _ taken parts
      (rw has_id (rw valid (rw ran (rw (put_rec-room r b fits) refl))))
      (extra_loop-Extends (num_extra_args_records narg) insid kept narg 1 (min narg 2) rest
        (record b { records = b.records ++ r ∷ []; off = b.off + record_size }) valid small
        (omega arith) (omega arith) (omega arith)
        (λ h. (omega (arith, at (omega arith)), omega (arith, at (omega arith)))) (omega arith))
