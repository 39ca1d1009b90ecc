-- ===== src/Log/Records/Laws.antt =====
-- The instruction ids of include/tern/logdefs.h, in 29 bits.
use xtern.Base.{ℕ, ◌-◌, ◌^◌, ◌≡◌, ◌<◌, ◌↔◌, false, some, arith, ◌==◌}
use xtern.Log.Records.{set_insid, get_insid, valid_insid}

-- What setInsid keeps of an id of 32 bits fits into 29 bits. getInsid gives the id back, but for the
-- one id 2 ^ 29 - 1, which is kept like the invalid id.
pub get_insid-set_insid :
    (id kept : ℕ)
    → id < 2 ^ 32
    → set_insid id ≡ some kept
    → (kept < 2 ^ 29) × ((get_insid kept ≡ id) ↔ ((id == 2 ^ 29 - 1) ≡ false))
unfolding set_insid get_insid valid_insid
get_insid-set_insid id kept small ran = (ground arith, (λ h. ground arith, λ h. ground arith))
