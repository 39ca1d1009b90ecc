-- ===== src/RunQueue/Walk.antt =====
-- The iteration over the run queue of include/tern/runtime/run-queue.h.
use xtern.Base.{
  ℕ, zero, suc, ◌≡◌, refl, ◌∙◌, ap, ap₂, ◌≤◌, Option, some, List, [], ◌∷◌, arith, length, head?,
}
use xtern.RunQueue.{RunQueue, size, walk}
use xtern.RunQueue.Chain.{Chain}
use xtern.RunQueue.Repr.{IsOwned, Repr}

walk-Chain :
    (q : RunQueue) (fuel : ℕ) (before : Option ℕ) (ts : List ℕ)
    → IsOwned q.tid_map
    → Chain q.tid_map before ts
    → length ts ≤ fuel
    → walk fuel q (head? ts) ≡ some ts
unfolding walk
walk-Chain q zero before [] own c enough = refl
walk-Chain q (suc fuel) before [] own c enough = refl
walk-Chain q zero before (t ∷ ts) own c enough = absurd (omega arith)
walk-Chain q (suc fuel) before (t ∷ ts) own (e, at, p, n, rest) enough =
    let ran = walk-Chain q fuel (some t) ts own rest (omega arith) in
    rw at (rw n (rw ran (ap (λ x. some (x ∷ ts)) (own.tid_eq t e at))))

-- The iteration from begin() to end() visits the threads of the queue in order, and ends within as many
-- steps as `size` says.
pub walk-Repr : (q : RunQueue) (ts : List ℕ) → Repr q ts → walk (size q) q q.head ≡ some ts
unfolding size
walk-Repr q ts r =
    ap₂ (λ n p. walk n q p) r.count r.head_eq
    ∙ walk-Chain q (length ts) r.before ts r.owned r.chain (omega arith)
