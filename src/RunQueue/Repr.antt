-- ===== src/RunQueue/Repr.antt =====
-- What it means for the run queue of include/tern/runtime/run-queue.h to hold a list of threads, and
-- how the invariant is put together after an operation.
use xtern.Base.{
  ℕ, ◌≡◌, ◌≤◌, ◌<◌, false, Option, none, some, List, [], ◌∷◌, length, has, Distinct, head?, last?,
  AllBelow, length-le_of_Distinct,
}
use xtern.RunQueue.{RunqElem, ElemMap, RunQueue, max_thread_num}
use xtern.RunQueue.Chain.{Chain, status_at}

-- What the elements are, whether queued or not: each in its own slot of the array.
pub record IsOwned (m : ElemMap) : Type 0 where
  pub tid_eq : (t : ℕ) (e : RunqElem) → m t ≡ some e → e.tid ≡ t
  pub in_range : (t : ℕ) (e : RunqElem) → m t ≡ some e → t < max_thread_num

-- The queue holds the threads `ts`, in this order, and an element that is not queued has no links.
pub record Repr (q : RunQueue) (ts : List ℕ) : Type 0 where
  pub before : Option ℕ
  pub chain : Chain q.tid_map before ts
  pub head_eq : q.head ≡ head? ts
  pub tail_eq : q.tail ≡ last? ts
  pub count : q.num_elements ≡ length ts
  pub distinct : Distinct ts
  pub owned : IsOwned q.tid_map
  pub detached :
      (t : ℕ) (e : RunqElem)
      → q.tid_map t ≡ some e
      → has t ts ≡ false
      → (e.prev ≡ none) × (e.next ≡ none)

-- Two states give every thread the same status, and have elements for the same threads.
abbrev pub SameStatus : RunQueue → RunQueue → Type 0
SameStatus q q' = (t : ℕ) → status_at (q'.tid_map t) ≡ status_at (q.tid_map t)

Chain-below :
    (m : ElemMap) (before : Option ℕ) (ts : List ℕ)
    → IsOwned m
    → Chain m before ts
    → AllBelow max_thread_num ts
Chain-below m before [] o c = tt
Chain-below m before (t ∷ ts) o (e, at, p, n, rest) =
    (o.in_range t e at, Chain-below m (some t) ts o rest)

-- The queue is never longer than the array of elements, so its count does not wrap.
pub length-le_max : {q : RunQueue} (ts : List ℕ) → Repr q ts → length ts ≤ max_thread_num
length-le_max {q} ts r =
    length-le_of_Distinct max_thread_num ts r.distinct
      (Chain-below q.tid_map r.before ts r.owned r.chain)
