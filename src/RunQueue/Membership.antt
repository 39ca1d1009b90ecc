-- ===== src/RunQueue/Membership.antt =====
-- `in` and `create_thd_elem` of include/tern/runtime/run-queue.h.
use xtern.Base.{
  ℕ, ◌≡◌, refl, ◌<◌, ◌∙◌, sym, ap, inl, inr, true, false, Option, none, some, List, [], ◌∷◌, arith,
  has, ◌==◌, is_some, Bool-cases, eq_of_some, eq_of_test, ne_of_has,
}
use xtern.RunQueue.{
  RunqElem, ElemMap, RunQueue, max_thread_num, put, new_elem, create_thd_elem, is_in,
}
use xtern.RunQueue.Chain.{Chain, Chain-same, put_ne}
use xtern.RunQueue.Repr.{Repr}

-- Every queued thread has an element.
pub Chain-live :
    (m : ElemMap) (before : Option ℕ) (ts : List ℕ) (t : ℕ)
    → Chain m before ts
    → has t ts ≡ true
    → (e : RunqElem) × (m t ≡ some e)
Chain-live m before [] t c h = cc
Chain-live m before (x ∷ ts) t (e, at, p, n, rest) h = elim (Bool-cases (t == x)) [
  | inl here ↦ (e, ap m (eq_of_test t x here) ∙ at)
  | inr other ↦ Chain-live m (some x) ts t rest (ground arith)
]

prev-is_some :
    (m : ElemMap) (p : ℕ) (ts : List ℕ) (t : ℕ) (e : RunqElem)
    → Chain m (some p) ts
    → has t ts ≡ true
    → m t ≡ some e
    → is_some e.prev ≡ true
prev-is_some m p [] t e c h at = cc
prev-is_some m p (x ∷ ts) t e (y, aty, yp, yn, rest) h at = elim (Bool-cases (t == x)) [
  | inl here ↦
      let same : e ≡ y = eq_of_some e y (sym at ∙ (ap m (eq_of_test t x here) ∙ aty)) in
      ap (λ z. is_some z.prev) same ∙ ap is_some yp
  | inr other ↦ prev-is_some m x ts t e rest (ground arith) at
]

is_in-queued :
    (q : RunQueue) (ts : List ℕ) (t : ℕ) (e : RunqElem)
    → Repr q ts
    → q.tid_map t ≡ some e
    → has t ts ≡ true
    → is_in q t ≡ some true
unfolding is_in
is_in-queued q [] t e r at h = cc
is_in-queued q (x ∷ []) t e r at h = rw (at, r.head_eq, r.tail_eq, is_in) (ground arith)
is_in-queued q (x ∷ y ∷ ts) t e r at h =
    let (z, atz, zp, zn, rest) = r.chain in
    elim (Bool-cases (t == x)) [
      | inl here ↦
          let same : e ≡ z = eq_of_some e z (sym at ∙ (ap q.tid_map (eq_of_test t x here) ∙ atz)) in
          let linked : is_some e.next ≡ true = ap (λ w. is_some w.next) same ∙ ap is_some zn in
          rw (at, is_in) (ground arith)
      | inr other ↦
          let linked : is_some e.prev ≡ true =
            prev-is_some q.tid_map x (y ∷ ts) t e rest (ground arith) at in
          rw (at, is_in) (rw linked refl)
    ]

is_in-absent :
    (q : RunQueue) (ts : List ℕ) (t : ℕ) (e : RunqElem)
    → Repr q ts
    → q.tid_map t ≡ some e
    → has t ts ≡ false
    → is_in q t ≡ some false
unfolding is_in
is_in-absent q [] t e r at h =
    let (p, n) = r.detached t e at h in rw (at, is_in) (rw (p, n, r.head_eq) refl)
is_in-absent q (x ∷ ts) t e r at h =
    let (p, n) = r.detached t e at h in rw (at, is_in) (rw (p, n, r.head_eq) (ground arith))

-- In a queue that holds `ts`, `in` returns for every thread that has an element, and says whether
-- the thread is in `ts`.
pub is_in-has :
    (q : RunQueue) (ts : List ℕ) (t : ℕ) (e : RunqElem)
    → Repr q ts
    → q.tid_map t ≡ some e
    → is_in q t ≡ some (has t ts)
is_in-has q ts t e r at = elim (Bool-cases (has t ts)) [
  | inl h ↦ rw h (is_in-queued q ts t e r at h)
  | inr h ↦ rw h (is_in-absent q ts t e r at h)
]

-- A thread id that has no element is not queued.
-- A thread without an element: the read goes through a null pointer.
pub is_in-gone : (q : RunQueue) (t : ℕ) → q.tid_map t ≡ none → is_in q t ≡ none
unfolding is_in
is_in-gone q t gone = rw gone refl

pub absent_of_none :
    (q : RunQueue) (ts : List ℕ) (t : ℕ) → Repr q ts → q.tid_map t ≡ none → has t ts ≡ false
absent_of_none q ts t r nil = elim (Bool-cases (has t ts)) [
  | inl h ↦ let (e, at) = Chain-live q.tid_map r.before ts t r.chain h in cc
  | inr h ↦ h
]

-- A new element is runnable and not queued; the queue and the other elements stay.
pub create_thd_elem-Repr :
    (q : RunQueue) (ts : List ℕ) (t : ℕ)
    → Repr q ts
    → q.tid_map t ≡ none
    → t < max_thread_num
    → (q' : RunQueue) × (create_thd_elem q t ≡ some q')
      × Repr q' ts
      × (q'.tid_map ≡ put q.tid_map t (some (new_elem t)))
unfolding create_thd_elem
create_thd_elem-Repr q ts t r nil small =
    let out : has t ts ≡ false = absent_of_none q ts t r nil in
    (
      record q { tid_map = put q.tid_map t (some (new_elem t)) },
      ground arith,
      record {
        before = r.before;
        chain =
            Chain-same q.tid_map _ r.before ts
              (λ u h. put_ne q.tid_map t _ u (ne_of_has u t ts h out)) r.chain;
        head_eq = r.head_eq;
        tail_eq = r.tail_eq;
        count = r.count;
        distinct = r.distinct;
        owned = record {
          tid_eq = λ u y h. ground (arith, r.owned.tid_eq u y);
          in_range = λ u y h. ground (arith, r.owned.in_range u y);
        };
        detached = λ u y h outside. ground (arith, r.detached u y);
      },
      refl,
    )
