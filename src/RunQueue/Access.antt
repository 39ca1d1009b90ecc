-- ===== src/RunQueue/Access.antt =====
-- The head, the size and the status of elements of the run queue of include/tern/runtime/run-queue.h,
-- by the list that it holds.
use xtern.Base.{
  eq_of_some, eq_of_test, subst, inl, inr, Bool-cases, ℕ, ◌≡◌, refl, ◌∙◌, ap, false, some, List,
  ◌∷◌, arith, length, has, sym, ◌==◌, if◌then◌else◌,
}
use xtern.RunQueue.{RunqElem, RunQueue, ThdStatus, put, front, front_elem, empty, size, set_status}
use xtern.RunQueue.Chain.{Chain-put, status_at, put_self, put_ne}
use xtern.RunQueue.Repr.{Repr}
use xtern.RunQueue.Queue.{put-IsOwned}

-- The first thread is the one that `front` names.
pub front-Repr : (q : RunQueue) (t : ℕ) (ts : List ℕ) → Repr q (t ∷ ts) → front q ≡ some t
unfolding front
front-Repr q t ts r =
    let (e, at, ep, en, rest) = r.chain in
    rw (r.head_eq, front) (rw at (ap some (r.owned.tid_eq t e at)))

-- A write of a status keeps the queue, and changes this thread's status alone.
pub set_status-Repr :
    (q : RunQueue) (t : ℕ) (e : RunqElem) (s : ThdStatus) (ts : List ℕ)
    → Repr q ts
    → q.tid_map t ≡ some e
    → (q' : RunQueue) × (set_status q t s ≡ some q')
      × Repr q' ts
      × ((u : ℕ) → status_at (q'.tid_map u) ≡ (if t == u then some s else status_at (q.tid_map u)))
unfolding set_status
set_status-Repr q t e s ts r at =
    let e' : RunqElem = record e { status = s } in
    (
      record q { tid_map = put q.tid_map t (some e') },
      rw at refl,
      record {
        before = r.before;
        chain = Chain-put q.tid_map t e e' r.before ts at refl refl r.chain;
        head_eq = r.head_eq;
        tail_eq = r.tail_eq;
        count = r.count;
        distinct = r.distinct;
        owned = put-IsOwned q.tid_map t e e' r.owned at refl;
        detached = λ u y h outside. elim (Bool-cases (u == t)) [
          | inl here ↦
              let same : u ≡ t = eq_of_test u t here in
              let got : y ≡ e' =
                eq_of_some _ _ (
                  sym h ∙ (ap (put q.tid_map t (some e')) same ∙ put_self q.tid_map t (some e'))) in
              let old = r.detached t e at (subst (λ v. has v ts ≡ false) same outside) in
              (ap (λ z. z.prev) got ∙ old.0, ap (λ z. z.next) got ∙ old.1)
          | inr other ↦ r.detached u y (sym (put_ne q.tid_map t (some e') u other) ∙ h) outside
        ];
      },
      λ u. ground arith,
    )

-- `empty` says whether there is no thread, and `front_elem` gives the first one's element.
pub empty-Repr : (q : RunQueue) (ts : List ℕ) → Repr q ts → empty q ≡ (length ts == 0)
unfolding empty size
empty-Repr q ts r = rw r.count refl

pub front_elem-Repr :
    (q : RunQueue) (t : ℕ) (ts : List ℕ)
    → Repr q (t ∷ ts)
    → (e : RunqElem) × (front_elem q ≡ some e) × (q.tid_map t ≡ some e) × (e.tid ≡ t)
unfolding front_elem
front_elem-Repr q t ts r =
    let (e, at, ep, en, rest) = r.chain in (e, rw r.head_eq at, at, r.owned.tid_eq t e at)

pub empty-cons : (q : RunQueue) (t : ℕ) (ts : List ℕ) → Repr q (t ∷ ts) → empty q ≡ false
empty-cons q t ts r = empty-Repr q (t ∷ ts) r ∙ ground arith

pub size-Repr : (q : RunQueue) (ts : List ℕ) → Repr q ts → size q ≡ length ts
unfolding size
size-Repr q ts r = r.count
