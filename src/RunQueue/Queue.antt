-- ===== src/RunQueue/Queue.antt =====
-- The run queue of include/tern/runtime/run-queue.h as a queue of threads: push_back and
-- pop_front.
use xtern.Base.{
  eq_of_some, eq_of_test, inl, inr, Bool-cases, ℕ, ◌+◌, ◌%◌, ◌≡◌, refl, ◌≤◌, ◌∙◌, ap, false, Option,
  none, some, List, [], ◌∷◌, ◌++◌, arith, length, length-append, has, has-append, Distinct-snoc,
  head?, last?, last_of, last_of-snoc, ne-last_of, ne_of_has, sym, ◌==◌,
}
use xtern.RunQueue.{
  RunqElem, ElemMap, RunQueue, max_thread_num, size_mod, put, push_back, pop_front,
}
use xtern.RunQueue.Chain.{Chain, Chain-same, Chain-snoc, status_at, put_self, put_ne, put-status}
use xtern.RunQueue.Repr.{IsOwned, Repr, SameStatus, length-le_max}

-- A write that keeps the thread id of an element keeps the slots in order.
pub put-IsOwned :
    (m : ElemMap) (t : ℕ) (e e' : RunqElem)
    → IsOwned m
    → m t ≡ some e
    → e'.tid ≡ e.tid
    → IsOwned (put m t (some e'))
put-IsOwned m t e e' o at same = record {
  tid_eq = λ u x h. ground (arith, o.tid_eq t e at, o.tid_eq u x);
  in_range = λ u x h. ground (arith, o.in_range t e at, o.in_range u x);
}

pub Chain-last :
    (m : ElemMap) (before : Option ℕ) (x : ℕ) (ts : List ℕ)
    → Chain m before (x ∷ ts)
    → (l : RunqElem) × (m (last_of x ts) ≡ some l)
Chain-last m before x [] (e, at, p, n, rest) = (e, at)
Chain-last m before x (y ∷ ts) (e, at, p, n, rest) = Chain-last m (some x) y ts rest

-- The state that `push_back` leaves behind a queue that is not empty, whose last element is l.
abbrev pushed : RunQueue → ℕ → RunqElem → ℕ → RunqElem → RunQueue
pushed q t e last l = record {
  head = q.head;
  tail = some t;
  num_elements = (q.num_elements + 1) % size_mod;
  tid_map =
      put (put q.tid_map t (some (record e { prev = q.tail }))) last
        (some (record l { next = some t }));
}

push_back-pushed :
    (q : RunQueue) (t h last : ℕ) (e l : RunqElem)
    → q.tid_map t ≡ some e
    → q.tid_map last ≡ some l
    → (t == last) ≡ false
    → q.head ≡ some h
    → q.tail ≡ some last
    → push_back q t ≡ some (pushed q t e last l)
unfolding push_back
push_back-pushed q t h last e l at atl ne hd tl = rw (at, hd, tl, push_back) (ground arith)

-- What an operation on the queue q achieves: it returns, the queue then holds `ts`, and no status
-- has changed.
abbrev pub Yields : RunQueue → Option RunQueue → List ℕ → Type 0
Yields q r ts = (q' : RunQueue) × (r ≡ some q') × Repr q' ts × SameStatus q q'

push_back-nil :
    (q : RunQueue) (t : ℕ) (e : RunqElem)
    → Repr q []
    → q.tid_map t ≡ some e
    → Yields q (push_back q t) (t ∷ [])
unfolding push_back
push_back-nil q t e r at = (
  record q { head = some t; tail = some t; num_elements = 1 },
  ground (arith, r.head_eq, r.count),
  record {
    before = none;
    chain = (e, at, (r.detached t e at refl).0, (r.detached t e at refl).1, tt);
    head_eq = refl;
    tail_eq = refl;
    count = refl;
    distinct = (refl, tt);
    owned = r.owned;
    detached = λ u x h out. r.detached u x h refl;
  },
  λ u. refl,
)

-- The two writes of elements by `push_back`: of the new element t, then of the last one l.
module _ (m : ElemMap) (t last : ℕ) (e e' l l' : RunqElem) (at : m t ≡ some e)
    (atl : m last ≡ some l) (ne : (t == last) ≡ false) where
  abbrev twice : ElemMap
  twice = put (put m t (some e')) last (some l')

  twice-first : twice t ≡ some e'
  twice-first = ground arith

  twice-other : (u : ℕ) → (u == t) ≡ false → (u == last) ≡ false → twice u ≡ m u
  twice-other u h k = ground arith

  between : put m t (some e') last ≡ some l
  between = ground arith

  twice-IsOwned : IsOwned m → e'.tid ≡ e.tid → l'.tid ≡ l.tid → IsOwned twice
  twice-IsOwned o same same' =
      put-IsOwned _ last l l' (put-IsOwned m t e e' o at same) between same'

  twice-status :
      e'.status ≡ e.status → l'.status ≡ l.status → (u : ℕ) → status_at (twice u) ≡ status_at (m u)
  twice-status same same' u =
      put-status (put m t (some e')) last l l' between same' u ∙ put-status m t e e' at same u

has-snoc-false :
    (u t : ℕ) (ts : List ℕ) → has u (ts ++ t ∷ []) ≡ false → (has u ts ≡ false) × ((u == t) ≡ false)
has-snoc-false u t ts h = ground (arith, has-append u ts (t ∷ []))

push_back-cons :
    (q : RunQueue) (t : ℕ) (e : RunqElem) (x : ℕ) (ts : List ℕ)
    → Repr q (x ∷ ts)
    → q.tid_map t ≡ some e
    → has t (x ∷ ts) ≡ false
    → Yields q (push_back q t) (x ∷ (ts ++ t ∷ []))
push_back-cons q t e x ts r at out =
    let last : ℕ = last_of x ts in
    let (l, atl) = Chain-last q.tid_map r.before x ts r.chain in
    let ne : (t == last) ≡ false = ne-last_of t x ts out in
    let e' : RunqElem = record e { prev = q.tail } in
    let l' : RunqElem = record l { next = some t } in
    (
      pushed q t e last l,
      push_back-pushed q t x last e l at atl ne r.head_eq r.tail_eq,
      record {
        before = r.before;
        chain =
            Chain-snoc q.tid_map _ r.before x ts t e' r.distinct r.chain r.tail_eq
              (r.detached t e at out).1 (twice-first q.tid_map t last e e' l l' at atl ne)
              (λ y aty.
                put_self (put q.tid_map t (some e')) last (some l')
                ∙ ap (λ z. elim z [ none ↦ none | some w ↦ some (record w { next = some t }) ])
                    (sym atl ∙ aty))
              (λ u h nl.
                twice-other q.tid_map t last e e' l l' at atl ne u (ne_of_has u t (x ∷ ts) h out)
                  nl);
        head_eq = r.head_eq;
        tail_eq = ap some (sym (last_of-snoc x ts t));
        count = omega (arith, length-append ts (t ∷ []), r.count, length-le_max (x ∷ ts) r);
        distinct = Distinct-snoc (x ∷ ts) t r.distinct out;
        owned = twice-IsOwned q.tid_map t last e e' l l' at atl ne r.owned refl refl;
        detached = λ u y h outside.
            let (old, new) = has-snoc-false u t (x ∷ ts) outside in
            r.detached u y
              (sym (twice-other q.tid_map t last e e' l l' at atl ne u new (ne-last_of u x ts old))
                ∙ h)
              old;
      },
      twice-status q.tid_map t last e e' l l' at atl ne refl refl,
    )

-- A thread that has an element and is not queued goes to the end; nothing else changes.
pub push_back-Repr :
    (q : RunQueue) (t : ℕ) (e : RunqElem) (ts : List ℕ)
    → Repr q ts
    → q.tid_map t ≡ some e
    → has t ts ≡ false
    → Yields q (push_back q t) (ts ++ t ∷ [])
push_back-Repr q t e [] r at out = push_back-nil q t e r at
push_back-Repr q t e (x ∷ ts) r at out = push_back-cons q t e x ts r at out

-- The state that `pop_front` leaves of a queue whose first element is e, of thread t.
abbrev popped : RunQueue → ℕ → RunqElem → List ℕ → RunQueue
popped q t e ts = record {
  head = head? ts;
  tail = last? ts;
  num_elements = length ts;
  tid_map = put q.tid_map t (some (record e { prev = none; next = none }));
}

pop_front-popped :
    (q : RunQueue) (t : ℕ) (e : RunqElem) (ts : List ℕ)
    → q.tid_map t ≡ some e
    → e.next ≡ head? ts
    → q.head ≡ some t
    → q.tail ≡ last? (t ∷ ts)
    → q.num_elements ≡ length (t ∷ ts)
    → length (t ∷ ts) ≤ max_thread_num
    → pop_front q ≡ some (popped q t e ts)
unfolding pop_front
pop_front-popped q t e [] at n hd tl count few = rw (hd, pop_front) (ground arith)
pop_front-popped q t e (x ∷ ts) at n hd tl count few = rw (hd, pop_front) (ground arith)

-- The first thread leaves the queue, and its element loses its links.
pub pop_front-Repr :
    (q : RunQueue) (t : ℕ) (ts : List ℕ) → Repr q (t ∷ ts) → Yields q (pop_front q) ts
pop_front-Repr q t ts r =
    let (e, at, ep, en, rest) = r.chain in
    let e' : RunqElem = record e { prev = none; next = none } in
    (
      popped q t e ts,
      pop_front-popped q t e ts at en r.head_eq r.tail_eq r.count (length-le_max (t ∷ ts) r),
      record {
        before = some t;
        chain =
            Chain-same q.tid_map _ (some t) ts
              (λ u h. put_ne q.tid_map t (some e') u (ne_of_has u t ts h r.distinct.0)) rest;
        head_eq = refl;
        tail_eq = refl;
        count = refl;
        distinct = r.distinct.1;
        owned = put-IsOwned q.tid_map t e e' r.owned at refl;
        detached = λ u y h outside. elim (Bool-cases (u == t)) [
          | inl here ↦
              let same : u ≡ t = eq_of_test u t here in
              let got : y ≡ e' =
                eq_of_some _ _ (
                  sym h ∙ (ap (put q.tid_map t (some e')) same ∙ put_self q.tid_map t (some e'))) in
              (ap (λ z. z.prev) got, ap (λ z. z.next) got)
          | inr other ↦
              r.detached u y (sym (put_ne q.tid_map t (some e') u other) ∙ h) (ground arith)
        ];
      },
      put-status q.tid_map t e e' at refl,
    )
