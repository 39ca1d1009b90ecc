-- ===== src/RunQueue/Chain.antt =====
-- The links of include/tern/runtime/run-queue.h: what the elements of a queued list of threads say
-- of one another, and how a write of an element changes that.

use xtern.Base.{
  eq_of_some, eq_of_test, sym, ap, inl, inr, Bool-cases, ℕ, ◌≡◌, refl, ◌∙◌, true, false, Option,
  none, some, List, [], ◌∷◌, ◌++◌, arith, ◌==◌, has, Distinct, head?, last_of, ne-last_of,
}
use xtern.RunQueue.{RunqElem, ElemMap, ThdStatus, put}

-- The threads `ts` are linked in this order. The first one's `prev` is `before`: `pop_front` leaves
-- the new head's link to the thread that it removed, so nothing more is known of it.
abbrev pub Chain : ElemMap → Option ℕ → List ℕ → Type 0
Chain m before [] = Unit {0}
Chain m before (t ∷ ts) =
    (e : RunqElem) × (m t ≡ some e) × (e.prev ≡ before) × (e.next ≡ head? ts) × Chain m (some t) ts

module _ (m : ElemMap) (t : ℕ) (c : Option RunqElem) where
  pub put_self : put m t c t ≡ c
  put_self = ground arith

  pub put_ne : (u : ℕ) → (u == t) ≡ false → put m t c u ≡ m u
  put_ne u h = ground arith

pub eq_sym : (a b : ℕ) → (a == b) ≡ false → (b == a) ≡ false
eq_sym a b h = ground arith

-- The status of a slot's element.
abbrev pub status_at : Option RunqElem → Option ThdStatus
status_at none = none
status_at (some e) = some e.status

-- A write that keeps an element's status keeps every status.
pub put-status :
    (m : ElemMap) (t : ℕ) (e e' : RunqElem)
    → m t ≡ some e
    → e'.status ≡ e.status
    → (u : ℕ) → status_at (put m t (some e') u) ≡ status_at (m u)
put-status m t e e' at same u = ground arith

-- A chain survives any change that spares its threads.
pub Chain-same :
    (m m' : ElemMap) (before : Option ℕ) (ts : List ℕ)
    → ((t : ℕ) → has t ts ≡ true → m' t ≡ m t)
    → Chain m before ts
    → Chain m' before ts
Chain-same m m' before [] same c = tt
Chain-same m m' before (t ∷ ts) same (e, at, p, n, rest) = (
  e,
  same t (ground arith) ∙ at,
  p,
  n,
  Chain-same m m' (some t) ts (λ u h. same u (ground (arith, h))) rest,
)

-- A thread put behind the last one: the last one's `next` and the new one's `prev` are written.
pub Chain-snoc :
    (m m' : ElemMap) (before : Option ℕ) (x : ℕ) (ts : List ℕ) (t : ℕ) (e : RunqElem)
    → Distinct (x ∷ ts)
    → Chain m before (x ∷ ts)
    → e.prev ≡ some (last_of x ts)
    → e.next ≡ none
    → m' t ≡ some e
    → ((l : RunqElem)
        → m (last_of x ts) ≡ some l
        → m' (last_of x ts) ≡ some (record l { next = some t }))
    → ((u : ℕ) → has u (x ∷ ts) ≡ true → (u == last_of x ts) ≡ false → m' u ≡ m u)
    → Chain m' before (x ∷ (ts ++ t ∷ []))
Chain-snoc m m' before x [] t e d (l, at, p, n, rest) ep en new linked same =
    (record l { next = some t }, linked l at, p, refl, (e, new, ep, en, tt))
Chain-snoc m m' before x (y ∷ ts) t e d (l, at, p, n, rest) ep en new linked same = (
  l,
  same x (ground arith) (ne-last_of x y ts d.0) ∙ at,
  p,
  n,
  Chain-snoc m m' (some x) y ts t e d.1 rest ep en new linked
      (λ u h ne. same u (ground (arith, h)) ne),
)

same-elem :
    (m : ElemMap) (t x : ℕ) (e y : RunqElem) → m t ≡ some e → m x ≡ some y → (t == x) ≡ true → y ≡ e
same-elem m t x e y at aty h =
    let same : t ≡ x = eq_of_test t x h in eq_of_some _ _ (sym aty ∙ (ap m (sym same) ∙ at))

-- A write that keeps the links of an element keeps every chain.
pub Chain-put :
    (m : ElemMap) (t : ℕ) (e e' : RunqElem) (before : Option ℕ) (ts : List ℕ)
    → m t ≡ some e
    → e'.prev ≡ e.prev
    → e'.next ≡ e.next
    → Chain m before ts
    → Chain (put m t (some e')) before ts
Chain-put m t e e' before [] at p n c = tt
Chain-put m t e e' before (x ∷ ts) at p n (y, aty, yp, yn, rest) = elim (Bool-cases (t == x)) [
  | inl here ↦ (
    e',
    rw here refl,
    p ∙ ap (λ z. z.prev) (sym (same-elem m t x e y at aty here)) ∙ yp,
    n ∙ ap (λ z. z.next) (sym (same-elem m t x e y at aty here)) ∙ yn,
    Chain-put m t e e' (some x) ts at p n rest,
  )
  | inr other ↦ (y, rw other aty, yp, yn, Chain-put m t e e' (some x) ts at p n rest)
]
