-- ===== src/RunQueue/Clear.antt =====
-- deep_clear of include/tern/runtime/run-queue.h, which a forked process begins with.
use xtern.Base.{
  ℕ, zero, suc, ◌+◌, ◌≡◌, refl, ◌∙◌, ap, ◌<◌, inl, inr, ◌&&◌, Option, none, some, [], arith, ltb,
  leb, ◌==◌, if◌then◌else◌, Option-cases,
}
use xtern.RunQueue.{
  RunqElem, ElemMap, RunQueue, max_thread_num, put, del_thd_elem, clear_slot, clear_slots,
  deep_clear,
}
use xtern.RunQueue.Repr.{IsOwned, Repr}

-- Every element is in the slot of its own thread.
abbrev InPlace : ElemMap → Type 0
InPlace m = (t : ℕ) (e : RunqElem) → m t ≡ some e → e.tid ≡ t

-- A round empties its slot.
clear_slot_lem :
    (q : RunQueue) (i : ℕ)
    → InPlace q.tid_map
    → (q' : RunQueue) × (clear_slot q i ≡ some q')
      × ((u : ℕ) → q'.tid_map u ≡ (if i == u then none else q.tid_map u))
      × (q' ≡ record q { tid_map = q'.tid_map })
unfolding clear_slot del_thd_elem
clear_slot_lem q i own = elim (Option-cases (q.tid_map i)) [
  | inl e ↦ (q, rw (e, clear_slot) refl, λ u. ground (arith, e), refl)
  | inr (x, e) ↦
      let same : x.tid ≡ i = own i x e in
      let q₁ : RunQueue = record q {
        tid_map = put q.tid_map i (some (record x { prev = none; next = none }));
      } in
      let here : q₁.tid_map x.tid ≡ some (record x { prev = none; next = none }) =
        ground (arith, same) in
      (
        record q₁ { tid_map = put q₁.tid_map x.tid none },
        rw (e, clear_slot) (rw here refl),
        λ u. ground (arith, same),
        refl,
      )
]

-- The loop empties the slots i to i + n - 1, and no other.
clear_slots_lem :
    (n i : ℕ) (q : RunQueue)
    → InPlace q.tid_map
    → (q' : RunQueue) × (clear_slots n i q ≡ some q')
      × ((u : ℕ) → q'.tid_map u ≡ (if leb i u && ltb u (i + n) then none else q.tid_map u))
      × (q' ≡ record q { tid_map = q'.tid_map })
unfolding clear_slots
clear_slots_lem zero i q own = (q, refl, λ u. ground arith, refl)
clear_slots_lem (suc n) i q own =
    let (q₁, ran₁, at₁, frame₁) = clear_slot_lem q i own in
    let (q₂, ran₂, at₂, frame₂) =
      clear_slots_lem n (i + 1) q₁ (λ u e h. ground (arith, at₁ u, own u e)) in
    (
      q₂,
      rw ran₁ ran₂,
      λ u. ground (arith, at₁ u, at₂ u),
      frame₂ ∙ ap {A = RunQueue} {B = RunQueue} (λ z. record z { tid_map = q₂.tid_map }) frame₁,
    )

outside_range :
    (m : Option RunqElem) (t : ℕ)
    → ((e : RunqElem) → m ≡ some e → t < max_thread_num)
    → (if leb 0 t && ltb t (0 + max_thread_num) then none else m) ≡ none
outside_range none t small = ground arith
outside_range (some e) t small = let below = small e refl in ground arith

-- Whatever the queue holds, even a broken chain of links, `deep_clear` returns where each element is in
-- its own slot of the array. It leaves an empty queue and no element.
pub deep_clear-Repr :
    (q : RunQueue)
    → IsOwned q.tid_map
    → (q' : RunQueue) × (deep_clear q ≡ some q') × Repr q' [] × ((t : ℕ) → q'.tid_map t ≡ none)
unfolding deep_clear
deep_clear-Repr q own =
    let q₀ : RunQueue = record q { head = none; tail = none; num_elements = 0 } in
    let (q', ran, at, frame) = clear_slots_lem max_thread_num 0 q₀ own.tid_eq in
    let gone : (t : ℕ) → q'.tid_map t ≡ none =
      λ t. at t ∙ outside_range (q.tid_map t) t (own.in_range t) in
    (
      q',
      ran,
      record {
        before = none;
        chain = tt;
        head_eq = ap (λ z. z.head) frame;
        tail_eq = ap (λ z. z.tail) frame;
        count = ap (λ z. z.num_elements) frame;
        distinct = tt;
        owned = record {
          tid_eq = λ t e h. let nil = gone t in cc;
          in_range = λ t e h. let nil = gone t in cc;
        };
        detached = λ t e h out. let nil = gone t in cc;
      },
      gone,
    )
