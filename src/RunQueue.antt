-- ===== src/RunQueue.antt =====
-- include/tern/runtime/run-queue.h: the run queue of threads, a doubly linked list through one
-- element per thread. An element is created for a thread id and is reached only through `tid_map`
-- and through links that come from there, so a pointer to an element is written as the thread id of
-- its slot; a null pointer is `none`. A slot that holds no element, an index beyond the array
-- included, is a fault to read. The spin lock of an element guards single reads and writes of its
-- status, which are single steps here; the checks under DEBUG_RUN_QUEUE, which the build leaves
-- out, are not modelled.
pub mod Chain
pub mod Repr
pub mod Queue
pub mod Access
pub mod Membership
pub mod Clear
pub mod Walk
use xtern.Base.{
  List, [], ◌∷◌, ℕ, zero, suc, ◌+◌, ◌-◌, ◌%◌, ◌^◌, Bool, true, false, ◌||◌, ◌&&◌, not, Option, none,
  some, ltb, ◌==◌, if◌then◌else◌, is_some, ◌>>=◌, ◌>>◌, require,
}

abbrev pub max_thread_num : ℕ
max_thread_num = 5000

-- The modulus of `size_t`.
abbrev pub size_mod : ℕ
size_mod = 2 ^ 64

pub data ThdStatus : Type 0 where
  runnable running_reg running_inter_pro inter_pro_stop : ThdStatus

pub record RunqElem : Type 0 where
  pub tid : ℕ
  pub status : ThdStatus
  pub prev : Option ℕ
  pub next : Option ℕ

abbrev pub ElemMap : Type 0
ElemMap = ℕ → Option RunqElem

pub record RunQueue : Type 0 where
  pub head : Option ℕ
  pub tail : Option ℕ
  pub num_elements : ℕ
  pub tid_map : ElemMap

abbrev pub put : ElemMap → ℕ → Option RunqElem → ElemMap
put m t e u = if t == u then e else m u

-- `p->...` for a pointer p.
abbrev pub deref : RunQueue → Option ℕ → Option RunqElem
deref q none = none
deref q (some t) = q.tid_map t

-- A write of one element through a pointer to it.
abbrev pub modify : RunQueue → Option ℕ → (RunqElem → RunqElem) → Option RunQueue
modify q none f = none
modify q (some t) f =
    q.tid_map t >>= λ e. some (record q { tid_map = put q.tid_map t (some (f e)) })

abbrev pub same_ptr : Option ℕ → Option ℕ → Bool
same_ptr none none = true
same_ptr (some a) (some b) = a == b
same_ptr (some a) none = false
same_ptr none (some b) = false

unfoldable pub get_my_elem : RunQueue → ℕ → Option RunqElem
get_my_elem q t = q.tid_map t

abbrev pub new_elem : ℕ → RunqElem
new_elem t = record { tid = t; status = runnable; prev = none; next = none }

pub create_thd_elem : RunQueue → ℕ → Option RunQueue
create_thd_elem q t = do
  require (ltb t max_thread_num)
  some (record q { tid_map = put q.tid_map t (some (new_elem t)) })

pub del_thd_elem : RunQueue → ℕ → Option RunQueue
del_thd_elem q t = do e ← q.tid_map t; some (record q { tid_map = put q.tid_map t none })

-- Whether a thread is in the queue: by its own links, or as the only element.
pub is_in : RunQueue → ℕ → Option Bool
is_in q t = do
  e ← q.tid_map t
  some (
      if is_some e.prev || is_some e.next
      then true
      else same_ptr q.head (some t) && same_ptr q.tail (some t))

-- One round of the loop of `deep_clear` for the slot i.
clear_slot : RunQueue → ℕ → Option RunQueue
unfolding del_thd_elem
clear_slot q i = elim (q.tid_map i) [
  | none ↦ some q
  | some e ↦
      del_thd_elem
        (record q { tid_map = put q.tid_map i (some (record e { prev = none; next = none })) })
        e.tid
]

-- The loop of `deep_clear` over n slots from i.
clear_slots : ℕ → ℕ → RunQueue → Option RunQueue
clear_slots zero i q = some q
clear_slots (suc n) i q = clear_slot q i >>= clear_slots n (i + 1)

pub deep_clear : RunQueue → Option RunQueue
deep_clear q =
    clear_slots max_thread_num 0 (record q { head = none; tail = none; num_elements = 0 })

pub size : RunQueue → ℕ
size q = q.num_elements

pub empty : RunQueue → Bool
unfolding size
empty q = size q == 0

pub front_elem : RunQueue → Option RunqElem
front_elem q = deref q q.head

pub front : RunQueue → Option ℕ
front q = do e ← deref q q.head; some e.tid

pub push_back : RunQueue → ℕ → Option RunQueue
push_back q t = do
  e ← q.tid_map t
  q' ← if same_ptr q.head none then some (record q { head = some t; tail = some t }) else do
    q₁ ← modify q (some t) (λ x. record x { prev = q.tail })
    q₂ ← modify q₁ q.tail (λ x. record x { next = some t })
    some (record q₂ { tail = some t })
  some (record q' { num_elements = (q'.num_elements + 1) % size_mod })

pub push_front : RunQueue → ℕ → Option RunQueue
push_front q t = do
  e ← q.tid_map t
  q' ← if same_ptr q.head none then some (record q { head = some t; tail = some t }) else do
    q₁ ← modify q (some t) (λ x. record x { next = q.head })
    some (record q₁ { head = some t })
  some (record q' { num_elements = (q'.num_elements + 1) % size_mod })

pub pop_front : RunQueue → Option RunQueue
pop_front q = do
  e ← deref q q.head
  q' ← modify (record q { head = e.next }) q.head (λ x. record x { prev = none; next = none })
  some (record q' {
    tail = (if same_ptr q'.head none then none else q'.tail);
    num_elements = (q'.num_elements + size_mod - 1) % size_mod;
  })

-- `position->prev->next = position->next`, and the same the other way round.
bypass_next : RunQueue → Option ℕ → Option RunQueue
bypass_next q p = do
  e ← deref q p
  if is_some e.prev then modify q e.prev (λ x. record x { next = e.next }) else some q

bypass_prev : RunQueue → Option ℕ → Option RunQueue
bypass_prev q p = do
  e ← deref q p
  if is_some e.next then modify q e.next (λ x. record x { prev = e.prev }) else some q

-- The heads and tails that point at the position, moved off it.
move_ends : RunQueue → Option ℕ → Option RunQueue
move_ends q p = do
  e ← deref q p
  some (record q {
    head = (if same_ptr q.head p then e.next else q.head);
    tail = (if same_ptr q.tail p then e.prev else q.tail);
  })

-- Removes the element at an iterator, and returns the iterator behind it.
pub erase : RunQueue → Option ℕ → Option (Option ℕ × RunQueue)
unfolding bypass_next bypass_prev move_ends
erase q none = some (none, q)
erase q (some t) = do
  e ← deref q (some t)
  q₁ ← bypass_next q (some t)
  q₂ ← bypass_prev q₁ (some t)
  q₃ ← move_ends q₂ (some t)
  q₄ ← modify q₃ (some t) (λ x. record x { prev = none; next = none })
  some (e.next, record q₄ { num_elements = (q₄.num_elements + size_mod - 1) % size_mod })

-- `elem->status = s`, where s may depend on the status that is read under the same lock.
pub set_status : RunQueue → ℕ → ThdStatus → Option RunQueue
set_status q t s = modify q (some t) (λ x. record x { status = s })

-- The threads that an iterator visits from a position to the end; `none` when more than n.
pub walk : ℕ → RunQueue → Option ℕ → Option (List ℕ)
walk n q none = some []
walk zero q (some t) = none
walk (suc n) q (some t) = do e ← q.tid_map t; rest ← walk n q e.next; some (e.tid ∷ rest)
