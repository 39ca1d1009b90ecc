-- ===== src/Runtime/Time/Laws.antt =====
-- The number of turns that lib/runtime/record-runtime.cpp computes for an interval.
use native.Mathlib.Nat.{le-div_iff_mul-le}
use xtern.Base.{
  inl, inr, Bool-cases, ℕ, ◌+◌, ◌*◌, ◌/◌, ◌%◌, ◌^◌, ◌≡◌, refl, ◌≤◌, ◌<◌, true, false, some, arith,
  ltb, if◌then◌else◌,
}
use xtern.Scheduler.State.{Sched}
use xtern.Runtime.State.{RtOptions}
use xtern.Runtime.Time.{
  Timespec, time_diff, time2turn, rel_time_to_turn, max_rel, least_turns, add_word, sub_word, word,
  is_negative,
}

pub time2turn-le :
    (o : RtOptions) (nsec : ℕ)
    → o.sched.launch_idle_thread ≡ true
    → 0 < o.nanosec_per_turn
    → (r : ℕ) × (time2turn o nsec ≡ some r) × (r ≤ max_rel)
unfolding time2turn
time2turn-le o nsec launched pos = (
  if ltb max_rel (nsec / o.nanosec_per_turn) then max_rel else nsec / o.nanosec_per_turn,
  ground (arith, launched, pos),
  small (nsec / o.nanosec_per_turn),
)
  where
    small : (x : ℕ) → (if ltb max_rel x then max_rel else x) ≤ max_rel
    small x = ground arith

clamp_bounds :
    (r least : ℕ)
    → r ≤ max_rel
    → (least ≤ (if ltb r least then least else r))
      × ((if ltb r least then least else r) ≤ max_rel + least)
clamp_bounds r least h = ground arith

-- Where the idle thread is launched and nanosec_per_turn is not 0, every interval that is given, as
-- against a null pointer, is converted. The number of turns is at least five for each thread and one
-- more, and at most 1000000 above that.
pub rel_time_to_turn_bounds :
    (o : RtOptions) (s : Sched) (t : Timespec)
    → o.sched.launch_idle_thread ≡ true
    → 0 < o.nanosec_per_turn
    → (n : ℕ) × (rel_time_to_turn o s (some t) ≡ some n)
      × (least_turns s ≤ n)
      × (n ≤ max_rel + least_turns s)
unfolding rel_time_to_turn
rel_time_to_turn_bounds o s t launched pos =
    let (r, ran, small) =
      time2turn-le o (add_word ((t.tv_sec * 1000000000) % word) t.tv_nsec) launched pos in
    let (low, high) = clamp_bounds r (least_turns s) small in
    (if ltb r (least_turns s) then least_turns s else r, rw ran refl, low, high)

-- Of two times with nanoseconds in range, the second not before the first, `time_diff` is the interval
-- between them, with its nanoseconds in range.
pub time_diff-add :
    (start end : Timespec)
    → start.tv_nsec < 1000000000
    → end.tv_nsec < 1000000000
    → start.tv_sec < 2 ^ 62
    → end.tv_sec < 2 ^ 62
    → start.tv_sec * 1000000000 + start.tv_nsec ≤ end.tv_sec * 1000000000 + end.tv_nsec
    → let d = time_diff start end in
      (d.tv_nsec < 1000000000)
      × (start.tv_sec * 1000000000 + start.tv_nsec + (d.tv_sec * 1000000000 + d.tv_nsec)
          ≡ end.tv_sec * 1000000000 + end.tv_nsec)
unfolding time_diff
time_diff-add start end a b c d le =
    elim (Bool-cases (is_negative (sub_word end.tv_nsec start.tv_nsec))) [
      | inl e ↦
          let less : end.tv_nsec < start.tv_nsec = ground arith in rw e (omega arith, omega arith)
      | inr e ↦
          let less : start.tv_nsec ≤ end.tv_nsec = ground arith in rw e (omega arith, omega arith)
    ]

-- A deadline that has passed by 2^32 seconds at most: an interval of minus d seconds, and n nanoseconds
-- more, n below 1000000000, becomes the longest wait of 1000000 turns, not the shortest one, where the
-- idle thread is launched, for up to 100000 threads and a turn of at least a nanosecond and at most a
-- second.
pub past_deadline :
    (o : RtOptions) (s : Sched) (d n : ℕ)
    → o.sched.launch_idle_thread ≡ true
    → 0 < o.nanosec_per_turn
    → o.nanosec_per_turn ≤ 1000000000
    → s.tids.nthread ≤ 100000
    → 0 < d
    → d ≤ 2 ^ 32
    → n < 1000000000
    → rel_time_to_turn o s (some (record { tv_sec = sub_word 0 d; tv_nsec = n })) ≡ some max_rel
unfolding rel_time_to_turn time2turn
past_deadline o s d n launched pos one few past recent small =
    let ns : ℕ = add_word ((sub_word 0 d * 1000000000) % word) n in
    let big : 2 ^ 62 ≤ ns = omega arith in
    let long : max_rel < ns / o.nanosec_per_turn = quotient ns o.nanosec_per_turn pos one big in
    let test : ltb max_rel (ns / o.nanosec_per_turn) ≡ true = ground arith in
    let positive : ltb 0 o.nanosec_per_turn ≡ true = ground arith in
    let least : ltb max_rel (least_turns s) ≡ false = ground arith in
    rw launched (rw positive (rw test (rw least refl)))
  where
    quotient : (a b : ℕ) → 0 < b → b ≤ 1000000000 → 2 ^ 62 ≤ a → max_rel < a / b
    quotient a b p q r = (le-div_iff_mul-le p).1 (omega arith)
