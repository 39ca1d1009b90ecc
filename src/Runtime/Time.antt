-- ===== src/Runtime/Time.antt =====
-- The conversion of a physical time to a number of turns in lib/runtime/record-runtime.cpp:
-- time_diff, time2turn, relTimeToTurn, and the deadline that the timed calls compute. A `long` and
-- an `int64_t` are bit patterns of 64 bits.
pub mod Laws
use xtern.Base.{
  ℕ, ◌+◌, ◌-◌, ◌*◌, ◌/◌, ◌%◌, ◌^◌, Bool, true, false, Option, none, some, ltb, leb, ◌==◌,
  if◌then◌else◌, ◌>>=◌, ◌>>◌, require,
}
use xtern.Scheduler.State.{Sched, unsigned_mod}
use xtern.Scheduler.Waiting
use xtern.Runtime.State.{RtOptions}

abbrev pub word : ℕ
word = 2 ^ 64

abbrev pub sub_word : ℕ → ℕ → ℕ
sub_word a b = (a + word - b) % word

abbrev pub add_word : ℕ → ℕ → ℕ
add_word a b = (a + b) % word

abbrev pub is_negative : ℕ → Bool
is_negative a = leb (2 ^ 63) a

pub record Timespec : Type 0 where
  pub tv_sec : ℕ
  pub tv_nsec : ℕ

pub time_diff : Timespec → Timespec → Timespec
time_diff start end =
    if is_negative (sub_word end.tv_nsec start.tv_nsec)
    then record {
      tv_sec = sub_word (sub_word end.tv_sec start.tv_sec) 1;
      tv_nsec = add_word (sub_word 1000000000 start.tv_nsec) end.tv_nsec;
    }
    else record {
      tv_sec = sub_word end.tv_sec start.tv_sec;
      tv_nsec = sub_word end.tv_nsec start.tv_nsec;
    }

abbrev pub max_rel : ℕ
max_rel = 1000000

-- `none` is exit(1), where the idle thread is not launched, or the division by zero.
pub time2turn : RtOptions → ℕ → Option ℕ
time2turn o nsec = do
  require o.sched.launch_idle_thread
  require (ltb 0 o.nanosec_per_turn)
  some (if ltb max_rel (nsec / o.nanosec_per_turn) then max_rel else nsec / o.nanosec_per_turn)

abbrev pub least_turns : Sched → ℕ
least_turns s = 5 * s.tids.nthread + 1

-- The time is a null pointer, or an interval.
pub rel_time_to_turn : RtOptions → Sched → Option Timespec → Option ℕ
rel_time_to_turn o s none = some 0
rel_time_to_turn o s (some t) = do
  ret ← time2turn o (add_word ((t.tv_sec * 1000000000) % word) t.tv_nsec)
  some (if ltb ret (least_turns s) then least_turns s else ret)

-- The current time of a timed call: the base time that the thread has set, or else the clock.
pub current_time : Timespec → Timespec → Timespec
current_time base clock = if base.tv_sec == 0 then clock else base

-- The turn at which a timed call gives up, for a deadline of the calendar.
pub deadline_turn : RtOptions → Timespec → Timespec → Timespec → Sched → Option ℕ
deadline_turn o base clock abstime s = do
  n ← rel_time_to_turn o s (some (time_diff (current_time base clock) abstime))
  some ((Waiting.get_turn_count s + n) % unsigned_mod)
