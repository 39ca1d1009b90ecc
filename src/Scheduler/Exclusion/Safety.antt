-- ===== src/Scheduler/Exclusion/Safety.antt =====
-- Who can hold the turn, in every state that the threads of a process reach.
use xtern.Base.{
  ℕ, ◌+◌, ◌≡◌, ◌∙◌, sym, ap, subst, ◌≤◌, ◌<◌, ◌⊎◌, true, false, none, some, arith, ◌==◌,
  if◌then◌else◌, Bool-cases, inl, inr, Every-result, eq_of_test, test_self,
}
use xtern.Scheduler.State.{Options, Sched}
use xtern.Scheduler.Tokens.{tokens, Calm}
use xtern.Scheduler.Waiting.{signal, inc_turn_count, wakeup}
use xtern.Scheduler.Waiting.Quiet.{signal-Calm, inc_turn_count-Calm, wakeup-Calm}
use xtern.Scheduler.Turn.{
  Next, turn_to, invalid_tid, exits, thread_exits, out_of_fuel, get_turn, put_turn, wait_begin,
  block, inter_pro_start, inter_pro_end,
}
use xtern.Scheduler.Turn.Quiet.{gain, Hands}
use xtern.Scheduler.Turn.Handing.{
  put_turn-Hands, wait_begin-Hands, block-Hands, inter_pro_start-Calm, inter_pro_end-Calm,
  get_turn-takes, get_turn-none,
}
use xtern.Scheduler.Threads.{init, create, idle_thread_cond_wait}
use xtern.Scheduler.Threads.Quiet.{init-tokens, create-Calm, idle_thread_cond_wait-Hands}
use xtern.Scheduler.Exclusion.{
  System, Step, gets, puts, waits, blocks, idles, signals, counts, creates, joins, counts_waiters,
  enters, leaves, wakes, ends, Reach, start, later, mark, took, gave, went_on,
}

-- There is one turn at most: held by one thread, or handed to one that has not taken it.
pub record IsSingle (o : Options) (x : System) : Type 0 where
  pub one_holder : (t u : ℕ) → x.holds t ≡ true → x.holds u ≡ true → t ≡ u
  pub one_token :
      (t u : ℕ) → 0 < tokens o (x.sched.waits t) → 0 < tokens o (x.sched.waits u) → t ≡ u
  pub few : (t : ℕ) → tokens o (x.sched.waits t) ≤ 1
  pub not_both : (t u : ℕ) → x.holds t ≡ true → tokens o (x.sched.waits u) ≡ 0

went_on-IsSingle :
    (o : Options) (x : System) (s : Sched)
    → IsSingle o x
    → Calm o x.sched s
    → IsSingle o (went_on x s)
went_on-IsSingle o x s v calm = record {
  one_holder = v.one_holder;
  one_token = λ t u h k. v.one_token t u (omega (arith, calm t)) (omega (arith, calm u));
  few = λ t. omega (arith, calm t, v.few t);
  not_both = λ t u h. omega (arith, calm u, v.not_both t u h);
}

-- A thread that holds the turn gives it up: it is handed to one thread at most.
gave-IsSingle :
    (o : Options) (x : System) (t : ℕ) (n : Next) (s : Sched)
    → IsSingle o x
    → x.holds t ≡ true
    → Hands o x.sched (n, s)
    → IsSingle o (gave x t s)
gave-IsSingle o x t n s v mine hands = record {
  one_holder = λ u w h k. v.one_holder u w (was u h) (was w k);
  one_token = λ u w h k.
      same n u w (omega (arith, hands u, v.not_both t u mine))
        (omega (arith, hands w, v.not_both t w mine));
  few = λ u. omega (arith, hands u, v.not_both t u mine, gain_le n u);
  not_both = λ u w h. absurd (nobody u h);
}
  where
    was : (u : ℕ) → mark x.holds t false u ≡ true → x.holds u ≡ true
    was u h = ground arith

    nobody : (u : ℕ) → mark x.holds t false u ≡ true → ⊥
    nobody u h = let same = v.one_holder t u mine (was u h) in ground arith

    gain_le : (n : Next) (u : ℕ) → gain n u ≤ 1
    gain_le (turn_to w) u = elim (Bool-cases (w == u)) [
      | inl e ↦ rw e (omega arith)
      | inr e ↦ rw e (omega arith)
    ]
    gain_le invalid_tid u = omega arith
    gain_le exits u = omega arith
    gain_le thread_exits u = omega arith
    gain_le out_of_fuel u = omega arith

    same : (n : Next) (u w : ℕ) → 0 < gain n u → 0 < gain n w → u ≡ w
    same (turn_to z) u w h k = ground arith
    same invalid_tid u w h k = omega arith
    same exits u w h k = omega arith
    same thread_exits u w h k = omega arith
    same out_of_fuel u w h k = omega arith

took-IsSingle :
    (o : Options) (x : System) (t : ℕ) (s : Sched)
    → IsSingle o x
    → tokens o (x.sched.waits t) ≡ tokens o (s.waits t) + 1
    → Calm o x.sched s
    → IsSingle o (took x t s)
took-IsSingle o x t s v one calm = record {
  one_holder =
      λ u w h k. sym (mine u (Bool-cases (x.holds u)) h) ∙ mine w (Bool-cases (x.holds w)) k;
  one_token = λ u w h k. v.one_token u w (omega (arith, calm u)) (omega (arith, calm w));
  few = λ u. omega (arith, calm u, v.few u);
  not_both = λ u w h. none_left w;
}
  where
    mine : (u : ℕ) → (x.holds u ≡ true) ⊎ (x.holds u ≡ false) → mark x.holds t true u ≡ true → t ≡ u
    mine u (inl e) h = let zero_left = v.not_both u t e in absurd (omega (arith, one))
    mine u (inr e) h = ground arith

    pos : (n : ℕ) → (n == 0) ≡ false → 0 < n
    pos n z = ground arith

    none_left : (w : ℕ) → tokens o (s.waits w) ≡ 0
    none_left w = elim (Bool-cases (t == w)) [
      | inl e ↦
          subst (λ z. tokens o (s.waits z) ≡ 0) (eq_of_test t w e) (omega (arith, one, v.few t))
      | inr e ↦ elim (Bool-cases (tokens o (s.waits w) == 0)) [
        | inl z ↦ eq_of_test (tokens o (s.waits w)) 0 z
        | inr z ↦
            let same : t ≡ w =
              v.one_token t w (omega (arith, one))
                (omega (arith, calm w, pos (tokens o (s.waits w)) z)) in
            let yes : (t == w) ≡ true = ap (◌==◌ t) (sym same) ∙ test_self t in cc
      ]
    ]

Step-IsSingle : (o : Options) (x y : System) → Step o x y → IsSingle o x → IsSingle o y
Step-IsSingle o x y (gets t s e) v =
    let (one, calm) = Every-result (get_turn o t x.sched) s (get_turn-takes o t x.sched) e in
    took-IsSingle o x t s v one calm
Step-IsSingle o x y (puts t th at_end n s h e) v =
    gave-IsSingle o x t n s v h (
      Every-result (put_turn o t th at_end x.sched) (n, s) (put_turn-Hands o t th at_end x.sched) e)
Step-IsSingle o x y (waits t chan nturn n s h e) v = gave-IsSingle o x t n s v h (
    Every-result (wait_begin o t chan nturn x.sched) (n, s)
      (wait_begin-Hands o t chan nturn x.sched) e)
Step-IsSingle o x y (blocks t ret n s h e) v =
    gave-IsSingle o x t n s v h
      (Every-result (block o t x.sched) (ret, n, s) (block-Hands o t x.sched) e)
Step-IsSingle o x y (idles t th n s h e) v = gave-IsSingle o x t n s v h (
    Every-result (idle_thread_cond_wait o t th x.sched) (n, s)
      (idle_thread_cond_wait-Hands o t th x.sched) e)
Step-IsSingle o x y (signals t chan all s h e) v =
    went_on-IsSingle o x s v
      (Every-result (signal t chan all x.sched) s (signal-Calm o t chan all x.sched) e)
Step-IsSingle o x y (counts t turn s h e) v =
    went_on-IsSingle o x s v
      (Every-result (inc_turn_count o x.sched) (turn, s) (inc_turn_count-Calm o x.sched) e)
Step-IsSingle o x y (creates t th s h e) v =
    went_on-IsSingle o x s v (Every-result (create t th x.sched) s (create-Calm o t th x.sched) e)
Step-IsSingle o x y (joins t th h) v = went_on-IsSingle o x _ v (λ u. omega arith)
Step-IsSingle o x y (counts_waiters t n h) v = went_on-IsSingle o x _ v (λ u. omega arith)
Step-IsSingle o x y (enters t b s e) v =
    went_on-IsSingle o x s v
      (Every-result (inter_pro_start t x.sched) (b, s) (inter_pro_start-Calm o t x.sched) e)
Step-IsSingle o x y (leaves t b s e) v =
    went_on-IsSingle o x s v
      (Every-result (inter_pro_end t x.sched) (b, s) (inter_pro_end-Calm o t x.sched) e)
Step-IsSingle o x y (wakes t) v =
    went_on-IsSingle o x (wakeup t x.sched) v (wakeup-Calm o t x.sched)
Step-IsSingle o x y ends v = went_on-IsSingle o x _ v (λ u. omega arith)

start-IsSingle :
    (o : Options) (s : Sched)
    → ((u : ℕ) → tokens o (s.waits u) ≡ (if 0 == u then 1 else 0))
    → IsSingle o (record { holds = λ t. false; sched = s })
start-IsSingle o s main = record {
  one_holder = λ t u h k. cc;
  one_token = λ t u h k. ground (arith, main t, main u);
  few = λ t. ground (arith, main t);
  not_both = λ t u h. cc;
}

Reach-IsSingle : (o : Options) (th : ℕ) (x : System) → Reach o th x → IsSingle o x
Reach-IsSingle o th x (start s e) =
    start-IsSingle o s (Every-result (init o th) s (init-tokens o th) e)
Reach-IsSingle o th x (later {x = y} r st) = Step-IsSingle o y x st (Reach-IsSingle o th y r)

-- Two threads of a process never hold the turn at once: in every state that the threads reach from the
-- constructor on, under all options, by calls of the scheduler in any order and with the threads that
-- enter, leave and come back from blocking operations in between.
pub mutual_exclusion :
    (o : Options) (th : ℕ) (x : System) (t u : ℕ)
    → Reach o th x
    → x.holds t ≡ true
    → x.holds u ≡ true
    → t ≡ u
mutual_exclusion o th x t u r h k = (Reach-IsSingle o th x r).one_holder t u h k

-- While a thread holds the turn, no getTurn returns, of another thread or of its own.
pub get_turn_waits :
    (o : Options) (th : ℕ) (x : System) (t u : ℕ)
    → Reach o th x
    → x.holds t ≡ true
    → get_turn o u x.sched ≡ none
get_turn_waits o th x t u r h = get_turn-none o u x.sched ((Reach-IsSingle o th x r).not_both t u h)

-- In every state that the threads reach, the getTurn of one thread at most returns.
pub get_turn_unique :
    (o : Options) (th : ℕ) (x : System) (t u : ℕ) (s s' : Sched)
    → Reach o th x
    → get_turn o t x.sched ≡ some s
    → get_turn o u x.sched ≡ some s'
    → t ≡ u
get_turn_unique o th x t u s s' r e e' =
    let (one, calm) = Every-result (get_turn o t x.sched) s (get_turn-takes o t x.sched) e in
    let (one', calm') = Every-result (get_turn o u x.sched) s' (get_turn-takes o u x.sched) e' in
    (Reach-IsSingle o th x r).one_token t u (omega (arith, one)) (omega (arith, one'))
