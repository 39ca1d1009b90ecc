-- ===== src/Scheduler/Threads/Quiet.antt =====
-- How many turns the constructor, the creation of a thread and the idle thread hand out.
use xtern.Base.{
  ℕ, ◌≡◌, Bool, false, not, arith, ◌==◌, if◌then◌else◌, ◌>>◌, require, Every, gives, Every-bind,
  Every-any, Every-if, Every-weaken,
}
use xtern.RunQueue
use xtern.TidMap
use xtern.TidMap.{idle_thread_tid}
use xtern.Scheduler.State.{Options, Sched, post, at_wait, forever}
use xtern.Scheduler.Tokens.{tokens, Calm, Calm-refl, Calm-at_wait}
use xtern.Scheduler.Turn.{next, put_turn}
use xtern.Scheduler.Turn.Quiet.{Hands, next-Hands}
use xtern.Scheduler.Turn.Handing.{put_turn-Hands}
use xtern.Scheduler.Threads.{
  fresh_wait, no_threads, start_main, init, create, scan_runnable, try_put_turn,
  idle_thread_cond_wait,
}

-- The constructor hands the main thread the only turn.
pub init-tokens :
    (o : Options) (th : ℕ)
    → Every (λ (s : Sched). (u : ℕ) → tokens o (s.waits u) ≡ (if 0 == u then 1 else 0)) (init o th)
unfolding init
init-tokens o th =
    Every-any (TidMap.init th) _ λ m. Every-any (start_main no_threads) _ λ q. gives (λ u. posted u)
  where
    posted :
        (u : ℕ)
        → tokens o (at_wait (λ t. fresh_wait) 0 (post o fresh_wait) u) ≡ (if 0 == u then 1 else 0)
    posted u = ground arith

pub create-Calm : (o : Options) (self th : ℕ) (s : Sched) → Every (Calm o s) (create self th s)
unfolding create
create-Calm o self th s = Every-any (RunQueue.front s.runq) _ λ front.
    Every-any (require (self == front)) _ λ ok. Every-any (TidMap.create s.tids th) _ λ (tid, m).
      Every-any (RunQueue.create_thd_elem s.runq tid) _
        λ q. Every-any (RunQueue.push_back q tid) _ λ q'. gives (Calm-refl o s)

try_put_turn-Calm :
    (o : Options) (self : ℕ) (s : Sched)
    → Every (λ (r : Bool × Sched). Calm o s r.1) (try_put_turn self s)
unfolding try_put_turn
try_put_turn-Calm o self s = Every-any (require (not (RunQueue.empty s.runq))) _ λ ok.
    Every-any (RunQueue.front_elem s.runq) _ λ e. Every-any (require (self == e.tid)) _ λ ok'.
      Every-any (scan_runnable (RunQueue.size s.runq) e.next s.runq) _
        λ (b, q). gives (Calm-refl o s)

pub idle_thread_cond_wait-Hands :
    (o : Options) (self th : ℕ) (s : Sched) → Every (Hands o s) (idle_thread_cond_wait o self th s)
unfolding idle_thread_cond_wait
idle_thread_cond_wait-Hands o self th s =
    Every-bind (try_put_turn self s) _ (try_put_turn-Calm o self s) λ (b, s₁) calm.
      Every-if b _ _
        (Every-any (require (self == idle_thread_tid) >> RunQueue.front s₁.runq) _ λ front.
          Every-any (require (self == front)) _ λ ok.
            Every-weaken (next o self false false _) (next-Hands o self false false _) λ r hands u.
              omega (
                arith,
                calm u,
                hands u,
                Calm-at_wait o s₁ self
                    (record (s₁.waits self) { chan = o.idle_cond; timeout = forever }) (omega arith)
                    u,
              ))
        (Every-weaken (put_turn o self th false s₁) (put_turn-Hands o self th false s₁)
          λ r hands u. omega (arith, calm u, hands u))
