-- ===== src/TidMap/Laws.antt =====
-- The two maps of struct TidMap in include/tern/runtime/scheduler.h, and how they match.
use xtern.Base.{ℕ, ◌+◌, ◌≡◌, refl, ◌<◌, true, false, none, some, arith, ◌==◌, test_self}
use xtern.TidMap.{
  TidMap, create, zombify, reap, get_tid, get_pthread_tid, zombie, init, assign, mark, reset,
}

-- A thread id and a pthread id are mapped to one another or not at all, and every thread id that is
-- mapped has been given out.
pub record IsInverse (m : TidMap) : Type 0 where
  pub there : (p t : ℕ) → m.p_t_map p ≡ some t → m.t_p_map t ≡ some p
  pub back : (p t : ℕ) → m.t_p_map t ≡ some p → m.p_t_map p ≡ some t
  pub given : (p t : ℕ) → m.p_t_map p ≡ some t → t < m.nthread

-- The state after `create`.
abbrev created : TidMap → ℕ → TidMap
created m th = record m {
  p_t_map = assign m.p_t_map th (some m.nthread);
  t_p_map = assign m.t_p_map m.nthread (some th);
  nthread = m.nthread + 1;
}

created-IsInverse :
    (m : TidMap) (th : ℕ) → IsInverse m → m.p_t_map th ≡ none → IsInverse (created m th)
created-IsInverse m th v new = record {
  there = λ p t h. ground (arith, v.there p t, v.given p t);
  back = λ p t h. ground (arith, v.back p t);
  given = λ p t h. ground (arith, v.given p t);
}

-- `create`, for a pthread id that is not mapped, gives out the next thread id and keeps the maps
-- inverse; both look-ups then find the pair, and no other pthread id's entry changes.
pub create-IsInverse :
    (m : TidMap) (th : ℕ)
    → IsInverse m
    → get_tid m th ≡ none
    → (m' : TidMap) × (create m th ≡ some (m.nthread, m'))
      × IsInverse m'
      × (get_tid m' th ≡ some m.nthread)
      × (get_pthread_tid m' m.nthread ≡ some th)
      × ((p : ℕ) → (th == p) ≡ false → get_tid m' p ≡ get_tid m p)
      × (m'.nthread ≡ m.nthread + 1)
unfolding create get_tid get_pthread_tid
create-IsInverse m th v new = (
  created m th,
  rw new refl,
  created-IsInverse m th v new,
  ground arith,
  ground arith,
  λ p ne. ground arith,
  refl,
)

-- The state after `zombify`.
abbrev buried : TidMap → ℕ → ℕ → TidMap
buried m self th = record m {
  zombies = mark m.zombies th true;
  p_t_map = assign m.p_t_map th none;
  t_p_map = assign m.t_p_map self none;
}

buried-IsInverse :
    (m : TidMap) (self th : ℕ)
    → IsInverse m
    → m.t_p_map self ≡ some th
    → IsInverse (buried m self th)
buried-IsInverse m self th v at = record {
  there = λ p t h. ground (arith, v.there p t, v.back th self at);
  back = λ p t h. ground (arith, v.back p t, v.back th self at);
  given = λ p t h. ground (arith, v.given p t);
}

-- `zombify`, by a thread under its own pthread id, makes the pthread id a zombie that has no thread id
-- any more, and keeps the maps inverse; a `reap` of it then takes it out of the zombies.
pub zombify-IsInverse :
    (m : TidMap) (self th : ℕ)
    → IsInverse m
    → get_tid m th ≡ some self
    → (m' : TidMap) × (zombify m self th ≡ some m')
      × IsInverse m'
      × (get_tid m' th ≡ none)
      × (get_pthread_tid m' self ≡ none)
      × (zombie m' th ≡ true)
      × (zombie (reap m' th) th ≡ false)
unfolding zombify get_tid get_pthread_tid zombie reap
zombify-IsInverse m self th v at =
    let it = v.there th self at in
    (
      buried m self th,
      rw it (rw (test_self th) refl),
      buried-IsInverse m self th v it,
      ground arith,
      ground arith,
      ground arith,
      ground arith,
    )

-- The first thread of a program has the id 0.
pub init-IsInverse :
    (th : ℕ)
    → (m : TidMap) × (init th ≡ some m) × IsInverse m × (get_tid m th ≡ some 0) × (m.nthread ≡ 1)
unfolding init create get_tid
init-IsInverse th = (
  created cleared_map th,
  refl,
  created-IsInverse cleared_map th
      (record { there = λ p t h. cc; back = λ p t h. cc; given = λ p t h. cc }) refl,
  ground arith,
  refl,
)
  where
    cleared_map : TidMap
    cleared_map = record {
      p_t_map = λ _. none;
      t_p_map = λ _. none;
      zombies = λ _. false;
      nthread = 0;
    }

-- `reset` leaves what `init` makes.
pub reset-init : (m : TidMap) (th : ℕ) → reset m th ≡ init th
unfolding reset
reset-init m th = refl
