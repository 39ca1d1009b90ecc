-- ===== src/Tests/Maps.antt =====
-- The theorems on struct TidMap of include/tern/runtime/scheduler.h and on
-- include/tern/runtime/non-det-thread-set.h at small maps.
use xtern.Base.{ℕ, ◌≡◌, refl, true, false, none, some, [], ◌∷◌, arith, ◌==◌, if◌then◌else◌}
use xtern.TidMap.{TidMap, create, zombify, reap, zombie, get_tid, get_pthread_tid}
use xtern.TidMap.Laws.{IsInverse, create-IsInverse, zombify-IsInverse}
use xtern.NonDetThreadSet.{NonDetThreadSet, is_in}
use xtern.NonDetThreadSet.Laws.{IsMatched}

-- Thread 0 under the pthread id 70.
abbrev one_thread : TidMap
one_thread = record {
  p_t_map = λ p. if p == 70 then some 0 else none;
  t_p_map = λ t. if t == 0 then some 70 else none;
  zombies = λ p. false;
  nthread = 1;
}

one_thread-IsInverse : IsInverse one_thread
one_thread-IsInverse = record {
  there = λ p t h. ground arith;
  back = λ p t h. ground arith;
  given = λ p t h. ground arith;
}

unmapped : get_tid one_thread 71 ≡ none
unfolding get_tid
unmapped = refl

mapped : get_tid one_thread 70 ≡ some 0
unfolding get_tid
mapped = refl

create-IsInverse_example :
    (m' : TidMap) × (create one_thread 71 ≡ some (1, m'))
    × IsInverse m'
    × (get_tid m' 71 ≡ some 1)
    × (get_pthread_tid m' 1 ≡ some 71)
    × ((p : ℕ) → (71 == p) ≡ false → get_tid m' p ≡ get_tid one_thread p)
    × (m'.nthread ≡ 2)
create-IsInverse_example = create-IsInverse one_thread 71 one_thread-IsInverse unmapped

-- Thread 4 since the clock 9.
abbrev one_inside : NonDetThreadSet
one_inside = record { tid_list = 4 ∷ []; tid_to_logical_clock_map = (4, 9) ∷ [] }

one_inside-IsMatched : IsMatched one_inside
one_inside-IsMatched = record {
  distinct = (refl, tt);
  same_keys = λ t. ground arith;
  keyed = (refl, tt);
  same_size = refl;
}

inside : is_in one_inside 4 ≡ true
unfolding is_in
inside = refl

zombify-IsInverse_example :
    (m' : TidMap) × (zombify one_thread 0 70 ≡ some m')
    × IsInverse m'
    × (get_tid m' 70 ≡ none)
    × (get_pthread_tid m' 0 ≡ none)
    × (zombie m' 70 ≡ true)
    × (zombie (reap m' 70) 70 ≡ false)
zombify-IsInverse_example = zombify-IsInverse one_thread 0 70 one_thread-IsInverse mapped
