-- ===== src/NonDetThreadSet.antt =====
-- include/tern/runtime/non-det-thread-set.h: the threads that are inside a blocking operation or a
-- nondeterministic region, oldest first, with the logical clock at which each went in. Its
-- assertions are on in every build.
pub mod Laws
use xtern.Base.{
  ℕ, Bool, true, false, ◌&&◌, ◌||◌, not, Option, none, some, List, [], ◌∷◌, ◌++◌, ltb, ◌==◌,
  if◌then◌else◌, is_some, ◌>>=◌, ◌>>◌, require, length, has, head?,
}

pub record NonDetThreadSet : Type 0 where
  pub tid_list : List ℕ
  pub tid_to_logical_clock_map : List (ℕ × ℕ)

abbrev pub empty_set : NonDetThreadSet
empty_set = record { tid_list = []; tid_to_logical_clock_map = [] }

abbrev pub find : ℕ → List (ℕ × ℕ) → Option ℕ
find t [] = none
find t ((u, c) ∷ m) = if t == u then some c else find t m

-- The map with one key erased.
abbrev pub without : ℕ → List (ℕ × ℕ) → List (ℕ × ℕ)
without t [] = []
without t ((u, c) ∷ m) = if t == u then m else (u, c) ∷ without t m

-- The list with its first occurrence of a thread erased.
abbrev pub drop_first : ℕ → List ℕ → List ℕ
drop_first t [] = []
drop_first t (u ∷ us) = if t == u then us else u ∷ drop_first t us

unfoldable pub is_in : NonDetThreadSet → ℕ → Bool
is_in s t = is_some (find t s.tid_to_logical_clock_map) || has t s.tid_list

pub insert : NonDetThreadSet → ℕ → ℕ → Option NonDetThreadSet
unfolding is_in
insert s t clock = do
  require (not (is_in s t))
  require (not (is_some (find t s.tid_to_logical_clock_map)))
  some (record {
    tid_list = s.tid_list ++ t ∷ [];
    tid_to_logical_clock_map = (t, clock) ∷ s.tid_to_logical_clock_map;
  })

pub erase : NonDetThreadSet → ℕ → Option NonDetThreadSet
erase s t =
    if has t s.tid_list
    then some (record {
      tid_list = drop_first t s.tid_list;
      tid_to_logical_clock_map = without t s.tid_to_logical_clock_map;
    })
    else none

pub size : NonDetThreadSet → Option ℕ
size s = do
  require (length s.tid_list == length s.tid_to_logical_clock_map)
  some (length s.tid_list)

pub first_thread : NonDetThreadSet → Option ℕ
unfolding size
first_thread s = do n ← size s; require (ltb 0 n); head? s.tid_list

pub get_clock : NonDetThreadSet → ℕ → Option ℕ
get_clock s t = find t s.tid_to_logical_clock_map
