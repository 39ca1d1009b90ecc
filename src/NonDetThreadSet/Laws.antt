-- ===== src/NonDetThreadSet/Laws.antt =====
-- The list of include/tern/runtime/non-det-thread-set.h and its map of clocks, and how they match.
use xtern.Base.{
  ℕ, suc, ◌≡◌, refl, ◌∙◌, sym, ap, Bool, true, false, Option, none, some, List, [], ◌∷◌, ◌++◌,
  arith, ◌==◌, if◌then◌else◌, is_some, length, length-append, has, has-append, Distinct,
  Distinct-snoc, test_self,
}
use xtern.NonDetThreadSet.{
  NonDetThreadSet, find, without, drop_first, is_in, insert, erase, get_clock,
}

-- The map has each key once.
abbrev pub Keyed : List (ℕ × ℕ) → Type 0
Keyed [] = Unit {0}
Keyed ((t, c) ∷ m) = (is_some (find t m) ≡ false) × Keyed m

pub record IsMatched (s : NonDetThreadSet) : Type 0 where
  pub distinct : Distinct s.tid_list
  pub same_keys : (t : ℕ) → is_some (find t s.tid_to_logical_clock_map) ≡ has t s.tid_list
  pub keyed : Keyed s.tid_to_logical_clock_map
  pub same_size : length s.tid_list ≡ length s.tid_to_logical_clock_map

is_in-has : (s : NonDetThreadSet) (t : ℕ) → IsMatched s → is_in s t ≡ has t s.tid_list
unfolding is_in
is_in-has s t v = let k = v.same_keys t in ground arith

-- A thread that is not in the set goes to its end with its clock; the set stays matched, and no
-- other clock changes.
insert-IsMatched :
    (s : NonDetThreadSet) (t clock : ℕ)
    → IsMatched s
    → is_in s t ≡ false
    → (s' : NonDetThreadSet) × (insert s t clock ≡ some s')
      × IsMatched s'
      × (s'.tid_list ≡ s.tid_list ++ t ∷ [])
      × (get_clock s' t ≡ some clock)
      × ((u : ℕ) → (u == t) ≡ false → get_clock s' u ≡ get_clock s u)
unfolding insert get_clock
insert-IsMatched s t clock v new =
    let out : has t s.tid_list ≡ false = sym (is_in-has s t v) ∙ new in
    let key : is_some (find t s.tid_to_logical_clock_map) ≡ false = v.same_keys t ∙ out in
    (
      record {
        tid_list = s.tid_list ++ t ∷ [];
        tid_to_logical_clock_map = (t, clock) ∷ s.tid_to_logical_clock_map;
      },
      rw new (rw key refl),
      record {
        distinct = Distinct-snoc s.tid_list t v.distinct out;
        same_keys = λ u. ground (arith, has-append u s.tid_list (t ∷ []), v.same_keys u);
        keyed = (key, v.keyed);
        same_size = omega (arith, length-append s.tid_list (t ∷ []), v.same_size);
      },
      refl,
      ground arith,
      λ u ne. ground arith,
    )

drop_first-has :
    (t u : ℕ) (us : List ℕ)
    → Distinct us
    → has u (drop_first t us) ≡ (if u == t then false else has u us)
drop_first-has t u [] d = ground arith
drop_first-has t u (x ∷ us) d = ground (arith, drop_first-has t u us d.1)

drop_first-Distinct : (t : ℕ) (us : List ℕ) → Distinct us → Distinct (drop_first t us)
drop_first-Distinct t [] d = tt
drop_first-Distinct t (x ∷ us) d =
    ground (arith, drop_first-Distinct t us d.1, drop_first-has t x us d.1)

drop_first-length :
    (t : ℕ) (us : List ℕ) → has t us ≡ true → suc (length (drop_first t us)) ≡ length us
drop_first-length t [] h = cc
drop_first-length t (x ∷ us) h = ground (arith, drop_first-length t us)

without-find :
    (t u : ℕ) (m : List (ℕ × ℕ))
    → Keyed m
    → find u (without t m) ≡ (if u == t then none else find u m)
without-find t u [] k = ground arith
without-find t u ((x, c) ∷ m) k = ground (arith, without-find t u m k.1)

without-Keyed : (t : ℕ) (m : List (ℕ × ℕ)) → Keyed m → Keyed (without t m)
without-Keyed t [] k = tt
without-Keyed t ((x, c) ∷ m) k = ground (arith, without-Keyed t m k.1, without-find t x m k.1)

without-length :
    (t : ℕ) (m : List (ℕ × ℕ)) → is_some (find t m) ≡ true → suc (length (without t m)) ≡ length m
without-length t [] h = cc
without-length t ((x, c) ∷ m) h = ground (arith, without-length t m)

-- A thread that is in the set leaves it, and the set is one shorter. It stays matched, and no other
-- clock changes.
pub erase-IsMatched :
    (s : NonDetThreadSet) (t : ℕ)
    → IsMatched s
    → is_in s t ≡ true
    → (s' : NonDetThreadSet) × (erase s t ≡ some s')
      × IsMatched s'
      × (is_in s' t ≡ false)
      × (suc (length s'.tid_list) ≡ length s.tid_list)
      × ((u : ℕ) → (u == t) ≡ false → get_clock s' u ≡ get_clock s u)
unfolding erase get_clock
erase-IsMatched s t v there =
    let inside : has t s.tid_list ≡ true = sym (is_in-has s t v) ∙ there in
    let s' : NonDetThreadSet = record {
      tid_list = drop_first t s.tid_list;
      tid_to_logical_clock_map = without t s.tid_to_logical_clock_map;
    } in
    let v' : IsMatched s' = record {
      distinct = drop_first-Distinct t s.tid_list v.distinct;
      same_keys = λ u.
          same_after (u == t) _ _ (has u s.tid_list)
            (without-find t u s.tid_to_logical_clock_map v.keyed) (v.same_keys u)
          ∙ sym (drop_first-has t u s.tid_list v.distinct);
      keyed = without-Keyed t s.tid_to_logical_clock_map v.keyed;
      same_size = omega (
        arith,
        drop_first-length t s.tid_list inside,
        without-length t s.tid_to_logical_clock_map (v.same_keys t ∙ inside),
        v.same_size,
      );
    } in
    (
      s',
      rw inside refl,
      v',
      is_in-has s' t v'
          ∙ (drop_first-has t t s.tid_list v.distinct
              ∙ ap (λ b. if b then false else has t s.tid_list) (test_self t)),
      drop_first-length t s.tid_list inside,
      λ u ne.
          without-find t u s.tid_to_logical_clock_map v.keyed
          ∙ ap (λ b. if b then none else find u s.tid_to_logical_clock_map) ne,
    )
  where
    same_after :
        (b : Bool) (x y : Option ℕ) (h : Bool)
        → x ≡ (if b then none else y)
        → is_some y ≡ h
        → is_some x ≡ (if b then false else h)
    same_after b x y h e k = ground arith
