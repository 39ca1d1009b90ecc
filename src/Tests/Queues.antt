-- ===== src/Tests/Queues.antt =====
-- The theorems on include/tern/runtime/run-queue.h at a queue of three threads.
use xtern.Base.{ℕ, ◌≡◌, refl, none, some, [], ◌∷◌}
use xtern.RunQueue.{RunQueue, runnable, push_back, pop_front}
use xtern.RunQueue.Repr.{Repr}
use xtern.RunQueue.Queue.{Yields, push_back-Repr, pop_front-Repr}
use xtern.RunQueue.{deep_clear}
use xtern.RunQueue.Clear.{deep_clear-Repr}
use xtern.RunQueue.{size, walk}
use xtern.RunQueue.Walk.{walk-Repr}
use xtern.Tests.States.{three_queued, three, three-Repr, elem_of}

push_back-Repr_example : Yields three_queued (push_back three_queued 3) (0 ∷ 1 ∷ 2 ∷ 3 ∷ [])
push_back-Repr_example =
    push_back-Repr three_queued 3 (elem_of 3 runnable none none) three three-Repr refl refl

pop_front-Repr_example : Yields three_queued (pop_front three_queued) (1 ∷ 2 ∷ [])
pop_front-Repr_example = pop_front-Repr three_queued 0 (1 ∷ 2 ∷ []) three-Repr

deep_clear-Repr_example :
    (q' : RunQueue) × (deep_clear three_queued ≡ some q')
    × Repr q' []
    × ((t : ℕ) → q'.tid_map t ≡ none)
deep_clear-Repr_example = deep_clear-Repr three_queued three-Repr.owned

walk-Repr_example : walk (size three_queued) three_queued (some 0) ≡ some (0 ∷ 1 ∷ 2 ∷ [])
walk-Repr_example = walk-Repr three_queued three three-Repr
