-- ===== src/Workqueue/Queue.antt =====
-- What the work queue promises: a first-in first-out queue of at most 63 items with a callback.
use orion_os.Base.{
  ℕ, zero, suc, Bool, true, false, Option, none, some, List, [], ◌∷◌, ◌++◌, ◌==◌, if◌then◌else◌,
  length, ◌≢◌,
}

-- work_item_t; a null function pointer is 0.
pub record WorkItem : Type 0 where
  pub fn : ℕ
  pub ctx : ℕ

abbrev pub work : ℕ → ℕ → WorkItem
work fn ctx = record { fn = fn; ctx = ctx }

abbrev pub no_work : WorkItem
no_work = work 0 0

abbrev pub Queue : Type 0
Queue = List WorkItem

abbrev pub capacity : ℕ
capacity = 63

unfoldable pub enqueue : WorkItem → Queue → Bool × Queue
enqueue w q =
    if w.fn == 0
    then (false, q)
    else if length q == capacity
    then (false, q)
    else (true, q ++ (w ∷ []))

unfoldable pub dequeue : Queue → WorkItem × Queue
dequeue [] = (no_work, [])
dequeue (w ∷ q) = (w, q)

unfoldable pub enqueue_all : List WorkItem → Queue → Queue
enqueue_all [] q = q
enqueue_all (w ∷ ws) q = enqueue_all ws (enqueue w q).1

-- The items of the rounds that follow, behind the one called in this round.
unfoldable pub prepend : WorkItem → Option (List WorkItem × Queue) → Option (List WorkItem × Queue)
prepend w none = none
prepend w (some (ws, q)) = some (w ∷ ws, q)

-- The items that are called, oldest first, until the queue is empty.
unfoldable pub run : (WorkItem → List WorkItem) → ℕ → Queue → Option (List WorkItem × Queue)
run callback zero q = none
run callback (suc fuel) [] = some ([], [])
run callback (suc fuel) (w ∷ q) = prepend w (run callback fuel (enqueue_all (callback w) q))

-- No queued item has a null callback.
abbrev pub Callable : Queue → Type 0
Callable [] = Unit {0}
Callable (w ∷ q) = (w.fn ≢ 0) × Callable q
