-- ===== src/Workqueue.antt =====
-- kernel/proc/workqueue.c: the deferred-work ring that interrupt handlers fill and the kernel
-- thread drains. Each critical section between irq_save and irq_restore is one step.
pub mod Queue
pub mod Refine
mod Tests
use Prim.Native.Nat.{bit_and}
use orion_os.Base.{
  ℕ, zero, suc, ◌+◌, ◌-◌, ◌%◌, ◌^◌, Bool, true, false, Option, none, some, List, [], ◌∷◌, ◌==◌,
  ◌!=◌, if◌then◌else◌, get_or, set, replicate,
}
use Queue.{WorkItem, work, no_work}

abbrev pub workqueue_size : ℕ
workqueue_size = 64

-- `x & WORKQUEUE_MASK` on a uint32_t
abbrev pub mask : ℕ → ℕ
mask x = bit_and (x % 2 ^ 32) (workqueue_size - 1)

-- The static variables `queue`, `head` and `tail`.
pub record Workqueue : Type 0 where
  pub queue : List WorkItem
  pub head : ℕ
  pub tail : ℕ

pub workqueue_init : Workqueue → Workqueue
workqueue_init q = record { queue = replicate workqueue_size no_work; head = 0; tail = 0 }

pub workqueue_enqueue : ℕ → ℕ → Workqueue → Bool × Workqueue
workqueue_enqueue fn ctx q =
    if fn == 0
    then (false, q)
    else (let next = mask (q.head + 1) in
        if next != q.tail
        then (true, record q { queue = set q.queue q.head (work fn ctx); head = next })
        else (false, q))

pub workqueue_pending : Workqueue → Bool
workqueue_pending q = q.head != q.tail

-- The critical section of workqueue_run: the item taken, with a null `fn` where there is none.
pub take_work : Workqueue → WorkItem × Workqueue
take_work q =
    if q.head != q.tail
    then (
      get_or q.queue q.tail no_work,
      record q { queue = set q.queue q.tail no_work; tail = mask (q.tail + 1) },
    )
    else (no_work, q)

-- The callbacks are code of other components. What such a call does to the ring is to enqueue
-- a list of further items, in order.
enqueue_all : List WorkItem → Workqueue → Workqueue
enqueue_all [] q = q
enqueue_all (w ∷ ws) q = enqueue_all ws (workqueue_enqueue w.fn w.ctx q).1

-- The items of the rounds that follow, behind the one called in this round.
called : WorkItem → Option (List WorkItem × Workqueue) → Option (List WorkItem × Workqueue)
called w none = none
called w (some (ws, q')) = some (w ∷ ws, q')

-- workqueue_run with the items called, in order; `none` where the fuel ran out, since callbacks
-- that keep enqueueing keep the loop going.
pub workqueue_run : (WorkItem → List WorkItem) → ℕ → Workqueue → Option (List WorkItem × Workqueue)
workqueue_run callback zero q = none
workqueue_run callback (suc fuel) q =
    let (w, rest) = take_work q in
    elim (w.fn == 0) [
      | true ↦ some ([], rest)
      | false ↦ called w (workqueue_run callback fuel (enqueue_all (callback w) rest))
    ]
