-- ===== src/Workqueue/Tests.antt =====
-- Runs of the work queue, and the theorems at concrete rings.
use orion_os.Base.{◌≡◌, refl, true, some, List, [], ◌∷◌, arith, replicate, set, ◌==◌, if◌then◌else◌}
use orion_os.Workqueue.Queue.{WorkItem, work, no_work}
use orion_os.Workqueue.Queue
use orion_os.Workqueue.{
  called, Workqueue, workqueue_enqueue, workqueue_pending, take_work, enqueue_all, workqueue_run,
}
use orion_os.Workqueue.Refine.{
  IsValid, contents, observed, workqueue_enqueue_refines, workqueue_run_refines,
  workqueue_run_drains,
}

-- Two items, the second past the end of the array.
abbrev wrapped : Workqueue
wrapped = record {
  queue = set (set (replicate 64 no_work) 63 (work 7 1)) 0 (work 8 2);
  head = 1;
  tail = 63;
}

wrapped-IsValid : IsValid wrapped
wrapped-IsValid = omega arith

contents-wrapped : contents wrapped ≡ work 7 1 ∷ work 8 2 ∷ []
contents-wrapped = refl

pending-wrapped : workqueue_pending wrapped ≡ true
unfolding workqueue_pending
pending-wrapped = refl

run-wrapped : observed (workqueue_run (λ w. []) 3 wrapped) ≡ some (work 7 1 ∷ work 8 2 ∷ [], [])
unfolding workqueue_run take_work enqueue_all called
run-wrapped = refl

workqueue_enqueue_refines_example :
    let (done, q) = workqueue_enqueue 9 3 wrapped in
    ((done, contents q) ≡ Queue.enqueue (work 9 3) (contents wrapped)) × IsValid q
workqueue_enqueue_refines_example = workqueue_enqueue_refines 9 3 wrapped-IsValid

-- The first callback enqueues one more item.
abbrev chain : WorkItem → List WorkItem
chain w = if w.fn == 7 then work 9 9 ∷ [] else []

run-chain :
    observed (workqueue_run chain 5 wrapped) ≡ some (work 7 1 ∷ work 8 2 ∷ work 9 9 ∷ [], [])
unfolding workqueue_run take_work enqueue_all called workqueue_enqueue
run-chain = refl

workqueue_run_refines_example :
    observed (workqueue_run chain 5 wrapped) ≡ Queue.run chain 5 (contents wrapped)
workqueue_run_refines_example = workqueue_run_refines chain 5 wrapped-IsValid

workqueue_run_drains_example :
    observed (workqueue_run (λ w. []) 3 wrapped) ≡ some (work 7 1 ∷ work 8 2 ∷ [], [])
workqueue_run_drains_example = workqueue_run_drains wrapped-IsValid
