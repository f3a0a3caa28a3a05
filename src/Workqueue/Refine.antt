-- ===== src/Workqueue/Refine.antt =====
-- The ring of kernel/proc/workqueue.c behaves as the queue of the items that it holds.
use orion_os.Base.{
  ℕ, zero, suc, ◌+◌, ◌-◌, ◌%◌, ◌^◌, ◌<◌, ◌≡◌, refl, sym, ap, ◌∙◌, ◌≢◌, Bool, true, false, Option,
  none, some, List, [], ◌∷◌, ◌++◌, arith, ◌==◌, ◌!=◌, get_or, set, length, length-set, Bool-cases,
  inl, inr,
}
use orion_os.Base.Bits.{bit_and_low}
use orion_os.Base.Window.{window, length-window, window-set_end, window-set_out}
use orion_os.Workqueue.Queue.{WorkItem, work, no_work, Callable, capacity}
use orion_os.Workqueue.Queue
use orion_os.Workqueue.{
  Workqueue, mask, workqueue_init, workqueue_enqueue, take_work, enqueue_all, called, workqueue_run,
}

mask_lem : (i : ℕ) → i < 64 → mask (i + 1) ≡ (i + 1) % 64
mask_lem i h = bit_and_low 6 ((i + 1) % 2 ^ 32) ∙ omega arith

abbrev pub count : Workqueue → ℕ
count q = (q.head + 64 - q.tail) % 64

-- The items between `tail` and `head`, oldest first.
abbrev pub contents : Workqueue → List WorkItem
contents q = window no_work q.queue q.tail (count q)

pub record IsValid (q : Workqueue) : Type 0 where
  pub slots : length q.queue ≡ 64
  pub head_in : q.head < 64
  pub tail_in : q.tail < 64
  pub callable : Callable (contents q)

Callable-append :
    (xs : List WorkItem) (w : WorkItem) → Callable xs → w.fn ≢ 0 → Callable (xs ++ (w ∷ []))
Callable-append [] w c h = (h, tt)
Callable-append (x ∷ xs) w c h = (c.0, Callable-append xs w c.1 h)

pub workqueue_init-IsValid :
    (q : Workqueue) → IsValid (workqueue_init q) × (contents (workqueue_init q) ≡ [])
unfolding workqueue_init
workqueue_init-IsValid q =
    (record { slots = refl; head_in = omega arith; tail_in = omega arith; callable = tt }, refl)

abbrev filled : Workqueue → ℕ → ℕ → Workqueue
filled q fn ctx = record q { queue = set q.queue q.head (work fn ctx); head = mask (q.head + 1) }

abbrev emptied : Workqueue → Workqueue
emptied q = record q { queue = set q.queue q.tail no_work; tail = mask (q.tail + 1) }

-- Enqueueing on a valid ring answers and changes the contents as a bounded queue of 63 items that
-- refuses a null callback, and keeps the ring valid.
pub workqueue_enqueue_refines :
    (fn ctx : ℕ) {q : Workqueue}
    → IsValid q
    → let (done, q') = workqueue_enqueue fn ctx q in
      ((done, contents q') ≡ Queue.enqueue (work fn ctx) (contents q)) × IsValid q'
unfolding workqueue_enqueue Queue.enqueue
workqueue_enqueue_refines fn ctx {q} v = elim (Bool-cases (fn == 0)) [
  | inl null ↦ rw null (refl, v)
  | inr given ↦ elim (Bool-cases (mask (q.head + 1) != q.tail)) [
    | inl room ↦
        let n : count (filled q fn ctx) ≡ suc (count q) =
          ground (arith, mask_lem q.head v.head_in) in
        let fits : count q < 63 = ground (arith, mask_lem q.head v.head_in) in
        let more : contents (filled q fn ctx) ≡ contents q ++ (work fn ctx ∷ []) = rw n (
          window-set_end no_work q.queue (work fn ctx) (count q) q.tail q.head v.slots v.tail_in
            (omega arith) (omega arith)) in
        rw (given, room)
          (
            ground (arith, more, length-window no_work q.queue q.tail (count q)),
            record {
              slots = length-set q.queue q.head (work fn ctx) ∙ v.slots;
              head_in = omega (arith, mask_lem q.head v.head_in);
              tail_in = v.tail_in;
              callable =
                  rw more (Callable-append (contents q) (work fn ctx) v.callable (ground arith));
            },
          )
    | inr full ↦
        let n : count q ≡ 63 = ground (arith, mask_lem q.head v.head_in) in
        rw (given, full) (ground (arith, n, length-window no_work q.queue q.tail (count q)), v)
  ]
]

-- The critical section of a run takes the oldest item of a valid ring, the null item from an empty
-- one, and keeps the ring valid.
pub take_work_refines :
    {q : Workqueue}
    → IsValid q
    → let (w, q') = take_work q in ((w, contents q') ≡ Queue.dequeue (contents q)) × IsValid q'
unfolding take_work Queue.dequeue
take_work_refines {q} v = elim (Bool-cases (q.head != q.tail)) [
  | inl some_work ↦
      let n : suc (count (emptied q)) ≡ count q = ground (arith, mask_lem q.tail v.tail_in) in
      let split : contents q ≡ get_or q.queue q.tail no_work ∷ contents (emptied q) =
        ap (window no_work q.queue q.tail) (sym n)
        ∙ ap (◌∷◌ (get_or q.queue q.tail no_work)) (
            sym (
              window-set_out no_work q.queue no_work (count (emptied q)) ((q.tail + 1) % 64) q.tail
                (omega arith) (omega arith) v.tail_in 0 (omega arith) (omega arith))
            ∙ ap (λ (i : ℕ). window no_work (emptied q).queue i (count (emptied q)))
                (sym (mask_lem q.tail v.tail_in))) in
      rw some_work (
        rw split refl,
        record {
          slots = length-set q.queue q.tail no_work ∙ v.slots;
          head_in = v.head_in;
          tail_in = omega (arith, mask_lem q.tail v.tail_in);
          callable = (rw split at v.callable).1;
        },
      )
  | inr empty ↦ let n : count q ≡ 0 = ground arith in rw empty (rw n refl, v)
]

-- Callbacks enqueue in order, as the queue does.
enqueue_all_refines :
    (ws : List WorkItem) {q : Workqueue}
    → IsValid q
    → (contents (enqueue_all ws q) ≡ Queue.enqueue_all ws (contents q)) × IsValid (enqueue_all ws q)
unfolding enqueue_all Queue.enqueue_all
enqueue_all_refines [] v = (refl, v)
enqueue_all_refines (w ∷ ws) {q} v =
    let (same, v') = workqueue_enqueue_refines w.fn w.ctx v in
    let (rest, v'') = enqueue_all_refines ws v' in
    (rest ∙ ap (λ (r : Bool × Queue.Queue). Queue.enqueue_all ws r.1) same, v'')

-- What a run reports of a ring: the items called, and what is left queued.
abbrev pub observed : Option (List WorkItem × Workqueue) → Option (List WorkItem × Queue.Queue)
observed none = none
observed (some (ws, q)) = some (ws, contents q)

observed-called :
    (w : WorkItem) (r : Option (List WorkItem × Workqueue))
    (s : Option (List WorkItem × Queue.Queue))
    → observed r ≡ s
    → observed (called w r) ≡ Queue.prepend w s
unfolding called Queue.prepend
observed-called w r s e = ground arith

-- One round, on what the critical section took.
round :
    (callback : WorkItem → List WorkItem) (fuel : ℕ) (xs : List WorkItem) (t : WorkItem × Workqueue)
    → Callable xs
    → (t.0, contents t.1) ≡ Queue.dequeue xs
    → observed (workqueue_run callback fuel (enqueue_all (callback t.0) t.1))
      ≡ Queue.run callback fuel (Queue.enqueue_all (callback t.0) (contents t.1))
    → observed (elim (t.0.fn == 0) [
      | true ↦ some ([], t.1)
      | false ↦ called t.0 (workqueue_run callback fuel (enqueue_all (callback t.0) t.1))
    ])
      ≡ Queue.run callback (suc fuel) xs
unfolding Queue.run Queue.dequeue
round callback fuel [] t c e ih = ground arith
round callback fuel (w ∷ ws) t c e ih =
    let first : t.0 ≡ w = ap (λ (r : WorkItem × List WorkItem). r.0) e in
    let rest : contents t.1 ≡ ws = ap (λ (r : WorkItem × List WorkItem). r.1) e in
    let live : (t.0.fn == 0) ≡ false = ground (arith, c.0) in
    rw live (
      observed-called t.0 _ _ ih ∙ λ i.
      Queue.prepend (first i)
        (Queue.run callback fuel (Queue.enqueue_all (callback (first i)) (rest i))))

-- A run of the ring calls the items of its queue, whatever the callbacks enqueue meanwhile, and
-- stops where the queue is empty.
pub workqueue_run_refines :
    (callback : WorkItem → List WorkItem) (fuel : ℕ) {q : Workqueue}
    → IsValid q
    → observed (workqueue_run callback fuel q) ≡ Queue.run callback fuel (contents q)
unfolding workqueue_run Queue.run
workqueue_run_refines callback zero v = refl
workqueue_run_refines callback (suc fuel) {q} v =
    let (same, v') = take_work_refines v in
    let (all, v'') = enqueue_all_refines (callback (take_work q).0) v' in
    round callback fuel (contents q) (take_work q) v.callable same
      (workqueue_run_refines callback fuel v'' ∙ ap (Queue.run callback fuel) all)

run_quiet : (xs : List WorkItem) → Queue.run (λ w. []) (suc (length xs)) xs ≡ some (xs, [])
unfolding Queue.run Queue.enqueue_all Queue.prepend
run_quiet [] = refl
run_quiet (x ∷ xs) = ap (Queue.prepend x) (run_quiet xs)

-- Where the callbacks enqueue nothing, one round more than there are items calls every item once,
-- oldest first, and leaves the queue empty.
pub workqueue_run_drains :
    {q : Workqueue}
    → IsValid q
    → observed (workqueue_run (λ w. []) (suc (length (contents q))) q) ≡ some (contents q, [])
workqueue_run_drains {q} v =
    workqueue_run_refines (λ w. []) (suc (length (contents q))) v ∙ run_quiet (contents q)
