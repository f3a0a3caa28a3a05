-- ===== src/Timer/Cancel.antt =====
-- timer_task_alloc and timer_task_cancel of kernel/proc/timer_task.c: what a schedule leaves in the
-- slots, and that a cancel undoes it.
use orion_os.Base.{
  ℕ, ◌≡◌, refl, ap, ◌≢◌, ◌⊎◌, inl, inr, ◌-◌, ◌^◌, ◌&&◌, ◌+◌, ◌%◌, ◌++◌, ==-eq, true, false, Option,
  some, none, List, [], ◌∷◌, arith, Bool, not, if-each, ◌==◌, if◌then◌else◌, ==-self, ==-ne,
}
use orion_os.Timer.{
  TimerTask, no_task, Timers, place, remove, timer_task_schedule_ticks, timer_task_alloc,
  timer_task_cancel,
}

-- The tasks in use, in the order of their slots.
unfoldable pub actives : List TimerTask → List TimerTask
actives [] = []
actives (x ∷ xs) = let later = actives xs in if x.active then x ∷ later else later

-- No task in use has the id.
abbrev pub Fresh : ℕ → List TimerTask → Type 0
Fresh id [] = Unit {0}
Fresh id (x ∷ xs) = (x.active ≡ true → x.id ≢ id) × Fresh id xs

-- All slots are in use.
abbrev pub Full : List TimerTask → Type 0
Full [] = Unit {0}
Full (x ∷ xs) = (x.active ≡ true) × Full xs

-- The first slot that is not in use has become `new`, the others are as they were.
abbrev pub Placed : TimerTask → List TimerTask → List TimerTask → Type 0
Placed new xs ys =
    (front : List TimerTask) × (x : TimerTask) × (back : List TimerTask) × Full front
    × (x.active ≡ false)
    × (xs ≡ front ++ (x ∷ back))
    × (ys ≡ front ++ (new ∷ back))

abbrev Undone : TimerTask → List TimerTask → Option (List TimerTask) → Type 0
Undone new xs none = Full xs
Undone new xs (some ys) =
    Placed new xs ys
    × ((zs : List TimerTask) × (remove new.id ys ≡ some zs) × (actives zs ≡ actives xs))

other : (a : Bool) (id x : ℕ) → (a ≡ true → x ≢ id) → a && (x == id) ≡ false
other true id x ne = ==-ne x id (ne refl)
other false id x ne = refl

before-Undone :
    (new x : TimerTask) (xs : List TimerTask) (r : Option (List TimerTask))
    → x.active ≡ true
    → (x.active ≡ true → x.id ≢ new.id)
    → Undone new xs r
    → Undone new (x ∷ xs) (elim r [ none ↦ none | some ys ↦ some (x ∷ ys) ])
unfolding remove actives
before-Undone new x xs none busy ne rest = (busy, rest)
before-Undone new x xs (some ys) busy ne
      ((front, free, back, full, idle, were, are), (zs, gone, same)) =
    (
      (x ∷ front, free, back, (busy, full), idle, ap (◌∷◌ x) were, ap (◌∷◌ x) are),
      (
        x ∷ zs,
        rw (other x.active new.id x.id ne, gone) refl,
        ap (λ l. if x.active then x ∷ l else l) same,
      ),
    )

skip :
    (a : Bool) (x : TimerTask) (xs : List TimerTask)
    → not a ≡ true
    → xs ≡ (if a then x ∷ xs else xs)
skip true x xs e = ground arith
skip false x xs e = refl

first-Undone :
    (new x : TimerTask) (xs : List TimerTask)
    → new.active ≡ true
    → not x.active ≡ true
    → Undone new (x ∷ xs) (some (new ∷ xs))
unfolding remove actives
first-Undone new x xs used idle = (
  ([], x, xs, tt, ground arith, refl, refl),
  (no_task ∷ xs, rw (used, ==-self new.id) refl, skip x.active x (actives xs) idle),
)

place-Undone :
    (new : TimerTask) (xs : List TimerTask)
    → new.active ≡ true
    → Fresh new.id xs
    → Undone new xs (place new xs)
unfolding place
place-Undone new [] used fresh = tt
place-Undone new (x ∷ xs) used (ne, fresh) =
    if-each (Undone new (x ∷ xs)) (not x.active) (λ idle. first-Undone new x xs used idle)
      (λ busy.
        before-Undone new x xs (place new xs) (ground arith) ne (place-Undone new xs used fresh))

-- What a schedule of the task `new` answers, and what timer_task_cancel does then.
abbrev pub CancelUndoes : TimerTask → Timers → ℕ × Timers → Type 0
CancelUndoes new t (answer, t') =
    ((answer ≡ 2 ^ 32 - 1) × (t' ≡ t) × ((new.fn ≡ 0) ⊎ Full t.tasks))
    ⊎ ((answer ≡ t.next_id)
        × Placed new t.tasks t'.tasks
        × ((z : Timers) × (timer_task_cancel answer t' ≡ (true, z))
            × (actives z.tasks ≡ actives t.tasks)))

answers :
    (new : TimerTask) (t : Timers) (r : Option (List TimerTask)) (n : ℕ)
    → new.id ≡ t.next_id
    → t.next_id ≢ 0
    → Undone new t.tasks r
    → CancelUndoes new t (elim r [
      | none ↦ (2 ^ 32 - 1, t)
      | some ts ↦ (t.next_id, record { tasks = ts; next_id = n })
    ])
unfolding timer_task_cancel
answers new t none n same id full = inl (refl, refl, inr full)
answers new t (some ts) n same id (placed, (zs, gone, kept)) = inr (
  refl,
  placed,
  (record { tasks = zs; next_id = n }, rw (==-ne t.next_id 0 id, ← same, gone) refl, kept),
)

-- A schedule by ticks, where the next id is not 0 and no task in use has it. Either it answers -1,
-- leaves the timers as they were, and there is no function or no slot; or it answers that id, the
-- first slot that was not in use holds the new task, due after the delay (after one tick where the
-- delay is 0), and timer_task_cancel of the answer succeeds and leaves the same tasks in use as
-- before the schedule. (Answers are compared by their 32 bits, so the id `2 ^ 32 - 1` is answered as
-- -1 too.)
pub timer_task_cancel-timer_task_schedule_ticks :
    (tick delay_ticks interval_ticks fn ctx : ℕ) (t : Timers)
    → t.next_id ≢ 0
    → Fresh t.next_id t.tasks
    → let new : TimerTask = record {
      id = t.next_id;
      due_tick = (tick + (if delay_ticks == 0 then 1 else delay_ticks)) % 2 ^ 32;
      interval_ticks = interval_ticks;
      fn = fn;
      ctx = ctx;
      active = true;
    } in
      CancelUndoes new t (timer_task_schedule_ticks tick delay_ticks interval_ticks fn ctx t)
unfolding timer_task_schedule_ticks timer_task_alloc
timer_task_cancel-timer_task_schedule_ticks tick delay_ticks interval_ticks fn ctx t id fresh =
    let new : TimerTask = record {
      id = t.next_id;
      due_tick = (tick + (if delay_ticks == 0 then 1 else delay_ticks)) % 2 ^ 32;
      interval_ticks = interval_ticks;
      fn = fn;
      ctx = ctx;
      active = true;
    } in
    if-each (CancelUndoes new t) (fn == 0) (λ null. inl (refl, refl, inl (==-eq fn 0 null)))
      (λ call. answers new t _ _ refl id (place-Undone new t.tasks refl fresh))
