-- ===== src/Timer.antt =====
-- kernel/proc/timer_task.c: tasks that fall due at a tick, once or at an interval. A section with
-- interrupts off is one step, `tick` is an argument.
pub mod Ticks
pub mod Run
pub mod Cancel
mod Tests
use orion_os.Base.{
  ℕ, zero, suc, ◌+◌, ◌-◌, ◌*◌, ◌/◌, ◌%◌, ◌^◌, Bool, true, false, Option, none, some, List, [], ◌∷◌,
  ltb, ◌==◌, ◌!=◌, ◌&&◌, not, if◌then◌else◌, fill, is_some,
}

abbrev pub max_timer_tasks : ℕ
max_timer_tasks = 32

abbrev pub timer_hz : ℕ
timer_hz = 100

-- timer_task_t; a null function pointer is 0.
pub record TimerTask : Type 0 where
  pub id : ℕ
  pub due_tick : ℕ
  pub interval_ticks : ℕ
  pub fn : ℕ
  pub ctx : ℕ
  pub active : Bool

abbrev pub no_task : TimerTask
no_task = record { id = 0; due_tick = 0; interval_ticks = 0; fn = 0; ctx = 0; active = false }

-- The static variables.
pub record Timers : Type 0 where
  pub tasks : List TimerTask
  pub next_id : ℕ

-- `(int32_t)(now - when) >= 0`
unfoldable pub tick_elapsed : ℕ → ℕ → Bool
tick_elapsed now when = ltb ((now + 2 ^ 32 - when) % 2 ^ 32) (2 ^ 31)

unfoldable pub timer_task_init : Timers → Timers
timer_task_init t = record { tasks = fill no_task max_timer_tasks; next_id = 1 }

-- The loop that looks for a slot, and the stores to it; `none` where all are active.
unfoldable pub place : TimerTask → List TimerTask → Option (List TimerTask)
place new [] = none
place new (x ∷ xs) =
    let later = place new xs in
    if not x.active then some (new ∷ xs) else elim later [ none ↦ none | some ys ↦ some (x ∷ ys) ]

-- The answer of type int is given by its 32 bits: -1 is `2 ^ 32 - 1`, and `(int)id` has the bits of
-- the id. The code reads the id back after interrupts are on again, here it is one step with the
-- stores.
unfoldable pub timer_task_alloc : (tick delay_ticks interval_ticks fn ctx : ℕ) → Timers → ℕ × Timers
timer_task_alloc tick delay_ticks interval_ticks fn ctx t =
    let delay = if delay_ticks == 0 then 1 else delay_ticks in
    let new : TimerTask = record {
      id = t.next_id;
      due_tick = (tick + delay) % 2 ^ 32;
      interval_ticks = interval_ticks;
      fn = fn;
      ctx = ctx;
      active = true;
    } in
    let after = (t.next_id + 1) % 2 ^ 32 in
    if fn == 0 then (2 ^ 32 - 1, t) else elim (place new t.tasks) [
      | none ↦ (2 ^ 32 - 1, t)
      | some ts ↦ (t.next_id, record { tasks = ts; next_id = if after == 0 then 1 else after })
    ]

unfoldable pub timer_task_schedule_ticks :
    (tick delay_ticks interval_ticks fn ctx : ℕ) → Timers → ℕ × Timers
timer_task_schedule_ticks tick delay_ticks interval_ticks fn ctx t =
    timer_task_alloc tick delay_ticks interval_ticks fn ctx t

unfoldable pub ms_to_ticks : ℕ → ℕ
ms_to_ticks ms =
    let q = ms / 1000 in
    let r = ms % 1000 in
    let rem = r * timer_hz in
    let whole = q * timer_hz in
    let ticks =
      if r == 0
      then whole
      else if rem % 1000 != 0
      then (whole + rem / 1000 + 1) % 2 ^ 32
      else (whole + rem / 1000) % 2 ^ 32 in
    if ltb ((2 ^ 32 - 1) / timer_hz) q then 2 ^ 32 - 1 else if ticks == 0 then 1 else ticks

unfoldable pub timer_task_schedule_ms : (tick delay_ms interval_ms fn ctx : ℕ) → Timers → ℕ × Timers
timer_task_schedule_ms tick delay_ms interval_ms fn ctx t =
    timer_task_alloc tick (ms_to_ticks delay_ms)
      (if interval_ms == 0 then 0 else ms_to_ticks interval_ms) fn ctx t

unfoldable pub remove : ℕ → List TimerTask → Option (List TimerTask)
remove id [] = none
remove id (x ∷ xs) =
    let later = remove id xs in
    if x.active && (x.id == id)
    then some (no_task ∷ xs)
    else elim later [ none ↦ none | some ys ↦ some (x ∷ ys) ]

unfoldable pub timer_task_cancel : ℕ → Timers → Bool × Timers
timer_task_cancel id t =
    if id == 0
    then (false, t)
    else elim (remove id t.tasks) [ none ↦ (false, t) | some ts ↦ (true, record t { tasks = ts }) ]

abbrev pub is_due : ℕ → TimerTask → Bool
is_due now x = x.active && tick_elapsed now x.due_tick

unfoldable pub due_in : ℕ → List TimerTask → Bool
due_in now [] = false
due_in now (x ∷ xs) = let later = due_in now xs in if is_due now x then true else later

unfoldable pub timer_task_due : ℕ → Timers → Bool
timer_task_due tick t = due_in tick t.tasks

-- The task after it has been taken.
abbrev pub taken : ℕ → TimerTask → TimerTask
taken now x =
    if x.interval_ticks == 0
    then no_task
    else record x { due_tick = (now + x.interval_ticks) % 2 ^ 32 }

-- The section with interrupts off of timer_task_run_due: the first task that is due.
unfoldable pub take_due : ℕ → List TimerTask → Option TimerTask × List TimerTask
take_due now [] = (none, [])
take_due now (x ∷ xs) =
    let (found, ys) = take_due now xs in
    if is_due now x then (some x, taken now x ∷ xs) else (found, x ∷ ys)

abbrev pub before : TimerTask → Option (List TimerTask × Timers) → Option (List TimerTask × Timers)
before x none = none
before x (some (called, t)) = some (x ∷ called, t)

-- What a round does with the task that it took: it ends where there is no function to call.
abbrev pub round :
    (TimerTask → Timers → Option (List TimerTask × Timers))
    → Timers
    → Option TimerTask × List TimerTask
    → Option (List TimerTask × Timers)
round go_on t (none, ts) = some ([], record t { tasks = ts })
round go_on t (some x, ts) =
    if x.fn == 0 then some ([], record t { tasks = ts }) else go_on x (record t { tasks = ts })

-- timer_task_run_due with the tasks called, in order. `call` is what a call does to the timers,
-- `clock` the tick at each round; `none` where the fuel is short.
unfoldable pub timer_task_run_due :
    (TimerTask → Timers → Timers) → (ℕ → ℕ) → ℕ → Timers → Option (List TimerTask × Timers)
timer_task_run_due call clock zero t = none
timer_task_run_due call clock (suc fuel) t =
    round (λ x t'. before x (timer_task_run_due call clock fuel (call x t'))) t
      (take_due (clock fuel) t.tasks)
