-- ===== src/Timer/Tests.antt =====
-- Runs of the timer tasks on concrete tables, and the witnesses.
use orion_os.Base.{◌≡◌, refl, true, false, some, none, [], ◌∷◌, arith}
use orion_os.Timer.{
  TimerTask, no_task, Timers, tick_elapsed, timer_task_schedule_ticks, ms_to_ticks, timer_task_due,
  timer_task_run_due, take_due,
}
use orion_os.Timer.Ticks.{ms_to_ticks_lem}
use orion_os.Timer.Cancel.{CancelUndoes, timer_task_cancel-timer_task_schedule_ticks}
use orion_os.Timer.Run.{due_tasks, settled, timer_task_run_due_lem}

abbrev once : TimerTask
once = record { id = 1; due_tick = 100; interval_ticks = 0; fn = 7; ctx = 0; active = true }

abbrev again : TimerTask
again = record { id = 2; due_tick = 90; interval_ticks = 50; fn = 8; ctx = 0; active = true }

abbrev later : TimerTask
later = record { id = 3; due_tick = 200; interval_ticks = 0; fn = 9; ctx = 0; active = true }

abbrev timers : Timers
timers = record { tasks = once ∷ later ∷ again ∷ []; next_id = 4 }

abbrev after : Timers
after = record { tasks = no_task ∷ later ∷ record again { due_tick = 150 } ∷ []; next_id = 4 }

ms_to_ticks_lem_example : ms_to_ticks 1234 ≡ 124
ms_to_ticks_lem_example = ms_to_ticks_lem 1234 (omega arith)

wrapped : tick_elapsed 9 4 ≡ true
unfolding tick_elapsed
wrapped = refl

before_wrap : tick_elapsed 0xFFFFFFF0 4 ≡ false
unfolding tick_elapsed
before_wrap = refl

timer_task_run_due_lem_example :
    (timer_task_run_due (λ x s. s) (λ round. 100) 3 timers ≡ some (once ∷ again ∷ [], after))
    × (timer_task_due 100 after ≡ false)
unfolding due_tasks settled tick_elapsed
timer_task_run_due_lem_example =
    timer_task_run_due_lem 100 (omega arith) 3 timers
      (
        (λ e. ((λ z. omega arith), omega arith)),
        ((λ e. ((λ z. omega arith), omega arith)), ((λ e. ((λ z. omega arith), omega arith)), tt)),
      )
      (omega arith)

abbrev two_used : Timers
two_used = record { tasks = once ∷ no_task ∷ again ∷ []; next_id = 4 }

timer_task_cancel-timer_task_schedule_ticks_example :
    CancelUndoes
      (record { id = 4; due_tick = 105; interval_ticks = 0; fn = 9; ctx = 0; active = true })
      two_used
      (timer_task_schedule_ticks 100 5 0 9 0 two_used)
timer_task_cancel-timer_task_schedule_ticks_example =
    timer_task_cancel-timer_task_schedule_ticks 100 5 0 9 0 two_used (λ z. omega arith)
      ((λ a e. omega arith), ((λ a e. omega arith), ((λ a e. omega arith), tt)))

-- A task at an interval of more than half the counter's range is due again at once, and the rounds
-- do not end.
abbrev long : TimerTask
long = record {
  id = 1;
  due_tick = 100;
  interval_ticks = 0xFFFFFFFF;
  fn = 7;
  ctx = 0;
  active = true;
}

long_again :
    timer_task_run_due (λ x s. s) (λ round. 100) 20 (record { tasks = long ∷ []; next_id = 2 })
    ≡ none
unfolding timer_task_run_due take_due tick_elapsed
long_again = refl
