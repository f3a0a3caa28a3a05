-- ===== src/Proc/Switch/Slice.antt =====
-- cpu/timer.c: the timer interrupt, which calls the scheduler at the end of a time slice. The cursor
-- and the polling of USB, which do not touch the process table, are left out.
use orion_os.Base.{ℕ, ◌+◌, ◌%◌, ◌^◌, true, leb, ◌==◌, ◌!=◌, if◌then◌else◌}
use orion_os.Proc.{Procs}
use orion_os.Proc.Lifecycle.{proc_current_pid}
use orion_os.Proc.Switch.{proc_schedule}

abbrev pub proc_time_slice_ticks : ℕ
proc_time_slice_ticks = 5

-- The static variables of the timer.
pub record Slices : Type 0 where
  pub tick : ℕ
  pub slice_ticks : ℕ
  pub slice_pid : ℕ

-- A new slice starts where the current process is not the one of the slice.
abbrev pub slice_of : ℕ → Slices → Slices
slice_of pid c = if pid != c.slice_pid then record c { slice_ticks = 0; slice_pid = pid } else c

-- `regs` is the address of the interrupted frame, `esp` the stack pointer that proc_reap reads.
unfoldable pub timer_callback : ℕ → ℕ → Slices × Procs → Slices × Procs
timer_callback regs esp (c, s) =
    let c1 = record c { tick = (c.tick + 1) % 2 ^ 32 } in
    let pid = proc_current_pid s in
    let c2 = slice_of pid c1 in
    let n = (c2.slice_ticks + 1) % 2 ^ 32 in
    if pid == 0
    then (record c1 { slice_ticks = 0; slice_pid = 0 }, s)
    else if leb proc_time_slice_ticks n
    then (record c2 { slice_ticks = 0 }, (proc_schedule regs true esp s).1)
    else (record c2 { slice_ticks = n }, s)
