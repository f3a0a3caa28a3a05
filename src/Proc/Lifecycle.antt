-- ===== src/Proc/Lifecycle.antt =====
-- kernel/proc/proc.c: exit, kill, the parent of a vfork, and the reaping of exited processes.
pub mod Exit
pub mod Reap
pub mod Ends
pub mod Kill
use orion_os.Base.{
  ℕ, zero, suc, ◌+◌, ◌^◌, ◌%◌, Bool, true, false, Option, none, some, List, [], ◌∷◌, ◌++◌, ltb, leb,
  ◌==◌, ◌!=◌, ◌&&◌, ◌||◌, not, if◌then◌else◌,
}
use orion_os.Proc.{
  Process, Procs, Call, sys_close_fds_for_pid, kfree, bin_return_to_shell, slot, put_slot,
  find_slot, no_process, max_procs, is_unused, is_blocked, is_exited, is_running, proc_ready,
  proc_exited,
}

abbrev pub is_slot : Option ℕ → ℕ → Bool
is_slot none i = false
is_slot (some c) i = c == i

pub proc_stack_in_use : Process → ℕ → Bool
proc_stack_in_use p esp =
    if p.kstack_base == 0 || p.kstack_size == 0
    then false
    else (let start = p.kstack_base in
        let end_of = (start + p.kstack_size) % 2 ^ 32 in
        if ltb end_of start then false else leb start esp && ltb esp end_of)

-- The calls of proc_cleanup for a process, the latest first.
pub cleanup_calls : Process → List Call
cleanup_calls p =
    (if not p.is_kernel && p.page_dir != 0 then kfree p.page_dir ∷ [] else [])
    ++ (if p.image_base != 0 then kfree p.image_base ∷ [] else [])
    ++ (if p.kstack_base != 0 then kfree p.kstack_base ∷ [] else [])
    ++ (if p.stack_kern_base != 0 then kfree p.stack_kern_base ∷ [] else [])
    ++ (if p.pid != 0 then sys_close_fds_for_pid p.pid ∷ [] else [])

unfoldable pub proc_cleanup : ℕ → Procs → Procs
proc_cleanup i s = record (put_slot i no_process s) { calls = cleanup_calls (slot s i) ++ s.calls }

-- The state changes of proc_wake_vfork_parent for a child in the slot `i`.
pub proc_wake_vfork_parent : ℕ → Procs → Procs
proc_wake_vfork_parent i s =
    let child = slot s i in
    if child.vfork_parent_pid == 0
    then s
    else (let s' = put_slot i (record child { vfork_parent_pid = 0 }) s in
        elim (find_slot (λ p. p.pid == child.vfork_parent_pid) s'.proc_table) [
          | none ↦ s'
          | some j ↦
              if is_blocked (slot s' j).state
              then put_slot j (record (slot s' j) { state = proc_ready }) s'
              else s'
        ])

-- The reaper, if there is one, is told that a process has exited.
pub note_exit : Procs → Procs
note_exit s = if s.proc_reaper_enabled then record s { proc_reap_pending = true } else s

pub proc_exit : ℕ → Procs → Procs
proc_exit exit_code s = elim s.current_proc [
  | none ↦ s
  | some c ↦
      let s1 = if s.foreground_pid == (slot s c).pid then record s { foreground_pid = 0 } else s in
      let s2 = put_slot c (record (slot s1 c) { exit_code = exit_code; state = proc_exited }) s1 in
      let s3 = proc_wake_vfork_parent c s2 in
      let s4 = note_exit s3 in record s4 { current_proc = none; current_index = none }
]

pub data ProcKillResult : Type 0 where
  proc_kill_ok proc_kill_invalid proc_kill_no_such proc_kill_kernel proc_kill_already_exited :
      ProcKillResult

pub proc_is_foreground_pid : ℕ → Procs → Bool
proc_is_foreground_pid pid s = pid != 0 && s.foreground_pid == pid

-- A foreground process that is killed gives the screen back to the shell.
pub leave_foreground : Bool → Procs → Procs
leave_foreground was_foreground s =
    if was_foreground
    then record s { foreground_pid = 0; calls = bin_return_to_shell ∷ s.calls }
    else s

-- The part of proc_kill that ends the process in the slot `i`.
pub kill_slot : ℕ → ℕ → Procs → Procs
kill_slot pid i s =
    let s1 = put_slot i (record (slot s i) { exit_code = 0; state = proc_exited }) s in
    let s2 = proc_wake_vfork_parent i s1 in
    note_exit (leave_foreground (proc_is_foreground_pid pid s) s2)

-- The loop of proc_kill over the table.
pub kill_other : ℕ → Bool → Procs → ProcKillResult × Procs
kill_other pid force s =
    elim (find_slot (λ p. not (is_unused p.state) && p.pid == pid) s.proc_table) [
      | none ↦ (proc_kill_no_such, s)
      | some i ↦
          if is_exited (slot s i).state
          then (proc_kill_already_exited, s)
          else (if (slot s i).is_kernel && not force
              then (proc_kill_kernel, s)
              else (proc_kill_ok, kill_slot pid i s))
    ]

pub proc_kill : ℕ → Bool → Procs → ProcKillResult × Procs
proc_kill pid force s = if pid == 0 then (proc_kill_invalid, s) else (elim s.current_proc [
  | none ↦ kill_other pid force s
  | some c ↦
      if (slot s c).pid == pid
      then (if (slot s c).is_kernel && not force
          then (proc_kill_kernel, s)
          else (proc_kill_ok, record s { kill_requested_pid = pid }))
      else kill_other pid force s
])

pub proc_request_kill : Procs → Procs
proc_request_kill s = elim s.current_proc [
  | none ↦ s
  | some c ↦ record s { kill_requested_pid = (slot s c).pid }
]

-- One round of the loop of proc_reap, at the stack pointer `esp`.
pub reap_slot : ℕ → ℕ → Procs → Procs
reap_slot esp i s =
    let p = slot s i in
    if not (is_exited p.state) || is_slot s.current_proc i || proc_stack_in_use p esp
    then s
    else (let s1 =
          if p.pid != 0 && p.pid == s.proc_reaper_pid
          then record s { proc_reaper_pid = 0 }
          else s in
        let s2 =
          if p.pid != 0 && p.pid == s1.proc_watchdog_pid
          then record s1 { proc_watchdog_pid = 0 }
          else s1 in
        proc_cleanup i s2)

pub reap_from : ℕ → ℕ → ℕ → Procs → Procs
reap_from esp zero i s = s
reap_from esp (suc n) i s = reap_from esp n (i + 1) (reap_slot esp i s)

pub proc_reap : ℕ → Procs → Procs
proc_reap esp s = reap_from esp max_procs 0 s

pub proc_reap_background : ℕ → Procs → Procs
proc_reap_background esp s =
    if s.proc_reaper_enabled && not s.proc_reap_pending
    then s
    else record (proc_reap esp s) { proc_reap_pending = false }

unfoldable pub proc_current_pid : Procs → ℕ
proc_current_pid s = elim s.current_proc [ none ↦ 0 | some c ↦ (slot s c).pid ]

pub proc_current_is_user : Procs → Bool
proc_current_is_user s = elim s.current_proc [ none ↦ false | some c ↦ not (slot s c).is_kernel ]

pub proc_set_foreground_pid : ℕ → Procs → Procs
proc_set_foreground_pid pid s = record s { foreground_pid = pid }
