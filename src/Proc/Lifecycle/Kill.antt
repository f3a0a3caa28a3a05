-- ===== src/Proc/Lifecycle/Kill.antt =====
-- proc_kill: which process it ends, and what it answers.
use orion_os.Base.{
  ℕ, zero, suc, [], ◌∷◌, ◌<◌, ◌≡◌, ◌≢◌, Bool, true, false, not, ◌&&◌, none, some, List, arith,
  get_or, length,
}
use orion_os.Proc.{Process, Procs, slot, no_process, max_procs, find_slot, is_unused, is_exited}
use orion_os.Proc.Invariant.{IsValid}
use orion_os.Proc.Lifecycle.{
  ProcKillResult, proc_kill_ok, proc_kill_invalid, proc_kill_no_such, proc_kill_already_exited,
  proc_kill_kernel,
}
use orion_os.Proc.Lifecycle.Ends.{Ends}

-- What a kill may answer, and the state that it leaves.
pub data Kills (pid : ℕ) (force : Bool) (s : Procs) : ProcKillResult × Procs → Type 0 where
  invalid : pid ≡ 0 → Kills pid force s (proc_kill_invalid, s)
  requested :
      (c : ℕ)
      → s.current_proc ≡ some c
      → (slot s c).pid ≡ pid
      → (slot s c).is_kernel && not force ≡ false
      → Kills pid force s (proc_kill_ok, record s { kill_requested_pid = pid })
  protected :
      (i : ℕ)
      → (slot s i).pid ≡ pid
      → (slot s i).is_kernel ≡ true
      → force ≡ false
      → Kills pid force s (proc_kill_kernel, s)
  missing :
      ((i : ℕ) → i < length s.proc_table → (slot s i).pid ≡ pid → is_unused (slot s i).state ≡ true)
      → Kills pid force s (proc_kill_no_such, s)
  exited :
      (i : ℕ)
      → (slot s i).pid ≡ pid
      → is_exited (slot s i).state ≡ true
      → Kills pid force s (proc_kill_already_exited, s)
  killed :
      (i : ℕ) (s' : Procs)
      → i < max_procs
      → s.current_proc ≢ some i
      → (slot s i).pid ≡ pid
      → is_unused (slot s i).state ≡ false
      → is_exited (slot s i).state ≡ false
      → (slot s i).is_kernel && not force ≡ false
      → Ends i s s'
      → IsValid s'
      → Kills pid force s (proc_kill_ok, s')

pub find_slot-none :
    (test : Process → Bool) (t : List Process) (i : ℕ)
    → find_slot test t ≡ none
    → i < length t
    → test (get_or t i no_process) ≡ false
unfolding find_slot
find_slot-none test [] i e h = absurd (omega arith)
find_slot-none test (p ∷ ps) zero e h = ground arith
find_slot-none test (p ∷ ps) (suc i) e h = find_slot-none test ps i (ground arith) (omega arith)
