-- ===== src/Proc/Lookup.antt =====
-- The lookups by pid answer about the same process.
use orion_os.Base.{ℕ, ◌<◌, ◌≡◌, ◌≢◌, true, false, some, arith, ◌==◌, is_some, length}
use orion_os.Proc.{
  Procs, slot, find_slot, is_free, proc_pid_alive, proc_lookup, proc_pid_exited, proc_pid_active,
}
use orion_os.Proc.Invariant.{find_slot-lem}

-- A process is alive exactly if the lookup finds it, the watchdog's test agrees, and a process
-- that has exited is not alive. What the lookup finds is the first slot with the pid, in use.
pub proc_lookup_lem :
    (pid : ℕ) (s : Procs)
    → (proc_pid_alive pid s ≡ is_some (proc_lookup pid s))
      × (proc_pid_active pid s ≡ proc_pid_alive pid s)
      × (is_some (proc_pid_exited pid s) ≡ true → proc_pid_alive pid s ≡ false)
      × ((i : ℕ)
          → proc_lookup pid s ≡ some i
          → (i < length s.proc_table)
            × ((slot s i).pid ≡ pid)
            × (is_free (slot s i) ≡ false)
            × ((j : ℕ) → j < i → (slot s j).pid ≢ pid))
unfolding proc_pid_alive proc_lookup proc_pid_exited proc_pid_active
proc_lookup_lem pid s = (
  ground arith,
  ground arith,
  λ exited. ground arith,
  λ i e.
      let found : find_slot (λ p. p.pid == pid) s.proc_table ≡ some i = ground arith in
      let (lt, hit, before) = find_slot-lem (λ p. p.pid == pid) s.proc_table i found in
      (lt, ground arith, ground arith, λ j less same. absurd (ground (arith, before j less))),
)
