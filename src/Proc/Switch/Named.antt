-- ===== src/Proc/Switch/Named.antt =====
-- A switch leaves every live process with a pid other than 0.
use orion_os.Base.{
  ℕ, ◌<◌, ◌≡◌, ◌≢◌, refl, sym, subst, ◌∙◌, true, false, some, arith, ◌==◌, ◌!=◌, ◌&&◌, if-both, inl,
  inr, Option-cases, length, get_or,
}
use orion_os.Proc.{
  Process, Procs, slot, put_slot, no_process, max_procs, is_free, is_running, proc_running,
}
use orion_os.Proc.Invariant.{IsValid, get_or-set}
use orion_os.Proc.Lifecycle.{proc_current_pid}
use orion_os.Proc.Switch.{eligible, proc_is_runnable, preempt, run_slot, save_context}
use orion_os.Proc.Switch.Running.{
  preempt-IsIdle, save_context-IsValid, preempt-none, preempt-some, save_context-none,
  save_context-some, install-table,
}
use orion_os.Proc.Switch.Schedule.{switched}
use orion_os.Proc.Switch.Eligible.{preempt-eligible, save_context-eligible}

-- A process that is neither unused nor exited has a pid.
abbrev pub Named : Procs → Type 0
Named s = (i : ℕ) → is_free (slot s i) ≡ false → (slot s i).pid ≢ 0

put_slot-Named :
    (s : Procs) (i : ℕ) (p : Process)
    → i < length s.proc_table
    → Named s
    → (is_free p ≡ false → p.pid ≢ 0)
    → Named (put_slot i p s)
put_slot-Named s i p h was now j =
    let Fine : Process → Type 0 = λ (x : Process). is_free x ≡ false → x.pid ≢ 0 in
    subst Fine (sym (get_or-set s.proc_table i j p h)) (if-both Fine (i == j) now (was j))

save_context-Named : {s : Procs} (regs : ℕ) → IsValid s → Named s → Named (save_context regs s)
save_context-Named {s} regs v names = elim (Option-cases s.current_proc) [
  | inl off ↦ subst Named (sym (save_context-none regs off)) names
  | inr (c, on) ↦
      subst Named (sym (save_context-some s regs c on))
        (put_slot-Named s c _ (omega (arith, v.size, v.inside c on)) names (names c))
]

preempt-Named : {s : Procs} → IsValid s → Named s → Named (preempt s)
preempt-Named {s} v names = elim (Option-cases s.current_proc) [
  | inl off ↦ subst Named (sym (preempt-none off)) names
  | inr (c, on) ↦ subst Named (sym (preempt-some s c on)) (
      if-both Named (is_running (slot s c).state)
        (put_slot-Named s c _ (omega (arith, v.size, v.inside c on)) names
          (λ live. names c (v.live c on)))
        names)
]

eligible-live : (p : Process) → proc_is_runnable p && p.context_esp != 0 ≡ true → is_free p ≡ false
unfolding proc_is_runnable
eligible-live p h = ground arith

pub switched-Named :
    {s : Procs} (regs next : ℕ)
    → IsValid s
    → regs ≢ 0
    → next < max_procs
    → eligible s.proc_table next ≡ true
    → Named s
    → Named (switched regs true next s)
unfolding switched run_slot
switched-Named {s} regs next v frame h good names =
    let saved : Procs = save_context regs s in
    let w : IsValid saved = save_context-IsValid regs v in
    let idle : Procs = preempt saved in
    let still : eligible idle.proc_table next ≡ true =
      preempt-eligible next w (save_context-eligible regs next v frame good) in
    let idle_names : Named idle = preempt-Named w (save_context-Named regs v names) in
    subst (λ t. (i : ℕ) → is_free (get_or t i no_process) ≡ false → (get_or t i no_process).pid ≢ 0)
      (sym (install-table (run_slot next idle) next).0)
      (put_slot-Named (record idle { current_index = some next; current_proc = some next }) next
        (record (slot idle next) { state = proc_running }) (omega (arith, (preempt-IsIdle w).size))
        idle_names (λ live. idle_names next (eligible-live (slot idle next) still)))

-- On a valid table the current process has a pid other than 0.
pub current-Named :
    {s : Procs} (c : ℕ) → IsValid s → Named s → s.current_proc ≡ some c → proc_current_pid s ≢ 0
unfolding proc_current_pid
current-Named {s} c v names on =
    let e : proc_current_pid s ≡ (slot s c).pid = rw (proc_current_pid, on) refl in
    λ z. names c (v.live c on) (sym e ∙ z)
