-- ===== src/Proc/Switch/Eligible.antt =====
-- A switch leaves an eligible process eligible.
use orion_os.Base.{
  ℕ, ◌<◌, ◌≡◌, ◌≢◌, refl, sym, ap, subst, ◌∙◌, Bool, true, some, arith, ◌==◌, ◌!=◌, ◌&&◌, if-both,
  inl, inr, Bool-cases, Option-cases, length,
}
use orion_os.Proc.{Process, Procs, slot, put_slot, max_procs, is_running, proc_ready, proc_running}
use orion_os.Proc.Invariant.{IsValid, get_or-set}
use orion_os.Proc.Switch.{eligible, proc_is_runnable, preempt, run_slot, save_context}
use orion_os.Proc.Switch.Running.{
  preempt-IsIdle, save_context-IsValid, preempt-none, preempt-some, save_context-none,
  save_context-some, install-table,
}
use orion_os.Proc.Switch.Schedule.{switched}

abbrev eligible_slot : Process → Bool
eligible_slot p = proc_is_runnable p && p.context_esp != 0

-- A store that leaves an eligible process eligible.
put_slot-eligible :
    (s : Procs) (i j : ℕ) (p : Process)
    → i < length s.proc_table
    → eligible s.proc_table j ≡ true
    → (i ≡ j → eligible_slot p ≡ true)
    → eligible (put_slot i p s).proc_table j ≡ true
put_slot-eligible s i j p h was now = elim (Bool-cases (i == j)) [
  | inl hit ↦
      let here : i ≡ j = ground arith in
      ap eligible_slot (get_or-set s.proc_table i j p h ∙ rw hit refl) ∙ now here
  | inr miss ↦ ap eligible_slot (get_or-set s.proc_table i j p h ∙ rw miss refl) ∙ was
]

ready-eligible :
    (p : Process) → eligible_slot p ≡ true → eligible_slot (record p { state = proc_ready }) ≡ true
unfolding proc_is_runnable
ready-eligible p h = ground arith

running-eligible :
    (p : Process)
    → eligible_slot p ≡ true
    → eligible_slot (record p { state = proc_running }) ≡ true
unfolding proc_is_runnable
running-eligible p h = ground arith

framed-eligible :
    (p : Process) (regs : ℕ)
    → regs ≢ 0
    → eligible_slot p ≡ true
    → eligible_slot (record p { context_esp = regs }) ≡ true
unfolding proc_is_runnable
framed-eligible p regs frame h = ground arith

pub save_context-eligible :
    {s : Procs} (regs j : ℕ)
    → IsValid s
    → regs ≢ 0
    → eligible s.proc_table j ≡ true
    → eligible (save_context regs s).proc_table j ≡ true
save_context-eligible {s} regs j v frame h = elim (Option-cases s.current_proc) [
  | inl off ↦ subst (λ x. eligible x.proc_table j ≡ true) (sym (save_context-none regs off)) h
  | inr (c, on) ↦
      subst (λ x. eligible x.proc_table j ≡ true) (sym (save_context-some s regs c on))
        (put_slot-eligible s c j _ (omega (arith, v.size, v.inside c on)) h
          (λ e. rw e (framed-eligible (slot s j) regs frame h)))
]

pub preempt-eligible :
    {s : Procs} (j : ℕ)
    → IsValid s
    → eligible s.proc_table j ≡ true
    → eligible (preempt s).proc_table j ≡ true
preempt-eligible {s} j v h = elim (Option-cases s.current_proc) [
  | inl off ↦ subst (λ x. eligible x.proc_table j ≡ true) (sym (preempt-none off)) h
  | inr (c, on) ↦
      subst (λ x. eligible x.proc_table j ≡ true) (sym (preempt-some s c on))
        (if-both (λ (x : Procs). eligible x.proc_table j ≡ true) (is_running (slot s c).state)
          (put_slot-eligible s c j _ (omega (arith, v.size, v.inside c on)) h
            (λ e. rw e (ready-eligible (slot s j) h)))
          h)
]

pub switched-eligible :
    {s : Procs} (regs next j : ℕ)
    → IsValid s
    → regs ≢ 0
    → next < max_procs
    → eligible s.proc_table j ≡ true
    → eligible (switched regs true next s).proc_table j ≡ true
unfolding switched run_slot
switched-eligible {s} regs next j v frame h was =
    let saved : Procs = save_context regs s in
    let w : IsValid saved = save_context-IsValid regs v in
    let idle : Procs = preempt saved in
    let still : eligible idle.proc_table j ≡ true =
      preempt-eligible j w (save_context-eligible regs j v frame was) in
    ap (λ t. eligible t j) (install-table (run_slot next idle) next).0
    ∙ put_slot-eligible (record idle { current_index = some next; current_proc = some next }) next j
        (record (slot idle next) { state = proc_running }) (omega (arith, (preempt-IsIdle w).size))
        still (λ e. rw e (running-eligible (slot idle j) still))
