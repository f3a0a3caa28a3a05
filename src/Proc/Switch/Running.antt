-- ===== src/Proc/Switch/Running.antt =====
-- The switch keeps the invariant of the process table.
use orion_os.Base.{
  ℕ, ◌<◌, ◌≡◌, refl, sym, ap, subst, ◌∙◌, true, false, none, some, arith, ◌==◌, if◌then◌else◌, inl,
  inr, length-set, Bool-cases, Option-cases,
}
use orion_os.Proc.{Process, Procs, slot, put_slot, max_procs, is_running, proc_ready, proc_running}
use orion_os.Proc.Invariant.{IsValid, IsIdle, get_or-set, same-IsValid, put_slot-IsValid}
use orion_os.Proc.Switch.{preempt, run_slot, install, save_context}

-- What the two steps on the current process leave, by what is current.
pub preempt-none : {s : Procs} → s.current_proc ≡ none → preempt s ≡ s
unfolding preempt
preempt-none off = ground arith

pub preempt-some :
    (s : Procs) (c : ℕ)
    → s.current_proc ≡ some c
    → preempt s ≡ (
        if is_running (slot s c).state
        then put_slot c (record (slot s c) { state = proc_ready }) s
        else s)
unfolding preempt
preempt-some s c on = ground arith

pub save_context-none : {s : Procs} (regs : ℕ) → s.current_proc ≡ none → save_context regs s ≡ s
unfolding save_context
save_context-none regs off = ground arith

pub save_context-some :
    (s : Procs) (regs c : ℕ)
    → s.current_proc ≡ some c
    → save_context regs s ≡ put_slot c (record (slot s c) { context_esp = regs }) s
unfolding save_context
save_context-some s regs c on = ground arith

-- A valid table in which the current process, if there is one, does not run is idle.
rest-IsIdle :
    {s : Procs}
    → IsValid s
    → ((c : ℕ) → s.current_proc ≡ some c → is_running (slot s c).state ≡ false)
    → IsIdle s
rest-IsIdle {s} v rests = record {
  size = v.size;
  idle = λ i. elim (Bool-cases (is_running (slot s i).state)) [
    | inl runs ↦ rests i (v.only i runs)
    | inr rest ↦ rest
  ];
}

stop-IsIdle :
    {s : Procs} (c : ℕ)
    → IsValid s
    → s.current_proc ≡ some c
    → IsIdle (put_slot c (record (slot s c) { state = proc_ready }) s)
stop-IsIdle {s} c v on =
    let ready : Process = record (slot s c) { state = proc_ready } in
    let w : IsValid (put_slot c ready s) =
      put_slot-IsValid c ready v (v.inside c on) (λ r. on) (λ r. ground arith) in
    rest-IsIdle w (λ d on'.
      let here : c ≡ d = ground arith in
      rw (← here, get_or-set s.proc_table c c ready (omega (arith, v.size, v.inside c on)))
        (ground arith))

pub preempt-IsIdle : {s : Procs} → IsValid s → IsIdle (preempt s)
preempt-IsIdle {s} v = elim (Option-cases s.current_proc) [
  | inl off ↦ subst IsIdle (sym (preempt-none off)) (rest-IsIdle v (λ c on. absurd (ground arith)))
  | inr (c, on) ↦ elim (Bool-cases (is_running (slot s c).state)) [
    | inl runs ↦ subst IsIdle (sym (preempt-some s c on ∙ rw runs refl)) (stop-IsIdle c v on)
    | inr rests ↦
        subst IsIdle (sym (preempt-some s c on ∙ rw rests refl))
          (rest-IsIdle v (λ d on'. let here : c ≡ d = ground arith in rw (← here) rests))
  ]
]

pub run_slot-IsValid : {s : Procs} (i : ℕ) → IsIdle s → i < max_procs → IsValid (run_slot i s)
unfolding run_slot
run_slot-IsValid {s} i v h = record {
  size = length-set s.proc_table i _ ∙ v.size;
  same = refl;
  inside = λ c e. let here : i ≡ c = ground arith in rw (← here) h;
  live = λ c e.
      let here : i ≡ c = ground arith in
      rw (← here, get_or-set s.proc_table i i _ (omega (arith, v.size))) (ground arith);
  only = λ j e. elim (Bool-cases (i == j)) [
    | inl hit ↦ let here : i ≡ j = ground arith in ap some here
    | inr miss ↦
        let on : slot (put_slot i (record (slot s i) { state = proc_running }) s) j ≡ slot s j =
          get_or-set s.proc_table i j _ (omega (arith, v.size)) ∙ rw miss refl in
        let run : is_running (slot s j).state ≡ true =
          ap (λ (x : Process). is_running x.state) (sym on) ∙ e in
        absurd (ground (arith, v.idle j))
  ];
}

pub install-table :
    (s : Procs) (i : ℕ)
    → ((install i s).proc_table ≡ s.proc_table)
      × ((install i s).current_proc ≡ s.current_proc)
      × ((install i s).current_index ≡ s.current_index)
unfolding install
install-table s i = ground arith

pub install-IsValid : {s : Procs} (i : ℕ) → IsValid s → IsValid (install i s)
install-IsValid {s} i v =
    same-IsValid (install-table s i).0 (install-table s i).1 (install-table s i).2 v

pub save_context-IsValid : {s : Procs} (regs : ℕ) → IsValid s → IsValid (save_context regs s)
save_context-IsValid {s} regs v = elim (Option-cases s.current_proc) [
  | inl off ↦ subst IsValid (sym (save_context-none regs off)) v
  | inr (c, on) ↦ subst IsValid (sym (save_context-some s regs c on)) (
      put_slot-IsValid c (record (slot s c) { context_esp = regs }) v (v.inside c on) (λ r. on)
        (λ r. v.live c on))
]
