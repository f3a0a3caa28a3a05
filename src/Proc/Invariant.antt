-- ===== src/Proc/Invariant.antt =====
-- The invariant of the process table: at most the current process is RUNNING.
use orion_os.Base.{
  ℕ, zero, suc, ◌<◌, ◌≡◌, ◌≢◌, refl, sym, ap, ◌∙◌, Bool, true, false, some, List, [], ◌∷◌, arith,
  ◌==◌, if◌then◌else◌, inl, inr, length, get_or, set, length-set, get_or-set_self, get_or-set_ne,
  Bool-cases, Option-cases,
}
use orion_os.Proc.{
  Process, Procs, slot, put_slot, no_process, max_procs, is_running, is_free, find_slot,
}

pub record IsValid (s : Procs) : Type 0 where
  pub size : length s.proc_table ≡ max_procs
  pub same : s.current_index ≡ s.current_proc
  pub inside : (c : ℕ) → s.current_proc ≡ some c → c < max_procs
  pub live : (c : ℕ) → s.current_proc ≡ some c → is_free (slot s c) ≡ false
  pub only : (i : ℕ) → is_running (slot s i).state ≡ true → s.current_proc ≡ some i

-- A slot after a store.
pub get_or-set :
    (t : List Process) (i j : ℕ) (p : Process)
    → i < length t
    → get_or (set t i p) j no_process ≡ (if i == j then p else get_or t j no_process)
get_or-set t i j p h = elim (Bool-cases (i == j)) [
  | inl e ↦ let same : j ≡ i = ground arith in rw (e, same) (get_or-set_self t i p no_process h)
  | inr e ↦ let other : i ≢ j = ground arith in rw e (get_or-set_ne t i j p no_process other)
]

-- A slot that a scan finds passes its test.
pub find_slot-lem :
    (test : Process → Bool) (t : List Process) (i : ℕ)
    → find_slot test t ≡ some i
    → (i < length t)
      × (test (get_or t i no_process) ≡ true)
      × ((j : ℕ) → j < i → test (get_or t j no_process) ≡ false)
unfolding find_slot
find_slot-lem test [] i e = cc
find_slot-lem test (p ∷ ps) i e = elim (Bool-cases (test p)) [
  | inl hit ↦
      let here : i ≡ 0 = ground arith in rw here (omega arith, hit, λ j lt. absurd (omega arith))
  | inr miss ↦ elim (Option-cases (find_slot test ps)) [
    | inl nowhere ↦ absurd (ground arith)
    | inr (k, found) ↦
        let there : i ≡ suc k = ground arith in
        let (lt, passes, before) = find_slot-lem test ps k found in
        rw there (
          omega arith,
          passes,
          λ j below.
              elim j as (λ (m : ℕ). m < suc k → test (get_or (p ∷ ps) m no_process) ≡ false) [
                | zero ↦ λ lt0. miss
                | suc m ↦ λ lt1. before m (omega arith)
              ]
                below,
        )
  ]
]

-- What the invariant says depends on the table and the two current variables alone.
pub same-IsValid :
    {s s' : Procs}
    → s'.proc_table ≡ s.proc_table
    → s'.current_proc ≡ s.current_proc
    → s'.current_index ≡ s.current_index
    → IsValid s
    → IsValid s'
same-IsValid {s} {s'} t c i v = record {
  size = rw t v.size;
  same = rw (c, i) v.same;
  inside = rw c v.inside;
  live = rw (c, t) v.live;
  only = rw (c, t) v.only;
}

pub put_slot-IsValid :
    {s : Procs} (i : ℕ) (p : Process)
    → IsValid s
    → i < max_procs
    → (is_running p.state ≡ true → s.current_proc ≡ some i)
    → (s.current_proc ≡ some i → is_free p ≡ false)
    → IsValid (put_slot i p s)
put_slot-IsValid {s} i p v h runs lives = record {
  size = length-set s.proc_table i p ∙ v.size;
  same = v.same;
  inside = v.inside;
  live = λ c e. elim (Bool-cases (i == c)) [
    | inl hit ↦
        let here : i ≡ c = ground arith in
        let on : s.current_proc ≡ some i = rw here e in rw (stored c, hit) (lives on)
    | inr miss ↦ rw (stored c, miss) (v.live c e)
  ];
  only = λ j e. elim (Bool-cases (i == j)) [
    | inl hit ↦
        let here : i ≡ j = ground arith in
        let on : slot (put_slot i p s) j ≡ p = stored j ∙ rw hit refl in
        rw (← here) (runs (ap (λ (x : Process). is_running x.state) (sym on) ∙ e))
    | inr miss ↦
        let on : slot (put_slot i p s) j ≡ slot s j = stored j ∙ rw miss refl in
        v.only j (ap (λ (x : Process). is_running x.state) (sym on) ∙ e)
  ];
}
  where
    stored : (j : ℕ) → get_or (set s.proc_table i p) j no_process ≡ (if i == j then p else slot s j)
    stored j = get_or-set s.proc_table i j p (omega (arith, v.size))

-- No process is RUNNING: what a preemption leaves.
pub record IsIdle (s : Procs) : Type 0 where
  pub size : length s.proc_table ≡ max_procs
  pub idle : (i : ℕ) → is_running (slot s i).state ≡ false
