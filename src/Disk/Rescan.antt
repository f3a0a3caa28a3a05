-- ===== src/Disk/Rescan.antt =====
-- The rescan protocol of fs/disk.c: disk_request_rescan, which interrupts call, and the work item
-- disk_rescan_work. Each section with interrupts off is one step, and steps interleave freely.
use orion_os.Base.{◌≡◌, refl, Bool, true, false, arith, ◌⊎◌, if◌then◌else◌, not}

-- disk_rescan_pending and disk_rescan_again.
pub record Flags : Type 0 where
  pub pending : Bool
  pub again : Bool

-- The first section of disk_request_rescan; the answer is `enqueue`.
unfoldable pub request : Flags → Bool × Flags
request f =
    if not f.pending
    then (true, record f { pending = true })
    else (false, record f { again = true })

-- The section after an enqueue that failed.
pub enqueue_failed : Flags → Flags
enqueue_failed f = record f { pending = false }

-- The section at the end of a round of disk_rescan_work; the answer is `repeat`.
unfoldable pub round_end : Flags → Bool × Flags
round_end f =
    if f.again then (true, record f { again = false }) else (false, record f { pending = false })

-- Where the work item is: not queued, in the work queue, or in detect_disks_quick.
pub data Worker : Type 0 where
  resting queued detecting : Worker

-- `enqueuing` while a request is between its two sections; `unserved` where a request came after
-- the last detection began.
pub record State : Type 0 where
  pub flags : Flags
  pub worker : Worker
  pub enqueuing : Bool
  pub unserved : Bool

abbrev pub start : State
start = record {
  flags = record { pending = false; again = false };
  worker = resting;
  enqueuing = false;
  unserved = false;
}

abbrev on_request : State → State
on_request s =
    let (enqueue, f) = request s.flags in
    record s { flags = f; enqueuing = if enqueue then true else s.enqueuing; unserved = true }

abbrev on_round_end : State → State
on_round_end s =
    let (repeat, f) = round_end s.flags in
    record s {
      flags = f;
      worker = if repeat then detecting else resting;
      unserved = if repeat then false else s.unserved;
    }

-- The steps where every enqueue succeeds: `ask` is a request up to its enqueue, `enqueue` its
-- enqueue, `begin` the start of the work item, and `end_round` the end of one of its rounds.
pub data Step : State → State → Type 0 where
  ask : (s : State) → Step s (on_request s)
  enqueue :
      (s : State) → s.enqueuing ≡ true → Step s (record s { enqueuing = false; worker = queued })
  begin :
      (s : State) → s.worker ≡ queued → Step s (record s { worker = detecting; unserved = false })
  end_round : (s : State) → s.worker ≡ detecting → Step s (on_round_end s)

pub data Reach : State → Type 0 where
  here : Reach start
  next : {s t : State} → Reach s → Step s t → Reach t

-- The work item is on its way exactly while `pending` is set, and a request that is not served
-- will be.
record Inv (s : State) : Type 0 where
  idle :
      s.flags.pending ≡ false
      → (s.worker ≡ resting) × (s.enqueuing ≡ false) × (s.flags.again ≡ false)
  busy :
      s.flags.pending ≡ true
      → (s.enqueuing ≡ true) × (s.worker ≡ resting)
        ⊎ ((s.enqueuing ≡ false) × ((s.worker ≡ queued) ⊎ (s.worker ≡ detecting)))
  served :
      s.unserved ≡ true
      → (s.enqueuing ≡ true)
        ⊎ ((s.worker ≡ queued) ⊎ (s.worker ≡ detecting) × (s.flags.again ≡ true))

Step-Inv : {s t : State} → Step s t → Inv s → Inv t
unfolding request round_end
Step-Inv (ask s) v = ground arith
Step-Inv (enqueue s e) v = ground arith
Step-Inv (begin s e) v = ground arith
Step-Inv (end_round s e) v = ground arith

Reach-Inv : {s : State} → Reach s → Inv s
Reach-Inv here = record { idle = λ h. (refl, refl, refl); busy = λ h. cc; served = λ h. cc }
Reach-Inv (next r st) = Step-Inv st (Reach-Inv r)

-- Where every enqueue succeeds, in whatever order requests and rounds interleave, no request is
-- lost: once the work item rests and no request is being enqueued, a detection has begun after
-- every request.
pub Reach-served :
    {s : State} → Reach s → s.worker ≡ resting → s.enqueuing ≡ false → s.unserved ≡ false
Reach-served {s} r e e' = ground (arith, Reach-Inv r)
