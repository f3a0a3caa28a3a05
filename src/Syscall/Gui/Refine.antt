-- ===== src/Syscall/Gui/Refine.antt =====
-- The ring of messages of kernel/syscall.c behaves as the queue of the messages that it holds.
use orion_os.Base.{
  ℕ, suc, ◌+◌, ◌-◌, ◌%◌, ◌<◌, ◌≡◌, refl, sym, ap, ◌∙◌, Bool, Option, none, some, List, [], ◌∷◌,
  ◌++◌, arith, ◌==◌, ◌!=◌, if◌then◌else◌, length, length-set, set, get_or, Bool-cases, inl, inr,
}
use orion_os.Base.Window.{window, length-window, window-set_end}
use orion_os.Syscall.Gui.{
  GuiMsg, no_msg, Gui, gui_queue_push, gui_queue_pop, gui_send, gui_recv, accepted,
}

abbrev pub count : Gui → ℕ
count g = (g.gui_queue_head + 64 - g.gui_queue_tail) % 64

-- The messages between `gui_queue_tail` and `gui_queue_head`, oldest first.
abbrev pub contents : Gui → List GuiMsg
contents g = window no_msg g.gui_queue g.gui_queue_tail (count g)

pub record IsValid (g : Gui) : Type 0 where
  pub slots : length g.gui_queue ≡ 64
  pub head_in : g.gui_queue_head < 64
  pub tail_in : g.gui_queue_tail < 64

-- What a send and a receive do to the queue of a server that is bound.
unfoldable pub send : GuiMsg → List GuiMsg → ℕ × List GuiMsg
send msg q = if length q == 63 then (0, q) else (1, q ++ (msg ∷ []))

unfoldable pub recv : List GuiMsg → Option GuiMsg × List GuiMsg
recv [] = (none, [])
recv (m ∷ q) = (some m, q)

gui_queue_push_refines :
    (msg : GuiMsg) {g : Gui}
    → IsValid g
    → let (ok, g') = gui_queue_push msg g in
      ((accepted ok, contents g') ≡ send msg (contents g))
      × IsValid g'
      × (g'.gui_server_pid ≡ g.gui_server_pid)
unfolding gui_queue_push send
gui_queue_push_refines msg {g} v =
    let head_in = v.head_in in
    let tail_in = v.tail_in in
    let next = (g.gui_queue_head + 1) % 64 in
    elim (Bool-cases (next == g.gui_queue_tail)) [
      | inl full ↦
          let n : count g ≡ 63 = ground arith in
          rw full (
            ground (arith, n, length-window no_msg g.gui_queue g.gui_queue_tail (count g)),
            v,
            refl,
          )
      | inr room ↦
          let items = set g.gui_queue g.gui_queue_head msg in
          let fits : count g < 63 = ground arith in
          let n : (next + 64 - g.gui_queue_tail) % 64 ≡ suc (count g) = ground arith in
          let more : window no_msg items g.gui_queue_tail ((next + 64 - g.gui_queue_tail) % 64)
              ≡ contents g ++ (msg ∷ []) =
            rw n (
              window-set_end no_msg g.gui_queue msg (count g) g.gui_queue_tail g.gui_queue_head
                v.slots tail_in (omega arith) (omega arith)) in
          rw room (
            ground (arith, more, length-window no_msg g.gui_queue g.gui_queue_tail (count g)),
            record {
              slots = length-set g.gui_queue g.gui_queue_head msg ∙ v.slots;
              head_in = omega arith;
              tail_in = tail_in;
            },
            refl,
          )
    ]

-- A message that is not accepted changes nothing.
gui_queue_push-full :
    (msg : GuiMsg) (g : Gui) → let (ok, g') = gui_queue_push msg g in accepted ok ≡ 0 → g' ≡ g
unfolding gui_queue_push
gui_queue_push-full msg g = elim (Bool-cases ((g.gui_queue_head + 1) % 64 == g.gui_queue_tail)) [
  | inl full ↦ rw full (λ z. refl)
  | inr room ↦ rw room (λ z. absurd (omega arith))
]

gui_queue_pop_refines :
    {g : Gui}
    → IsValid g
    → let (msg, g') = gui_queue_pop g in
      ((msg, contents g') ≡ recv (contents g)) × IsValid g' × (g'.gui_server_pid ≡ g.gui_server_pid)
unfolding gui_queue_pop recv
gui_queue_pop_refines {g} v =
    let head_in = v.head_in in
    let tail_in = v.tail_in in
    elim (Bool-cases (g.gui_queue_head == g.gui_queue_tail)) [
      | inl empty ↦ let n : count g ≡ 0 = ground arith in rw empty (rw n refl, v, refl)
      | inr more ↦
          let next = (g.gui_queue_tail + 1) % 64 in
          let n : suc ((g.gui_queue_head + 64 - next) % 64) ≡ count g = ground arith in
          let split : contents g
              ≡ get_or g.gui_queue g.gui_queue_tail no_msg
                ∷ window no_msg g.gui_queue next ((g.gui_queue_head + 64 - next) % 64) =
            ap (window no_msg g.gui_queue g.gui_queue_tail) (sym n) in
          rw more (
            rw split refl,
            record { slots = v.slots; head_in = head_in; tail_in = omega arith },
            refl,
          )
    ]

-- On a valid ring gui_send queues the message, marked with the sender's pid, behind the others where
-- a server is bound, the buffer can be read and fewer than 63 messages wait, and answers 1;
-- otherwise it answers 0 and leaves the whole state as it was. It never changes the server's pid.
pub gui_send_refines :
    (readable : Bool) (pid : ℕ) (msg : GuiMsg) {g : Gui}
    → IsValid g
    → let (eax, g') = gui_send readable pid msg g in
      ((eax, contents g') ≡ (
        if g.gui_server_pid == 0
        then (0, contents g)
        else if readable
        then send (record msg { sender_pid = pid }) (contents g)
        else (0, contents g)))
      × IsValid g'
      × (g'.gui_server_pid ≡ g.gui_server_pid)
      × (eax ≡ 0 → g' ≡ g)
unfolding gui_send
gui_send_refines readable pid msg {g} v = elim (Bool-cases (g.gui_server_pid == 0)) [
  | inl unbound ↦ rw unbound (refl, v, refl, λ z. refl)
  | inr bound ↦ elim (Bool-cases readable) [
    | inl can ↦
        let (same, v', server) = gui_queue_push_refines (record msg { sender_pid = pid }) v in
        rw (bound, can) (same, v', server, gui_queue_push-full (record msg { sender_pid = pid }) g)
    | inr cannot ↦ rw (bound, cannot) (refl, v, refl, λ z. refl)
  ]
]

-- On a valid ring gui_recv gives the oldest message to the server that is bound and to no other
-- process, and takes it from the queue; it gives none where the queue is empty or the buffer cannot
-- be written.
pub gui_recv_refines :
    (writable : Bool) (pid : ℕ) {g : Gui}
    → IsValid g
    → let (msg, g') = gui_recv writable pid g in
      ((msg, contents g') ≡ (
        if pid != g.gui_server_pid
        then (none, contents g)
        else if writable
        then recv (contents g)
        else (none, contents g)))
      × IsValid g'
unfolding gui_recv
gui_recv_refines writable pid {g} v = elim (Bool-cases (pid != g.gui_server_pid)) [
  | inl other ↦ rw other (refl, v)
  | inr server ↦ elim (Bool-cases writable) [
    | inl can ↦ let (same, v', kept) = gui_queue_pop_refines v in rw (server, can) (same, v')
    | inr cannot ↦ rw (server, cannot) (refl, v)
  ]
]
