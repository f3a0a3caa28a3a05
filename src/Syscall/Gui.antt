-- ===== src/Syscall/Gui.antt =====
-- The messages to the GUI server of kernel/syscall.c: a ring of 64 slots, and the calls gui_bind,
-- gui_send and gui_recv.
pub mod Refine
use orion_os.Base.{
  ℕ, zero, suc, ◌+◌, ◌-◌, ◌%◌, ◌^◌, Bool, true, false, Option, none, some, List, [], ◌==◌, ◌!=◌,
  ◌&&◌, ◌||◌, not, if◌then◌else◌, get_or, set, fill,
}

abbrev pub gui_queue_max : ℕ
gui_queue_max = 64

-- sys_gui_msg_t; `kind` is the field `type`.
pub record GuiMsg : Type 0 where
  pub sender_pid : ℕ
  pub kind : ℕ
  pub a : ℕ
  pub b : ℕ
  pub c : ℕ
  pub text : List ℕ

-- A slot that nothing was written to.
abbrev pub no_msg : GuiMsg
no_msg = record { sender_pid = 0; kind = 0; a = 0; b = 0; c = 0; text = [] }

-- The static variables.
pub record Gui : Type 0 where
  pub gui_queue : List GuiMsg
  pub gui_queue_head : ℕ
  pub gui_queue_tail : ℕ
  pub gui_server_pid : ℕ

unfoldable pub gui_queue_push : GuiMsg → Gui → Bool × Gui
gui_queue_push msg g =
    let next = (g.gui_queue_head + 1) % gui_queue_max in
    if next == g.gui_queue_tail then (false, g) else (
      true,
      record g { gui_queue = set g.gui_queue g.gui_queue_head msg; gui_queue_head = next },
    )

unfoldable pub gui_queue_pop : Gui → Option GuiMsg × Gui
gui_queue_pop g = if g.gui_queue_head == g.gui_queue_tail then (none, g) else (
  some (get_or g.gui_queue g.gui_queue_tail no_msg),
  record g { gui_queue_tail = (g.gui_queue_tail + 1) % gui_queue_max },
)

-- Whether a process lives, and whether the message's buffer passed validate_user_buffer.
unfoldable pub gui_bind : (ℕ → Bool) → ℕ → Gui → ℕ × Gui
gui_bind alive pid g =
    if (g.gui_server_pid != 0) && ((g.gui_server_pid != pid) && alive g.gui_server_pid)
    then (0, g)
    else (1, record g { gui_server_pid = pid; gui_queue_head = 0; gui_queue_tail = 0 })

abbrev accepted : Bool → ℕ
accepted ok = if ok then 1 else 0

unfoldable pub gui_send : Bool → ℕ → GuiMsg → Gui → ℕ × Gui
gui_send readable pid msg g =
    let (ok, g') = gui_queue_push (record msg { sender_pid = pid }) g in
    if g.gui_server_pid == 0 then (0, g) else if readable then (accepted ok, g') else (0, g)

-- The message that goes to the program's buffer, `none` where eax is 0.
unfoldable pub gui_recv : Bool → ℕ → Gui → Option GuiMsg × Gui
gui_recv writable pid g =
    if pid != g.gui_server_pid then (none, g) else if writable then gui_queue_pop g else (none, g)
