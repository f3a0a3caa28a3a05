-- ===== src/Log.antt =====
-- kernel/log.c: the boot log, which keeps the first characters, and the kernel log, a ring that
-- keeps the last ones. A C string is the list of its characters before the terminating NUL.
pub mod Ring
pub mod Boot
mod Tests
use orion_os.Base.{
  ℕ, zero, suc, ◌+◌, ◌-◌, Bool, true, false, Option, none, some, List, [], ◌∷◌, ◌++◌, ltb, leb,
  ◌==◌, if◌then◌else◌, set, take, drop, ◌&&◌,
}

abbrev pub log_buf_size : ℕ
log_buf_size = 8192

abbrev pub klog_buf_size : ℕ
klog_buf_size = 16384

pub record Klog : Type 0 where
  pub klog_buf : List ℕ
  pub klog_head : ℕ
  pub klog_count : ℕ

pub record Bootlog : Type 0 where
  pub bootlog_buf : List ℕ
  pub bootlog_index : ℕ
  pub bootlog_enabled : Bool

-- One round of the loop of klog_add.
pub klog_put : ℕ → Klog → Klog
klog_put c l =
    let head = l.klog_head + 1 in
    record {
      klog_buf = set l.klog_buf l.klog_head c;
      klog_head = if leb klog_buf_size head then 0 else head;
      klog_count = if ltb l.klog_count klog_buf_size then l.klog_count + 1 else l.klog_count;
    }

pub klog_put_all : List ℕ → Klog → Klog
klog_put_all [] l = l
klog_put_all (c ∷ s) l = klog_put_all s (klog_put c l)

-- A null pointer is `none`.
pub klog_add : Option (List ℕ) → Klog → Klog
klog_add none l = l
klog_add (some s) l = klog_put_all s l

-- The characters that klog_get copies out, before the NUL that it adds.
pub klog_get : Klog → List ℕ
klog_get l =
    if l.klog_count == 0
    then []
    else (if ltb l.klog_count klog_buf_size
        then take l.klog_count l.klog_buf
        else drop l.klog_head l.klog_buf ++ take l.klog_head l.klog_buf)

pub klog_clear : Klog → Klog
klog_clear l = record { klog_buf = set l.klog_buf 0 0; klog_head = 0; klog_count = 0 }

-- The loop of bootlog_add.
pub bootlog_put_all : List ℕ → Bootlog → Bootlog
bootlog_put_all [] b = b
bootlog_put_all (c ∷ s) b =
    let rest = bootlog_put_all s (record b {
      bootlog_buf = set b.bootlog_buf b.bootlog_index c;
      bootlog_index = b.bootlog_index + 1;
    }) in
    if ltb b.bootlog_index (log_buf_size - 1) then rest else b

-- What is left of the text in the buffer is ended by a NUL.
pub bootlog_end : Bootlog → Bootlog
bootlog_end b = record b { bootlog_buf = set b.bootlog_buf b.bootlog_index 0 }

pub bootlog_add : Option (List ℕ) → Bootlog × Klog → Bootlog × Klog
bootlog_add none (b, l) = (b, l)
bootlog_add (some s) (b, l) =
    (if b.bootlog_enabled then bootlog_end (bootlog_put_all s b) else b, klog_add (some s) l)

-- The string at a buffer's start: its characters up to the first NUL.
pub c_string : List ℕ → List ℕ
c_string [] = []
c_string (c ∷ s) = if c == 0 then [] else c ∷ c_string s

pub bootlog_get : Bootlog → List ℕ
bootlog_get b = c_string b.bootlog_buf

unfoldable pub bootlog_clear : Bootlog → Bootlog
bootlog_clear b = record b { bootlog_buf = set b.bootlog_buf 0 0; bootlog_index = 0 }
