-- ===== src/Syscall.antt =====
-- kernel/syscall.c: what the kernel does with the addresses and strings that a program passes, the
-- open files (Syscall/Files) and the messages to the GUI server (Syscall/Gui).
pub mod Buffer
pub mod Text
pub mod Files
pub mod Gui
mod Tests
use Prim.Native.Nat.{bit_and}
use orion_os.Base.{
  ℕ, zero, suc, ◌+◌, ◌-◌, ◌*◌, ◌/◌, ◌%◌, ◌^◌, Bool, true, false, Option, none, some, List, [], ◌∷◌,
  ltb, ◌==◌, ◌!=◌, if◌then◌else◌, not, ◌||◌, ◌&&◌,
}
use orion_os.Pmm.{page_size}

-- `x & ~0xFFF`
abbrev pub page_of : ℕ → ℕ
page_of x = bit_and x (2 ^ 32 - 1 - 4095)

-- (uint32_t)-1
abbrev pub minus_one : ℕ
minus_one = 2 ^ 32 - 1

unfoldable pub consed : ℕ → Option (List ℕ) → Option (List ℕ)
consed c none = none
consed c (some s) = some (c ∷ s)

-- Whether vmm_virt_to_phys succeeds for an address, and the byte that the program has there.
module _ (mapped : ℕ → Bool) where
  -- The loop of validate_user_buffer; `none` where the fuel is short.
  unfoldable pub check_pages : ℕ → ℕ → ℕ → Option Bool
  check_pages zero page end_page = none
  check_pages (suc fuel) page end_page =
      let later = check_pages fuel ((page + page_size) % 2 ^ 32) end_page in
      if not (mapped page)
      then some false
      else if page == end_page
      then some true
      else if ltb ((page + page_size) % 2 ^ 32) page
      then some false
      else later

  -- The answer is whether the code returns 0. A buffer has at most `2 ^ 20` pages.
  unfoldable pub validate_user_buffer : ℕ → ℕ → Option Bool
  validate_user_buffer addr size =
      let last = (addr + size + 2 ^ 32 - 1) % 2 ^ 32 in
      if size == 0
      then some true
      else if addr == 0
      then some false
      else if ltb last addr
      then some false
      else check_pages (2 ^ 20) (page_of addr) (page_of last)

  module _ (user : ℕ → ℕ) where
    -- The loop of copy_user_string with `n` bytes left before the last; the string that `dst` holds
    -- where it returns 0.
    unfoldable pub copy_string_from : ℕ → ℕ → ℕ → Option (List ℕ)
    copy_string_from zero page addr = none
    copy_string_from (suc n) page addr =
        let later = copy_string_from n (page_of addr) ((addr + 1) % 2 ^ 32) in
        if (page_of addr != page) && not (mapped (page_of addr))
        then none
        else if user addr == 0
        then some []
        else consed (user addr) later

    unfoldable pub copy_user_string : ℕ → ℕ → Option (List ℕ)
    copy_user_string src max_len =
        if (src == 0) || (max_len == 0)
        then none
        else if not (mapped (page_of src))
        then none
        else copy_string_from (max_len - 1) (page_of src) src
