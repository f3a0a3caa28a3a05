-- ===== src/Kheap/Stores.antt =====
-- The stores to headers of mm/mem.c, read back at one address.
use orion_os.Base.{ℕ, ◌≡◌, ◌≢◌, refl, arith, ◌==◌, ==-self, ==-ne, if◌then◌else◌}
use orion_os.Kheap.{Header, Memory, store, set_size, set_next, set_free, link_back}

module _ (m : Memory) (p : ℕ) where
  pub store_at : (v : Header) → store p v m p ≡ v
  store_at v = rw (==-self p) refl

  pub store_off : (v : Header) (k : ℕ) → k ≢ p → store p v m k ≡ m k
  store_off v k h = rw (==-ne k p h) refl

  pub link_back_off : (v k : ℕ) → k ≢ p → link_back p v m k ≡ m k
  link_back_off v k h = ground arith

  pub link_back_lem :
      (v k : ℕ) → k ≢ 0 → link_back p v m k ≡ (if k == p then record (m k) { prev = v } else m k)
  link_back_lem v k h = ground arith

-- kfree's stores to the block `b` and the block `n` behind it.
module _ (m : Memory) (b n size : ℕ) (apart : n ≢ b) where
  pub joined_at :
      link_back n b (set_next b n (set_size b size m)) b ≡ record (m b) { size = size; next = n }
  joined_at = ground arith

  pub joined_off :
      (k : ℕ) → k ≢ b → k ≢ n → link_back n b (set_next b n (set_size b size m)) k ≡ m k
  joined_off k e e' = ground arith

  pub joined_behind :
      (k : ℕ)
      → k ≢ b
      → k ≢ 0
      → link_back n b (set_next b n (set_size b size m)) k
        ≡ (if k == n then record (m k) { prev = b } else m k)
  joined_behind k e e' = ground arith

-- A new header at `c` between the block `b` and the block `n` behind it, in the order of split_block.
module _ (m : Memory) (b c n size : ℕ) (v : Header) (bc : c ≢ b) (bn : n ≢ b) (cn : n ≢ c) where
  abbrev pub parted : Memory
  parted = set_size b size (set_next b c (link_back n c (store c v m)))

  pub parted_at : parted b ≡ record (m b) { size = size; next = c }
  parted_at = ground arith

  pub parted_new : c ≢ 0 → parted c ≡ v
  parted_new h = ground arith

  pub parted_off : (k : ℕ) → k ≢ b → k ≢ c → k ≢ n → parted k ≡ m k
  parted_off k e e' e'' = ground arith

  pub parted_behind :
      (k : ℕ)
      → k ≢ b
      → k ≢ c
      → k ≢ 0
      → parted k ≡ (if k == n then record (m k) { prev = c } else m k)
  parted_behind k e e' e'' = ground arith

-- The same in the order of allocate_from_block.
module _ (m : Memory) (b c n size : ℕ) (v : Header) (bc : c ≢ b) (bn : n ≢ b) (cn : n ≢ c) where
  abbrev pub led : Memory
  led = set_next b c (link_back n c (store c v (set_free b 1 (set_size b size m))))

  pub led_at : led b ≡ record (m b) { size = size; next = c; free = 1 }
  led_at = ground arith

  pub led_new : c ≢ 0 → led c ≡ v
  led_new h = ground arith

  pub led_off : (k : ℕ) → k ≢ b → k ≢ c → k ≢ n → led k ≡ m k
  led_off k e e' e'' = ground arith

  pub led_behind :
      (k : ℕ) → k ≢ b → k ≢ c → k ≢ 0 → led k ≡ (if k == n then record (m k) { prev = c } else m k)
  led_behind k e e' e'' = ground arith
