-- ===== src/Log/Boot.antt =====
-- The boot log holds the first characters that were added while it was enabled.
use orion_os.Base.{
  ℕ, zero, suc, ◌+◌, ◌-◌, ◌≤◌, ◌<◌, ◌≡◌, ◌≢◌, refl, ap, subst, ◌∙◌, true, false, some, List, [],
  ◌∷◌, ◌++◌, arith, ltb, set, take, length, length-set, length-append, append_assoc, append-nil,
  Bool-cases, inl, inr,
}
use orion_os.Log.{
  Klog, Bootlog, log_buf_size, bootlog_put_all, bootlog_end, bootlog_add, bootlog_get,
  bootlog_clear, c_string, klog_add,
}

-- No character of a C string is NUL.
abbrev pub IsText : List ℕ → Type 0
IsText [] = Unit {0}
IsText (c ∷ s) = (c ≢ 0) × IsText s

-- The buffer starts with the text `t`, and the index is the length of it.
pub record Begins (t : List ℕ) (b : Bootlog) : Type 0 where
  pub size : length b.bootlog_buf ≡ log_buf_size
  pub index : b.bootlog_index ≡ length t
  pub fits : length t ≤ log_buf_size - 1
  pub starts : take (length t) b.bootlog_buf ≡ t

-- `s` up to the room that a text of length `n` leaves.
abbrev pub kept : ℕ → List ℕ → List ℕ
kept n s = take (log_buf_size - 1 - n) s

take-set_end :
    (b : List ℕ) (t : List ℕ) (c : ℕ)
    → length t < length b
    → take (length t) b ≡ t
    → take (suc (length t)) (set b (length t) c) ≡ t ++ (c ∷ [])
take-set_end [] t c h e = absurd (omega arith)
take-set_end (x ∷ b) [] c h e = refl
take-set_end (x ∷ b) (y ∷ t) c h e = ground (arith, take-set_end b t c (omega arith))

take-nil : (n : ℕ) → take {A = ℕ} n [] ≡ []
take-nil zero = refl
take-nil (suc n) = refl

take-length_add : (t : List ℕ) (c : ℕ) → length (t ++ (c ∷ [])) ≡ suc (length t)
take-length_add t c = omega (arith, length-append t (c ∷ []))

bootlog_put_all-Begins :
    (s t : List ℕ) {b : Bootlog}
    → Begins t b
    → Begins (t ++ kept (length t) s) (bootlog_put_all s b)
unfolding bootlog_put_all
bootlog_put_all-Begins [] t {b} v = rw (take-nil, append-nil) v
bootlog_put_all-Begins (c ∷ s) t {b} v =
    elim (Bool-cases (ltb b.bootlog_index (log_buf_size - 1))) [
      | inl room ↦
          let lt : length t < log_buf_size - 1 = ground (arith, v.index) in
          let b' : Bootlog = record b {
            bootlog_buf = set b.bootlog_buf b.bootlog_index c;
            bootlog_index = b.bootlog_index + 1;
          } in
          let one_more : Begins (t ++ (c ∷ [])) b' = record {
            size = length-set b.bootlog_buf b.bootlog_index c ∙ v.size;
            index = omega (arith, v.index, take-length_add t c);
            fits = omega (arith, take-length_add t c);
            starts =
                rw (take-length_add t c, v.index)
                  (take-set_end b.bootlog_buf t c (omega (arith, v.size)) v.starts);
          } in
          let left : log_buf_size - 1 - length t ≡ suc (log_buf_size - 1 - length (t ++ (c ∷ []))) =
            omega (arith, take-length_add t c) in
          rw (room, left)
            (subst (λ x. Begins x (bootlog_put_all s b'))
              (append_assoc t (c ∷ []) (kept (length (t ++ (c ∷ []))) s))
              (bootlog_put_all-Begins s (t ++ (c ∷ [])) one_more))
      | inr full ↦
          let none_left : log_buf_size - 1 - length t ≡ 0 = ground (arith, v.index) in
          rw (full, none_left, append-nil) v
    ]

bootlog_enabled-put_all :
    (s : List ℕ) (b : Bootlog) → (bootlog_put_all s b).bootlog_enabled ≡ b.bootlog_enabled
unfolding bootlog_put_all
bootlog_enabled-put_all [] b = refl
bootlog_enabled-put_all (c ∷ s) b =
    let b' : Bootlog = record b {
      bootlog_buf = set b.bootlog_buf b.bootlog_index c;
      bootlog_index = b.bootlog_index + 1;
    } in
    ground (arith, bootlog_enabled-put_all s b')

IsText-append : (s t : List ℕ) → IsText s → IsText t → IsText (s ++ t)
IsText-append [] t h k = k
IsText-append (c ∷ s) t h k = (h.0, IsText-append s t h.1 k)

IsText-take : (n : ℕ) (s : List ℕ) → IsText s → IsText (take n s)
IsText-take zero s h = tt
IsText-take (suc n) [] h = tt
IsText-take (suc n) (c ∷ s) h = (h.0, IsText-take n s h.1)

-- A text, then a NUL, reads back as that text.
c_string-ended :
    (b t : List ℕ)
    → length t < length b
    → take (length t) b ≡ t
    → IsText t
    → c_string (set b (length t) 0) ≡ t
unfolding c_string
c_string-ended [] t h e ok = absurd (omega arith)
c_string-ended (x ∷ b) [] h e ok = refl
c_string-ended (x ∷ b) (y ∷ t) h e ok = ground (arith, c_string-ended b t (omega arith), ok.0, ok.1)

take-set_past : (b : List ℕ) (n c : ℕ) → take n (set b n c) ≡ take n b
take-set_past [] n c = refl
take-set_past (x ∷ b) zero c = refl
take-set_past (x ∷ b) (suc n) c = ap (◌∷◌ x) (take-set_past b n c)

-- A text that is ended by its NUL.
pub record Shows (t : List ℕ) (b : Bootlog) : Type 0 where
  pub begins : Begins t b
  pub shown : bootlog_get b ≡ t

bootlog_end-Shows : (t : List ℕ) {b : Bootlog} → Begins t b → IsText t → Shows t (bootlog_end b)
unfolding bootlog_end bootlog_get
bootlog_end-Shows t {b} v ok = record {
  begins = record {
    size = length-set b.bootlog_buf b.bootlog_index 0 ∙ v.size;
    index = v.index;
    fits = v.fits;
    starts = rw v.index (take-set_past b.bootlog_buf (length t) 0 ∙ v.starts);
  };
  shown = rw v.index (c_string-ended b.bootlog_buf t (omega (arith, v.size, v.fits)) v.starts ok);
}

-- Adding a string to an enabled boot log that shows `t` makes it show `t` and as much of the string
-- as fits 8191 characters in all; a disabled log is left as it was. The kernel log gets the whole
-- string either way.
pub bootlog_add-Shows :
    (s t : List ℕ) {b : Bootlog} (l : Klog)
    → Shows t b
    → IsText t
    → IsText s
    → let (b', l') = bootlog_add (some s) (b, l) in
      (b.bootlog_enabled ≡ true → Shows (t ++ kept (length t) s) b')
      × (b.bootlog_enabled ≡ false → b' ≡ b)
      × (l' ≡ klog_add (some s) l)
unfolding bootlog_add
bootlog_add-Shows s t {b} l v okt oks = (
  (λ on. simp on (
      bootlog_end-Shows (t ++ kept (length t) s) (bootlog_put_all-Begins s t v.begins)
        (IsText-append t _ okt (IsText-take _ s oks)))),
  (λ off. simp off),
  refl,
)

-- A cleared boot log shows the empty text.
pub bootlog_clear-Shows :
    (b : Bootlog) → length b.bootlog_buf ≡ log_buf_size → Shows [] (bootlog_clear b)
unfolding bootlog_clear bootlog_get
bootlog_clear-Shows b size = record {
  begins = record {
    size = length-set b.bootlog_buf 0 0 ∙ size;
    index = refl;
    fits = omega arith;
    starts = refl;
  };
  shown = c_string-ended b.bootlog_buf [] (omega (arith, size)) refl tt;
}
