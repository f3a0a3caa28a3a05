-- ===== src/Log/Ring.antt =====
-- The kernel log holds the last characters of its history.
use orion_os.Base.{
  ℕ, ◌+◌, ◌-◌, ◌%◌, ◌≤◌, ◌<◌, ◌≡◌, ◌≢◌, refl, sym, ap, subst, ◌∙◌, true, Option, none, some, List,
  [], ◌∷◌, ◌++◌, arith, ltb, ◌==◌, if◌then◌else◌, take, drop, get_or, length, length-set,
  length-append, length-take, length-drop, get_or-set_self, get_or-set_ne, get_or-ext, get_or-take,
  get_or-drop, get_or-append_left, get_or-append_right, append_assoc, append-nil, min, Bool-cases,
  inl, inr,
}
use orion_os.Log.{Klog, klog_buf_size, klog_put, klog_put_all, klog_add, klog_get, klog_clear}

-- The ring after the characters `h` were added to a cleared log.
pub record Holds (h : List ℕ) (l : Klog) : Type 0 where
  pub size : length l.klog_buf ≡ klog_buf_size
  pub count : l.klog_count ≡ min klog_buf_size (length h)
  pub head : l.klog_head ≡ length h % klog_buf_size
  pub last :
      (j : ℕ)
      → j < length h
      → length h ≤ j + klog_buf_size
      → get_or l.klog_buf (j % klog_buf_size) 0 ≡ get_or h j 0

get_or-snoc : (h : List ℕ) (c : ℕ) → get_or (h ++ (c ∷ [])) (length h) 0 ≡ c
get_or-snoc [] c = refl
get_or-snoc (x ∷ h) c = get_or-snoc h c

klog_put-Holds : (h : List ℕ) (c : ℕ) {l : Klog} → Holds h l → Holds (h ++ (c ∷ [])) (klog_put c l)
unfolding klog_put
klog_put-Holds h c {l} v = record {
  size = length-set l.klog_buf l.klog_head c ∙ v.size;
  count = ground (arith, v.count, length-append h (c ∷ []));
  head = ground (arith, v.head, length-append h (c ∷ []));
  last = λ j hj near. elim (Bool-cases (j == length h)) [
    | inl e ↦
        let same : j ≡ length h = ground arith in
        let here : j % klog_buf_size ≡ l.klog_head = omega (arith, v.head) in
        rw (here, same, get_or-snoc h c)
          (get_or-set_self l.klog_buf l.klog_head c 0 (omega (arith, v.size, v.head)))
    | inr e ↦
        let old : j < length h = ground (arith, length-append h (c ∷ [])) in
        let apart : l.klog_head ≢ j % klog_buf_size =
          omega (arith, v.head, length-append h (c ∷ [])) in
        get_or-set_ne l.klog_buf l.klog_head (j % klog_buf_size) c 0 apart
        ∙ v.last j old (omega (arith, length-append h (c ∷ [])))
        ∙ sym (get_or-append_left h (c ∷ []) j 0 old)
  ];
}

klog_put_all-Holds : (s h : List ℕ) {l : Klog} → Holds h l → Holds (h ++ s) (klog_put_all s l)
unfolding klog_put_all
klog_put_all-Holds [] h {l} v = rw append-nil v
klog_put_all-Holds (c ∷ s) h {l} v =
    subst (λ t. Holds t (klog_put_all s (klog_put c l))) (append_assoc h (c ∷ []) s)
      (klog_put_all-Holds s (h ++ (c ∷ [])) (klog_put-Holds h c v))

abbrev pub text : Option (List ℕ) → List ℕ
text none = []
text (some s) = s

-- Adding a string to a log that holds a history leaves it holding the history and that string; a
-- null string adds nothing.
pub klog_add-Holds :
    (s : Option (List ℕ)) (h : List ℕ) {l : Klog} → Holds h l → Holds (h ++ text s) (klog_add s l)
unfolding klog_add
klog_add-Holds none h v = rw append-nil v
klog_add-Holds (some s) h v = klog_put_all-Holds s h v

-- A cleared log, and the log at startup, hold the empty history.
pub klog_clear-Holds : (l : Klog) → length l.klog_buf ≡ klog_buf_size → Holds [] (klog_clear l)
unfolding klog_clear
klog_clear-Holds l size = record {
  size = length-set l.klog_buf 0 0 ∙ size;
  count = refl;
  head = refl;
  last = λ j h near. absurd (omega arith);
}

-- What a full ring is copied out as: its entries from `head` on, then those before it.
get_or-unrolled :
    (b : List ℕ) (head i : ℕ)
    → head ≤ length b
    → i < length b
    → get_or (drop head b ++ take head b) i 0
      ≡ get_or b (if ltb i (length b - head) then head + i else i + head - length b) 0
get_or-unrolled b head i h hi = elim (Bool-cases (ltb i (length b - head))) [
  | inl first ↦ rw first (
      get_or-append_left (drop head b) (take head b) i 0 (ground (arith, length-drop head b))
      ∙ get_or-drop head b i 0)
  | inr second ↦
      let k : ℕ = i + head - length b in
      let at_k : i ≡ length (drop head b) + k = ground (arith, length-drop head b) in
      rw second (
        ap (λ (x : ℕ). get_or (drop head b ++ take head b) x 0) at_k
        ∙ get_or-append_right (drop head b) (take head b) k 0
        ∙ get_or-take head b k 0 (ground arith))
]

klog_get-partial :
    (l : Klog) → ltb l.klog_count klog_buf_size ≡ true → klog_get l ≡ take l.klog_count l.klog_buf
unfolding klog_get
klog_get-partial l partial = elim (Bool-cases (l.klog_count == 0)) [
  | inl e ↦ let none_yet : l.klog_count ≡ 0 = ground arith in rw none_yet refl
  | inr e ↦ rw (e, partial)
]

klog_get-whole :
    (l : Klog)
    → l.klog_count ≡ klog_buf_size
    → klog_get l ≡ drop l.klog_head l.klog_buf ++ take l.klog_head l.klog_buf
unfolding klog_get
klog_get-whole l full = rw full refl

-- What the log gives back is the last 16384 characters of its history, all of a shorter one.
pub klog_get-Holds :
    (h : List ℕ) {l : Klog} → Holds h l → klog_get l ≡ drop (length h - klog_buf_size) h
klog_get-Holds h {l} v = elim (Bool-cases (ltb l.klog_count klog_buf_size)) [
  | inl partial ↦
      let few : length h < klog_buf_size = ground (arith, v.count) in
      let all : length h - klog_buf_size ≡ 0 = omega arith in
      let counted : l.klog_count ≡ length h = omega (arith, v.count) in
      klog_get-partial l partial
      ∙ rw (all, counted)
          (get_or-ext (take (length h) l.klog_buf) h 0
            (omega (arith, length-take (length h) l.klog_buf, v.size))
            (λ i hi.
              let i_in : i < length h = omega (arith, length-take (length h) l.klog_buf) in
              let itself : i % klog_buf_size ≡ i = omega arith in
              get_or-take (length h) l.klog_buf i 0 i_in
              ∙ ap (λ (x : ℕ). get_or l.klog_buf x 0) (sym itself)
              ∙ v.last i i_in (omega arith)))
  | inr whole ↦
      let many : klog_buf_size ≤ length h = ground (arith, v.count) in
      let shift : ℕ = length h - klog_buf_size in
      klog_get-whole l (omega (arith, v.count))
      ∙ get_or-ext (drop l.klog_head l.klog_buf ++ take l.klog_head l.klog_buf) (drop shift h) 0
          (omega (
            arith,
            v.size,
            v.head,
            length-append (drop l.klog_head l.klog_buf) (take l.klog_head l.klog_buf),
            length-take l.klog_head l.klog_buf,
            length-drop l.klog_head l.klog_buf,
            length-drop shift h,
          ))
          (λ i hi.
            let i_in : i < klog_buf_size = omega (
              arith,
              v.size,
              v.head,
              length-append (drop l.klog_head l.klog_buf) (take l.klog_head l.klog_buf),
              length-take l.klog_head l.klog_buf,
              length-drop l.klog_head l.klog_buf,
            ) in
            let place : (if ltb i (length l.klog_buf - l.klog_head)
                  then l.klog_head + i
                  else i + l.klog_head - length l.klog_buf)
                ≡ (shift + i) % klog_buf_size =
              ground (arith, v.size, v.head) in
            get_or-unrolled l.klog_buf l.klog_head i (omega (arith, v.size, v.head))
              (omega (arith, v.size))
            ∙ ap (λ (x : ℕ). get_or l.klog_buf x 0) place
            ∙ v.last (shift + i) (omega arith) (omega arith)
            ∙ sym (get_or-drop shift h i 0))
]
