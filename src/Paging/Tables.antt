-- ===== src/Paging/Tables.antt =====
-- The three ways in which map_page of mm/paging.c comes to a table.
use Prim.Native.Nat.{bit_or}
use orion_os.Base.{
  ℕ, ◌+◌, ◌*◌, ◌/◌, ◌%◌, ◌^◌, ◌<◌, ◌≡◌, refl, sym, ap, ◌∙◌, ◌≢◌, Option, none, some, arith, ◌==◌,
  ◌&&◌, if◌then◌else◌, subst, if-each,
}
use orion_os.Paging.{Vmm, put, clear, frame_of, window, new_entry, add_table}
use orion_os.Paging.Walk.{new_entry_lem, user_entry_lem, IsValid, target}
use orion_os.Paging.Ready.{Ready}

target_bit : (pde pde' pte w : ℕ) → pde % 2 ≡ pde' % 2 → target pde pte w ≡ target pde' pte w
target_bit pde pde' pte w e = λ i.
    if e i == 0
    then none
    else if pte % 2 == 0
    then none
    else some (pte / 4096 % 2 ^ 20 * 4096 + w % 4096)

-- The entry stood already, with or without a new user flag.
pub kept-Ready :
    (v : Vmm) (d : ℕ)
    → IsValid v
    → d < 1023
    → v.memory v.current d % 2 ≡ 1
    → Ready v v d (frame_of (v.memory v.current d))
kept-Ready v d ok inside present = record {
  on = ok.on;
  current = refl;
  present = present;
  frame = refl;
  entries = λ i ne. refl;
  others = λ f k a b. refl;
  table = λ i w. refl;
  own = ok.tables d inside present;
  apart = λ i hi ne there. ok.apart i d hi inside ne there present;
}

pub user-Ready :
    (v : Vmm) (d : ℕ)
    → IsValid v
    → d < 1023
    → v.memory v.current d % 2 ≡ 1
    → Ready v
        (put v.current d (bit_or (v.memory v.current d) 4) v)
        d
        (frame_of (v.memory v.current d))
user-Ready v d ok inside present =
    let old = v.memory v.current d in
    let (frame, bit) = user_entry_lem old in
    let own = ok.tables d inside present in
    let at : (if (v.current == v.current) && (d == d) then bit_or old 4 else old) ≡ bit_or old 4 =
      ground arith in
    record {
      on = ok.on;
      current = refl;
      present = ap (λ (x : ℕ). x % 2) at ∙ bit ∙ present;
      frame = ap frame_of at ∙ frame;
      entries = λ i ne. ground arith;
      others = λ f k a b. ground arith;
      table = λ i w.
          let left : v.memory (frame_of old) i
              ≡ (put v.current d (bit_or old 4) v).memory (frame_of old) i =
            ground arith in
          (λ k. target old (left k) w)
          ∙ target_bit old _ _ w (sym (ap (λ (x : ℕ). x % 2) at ∙ bit));
      own = own;
      apart = λ i hi ne there. ok.apart i d hi inside ne there present;
    }

put_at : (v : Vmm) (d e : ℕ) → (put v.current d e v).memory v.current d ≡ e
put_at v d e = ground arith

put_off :
    (v : Vmm) (d e i : ℕ) → i ≢ d → (put v.current d e v).memory v.current i ≡ v.memory v.current i
put_off v d e i ne = ground arith

put_other :
    (v : Vmm) (d e f k : ℕ) → f ≢ v.current → (put v.current d e v).memory f k ≡ v.memory f k
put_other v d e f k ne = ground arith

clear_off : (v : Vmm) (t f k : ℕ) → f ≢ t → (clear t v).memory f k ≡ v.memory f k
clear_off v t f k ne = ground arith

clear_at : (v : Vmm) (t k : ℕ) → (clear t v).memory t k ≡ 0
clear_at v t k = ground arith

none_there : (pde pte w : ℕ) → pde % 2 ≡ 0 → target pde pte w ≡ none
none_there pde pte w e = rw e refl

none_here : (pde pte w : ℕ) → pte ≡ 0 → target pde pte w ≡ none
none_here pde pte w e =
    rw e (if-each (λ (r : Option ℕ). r ≡ none) (pde % 2 == 0) (λ a. refl) (λ a. refl))

pub new-Ready :
    (v : Vmm) (d t flags : ℕ)
    → IsValid v
    → d < 1023
    → v.memory v.current d % 2 ≡ 0
    → (frame_of t ≡ t)
      × (t ≢ v.current)
      × ((i : ℕ) → i < 1023 → v.memory v.current i % 2 ≡ 1 → frame_of (v.memory v.current i) ≢ t)
    → Ready v (add_table v.current d (new_entry t flags) t v) d t
new-Ready v d t flags ok inside absent (frame, own, fresh) =
    let new = new_entry t flags in
    let (new_frame, new_bit) = new_entry_lem t flags in
    let v1 = put v.current d new v in
    let v2 = clear t v1 in
    let last : frame_of (v1.memory v.current 1023) ≡ v.current =
      ap frame_of (put_off v d new 1023 (λ e. omega arith)) ∙ ok.self in
    let at : v1.memory v.current d ≡ new = put_at v d new in
    let table : (if v.enabled then window d v1 else t) ≡ t =
      rw ok.on ((λ i. frame_of (v1.memory (last i) d)) ∙ ap frame_of at ∙ new_frame ∙ frame) in
    let entry : v2.memory v.current d ≡ new = clear_off v1 t v.current d (λ e. own (sym e)) ∙ at in
    let ready : Ready v v2 d t = record {
      on = ok.on;
      current = refl;
      present = ap (λ (x : ℕ). x % 2) entry ∙ new_bit;
      frame = ap frame_of entry ∙ new_frame ∙ frame;
      entries = λ i ne. clear_off v1 t v.current i (λ e. own (sym e)) ∙ put_off v d new i ne;
      others = λ f k a b. clear_off v1 t f k b ∙ put_other v d new f k a;
      table = λ i w.
          none_there (v.memory v.current d) (v.memory (frame_of (v.memory v.current d)) i) w absent
          ∙ sym (none_here (v2.memory v.current d) (v2.memory t i) w (clear_at v1 t i));
      own = own;
      apart = λ i hi ne there. fresh i hi there;
    } in
    subst (λ (x : Vmm). Ready v x d t) (λ i. clear (sym table i) v1) ready
