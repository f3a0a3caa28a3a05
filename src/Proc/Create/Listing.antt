-- ===== src/Proc/Create/Listing.antt =====
-- proc_list: the processes in use, in the order of the table.
use orion_os.Base.{
  ℕ, zero, suc, ◌≡◌, refl, ap, List, [], ◌∷◌, if◌then◌else◌, take, map, Bool-cases, inl, inr,
}
use orion_os.Proc.{Process, is_free}
use orion_os.Proc.Create.{proc_info, proc_list}

-- The processes that are neither unused nor exited.
pub in_use : List Process → List Process
in_use [] = []
in_use (p ∷ ps) = let rest = in_use ps in if is_free p then rest else p ∷ rest

-- proc_list writes the first `max` of the processes in use, one entry each, in their order, and
-- leaves none out.
pub proc_list_lem :
    (ps : List Process) (max : ℕ) → proc_list ps max ≡ take max (map proc_info (in_use ps))
unfolding proc_list in_use
proc_list_lem ps zero = refl
proc_list_lem [] (suc max) = refl
proc_list_lem (p ∷ ps) (suc max) = elim (Bool-cases (is_free p)) [
  | inl gone ↦ rw gone (proc_list_lem ps (suc max))
  | inr used ↦ rw used (ap (◌∷◌ (proc_info p)) (proc_list_lem ps max))
]
