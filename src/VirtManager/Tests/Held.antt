-- ===== src/VirtManager/Tests/Held.antt =====
-- Three references that the service holds, named by their CIDs.
use android_packages_modules.Common.{ℕ, ◌≡◌, refl, ℤ, pos, some, List, [], ◌∷◌, Outcome, ok}
use android_packages_modules.VirtManager.{State, StatusCode}
use android_packages_modules.VirtManager.Held.{Dropped, debug_drop_vm, debug_drop_vm-Dropped}

abbrev get_cid : ℕ → Outcome StatusCode ℤ
get_cid vm = ok (pos vm)

abbrev holding : List ℕ → State ℕ
holding vms = record { next_cid = 13; vms = []; debug_held_vms = vms }

drop_first :
    debug_drop_vm get_cid (pos 10) (holding (10 ∷ 11 ∷ 12 ∷ [])) ≡ (some 10, holding (12 ∷ 11 ∷ []))
unfolding debug_drop_vm
drop_first = refl

debug_drop_vm-Dropped_example :
    Dropped get_cid
      (pos 11)
      (holding (10 ∷ 11 ∷ 12 ∷ []))
      (debug_drop_vm get_cid (pos 11) (holding (10 ∷ 11 ∷ 12 ∷ [])))
debug_drop_vm-Dropped_example = debug_drop_vm-Dropped get_cid (pos 11) (holding (10 ∷ 11 ∷ 12 ∷ []))
