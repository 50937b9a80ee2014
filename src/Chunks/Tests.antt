-- ===== src/Chunks/Tests.antt =====
-- Runs of the chunk iterator from the unit test of common.rs, and the theorems at inputs.
use android_packages_modules.Common.{ℕ, ◌≡◌, refl, some, List, [], ◌∷◌, arith}
use android_packages_modules.Chunks.{items, new, divide_roundup}
use android_packages_modules.Chunks.Cuts.{Cuts, items-Cuts}

items_unaligned :
    items (new 16384 1 4096)
    ≡ some ((1, 4095) ∷ (4096, 4096) ∷ (8192, 4096) ∷ (12288, 4096) ∷ (16384, 1) ∷ [])
unfolding items
items_unaligned = refl

items-Cuts_example :
    (xs : List (ℕ × ℕ)) × (items (new 16384 1 4096) ≡ some xs) × Cuts 4096 1 16384 xs
items-Cuts_example = items-Cuts 16384 1 4096 (omega arith) (omega arith)

rounded_up : divide_roundup 4097 4096 ≡ 2
unfolding divide_roundup
rounded_up = refl
