-- ===== src/Fsverity/Verifier/Walk.antt =====
-- The walk of fsverity/merkle_tree.rs, as its caller relies on it.
use mathlib.Core.Path.{subst}
use mathlib.Core.List.{reverse}
use android_packages_modules.Common.{
  ℕ, zero, suc, ◌+◌, ◌%◌, ◌≤◌, ◌≡◌, List, arith, ok, refl, unwrap, >>=-eq-ok, assert->>=-eq-ok, not,
  ◌==◌, All, All-reverse,
}
use android_packages_modules.Chunks.{chunk_size, u64_mod}
use android_packages_modules.Crypto.{hash_size}
use android_packages_modules.Fsverity.{FsverityError, merkle_tree_height}
use android_packages_modules.Fsverity.Verifier.{
  leaves_size_per_node, level_position, root_to_leaf_steps, fsverity_walk,
}

level_position_aligned :
    (index file_size x : ℕ)
    → ((level_position index file_size x).0 % 32 ≡ 0)
      × ((level_position index file_size x).1 % 32 ≡ 0)
unfolding level_position
level_position_aligned index file_size x = (omega arith, omega arith)

sum_aligned : (a b : ℕ) → a % 32 ≡ 0 → b % 32 ≡ 0 → (a + b) % u64_mod % 32 ≡ 0
sum_aligned a b h k = omega arith

-- The 32 bytes of the hash lie within the chunk.
fits : (a b : ℕ) → a % 32 ≡ 0 → b % 32 ≡ 0 → (a + b) % u64_mod % chunk_size + hash_size ≤ chunk_size
fits a b h k = omega arith

-- The hash that a step names lies within its chunk.
abbrev pub StepFits : ℕ × ℕ → Type 0
StepFits step = step.1 + hash_size ≤ chunk_size

root_to_leaf_steps-StepFits :
    (index file_size x level_offset : ℕ)
    → level_offset % 32 ≡ 0
    → All StepFits (root_to_leaf_steps index file_size x level_offset)
unfolding root_to_leaf_steps
root_to_leaf_steps-StepFits index file_size zero level_offset h =
    let (_, o) = level_position_aligned index file_size 0 in (fits level_offset _ h o, tt)
root_to_leaf_steps-StepFits index file_size (suc x) level_offset h =
    let (l, o) = level_position_aligned index file_size (suc x) in
    (
      fits level_offset _ h o,
      root_to_leaf_steps-StepFits index file_size x _ (sum_aligned level_offset _ h l),
    )

-- The walk for any chunk of a file names hashes that lie within their chunks: the slice that
-- `verity_check` takes of a chunk of the tree does not panic.
pub fsverity_walk-StepFits :
    (index file_size : ℕ) (steps : List (ℕ × ℕ))
    → fsverity_walk index file_size ≡ ok steps
    → All StepFits steps
unfolding fsverity_walk
fsverity_walk-StepFits index file_size steps h =
    let (level, _, d) = >>=-eq-ok (unwrap {E = FsverityError} (merkle_tree_height file_size)) _ h in
    let (_, e) = assert->>=-eq-ok (not (leaves_size_per_node level == 0)) _ d in
    let all = root_to_leaf_steps-StepFits index file_size level 0 refl in
    let same : reverse (root_to_leaf_steps index file_size level 0) ≡ steps = cc e in
    subst (All StepFits) same (All-reverse StepFits _ all)
