-- ===== src/Chunks.antt =====
-- authfs/src/common.rs: the chunk size, rounding up, and the iterator that cuts a byte range at
-- chunk boundaries. A u64 wraps at 2 ^ 64.
pub mod Cuts
mod Tests
use android_packages_modules.Common.{
  ℕ, zero, suc, ◌+◌, ◌-◌, ◌/◌, ◌%◌, ◌^◌, min, ◌≡◌, refl, Option, none, some, List, [], ◌∷◌, ◌==◌,
  if◌then◌else◌,
}

abbrev pub chunk_size : ℕ
chunk_size = 4096

abbrev pub u64_mod : ℕ
u64_mod = 2 ^ 64

-- (dividend + divisor - 1) / divisor
unfoldable pub divide_roundup : ℕ → ℕ → ℕ
divide_roundup dividend divisor =
    ((dividend + divisor) % u64_mod + (u64_mod - 1)) % u64_mod / divisor

pub record ChunkedSizeIter : Type 0 where
  pub remaining : ℕ
  pub offset : ℕ
  pub alignment : ℕ

abbrev pub new : ℕ → ℕ → ℕ → ChunkedSizeIter
new remaining offset alignment = record {
  remaining = remaining;
  offset = offset;
  alignment = alignment;
}

-- `Iterator::next`: the item, and the iterator after it.
unfoldable pub next : ChunkedSizeIter → Option ((ℕ × ℕ) × ChunkedSizeIter)
next it =
    let chunk_data_size = min it.remaining (it.alignment - it.offset % it.alignment) in
    if it.remaining == 0
    then none
    else some (
      (it.offset, chunk_data_size),
      record it {
        offset = (it.offset + chunk_data_size) % u64_mod;
        remaining = it.remaining - chunk_data_size;
      },
    )

-- The items of a `for` loop over the iterator, on fuel; `none` means that the fuel ran out.
unfoldable pub collect : ℕ → ChunkedSizeIter → Option (List (ℕ × ℕ))
unfolding next
collect zero it = none
collect (suc fuel) it = elim (next it) [
  | none ↦ some []
  | some (item, rest) ↦ elim (collect fuel rest) [ none ↦ none | some items ↦ some (item ∷ items) ]
]

-- Each item takes a byte at least, so `remaining` bounds the rounds.
unfoldable pub items : ChunkedSizeIter → Option (List (ℕ × ℕ))
unfolding collect
items it = collect (suc it.remaining) it
