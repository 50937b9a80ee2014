-- ===== src/Chunks/Cuts.antt =====
-- The chunk iterator of authfs/src/common.rs ends, and cuts its range at chunk boundaries.
use native.Mathlib.Nat.{mod-lt, mod-add-mod, mod_self}
use android_packages_modules.Common.{
  ℕ, zero, suc, ◌+◌, ◌-◌, ◌/◌, ◌%◌, ◌≤◌, ◌<◌, ◌≡◌, ◌≢◌, refl, sym, ap, ◌∙◌, inl, inr, ◌⊎◌, some,
  List, [], ◌∷◌, arith, ◌==◌, Bool-cases, false, min, leb, tests,
}
use android_packages_modules.Chunks.{u64_mod, divide_roundup, ChunkedSizeIter, new, collect, items}

-- Without overflow, the least number of pieces of size `d` that hold `n`.
pub divide_roundup_lem : (n d : ℕ) → 0 < d → n + d < u64_mod → divide_roundup n d ≡ (n + d - 1) / d
unfolding divide_roundup
divide_roundup_lem n d p h =
    let e : ((n + d) % u64_mod + (u64_mod - 1)) % u64_mod ≡ n + d - 1 = omega arith in
    ap (λ t. t / d) e

-- The items tile the `remaining` bytes from `offset`, in order; each is not empty, lies in one
-- chunk, and ends at the chunk's end unless it is the last.
abbrev pub Cuts : ℕ → ℕ → ℕ → List (ℕ × ℕ) → Type 0
Cuts alignment offset remaining [] = remaining ≡ 0
Cuts alignment offset remaining ((start, size) ∷ rest) =
    (start ≡ offset)
    × (0 < size)
    × (size ≤ remaining)
    × (offset % alignment + size ≤ alignment)
    × ((size ≡ remaining) ⊎ ((offset + size) % alignment ≡ 0))
    × Cuts alignment (offset + size) (remaining - size) rest

to_boundary : (o a n : ℕ) → 0 < a → o % a + n ≡ a → (o + n) % a ≡ 0
to_boundary o a n p e = sym (mod-add-mod o a n) ∙ (ap (λ t. t % a) e ∙ mod_self a)

size_of_facts :
    (r o a : ℕ)
    → 0 < a
    → r ≢ 0
    → let n = min r (a - o % a) in
      (0 < n) × (n ≤ r) × (o % a + n ≤ a) × ((n ≡ r) ⊎ ((o + n) % a ≡ 0))
size_of_facts r o a p h = elim (Bool-cases (leb r (a - o % a))) [
  | inl fits ↦ (
    omega (arith, mod-lt o {m = a}),
    omega arith,
    omega (tests, mod-lt o {m = a}),
    inl (omega tests),
  )
  | inr spills ↦ (
    omega (arith, mod-lt o {m = a}),
    omega arith,
    omega (tests, mod-lt o {m = a}),
    inr (to_boundary o a _ p (omega (tests, mod-lt o {m = a}))),
  )
]

collect_step :
    (fuel : ℕ) (it : ChunkedSizeIter) (n : ℕ) (xs : List (ℕ × ℕ))
    → min it.remaining (it.alignment - it.offset % it.alignment) ≡ n
    → (it.remaining == 0) ≡ false
    → (it.offset + n) % u64_mod ≡ it.offset + n
    → collect fuel (record it { offset = it.offset + n; remaining = it.remaining - n }) ≡ some xs
    → collect (suc fuel) it ≡ some ((it.offset, n) ∷ xs)
unfolding collect
collect_step fuel it n xs en more wrap e = ground arith

collect-Cuts :
    (fuel : ℕ) (it : ChunkedSizeIter)
    → 0 < it.alignment
    → it.offset + it.remaining < u64_mod
    → it.remaining < fuel
    → (xs : List (ℕ × ℕ)) × (collect fuel it ≡ some xs)
      × Cuts it.alignment it.offset it.remaining xs
unfolding collect
collect-Cuts zero it p h f = absurd (omega arith)
collect-Cuts (suc fuel) it p h f = elim (Bool-cases (it.remaining == 0)) [
  | inl done ↦ ([], ground arith, ground arith)
  | inr more ↦
      let n = min it.remaining (it.alignment - it.offset % it.alignment) in
      let (pos, fits, inside, ends) =
        size_of_facts it.remaining it.offset it.alignment p (omega tests) in
      let wrap : (it.offset + n) % u64_mod ≡ it.offset + n = omega arith in
      let rest : ChunkedSizeIter = record it {
        offset = it.offset + n;
        remaining = it.remaining - n;
      } in
      let (xs, e, cuts) = collect-Cuts fuel rest p (omega tests) (omega tests) in
      (
        (it.offset, n) ∷ xs,
        collect_step fuel it n xs refl more wrap e,
        (refl, pos, fits, inside, ends, cuts),
      )
]

-- From any iterator over a positive alignment whose range does not pass the end of u64, the loop
-- ends, and its items tile the range at chunk boundaries.
pub items-Cuts :
    (remaining offset alignment : ℕ)
    → 0 < alignment
    → offset + remaining < u64_mod
    → (xs : List (ℕ × ℕ)) × (items (new remaining offset alignment) ≡ some xs)
      × Cuts alignment offset remaining xs
unfolding items
items-Cuts remaining offset alignment p h =
    collect-Cuts (suc remaining) (new remaining offset alignment) p h (omega arith)
