-- ===== src/Fsverity/Height.antt =====
-- The height of fsverity/common.rs is enough: so many times rounding up to pages of 128 leaves one.
use native.Mathlib.Nat.{two-pow-succ}
use android_packages_modules.Common.{
  ℕ, zero, suc, ◌+◌, ◌-◌, ◌*◌, ◌/◌, ◌^◌, ◌≤◌, ◌<◌, ◌≡◌, refl, ap, ◌∙◌, inl, inr, some, arith, ◌==◌,
  Bool-cases, tests, false,
}
use android_packages_modules.Chunks.{u64_mod, chunk_size, divide_roundup}
use android_packages_modules.Chunks.Cuts.{divide_roundup_lem}
use android_packages_modules.Fsverity.{bit_length, leading_zeros, log128_ceil, merkle_tree_height}

shift_right : ℕ → ℕ → ℕ
shift_right zero x = x
shift_right (suc k) x = shift_right k (x / 2)

-- Pages of 128 that hold `n` hashes.
abbrev pub pages : ℕ → ℕ
pages n = (n + 127) / 128

unfoldable pub pages_iter : ℕ → ℕ → ℕ
pages_iter zero n = n
pages_iter (suc k) n = pages_iter k (pages n)

shift_right-zero : (k : ℕ) → shift_right k 0 ≡ 0
unfolding shift_right
shift_right-zero zero = refl
shift_right-zero (suc k) = shift_right-zero k

shift_right_all : (k x : ℕ) → x < 2 ^ k → shift_right k x ≡ 0
unfolding shift_right
shift_right_all zero x h = omega arith
shift_right_all (suc k) x h = shift_right_all k (x / 2) (omega (arith, two-pow-succ k))

-- A number has no bit above its length.
shift_right-bit_length :
    (fuel k x : ℕ) → shift_right fuel x ≡ 0 → bit_length fuel x ≤ k → shift_right k x ≡ 0
unfolding shift_right bit_length
shift_right-bit_length zero k x e h = rw e (shift_right-zero k)
shift_right-bit_length (suc fuel) zero x e h = ground arith
shift_right-bit_length (suc fuel) (suc k) x e h = elim (Bool-cases (x == 0)) [
  | inl nil ↦ let e' : x / 2 ≡ 0 = omega tests in rw e' (shift_right-zero k)
  | inr more ↦ shift_right-bit_length fuel k (x / 2) e (ground arith)
]

sevens : ℕ → ℕ
sevens zero = 0
sevens (suc k) = suc (suc (suc (suc (suc (suc (suc (sevens k)))))))

sevens_lem : (k : ℕ) → sevens k ≡ 7 * k
unfolding sevens
sevens_lem zero = refl
sevens_lem (suc k) = omega (arith, sevens_lem k)

pages_iter-suc : (k x : ℕ) → pages_iter k (suc x) ≡ suc (shift_right (sevens k) x)
unfolding pages_iter shift_right sevens
pages_iter-suc zero x = refl
pages_iter-suc (suc k) x =
    let e : pages (suc x) ≡ suc (x / 128) = omega arith in
    let f : x / 2 / 2 / 2 / 2 / 2 / 2 / 2 ≡ x / 128 = omega arith in
    rw (e, ← f) (pages_iter-suc k (x / 2 / 2 / 2 / 2 / 2 / 2 / 2))

bit_length-le : (fuel x : ℕ) → bit_length fuel x ≤ fuel
unfolding bit_length
bit_length-le zero x = omega arith
bit_length-le (suc fuel) x = ground (arith, bit_length-le fuel (x / 2))

leading_zeros_bits : (x : ℕ) → 64 - leading_zeros x ≡ bit_length 64 x
unfolding leading_zeros
leading_zeros_bits x = omega (arith, bit_length-le 64 x)

abbrev levels : ℕ → ℕ
levels x = (bit_length 64 x + 6) / 7

log128_ceil-suc : (x : ℕ) → log128_ceil (suc x) ≡ some (levels x)
unfolding log128_ceil
log128_ceil-suc x =
    let e : suc x - 1 ≡ x = omega arith in
    let z : (suc x == 0) ≡ false = ground arith in
    let d : divide_roundup (bit_length 64 x) 7 ≡ levels x =
      divide_roundup_lem (bit_length 64 x) 7 (omega arith) (omega (arith, bit_length-le 64 x))
      ∙ omega arith in
    rw (z, e, leading_zeros_bits x, d)

pages_iter-levels : (x : ℕ) → x < u64_mod → pages_iter (levels x) (suc x) ≡ 1
pages_iter-levels x h =
    pages_iter-suc (levels x) x
    ∙ ap suc (
        shift_right-bit_length 64 (sevens (levels x)) x (shift_right_all 64 x h)
          (omega (arith, sevens_lem (levels x))))

shift_right-pos : (fuel k x : ℕ) → k < bit_length fuel x → 0 < shift_right k x
unfolding shift_right bit_length
shift_right-pos zero k x h = absurd (omega arith)
shift_right-pos (suc fuel) zero x h = ground arith
shift_right-pos (suc fuel) (suc k) x h = shift_right-pos fuel k (x / 2) (ground arith)

-- The number of levels is the least one.
pages_iter-below : (x j : ℕ) → j < levels x → 1 < pages_iter j (suc x)
pages_iter-below x j h =
    omega (arith, pages_iter-suc j x, shift_right-pos 64 (sevens j) x (omega (arith, sevens_lem j)))

-- The height of a file of `n` chunks: so many times rounding up to pages, after the first time,
-- leaves one page, and no fewer times do.
pub merkle_tree_height_lem :
    (n : ℕ)
    → 0 < n
    → n * chunk_size < 2 ^ 63
    → (level : ℕ) × (merkle_tree_height (n * chunk_size) ≡ some level)
      × (pages_iter level (pages n) ≡ 1)
      × ((j : ℕ) → j < level → 1 < pages_iter j (pages n))
unfolding merkle_tree_height
merkle_tree_height_lem n p h =
    let x = pages n - 1 in
    let e : divide_roundup (n * chunk_size) (4096 / 32 * 4096) ≡ suc x =
      divide_roundup_lem (n * chunk_size) (4096 / 32 * 4096) (omega arith) (omega arith)
      ∙ omega arith in
    let f : pages n ≡ suc x = omega arith in
    (
      levels x,
      ap log128_ceil e ∙ log128_ceil-suc x,
      ap (pages_iter (levels x)) f ∙ pages_iter-levels x (omega arith),
      λ j below. omega (arith, ap (pages_iter j) f, pages_iter-below x j below),
    )
