-- ===== src/Fsverity/Verifier/Positions.antt =====
-- The numbers of fsverity/merkle_tree.rs without wrap-around, for files of up to 2 ^ 61 bytes.
use native.Mathlib.Nat.{
  div-div-eq-div-mul, add-mul-div_right, pow-le-pow_right, one-le-pow, div-le_self, pow-suc,
}
use android_packages_modules.Common.{
  ℕ, zero, suc, ◌+◌, ◌-◌, ◌*◌, ◌/◌, ◌%◌, ◌^◌, ◌≤◌, ◌<◌, ◌≡◌, refl, sym, ap, ◌∙◌, arith,
}
use android_packages_modules.Chunks.{chunk_size, u64_mod}
use android_packages_modules.Chunks.Cuts.{divide_roundup_lem}
use android_packages_modules.Fsverity.Height.{pages, pages_iter}
use android_packages_modules.Fsverity.Verifier.{level_position, split_offset}

-- The chunks of a file.
abbrev pub chunk_count : ℕ → ℕ
chunk_count file_size = (file_size + 4095) / 4096

pub pages_iter-pages : (k n : ℕ) → pages (pages_iter k n) ≡ pages_iter (suc k) n
unfolding pages_iter
pages_iter-pages zero n = refl
pages_iter-pages (suc k) n = pages_iter-pages k (pages n)

pub pages_iter-le : (k n : ℕ) → pages_iter k n ≤ n
unfolding pages_iter
pages_iter-le zero n = omega arith
pages_iter-le (suc k) n = omega (arith, pages_iter-le k (pages n))

pub pages_iter-le_pages : (k n : ℕ) → pages_iter (suc k) n ≤ pages n
unfolding pages_iter
pages_iter-le_pages k n = pages_iter-le k (pages n)

-- Rounding up to pages once more.
pages-roundup : (n d : ℕ) → 0 < d → pages ((n + d - 1) / d) ≡ (n + d * 128 - 1) / (d * 128)
pages-roundup n d p =
    let e : n + d - 1 + 127 * d ≡ n + d * 128 - 1 = omega arith in
    ap (λ t. t / 128) (sym (add-mul-div_right (n + d - 1) 127 p) ∙ ap (λ t. t / d) e)
    ∙ div-div-eq-div-mul (n + d * 128 - 1) d 128

-- The bytes of a file that a node of level `x` stands for.
abbrev node_span : ℕ → ℕ
node_span x = 4096 * 128 ^ x * 128

nodes_at_level :
    (x n : ℕ) → (n + node_span x - 1) / node_span x ≡ pages_iter (suc x) (chunk_count n)
unfolding pages_iter
nodes_at_level zero n = omega arith
nodes_at_level (suc x) n =
    let p = one-le-pow x 128 (omega arith) in
    let e : node_span (suc x) ≡ node_span x * 128 = omega (arith, pow-suc 128 x) in
    ap (λ d. (n + d - 1) / d) e
    ∙ (sym (pages-roundup n (node_span x) (omega (arith, p)))
        ∙ (ap pages (nodes_at_level x n) ∙ pages_iter-pages (suc x) (chunk_count n)))

-- The size of a level is its pages, and the hash of a chunk is found by dividing its index.
pub level_position_lem :
    (index file_size x : ℕ)
    → file_size ≤ 2 ^ 61
    → index ≤ 2 ^ 49
    → x < 7
    → level_position index file_size x
      ≡ (pages_iter (suc x) (chunk_count file_size) * chunk_size, index / 128 ^ x * 32)
unfolding level_position
level_position_lem index file_size x f i h =
    let p = one-le-pow x 128 (omega arith) in
    let q : 128 ^ x ≤ 128 ^ 6 = pow-le-pow_right (omega arith) {i = x} {j = 6} (omega arith) in
    let a : 128 ^ x % u64_mod ≡ 128 ^ x = omega (arith, q) in
    let b : 4096 * 128 ^ x % u64_mod ≡ 4096 * 128 ^ x = omega (arith, q) in
    let c : 4096 * 128 ^ x * 128 % u64_mod ≡ node_span x = omega (arith, q) in
    let d =
      divide_roundup_lem file_size (node_span x) (omega (arith, p)) (omega (arith, q))
      ∙ nodes_at_level x file_size in
    let count = chunk_count file_size in
    let e : pages_iter (suc x) count * 4096 % u64_mod ≡ pages_iter (suc x) count * 4096 =
      omega (arith, pages_iter-le (suc x) count) in
    let g : index / 128 ^ x * 32 % u64_mod ≡ index / 128 ^ x * 32 =
      omega (arith, div-le_self index (128 ^ x)) in
    rw (a, b, c, d, e, g) refl

-- Where the steps of the walk point, in chunks of the tree.
pub split_offset_lem :
    (base i : ℕ)
    → base ≤ 2 ^ 47
    → i ≤ 2 ^ 49
    → split_offset ((base * chunk_size + i * 32) % u64_mod) ≡ (base + i / 128, i % 128 * 32)
split_offset_lem base i h k =
    let a : (base * chunk_size + i * 32) % u64_mod / chunk_size ≡ base + i / 128 = omega arith in
    let b : (base * chunk_size + i * 32) % u64_mod % chunk_size ≡ i % 128 * 32 = omega arith in
    cc (a, b)
