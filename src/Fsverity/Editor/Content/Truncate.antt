-- ===== src/Fsverity/Editor/Content/Truncate.antt =====
-- The content of a file that is cut or filled up, and its chunks.
use android_packages_modules.Common.{
  ℕ, ◌+◌, ◌-◌, ◌*◌, ◌/◌, ◌%◌, ◌≤◌, ◌<◌, ◌≡◌, sym, ap, ◌∙◌, ◌++◌, arith, ltb, if◌then◌else◌, take,
  replicate, tests, Bool-cases, inl, inr,
}
use android_packages_modules.Chunks.{chunk_size}
use android_packages_modules.Fsverity.Editor.Content.{
  Content, slice, chunk_of, slice_ext, slice_zero, slice-append, take-slice,
}

-- The content of a file that is cut, or filled up with zeros, to `size` bytes.
unfoldable pub truncate : Content → ℕ → Content
truncate f size i = if ltb i size then f i else 0

pub truncate_past : (f : Content) (size i : ℕ) → size ≤ i → truncate f size i ≡ 0
unfolding truncate
truncate_past f size i h = ground arith

-- A chunk that ends within the size stays.
pub chunk_of-truncate_full :
    (f : Content) (size k : ℕ)
    → (k + 1) * chunk_size ≤ size
    → chunk_of (truncate f size) k ≡ chunk_of f k
unfolding chunk_of truncate
chunk_of-truncate_full f size k h =
    slice_ext (truncate f size) f (k * chunk_size) chunk_size (λ i lo hi. ground arith)

-- The chunk that holds the new end keeps its first bytes.
pub chunk_of-truncate_tail :
    (f : Content) (size : ℕ)
    → chunk_of (truncate f size) (size / chunk_size)
      ≡ take (size % chunk_size) (chunk_of f (size / chunk_size))
        ++ replicate (chunk_size - size % chunk_size) 0
unfolding chunk_of
chunk_of-truncate_tail f size =
    let start = size / chunk_size * chunk_size in
    let m = size % chunk_size in
    let n = chunk_size - m in
    let e : m + n ≡ chunk_size = omega arith in
    let one : slice (truncate f size) start m ≡ slice f start m =
      slice_ext (truncate f size) f start m (λ i lo hi. kept i (omega arith)) in
    let two : slice (truncate f size) (start + m) n ≡ replicate n 0 =
      slice_zero (truncate f size) (start + m) n (λ i lo. truncate_past f size i (omega arith)) in
    let t : take m (slice f start chunk_size) ≡ slice f start m =
      ap (λ c. take m (slice f start c)) (sym e) ∙ take-slice f start m n in
    ap (slice (truncate f size) start) (sym e)
    ∙ (slice-append (truncate f size) start m n ∙ cc (one, two, t))
  where
    kept : (i : ℕ) → i < size → truncate f size i ≡ f i
    kept i h = unfold truncate in ground arith

-- A content that ends before the size stays.
pub truncate_id :
    (f : Content) (old size : ℕ)
    → ((i : ℕ) → old ≤ i → f i ≡ 0)
    → old ≤ size
    → (i : ℕ) → truncate f size i ≡ f i
unfolding truncate
truncate_id f old size h le i = elim (Bool-cases (ltb i size)) [
  | inl inside ↦ ground arith
  | inr past ↦ rw past (sym (h i (omega tests)))
]
