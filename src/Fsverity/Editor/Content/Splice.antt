-- ===== src/Fsverity/Editor/Content/Splice.antt =====
-- Writes into the content of a file, and its chunks after them.
use android_packages_modules.Common.{
  ℕ, zero, suc, ◌+◌, ◌-◌, ◌*◌, ◌/◌, ◌%◌, ◌≤◌, ◌<◌, ◌≡◌, ◌≢◌, refl, sym, ap, ◌∙◌, List, [], ◌∷◌,
  ◌++◌, arith, ltb, if◌then◌else◌, length, take, drop, tests, Bool-cases, inl, inr, length-drop,
  length-take, max,
}
use android_packages_modules.Chunks.{chunk_size}
use android_packages_modules.Fsverity.Editor.Content.{
  Content, byte_at, slice, chunk_of, splice, slice_ext, slice-append, take-slice, drop-slice,
  slice-byte_at,
}

splice_inside :
    (f : Content) (offset : ℕ) (source : List ℕ) (i : ℕ)
    → i < length source
    → splice f offset source (offset + i) ≡ byte_at source i
unfolding splice
splice_inside f offset source i h =
    let e : offset + i - offset ≡ i = omega arith in rw e (ground arith)

pub splice_before :
    (f : Content) (offset : ℕ) (source : List ℕ) (i : ℕ)
    → i < offset
    → splice f offset source i ≡ f i
unfolding splice
splice_before f offset source i h = ground arith

pub splice_after :
    (f : Content) (offset : ℕ) (source : List ℕ) (i : ℕ)
    → offset + length source ≤ i
    → splice f offset source i ≡ f i
unfolding splice
splice_after f offset source i h = ground arith

slice-splice :
    (f : Content) (source : List ℕ) (start before after : ℕ)
    → slice (splice f (start + before) source) start (before + (length source + after))
      ≡ slice f start before ++ (source ++ slice f (start + before + length source) after)
slice-splice f source start before after =
    let g = splice f (start + before) source in
    let one : slice g start before ≡ slice f start before =
      slice_ext g f start before (λ i lo hi. splice_before f (start + before) source i hi) in
    let two : slice g (start + before) (length source) ≡ source =
      slice-byte_at g (start + before) source (splice_inside f (start + before) source) in
    let three : slice g (start + before + length source) after
        ≡ slice f (start + before + length source) after =
      slice_ext g f (start + before + length source) after
        (λ i lo hi. splice_after f (start + before) source i lo) in
    slice-append g start before (length source + after)
    ∙ cc (slice-append g (start + before) (length source) after, one, two, three)

chunk-splice :
    (f : Content) (source : List ℕ) (start before total : ℕ)
    → before + length source ≤ total
    → slice (splice f (start + before) source) start total
      ≡ take before (slice f start total)
        ++ (source ++ drop (before + length source) (slice f start total))
chunk-splice f source start before total h =
    let after = total - (before + length source) in
    let e : before + (length source + after) ≡ total = omega arith in
    let g : before + length source + after ≡ total = omega arith in
    let n : start + before + length source ≡ start + (before + length source) = omega arith in
    let t : take before (slice f start total) ≡ slice f start before =
      ap (λ m. take before (slice f start m)) (sym e)
      ∙ take-slice f start before (length source + after) in
    let d : drop (before + length source) (slice f start total)
        ≡ slice f (start + before + length source) after =
      ap (λ m. drop (before + length source) (slice f start m)) (sym g)
      ∙ (drop-slice f start (before + length source) after ∙ ap (λ m. slice f m after) (sym n)) in
    ap (slice (splice f (start + before) source) start) (sym e)
    ∙ (slice-splice f source start before after ∙ cc (t, d))

-- A write inside chunk `offset / chunk_size` replaces that part of the chunk.
pub chunk_of-splice :
    (f : Content) (offset : ℕ) (source : List ℕ)
    → offset % chunk_size + length source ≤ chunk_size
    → let old = chunk_of f (offset / chunk_size) in
      chunk_of (splice f offset source) (offset / chunk_size)
      ≡ take (offset % chunk_size) old ++ (source ++ drop (offset % chunk_size + length source) old)
unfolding chunk_of
chunk_of-splice f offset source h =
    let e : offset / chunk_size * chunk_size + offset % chunk_size ≡ offset = omega arith in
    ap (λ o. slice (splice f o source) (offset / chunk_size * chunk_size) chunk_size) (sym e)
    ∙ chunk-splice f source (offset / chunk_size * chunk_size) (offset % chunk_size) chunk_size h

-- It leaves the other chunks.
pub chunk_of-splice_ne :
    (f : Content) (offset : ℕ) (source : List ℕ) (k : ℕ)
    → offset % chunk_size + length source ≤ chunk_size
    → k ≢ offset / chunk_size
    → chunk_of (splice f offset source) k ≡ chunk_of f k
unfolding chunk_of
chunk_of-splice_ne f offset source k h ne =
    slice_ext (splice f offset source) f (k * chunk_size) chunk_size λ i lo hi.
      elim (Bool-cases (ltb i offset)) [
        | inl before ↦ splice_before f offset source i (omega tests)
        | inr from ↦ splice_after f offset source i (omega tests)
      ]

-- A write of no bytes, and two writes one after the other.
pub splice_nil : (f : Content) (offset i : ℕ) → splice f offset [] i ≡ f i
unfolding splice
splice_nil f offset i = ground arith

byte_at-take :
    (n : ℕ) (xs : List ℕ) (i : ℕ) → byte_at (take n xs) i ≡ (if ltb i n then byte_at xs i else 0)
byte_at-take zero xs i = ground arith
byte_at-take (suc n) [] i = ground arith
byte_at-take (suc n) (x ∷ xs) zero = ground arith
byte_at-take (suc n) (x ∷ xs) (suc i) = ground (arith, byte_at-take n xs i)

byte_at-drop : (n : ℕ) (xs : List ℕ) (i : ℕ) → byte_at (drop n xs) i ≡ byte_at xs (n + i)
byte_at-drop zero xs i = let e : zero + i ≡ i = omega arith in rw e
byte_at-drop (suc n) [] i = refl
byte_at-drop (suc n) (x ∷ xs) i =
    let e : suc n + i ≡ suc (n + i) = omega arith in rw e (byte_at-drop n xs i)

position : (i offset done : ℕ) → done + (i - (offset + done)) ≡ max done (i - offset)
position i offset done = omega arith

-- Two writes, one after the other, of the parts of a buffer.
pub splice-splice_at :
    (f : Content) (offset done size : ℕ) (buf : List ℕ) (i : ℕ)
    → done + size ≤ length buf
    → splice (splice f offset (take done buf)) (offset + done) (take size (drop done buf)) i
      ≡ splice f offset (take (done + size) buf) i
unfolding splice
splice-splice_at f offset done size buf i h = ground (
  arith,
  length-take done buf,
  length-take size (drop done buf),
  length-take (done + size) buf,
  length-drop done buf,
  byte_at-take done buf (i - offset),
  byte_at-take size (drop done buf) (i - (offset + done)),
  byte_at-take (done + size) buf (i - offset),
  byte_at-drop done buf (i - (offset + done)),
  ap (byte_at buf) (position i offset done),
)
