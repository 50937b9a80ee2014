-- ===== src/Fsverity/Editor/Content.antt =====
-- The content that a client has written, as a function from positions to bytes, and its chunks.
pub mod Splice
pub mod Truncate
use android_packages_modules.Common.{
  ℕ, zero, suc, ◌+◌, ◌-◌, ◌*◌, ◌/◌, ◌%◌, ◌≤◌, ◌<◌, ◌≡◌, ◌≢◌, refl, sym, ap, ◌∙◌, ◌&&◌, List, [],
  ◌∷◌, ◌++◌, arith, leb, ltb, if◌then◌else◌, length, take, drop, replicate, tests, Bool-cases, inl,
  inr, length-drop, length-take, max,
}
use android_packages_modules.Chunks.{chunk_size}

abbrev pub Content : Type 0
Content = ℕ → ℕ

-- Byte `i` of a list, 0 beyond its end.
abbrev pub byte_at : List ℕ → ℕ → ℕ
byte_at [] i = 0
byte_at (x ∷ xs) zero = x
byte_at (x ∷ xs) (suc i) = byte_at xs i

-- The bytes `[start, start + count)`.
unfoldable pub slice : Content → ℕ → ℕ → List ℕ
slice f start zero = []
slice f start (suc count) = f start ∷ slice f (start + 1) count

pub chunk_of : Content → ℕ → List ℕ
chunk_of f k = slice f (k * chunk_size) chunk_size

-- The content after `source` has been written at `offset`.
unfoldable pub splice : Content → ℕ → List ℕ → Content
splice f offset source i =
    if leb offset i && ltb i (offset + length source) then byte_at source (i - offset) else f i

pub length-slice : (f : Content) (start count : ℕ) → length (slice f start count) ≡ count
unfolding slice
length-slice f start zero = refl
length-slice f start (suc count) = ap suc (length-slice f (start + 1) count)

pub slice_ext :
    (f g : Content) (start count : ℕ)
    → ((i : ℕ) → start ≤ i → i < start + count → f i ≡ g i)
    → slice f start count ≡ slice g start count
unfolding slice
slice_ext f g start zero h = refl
slice_ext f g start (suc count) h =
    let head = h start (omega arith) (omega arith) in
    let rest = slice_ext f g (start + 1) count (λ i lo hi. h i (omega arith) (omega arith)) in
    cc (head, rest)

pub slice_zero :
    (f : Content) (start count : ℕ)
    → ((i : ℕ) → start ≤ i → f i ≡ 0)
    → slice f start count ≡ replicate count 0
unfolding slice replicate
slice_zero f start zero h = refl
slice_zero f start (suc count) h =
    let head = h start (omega arith) in
    let rest = slice_zero f (start + 1) count (λ i lo. h i (omega arith)) in cc (head, rest)

-- A slice in two parts.
pub slice-append :
    (f : Content) (start m n : ℕ) → slice f start (m + n) ≡ slice f start m ++ slice f (start + m) n
unfolding slice
slice-append f start zero n =
    let e : zero + n ≡ n = omega arith in let g : start + 0 ≡ start = omega arith in rw (e, g)
slice-append f start (suc m) n =
    let e : suc m + n ≡ suc (m + n) = omega arith in
    let g : start + suc m ≡ start + 1 + m = omega arith in
    rw (e, g) (ap (◌∷◌ (f start)) (slice-append f (start + 1) m n))

pub take-slice : (f : Content) (start m n : ℕ) → take m (slice f start (m + n)) ≡ slice f start m
unfolding slice
take-slice f start zero n = refl
take-slice f start (suc m) n =
    let e : suc m + n ≡ suc (m + n) = omega arith in
    rw e (ap (◌∷◌ (f start)) (take-slice f (start + 1) m n))

pub drop-slice :
    (f : Content) (start m n : ℕ) → drop m (slice f start (m + n)) ≡ slice f (start + m) n
unfolding slice
drop-slice f start zero n =
    let e : zero + n ≡ n = omega arith in let g : start + 0 ≡ start = omega arith in rw (e, g)
drop-slice f start (suc m) n =
    let e : suc m + n ≡ suc (m + n) = omega arith in
    let g : start + suc m ≡ start + 1 + m = omega arith in rw (e, g) (drop-slice f (start + 1) m n)

pub slice-byte_at :
    (f : Content) (start : ℕ) (xs : List ℕ)
    → ((i : ℕ) → i < length xs → f (start + i) ≡ byte_at xs i)
    → slice f start (length xs) ≡ xs
unfolding slice
slice-byte_at f start [] h = refl
slice-byte_at f start (x ∷ xs) h =
    let z : start + 0 ≡ start = omega arith in
    let head : f start ≡ x = ap f (sym z) ∙ h 0 (omega arith) in
    let rest = slice-byte_at f (start + 1) xs (λ i lt.
      let e : start + 1 + i ≡ start + suc i = omega arith in ap f e ∙ h (suc i) (omega arith)) in
    cc (head, rest)

pub length-chunk_of : (f : Content) (k : ℕ) → length (chunk_of f k) ≡ chunk_size
unfolding chunk_of
length-chunk_of f k = length-slice f (k * chunk_size) chunk_size

pub chunk_of_zero :
    (f : Content) (k : ℕ)
    → ((i : ℕ) → k * chunk_size ≤ i → f i ≡ 0)
    → chunk_of f k ≡ replicate chunk_size 0
unfolding chunk_of
chunk_of_zero f k h = slice_zero f (k * chunk_size) chunk_size h
