-- ===== src/Fsverity/Editor/AnyStorage.antt =====
-- `resize` of fsverity/editor.rs over any storage: what stays known of the content.
use mathlib.Core.Path.{subst}
use mathlib.Core.List.{append-nil}
use android_packages_modules.Common.{
  ℕ, ◌+◌, ◌-◌, ◌*◌, ◌/◌, ◌%◌, ◌^◌, ◌≤◌, ◌<◌, ◌≡◌, refl, sym, ap, ◌∙◌, inl, inr, ◌⊎◌, leb, zero, suc,
  ◌∷◌, none, some, List, [], ◌++◌, Outcome, true, ok, err, panic, stuck, arith, ltb, ◌&&◌,
  Bool-cases, if◌then◌else◌, tests, length, get_elem?, take, drop, replicate, length-append,
  length-take, length-replicate,
}
use android_packages_modules.Chunks.{chunk_size, divide_roundup}
use android_packages_modules.Crypto.{Sha256Ffi, Sha256Hash, hash_of_4096_zeros}
use android_packages_modules.Crypto.Digest.{IsSha256}
use android_packages_modules.File.{IoError, ReadByChunk, RandomWrite}
use android_packages_modules.Fsverity.Merkle.{MerkleLeaves, update_hash}
use android_packages_modules.Fsverity.Merkle
use android_packages_modules.Fsverity.Merkle.Leaves.{get_elem?-resize_vec, length-resize_vec}
use android_packages_modules.Fsverity.Editor.{
  VerifiedFileEditor, new_tail, resize, after_resize, after_new_tail,
}
use android_packages_modules.Fsverity.Editor.Content.{
  Content, byte_at, chunk_of, splice, length-chunk_of,
}
use android_packages_modules.Fsverity.Editor.Content.Splice.{chunk_of-splice, splice_before}
use android_packages_modules.Fsverity.Editor.Content.Truncate.{
  truncate, truncate_past, chunk_of-truncate_full,
}
use android_packages_modules.Fsverity.Editor.Cut.{leaves_size}
use android_packages_modules.Fsverity.Editor.Resize.{rehash_tail-eq-ok, tail_hash}
use android_packages_modules.Fsverity.Editor.Tracks.{
  Tracks, hole-hash, update_hash-Tracks, drop_all,
}
use android_packages_modules.Fsverity.Verifier.Binding.{KeepsLength}

-- A content after a resize to `size`: the chunks before the one of the new end are the old ones, and
-- from the new end on each byte is the old one or 0. What lies between is not checked.
pub record ResizedTo (size : ℕ) (f g : Content) : Type 0 where
  pub before : (i : ℕ) → i < size / chunk_size * chunk_size → g i ≡ f i
  pub past : (i : ℕ) → size ≤ i → (g i ≡ f i) ⊎ (g i ≡ 0)

unchanged : (size : ℕ) (f : Content) → ResizedTo size f f
unchanged size f = record { before = λ i lo. refl; past = λ i lo. inl refl }

-- Nothing is left after the chunk of the last byte.
abbrev pub EndsBy : ℕ → Content → Type 0
EndsBy size g = (i : ℕ) → (size + 4095) / 4096 * 4096 ≤ i → g i ≡ 0

-- What is known of a tree after a resize to `size`.
abbrev pub Resized : (List ℕ → List ℕ) → Content → ℕ → MerkleLeaves → Type 0
Resized digest f size tree = (g : Content) × Tracks digest g tree × ResizedTo size f g

byte_at_fill : (xs : List ℕ) (n i : ℕ) → length xs ≤ i → byte_at (xs ++ replicate n 0) i ≡ 0
unfolding replicate
byte_at_fill [] zero i h = refl
byte_at_fill [] (suc n) zero h = refl
byte_at_fill [] (suc n) (suc i) h = byte_at_fill [] n i (omega arith)
byte_at_fill (x ∷ xs) n zero h = absurd (omega arith)
byte_at_fill (x ∷ xs) n (suc i) h = byte_at_fill xs n i (omega arith)

-- Past the bytes that are put before a filling of zeros.
splice_fill :
    (f : Content) (offset : ℕ) (xs : List ℕ) (n i : ℕ)
    → offset + length xs ≤ i
    → (splice f offset (xs ++ replicate n 0) i ≡ f i)
      ⊎ (splice f offset (xs ++ replicate n 0) i ≡ 0)
unfolding splice
splice_fill f offset xs n i h =
    elim (Bool-cases (leb offset i && ltb i (offset + length (xs ++ replicate n 0)))) [
      | inl inside ↦ inr (rw inside (byte_at_fill xs n (i - offset) (omega arith)))
      | inr outside ↦ inl (rw outside refl)
    ]

module _ {Ctx F : Type 0} {ffi : Sha256Ffi Ctx} {digest : List ℕ → List ℕ}
    (sha : IsSha256 ffi digest) (rd : ReadByChunk F) (wr : RandomWrite F)
    (keeps : KeepsLength rd) where
  -- The leaves that are cut or added.
  resize_leaves-Tracks :
      (g : Content) (tree : MerkleLeaves) (size : ℕ)
      → Tracks digest g tree
      → Tracks digest
          (truncate g (divide_roundup size chunk_size * chunk_size))
          (Merkle.resize tree size)
  unfolding Merkle.resize
  resize_leaves-Tracks g tree size t = record {
    hashes = λ k hash at. leaf k hash (
        sym (get_elem?-resize_vec tree.leaves (divide_roundup size chunk_size) k hash_of_4096_zeros)
        ∙ at);
    zeros = λ i lo. truncate_past g (divide_roundup size chunk_size * chunk_size) i (
        omega (
          arith,
          length-resize_vec tree.leaves (divide_roundup size chunk_size) hash_of_4096_zeros,
        ));
  }
    where
      leaf :
          (k : ℕ) (hash : Sha256Hash)
          → (if ltb k (divide_roundup size chunk_size)
              then (if ltb k (length tree.leaves)
                  then get_elem? tree.leaves k
                  else some hash_of_4096_zeros)
              else none)
            ≡ some hash
          → hash ≡ digest (chunk_of (truncate g (divide_roundup size chunk_size * chunk_size)) k)
      leaf k hash at = elim (Bool-cases (ltb k (divide_roundup size chunk_size))) [
        | inl inside ↦
            let same = ap digest (
              chunk_of-truncate_full g (divide_roundup size chunk_size * chunk_size) k
                (omega tests)) in
            elim (Bool-cases (ltb k (length tree.leaves))) [
              | inl old ↦ t.hashes k hash (ground arith) ∙ sym same
              | inr hole ↦
                  let e : hash ≡ hash_of_4096_zeros = ground arith in
                  e ∙ (hole-hash sha rd wr g tree k t (omega tests) ∙ sym same)
            ]
        | inr outside ↦ absurd (ground arith)
      ]

  -- The chunk that is put together from the first bytes of what was read.
  rehashed :
      (f : Content) (tree : MerkleLeaves) (size : ℕ) (bytes : List ℕ) (tree' : MerkleLeaves)
      → Tracks digest f tree
      → length bytes ≡ chunk_size
      → tree' ≡ update_hash tree (size / chunk_size) (tail_hash sha rd wr size bytes) size
      → Resized digest f size tree'
  unfolding tail_hash
  rehashed f tree size bytes tree' t full e =
      let m = size % chunk_size in
      let fill : List ℕ = replicate (chunk_size - m) 0 in
      let source = take m bytes ++ fill in
      let offset = size / chunk_size * chunk_size in
      let old = chunk_of f (offset / chunk_size) in
      let len : length source ≡ chunk_size = omega (
        arith,
        length-append (take m bytes) fill,
        length-take m bytes,
        length-replicate {A = ℕ} (chunk_size - m) 0,
      ) in
      let index : offset / chunk_size ≡ size / chunk_size = omega arith in
      let start : offset % chunk_size ≡ 0 = omega arith in
      let rest : drop (offset % chunk_size + length source) old ≡ [] =
        drop_all (offset % chunk_size + length source) old
          (omega (arith, len, length-chunk_of f (offset / chunk_size))) in
      let chunk : chunk_of (splice f offset source) (offset / chunk_size) ≡ source =
        chunk_of-splice f offset source (omega (arith, len))
        ∙ (ap (λ n. take n old ++ (source ++ drop (offset % chunk_size + length source) old)) start
            ∙ (ap (λ z. source ++ z) rest ∙ append-nil source)) in
      let new =
        update_hash-Tracks sha rd wr f tree offset source (digest source) size t
          (omega (arith, len)) (ap digest (sym chunk)) in
      let same : update_hash tree (offset / chunk_size) (digest source) size ≡ tree' =
        ap (λ k. update_hash tree k (digest source) size) index ∙ sym e in
      (
        splice f offset source,
        subst (Tracks digest (splice f offset source)) same new,
        record {
          before = λ i lo. splice_before f offset source i lo;
          past = λ i lo.
              splice_fill f offset (take m bytes) (chunk_size - m) i
                (omega (arith, length-take m bytes));
        },
      )

  -- The tree with the chunk of the new end rehashed, from whatever the storage returned.
  new_tail-Resized :
      (f : Content) (self : VerifiedFileEditor F) (size : ℕ) (tree : MerkleLeaves)
      → Tracks digest f self.merkle_tree
      → new_tail ffi rd wr self size ≡ ok tree
      → Resized digest f size tree
  unfolding new_tail tail_hash
  new_tail-Resized f self size tree t h =
      elim (Bool-cases (ltb size self.merkle_tree.file_size && ltb 0 (size % chunk_size))) [
        | inl inside ↦
            let (s, bytes, read, e) = rehash_tail-eq-ok sha rd wr self size tree (ground arith) in
            let full = keeps.keeps self.file (size / chunk_size) s bytes read in
            rehashed f self.merkle_tree size bytes tree t full e
        | inr outside ↦
            let same : self.merkle_tree ≡ tree = ground arith in
            (f, subst (Tracks digest f) same t, unchanged size f)
      ]

  -- What is known after a resize, with its result.
  abbrev pub After : Content → ℕ → Outcome IoError (Unit {0}) × VerifiedFileEditor F → Type 0
  After f size (result, self) =
      (g : Content) × Tracks digest g self.merkle_tree
      × ResizedTo size f g
      × (result ≡ ok tt → EndsBy size g)

  after_resize-Resized :
      (f : Content) (size : ℕ) (tree : MerkleLeaves) (r : Outcome IoError (Unit {0}) × F)
      → size < 2 ^ 63
      → Resized digest f size tree
      → After f size (after_resize ffi rd wr tree size r)
  unfolding truncate
  after_resize-Resized f size tree (ok u, file) small (g, t, same) =
      let n = divide_roundup size chunk_size in
      let room : size / chunk_size * chunk_size ≤ n * chunk_size =
        omega (arith, leaves_size size small) in
      (
        truncate g (n * chunk_size),
        resize_leaves-Tracks g tree size t,
        record {
          before = λ i lo.
              let inside : ltb i (n * chunk_size) ≡ true = ground (arith, room) in
              rw inside (same.before i lo);
          past = λ i lo. elim (Bool-cases (ltb i (n * chunk_size))) [
            | inl inside ↦ rw inside (same.past i lo)
            | inr outside ↦ inr (rw outside refl)
          ];
        },
        λ done i lo. truncate_past g (n * chunk_size) i (omega (arith, leaves_size size small)),
      )
  after_resize-Resized f size tree (err e, file) small (g, t, same) =
      (g, t, same, λ done. absurd (cc done))
  after_resize-Resized f size tree (panic, file) small (g, t, same) =
      (g, t, same, λ done. absurd (cc done))
  after_resize-Resized f size tree (stuck, file) small (g, t, same) =
      (g, t, same, λ done. absurd (cc done))

  after_new_tail-Resized :
      (f : Content) (self : VerifiedFileEditor F) (size : ℕ) (r : Outcome IoError MerkleLeaves)
      → size < 2 ^ 63
      → Tracks digest f self.merkle_tree
      → ((tree : MerkleLeaves) → r ≡ ok tree → Resized digest f size tree)
      → After f size (after_new_tail ffi rd wr self size r)
  after_new_tail-Resized f self size (ok tree) small t h =
      after_resize-Resized f size tree (wr.resize self.file size) small (h tree refl)
  after_new_tail-Resized f self size (err e) small t h =
      (f, t, unchanged size f, λ done. absurd (cc done))
  after_new_tail-Resized f self size panic small t h =
      (f, t, unchanged size f, λ done. absurd (cc done))
  after_new_tail-Resized f self size stuck small t h =
      (f, t, unchanged size f, λ done. absurd (cc done))

  -- From a tree that tracks a content, a resize to less than 2 ^ 63 bytes, whether it succeeds or
  -- not, leaves a tree that tracks some content with the old bytes in every chunk before the one of
  -- the new end, and from the new end on with the old bytes or zeros, whatever the storage returns;
  -- where it succeeds, with zeros after the new last chunk. The reads keep the buffer's length.
  pub resize-Resized :
      (f : Content) (self : VerifiedFileEditor F) (size : ℕ)
      → size < 2 ^ 63
      → Tracks digest f self.merkle_tree
      → After f size (resize ffi rd wr self size)
  unfolding resize
  resize-Resized f self size small t =
      after_new_tail-Resized f self size (new_tail ffi rd wr self size) small t
        (λ tree e. new_tail-Resized f self size tree t e)
