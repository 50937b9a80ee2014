-- ===== src/Fsverity/Editor/Resize.antt =====
-- `resize` of fsverity/editor.rs: with honest storage the tree tracks the resized content; what the
-- storage returns for the new last chunk is not checked.
use mathlib.Core.List.{append-nil}
use mathlib.Core.Path.{subst}
use android_packages_modules.Common.{
  ℕ, ◌+◌, ◌*◌, ◌-◌, ◌/◌, ◌%◌, ◌^◌, ◌≤◌, ◌<◌, ◌≡◌, refl, sym, ap, ◌∙◌, inl, inr, ◌&&◌, some, List,
  [], ◌∷◌, ◌++◌, Outcome, ok, err, panic, stuck, arith, ltb, Bool-cases, length, take, replicate,
  get_elem?, >>=-eq-ok, map_err,
}
use android_packages_modules.Chunks.{chunk_size, divide_roundup}
use android_packages_modules.Crypto.{Sha256Ffi, Sha256Hash, hash_of_4096_zeros, hash_parts}
use android_packages_modules.Crypto.Digest.{IsSha256, hash_parts_lem}
use android_packages_modules.File.{IoError, ReadByChunk, RandomWrite}
use android_packages_modules.Fsverity.Merkle.{MerkleLeaves, resize_vec, update_hash}
use android_packages_modules.Fsverity.Merkle
use android_packages_modules.Fsverity.Merkle.Leaves.{
  length-resize_vec, get_elem?-resize_vec, get_elem?-update_hash, length-update_hash,
}
use android_packages_modules.Fsverity.Editor.{
  VerifiedFileEditor, io_of_crypto, rehash_tail, new_tail, resize, after_resize, after_new_tail,
}
use android_packages_modules.Fsverity.Editor.Content.{Content, chunk_of}
use android_packages_modules.Fsverity.Editor.Content.Truncate.{
  truncate, truncate_past, chunk_of-truncate_tail,
}
use android_packages_modules.Fsverity.Editor.Cut.{
  TracksBelow, leaves_size, resize-Tracks_tree, shrunk-TracksBelow, kept-TracksBelow,
}
use android_packages_modules.Fsverity.Editor.Tracks.{Tracks, hash_of_parts}

-- A tree of a file of one size: it tracks the content, its file size is that size, and there are as
-- many leaves as the size has chunks.
pub record TracksSized (digest : List ℕ → List ℕ) (f : Content) (size : ℕ) (tree : MerkleLeaves)
    : Type 0 where
  pub tracks : Tracks digest f tree
  pub sized : tree.file_size ≡ size
  pub covers : size ≤ length tree.leaves * chunk_size
  pub no_more : length tree.leaves * chunk_size < size + chunk_size

module _ {Ctx F : Type 0} {ffi : Sha256Ffi Ctx} {digest : List ℕ → List ℕ}
    (sha : IsSha256 ffi digest) (rd : ReadByChunk F) (wr : RandomWrite F) where
  -- The storage returns, for the chunk that holds the new end, what was written there.
  abbrev pub HonestTail : Content → VerifiedFileEditor F → ℕ → Type 0
  HonestTail f self size =
      (s : ℕ) (bytes : List ℕ)
      → rd.read_chunk self.file (size / chunk_size) (replicate chunk_size 0) ≡ ok (s, bytes)
      → take (size % chunk_size) bytes ≡ take (size % chunk_size) (chunk_of f (size / chunk_size))

  unfoldable pub tail_hash : (size : ℕ) (bytes : List ℕ) → Sha256Hash
  tail_hash size bytes =
      digest (take (size % chunk_size) bytes ++ replicate (chunk_size - size % chunk_size) 0)

  -- What a successful `rehash_tail` has read, and the tree that it returns.
  pub rehash_tail-eq-ok :
      (self : VerifiedFileEditor F) (size : ℕ) (tree : MerkleLeaves)
      → rehash_tail ffi rd wr self size ≡ ok tree
      → (s : ℕ) × (bytes : List ℕ) × (rd.read_chunk self.file
            (size / chunk_size)
            (replicate chunk_size 0)
          ≡ ok (s, bytes))
        × (tree ≡ update_hash self.merkle_tree (size / chunk_size) (tail_hash size bytes) size)
  unfolding rehash_tail tail_hash
  rehash_tail-eq-ok self size tree h =
      let (r, read, rest) =
        >>=-eq-ok (rd.read_chunk self.file (size / chunk_size) (replicate chunk_size 0)) _ h in
      let m = size % chunk_size in
      let fill = replicate (chunk_size - m) 0 in
      let parts = take m r.1 ∷ fill ∷ [] in
      let (hash, hashed, last) = >>=-eq-ok (map_err io_of_crypto (hash_parts ffi parts)) _ rest in
      let value : tail_hash size r.1 ≡ hash =
        ap (λ z. digest (take m r.1 ++ z)) (sym (append-nil fill))
        ∙ hash_of_parts sha rd wr parts hash hashed in
      let kept : update_hash self.merkle_tree (size / chunk_size) hash size ≡ tree = cc last in
      (
        r.0,
        r.1,
        read,
        sym kept ∙ ap (λ v. update_hash self.merkle_tree (size / chunk_size) v size) (sym value),
      )

  new_tail-TracksBelow :
      (f : Content) (self : VerifiedFileEditor F) (size : ℕ) (tree : MerkleLeaves)
      → Tracks digest f self.merkle_tree
      → ((i : ℕ) → self.merkle_tree.file_size ≤ i → f i ≡ 0)
      → HonestTail f self size
      → new_tail ffi rd wr self size ≡ ok tree
      → TracksBelow digest (truncate f size) size tree
  unfolding new_tail tail_hash
  new_tail-TracksBelow f self size tree t past honest h =
      elim (Bool-cases (ltb size self.merkle_tree.file_size && ltb 0 (size % chunk_size))) [
        | inl inside ↦
            let (s, bytes, read, e) = rehash_tail-eq-ok self size tree (ground arith) in
            let new : tail_hash size bytes
                ≡ digest (chunk_of (truncate f size) (size / chunk_size)) =
              ap digest (
                ap (λ b. b ++ replicate (chunk_size - size % chunk_size) 0) (honest s bytes read)
                ∙ sym (chunk_of-truncate_tail f size)) in
            subst (TracksBelow digest (truncate f size) size) (sym e)
              (shrunk-TracksBelow sha rd wr f self.merkle_tree size (tail_hash size bytes) t new)
        | inr outside ↦
            let same : self.merkle_tree ≡ tree = ground arith in
            subst (TracksBelow digest (truncate f size) size) same
              (kept-TracksBelow sha rd wr f self.merkle_tree size t past outside)
      ]

  resized-TracksSized :
      (g : Content) (tree : MerkleLeaves) (size : ℕ)
      → size < 2 ^ 63
      → Tracks digest g (Merkle.resize tree size)
      → TracksSized digest g size (Merkle.resize tree size)
  unfolding Merkle.resize
  resized-TracksSized g tree size small t =
      let n = divide_roundup size chunk_size in
      let count : length (resize_vec tree.leaves n hash_of_4096_zeros) ≡ n =
        length-resize_vec tree.leaves n hash_of_4096_zeros in
      record {
        tracks = t;
        sized = refl;
        covers = omega (arith, count, leaves_size size small);
        no_more = omega (arith, count, leaves_size size small);
      }

  after_resize-TracksSized :
      (g : Content) (size : ℕ) (tree : MerkleLeaves) (r : Outcome IoError (Unit {0}) × F)
      (self' : VerifiedFileEditor F)
      → TracksSized digest g size (Merkle.resize tree size)
      → after_resize ffi rd wr tree size r ≡ (ok tt, self')
      → TracksSized digest g size self'.merkle_tree
  after_resize-TracksSized g size tree (ok u, file) self' t h =
      subst (λ leaves. TracksSized digest g size leaves)
        (ap (λ (p : Outcome IoError (Unit {0}) × VerifiedFileEditor F). p.1.merkle_tree) h) t
  after_resize-TracksSized g size tree (err e, file) self' t h =
      cc (ap (λ (p : Outcome IoError (Unit {0}) × VerifiedFileEditor F). p.0) h)
  after_resize-TracksSized g size tree (panic, file) self' t h =
      cc (ap (λ (p : Outcome IoError (Unit {0}) × VerifiedFileEditor F). p.0) h)
  after_resize-TracksSized g size tree (stuck, file) self' t h =
      cc (ap (λ (p : Outcome IoError (Unit {0}) × VerifiedFileEditor F). p.0) h)

  after_new_tail-TracksSized :
      (f : Content) (self self' : VerifiedFileEditor F) (size : ℕ)
      (r : Outcome IoError MerkleLeaves)
      → size < 2 ^ 63
      → ((tree : MerkleLeaves) → r ≡ ok tree → TracksBelow digest (truncate f size) size tree)
      → after_new_tail ffi rd wr self size r ≡ (ok tt, self')
      → TracksSized digest (truncate f size) size self'.merkle_tree
  after_new_tail-TracksSized f self self' size (ok tree) small t h =
      after_resize-TracksSized (truncate f size) size tree (wr.resize self.file size) self'
        (resized-TracksSized (truncate f size) tree size small (
          resize-Tracks_tree sha rd wr (truncate f size) size tree small (truncate_past f size)
            (t tree refl)))
        h
  after_new_tail-TracksSized f self self' size (err e) small t h =
      cc (ap (λ (p : Outcome IoError (Unit {0}) × VerifiedFileEditor F). p.0) h)
  after_new_tail-TracksSized f self self' size panic small t h =
      cc (ap (λ (p : Outcome IoError (Unit {0}) × VerifiedFileEditor F). p.0) h)
  after_new_tail-TracksSized f self self' size stuck small t h =
      cc (ap (λ (p : Outcome IoError (Unit {0}) × VerifiedFileEditor F). p.0) h)

  -- A resize below 2 ^ 63 bytes that succeeds leaves a tree of the new size: its file size is the new
  -- one, it has as many leaves as that has chunks, and each leaf is the hash of its chunk of the
  -- content, cut at the new size or filled up with zeros. This is from a tree that tracks the
  -- content, for a content that ends at the file size, where the storage returns what was written
  -- for the chunk of the new end.
  pub resize-TracksSized :
      (f : Content) (self self' : VerifiedFileEditor F) (size : ℕ)
      → size < 2 ^ 63
      → Tracks digest f self.merkle_tree
      → ((i : ℕ) → self.merkle_tree.file_size ≤ i → f i ≡ 0)
      → HonestTail f self size
      → resize ffi rd wr self size ≡ (ok tt, self')
      → TracksSized digest (truncate f size) size self'.merkle_tree
  unfolding resize
  resize-TracksSized f self self' size small t past honest h =
      after_new_tail-TracksSized f self self' size (new_tail ffi rd wr self size) small
        (λ tree e. new_tail-TracksBelow f self size tree t past honest e) h

  resized_leaf :
      (size : ℕ) (tree : MerkleLeaves) (hash : Sha256Hash)
      → size < 2 ^ 63
      → get_elem? tree.leaves (size / chunk_size) ≡ some hash
      → size / chunk_size < length tree.leaves
      → 0 < size % chunk_size
      → get_elem? (Merkle.resize tree size).leaves (size / chunk_size) ≡ some hash
  unfolding Merkle.resize
  resized_leaf size tree hash small leaf old inside =
      get_elem?-resize_vec tree.leaves (divide_roundup size chunk_size) (size / chunk_size)
        hash_of_4096_zeros
      ∙ ground (arith, leaves_size size small)

  rehash_tail_of_read :
      (self : VerifiedFileEditor F) (size s : ℕ) (bytes : List ℕ)
      → rd.read_chunk self.file (size / chunk_size) (replicate chunk_size 0) ≡ ok (s, bytes)
      → rehash_tail ffi rd wr self size
        ≡ ok (update_hash self.merkle_tree (size / chunk_size) (tail_hash size bytes) size)
  unfolding rehash_tail tail_hash
  rehash_tail_of_read self size s bytes read =
      let m = size % chunk_size in
      let fill : List ℕ = replicate (chunk_size - m) 0 in
      rw (read, hash_parts_lem sha (take m bytes ∷ fill ∷ []), append-nil fill)

  -- Cutting a file inside a chunk succeeds with whatever bytes the storage returns for that chunk: the
  -- chunk's leaf becomes the hash of their first part, also where they do not match the old leaf.
  pub resize_unverified :
      (self : VerifiedFileEditor F) (size s : ℕ) (bytes : List ℕ) (file : F)
      → size < 2 ^ 63
      → size < self.merkle_tree.file_size
      → 0 < size % chunk_size
      → rd.read_chunk self.file (size / chunk_size) (replicate chunk_size 0) ≡ ok (s, bytes)
      → wr.resize self.file size ≡ (ok tt, file)
      → ((resize ffi rd wr self size).0 ≡ ok tt)
        × (get_elem? (resize ffi rd wr self size).1.merkle_tree.leaves (size / chunk_size)
            ≡ some (
                digest
                  (take (size % chunk_size) bytes ++ replicate (chunk_size - size % chunk_size) 0)))
  unfolding resize tail_hash
  resize_unverified self size s bytes file small shorter inside read resized =
      let k = size / chunk_size in
      let tree = update_hash self.merkle_tree k (tail_hash size bytes) size in
      let tail : new_tail ffi rd wr self size ≡ ok tree =
        unfold new_tail in ground (arith, rehash_tail_of_read self size s bytes read) in
      let done : resize ffi rd wr self size
          ≡ (ok tt, record { file = file; merkle_tree = Merkle.resize tree size }) =
        ap (after_new_tail ffi rd wr self size) tail
        ∙ ap (after_resize ffi rd wr tree size) resized in
      (
        ap (λ (p : Outcome IoError (Unit {0}) × VerifiedFileEditor F). p.0) done,
        ap
              (λ (p : Outcome IoError (Unit {0}) × VerifiedFileEditor F).
                get_elem? p.1.merkle_tree.leaves k)
              done
            ∙ resized_leaf size tree (tail_hash size bytes) small
                (get_elem?-update_hash self.merkle_tree k (tail_hash size bytes) size k
                  ∙ ground arith)
                (omega (arith, length-update_hash self.merkle_tree k (tail_hash size bytes) size))
                inside,
      )
