-- ===== src/Fsverity/Editor.antt =====
-- authfs/src/fsverity/editor.rs: writing to a file that is stored in an untrusted place. `rd` and `wr`
-- are the traits of the backing file, `ffi` the crypto library. The lock around the tree is held for
-- each call's access, so one call is a function of the editor.
pub mod Content
pub mod Tracks
pub mod Write
pub mod Cut
pub mod Resize
pub mod AnyStorage
use android_packages_modules.Common.{
  ℕ, zero, suc, ◌+◌, ◌-◌, ◌/◌, ◌%◌, min, Option, none, some, Bool, true, false, ◌&&◌, List, [], ◌∷◌,
  Outcome, ok, err, panic, stuck, ◌>>=◌, ◌>>◌, map_err, guard, ltb, ◌==◌, if◌then◌else◌, length,
  take, drop, replicate,
}
use android_packages_modules.Chunks.{chunk_size, u64_mod, items}
use android_packages_modules.Chunks
use android_packages_modules.Crypto.{CryptoError, Sha256Ffi, Sha256Hash, hash_parts}
use android_packages_modules.File.{
  IoError, other, invalid_data, ReadByChunk, RandomWrite, write_all_at,
}
use android_packages_modules.Fsverity.Merkle.{
  MerkleLeaves, update_hash, is_index_valid, is_consistent, calculate_fsverity_digest,
}
use android_packages_modules.Fsverity.Merkle

pub record VerifiedFileEditor (F : Type 0) : Type 0 where
  pub file : F
  pub merkle_tree : MerkleLeaves

-- `impl From<CryptoError> for io::Error`
abbrev pub io_of_crypto : CryptoError → IoError
io_of_crypto e = other

module _ {F : Type 0} where
  unfoldable pub new : F → VerifiedFileEditor F
  new file = record { file = file; merkle_tree = Merkle.new }

  unfoldable pub size : VerifiedFileEditor F → ℕ
  size self = self.merkle_tree.file_size

-- Rounds for the loop of `write_all_at`: one more than there are bytes.
abbrev pub write_fuel : List ℕ → ℕ
write_fuel buf = suc (length buf)

-- `offset.saturating_add(buf.len() as u64)`
abbrev pub size_at_least : List ℕ → ℕ → ℕ
size_at_least buf offset = min (offset + length buf) (u64_mod - 1)

module _ {Ctx F : Type 0} (ffi : Sha256Ffi Ctx) (rd : ReadByChunk F) (wr : RandomWrite F) where
  unfoldable pub fsverity_digest : VerifiedFileEditor F → Outcome IoError Sha256Hash
  fsverity_digest self = map_err (λ e. other) (calculate_fsverity_digest ffi self.merkle_tree)

  unfoldable pub read_chunk : VerifiedFileEditor F → ℕ → List ℕ → Outcome IoError (ℕ × List ℕ)
  read_chunk self chunk_index buf = rd.read_chunk self.file chunk_index buf

  -- The check of data that was read back against the known hash.
  unfoldable pub verify_orig : VerifiedFileEditor F → ℕ → List ℕ → Outcome IoError (List ℕ)
  verify_orig self output_chunk_index orig_data = do
    hash ← map_err io_of_crypto (hash_parts ffi (orig_data ∷ []))
    guard (is_consistent self.merkle_tree output_chunk_index hash) invalid_data
    ok orig_data

  unfoldable pub read_back : VerifiedFileEditor F → ℕ → Outcome IoError (List ℕ)
  unfolding read_chunk verify_orig
  read_back self output_chunk_index = do
    (read_size, orig_data) ← read_chunk self output_chunk_index (replicate chunk_size 0)
    verify_orig self output_chunk_index orig_data

  unfoldable pub orig_data : VerifiedFileEditor F → ℕ → Outcome IoError (List ℕ)
  unfolding read_back
  orig_data self output_chunk_index =
      if is_index_valid self.merkle_tree output_chunk_index
      then read_back self output_chunk_index
      else ok (replicate chunk_size 0)

  unfoldable pub new_hash_for_incomplete_write :
      VerifiedFileEditor F → List ℕ → ℕ → ℕ → Outcome IoError Sha256Hash
  unfolding orig_data
  new_hash_for_incomplete_write self source offset_from_alignment output_chunk_index = do
    orig ← orig_data self output_chunk_index
    map_err io_of_crypto (
        hash_parts ffi (
          take offset_from_alignment orig
          ∷ source
          ∷ drop (offset_from_alignment + length source) orig
          ∷ []))

  unfoldable pub new_chunk_hash :
      VerifiedFileEditor F → List ℕ → ℕ → ℕ → ℕ → Outcome IoError Sha256Hash
  unfolding new_hash_for_incomplete_write
  new_chunk_hash self source offset_from_alignment current_size output_chunk_index =
      if current_size == chunk_size
      then map_err io_of_crypto (hash_parts ffi (source ∷ []))
      else new_hash_for_incomplete_write self source offset_from_alignment output_chunk_index

  -- The rest of one round after the backing file's write; `next` is the loop after it.
  abbrev pub after_file_write :
      (F → Outcome IoError ℕ × VerifiedFileEditor F)
      → MerkleLeaves
      → Outcome IoError (Unit {0}) × F
      → Outcome IoError ℕ × VerifiedFileEditor F
  after_file_write next tree (ok _, file) = next file
  after_file_write next tree (err e, file) = (err e, record { file = file; merkle_tree = tree })
  after_file_write next tree (panic, file) = (panic, record { file = file; merkle_tree = tree })
  after_file_write next tree (stuck, file) = (stuck, record { file = file; merkle_tree = tree })

  -- The match on the new hash in one round; `next` goes on with the hash.
  abbrev pub after_new_hash :
      (Sha256Hash → Outcome IoError ℕ × VerifiedFileEditor F)
      → VerifiedFileEditor F
      → ℕ
      → Outcome IoError Sha256Hash
      → Outcome IoError ℕ × VerifiedFileEditor F
  after_new_hash next self written (ok new_hash) = next new_hash
  after_new_hash next self written (err e) = (if ltb 0 written then ok written else err e, self)
  after_new_hash next self written panic = (panic, self)
  after_new_hash next self written stuck = (stuck, self)

  module _ (buf : List ℕ) (offset : ℕ) where
    unfoldable pub write_loop :
        List (ℕ × ℕ) → VerifiedFileEditor F → Outcome IoError ℕ × VerifiedFileEditor F
    write_loop [] self = (ok (length buf), self)
    write_loop ((output_offset, current_size) ∷ rest) self =
        let source = take current_size (drop (output_offset - offset) buf) in
        let output_chunk_index = output_offset / chunk_size in
        let offset_from_alignment = output_offset % chunk_size in
        after_new_hash
          (λ new_hash.
            after_file_write
              (λ file. write_loop rest (record {
                file = file;
                merkle_tree =
                    update_hash self.merkle_tree output_chunk_index new_hash
                      (size_at_least buf offset);
              }))
              self.merkle_tree (write_all_at wr (write_fuel source) self.file source output_offset))
          self (output_offset - offset)
          (new_chunk_hash self source offset_from_alignment current_size output_chunk_index)

    unfoldable pub write_at : VerifiedFileEditor F → Outcome IoError ℕ × VerifiedFileEditor F
    unfolding write_loop
    write_at self = elim (items (Chunks.new (length buf) offset chunk_size)) [
      | some pieces ↦ write_loop pieces self
      | none ↦ (stuck, self)
    ]

  -- The tree with the new hash of the chunk that holds the new end of a file that shrinks.
  unfoldable pub rehash_tail : VerifiedFileEditor F → ℕ → Outcome IoError MerkleLeaves
  unfolding read_chunk
  rehash_tail self size = do
    let new_tail_size = size % chunk_size
    let chunk_index = size / chunk_size
    (s, buf) ← read_chunk self chunk_index (replicate chunk_size 0)
    new_hash ←
        map_err io_of_crypto
          (hash_parts ffi (take new_tail_size buf ∷ replicate (chunk_size - new_tail_size) 0 ∷ []))
    ok (update_hash self.merkle_tree chunk_index new_hash size)

  unfoldable pub new_tail : VerifiedFileEditor F → ℕ → Outcome IoError MerkleLeaves
  unfolding rehash_tail
  new_tail self size =
      if ltb size self.merkle_tree.file_size && ltb 0 (size % chunk_size)
      then rehash_tail self size
      else ok self.merkle_tree

  abbrev pub after_resize :
      MerkleLeaves
      → ℕ
      → Outcome IoError (Unit {0}) × F
      → Outcome IoError (Unit {0}) × VerifiedFileEditor F
  after_resize tree size (ok u, file) =
      (ok u, record { file = file; merkle_tree = Merkle.resize tree size })
  after_resize tree size (err e, file) = (err e, record { file = file; merkle_tree = tree })
  after_resize tree size (panic, file) = (panic, record { file = file; merkle_tree = tree })
  after_resize tree size (stuck, file) = (stuck, record { file = file; merkle_tree = tree })

  abbrev pub after_new_tail :
      VerifiedFileEditor F
      → ℕ
      → Outcome IoError MerkleLeaves
      → Outcome IoError (Unit {0}) × VerifiedFileEditor F
  after_new_tail self size (ok tree) = after_resize tree size (wr.resize self.file size)
  after_new_tail self size (err e) = (err e, self)
  after_new_tail self size panic = (panic, self)
  after_new_tail self size stuck = (stuck, self)

  unfoldable pub resize :
      VerifiedFileEditor F → ℕ → Outcome IoError (Unit {0}) × VerifiedFileEditor F
  unfolding new_tail
  resize self size = after_new_tail self size (new_tail self size)
