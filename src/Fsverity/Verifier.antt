-- ===== src/Fsverity/Verifier.antt =====
-- authfs/src/fsverity/verifier.rs and authfs/src/auth.rs: reading a file that is checked, chunk by
-- chunk, against a signed root hash. `verify` is the signature check of an `Authenticator`.
pub mod Walk
pub mod Binding
pub mod Positions
pub mod Honest
pub mod Complete
pub mod Built
use mathlib.Core.List.{reverse}
use android_packages_modules.Common.{
  ℕ, zero, suc, ◌+◌, ◌-◌, ◌*◌, ◌/◌, ◌%◌, ◌^◌, Option, none, some, Bool, true, false, not, List, [],
  ◌∷◌, ◌++◌, Outcome, ok, err, panic, stuck, ◌>>=◌, ◌>>◌, map_err, guard, assert, unwrap, leb, ◌==◌,
  bytes_eq, if◌then◌else◌, length, take, drop, replicate,
}
use android_packages_modules.Chunks.{chunk_size, u64_mod, divide_roundup}
use android_packages_modules.Crypto.{CryptoError, Sha256Ffi, Sha256Hash, hash_size, hash_parts}
use android_packages_modules.File.{IoError, os, eio, ReadByChunk}
use android_packages_modules.Fsverity.{
  FsverityError, bad_signature, insufficient_data, cannot_verify, io, unexpected_crypto_error,
  fs_verity_magic, fs_verity_hash_alg_sha256, merkle_tree_height, to_le_bytes,
  build_fsverity_digest,
}

abbrev pub hashes_per_node : ℕ
hashes_per_node = 128

abbrev pub Authenticator : Type 0
Authenticator = List ℕ → List ℕ → Outcome IoError Bool

-- `FakeAuthenticator`, with its flag.
abbrev pub fake_authenticator : Bool → Authenticator
fake_authenticator should_allow _ _ = ok should_allow

-- The divisor of `divide_roundup` for level `x`, which wraps to 0 from level 7 on.
unfoldable pub leaves_size_per_node : ℕ → ℕ
leaves_size_per_node x =
    let leaves_per_hash = hashes_per_node ^ x % u64_mod in
    let leaves_size_per_hash = chunk_size * leaves_per_hash % u64_mod in
    leaves_size_per_hash * hashes_per_node % u64_mod

-- The size of level `x` and the offset of the hash in it.
unfoldable pub level_position : ℕ → ℕ → ℕ → ℕ × ℕ
level_position chunk_index file_size x =
    let leaves_per_hash = hashes_per_node ^ x % u64_mod in
    let leaves_size_per_hash = chunk_size * leaves_per_hash % u64_mod in
    let leaves_size_per_node = leaves_size_per_hash * hashes_per_node % u64_mod in
    let nodes_at_level = divide_roundup file_size leaves_size_per_node in
    let level_size = nodes_at_level * chunk_size % u64_mod in
    let offset_in_level = chunk_index / leaves_per_hash * hash_size % u64_mod in
    (level_size, offset_in_level)

-- The chunk of the tree and the place in it, of a hash at a global offset.
abbrev pub split_offset : ℕ → ℕ × ℕ
split_offset global_hash_offset = (global_hash_offset / chunk_size, global_hash_offset % chunk_size)

-- The levels from `x` down to 0: `level_offset` is the state of the `scan`.
unfoldable pub root_to_leaf_steps : ℕ → ℕ → ℕ → ℕ → List (ℕ × ℕ)
root_to_leaf_steps chunk_index file_size zero level_offset =
    let (level_size, offset_in_level) = level_position chunk_index file_size 0 in
    split_offset ((level_offset + offset_in_level) % u64_mod) ∷ []
root_to_leaf_steps chunk_index file_size (suc x) level_offset =
    let (level_size, offset_in_level) = level_position chunk_index file_size (suc x) in
    split_offset ((level_offset + offset_in_level) % u64_mod)
    ∷ root_to_leaf_steps chunk_index file_size x ((level_offset + level_size) % u64_mod)

-- The steps from the leaf to the root. The steps are collected first, from the top level on, whose
-- divisor is 0 where any level's is: then the division panics.
unfoldable pub fsverity_walk : ℕ → ℕ → Outcome FsverityError (List (ℕ × ℕ))
unfolding leaves_size_per_node
fsverity_walk chunk_index file_size = do
  max_level ← unwrap (merkle_tree_height file_size)
  assert (not (leaves_size_per_node max_level == 0))
  ok (reverse (root_to_leaf_steps chunk_index file_size max_level 0))

module _ {Ctx : Type 0} (ffi : Sha256Ffi Ctx) where
  -- A chunk that is longer than `pad_to` makes the subtraction panic.
  unfoldable pub hash_with_padding : List ℕ → ℕ → Outcome CryptoError Sha256Hash
  hash_with_padding chunk pad_to =
      if leb (length chunk) pad_to
      then hash_parts ffi (chunk ∷ replicate (pad_to - length chunk) 0 ∷ [])
      else panic

  unfoldable pub build_fsverity_formatted_digest : Sha256Hash → ℕ → Outcome CryptoError (List ℕ)
  unfolding to_le_bytes
  build_fsverity_formatted_digest root_hash file_size = do
    digest ← build_fsverity_digest ffi root_hash file_size
    ok (
        fs_verity_magic
        ++ (to_le_bytes 2 fs_verity_hash_alg_sha256 ++ (to_le_bytes 2 hash_size ++ digest)))

  module _ {M : Type 0} (rd : ReadByChunk M) (merkle_tree : M) where
    -- The check of one step against the node that was read.
    unfoldable pub check_node : ℕ → Sha256Hash → ℕ × List ℕ → Outcome FsverityError Sha256Hash
    unfolding hash_with_padding
    check_node hash_offset_in_chunk actual_hash (size, merkle_chunk) = do
      assert (leb (hash_offset_in_chunk + hash_size) chunk_size)
      guard (bytes_eq actual_hash (take hash_size (drop hash_offset_in_chunk merkle_chunk)))
          cannot_verify
      map_err unexpected_crypto_error (hash_with_padding merkle_chunk chunk_size)

    -- `try_fold` over the walk, which reads each node when it comes to it.
    unfoldable pub check_steps : List (ℕ × ℕ) → Sha256Hash → Outcome FsverityError Sha256Hash
    unfolding check_node
    check_steps [] actual_hash = ok actual_hash
    check_steps ((chunk_index, hash_offset_in_chunk) ∷ rest) actual_hash = do
      node ← map_err io (rd.read_chunk merkle_tree chunk_index (replicate chunk_size 0))
      hash ← check_node hash_offset_in_chunk actual_hash node
      check_steps rest hash

    unfoldable pub verity_check : List ℕ → ℕ → ℕ → Outcome FsverityError Sha256Hash
    unfolding check_steps fsverity_walk
    verity_check chunk chunk_index file_size = do
      assert (not (file_size == 0))
      chunk_hash ← map_err unexpected_crypto_error (hash_with_padding chunk chunk_size)
      steps ← fsverity_walk chunk_index file_size
      check_steps steps chunk_hash

pub record VerifiedFileReader (F M : Type 0) : Type 0 where
  pub chunked_file : F
  pub file_size : ℕ
  pub merkle_tree : M
  pub root_hash : Sha256Hash

module _ {Ctx F M : Type 0} (ffi : Sha256Ffi Ctx) (file_rd : ReadByChunk F)
    (tree_rd : ReadByChunk M) where
  unfoldable pub new :
      Authenticator → F → ℕ → List ℕ → M → Outcome FsverityError (VerifiedFileReader F M)
  unfolding build_fsverity_formatted_digest
  new verify chunked_file file_size sig merkle_tree = do
    (size, buf) ← map_err io (tree_rd.read_chunk merkle_tree 0 (replicate chunk_size 0))
    guard (size == chunk_size) (insufficient_data size)
    root_hash ← map_err unexpected_crypto_error (hash_parts ffi (buf ∷ []))
    formatted_digest ←
        map_err unexpected_crypto_error (build_fsverity_formatted_digest ffi root_hash file_size)
    valid ← map_err io (verify sig formatted_digest)
    guard valid bad_signature
    ok (record {
      chunked_file = chunked_file;
      file_size = file_size;
      merkle_tree = merkle_tree;
      root_hash = root_hash;
    })

  -- The check of the chunk that was read; every error of it is EIO.
  unfoldable pub check_chunk :
      VerifiedFileReader F M → ℕ → ℕ × List ℕ → Outcome IoError (ℕ × List ℕ)
  unfolding verity_check
  check_chunk self chunk_index (size, buf) = do
    assert (leb size (length buf))
    root_hash ←
        map_err (λ e. os eio)
          (verity_check ffi tree_rd self.merkle_tree (take size buf) chunk_index self.file_size)
    guard (bytes_eq root_hash self.root_hash) (os eio)
    ok (size, buf)

  unfoldable pub read_chunk : VerifiedFileReader F M → ℕ → List ℕ → Outcome IoError (ℕ × List ℕ)
  unfolding check_chunk
  read_chunk self chunk_index buf = do
    read ← file_rd.read_chunk self.chunked_file chunk_index buf
    check_chunk self chunk_index read
