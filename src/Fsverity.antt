-- ===== src/Fsverity.antt =====
-- authfs/src/fsverity/common.rs and sys.rs: errors, the height of the Merkle tree, and the fs-verity
-- digest of a root hash and a size.
pub mod Digest
pub mod Height
pub mod Merkle
pub mod Editor
pub mod Verifier
mod Tests
use android_packages_modules.Common.{
  ℕ, zero, suc, ◌+◌, ◌-◌, ◌*◌, ◌/◌, ◌%◌, Option, none, some, List, [], ◌∷◌, Outcome, ◌==◌,
  if◌then◌else◌, replicate,
}
use android_packages_modules.Chunks.{chunk_size, divide_roundup}
use android_packages_modules.Crypto.{CryptoError, Sha256Ffi, Sha256Hash, hash_size, hash_parts}
use android_packages_modules.File.{IoError}

pub data FsverityError : Type 0 where
  bad_signature : FsverityError
  insufficient_data : ℕ → FsverityError
  cannot_verify : FsverityError
  io : IoError → FsverityError
  unexpected_crypto_error : CryptoError → FsverityError
  invalid_state : FsverityError

abbrev pub fs_verity_version : ℕ
fs_verity_version = 1

abbrev pub fs_verity_hash_alg_sha256 : ℕ
fs_verity_hash_alg_sha256 = 1

abbrev pub fs_verity_log_blocksize : ℕ
fs_verity_log_blocksize = 12

-- b"FSVerity"
abbrev pub fs_verity_magic : List ℕ
fs_verity_magic = b'F' ∷ b'S' ∷ b'V' ∷ b'e' ∷ b'r' ∷ b'i' ∷ b't' ∷ b'y' ∷ []

-- The bits of a number of at most `fuel` bits: 64 - n.leading_zeros() for a u64.
unfoldable pub bit_length : ℕ → ℕ → ℕ
bit_length zero n = 0
bit_length (suc fuel) n = let rest = bit_length fuel (n / 2) in if n == 0 then 0 else suc rest

unfoldable pub leading_zeros : ℕ → ℕ
leading_zeros n = 64 - bit_length 64 n

unfoldable pub log128_ceil : ℕ → Option ℕ
log128_ceil num = if num == 0 then none else some (divide_roundup (64 - leading_zeros (num - 1)) 7)

-- The tree height, or `none` if the size is 0.
unfoldable pub merkle_tree_height : ℕ → Option ℕ
merkle_tree_height data_size =
    let hashes_per_node = chunk_size / hash_size in
    let hash_pages = divide_roundup data_size (hashes_per_node * chunk_size) in
    log128_ceil hash_pages

-- `to_le_bytes` of a number of `width` bytes.
unfoldable pub to_le_bytes : ℕ → ℕ → List ℕ
to_le_bytes zero n = []
to_le_bytes (suc width) n = (n % 256) ∷ to_le_bytes width (n / 256)

-- The parts of `struct fsverity_descriptor`, in order.
unfoldable pub descriptor_parts : Sha256Hash → ℕ → List (List ℕ)
unfolding to_le_bytes
descriptor_parts root_hash file_size =
    to_le_bytes 1 fs_verity_version
    ∷ to_le_bytes 1 fs_verity_hash_alg_sha256
    ∷ to_le_bytes 1 fs_verity_log_blocksize
    ∷ to_le_bytes 1 0
    ∷ to_le_bytes 4 0
    ∷ to_le_bytes 8 file_size
    ∷ root_hash
    ∷ replicate 32 0
    ∷ replicate 32 0
    ∷ replicate 32 0
    ∷ replicate 32 0
    ∷ replicate 32 0
    ∷ replicate 32 0
    ∷ replicate 16 0
    ∷ []

unfoldable pub build_fsverity_digest :
    {Ctx : Type 0} → Sha256Ffi Ctx → Sha256Hash → ℕ → Outcome CryptoError Sha256Hash
build_fsverity_digest ffi root_hash file_size =
    hash_parts ffi (descriptor_parts root_hash file_size)
