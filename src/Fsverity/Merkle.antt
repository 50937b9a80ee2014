-- ===== src/Fsverity/Merkle.antt =====
-- authfs/src/fsverity/builder.rs: the leaves of the Merkle tree of a file that is being written.
pub mod Leaves
pub mod Root
pub mod Levels
pub mod Bytes
use android_packages_modules.Common.{
  ℕ, zero, suc, ◌+◌, ◌-◌, ◌*◌, ◌/◌, ◌%◌, ◌≡◌, refl, Option, none, some, Bool, true, false, ◌&&◌,
  List, [], ◌∷◌, ◌++◌, Outcome, ok, err, panic, ◌>>=◌, map_err, map_ok, unwrap, ltb, leb, ◌==◌,
  bytes_eq, if◌then◌else◌, length, get_elem?, set, take, drop, replicate,
}
use android_packages_modules.Chunks.{chunk_size, u64_mod, divide_roundup}
use android_packages_modules.Crypto.{
  CryptoError, Sha256Ffi, Sha256Hash, hash_size, hash_of_4096_zeros, hash_parts,
}
use android_packages_modules.Fsverity.{
  FsverityError, unexpected_crypto_error, invalid_state, merkle_tree_height, build_fsverity_digest,
}

abbrev pub hash_per_page : ℕ
hash_per_page = 128

pub record MerkleLeaves : Type 0 where
  pub leaves : List Sha256Hash
  pub file_size : ℕ

-- `slice::chunks(size)`; each piece takes an element at least, so the length bounds the pieces.
unfoldable pub chunks_fuel {ℓ} : {A : Type ℓ} → ℕ → ℕ → List A → List (List A)
chunks_fuel zero size xs = []
chunks_fuel (suc fuel) size [] = []
chunks_fuel (suc fuel) size (x ∷ xs) =
    take size (x ∷ xs) ∷ chunks_fuel fuel size (drop size (x ∷ xs))

abbrev pub chunks {ℓ} : {A : Type ℓ} → ℕ → List A → List (List A)
chunks size xs = chunks_fuel (length xs) size xs

-- `Vec::resize(size, value)`
unfoldable pub resize_vec {ℓ} : {A : Type ℓ} → List A → ℕ → A → List A
resize_vec xs size value = take size xs ++ replicate (size - length xs) value

unfoldable pub new : MerkleLeaves
new = record { leaves = []; file_size = 0 }

unfoldable pub resize : MerkleLeaves → ℕ → MerkleLeaves
unfolding resize_vec divide_roundup
resize self new_file_size =
    let leaves_size = divide_roundup new_file_size chunk_size in
    record {
      leaves = resize_vec self.leaves leaves_size hash_of_4096_zeros;
      file_size = new_file_size;
    }

unfoldable pub update_hash : MerkleLeaves → ℕ → Sha256Hash → ℕ → MerkleLeaves
unfolding resize_vec
update_hash self index hash size_at_least =
    let grown =
      if ltb (length self.leaves) (index + 1)
      then resize_vec self.leaves (index + 1) hash_of_4096_zeros
      else self.leaves in
    record {
      leaves = set grown index hash;
      file_size = if ltb self.file_size size_at_least then size_at_least else self.file_size;
    }

unfoldable pub is_index_valid : MerkleLeaves → ℕ → Bool
is_index_valid self index = ltb index (length self.leaves)

unfoldable pub is_consistent : MerkleLeaves → ℕ → Sha256Hash → Bool
is_consistent self index hash = elim (get_elem? self.leaves index) [
  | some element ↦ bytes_eq element hash
  | none ↦ false
]

-- The `debug_assert`s of `calculate_root_hash`, which a release build leaves out.
unfoldable pub root_debug_asserts : MerkleLeaves → Bool
root_debug_asserts self = elim self.leaves [
  | [] ↦ self.file_size == 0
  | leaf ∷ rest ↦ elim rest [
    | [] ↦ leb self.file_size chunk_size && ltb 0 self.file_size
    | _ ↦ (self.file_size - 1) / chunk_size == length self.leaves
  ]
]

module _ {Ctx : Type 0} (ffi : Sha256Ffi Ctx) where
  unfoldable pub hash_page : List Sha256Hash → Outcome CryptoError Sha256Hash
  hash_page chunk =
      let padding_bytes = (hash_per_page - length chunk) * hash_size in
      hash_parts ffi (chunk ++ (replicate padding_bytes 0 ∷ []))

  unfoldable pub hash_all_pages : List Sha256Hash → Outcome CryptoError (List Sha256Hash)
  unfolding hash_page map_ok chunks_fuel
  hash_all_pages source = map_ok hash_page (chunks hash_per_page source)

  -- `(1..=level).try_fold(source, |source, _| hash_all_pages(&source))`
  unfoldable pub fold_pages : ℕ → List Sha256Hash → Outcome CryptoError (List Sha256Hash)
  fold_pages zero source = ok source
  fold_pages (suc level) source = do hashes ← hash_all_pages source; fold_pages level hashes

  unfoldable pub single_hash : List Sha256Hash → Outcome FsverityError Sha256Hash
  single_hash (hash ∷ []) = ok hash
  single_hash _ = err invalid_state

  -- The match arm for two leaves or more.
  unfoldable pub root_of_leaves : List Sha256Hash → Outcome FsverityError Sha256Hash
  unfolding fold_pages single_hash
  root_of_leaves leaves = do
    level ← unwrap (merkle_tree_height (length leaves * chunk_size % u64_mod))
    second_level ← map_err unexpected_crypto_error (hash_all_pages leaves)
    hashes ← map_err unexpected_crypto_error (fold_pages level second_level)
    single_hash hashes

  -- The match on the number of leaves.
  unfoldable pub root_hash_of : List Sha256Hash → Outcome FsverityError Sha256Hash
  unfolding root_of_leaves
  root_hash_of [] = ok (replicate hash_size 0)
  root_hash_of (leaf ∷ []) = ok leaf
  root_hash_of (leaf ∷ next ∷ rest) = root_of_leaves (leaf ∷ next ∷ rest)

  unfoldable pub calculate_root_hash : MerkleLeaves → Outcome FsverityError Sha256Hash
  unfolding root_hash_of
  calculate_root_hash self = root_hash_of self.leaves

  unfoldable pub calculate_fsverity_digest : MerkleLeaves → Outcome FsverityError Sha256Hash
  unfolding calculate_root_hash
  calculate_fsverity_digest self = do
    root_hash ← calculate_root_hash self
    map_err unexpected_crypto_error (build_fsverity_digest ffi root_hash self.file_size)
