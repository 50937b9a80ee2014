-- ===== src/Fsverity/Digest.antt =====
-- The fs-verity digest of fsverity/common.rs binds the root hash and the file size.
use android_packages_modules.Common.{
  ℕ, zero, suc, ◌+◌, ◌*◌, ◌/◌, ◌^◌, ◌<◌, ◌≡◌, ◌⊎◌, inl, inr, refl, sym, ap, ◌∙◌, List, [], ◌∷◌,
  ◌++◌, ok, arith, length, replicate, append-injective,
}
use native.Mathlib.Nat.{pow-suc}
use android_packages_modules.Crypto.{Sha256Ffi, Sha256Hash}
use android_packages_modules.Crypto.Digest.{
  IsSha256, Collision, flatten, hash_parts_lem, same_or_Collision,
}
use android_packages_modules.Fsverity.{to_le_bytes, descriptor_parts, build_fsverity_digest}

length-to_le_bytes : (width n : ℕ) → length (to_le_bytes width n) ≡ width
unfolding to_le_bytes
length-to_le_bytes zero n = refl
length-to_le_bytes (suc width) n = ap suc (length-to_le_bytes width (n / 256))

-- `from_le_bytes`
from_le_bytes : List ℕ → ℕ
from_le_bytes [] = 0
from_le_bytes (b ∷ bs) = b + 256 * from_le_bytes bs

from_le_bytes-to_le_bytes :
    (width n : ℕ) → n < 256 ^ width → from_le_bytes (to_le_bytes width n) ≡ n
unfolding from_le_bytes to_le_bytes
from_le_bytes-to_le_bytes zero n h = omega arith
from_le_bytes-to_le_bytes (suc width) n h =
    omega (arith, from_le_bytes-to_le_bytes width (n / 256) (omega (arith, pow-suc 256 width)))

to_le_bytes-injective :
    (width n m : ℕ)
    → n < 256 ^ width
    → m < 256 ^ width
    → to_le_bytes width n ≡ to_le_bytes width m
    → n ≡ m
to_le_bytes-injective width n m hn hm e =
    sym (from_le_bytes-to_le_bytes width n hn)
    ∙ (ap from_le_bytes e ∙ from_le_bytes-to_le_bytes width m hm)

-- The descriptor's bytes after the constant header.
descriptor_tail : Sha256Hash → ℕ → List ℕ
descriptor_tail root_hash file_size =
    to_le_bytes 8 file_size
    ++ (root_hash
        ++ flatten (
            replicate 32 0
            ∷ replicate 32 0
            ∷ replicate 32 0
            ∷ replicate 32 0
            ∷ replicate 32 0
            ∷ replicate 32 0
            ∷ replicate 16 0
            ∷ []))

descriptor_split :
    (root_hash : Sha256Hash) (file_size : ℕ)
    → flatten (descriptor_parts root_hash file_size)
      ≡ (1 ∷ 1 ∷ 12 ∷ 0 ∷ 0 ∷ 0 ∷ 0 ∷ 0 ∷ []) ++ descriptor_tail root_hash file_size
unfolding descriptor_parts descriptor_tail
descriptor_split root_hash file_size = refl

descriptor-injective :
    (r r' : Sha256Hash) (n n' : ℕ)
    → length r ≡ length r'
    → n < 2 ^ 64
    → n' < 2 ^ 64
    → flatten (descriptor_parts r n) ≡ flatten (descriptor_parts r' n')
    → (r ≡ r') × (n ≡ n')
unfolding descriptor_tail
descriptor-injective r r' n n' len hn hn' e =
    let header = 1 ∷ 1 ∷ 12 ∷ 0 ∷ 0 ∷ 0 ∷ 0 ∷ 0 ∷ [] in
    let tails =
      (append-injective header header _ _ refl
        (sym (descriptor_split r n) ∙ (e ∙ descriptor_split r' n'))).1 in
    let (sizes, rest) =
      append-injective (to_le_bytes 8 n) (to_le_bytes 8 n') _ _
        (length-to_le_bytes 8 n ∙ sym (length-to_le_bytes 8 n')) tails in
    let (roots, _) = append-injective r r' _ _ len rest in
    (roots, to_le_bytes-injective 8 n n' hn hn' sizes)

module _ {Ctx : Type 0} {ffi : Sha256Ffi Ctx} {digest : List ℕ → List ℕ}
    (sha : IsSha256 ffi digest) where
  pub build_fsverity_digest_lem :
      (r : Sha256Hash) (n : ℕ)
      → build_fsverity_digest ffi r n ≡ ok (digest (flatten (descriptor_parts r n)))
  unfolding build_fsverity_digest
  build_fsverity_digest_lem r n = hash_parts_lem sha _

  -- The fs-verity digest of a root hash and a size is computed without an error or a panic, and two
  -- files with one digest have one root hash and one size, or a SHA-256 collision is at hand. The
  -- root hashes have one length and the sizes are u64.
  pub build_fsverity_digest_binds :
      (r r' : Sha256Hash) (n n' : ℕ)
      → length r ≡ length r'
      → n < 2 ^ 64
      → n' < 2 ^ 64
      → build_fsverity_digest ffi r n ≡ build_fsverity_digest ffi r' n'
      → (value : Sha256Hash) × (build_fsverity_digest ffi r n ≡ ok value)
        × (((r ≡ r') × (n ≡ n')) ⊎ Collision digest)
  build_fsverity_digest_binds r r' n n' len hn hn' e =
      let same : digest (flatten (descriptor_parts r n))
          ≡ digest (flatten (descriptor_parts r' n')) =
        cc (build_fsverity_digest_lem r n, build_fsverity_digest_lem r' n') in
      (
        _,
        build_fsverity_digest_lem r n,
        elim (same_or_Collision digest _ _ same) [
          | inl messages ↦ inl (descriptor-injective r r' n n' len hn hn' messages)
          | inr collision ↦ inr collision
        ],
      )
