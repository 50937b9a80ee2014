-- ===== src/Crypto.antt =====
-- authfs/src/crypto.rs. The three SHA-256 calls of the crypto library are the parameter `ffi`: what
-- each returns is `none` where the C function returns 0.
pub mod Digest
pub mod Toy
use Prim.Native.String.{String}
use android_packages_modules.Common.{ℕ, Option, List, [], ◌∷◌, Outcome, ok, ok_or, ◌>>=◌}

pub data CryptoError : Type 0 where
  unexpected : String → CryptoError

-- SHA256_Init, SHA256_Update and SHA256_Final over a context of type `Ctx`.
pub record Sha256Ffi (Ctx : Type 0) : Type 0 where
  pub sha256_init : Option Ctx
  pub sha256_update : Ctx → List ℕ → Option Ctx
  pub sha256_final : Ctx → Option (List ℕ)

abbrev pub Sha256Hash : Type 0
Sha256Hash = List ℕ

pub record Sha256Hasher (Ctx : Type 0) : Type 0 where
  pub ctx : Ctx

abbrev pub hash_size : ℕ
hash_size = 32

unfoldable pub hash_of_4096_zeros : Sha256Hash
hash_of_4096_zeros =
    0xad ∷ 0x7f ∷ 0xac ∷ 0xb2 ∷ 0x58 ∷ 0x6f ∷ 0xc6 ∷ 0xe9 ∷ 0x66 ∷ 0xc0 ∷ 0x04 ∷ 0xd7 ∷ 0xd1 ∷ 0xd1
    ∷ 0x6b ∷ 0x02 ∷ 0x4f ∷ 0x58 ∷ 0x05 ∷ 0xff ∷ 0x7c ∷ 0xb4 ∷ 0x7c ∷ 0x7a ∷ 0x85 ∷ 0xda ∷ 0xbd
    ∷ 0x8b ∷ 0x48 ∷ 0x89 ∷ 0x2c ∷ 0xa7 ∷ []

module _ {Ctx : Type 0} (ffi : Sha256Ffi Ctx) where
  unfoldable pub new : Outcome CryptoError (Sha256Hasher Ctx)
  new = do ctx ← ok_or ffi.sha256_init (unexpected "SHA256_Init"); ok (record { ctx = ctx })

  unfoldable pub update : Sha256Hasher Ctx → List ℕ → Outcome CryptoError (Sha256Hasher Ctx)
  update self bytes = do
    ctx ← ok_or (ffi.sha256_update self.ctx bytes) (unexpected "SHA256_Update")
    ok (record { ctx = ctx })

  unfoldable pub update_from :
      Sha256Hasher Ctx → List (List ℕ) → Outcome CryptoError (Sha256Hasher Ctx)
  unfolding update
  update_from self [] = ok self
  update_from self (bytes ∷ rest) = do self' ← update self bytes; update_from self' rest

  unfoldable pub finalize : Sha256Hasher Ctx → Outcome CryptoError Sha256Hash
  finalize self = ok_or (ffi.sha256_final self.ctx) (unexpected "SHA256_Final")

  -- `Sha256Hasher::new()?.update(p1)? … .update(pn)?.finalize()`
  unfoldable pub hash_parts : List (List ℕ) → Outcome CryptoError Sha256Hash
  unfolding new update_from finalize
  hash_parts parts = do self ← new; self' ← update_from self parts; finalize self'
