-- ===== src/Crypto/Toy.antt =====
-- A stand-in for the crypto library, to run the models: the digest of a message is its first 32 bytes,
-- but for the chunk of zeros.
use android_packages_modules.Common.{
  ℕ, ◌≡◌, refl, ap, Bool, true, false, some, List, [], ◌++◌, arith, bytes_eq, bytes_eq_refl, length,
  take, replicate, length-append, length-take, length-replicate,
}
use android_packages_modules.Crypto.{Sha256Ffi, hash_of_4096_zeros}
use android_packages_modules.Crypto.Digest.{IsSha256}

abbrev zero_byte : ℕ
zero_byte = 0

unfoldable pub toy_digest_if : Bool → List ℕ → List ℕ
toy_digest_if true m = hash_of_4096_zeros
toy_digest_if false m = take 32 (m ++ replicate 32 0)

unfoldable pub toy_digest : List ℕ → List ℕ
unfolding toy_digest_if
toy_digest m = toy_digest_if (bytes_eq m (replicate 4096 0)) m

abbrev pub toy : Sha256Ffi (List ℕ)
toy = record {
  sha256_init = some [];
  sha256_update = λ c bytes. some (c ++ bytes);
  sha256_final = λ c. some (toy_digest c);
}

length-zeros_hash : length hash_of_4096_zeros ≡ 32
unfolding hash_of_4096_zeros
length-zeros_hash = refl

length-toy_digest_if : (b : Bool) (m : List ℕ) → length (toy_digest_if b m) ≡ 32
unfolding toy_digest_if
length-toy_digest_if true m = length-zeros_hash
length-toy_digest_if false m =
    let padded = m ++ replicate 32 0 in
    omega (
      arith,
      length-take 32 padded,
      length-append m (replicate 32 0),
      length-replicate 32 zero_byte,
    )

length-toy_digest : (m : List ℕ) → length (toy_digest m) ≡ 32
unfolding toy_digest
length-toy_digest m = length-toy_digest_if (bytes_eq m (replicate 4096 0)) m

zeros-toy_digest : toy_digest (replicate 4096 0) ≡ hash_of_4096_zeros
unfolding toy_digest
zeros-toy_digest = ap (λ b. toy_digest_if b (replicate 4096 0)) (bytes_eq_refl (replicate 4096 0))

pub toy-IsSha256 : IsSha256 toy toy_digest
toy-IsSha256 = record {
  absorbed = λ c. c;
  init_lem = ([], refl, refl);
  update_lem = λ c bytes. (c ++ bytes, refl, refl);
  final_lem = λ c. refl;
  length_lem = length-toy_digest;
  zeros_lem = zeros-toy_digest;
}
