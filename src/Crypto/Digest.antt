-- ===== src/Crypto/Digest.antt =====
-- What authfs relies on of the crypto library, and the digest that authfs/src/crypto.rs computes.
use mathlib.Core.Bool.{false≢true}
use mathlib.Core.List.{append-nil, append_assoc}
use android_packages_modules.Common.{
  ℕ, ◌≡◌, ◌≢◌, ◌⊎◌, inl, inr, refl, sym, ap, ◌∙◌, some, Bool-cases, bytes_eq, bytes_eq→eq,
  bytes_eq_refl, List, [], ◌∷◌, ◌++◌, ok, length, replicate,
}
use android_packages_modules.Crypto.{
  Sha256Ffi, Sha256Hasher, hash_of_4096_zeros, hash_size, update_from, hash_parts,
}

-- The documented behaviour of the three calls: they succeed, updates add up, and the result is a
-- function `digest` of the bytes that were added, of 32 bytes. `zeros_lem` is what the unit test
-- `sha256_of_4096_zeros` of crypto.rs checks.
pub record IsSha256 {Ctx : Type 0} (ffi : Sha256Ffi Ctx) (digest : List ℕ → List ℕ) : Type 0 where
  pub absorbed : Ctx → List ℕ
  pub init_lem : (c : Ctx) × (ffi.sha256_init ≡ some c) × (absorbed c ≡ [])
  pub update_lem :
      (c : Ctx) (bytes : List ℕ)
      → (c' : Ctx) × (ffi.sha256_update c bytes ≡ some c') × (absorbed c' ≡ absorbed c ++ bytes)
  pub final_lem : (c : Ctx) → ffi.sha256_final c ≡ some (digest (absorbed c))
  pub length_lem : (m : List ℕ) → length (digest m) ≡ hash_size
  pub zeros_lem : digest (replicate 4096 0) ≡ hash_of_4096_zeros

-- Two messages with one digest.
pub record Collision (digest : List ℕ → List ℕ) : Type 0 where
  pub one : List ℕ
  pub other : List ℕ
  pub differ : one ≢ other
  pub same_digest : digest one ≡ digest other

abbrev pub flatten {ℓ} : {A : Type ℓ} → List (List A) → List A
flatten [] = []
flatten (xs ∷ xss) = xs ++ flatten xss

module _ {Ctx : Type 0} {ffi : Sha256Ffi Ctx} {digest : List ℕ → List ℕ}
    (sha : IsSha256 ffi digest) where
  update_from_absorbed :
      (self : Sha256Hasher Ctx) (parts : List (List ℕ))
      → (self' : Sha256Hasher Ctx) × (update_from ffi self parts ≡ ok self')
        × (sha.absorbed self'.ctx ≡ sha.absorbed self.ctx ++ flatten parts)
  unfolding update_from
  update_from_absorbed self [] = (self, refl, sym (append-nil _))
  update_from_absorbed self (bytes ∷ rest) =
      let (c, e, a) = sha.update_lem self.ctx bytes in
      let next : Sha256Hasher Ctx = record { ctx = c } in
      let (self', e', a') = update_from_absorbed next rest in
      (
        self',
        rw e e',
        a' ∙ (ap (λ t. t ++ flatten rest) a ∙ append_assoc (sha.absorbed self.ctx) bytes _),
      )

  -- The chain of hasher calls returns the digest of the parts, one after the other.
  pub hash_parts_lem : (parts : List (List ℕ)) → hash_parts ffi parts ≡ ok (digest (flatten parts))
  unfolding hash_parts
  hash_parts_lem parts =
      let (c, e, a) = sha.init_lem in
      let self : Sha256Hasher Ctx = record { ctx = c } in
      let (self', e', a') = update_from_absorbed self parts in
      rw (e, e', sha.final_lem self'.ctx, a', a)

-- Two messages with one digest are the same, or a collision is at hand.
pub same_or_Collision :
    (digest : List ℕ → List ℕ) (a b : List ℕ) → digest a ≡ digest b → (a ≡ b) ⊎ Collision digest
same_or_Collision digest a b e = elim (Bool-cases (bytes_eq a b)) [
  | inl same ↦ inl (bytes_eq→eq a b same)
  | inr differ ↦ inr (record {
    one = a;
    other = b;
    differ = λ same. false≢true (sym differ ∙ (ap (bytes_eq a) (sym same) ∙ bytes_eq_refl a));
    same_digest = e;
  })
]
