-- ===== src/Fsverity/Verifier/Binding.antt =====
-- The checks of fsverity/verifier.rs bind the served data to the root hash.
use mathlib.Core.Path.{subst}
use mathlib.Core.List.{append-nil}
use android_packages_modules.Common.{
  ℕ, ◌+◌, ◌-◌, ◌≡◌, sym, ap, ◌∙◌, inl, inr, ◌⊎◌, List, [], ◌∷◌, ◌++◌, ok, >>=-eq-ok,
  guard->>=-eq-ok, assert->>=-eq-ok, map_err-eq-ok, eq-ok_unique, map_err, arith, leb, bytes_eq,
  bytes_eq→eq, Bool-cases, length, take, drop, replicate, not, ◌==◌,
}
use android_packages_modules.Chunks.{chunk_size}
use android_packages_modules.Crypto.{Sha256Ffi, Sha256Hash, hash_size}
use android_packages_modules.Crypto.Digest.{IsSha256, Collision, hash_parts_lem, same_or_Collision}
use android_packages_modules.File.{os, eio, ReadByChunk}
use android_packages_modules.Fsverity.{unexpected_crypto_error, io, cannot_verify}
use android_packages_modules.Fsverity.Verifier.{
  VerifiedFileReader, hash_with_padding, check_node, check_steps, verity_check, fsverity_walk,
  check_chunk, read_chunk,
}

-- A chunk buffer has the type `[u8; CHUNK_SIZE]`, before and after a call.
pub record KeepsLength {M : Type 0} (rd : ReadByChunk M) : Type 0 where
  pub keeps :
      (file : M) (index size : ℕ) (bytes : List ℕ)
      → rd.read_chunk file index (replicate chunk_size 0) ≡ ok (size, bytes)
      → length bytes ≡ chunk_size

-- A chunk with zeros up to the chunk size.
abbrev pub padded : List ℕ → List ℕ
padded chunk = chunk ++ replicate (chunk_size - length chunk) 0

module _ {Ctx : Type 0} {ffi : Sha256Ffi Ctx} {digest : List ℕ → List ℕ}
    (sha : IsSha256 ffi digest) where
  hash_with_padding-eq-ok :
      (chunk : List ℕ) (hash : Sha256Hash)
      → hash_with_padding ffi chunk chunk_size ≡ ok hash
      → hash ≡ digest (padded chunk)
  unfolding hash_with_padding
  hash_with_padding-eq-ok chunk hash h =
      let fill : List ℕ = replicate (chunk_size - length chunk) 0 in
      let value =
        hash_parts_lem sha (chunk ∷ fill ∷ [])
        ∙ ap (λ z. ok (digest (chunk ++ z))) (append-nil fill) in
      elim (Bool-cases (leb (length chunk) chunk_size)) [
        | inl fits ↦ ground arith
        | inr long ↦ ground arith
      ]

  module _ {M : Type 0} (rd : ReadByChunk M) where
    -- A node that passes holds the hash below it, and hands on its own digest.
    pub check_node-eq-ok :
        (offset : ℕ) (actual hash : Sha256Hash) (size : ℕ) (node : List ℕ)
        → (tree : M) → check_node ffi rd tree offset actual (size, node) ≡ ok hash
        → (actual ≡ take hash_size (drop offset node)) × (hash ≡ digest (padded node))
    unfolding check_node
    check_node-eq-ok offset actual hash size node tree h =
        let (_, guarded) = assert->>=-eq-ok (leb (offset + hash_size) chunk_size) _ h in
        let (same, hashed) =
          guard->>=-eq-ok (bytes_eq actual (take hash_size (drop offset node))) cannot_verify _
            guarded in
        (
          bytes_eq→eq actual (take hash_size (drop offset node)) same,
          hash_with_padding-eq-ok node hash (
              map_err-eq-ok unexpected_crypto_error (hash_with_padding ffi node chunk_size) hashed),
        )

    -- A check that passes: the run of `check_steps` that it is.
    pub verity_check-eq-ok :
        (tree : M) (chunk : List ℕ) (index file_size : ℕ) (root : Sha256Hash)
        → verity_check ffi rd tree chunk index file_size ≡ ok root
        → (steps : List (ℕ × ℕ)) × (fsverity_walk index file_size ≡ ok steps)
          × (check_steps ffi rd tree steps (digest (padded chunk)) ≡ ok root)
    unfolding verity_check
    verity_check-eq-ok tree chunk index file_size root h =
        let (_, a) = assert->>=-eq-ok (not (file_size == 0)) _ h in
        let (hash, leaf, b) =
          >>=-eq-ok (map_err unexpected_crypto_error (hash_with_padding ffi chunk chunk_size)) _
            a in
        let (steps, walk, c) = >>=-eq-ok (fsverity_walk index file_size) _ b in
        let e =
          hash_with_padding-eq-ok chunk hash
            (map_err-eq-ok unexpected_crypto_error (hash_with_padding ffi chunk chunk_size) leaf) in
        (steps, walk, subst (λ x. check_steps ffi rd tree steps x ≡ ok root) e c)

pub padded_full : (node : List ℕ) → length node ≡ chunk_size → padded node ≡ node
padded_full node h =
    let e : chunk_size - length node ≡ 0 = omega arith in
    ap (λ n. node ++ replicate n 0) e ∙ (unfold replicate in append-nil node)

module _ {Ctx M N : Type 0} {ffi : Sha256Ffi Ctx} {digest : List ℕ → List ℕ}
    (sha : IsSha256 ffi digest) (rd : ReadByChunk M) (rd' : ReadByChunk N) (keeps : KeepsLength rd)
    (keeps' : KeepsLength rd') (tree : M) (tree' : N) where
  -- Two nodes with one digest hold the same hashes.
  nodes_agree :
      (offset : ℕ) (node node' : List ℕ)
      → length node ≡ chunk_size
      → length node' ≡ chunk_size
      → digest (padded node) ≡ digest (padded node')
      → (take hash_size (drop offset node) ≡ take hash_size (drop offset node')) ⊎ Collision digest
  nodes_agree offset node node' n n' e =
      elim (same_or_Collision digest (padded node) (padded node') e) [
        | inl same ↦ inl (
            ap (λ m. take hash_size (drop offset m))
              (sym (padded_full node n) ∙ (same ∙ padded_full node' n')))
        | inr collision ↦ inr collision
      ]

  -- Runs over the same places of two trees that end in one root hash began with one hash.
  check_steps_agree :
      (steps : List (ℕ × ℕ)) (hash hash' root : Sha256Hash)
      → check_steps ffi rd tree steps hash ≡ ok root
      → check_steps ffi rd' tree' steps hash' ≡ ok root
      → (hash ≡ hash') ⊎ Collision digest
  unfolding check_steps
  check_steps_agree [] hash hash' root h h' = inl cc
  check_steps_agree ((index, offset) ∷ rest) hash hash' root h h' =
      let zeros : List ℕ = replicate chunk_size 0 in
      let (node, read, checked) = >>=-eq-ok (map_err io (rd.read_chunk tree index zeros)) _ h in
      let (node', read', checked') =
        >>=-eq-ok (map_err io (rd'.read_chunk tree' index zeros)) _ h' in
      let (up, step, more) = >>=-eq-ok (check_node ffi rd tree offset hash node) _ checked in
      let (up', step', more') =
        >>=-eq-ok (check_node ffi rd' tree' offset hash' node') _ checked' in
      let (below, own) = check_node-eq-ok sha rd offset hash up node.0 node.1 tree step in
      let (below', own') = check_node-eq-ok sha rd' offset hash' up' node'.0 node'.1 tree' step' in
      let n =
        keeps.keeps tree index node.0 node.1
          (map_err-eq-ok io (rd.read_chunk tree index zeros) read) in
      let n' =
        keeps'.keeps tree' index node'.0 node'.1
          (map_err-eq-ok io (rd'.read_chunk tree' index zeros) read') in
      elim (check_steps_agree rest up up' root more more') [
        | inl same ↦ elim (nodes_agree offset node.1 node'.1 n n' (sym own ∙ (same ∙ own'))) [
          | inl slices ↦ inl (below ∙ (slices ∙ sym below'))
          | inr collision ↦ inr collision
        ]
        | inr collision ↦ inr collision
      ]

  -- Two chunks that pass the check at one index, for one file size, with one root hash, are the same
  -- but for zeros at the end, whatever the two trees are; or a SHA-256 collision is at hand.
  pub verity_check_binds :
      (chunk chunk' : List ℕ) (index file_size : ℕ) (root : Sha256Hash)
      → verity_check ffi rd tree chunk index file_size ≡ ok root
      → verity_check ffi rd' tree' chunk' index file_size ≡ ok root
      → (padded chunk ≡ padded chunk') ⊎ Collision digest
  verity_check_binds chunk chunk' index file_size root h h' =
      let (steps, walk, c) = verity_check-eq-ok sha rd tree chunk index file_size root h in
      let (steps', walk', c') = verity_check-eq-ok sha rd' tree' chunk' index file_size root h' in
      let same : steps' ≡ steps = eq-ok_unique (fsverity_walk index file_size) walk' walk in
      let d = subst (λ z. check_steps ffi rd' tree' z (digest (padded chunk')) ≡ ok root) same c' in
      elim (check_steps_agree steps (digest (padded chunk)) (digest (padded chunk')) root c d) [
        | inl e ↦ same_or_Collision digest (padded chunk) (padded chunk') e
        | inr collision ↦ inr collision
      ]

check_chunk-eq-ok :
    {Ctx M F : Type 0} (ffi : Sha256Ffi Ctx) (file_rd : ReadByChunk F) (rd : ReadByChunk M)
    (self : VerifiedFileReader F M) (index size : ℕ) (buf : List ℕ) (out : ℕ × List ℕ)
    → check_chunk ffi file_rd rd self index (size, buf) ≡ ok out
    → (out ≡ (size, buf))
      × (verity_check ffi rd self.merkle_tree (take size buf) index self.file_size
          ≡ ok self.root_hash)
unfolding check_chunk
check_chunk-eq-ok ffi file_rd rd self index size buf out h =
    let check = verity_check ffi rd self.merkle_tree (take size buf) index self.file_size in
    let (_, a) = assert->>=-eq-ok (leb size (length buf)) _ h in
    let (root, passed, b) = >>=-eq-ok (map_err (λ e. os eio) check) _ a in
    let (same, c) = guard->>=-eq-ok (bytes_eq root self.root_hash) (os eio) _ b in
    let e = bytes_eq→eq root self.root_hash same in
    (cc c, cc (map_err-eq-ok (λ e. os eio) check passed, e))

read_chunk-eq-ok :
    {Ctx M F : Type 0} (ffi : Sha256Ffi Ctx) (file_rd : ReadByChunk F) (rd : ReadByChunk M)
    (self : VerifiedFileReader F M) (index size : ℕ) (buf bytes : List ℕ)
    → read_chunk ffi file_rd rd self index buf ≡ ok (size, bytes)
    → verity_check ffi rd self.merkle_tree (take size bytes) index self.file_size
      ≡ ok self.root_hash
unfolding read_chunk
read_chunk-eq-ok ffi file_rd rd self index size buf bytes h =
    let (read, _, checked) = >>=-eq-ok (file_rd.read_chunk self.chunked_file index buf) _ h in
    let (same, passed) =
      check_chunk-eq-ok ffi file_rd rd self index read.0 read.1 (size, bytes) checked in
    subst
      (λ o.
        verity_check ffi rd self.merkle_tree (take o.0 o.1) index self.file_size
        ≡ ok self.root_hash)
      (sym same) passed

module _ {Ctx M N F G : Type 0} {ffi : Sha256Ffi Ctx} {digest : List ℕ → List ℕ}
    (sha : IsSha256 ffi digest) (rd : ReadByChunk M) (rd' : ReadByChunk N) (file_rd : ReadByChunk F)
    (file_rd' : ReadByChunk G) (keeps : KeepsLength rd) (keeps' : KeepsLength rd') where
  -- Two verified readers with one root hash and one file size, whatever their files and trees are,
  -- serve the same data for a chunk, but for zeros at its end; or a SHA-256 collision is at hand.
  pub read_chunk_binds :
      (self : VerifiedFileReader F M) (self' : VerifiedFileReader G N) (index size size' : ℕ)
      (buf buf' bytes bytes' : List ℕ)
      → self.root_hash ≡ self'.root_hash
      → self.file_size ≡ self'.file_size
      → read_chunk ffi file_rd rd self index buf ≡ ok (size, bytes)
      → read_chunk ffi file_rd' rd' self' index buf' ≡ ok (size', bytes')
      → (padded (take size bytes) ≡ padded (take size' bytes')) ⊎ Collision digest
  read_chunk_binds self self' index size size' buf buf' bytes bytes' root len h h' =
      let c = read_chunk-eq-ok ffi file_rd rd self index size buf bytes h in
      let c' = read_chunk-eq-ok ffi file_rd' rd' self' index size' buf' bytes' h' in
      verity_check_binds sha rd rd' keeps keeps' self.merkle_tree self'.merkle_tree
        (take size bytes) (take size' bytes') index self.file_size self.root_hash c cc
