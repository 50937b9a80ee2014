-- ===== src/Fsverity/Editor/Write.antt =====
-- `write_at` of fsverity/editor.rs keeps the tree in step with what was written, whatever the
-- storage returns.
use mathlib.Core.Path.{fun_ext, subst}
use android_packages_modules.Common.{
  ℕ, ◌+◌, ◌-◌, ◌/◌, ◌%◌, ◌≤◌, ◌<◌, ◌≡◌, refl, sym, ap, ◌∙◌, inl, inr, ◌⊎◌, some, List, [], ◌∷◌,
  Outcome, ok, err, panic, stuck, arith, length, take, drop, length-take, length-drop,
}
use android_packages_modules.Chunks.{chunk_size, u64_mod, items}
use android_packages_modules.Chunks
use android_packages_modules.Chunks.Cuts.{Cuts, items-Cuts}
use android_packages_modules.Crypto.{Sha256Ffi, Sha256Hash}
use android_packages_modules.Crypto.Digest.{IsSha256, Collision}
use android_packages_modules.File.{IoError, ReadByChunk, RandomWrite}
use android_packages_modules.Fsverity.Merkle.{MerkleLeaves}
use android_packages_modules.Fsverity.Editor.{
  VerifiedFileEditor, new_chunk_hash, after_file_write, after_new_hash, write_loop, write_at,
  size_at_least,
}
use android_packages_modules.Fsverity.Editor.Content.{Content, splice}
use android_packages_modules.Fsverity.Editor.Content.Splice.{splice-splice_at, splice_nil}
use android_packages_modules.Fsverity.Editor.Tracks.{
  Tracks, update_hash-Tracks, new_chunk_hash-digest,
}

splice-splice :
    (f : Content) (offset start size : ℕ) (buf : List ℕ)
    → offset ≤ start
    → start - offset + size ≤ length buf
    → splice
        (splice f offset (take (start - offset) buf))
        start
        (take size (drop (start - offset) buf))
      ≡ splice f offset (take (start + size - offset) buf)
splice-splice f offset start size buf lo h =
    let done = start - offset in
    let e : offset + done ≡ start = omega arith in
    let n : done + size ≡ start + size - offset = omega arith in
    ap (λ o. splice (splice f offset (take done buf)) o (take size (drop done buf))) (sym e)
    ∙ (fun_ext (λ i. splice-splice_at f offset done size buf i h)
        ∙ ap (λ m. splice f offset (take m buf)) n)

-- What a write promises of its result and of the editor after it: the tree tracks the content with
-- the first `n` bytes written, and a size that is returned is `n`; or a SHA-256 collision is at hand.
abbrev pub Wrote :
    {F : Type 0}
    → (List ℕ → List ℕ)
    → Content
    → ℕ
    → List ℕ
    → Outcome IoError ℕ × VerifiedFileEditor F
    → Type 0
Wrote digest f offset buf (result, self) =
    ((n : ℕ) × (n ≤ length buf)
      × Tracks digest (splice f offset (take n buf)) self.merkle_tree
      × ((m : ℕ) → result ≡ ok m → m ≡ n))
    ⊎ Collision digest

module _ {Ctx F : Type 0} {ffi : Sha256Ffi Ctx} {digest : List ℕ → List ℕ}
    (sha : IsSha256 ffi digest) (rd : ReadByChunk F) (wr : RandomWrite F) (f : Content)
    (buf : List ℕ) (offset : ℕ) where
  abbrev content : ℕ → Content
  content start = splice f offset (take (start - offset) buf)

  abbrev W : Outcome IoError ℕ × VerifiedFileEditor F → Type 0
  W = Wrote digest f offset buf

  file_write-Wrote :
      (next : F → Outcome IoError ℕ × VerifiedFileEditor F) (tree : MerkleLeaves) (start : ℕ)
      (r : Outcome IoError (Unit {0}) × F)
      → start - offset ≤ length buf
      → Tracks digest (content start) tree
      → ((file : F) → W (next file))
      → W (after_file_write ffi rd wr next tree r)
  file_write-Wrote next tree start (ok u, file) h t k = k file
  file_write-Wrote next tree start (err e, file) h t k = inl (start - offset, h, t, λ m p. cc)
  file_write-Wrote next tree start (panic, file) h t k = inl (start - offset, h, t, λ m p. cc)
  file_write-Wrote next tree start (stuck, file) h t k = inl (start - offset, h, t, λ m p. cc)

  new_hash-Wrote :
      (next : Sha256Hash → Outcome IoError ℕ × VerifiedFileEditor F) (self : VerifiedFileEditor F)
      (start : ℕ) (r : Outcome IoError Sha256Hash)
      → start - offset ≤ length buf
      → Tracks digest (content start) self.merkle_tree
      → ((hash : Sha256Hash) → r ≡ ok hash → W (next hash))
      → W (after_new_hash ffi rd wr next self (start - offset) r)
  new_hash-Wrote next self start (ok hash) h t k = k hash refl
  new_hash-Wrote next self start (err e) h t k = inl (start - offset, h, t, λ m p. ground arith)
  new_hash-Wrote next self start panic h t k = inl (start - offset, h, t, λ m p. cc)
  new_hash-Wrote next self start stuck h t k = inl (start - offset, h, t, λ m p. cc)

  -- The content after one round.
  round_content :
      (start size : ℕ)
      → offset ≤ start
      → start - offset + size ≤ length buf
      → (tree : MerkleLeaves)
      → Tracks digest (splice (content start) start (take size (drop (start - offset) buf))) tree
      → Tracks digest (content (start + size)) tree
  round_content start size lo h tree =
      subst (λ g. Tracks digest g tree) (splice-splice f offset start size buf lo h)

  length-source :
      (start size : ℕ)
      → start - offset + size ≤ length buf
      → length (take size (drop (start - offset) buf)) ≡ size
  length-source start size h =
      omega (arith, length-take size (drop (start - offset) buf), length-drop (start - offset) buf)

  write_loop-Wrote :
      (pieces : List (ℕ × ℕ)) (self : VerifiedFileEditor F) (start remaining : ℕ)
      → offset ≤ start
      → start + remaining ≡ offset + length buf
      → Cuts chunk_size start remaining pieces
      → Tracks digest (content start) self.merkle_tree
      → W (write_loop ffi rd wr buf offset pieces self)
  unfolding write_loop
  write_loop-Wrote [] self start remaining lo all cuts t =
      inl (
        start - offset,
        omega arith,
        t,
        λ m p. let q : length buf ≡ m = ground arith in omega arith,
      )
  write_loop-Wrote ((at, size) ∷ rest) self start remaining lo all cuts t =
      let (here, some_bytes, fits, inside, _, more) = cuts in
      let source = take size (drop (start - offset) buf) in
      let room : start - offset + size ≤ length buf = omega arith in
      let len = length-source start size room in
      subst (λ a. W (write_loop ffi rd wr buf offset ((a, size) ∷ rest) self)) (sym here)
        (new_hash-Wrote _ self start _ (omega arith) t λ hash e.
          elim (new_chunk_hash-digest sha rd wr (content start) self start source hash t
            (omega (arith, len))
            (ap
                (λ n.
                  new_chunk_hash ffi rd wr self source (start % chunk_size) n (start / chunk_size))
                len
              ∙ e)) [
                | inl new ↦ file_write-Wrote _ self.merkle_tree start _ (omega arith) t λ file.
                    write_loop-Wrote rest _ (start + size) (remaining - size) (omega arith)
                      (omega arith) more
                      (round_content start size lo room _ (
                        update_hash-Tracks sha rd wr (content start) self.merkle_tree start source
                          hash (size_at_least buf offset) t (omega (arith, len)) new))
                | inr collision ↦ inr collision
              ])

  write_at_pieces :
      (pieces : List (ℕ × ℕ)) (self : VerifiedFileEditor F)
      → items (Chunks.new (length buf) offset chunk_size) ≡ some pieces
      → write_at ffi rd wr buf offset self ≡ write_loop ffi rd wr buf offset pieces self
  unfolding write_at
  write_at_pieces pieces self e = rw (e, write_at)

  -- From a tree that tracks the content, a write whose range stays below 2 ^ 64 leaves a tree that
  -- tracks the content with the first bytes of the buffer written: as many as it returns, where it
  -- returns a size, and some number of them where it fails. This holds for every storage, whatever
  -- it returns and stores; the alternative is a SHA-256 collision.
  pub write_at-Wrote :
      (self : VerifiedFileEditor F)
      → offset + length buf < u64_mod
      → Tracks digest f self.merkle_tree
      → Wrote digest f offset buf (write_at ffi rd wr buf offset self)
  write_at-Wrote self h t =
      let (pieces, e, cuts) = items-Cuts (length buf) offset chunk_size (omega arith) h in
      let n : offset - offset ≡ 0 = omega arith in
      let same : splice f offset (take (offset - offset) buf) ≡ f =
        ap (λ m. splice f offset (take m buf)) n ∙ fun_ext (splice_nil f offset) in
      subst W (sym (write_at_pieces pieces self e)) (
        write_loop-Wrote pieces self offset (length buf) (omega arith) refl cuts
          (subst (λ g. Tracks digest g self.merkle_tree) (sym same) t))
