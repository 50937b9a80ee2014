-- ===== src/AuthFs/Pool.antt =====
-- Write requests of authfs/src/fusefs.rs and the pool of files.
use mathlib.Core.Path.{subst}
use android_packages_modules.Common.{
  ℕ, ◌+◌, ◌<◌, ◌≡◌, ◌⊎◌, refl, some, List, Outcome, ok, err, panic, stuck, ◌==◌, length, arith,
  Bool-cases, Option-cases, inl, inr,
}
use android_packages_modules.Chunks.{u64_mod}
use android_packages_modules.Crypto.{Sha256Ffi}
use android_packages_modules.Crypto.Digest.{IsSha256, Collision}
use android_packages_modules.File.{IoError, ReadByChunk, RandomWrite}
use android_packages_modules.Handles
use android_packages_modules.Fsverity.Editor.{VerifiedFileEditor}
use android_packages_modules.Fsverity.Editor.Content.{Content}
use android_packages_modules.Fsverity.Editor.Tracks.{Tracks}
use android_packages_modules.Fsverity.Editor.Write.{write_at-Wrote}
use android_packages_modules.AuthFs.{
  AuthFs, FileConfig, local_verified_readonly_file, local_unverified_readonly_file,
  remote_verified_readonly_file, remote_unverified_readonly_file, remote_verified_new_file,
}
use android_packages_modules.AuthFs.Update.{write_editor, write_config, write_file, put_editor}

module _ {L R T E : Type 0} where
  -- Each writable file of the pool has a tree that tracks some content.
  abbrev pub Tracked : (List ℕ → List ℕ) → AuthFs L R T E → Type 0
  Tracked digest self =
      (inode : ℕ) (editor : VerifiedFileEditor E)
      → Handles.get self.file_pool inode ≡ some (remote_verified_new_file editor)
      → (f : Content) × Tracks digest f editor.merkle_tree

  module _ {Ctx : Type 0} {ffi : Sha256Ffi Ctx} {digest : List ℕ → List ℕ}
      (sha : IsSha256 ffi digest) (local : ReadByChunk L) (remote : ReadByChunk R)
      (tree : ReadByChunk T) (backing : ReadByChunk E) (wr : RandomWrite E) where
    put_editor-Tracked :
        (self : AuthFs L R T E) (inode : ℕ) (editor : VerifiedFileEditor E) (f : Content)
        → Tracked digest self
        → Tracks digest f editor.merkle_tree
        → Tracked digest (put_editor self inode editor)
    put_editor-Tracked self inode editor f all new i other at = elim (Bool-cases (inode == i)) [
      | inl here ↦
          let same : editor ≡ other = ground arith in
          (f, subst (λ (e : VerifiedFileEditor E). Tracks digest f e.merkle_tree) same new)
      | inr away ↦ all i other (ground arith)
    ]

    write_editor-Tracked :
        (self : AuthFs L R T E) (inode : ℕ) (editor : VerifiedFileEditor E) (offset : ℕ)
        (buf : Outcome IoError (List ℕ))
        → ((bytes : List ℕ) → buf ≡ ok bytes → offset + length bytes < u64_mod)
        → Handles.get self.file_pool inode ≡ some (remote_verified_new_file editor)
        → Tracked digest self
        → Tracked digest
            (write_editor ffi local remote tree backing wr self inode editor offset buf).1
          ⊎ Collision digest
    write_editor-Tracked self inode editor offset (ok bytes) small at all =
        let (f, tracks) = all inode editor at in
        elim (write_at-Wrote sha backing wr f bytes offset editor (small bytes refl) tracks) [
          | inl (n, _, new, _) ↦ inl (put_editor-Tracked self inode _ _ all new)
          | inr collision ↦ inr collision
        ]
    write_editor-Tracked self inode editor offset (err e) small at all = inl all
    write_editor-Tracked self inode editor offset panic small at all = inl all
    write_editor-Tracked self inode editor offset stuck small at all = inl all

    write_config-Tracked :
        (self : AuthFs L R T E) (inode : ℕ) (buf : Outcome IoError (List ℕ)) (offset : ℕ)
        (config : FileConfig L R T E)
        → ((bytes : List ℕ) → buf ≡ ok bytes → offset + length bytes < u64_mod)
        → Handles.get self.file_pool inode ≡ some config
        → Tracked digest self
        → Tracked digest
            (write_config ffi local remote tree backing wr self inode buf offset config).1
          ⊎ Collision digest
    write_config-Tracked self inode buf offset (remote_verified_new_file editor) small at all =
        write_editor-Tracked self inode editor offset buf small at all
    write_config-Tracked self inode buf offset (local_verified_readonly_file r n) small at all =
        inl all
    write_config-Tracked self inode buf offset (local_unverified_readonly_file r n) small at all =
        inl all
    write_config-Tracked self inode buf offset (remote_verified_readonly_file r n) small at all =
        inl all
    write_config-Tracked self inode buf offset (remote_unverified_readonly_file r n) small at all =
        inl all

    -- A write request below 2 ^ 64 keeps every writable file of the pool with a tree that tracks some
    -- content, whatever the storage does, whatever the request returns; or a SHA-256 collision is at
    -- hand.
    pub write_file-Tracked :
        (self : AuthFs L R T E) (inode : ℕ) (buf : Outcome IoError (List ℕ)) (offset : ℕ)
        → ((bytes : List ℕ) → buf ≡ ok bytes → offset + length bytes < u64_mod)
        → Tracked digest self
        → Tracked digest (write_file ffi local remote tree backing wr self inode buf offset).1
          ⊎ Collision digest
    unfolding write_file
    write_file-Tracked self inode buf offset small all =
        elim (Option-cases (Handles.get self.file_pool inode)) [
          | inl gone ↦ rw (gone, write_file) (inl all)
          | inr (config, at) ↦
              rw (at, write_file) (write_config-Tracked self inode buf offset config small at all)
        ]
