-- ===== src/AuthFs/Sessions.antt =====
-- Sequences of the requests of authfs/src/fusefs.rs that change files, against the contents that the
-- clients have written.
pub mod Simulation
use mathlib.Core.Path.{subst}
use android_packages_modules.Common.{
  ℕ, ◌+◌, ◌*◌, ◌/◌, ◌^◌, ◌≤◌, ◌<◌, ◌≡◌, ◌≢◌, ◌⊎◌, refl, sym, some, List, [], ◌∷◌, Outcome, ok, err,
  panic, stuck, Bool, true, false, ◌==◌, if◌then◌else◌, length, take, arith, All, Bool-cases,
  Option-cases, inl, inr, tests,
}
use android_packages_modules.Chunks.{chunk_size, u64_mod}
use android_packages_modules.Crypto.{Sha256Ffi}
use android_packages_modules.Crypto.Digest.{IsSha256, Collision}
use android_packages_modules.File.{IoError, ReadByChunk, RandomWrite}
use android_packages_modules.Handles
use android_packages_modules.Fsverity.Editor.{VerifiedFileEditor}
use android_packages_modules.Fsverity.Editor
use android_packages_modules.Fsverity.Editor.AnyStorage.{ResizedTo, EndsBy}
use android_packages_modules.Fsverity.Editor.Content.{Content, splice}
use android_packages_modules.Fsverity.Editor.Tracks.{Tracks}
use android_packages_modules.Fsverity.Editor.Write.{write_at-Wrote}
use android_packages_modules.Fsverity.Verifier.Binding.{KeepsLength}
use android_packages_modules.AuthFs.{
  AuthFs, FileConfig, Stat, read_write, create_stat, local_verified_readonly_file,
  local_unverified_readonly_file, remote_verified_readonly_file, remote_unverified_readonly_file,
  remote_verified_new_file,
}
use android_packages_modules.AuthFs.Update.{
  SetattrValid, write_editor, write_config, write_file, put_editor, unsupported, after_size,
  set_editor, set_config, setattr,
}

-- A request to write or to set attributes, with what the handler is given.
pub data Call : Type 0 where
  write : (inode : ℕ) → Outcome IoError (List ℕ) → (offset : ℕ) → Call
  set_attributes : (inode size : ℕ) → SetattrValid → Call

pub data Reply : Type 0 where
  wrote : Outcome IoError ℕ → Reply
  attributes : Outcome IoError Stat → Reply

-- The ranges of writes and the new sizes that the file systems of clients have.
abbrev pub Small : Call → Type 0
Small (write inode buf offset) = (bytes : List ℕ) → buf ≡ ok bytes → offset + length bytes < u64_mod
Small (set_attributes inode size valid) = size < 2 ^ 63

abbrev pub Contents : Type 0
Contents = ℕ → Content

abbrev pub replace : Contents → ℕ → Content → Contents
replace contents inode f other = if inode == other then f else contents other

-- What a request does to the contents of the files, by its reply.
pub data Effect : Call → Reply → Contents → Contents → Type 0 where
  -- The first `n` bytes are written: all those that the reply counts, or some where it is an error.
  written :
      {inode offset : ℕ} {bytes : List ℕ} {result : Outcome IoError ℕ} {contents : Contents} (n : ℕ)
      → n ≤ length bytes
      → ((m : ℕ) → result ≡ ok m → m ≡ n)
      → Effect
          (write inode (ok bytes) offset)
          (wrote result)
          contents
          (replace contents inode (splice (contents inode) offset (take n bytes)))
  not_written :
      {inode offset : ℕ} {buf : Outcome IoError (List ℕ)} {result : Outcome IoError ℕ}
      {contents : Contents}
      → ((m : ℕ) → result ≢ ok m)
      → Effect (write inode buf offset) (wrote result) contents contents
  -- The bytes of the chunks before the one of the new end stay, and from the new end on they stay or
  -- become 0, where the reply is not an error all of those after the new last chunk. This happens only
  -- to a request that sets the size.
  resized :
      {inode size : ℕ} {valid : SetattrValid} {result : Outcome IoError Stat} {contents : Contents}
      (g : Content)
      → valid.size ≡ true
      → ResizedTo size (contents inode) g
      → ((st : Stat) → result ≡ ok st → (st.st_size ≡ size) × EndsBy size g)
      → Effect
          (set_attributes inode size valid)
          (attributes result)
          contents
          (replace contents inode g)
  not_resized :
      {inode size : ℕ} {valid : SetattrValid} {result : Outcome IoError Stat} {contents : Contents}
      → (valid.size ≡ true → (st : Stat) → result ≢ ok st)
      → Effect (set_attributes inode size valid) (attributes result) contents contents

-- The effects of requests one after the other.
pub data Effects : List Call → List Reply → Contents → Contents → Type 0 where
  no_more : {contents : Contents} → Effects [] [] contents contents
  and_then :
      {request : Call} {reply : Reply} {requests : List Call} {replies : List Reply}
      {before between after : Contents}
      → Effect request reply before between
      → Effects requests replies between after
      → Effects (request ∷ requests) (reply ∷ replies) before after

module _ {L R T E : Type 0} where
  -- The tree of each writable file tracks the content of its inode.
  abbrev pub Follows : (List ℕ → List ℕ) → AuthFs L R T E → Contents → Type 0
  Follows digest self contents =
      (inode : ℕ) (editor : VerifiedFileEditor E)
      → Handles.get self.file_pool inode ≡ some (remote_verified_new_file editor)
      → Tracks digest (contents inode) editor.merkle_tree

  module _ {Ctx : Type 0} (ffi : Sha256Ffi Ctx) (local : ReadByChunk L) (remote : ReadByChunk R)
      (tree : ReadByChunk T) (backing : ReadByChunk E) (wr : RandomWrite E) where
    abbrev pub serve : Call → AuthFs L R T E → Reply × AuthFs L R T E
    serve (write inode buf offset) self =
        let reply = write_file ffi local remote tree backing wr self inode buf offset in
        (wrote reply.0, reply.1)
    serve (set_attributes inode size valid) self =
        let reply = setattr ffi local remote tree backing wr self inode size valid in
        (attributes reply.0, reply.1)

    abbrev pub serve_all : List Call → AuthFs L R T E → List Reply × AuthFs L R T E
    serve_all [] self = ([], self)
    serve_all (request ∷ requests) self =
        let first = serve request self in
        let rest = serve_all requests first.1 in (first.0 ∷ rest.0, rest.1)
