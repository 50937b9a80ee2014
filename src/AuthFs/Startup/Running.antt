-- ===== src/AuthFs/Startup/Running.antt =====
-- The file system from its start in authfs/src/main.rs through any requests that change files.
use mathlib.Core.Path.{subst}
use android_packages_modules.Common.{ℕ, ℤ, ◌≡◌, ◌⊎◌, sym, List, Outcome, ok, All}
use android_packages_modules.Crypto.{Sha256Ffi}
use android_packages_modules.Crypto.Digest.{IsSha256, Collision}
use android_packages_modules.Fsverity.Editor.Tracks.{Tracks}
use android_packages_modules.Handles.{HandleMap}
use android_packages_modules.Remote.{
  VirtFdService, LocalFileReader, local_reader, remote_file_reader, remote_merkle_tree_reader,
  remote_file_editor,
}
use android_packages_modules.Remote.Buffers.{remote_file_reader-KeepsLength}
use android_packages_modules.AuthFs.{AuthFs}
use android_packages_modules.AuthFs.Options.{Args}
use android_packages_modules.AuthFs.Sessions.{
  Call, Reply, Small, Contents, Effects, Follows, serve_all,
}
use android_packages_modules.AuthFs.Sessions.Simulation.{serve_all-Effects}
use android_packages_modules.AuthFs.Startup.{
  StartError, RemoteFile, Host, PoolFile, prepare_file_pool,
}
use android_packages_modules.AuthFs.Startup.Fresh.{no_content, new-Tracks, prepare_file_pool-Fresh}

module _ {Ctx F V : Type 0} (ffi : Sha256Ffi Ctx) (host : Host F)
    (calls : VirtFdService (RemoteFile V)) where
  -- The requests of the file system over the readers and the writer of its files.
  abbrev pub run :
      List Call
      → AuthFs (LocalFileReader F) (RemoteFile V) (RemoteFile V) (RemoteFile V)
      → List Reply × AuthFs (LocalFileReader F) (RemoteFile V) (RemoteFile V) (RemoteFile V)
  run =
      serve_all ffi (local_reader host.local) (remote_file_reader calls)
        (remote_merkle_tree_reader calls) (remote_file_reader calls) (remote_file_editor calls)

module _ {Ctx F V : Type 0} {ffi : Sha256Ffi Ctx} {digest : List ℕ → List ℕ}
    (sha : IsSha256 ffi digest) (host : Host F) (service : V)
    (read_signature : V → ℤ → Outcome StartError (List ℕ))
    (calls : VirtFdService (RemoteFile V)) where
  -- Any sequence of write requests below 2 ^ 64 and changes of attributes with sizes below 2 ^ 63, from
  -- the pool that the file system starts with, leaves trees that track contents which come about from
  -- empty files by the effects of the requests, as their replies say, whatever the remote service
  -- returns: a write that returns a size has written so many bytes and no others. A change of
  -- attributes changes a content only when it sets the size: it keeps the chunks before that of the
  -- new end, and from the new end on each byte stays or becomes 0; with a reply that is no error, the
  -- reply has the new size and all bytes after the new last chunk are 0. Or a SHA-256 collision is
  -- at hand.
  pub prepare_file_pool-Effects :
      (args : Args) (max_write : ℕ) (requests : List Call) {pool : HandleMap (PoolFile F V)}
      → All Small requests
      → prepare_file_pool ffi host service read_signature calls args ≡ ok pool
      → let (replies, self) =
          run ffi host calls requests (record { file_pool = pool; max_write = max_write }) in
        ((after : Contents) × Effects requests replies (λ inode. no_content) after
          × Follows digest self after)
        ⊎ Collision digest
  prepare_file_pool-Effects args max_write requests small h =
      serve_all-Effects sha (local_reader host.local) (remote_file_reader calls)
        (remote_merkle_tree_reader calls) (remote_file_reader calls) (remote_file_editor calls)
        (remote_file_reader-KeepsLength calls) requests _ (λ inode. no_content) small
        (λ inode editor at.
          subst (λ tree. Tracks digest no_content tree)
            (sym (
              prepare_file_pool-Fresh ffi host service read_signature calls args inode editor h at))
            (new-Tracks digest))
