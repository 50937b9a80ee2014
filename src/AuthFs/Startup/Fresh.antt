-- ===== src/AuthFs/Startup/Fresh.antt =====
-- The trees of the writable files that the pool of authfs/src/main.rs starts with.
use mathlib.Core.Path.{subst}
use android_packages_modules.Common.{ℕ, ℤ, ◌≡◌, refl, sym, some, List, Outcome, ok, arith}
use android_packages_modules.Crypto.{Sha256Ffi}
use android_packages_modules.Fsverity.Editor.{VerifiedFileEditor}
use android_packages_modules.Fsverity.Editor
use android_packages_modules.Fsverity.Editor.Content.{Content}
use android_packages_modules.Fsverity.Editor.Tracks.{Tracks}
use android_packages_modules.Fsverity.Merkle.{MerkleLeaves}
use android_packages_modules.Fsverity.Merkle
use android_packages_modules.Handles.{HandleMap}
use android_packages_modules.Handles
use android_packages_modules.Remote.{VirtFdService}
use android_packages_modules.AuthFs.{remote_verified_new_file}
use android_packages_modules.AuthFs.Options.{Args}
use android_packages_modules.AuthFs.Pool.{Tracked}
use android_packages_modules.AuthFs.Startup.{
  StartError, RemoteFile, Host, PoolFile, new_config_remote_verified_file, new_config_local_ro_file,
  new_config_local_ro_file_unverified, prepare_file_pool,
}
use android_packages_modules.AuthFs.Startup.Sources.{
  Opened, by_remote_ro, by_remote_ro_unverified, by_remote_new_rw, by_local_ro,
  by_local_ro_unverified, prepare_file_pool-Holds,
}
use android_packages_modules.Text.{Bytes}

abbrev pub no_content : Content
no_content i = 0

pub new-Tracks : (digest : List ℕ → List ℕ) → Tracks digest no_content Merkle.new
unfolding Merkle.new
new-Tracks digest = record { hashes = λ k hash at. cc at; zeros = λ i lo. refl }

module _ {F V : Type 0} where
  -- A writable file has no leaves yet.
  abbrev Fresh : PoolFile F V → Type 0
  Fresh file =
      (editor : VerifiedFileEditor (RemoteFile V))
      → file ≡ remote_verified_new_file editor
      → editor.merkle_tree ≡ Merkle.new

  module _ {Ctx : Type 0} (ffi : Sha256Ffi Ctx) (host : Host F) (service : V)
      (read_signature : V → ℤ → Outcome StartError (List ℕ))
      (calls : VirtFdService (RemoteFile V)) where
    remote_verified-Fresh :
        (remote_id : ℤ) (size : ℕ) (file : PoolFile F V)
        → new_config_remote_verified_file ffi host service read_signature calls remote_id size
          ≡ ok file
        → Fresh file
    unfolding new_config_remote_verified_file
    remote_verified-Fresh remote_id size file h editor e = ground arith

    local_unverified-Fresh :
        (path : Bytes) (file : PoolFile F V)
        → new_config_local_ro_file_unverified ffi host service read_signature calls path ≡ ok file
        → Fresh file
    unfolding new_config_local_ro_file_unverified
    local_unverified-Fresh path file h editor e = ground arith

    local-Fresh :
        (path dump signature : Bytes) (file : PoolFile F V)
        → new_config_local_ro_file ffi host service read_signature calls path dump signature
          ≡ ok file
        → Fresh file
    unfolding new_config_local_ro_file
    local-Fresh path dump signature file h editor e = ground arith

    Opened-Fresh :
        (args : Args) (inode : ℕ) (file : PoolFile F V)
        → Opened ffi host service read_signature calls args inode file
        → Fresh file
    unfolding Editor.new
    Opened-Fresh args inode file (by_remote_ro config _ m h) editor e =
        remote_verified-Fresh config.remote_id config.file_size file h editor e
    Opened-Fresh args inode file (by_remote_ro_unverified config _ m h) editor e = cc (h, e)
    Opened-Fresh args inode file (by_remote_new_rw config _ m h) editor e = cc (h, e)
    Opened-Fresh args inode file (by_local_ro config _ m h) editor e =
        local-Fresh config.file_path config.merkle_tree_dump_path config.signature_path file h
          editor e
    Opened-Fresh args inode file (by_local_ro_unverified config _ m h) editor e =
        local_unverified-Fresh config.file_path file h editor e

    pub prepare_file_pool-Fresh :
        (args : Args) {pool : HandleMap (PoolFile F V)} (inode : ℕ)
        (editor : VerifiedFileEditor (RemoteFile V))
        → prepare_file_pool ffi host service read_signature calls args ≡ ok pool
        → Handles.get pool inode ≡ some (remote_verified_new_file editor)
        → editor.merkle_tree ≡ Merkle.new
    prepare_file_pool-Fresh args inode editor h at =
        let opened =
          prepare_file_pool-Holds ffi host service read_signature calls args h inode
            (remote_verified_new_file editor) at in
        Opened-Fresh args inode (remote_verified_new_file editor) opened editor refl

    -- The file system starts with trees that are in step with the files' contents: the invariant that
    -- the requests keep holds of the first pool.
    pub prepare_file_pool-Tracked :
        (digest : List ℕ → List ℕ) (args : Args) (max_write : ℕ) {pool : HandleMap (PoolFile F V)}
        → prepare_file_pool ffi host service read_signature calls args ≡ ok pool
        → Tracked digest (record { file_pool = pool; max_write = max_write })
    prepare_file_pool-Tracked digest args max_write h inode editor at =
        let fresh = prepare_file_pool-Fresh args inode editor h at in
        (no_content, subst (λ tree. Tracks digest no_content tree) (sym fresh) (new-Tracks digest))
