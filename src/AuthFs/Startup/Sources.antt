-- ===== src/AuthFs/Startup/Sources.antt =====
-- Where the files of the pool of authfs/src/main.rs come from.
use mathlib.Core.List.{Memᴰ}
use android_packages_modules.Common.{ℕ, ℤ, ◌≡◌, List, [], Outcome, ok, All, >>=-eq-ok}
use android_packages_modules.Crypto.{Sha256Ffi}
use android_packages_modules.Handles.{HandleMap}
use android_packages_modules.Remote.{VirtFdService}
use android_packages_modules.AuthFs.{Inode}
use android_packages_modules.AuthFs.Options.{
  Args, OptionRemoteRoFile, OptionRemoteRoFileUnverified, OptionRemoteRwFile, OptionLocalFileRo,
  OptionLocalRoFileUnverified,
}
use android_packages_modules.AuthFs.Startup.{
  StartError, RemoteFile, Host, PoolFile, insert_files, open_remote_ro, open_remote_ro_unverified,
  open_remote_new_rw, open_local_ro, open_local_ro_unverified, prepare_file_pool,
}
use android_packages_modules.AuthFs.Startup.Loops.{
  Holds, HasFile, insert_files-Holds, All-HasFile, insert_files-All,
}

module _ {A : Type 0} where
  -- There is a file for each option.
  pub record Complete (args : Args) (pool : HandleMap A) : Type 0 where
    pub remote_ro : All (λ c. HasFile pool c.ino) args.remote_ro_file
    pub remote_ro_unverified : All (λ c. HasFile pool c.ino) args.remote_ro_file_unverified
    pub remote_new_rw : All (λ c. HasFile pool c.ino) args.remote_new_rw_file
    pub local_ro : All (λ c. HasFile pool c.ino) args.local_ro_file
    pub local_ro_unverified : All (λ c. HasFile pool c.ino) args.local_ro_file_unverified

module _ {Ctx F V : Type 0} (ffi : Sha256Ffi Ctx) (host : Host F) (service : V)
    (read_signature : V → ℤ → Outcome StartError (List ℕ))
    (calls : VirtFdService (RemoteFile V)) where
  -- What opened the file of an inode.
  pub data Opened (args : Args) : Inode → PoolFile F V → Type 0 where
    by_remote_ro :
        (config : OptionRemoteRoFile) (file : PoolFile F V)
        → Memᴰ config args.remote_ro_file
        → open_remote_ro ffi host service read_signature calls config ≡ ok file
        → Opened args config.ino file
    by_remote_ro_unverified :
        (config : OptionRemoteRoFileUnverified) (file : PoolFile F V)
        → Memᴰ config args.remote_ro_file_unverified
        → open_remote_ro_unverified ffi host service read_signature calls config ≡ ok file
        → Opened args config.ino file
    by_remote_new_rw :
        (config : OptionRemoteRwFile) (file : PoolFile F V)
        → Memᴰ config args.remote_new_rw_file
        → open_remote_new_rw ffi host service read_signature calls config ≡ ok file
        → Opened args config.ino file
    by_local_ro :
        (config : OptionLocalFileRo) (file : PoolFile F V)
        → Memᴰ config args.local_ro_file
        → open_local_ro ffi host service read_signature calls config ≡ ok file
        → Opened args config.ino file
    by_local_ro_unverified :
        (config : OptionLocalRoFileUnverified) (file : PoolFile F V)
        → Memᴰ config args.local_ro_file_unverified
        → open_local_ro_unverified ffi host service read_signature calls config ≡ ok file
        → Opened args config.ino file

  pub prepare_file_pool-Holds :
      (args : Args) {pool : HandleMap (PoolFile F V)}
      → prepare_file_pool ffi host service read_signature calls args ≡ ok pool
      → Holds (Opened args) pool
  unfolding prepare_file_pool
  prepare_file_pool-Holds args h =
      let (pool1, first, h1) = >>=-eq-ok (insert_files (λ c. c.ino) _ args.remote_ro_file []) _ h in
      let (pool2, second, h2) =
        >>=-eq-ok (insert_files (λ c. c.ino) _ args.remote_ro_file_unverified pool1) _ h1 in
      let (pool3, third, h3) =
        >>=-eq-ok (insert_files (λ c. c.ino) _ args.remote_new_rw_file pool2) _ h2 in
      let (pool4, fourth, fifth) =
        >>=-eq-ok (insert_files (λ c. c.ino) _ args.local_ro_file pool3) _ h3 in
      insert_files-Holds (Opened args) (λ c. c.ino) _ args.local_ro_file_unverified pool4
        by_local_ro_unverified
        (insert_files-Holds (Opened args) (λ c. c.ino) _ args.local_ro_file pool3 by_local_ro
          (insert_files-Holds (Opened args) (λ c. c.ino) _ args.remote_new_rw_file pool2
            by_remote_new_rw
            (insert_files-Holds (Opened args) (λ c. c.ino) _ args.remote_ro_file_unverified pool1
              by_remote_ro_unverified
              (insert_files-Holds (Opened args) (λ c. c.ino) _ args.remote_ro_file [] by_remote_ro
                (λ inode file at. cc at) first)
              second)
            third)
          fourth)
        fifth

  prepare_file_pool-Complete :
      (args : Args) {pool : HandleMap (PoolFile F V)}
      → prepare_file_pool ffi host service read_signature calls args ≡ ok pool
      → Complete args pool
  unfolding prepare_file_pool
  prepare_file_pool-Complete args h =
      let (pool1, first, h1) = >>=-eq-ok (insert_files (λ c. c.ino) _ args.remote_ro_file []) _ h in
      let (pool2, second, h2) =
        >>=-eq-ok (insert_files (λ c. c.ino) _ args.remote_ro_file_unverified pool1) _ h1 in
      let (pool3, third, h3) =
        >>=-eq-ok (insert_files (λ c. c.ino) _ args.remote_new_rw_file pool2) _ h2 in
      let (pool4, fourth, fifth) =
        >>=-eq-ok (insert_files (λ c. c.ino) _ args.local_ro_file pool3) _ h3 in
      record {
        remote_ro =
            (All-HasFile (λ c. c.ino) _ args.local_ro_file_unverified pool4 (λ c. c.ino)
              args.remote_ro_file fifth
              (All-HasFile (λ c. c.ino) _ args.local_ro_file pool3 (λ c. c.ino) args.remote_ro_file
                fourth
                (All-HasFile (λ c. c.ino) _ args.remote_new_rw_file pool2 (λ c. c.ino)
                  args.remote_ro_file third
                  (All-HasFile (λ c. c.ino) _ args.remote_ro_file_unverified pool1 (λ c. c.ino)
                    args.remote_ro_file second
                    (insert_files-All (λ c. c.ino) _ args.remote_ro_file [] first)))));
        remote_ro_unverified =
            (All-HasFile (λ c. c.ino) _ args.local_ro_file_unverified pool4 (λ c. c.ino)
              args.remote_ro_file_unverified fifth
              (All-HasFile (λ c. c.ino) _ args.local_ro_file pool3 (λ c. c.ino)
                args.remote_ro_file_unverified fourth
                (All-HasFile (λ c. c.ino) _ args.remote_new_rw_file pool2 (λ c. c.ino)
                  args.remote_ro_file_unverified third
                  (insert_files-All (λ c. c.ino) _ args.remote_ro_file_unverified pool1 second))));
        remote_new_rw =
            (All-HasFile (λ c. c.ino) _ args.local_ro_file_unverified pool4 (λ c. c.ino)
              args.remote_new_rw_file fifth
              (All-HasFile (λ c. c.ino) _ args.local_ro_file pool3 (λ c. c.ino)
                args.remote_new_rw_file fourth
                (insert_files-All (λ c. c.ino) _ args.remote_new_rw_file pool2 third)));
        local_ro =
            (All-HasFile (λ c. c.ino) _ args.local_ro_file_unverified pool4 (λ c. c.ino)
              args.local_ro_file fifth
              (insert_files-All (λ c. c.ino) _ args.local_ro_file pool3 fourth));
        local_ro_unverified =
            (insert_files-All (λ c. c.ino) _ args.local_ro_file_unverified pool4 fifth);
      }

  -- The pool has a file for each option, and each file was opened for an option that names its inode, by
  -- the loop of that option's kind; no file gets in otherwise.
  pub prepare_file_pool-Opened :
      (args : Args) {pool : HandleMap (PoolFile F V)}
      → prepare_file_pool ffi host service read_signature calls args ≡ ok pool
      → Complete args pool × Holds (Opened args) pool
  prepare_file_pool-Opened args h =
      (prepare_file_pool-Complete args h, prepare_file_pool-Holds args h)
