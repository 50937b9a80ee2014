-- ===== src/AuthFs/Options.antt =====
-- authfs/src/main.rs: the options that name the files of the file system. A path is its text.
pub mod RoundTrip
use android_packages_modules.Common.{
  ℕ, ℤ, Option, none, some, Bool, List, [], ◌∷◌, Outcome, ok, err, panic, stuck, ◌>>=◌, ok_or,
  unwrap,
}
use android_packages_modules.Text.{Bytes, parse_u64, parse_i32, split_colon}
use android_packages_modules.AuthFs.{Inode}

pub data OptionError : Type 0 where
  invalid_option parse_int_error : OptionError

pub record OptionRemoteRoFile : Type 0 where
  pub ino : Inode
  pub remote_id : ℤ
  pub file_size : ℕ
  pub certificate_path : Bytes

pub record OptionRemoteRoFileUnverified : Type 0 where
  pub ino : Inode
  pub remote_id : ℤ
  pub file_size : ℕ

pub record OptionRemoteRwFile : Type 0 where
  pub ino : Inode
  pub remote_id : ℤ

pub record OptionLocalFileRo : Type 0 where
  pub ino : Inode
  pub file_path : Bytes
  pub merkle_tree_dump_path : Bytes
  pub signature_path : Bytes
  pub certificate_path : Bytes

pub record OptionLocalRoFileUnverified : Type 0 where
  pub ino : Inode
  pub file_path : Bytes

pub record Args : Type 0 where
  pub mount_point : Bytes
  pub remote_ro_file : List OptionRemoteRoFile
  pub remote_ro_file_unverified : List OptionRemoteRoFileUnverified
  pub remote_new_rw_file : List OptionRemoteRwFile
  pub local_ro_file : List OptionLocalFileRo
  pub local_ro_file_unverified : List OptionLocalRoFileUnverified
  pub debug : Bool

-- `parse()?`
abbrev parsed : {A : Type 0} → Option A → Outcome OptionError A
parsed number = ok_or number parse_int_error

abbrev pub remote_ro_of : List Bytes → Outcome OptionError OptionRemoteRoFile
remote_ro_of (ino ∷ remote_id ∷ file_size ∷ certificate_path ∷ []) = do
  inode ← parsed (parse_u64 ino)
  id ← parsed (parse_i32 remote_id)
  size ← parsed (parse_u64 file_size)
  ok (record { ino = inode; remote_id = id; file_size = size; certificate_path = certificate_path })
remote_ro_of _ = err invalid_option

unfoldable pub parse_remote_ro_file_option : Bytes → Outcome OptionError OptionRemoteRoFile
parse_remote_ro_file_option option = remote_ro_of (split_colon option)

abbrev pub remote_ro_unverified_of : List Bytes → Outcome OptionError OptionRemoteRoFileUnverified
remote_ro_unverified_of (ino ∷ remote_id ∷ file_size ∷ []) = do
  inode ← parsed (parse_u64 ino)
  id ← parsed (parse_i32 remote_id)
  size ← parsed (parse_u64 file_size)
  ok (record { ino = inode; remote_id = id; file_size = size })
remote_ro_unverified_of _ = err invalid_option

unfoldable pub parse_remote_ro_file_unverified_option :
    Bytes → Outcome OptionError OptionRemoteRoFileUnverified
parse_remote_ro_file_unverified_option option = remote_ro_unverified_of (split_colon option)

abbrev pub remote_new_rw_of : List Bytes → Outcome OptionError OptionRemoteRwFile
remote_new_rw_of (ino ∷ remote_id ∷ []) = do
  inode ← unwrap (parse_u64 ino)
  id ← unwrap (parse_i32 remote_id)
  ok (record { ino = inode; remote_id = id })
remote_new_rw_of _ = err invalid_option

-- A bad number panics here.
unfoldable pub parse_remote_new_rw_file_option : Bytes → Outcome OptionError OptionRemoteRwFile
parse_remote_new_rw_file_option option = remote_new_rw_of (split_colon option)

abbrev pub local_ro_of : List Bytes → Outcome OptionError OptionLocalFileRo
local_ro_of (ino ∷ file ∷ merkle_tree_dump ∷ signature ∷ certificate ∷ []) = do
  inode ← parsed (parse_u64 ino)
  ok (record {
    ino = inode;
    file_path = file;
    merkle_tree_dump_path = merkle_tree_dump;
    signature_path = signature;
    certificate_path = certificate;
  })
local_ro_of _ = err invalid_option

unfoldable pub parse_local_file_ro_option : Bytes → Outcome OptionError OptionLocalFileRo
parse_local_file_ro_option option = local_ro_of (split_colon option)

abbrev pub local_ro_unverified_of : List Bytes → Outcome OptionError OptionLocalRoFileUnverified
local_ro_unverified_of (ino ∷ file ∷ []) = do
  inode ← parsed (parse_u64 ino)
  ok (record { ino = inode; file_path = file })
local_ro_unverified_of _ = err invalid_option

unfoldable pub parse_local_ro_file_unverified_ro_option :
    Bytes → Outcome OptionError OptionLocalRoFileUnverified
parse_local_ro_file_unverified_ro_option option = local_ro_unverified_of (split_colon option)
