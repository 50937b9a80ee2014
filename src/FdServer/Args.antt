-- ===== src/FdServer/Args.antt =====
-- authfs/fd_server/src/main.rs: the descriptors that the command line names. What clap reads of it is
-- the list of values of each option; the descriptors of the process are a parameter.
pub mod Served
mod Tests
use android_packages_modules.Common.{
  ℕ, ◌-◌, ℤ, pos, negsuc, int_eq, Option, none, some, Bool, true, false, List, [], ◌∷◌, Outcome, ok,
  err, panic, stuck, ◌>>=◌, ok_or, map_err, map_ok, guard, ltb, leb, ◌==◌, if◌then◌else◌, length,
  get_elem?,
}
use android_packages_modules.File.{IoError}
use android_packages_modules.Text.{Bytes, parse_i32, split_colon}
use android_packages_modules.FdServer.{FdConfig, readonly, read_write}

pub data ArgError : Type 0 where
  parse_int_error bad_fd too_many_options file_not_empty : ArgError
  io : IoError → ArgError

-- `fcntl(fd, F_GETFD)`, `File::from_raw_fd` and `metadata()?.len()`.
pub record Descriptors (F : Type 0) : Type 0 where
  pub get_flags : ℤ → ℤ
  pub from_raw_fd : ℤ → F
  pub len : F → Outcome IoError ℕ

abbrev is_non_negative : ℤ → Bool
is_non_negative (pos n) = true
is_non_negative (negsuc n) = false

module _ {F : Type 0} (descriptors : Descriptors F) where
  abbrev pub is_fd_valid : ℤ → Bool
  is_fd_valid fd = is_non_negative (descriptors.get_flags fd)

  unfoldable pub fd_to_file : ℤ → Outcome ArgError F
  fd_to_file fd = if is_fd_valid fd then ok (descriptors.from_raw_fd fd) else err bad_fd

  -- `map(fd_to_file).transpose()?`
  abbrev pub fd_to_file? : Option ℤ → Outcome ArgError (Option F)
  fd_to_file? none = ok none
  fd_to_file? (some fd) = fd_to_file fd >>= λ file. ok (some file)

  -- `fds[0]`; a split has a first part.
  abbrev pub ro_config : List ℤ → Outcome ArgError (ℤ × FdConfig F)
  ro_config [] = panic
  ro_config (fd ∷ rest) = fd_to_file fd >>= λ file.
      fd_to_file? (get_elem? rest 0) >>= λ alt_merkle_tree.
      fd_to_file? (get_elem? rest 1) >>= λ alt_signature.
      ok (fd, readonly file alt_merkle_tree alt_signature)

  unfoldable pub parse_arg_ro_fds : Bytes → Outcome ArgError (ℤ × FdConfig F)
  parse_arg_ro_fds arg = do
    fds ← map_ok (λ part. ok_or (parse_i32 part) parse_int_error) (split_colon arg)
    few ← guard (leb (length fds) 3) too_many_options
    ro_config fds

  unfoldable pub parse_arg_rw_fds : Bytes → Outcome ArgError (ℤ × FdConfig F)
  parse_arg_rw_fds arg = do
    fd ← ok_or (parse_i32 arg) parse_int_error
    file ← fd_to_file fd
    size ← map_err io (descriptors.len file)
    empty ← guard (leb size 0) file_not_empty
    ok (fd, read_write file)

-- A map from descriptors, in which the first entry of a descriptor counts.
abbrev pub FdPool : Type 0 → Type 0
FdPool F = List (ℤ × FdConfig F)

-- A loop of `parse_args` over the values of an option.
unfoldable pub insert_args :
    {F : Type 0}
    → (Bytes → Outcome ArgError (ℤ × FdConfig F))
    → List Bytes
    → FdPool F
    → Outcome ArgError (FdPool F)
insert_args parse [] fd_pool = ok fd_pool
insert_args parse (arg ∷ rest) fd_pool = do
  entry ← parse arg
  insert_args parse rest (entry ∷ fd_pool)

unfoldable pub parse_args :
    {F : Type 0} → Descriptors F → List Bytes → List Bytes → Outcome ArgError (FdPool F)
parse_args descriptors ro_fds rw_fds = do
  fd_pool ← insert_args (parse_arg_ro_fds descriptors) ro_fds []
  insert_args (parse_arg_rw_fds descriptors) rw_fds fd_pool

-- `fd_pool.get(&fd)`
unfoldable pub get_fd : {F : Type 0} → FdPool F → ℤ → Option (FdConfig F)
get_fd [] fd = none
get_fd ((key, config) ∷ rest) fd = if int_eq key fd then some config else get_fd rest fd
