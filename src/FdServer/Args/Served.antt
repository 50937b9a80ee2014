-- ===== src/FdServer/Args/Served.antt =====
-- The pool of authfs/fd_server/src/main.rs for the command line that pvm_exec gives it.
use android_packages_modules.Common.{
  ◌≡◌, ℤ, int_eq, none, Bool, true, false, ◌||◌, List, [], ◌∷◌, ok,
}
use android_packages_modules.Text.RoundTrip.{FitsI32}
use android_packages_modules.FdServer.{FdConfig, readonly, read_write}
use android_packages_modules.FdServer.Args.{Descriptors, is_fd_valid, FdPool}

unfoldable pub contains : List ℤ → ℤ → Bool
contains [] fd = false
contains (x ∷ xs) fd = int_eq x fd || contains xs fd

module _ {F : Type 0} where
  unfoldable pushed : (ℤ → FdConfig F) → List ℤ → FdPool F → FdPool F
  pushed config [] fd_pool = fd_pool
  pushed config (fd ∷ fds) fd_pool = pushed config fds ((fd, config fd) ∷ fd_pool)

  module _ (descriptors : Descriptors F) where
    -- A descriptor that is open, and one of an empty file.
    pub record IsOpen (fd : ℤ) : Type 0 where
      pub fits : FitsI32 fd
      pub valid : is_fd_valid descriptors fd ≡ true

    pub record IsEmptyFile (fd : ℤ) : Type 0 where
      pub is_open : IsOpen fd
      pub empty : descriptors.len (descriptors.from_raw_fd fd) ≡ ok 0

    abbrev read_only_config : ℤ → FdConfig F
    read_only_config fd = readonly (descriptors.from_raw_fd fd) none none

    abbrev read_write_config : ℤ → FdConfig F
    read_write_config fd = read_write (descriptors.from_raw_fd fd)
