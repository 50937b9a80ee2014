-- ===== src/VirtManager/Config/Boot.antt =====
-- What a VM of virtmanager/src/crosvm.rs boots from.
use mathlib.Core.Path.{subst}
use android_packages_modules.Common.{
  ◌⊎◌, inl, inr, err, ℕ, ◌≡◌, refl, Option, none, some, List, [], ◌∷◌, ◌++◌, Outcome, ok, map_err,
}
use android_packages_modules.Text.{Bytes, codes}
use android_packages_modules.VirtManager.{StatusCode, unknown_error}
use android_packages_modules.VirtManager.Config.{
  VmConfig, StartError, nothing_to_boot, bootloader_and_image, validate, option_args, disk_args,
  run_args, crosvm_args, run_vm, start_config,
}

-- A command line of crosvm that names one source to boot from: a kernel, perhaps with an initial
-- ramdisk, or a bootloader alone.
pub data Boots {L : Type 0} (config : VmConfig) (cid : ℕ) (log_fd : Option L)
    : List Bytes → Type 0 where
  by_kernel :
      (kernel : Bytes)
      → config.kernel ≡ some kernel
      → config.bootloader ≡ none
      → Boots config cid log_fd (
          run_args cid log_fd
          ++ (option_args (codes "--initrd") config.initrd
              ++ (option_args (codes "--params") config.params
                  ++ (disk_args config.disks ++ (kernel ∷ [])))))
  by_bootloader :
      (bootloader : Bytes)
      → config.bootloader ≡ some bootloader
      → config.kernel ≡ none
      → config.initrd ≡ none
      → Boots config cid log_fd (
          run_args cid log_fd
          ++ (codes "--bios" ∷ bootloader ∷ option_args (codes "--params") config.params
              ++ (disk_args config.disks ++ [])))

kernel_form :
    {L : Type 0} (kernel : Bytes) (config : VmConfig) (cid : ℕ) (log_fd : Option L)
    → config.kernel ≡ some kernel
    → config.bootloader ≡ none
    → run_args cid log_fd
        ++ (option_args (codes "--initrd") config.initrd
            ++ (option_args (codes "--params") config.params
                ++ (disk_args config.disks ++ (kernel ∷ []))))
      ≡ crosvm_args config cid log_fd
unfolding crosvm_args
kernel_form kernel config cid log_fd k b = rw (k, b) refl

bootloader_form :
    {L : Type 0} (bootloader : Bytes) (config : VmConfig) (cid : ℕ) (log_fd : Option L)
    → config.bootloader ≡ some bootloader
    → config.kernel ≡ none
    → config.initrd ≡ none
    → run_args cid log_fd
        ++ (codes "--bios" ∷ bootloader ∷ option_args (codes "--params") config.params
            ++ (disk_args config.disks ++ []))
      ≡ crosvm_args config cid log_fd
unfolding crosvm_args
bootloader_form bootloader config cid log_fd b k i = rw (b, k, i) refl

-- What a start from a config comes to: the spawn of a command line that names one source to boot from,
-- or an error when the config names none or more than one.
pub data Start {L P : Type 0} (spawn : List Bytes → Option L → Outcome StartError P)
    (config : VmConfig) (cid : ℕ) (log_fd : Option L) : Outcome StatusCode P → Type 0 where
  spawned :
      (args : List Bytes)
      → Boots config cid log_fd args
      → Start spawn config cid log_fd (map_err (λ e. unknown_error) (spawn args log_fd))
  no_source :
      config.bootloader ≡ none
      → config.kernel ≡ none
      → Start spawn config cid log_fd (err unknown_error)
  two_sources :
      (bootloader image : Bytes)
      → config.bootloader ≡ some bootloader
      → (config.kernel ≡ some image) ⊎ (config.initrd ≡ some image)
      → Start spawn config cid log_fd (err unknown_error)

module _ {L P : Type 0} (E : Type 0) (spawn : List Bytes → Option L → Outcome StartError P)
    (cid : ℕ) (log_fd : Option L) (config : VmConfig) where
  abbrev loaded : Outcome E VmConfig
  loaded = ok config

  invalid-Start :
      (e : StartError)
      → validate config ≡ err e
      → err unknown_error ≡ start_config spawn loaded cid log_fd
  unfolding start_config run_vm
  invalid-Start e h = rw (h) refl

  valid-Start :
      (args : List Bytes)
      → args ≡ crosvm_args config cid log_fd
      → validate config ≡ ok tt
      → map_err (λ e. unknown_error) (spawn args log_fd) ≡ start_config spawn loaded cid log_fd
  unfolding start_config run_vm
  valid-Start args same h = rw (same, h) refl

  fields-Start :
      (bootloader kernel initrd : Option Bytes)
      → config.bootloader ≡ bootloader
      → config.kernel ≡ kernel
      → config.initrd ≡ initrd
      → Start spawn config cid log_fd (start_config spawn loaded cid log_fd)
  unfolding validate
  fields-Start none none initrd b k i =
      subst (Start spawn config cid log_fd) (invalid-Start nothing_to_boot (rw (b, k) refl))
        (no_source b k)
  fields-Start none (some kernel) initrd b k i =
      subst (Start spawn config cid log_fd)
        (valid-Start _ (kernel_form kernel config cid log_fd k b) (rw (b, k) refl))
        (spawned _ (by_kernel kernel k b))
  fields-Start (some bootloader) (some kernel) initrd b k i =
      subst (Start spawn config cid log_fd) (invalid-Start bootloader_and_image (rw (b, k) refl))
        (two_sources bootloader kernel b (inl k))
  fields-Start (some bootloader) none (some initrd) b k i =
      subst (Start spawn config cid log_fd) (invalid-Start bootloader_and_image (rw (b, k, i) refl))
        (two_sources bootloader initrd b (inr i))
  fields-Start (some bootloader) none none b k i =
      subst (Start spawn config cid log_fd)
        (valid-Start _ (bootloader_form bootloader config cid log_fd b k i) (rw (b, k, i) refl))
        (spawned _ (by_bootloader bootloader b k i))

  -- A start from a config that was loaded spawns crosvm with a command line that names exactly one source
  -- to boot from, and returns what the spawn returns; a config that names no source, or a bootloader
  -- beside a kernel or an initial ramdisk, is refused.
  pub start_config-Start : Start spawn config cid log_fd (start_config spawn loaded cid log_fd)
  start_config-Start = fields-Start config.bootloader config.kernel config.initrd refl refl refl
