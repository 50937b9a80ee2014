-- ===== src/VirtManager/Config.antt =====
-- virtmanager/src/config.rs and the start of crosvm in virtmanager/src/crosvm.rs. The reader of the
-- config file and the spawn of a process are parameters; L is the file for the console.
pub mod Boot
use android_packages_modules.Common.{
  ℕ, Option, none, some, Bool, true, false, not, ◌&&◌, ◌||◌, List, [], ◌∷◌, ◌++◌, Outcome, ok, err,
  panic, stuck, ◌>>=◌, ◌>>◌, map_err, guard, if◌then◌else◌,
}
use android_packages_modules.Text.{Bytes, codes, show_nat}
use android_packages_modules.VirtManager.{StatusCode, bad_value, unknown_error}

pub record DiskImage : Type 0 where
  pub image : Bytes
  pub writable : Bool

pub record VmConfig : Type 0 where
  pub kernel : Option Bytes
  pub initrd : Option Bytes
  pub params : Option Bytes
  pub bootloader : Option Bytes
  pub disks : List DiskImage

-- What `validate` finds, or a failed spawn.
pub data StartError : Type 0 where
  nothing_to_boot bootloader_and_image spawn_error : StartError

abbrev pub is_some : Option Bytes → Bool
is_some none = false
is_some (some text) = true

unfoldable pub validate : VmConfig → Outcome StartError (Unit {0})
validate self = do
  guard (is_some self.bootloader || is_some self.kernel) nothing_to_boot
  guard (not (is_some self.bootloader && (is_some self.kernel || is_some self.initrd)))
      bootloader_and_image

-- An option with its value, when there is one.
abbrev pub option_args : Bytes → Option Bytes → List Bytes
option_args name none = []
option_args name (some value) = name ∷ value ∷ []

abbrev pub kernel_args : Option Bytes → List Bytes
kernel_args none = []
kernel_args (some kernel) = kernel ∷ []

abbrev pub disk_args : List DiskImage → List Bytes
disk_args [] = []
disk_args (disk ∷ rest) =
    (if disk.writable then codes "--rwdisk" else codes "--disk") ∷ disk.image ∷ disk_args rest

-- Without a file the console output is ignored.
abbrev pub console_args : {L : Type 0} → Option L → List Bytes
console_args (some log_fd) = []
console_args none = codes "--serial=type=sink" ∷ []

abbrev pub run_args : {L : Type 0} → ℕ → Option L → List Bytes
run_args cid log_fd =
    (codes "run" ∷ codes "--disable-sandbox" ∷ codes "--cid" ∷ show_nat cid ∷ [])
    ++ console_args log_fd

unfoldable pub crosvm_args : {L : Type 0} → VmConfig → ℕ → Option L → List Bytes
crosvm_args config cid log_fd =
    run_args cid log_fd
    ++ (option_args (codes "--bios") config.bootloader
        ++ (option_args (codes "--initrd") config.initrd
            ++ (option_args (codes "--params") config.params
                ++ (disk_args config.disks ++ kernel_args config.kernel))))

module _ {L P : Type 0} (spawn : List Bytes → Option L → Outcome StartError P) where
  unfoldable pub run_vm : VmConfig → ℕ → Option L → Outcome StartError P
  unfolding validate
  run_vm config cid log_fd = do validate config; spawn (crosvm_args config cid log_fd) log_fd

  -- `start_vm`: the config is loaded and a VM is started from it.
  unfoldable pub start_config :
      {E : Type 0} → Outcome E VmConfig → ℕ → Option L → Outcome StatusCode P
  unfolding run_vm
  start_config loaded cid log_fd = do
    config ← map_err (λ e. bad_value) loaded
    map_err (λ e. unknown_error) (run_vm config cid log_fd)
