-- ===== src/VirtManager/Tests/Boot.antt =====
-- A config with a kernel and a writable disk.
use android_packages_modules.Common.{
  ℕ, ◌≡◌, refl, Option, none, some, true, List, [], ◌∷◌, Outcome, ok,
}
use android_packages_modules.Text.{Bytes, codes, show_nat}
use android_packages_modules.VirtManager.Config.{VmConfig, StartError, crosvm_args, start_config}
use android_packages_modules.VirtManager.Config.Boot.{Start, start_config-Start}

abbrev config : VmConfig
config = record {
  kernel = some (codes "k");
  initrd = none;
  params = none;
  bootloader = none;
  disks = record { image = codes "d"; writable = true } ∷ [];
}

abbrev no_log : Option ℕ
no_log = none

abbrev spawn : List Bytes → Option ℕ → Outcome StartError ℕ
spawn args log_fd = ok 1

args_of_config :
    crosvm_args config 10 no_log
    ≡ codes "run"
      ∷ codes "--disable-sandbox"
      ∷ codes "--cid"
      ∷ codes "10"
      ∷ codes "--serial=type=sink"
      ∷ codes "--rwdisk"
      ∷ codes "d"
      ∷ codes "k"
      ∷ []
unfolding crosvm_args show_nat
args_of_config = refl

abbrev loaded : Outcome ℕ VmConfig
loaded = ok config

start_config-Start_example : Start spawn config 10 no_log (start_config spawn loaded 10 no_log)
start_config-Start_example = start_config-Start ℕ spawn 10 no_log config
