-- ===== src/Compos.antt =====
-- compos/src: compsvc runs a task in a VM for pvm_exec, in a worker that mounts authfs. The calls of
-- minijail are parameters, with J a jail. A text is its bytes.
pub mod Service
pub mod Worker
pub mod Exec
pub mod Arguments
pub mod Mapping
pub mod Mount
pub mod Whole
mod Tests
use android_packages_modules.Common.{ℕ, ℤ, pos, Bool, List, [], ◌∷◌, Outcome, if◌then◌else◌}
use android_packages_modules.Text.{Bytes}

-- The parcelables of the interface: `file_size` is an i64 and `fd` an i32.
pub record InputFdAnnotation : Type 0 where
  pub fd : ℤ
  pub file_size : ℤ

pub record OutputFdAnnotation : Type 0 where
  pub fd : ℤ

pub record Metadata : Type 0 where
  pub input_fd_annotations : List InputFdAnnotation
  pub output_fd_annotations : List OutputFdAnnotation

-- `minijail::Error`: the code or the signal that ended the process, or another error.
pub data MinijailError : Type 0 where
  return_code killed : ℕ → MinijailError
  other : MinijailError

-- `run` and `run_remap` take the path, the descriptors to keep and the arguments.
pub record Minijail (J : Type 0) : Type 0 where
  pub new_jail : Outcome MinijailError J
  pub namespace_vfs : J → J
  pub run : J → Bytes → List ℤ → List Bytes → Outcome MinijailError J
  pub run_remap : J → Bytes → List (ℤ × ℤ) → List Bytes → Outcome MinijailError J
  pub wait : J → Outcome MinijailError (Unit {0})

-- stdout and stderr, for debugging.
abbrev pub inherited_fds : Bool → List ℤ
inherited_fds debuggable = if debuggable then pos 1 ∷ pos 2 ∷ [] else []

-- The arguments for a list of annotations: the option's name before each value.
unfoldable pub push_options : {A : Type 0} → Bytes → (A → Bytes) → List A → List Bytes → List Bytes
push_options flag value [] rest = rest
push_options flag value (a ∷ others) rest = flag ∷ value a ∷ push_options flag value others rest
