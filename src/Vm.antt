-- ===== src/Vm.antt =====
-- vm/src: the command that runs, stops and lists VMs. The calls of the service are parameters, with V a
-- reference to a VM; the wait for a VM is a step relation over the life of the VM.
pub mod Wait
mod Tests
use android_packages_modules.Common.{
  ℕ, ◌+◌, ◌-◌, ◌^◌, ◌≡◌, ◌≢◌, ◌⊎◌, ℤ, pos, negsuc, Option, none, some, Bool, true, false, not, List,
  [], ◌∷◌, Outcome, ok, err, panic, stuck, ◌>>=◌, ok_or, map_err, ltb, if◌then◌else◌,
}
use android_packages_modules.VirtManager.Life.{
  VmLife, Monitor, stored, ClientStep, MonitorStep, add, callback_on_died,
}

pub data CommandError : Type 0 where
  bad_path open_error dup_error start_error cid_error hold_error drop_error list_error wait_error :
      CommandError
  no_such_vm : CommandError

-- `startVm` is handed the duplicate of stdout, or nothing; `debugDropVmRef` returns the VM that was
-- held.
pub record Calls (V : Type 0) : Type 0 where
  pub config_path : Option (Unit {0})
  pub open_config : Outcome CommandError (Unit {0})
  pub dup_stdout : ℤ
  pub start_vm : Bool → Outcome CommandError V
  pub get_cid : V → Outcome CommandError ℤ
  pub debug_hold_vm_ref : V → Outcome CommandError (Unit {0})
  pub debug_drop_vm_ref : ℤ → Outcome CommandError (Option V)
  pub wait_for_vm : V → Outcome CommandError (Unit {0})

abbrev pub duplicate_stdout : ℤ → Outcome CommandError (Unit {0})
duplicate_stdout (pos dup_fd) = ok tt
duplicate_stdout (negsuc n) = err dup_error

-- `cid as i32`, of a u32.
abbrev pub as_i32 : ℕ → ℤ
as_i32 cid = if ltb cid (2 ^ 31) then pos cid else negsuc (2 ^ 32 - 1 - cid)

module _ {V : Type 0} (calls : Calls V) where
  unfoldable pub command_run : Bool → Outcome CommandError (Unit {0})
  command_run daemonize = do
    path ← ok_or calls.config_path bad_path
    file ← calls.open_config
    stdout ← duplicate_stdout calls.dup_stdout
    vm ← calls.start_vm (not daemonize)
    cid ← calls.get_cid vm
    if daemonize then calls.debug_hold_vm_ref vm else calls.wait_for_vm vm

  unfoldable pub command_stop : ℕ → Outcome CommandError (Unit {0})
  command_stop cid = do
    dropped ← calls.debug_drop_vm_ref (as_i32 cid)
    vm ← ok_or dropped no_such_vm
    ok tt

-- `AtomicFlag`: the value under its lock. `wait` returns when the flag is set.
abbrev pub AtomicFlag : Type 0
AtomicFlag = Bool

abbrev pub default : AtomicFlag
default = false

abbrev pub raise : AtomicFlag → AtomicFlag
raise flag = true

-- The callback of this command among those of other clients.
pub data Client : Type 0 where
  me : Client
  other : ℕ → Client

-- `onDied`
abbrev pub on_died : Client → AtomicFlag → AtomicFlag
on_died me dead = raise dead
on_died (other n) dead = dead

abbrev pub call_all : List Client → AtomicFlag → AtomicFlag
call_all [] dead = dead
call_all (client ∷ rest) dead = call_all rest (on_died client dead)

-- Where `wait_for_vm` is.
pub data Phase : Type 0 where
  starting registered linked returned failed : Phase

pub record VmRun : Type 0 where
  pub life : VmLife Client
  pub service_alive : Bool
  pub dead : AtomicFlag
  pub phase : Phase

-- The death recipient is called when it is linked.
abbrev pub notify_death : Phase → AtomicFlag → AtomicFlag
notify_death linked dead = raise dead
notify_death starting dead = dead
notify_death registered dead = dead
notify_death returned dead = dead
notify_death failed dead = dead

-- A step of the command, of the VM with its monitor, or of the service.
pub data Step (self : VmRun) : VmRun → Type 0 where
  vm_moves :
      (life : VmLife Client) → ClientStep self.life life → Step self (record self { life = life })
  monitor_moves :
      (life : VmLife Client)
      → self.life.monitor ≢ stored
      → MonitorStep self.life life
      → Step self (record self { life = life })
  monitor_calls :
      self.life.monitor ≡ stored
      → Step self (record self {
        life = callback_on_died self.life;
        dead = call_all self.life.callbacks self.dead;
      })
  registers :
      self.phase ≡ starting
      → self.service_alive ≡ true
      → Step self (record self { life = add me self.life; phase = registered })
  links :
      self.phase ≡ registered
      → self.service_alive ≡ true
      → Step self (record self { phase = linked })
  call_fails :
      (self.phase ≡ starting) ⊎ (self.phase ≡ registered)
      → self.service_alive ≡ false
      → Step self (record self { phase = failed })
  service_dies :
      self.service_alive ≡ true
      → Step self (record self { service_alive = false; dead = notify_death self.phase self.dead })
  returns : self.phase ≡ linked → self.dead ≡ true → Step self (record self { phase = returned })

pub data Steps : VmRun → VmRun → Type 0 where
  here : (self : VmRun) → Steps self self
  step : (self next last : VmRun) → Step self next → Steps next last → Steps self last

-- The command after `startVm`, with a VM in any state.
abbrev pub start : VmLife Client → VmRun
start life = record { life = life; service_alive = true; dead = default; phase = starting }
