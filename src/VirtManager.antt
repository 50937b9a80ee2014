-- ===== src/VirtManager.antt =====
-- virtmanager/src/aidl.rs: the state of the service that starts VMs. A VM is named by its CID; whether
-- clients still hold it (`alive`) and what its start returns are parameters of a call, and V is a
-- binder to a VM, of which `get_cid` is known.
pub mod Cids
pub mod Config
pub mod Held
pub mod Life
mod Tests
use android_packages_modules.Common.{
  ℕ, zero, suc, ◌+◌, ◌^◌, Option, none, some, Bool, true, false, List, [], ◌∷◌, ◌++◌, Outcome, ok,
  err, panic, stuck, map, ◌||◌, ltb, ◌==◌, if◌then◌else◌, length, take, drop,
}

pub data StatusCode : Type 0 where
  unknown_error bad_value permission_denied : StatusCode

abbrev pub first_guest_cid : ℕ
first_guest_cid = 10

pub record VmInstance : Type 0 where
  pub cid : ℕ
  pub requester_uid : ℕ
  pub requester_sid : List ℕ
  pub requester_debug_pid : ℕ

pub record State (V : Type 0) : Type 0 where
  pub next_cid : ℕ
  pub vms : List VmInstance
  pub debug_held_vms : List V

-- What the caller's thread and its arguments tell: the duplicate of the log file, if there is one,
-- and the SID.
pub record Request : Type 0 where
  pub log_fd : Outcome StatusCode (Unit {0})
  pub requester_uid : ℕ
  pub requester_sid : Outcome StatusCode (List ℕ)
  pub requester_debug_pid : ℕ

abbrev pub retain_alive : (ℕ → Bool) → List VmInstance → List VmInstance
retain_alive alive [] = []
retain_alive alive (vm ∷ rest) =
    if alive vm.cid then vm ∷ retain_alive alive rest else retain_alive alive rest

-- `DEBUG_ALLOWED_UIDS`
abbrev pub debug_access_allowed : ℕ → Bool
debug_access_allowed uid = (uid == 0) || (uid == 2000)

module _ {V : Type 0} where
  abbrev pub default : State V
  default = record { next_cid = first_guest_cid; vms = []; debug_held_vms = [] }

  -- The VMs that are still held by a client.
  unfoldable pub live_vms : (ℕ → Bool) → State V → List VmInstance
  live_vms alive self = retain_alive alive self.vms

  unfoldable pub add_vm : (ℕ → Bool) → VmInstance → State V → State V
  add_vm alive vm self = record self { vms = retain_alive alive self.vms ++ (vm ∷ []) }

  -- `checked_add(1)` on a u32.
  unfoldable pub allocate_cid : State V → Outcome StatusCode ℕ × State V
  allocate_cid self =
      if ltb (self.next_cid + 1) (2 ^ 32)
      then (ok self.next_cid, record self { next_cid = self.next_cid + 1 })
      else (err unknown_error, self)

  abbrev pub after_start :
      (ℕ → Bool)
      → State V
      → VmInstance
      → Outcome StatusCode (Unit {0})
      → Outcome StatusCode VmInstance × State V
  after_start alive self vm (ok _) = (ok vm, add_vm alive vm self)
  after_start alive self vm (err e) = (err e, self)
  after_start alive self vm panic = (panic, self)
  after_start alive self vm stuck = (stuck, self)

  -- `start` is the loading of the config and the start of the VM's process, with a CID.
  module _ (start : ℕ → Outcome StatusCode (Unit {0})) (alive : ℕ → Bool) where
    abbrev pub after_cid :
        Request → List ℕ → Outcome StatusCode ℕ × State V → Outcome StatusCode VmInstance × State V
    after_cid request sid (ok cid, self) =
        after_start alive self
          (record {
            cid = cid;
            requester_uid = request.requester_uid;
            requester_sid = sid;
            requester_debug_pid = request.requester_debug_pid;
          })
          (start cid)
    after_cid request sid (err e, self) = (err e, self)
    after_cid request sid (panic, self) = (panic, self)
    after_cid request sid (stuck, self) = (stuck, self)

    abbrev pub after_sid :
        Request → State V → Outcome StatusCode (List ℕ) → Outcome StatusCode VmInstance × State V
    after_sid request self (ok sid) = after_cid request sid (allocate_cid self)
    after_sid request self (err e) = (err e, self)
    after_sid request self panic = (panic, self)
    after_sid request self stuck = (stuck, self)

    abbrev pub after_log :
        Request → State V → Outcome StatusCode (Unit {0}) → Outcome StatusCode VmInstance × State V
    after_log request self (ok _) = after_sid request self request.requester_sid
    after_log request self (err e) = (err e, self)
    after_log request self panic = (panic, self)
    after_log request self stuck = (stuck, self)

    unfoldable pub start_vm : Request → State V → Outcome StatusCode VmInstance × State V
    start_vm request self = after_log request self request.log_fd

  unfoldable pub debug_list_vms : (ℕ → Bool) → ℕ → State V → Outcome StatusCode (List VmInstance)
  unfolding live_vms
  debug_list_vms alive uid self =
      if debug_access_allowed uid then ok (live_vms alive self) else err permission_denied

  abbrev pub debug_hold_vm : V → State V → State V
  debug_hold_vm vm self = record self { debug_held_vms = self.debug_held_vms ++ (vm ∷ []) }

  unfoldable pub debug_hold_vm_ref : ℕ → V → State V → Outcome StatusCode (Unit {0}) × State V
  debug_hold_vm_ref uid vm self =
      if debug_access_allowed uid
      then (ok tt, debug_hold_vm vm self)
      else (err permission_denied, self)
