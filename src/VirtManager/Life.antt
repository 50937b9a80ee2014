-- ===== src/VirtManager/Life.antt =====
-- virtmanager/src/crosvm.rs and the callbacks of virtmanager/src/aidl.rs: the life of a VM. A thread
-- monitors the VM's process, while clients register callbacks (C) and drop the VM. A step is what a
-- thread does while it holds the lock of the callbacks or changes the flag.
pub mod Callbacks
use android_packages_modules.Common.{ℕ, zero, suc, ◌≡◌, Bool, true, false, List, [], ◌∷◌, ◌++◌}

-- Where the monitor is: in `child.wait()`, after it, after the store, and after the calls.
pub data Monitor : Type 0 where
  waiting exited stored called : Monitor

-- `died` are the callbacks whose `onDied` was called, in order.
pub record VmLife (C : Type 0) : Type 0 where
  pub process_alive : Bool
  pub running : Bool
  pub monitor : Monitor
  pub callbacks : List C
  pub died : List C

module _ {C : Type 0} where
  -- `VmInstance::new`, with its monitor.
  abbrev pub new : VmLife C
  new = record {
    process_alive = true;
    running = true;
    monitor = waiting;
    callbacks = [];
    died = [];
  }

  -- The process ends by itself, or by `child.kill()`.
  abbrev pub kill : VmLife C → VmLife C
  kill self = record self { process_alive = false }

  abbrev pub add : C → VmLife C → VmLife C
  add callback self = record self { callbacks = self.callbacks ++ (callback ∷ []) }

  abbrev pub wait_done : VmLife C → VmLife C
  wait_done self = record self { monitor = exited }

  abbrev pub store_running : VmLife C → VmLife C
  store_running self = record self { running = false; monitor = stored }

  abbrev pub callback_on_died : VmLife C → VmLife C
  callback_on_died self = record self { died = self.died ++ self.callbacks; monitor = called }

  -- What clients and the process do.
  pub data ClientStep (self : VmLife C) : VmLife C → Type 0 where
    process_exits : ClientStep self (kill self)
    drop_vm : ClientStep self (kill self)
    register_callback : (callback : C) → ClientStep self (add callback self)

  -- The monitor: `wait` returns when the process has ended, or with an error at any time.
  pub data MonitorStep (self : VmLife C) : VmLife C → Type 0 where
    wait_returns :
        self.monitor ≡ waiting → self.process_alive ≡ false → MonitorStep self (wait_done self)
    wait_fails : self.monitor ≡ waiting → MonitorStep self (wait_done self)
    stores : self.monitor ≡ exited → MonitorStep self (store_running self)
    calls_back : self.monitor ≡ stored → MonitorStep self (callback_on_died self)

  -- A schedule in which the monitor takes `n` steps.
  pub data Run : ℕ → VmLife C → VmLife C → Type 0 where
    stop : (self : VmLife C) → Run 0 self self
    by_client :
        {n : ℕ} (self next last : VmLife C)
        → ClientStep self next
        → Run n next last
        → Run n self last
    by_monitor :
        {n : ℕ} (self next last : VmLife C)
        → MonitorStep self next
        → Run n next last
        → Run (suc n) self last

-- How many steps the monitor has left.
abbrev pub steps_left : Monitor → ℕ
steps_left waiting = 3
steps_left exited = 2
steps_left stored = 1
steps_left called = 0
