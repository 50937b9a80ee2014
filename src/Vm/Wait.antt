-- ===== src/Vm/Wait.antt =====
-- What the end of wait_for_vm in vm/src/run.rs tells.
use android_packages_modules.Common.{ℕ, ◌≡◌, refl, ◌⊎◌, inl, inr, Bool, true, false, List, [], ◌∷◌}
use android_packages_modules.VirtManager.Life.{
  VmLife, stored, new, ClientStep, process_exits, drop_vm, register_callback, MonitorStep,
  wait_returns, wait_fails, stores, calls_back, Run, add, callback_on_died,
}
use android_packages_modules.VirtManager.Life.Callbacks.{
  Sound, new-Sound, client-Sound, monitor-Sound,
}
use android_packages_modules.Vm.{
  Client, me, other, Phase, returned, linked, starting, registered, failed, VmRun, notify_death,
  call_all, Step, vm_moves, monitor_moves, monitor_calls, registers, links, call_fails,
  service_dies, returns, Steps, here, step, start,
}

-- The VM counts as dead, or the service is.
abbrev pub Ended : VmRun → Type 0
Ended self = (self.life.running ≡ false) ⊎ (self.service_alive ≡ false)

record Told (self : VmRun) : Type 0 where
  sound : Sound self.life
  told : self.dead ≡ true → Ended self
  done : self.phase ≡ returned → self.dead ≡ true

client-running :
    (self next : VmLife Client) → ClientStep self next → self.running ≡ false → next.running ≡ false
client-running self next process_exits h = h
client-running self next drop_vm h = h
client-running self next (register_callback callback) h = h

monitor-running :
    (self next : VmLife Client)
    → MonitorStep self next
    → self.running ≡ false
    → next.running ≡ false
monitor-running self next (wait_returns at _) h = h
monitor-running self next (wait_fails at) h = h
monitor-running self next (stores at) h = refl
monitor-running self next (calls_back at) h = h

-- An end stays one when the VM's flag stays cleared.
still :
    (self : VmRun) (life : VmLife Client)
    → (self.life.running ≡ false → life.running ≡ false)
    → Ended self
    → Ended (record self { life = life })
still self life keep (inl h) = inl (keep h)
still self life keep (inr h) = inr h

call_all-true : (clients : List Client) (dead : Bool) → dead ≡ true → call_all clients dead ≡ true
call_all-true [] dead h = h
call_all-true (me ∷ rest) dead h = call_all-true rest true refl
call_all-true (other n ∷ rest) dead h = call_all-true rest dead h

notify_death-true : (phase : Phase) (dead : Bool) → dead ≡ true → notify_death phase dead ≡ true
notify_death-true starting dead h = h
notify_death-true registered dead h = h
notify_death-true linked dead h = refl
notify_death-true returned dead h = h
notify_death-true failed dead h = h

-- The flag is cleared when the monitor comes to the calls.
stored-flag : (life : VmLife Client) → life.monitor ≡ stored → Sound life → life.running ≡ false
stored-flag life at s = cc (s.flag_lem, at)

Step-Told : (self next : VmRun) → Step self next → Told self → Told next
Step-Told self next (vm_moves life moved) t = record {
  sound = client-Sound self.life life moved t.sound;
  told = λ h. still self life (client-running self.life life moved) (t.told h);
  done = t.done;
}
Step-Told self next (monitor_moves life early moved) t = record {
  sound = monitor-Sound self.life life moved t.sound;
  told = λ h. still self life (monitor-running self.life life moved) (t.told h);
  done = t.done;
}
Step-Told self next (monitor_calls at) t = record {
  sound = monitor-Sound self.life (callback_on_died self.life) (calls_back at) t.sound;
  told = λ h. inl (stored-flag self.life at t.sound);
  done = λ h. call_all-true self.life.callbacks self.dead (t.done h);
}
Step-Told self next (registers at alive) t = record {
  sound = client-Sound self.life (add me self.life) (register_callback me) t.sound;
  told = λ h. still self (add me self.life) (λ e. e) (t.told h);
  done = λ h. cc h;
}
Step-Told self next (links at alive) t = record {
  sound = t.sound;
  told = λ h. t.told h;
  done = λ h. cc h;
}
Step-Told self next (call_fails phase dead) t = record {
  sound = t.sound;
  told = λ h. t.told h;
  done = λ h. cc h;
}
Step-Told self next (service_dies alive) t = record {
  sound = t.sound;
  told = λ h. inr refl;
  done = λ h. notify_death-true self.phase self.dead (t.done h);
}
Step-Told self next (returns at dead) t = record {
  sound = t.sound;
  told = λ h. t.told h;
  done = λ h. dead;
}

Steps-Told : (self last : VmRun) → Told self → Steps self last → Told last
Steps-Told self last t (here _) = t
Steps-Told self last t (step _ next _ moved rest) =
    Steps-Told next last (Step-Told self next moved t) rest

-- The command returns from its wait only when the flag of the VM is cleared or the service has died, in
-- every schedule of the command, of the VM's monitor, of other clients and of the service.
pub wait_for_vm-Ended :
    {n : ℕ} (life : VmLife Client) (last : VmRun)
    → Run n new life
    → Steps (start life) last
    → last.phase ≡ returned
    → Ended last
wait_for_vm-Ended life last before steps at =
    let t =
      Steps-Told (start life) last
        (record { sound = new-Sound life before; told = λ h. cc h; done = λ h. cc h }) steps in
    t.told (t.done at)
