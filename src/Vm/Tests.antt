-- ===== src/Vm/Tests.antt =====
-- A VM that dies while the command waits for it.
use android_packages_modules.Common.{refl, true, false, [], ◌∷◌}
use android_packages_modules.VirtManager.Life.{
  VmLife, new, kill, wait_done, store_running, process_exits, wait_returns, stores, stop, add,
  called,
}
use android_packages_modules.Vm.{
  Client, me, VmRun, returned, Steps, here, step, start, vm_moves, monitor_moves, monitor_calls,
  registers, links, returns,
}
use android_packages_modules.Vm.Wait.{Ended, wait_for_vm-Ended}

abbrev alive : VmLife Client
alive = add me new

abbrev over : VmRun
over = record {
  life = record {
    process_alive = false;
    running = false;
    monitor = called;
    callbacks = me ∷ [];
    died = me ∷ [];
  };
  service_alive = true;
  dead = true;
  phase = returned;
}

run_to_the_end : Steps (start new) over
run_to_the_end = step _ _ _ (registers refl refl) (
    step _ _ _ (links refl refl) (
      step _ _ _ (vm_moves (kill alive) process_exits) (
        step _ _ _ (monitor_moves (wait_done (kill alive)) (λ e. cc e) (wait_returns refl refl)) (
          step _ _ _
            (monitor_moves (store_running (wait_done (kill alive))) (λ e. cc e) (stores refl))
            (step _ _ _ (monitor_calls refl) (step _ _ _ (returns refl refl) (here over)))))))

wait_for_vm-Ended_example : Ended over
wait_for_vm-Ended_example = wait_for_vm-Ended new over (stop new) run_to_the_end refl
