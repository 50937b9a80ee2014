-- ===== src/VirtManager/Tests/Life.antt =====
-- Schedules with callbacks that are numbers.
use android_packages_modules.Common.{ℕ, ◌≡◌, refl, [], ◌∷◌, arith}
use android_packages_modules.VirtManager.Life.{
  VmLife, new, kill, add, wait_done, store_running, callback_on_died, process_exits,
  register_callback, wait_returns, stores, calls_back, Run, stop, by_client, by_monitor,
}
use android_packages_modules.VirtManager.Life.Callbacks.{
  Sound, Notified, new-Sound, run-notifies, register_callback-died,
}

-- A client registers 7 and the process ends.
abbrev dying : VmLife ℕ
dying = kill (add 7 new)

abbrev over : VmLife ℕ
over = callback_on_died (store_running (wait_done dying))

before : Run 0 new dying
before = by_client _ _ _ (register_callback 7) (by_client _ _ _ process_exits (stop dying))

monitored : Run 3 dying over
monitored =
    by_monitor _ _ _ (wait_returns refl refl)
      (by_monitor _ _ _ (stores refl) (by_monitor _ _ _ (calls_back refl) (stop over)))

new-Sound_example : Sound dying
new-Sound_example = new-Sound dying before

run-notifies_example : Notified (7 ∷ []) over
run-notifies_example = run-notifies dying over before (λ e. cc e) monitored (omega arith)

register_callback-died_example : (add 8 over).died ≡ 7 ∷ []
register_callback-died_example = register_callback-died 8 over (add 8 over) refl (stop (add 8 over))
