-- ===== src/VirtManager/Life/Callbacks.antt =====
-- Which callbacks of a VM are called, in every schedule of virtmanager/src/crosvm.rs.
use mathlib.Core.List.{append_assoc, append-nil}
use android_packages_modules.Common.{
  ℕ, ◌≤◌, ◌≡◌, ◌≢◌, refl, sym, ap, ◌∙◌, Bool, true, false, List, [], ◌∷◌, ◌++◌, arith,
}
use android_packages_modules.VirtManager.Life.{
  Monitor, waiting, exited, stored, called, VmLife, new, add, wait_done, store_running,
  callback_on_died, ClientStep, process_exits, drop_vm, register_callback, MonitorStep,
  wait_returns, wait_fails, stores, calls_back, Run, stop, by_client, by_monitor, steps_left,
}

-- Before the store.
abbrev is_early : Monitor → Bool
is_early waiting = true
is_early exited = true
is_early stored = false
is_early called = false

some_left : (monitor : Monitor) → monitor ≢ called → 1 ≤ steps_left monitor
some_left waiting early = omega arith
some_left exited early = omega arith
some_left stored early = omega arith
some_left called early = absurd (early refl)

module _ {C : Type 0} where
  -- Once the monitor is done nobody is called any more.
  done-died :
      {n : ℕ} (self last : VmLife C)
      → self.monitor ≡ called
      → Run n self last
      → last.died ≡ self.died
  done-died self last h (stop _) = refl
  done-died self last h (by_client _ next _ process_exits run) = done-died next last h run
  done-died self last h (by_client _ next _ drop_vm run) = done-died next last h run
  done-died self last h (by_client _ next _ (register_callback callback) run) =
      done-died next last h run
  done-died self last h (by_monitor _ next _ (wait_returns at _) run) = cc (h, at)
  done-died self last h (by_monitor _ next _ (wait_fails at) run) = cc (h, at)
  done-died self last h (by_monitor _ next _ (stores at) run) = cc (h, at)
  done-died self last h (by_monitor _ next _ (calls_back at) run) = cc (h, at)

  -- Callbacks are only added, at the end.
  callbacks-grow :
      {n : ℕ} (self last : VmLife C)
      → Run n self last
      → (late : List C) × (last.callbacks ≡ self.callbacks ++ late)
  callbacks-grow self last (stop _) = ([], sym (append-nil self.callbacks))
  callbacks-grow self last (by_client _ next _ process_exits run) = callbacks-grow next last run
  callbacks-grow self last (by_client _ next _ drop_vm run) = callbacks-grow next last run
  callbacks-grow self last (by_client _ next _ (register_callback callback) run) =
      let (late, e) = callbacks-grow next last run in
      (callback ∷ late, e ∙ append_assoc self.callbacks (callback ∷ []) late)
  callbacks-grow self last (by_monitor _ next _ (wait_returns _ _) run) =
      callbacks-grow next last run
  callbacks-grow self last (by_monitor _ next _ (wait_fails _) run) = callbacks-grow next last run
  callbacks-grow self last (by_monitor _ next _ (stores _) run) = callbacks-grow next last run
  callbacks-grow self last (by_monitor _ next _ (calls_back _) run) = callbacks-grow next last run

  -- The callbacks that were called are those that were registered, but for the last ones, and begin
  -- with `known`.
  pub record Notified (known : List C) (last : VmLife C) : Type 0 where
    pub after : List C
    pub late : List C
    pub calls : last.died ≡ known ++ after
    pub registered : last.callbacks ≡ last.died ++ late

  -- The callbacks begin with `known`, and the monitor has yet to call them.
  pub record Awaits (known : List C) (self : VmLife C) : Type 0 where
    pub more : List C
    pub registered : self.callbacks ≡ known ++ more
    pub uncalled : self.died ≡ []

  add-Awaits :
      (known : List C) (self : VmLife C) (callback : C)
      → Awaits known self
      → Awaits known (add callback self)
  add-Awaits known self callback a = record {
    more = a.more ++ (callback ∷ []);
    registered =
        ap (λ l. l ++ (callback ∷ [])) a.registered ∙ append_assoc known a.more (callback ∷ []);
    uncalled = a.uncalled;
  }

  notifies :
      {n : ℕ} (known : List C) (self last : VmLife C)
      → Awaits known self
      → 1 ≤ steps_left self.monitor
      → steps_left self.monitor ≤ n
      → Run n self last
      → Notified known last
  notifies known self last a some_left few (stop _) = absurd (omega arith)
  notifies known self last a some_left few (by_client _ next _ process_exits run) =
      notifies known next last
        (record { more = a.more; registered = a.registered; uncalled = a.uncalled }) some_left few
        run
  notifies known self last a some_left few (by_client _ next _ drop_vm run) =
      notifies known next last
        (record { more = a.more; registered = a.registered; uncalled = a.uncalled }) some_left few
        run
  notifies known self last a some_left few (by_client _ next _ (register_callback callback) run) =
      notifies known next last (add-Awaits known self callback a) some_left few run
  notifies known self last a some_left few (by_monitor _ next _ (wait_returns at _) run) =
      notifies known next last
        (record { more = a.more; registered = a.registered; uncalled = a.uncalled }) (omega arith)
        (omega (arith, ap steps_left at)) run
  notifies known self last a some_left few (by_monitor _ next _ (wait_fails at) run) =
      notifies known next last
        (record { more = a.more; registered = a.registered; uncalled = a.uncalled }) (omega arith)
        (omega (arith, ap steps_left at)) run
  notifies known self last a some_left few (by_monitor _ next _ (stores at) run) =
      notifies known next last
        (record { more = a.more; registered = a.registered; uncalled = a.uncalled }) (omega arith)
        (omega (arith, ap steps_left at)) run
  notifies known self last a some_left few (by_monitor _ next _ (calls_back at) run) =
      let called_now : last.died ≡ self.callbacks =
        done-died next last refl run ∙ ap (λ l. l ++ self.callbacks) a.uncalled in
      let (late, grown) = callbacks-grow next last run in
      record {
        after = a.more;
        late = late;
        calls = called_now ∙ a.registered;
        registered = grown ∙ ap (λ l. l ++ late) (sym called_now);
      }

  -- The flag tells whether the monitor has come to the store, and nobody is called before.
  pub record Sound (self : VmLife C) : Type 0 where
    pub flag_lem : self.running ≡ is_early self.monitor
    pub uncalled : self.monitor ≢ called → self.died ≡ []

  pub client-Sound : (self next : VmLife C) → ClientStep self next → Sound self → Sound next
  client-Sound self next process_exits s = record { flag_lem = s.flag_lem; uncalled = s.uncalled }
  client-Sound self next drop_vm s = record { flag_lem = s.flag_lem; uncalled = s.uncalled }
  client-Sound self next (register_callback callback) s = record {
    flag_lem = s.flag_lem;
    uncalled = s.uncalled;
  }

  pub monitor-Sound : (self next : VmLife C) → MonitorStep self next → Sound self → Sound next
  monitor-Sound self next (wait_returns at _) s = record {
    flag_lem = s.flag_lem ∙ ap is_early at;
    uncalled = λ early. s.uncalled (λ e. cc (at, e));
  }
  monitor-Sound self next (wait_fails at) s = record {
    flag_lem = s.flag_lem ∙ ap is_early at;
    uncalled = λ early. s.uncalled (λ e. cc (at, e));
  }
  monitor-Sound self next (stores at) s = record {
    flag_lem = refl;
    uncalled = λ early. s.uncalled (λ e. cc (at, e));
  }
  monitor-Sound self next (calls_back at) s = record {
    flag_lem = s.flag_lem ∙ ap is_early at;
    uncalled = λ early. absurd (early refl);
  }

  run-Sound : {n : ℕ} (self last : VmLife C) → Sound self → Run n self last → Sound last
  run-Sound self last s (stop _) = s
  run-Sound self last s (by_client _ next _ step run) =
      run-Sound next last (client-Sound self next step s) run
  run-Sound self last s (by_monitor _ next _ step run) =
      run-Sound next last (monitor-Sound self next step s) run

  enabled_at :
      (monitor : Monitor) (self : VmLife C)
      → self.monitor ≡ monitor
      → self.process_alive ≡ false
      → monitor ≢ called
      → (next : VmLife C) × MonitorStep self next
  enabled_at waiting self at dead early = (wait_done self, wait_returns at dead)
  enabled_at exited self at dead early = (store_running self, stores at)
  enabled_at stored self at dead early = (callback_on_died self, calls_back at)
  enabled_at called self at dead early = absurd (early refl)

  -- In every schedule the flag of a VM is set until its monitor clears it, before it calls anybody: no
  -- client is told that a VM died that still counts as running.
  pub new-Sound : {n : ℕ} (self : VmLife C) → Run n new self → Sound self
  new-Sound self run = run-Sound new self (record { flag_lem = refl; uncalled = λ early. refl }) run

  -- From a state in which the monitor is not done, the steps that it has left are enough to call every
  -- callback that was registered by now, whatever the clients do in between. The list of the calls
  -- made is the list of the registrations up to some point, in their order: there is one call for
  -- each registration of that part, and none for a later one.
  pub run-notifies :
      {m n : ℕ} (self last : VmLife C)
      → Run m new self
      → self.monitor ≢ called
      → Run n self last
      → steps_left self.monitor ≤ n
      → Notified self.callbacks last
  run-notifies self last before early run few =
      notifies self.callbacks self last
        (record {
          more = [];
          registered = sym (append-nil self.callbacks);
          uncalled = (new-Sound self before).uncalled early;
        })
        (some_left self.monitor early) few run

  -- The monitor is never stuck once the process has ended.
  pub monitor_enabled :
      (self : VmLife C)
      → self.process_alive ≡ false
      → self.monitor ≢ called
      → (next : VmLife C) × MonitorStep self next
  monitor_enabled self dead early = enabled_at self.monitor self refl dead early

  -- A callback that is registered when the monitor is done is never called: the client that waits for it
  -- is not told that the VM has died.
  pub register_callback-died :
      {n : ℕ} (callback : C) (self last : VmLife C)
      → self.monitor ≡ called
      → Run n (add callback self) last
      → last.died ≡ self.died
  register_callback-died callback self last done run = done-died (add callback self) last done run
