-- ===== src/Compos/Mapping.antt =====
-- The descriptors that the worker of compos/src/compsvc_worker.rs hands to a task.
use mathlib.Core.List.{map-append, Memᴰ}
use mathlib.Core.List.Memᴰ
use android_packages_modules.Common.{
  ℤ, ◌≡◌, refl, ap, ◌∙◌, Bool, true, false, List, [], ◌∷◌, ◌++◌, map, ok, map_ok, >>=-eq-ok, Each,
  Each-map, Each-eq, map_ok-Each, map_ok-cases, Outcome, err, ◌⊎◌, inl, inr,
}
use android_packages_modules.File.{IoError}
use android_packages_modules.Text.{Bytes, show_int}
use android_packages_modules.Compos.{inherited_fds}
use android_packages_modules.Compos.Worker.{
  InFdAnnotation, OutFdAnnotation, Config, Files, open_authfs_file, open_mapped,
  open_authfs_files_for_mapping, preserve_fds,
}

module _ {H : Type 0} (files : Files H) where
  -- The file at the path of a number under the mount, opened for reading or for writing too.
  abbrev pub IsMapped : {A : Type 0} → Bytes → Bool → (A → ℤ) → A → H × ℤ → Type 0
  IsMapped authfs_root writable fd conf (file, number) =
      (files.open_path (authfs_root ++ (b'/' ∷ show_int (fd conf))) writable ≡ ok file)
      × (number ≡ fd conf)

  -- The descriptor of an opened file, and the number that the task gets for it.
  abbrev pub given : H × ℤ → ℤ × ℤ
  given (file, number) = (files.as_raw_fd file, number)

  abbrev pub same_fd : ℤ → ℤ × ℤ
  same_fd fd = (fd, fd)

  -- The inputs come first. The task gets the descriptors of the files under their numbers.
  pub record IsMapping (config : Config) (fd_mapping : List (H × ℤ)) : Type 0 where
    pub inputs : List (H × ℤ)
    pub outputs : List (H × ℤ)
    pub inputs_mapped :
        Each (IsMapped config.authfs_root false (λ (c : InFdAnnotation). c.fd)) config.in_fds inputs
    pub outputs_mapped :
        Each
          (IsMapped config.authfs_root true (λ (c : OutFdAnnotation). c.fd))
          config.out_fds
          outputs
    pub both : fd_mapping ≡ inputs ++ outputs
    pub numbers :
        (debuggable : Bool)
        → map (λ entry. entry.1) (preserve_fds files debuggable fd_mapping)
          ≡ (map (λ c. c.fd) config.in_fds ++ map (λ c. c.fd) config.out_fds)
            ++ inherited_fds debuggable
    pub handed :
        (debuggable : Bool)
        → preserve_fds files debuggable fd_mapping
          ≡ (map given inputs ++ map given outputs) ++ map same_fd (inherited_fds debuggable)

  opened-IsMapped :
      {A : Type 0} (root : Bytes) (writable : Bool) (fd : A → ℤ) (conf : A) (entry : H × ℤ)
      → open_mapped files root writable (fd conf) ≡ ok entry
      → IsMapped root writable fd conf entry
  opened-IsMapped root writable fd conf (file, number) h =
      let (opened, at, same) =
        >>=-eq-ok (open_authfs_file files root (fd conf) writable) (λ f. ok (f, fd conf)) h in
      let handle : opened ≡ file = cc same in (at ∙ ap ok handle, cc same)

  -- The task's number of an entry.
  abbrev number_of : H × ℤ → ℤ
  number_of entry = entry.1

  numbers_of :
      (debuggable : Bool) (fd_mapping : List (H × ℤ))
      → map (λ entry. entry.1) (preserve_fds files debuggable fd_mapping)
        ≡ map number_of fd_mapping ++ inherited_fds debuggable
  unfolding preserve_fds
  numbers_of true [] = refl
  numbers_of false [] = refl
  numbers_of debuggable (entry ∷ rest) = ap (λ l. number_of entry ∷ l) (numbers_of debuggable rest)

  preserve_fds_lem :
      (debuggable : Bool) (fd_mapping : List (H × ℤ))
      → preserve_fds files debuggable fd_mapping
        ≡ map given fd_mapping ++ map same_fd (inherited_fds debuggable)
  unfolding preserve_fds
  preserve_fds_lem true [] = refl
  preserve_fds_lem false [] = refl
  preserve_fds_lem debuggable (entry ∷ rest) =
      ap (λ l. given entry ∷ l) (preserve_fds_lem debuggable rest)

  open_authfs_files_for_mapping-eq-ok :
      (config : Config) {fd_mapping : List (H × ℤ)}
      → open_authfs_files_for_mapping files config ≡ ok fd_mapping
      → IsMapping config fd_mapping
  unfolding open_authfs_files_for_mapping
  open_authfs_files_for_mapping-eq-ok config {fd_mapping} h =
      let (inputs, ins, h1) =
        >>=-eq-ok
          (map_ok (λ conf. open_mapped files config.authfs_root false conf.fd) config.in_fds) _ h in
      let (outputs, outs, h2) =
        >>=-eq-ok
          (map_ok (λ conf. open_mapped files config.authfs_root true conf.fd) config.out_fds) _
          h1 in
      let both : fd_mapping ≡ inputs ++ outputs = cc h2 in
      let ins_mapped =
        Each-map (opened-IsMapped config.authfs_root false (λ c. c.fd))
          (map_ok-Each _ config.in_fds ins) in
      let outs_mapped =
        Each-map (opened-IsMapped config.authfs_root true (λ c. c.fd))
          (map_ok-Each _ config.out_fds outs) in
      record {
        inputs = inputs;
        outputs = outputs;
        inputs_mapped = ins_mapped;
        outputs_mapped = outs_mapped;
        both = both;
        numbers = λ debuggable.
            numbers_of debuggable fd_mapping
            ∙ ap (λ l. l ++ inherited_fds debuggable)
                (ap (map number_of) both
                  ∙ map-append number_of inputs outputs
                  ∙ (rw
                      (
                        Each-eq (λ c. c.fd) number_of (λ c entry m. m.1) ins_mapped,
                        Each-eq (λ c. c.fd) number_of (λ c entry m. m.1) outs_mapped,
                      )
                      refl));
        handed = λ debuggable.
            preserve_fds_lem debuggable fd_mapping
            ∙ ap (λ l. l ++ map same_fd (inherited_fds debuggable))
                (ap (map given) both ∙ map-append given inputs outputs);
      }

  -- A file of the mount that could not be opened.
  pub record Refused (config : Config) (e : IoError) : Type 0 where
    pub fd : ℤ
    pub writable : Bool
    pub asked : Memᴰ fd (map (λ c. c.fd) config.in_fds ++ map (λ c. c.fd) config.out_fds)
    pub refused : files.open_path (config.authfs_root ++ (b'/' ∷ show_int fd)) writable ≡ err e

  -- What the opening of the files comes to.
  pub data Opens (config : Config) : Outcome IoError (List (H × ℤ)) → Type 0 where
    mapped :
        (fd_mapping : List (H × ℤ)) → IsMapping config fd_mapping → Opens config (ok fd_mapping)
    failed : (e : IoError) → Refused config e → Opens config (err e)

  -- Each call of the system returns or fails.
  abbrev pub Answers : Type 0
  Answers =
      (path : Bytes) (writable : Bool)
      → ((file : H) × (files.open_path path writable ≡ ok file))
        ⊎ ((e : IoError) × (files.open_path path writable ≡ err e))

  mapped-cases :
      (root : Bytes) (writable : Bool) (fd : ℤ)
      → Answers
      → ((entry : H × ℤ) × (open_mapped files root writable fd ≡ ok entry))
        ⊎ ((e : IoError) × (open_mapped files root writable fd ≡ err e))
  mapped-cases root writable fd answers = elim (answers (root ++ (b'/' ∷ show_int fd)) writable) [
    | inl (file, at) ↦ inl ((file, fd), rw (at) refl)
    | inr (e, at) ↦ inr (e, rw (at) refl)
  ]

  Refused-eq-err :
      (config : Config) (writable : Bool) (fd : ℤ) (e : IoError)
      → Answers
      → Memᴰ fd (map (λ c. c.fd) config.in_fds ++ map (λ c. c.fd) config.out_fds)
      → open_mapped files config.authfs_root writable fd ≡ err e
      → Refused config e
  Refused-eq-err config writable fd e answers asked h =
      elim (answers (config.authfs_root ++ (b'/' ∷ show_int fd)) writable) [
        | inl (file, at) ↦ cc (h, at)
        | inr (found, at) ↦
            let same : found ≡ e = cc (h, at) in
            record { fd = fd; writable = writable; asked = asked; refused = at ∙ ap err same }
      ]

  in_refused :
      (config : Config) (e : IoError)
      → map_ok (λ conf. open_mapped files config.authfs_root false conf.fd) config.in_fds ≡ err e
      → open_authfs_files_for_mapping files config ≡ err e
  unfolding open_authfs_files_for_mapping
  in_refused config e h = rw (h) refl

  out_refused :
      (config : Config) (inputs : List (H × ℤ)) (e : IoError)
      → map_ok (λ conf. open_mapped files config.authfs_root false conf.fd) config.in_fds
        ≡ ok inputs
      → map_ok (λ conf. open_mapped files config.authfs_root true conf.fd) config.out_fds ≡ err e
      → open_authfs_files_for_mapping files config ≡ err e
  unfolding open_authfs_files_for_mapping
  out_refused config inputs e h k = rw (h, k) refl

  all_opened :
      (config : Config) (inputs outputs : List (H × ℤ))
      → map_ok (λ conf. open_mapped files config.authfs_root false conf.fd) config.in_fds
        ≡ ok inputs
      → map_ok (λ conf. open_mapped files config.authfs_root true conf.fd) config.out_fds
        ≡ ok outputs
      → open_authfs_files_for_mapping files config ≡ ok (inputs ++ outputs)
  unfolding open_authfs_files_for_mapping
  all_opened config inputs outputs h k = rw (h, k) refl

  -- The task gets, for each descriptor that was asked for, a file opened through the mount at the path
  -- of that number: the inputs for reading only, the outputs for writing too. What it is handed is the
  -- opened file's own descriptor, under the number that was asked for and no other, and the debug
  -- output last, under its own numbers. Otherwise the error is that of a descriptor that could not be
  -- opened. Each call that opens a file returns or fails.
  pub open_authfs_files_for_mapping-Opens :
      (config : Config) → Answers → Opens config (open_authfs_files_for_mapping files config)
  open_authfs_files_for_mapping-Opens config answers =
      elim (map_ok-cases (λ (c : InFdAnnotation). open_mapped files config.authfs_root false c.fd)
        (λ c. mapped-cases config.authfs_root false c.fd answers) config.in_fds) [
          | inr (e, conf, m, refused, all) ↦ rw (in_refused config e all) (
              failed e (
                Refused-eq-err config false conf.fd e answers
                  (Memᴰ.append_left (map (λ c. c.fd) config.out_fds) (Memᴰ.map (λ c. c.fd) m))
                  refused))
          | inl (inputs, ins) ↦
              elim (map_ok-cases
                (λ (c : OutFdAnnotation). open_mapped files config.authfs_root true c.fd)
                (λ c. mapped-cases config.authfs_root true c.fd answers) config.out_fds) [
                  | inr (e, conf, m, refused, all) ↦ rw (out_refused config inputs e ins all) (
                      failed e (
                        Refused-eq-err config true conf.fd e answers
                          (Memᴰ.append_right (map (λ c. c.fd) config.in_fds)
                            (Memᴰ.map (λ c. c.fd) m))
                          refused))
                  | inl (outputs, outs) ↦
                      let both = all_opened config inputs outputs ins outs in
                      rw (both) (
                        mapped (inputs ++ outputs)
                          (open_authfs_files_for_mapping-eq-ok config both))
                ]
        ]
