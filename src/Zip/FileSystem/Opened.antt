-- ===== src/Zip/FileSystem/Opened.antt =====
-- Open, read and release of the handlers of zipfuse/src/main.rs, one after the other.
use android_packages_modules.Common.{
  ℕ, zero, suc, ◌+◌, ◌-◌, ◌≤◌, ◌<◌, ◌%◌, ◌≡◌, refl, ap, ◌∙◌, min, none, some, true, false, List, [],
  ◌∷◌, Outcome, ok, panic, leb, ◌==◌, length, take, drop, arith, length-drop,
}
use android_packages_modules.Chunks.{u64_mod}
use android_packages_modules.File.{IoError}
use android_packages_modules.Handles.{HandleMap, get-remove}
use android_packages_modules.Handles
use android_packages_modules.Zip.Inode.{Inode}
use android_packages_modules.Zip.FileSystem.{
  ZipFuse, file_contents, open_file, release, slice, read,
}

take-min {ℓ} : {A : Type ℓ} (n : ℕ) (xs : List A) → take (min n (length xs)) xs ≡ take n xs
take-min zero xs = ground arith
take-min (suc n) [] = ground arith
take-min (suc n) (x ∷ xs) =
    let e : min (suc n) (suc (length xs)) ≡ suc (min n (length xs)) = omega arith in
    ap (λ k. take k (x ∷ xs)) e ∙ ap (◌∷◌ x) (take-min n xs)

-- A number of releases of one inode.
abbrev pub releases : Inode → ℕ → ZipFuse → ZipFuse
releases inode zero state = state
releases inode (suc n) state = releases inode n (release state inode).1

module _ (read_file : ℕ → Outcome IoError (List ℕ)) (self : ZipFuse) (inode : Inode)
    (bytes : List ℕ) where
  abbrev opened : ZipFuse
  opened = record self {
    open_files = Handles.insert self.open_files inode (record { open_count = 1; buf = bytes });
  }

  open_file-eq-opened :
      Handles.get self.open_files inode ≡ none
      → file_contents read_file self inode ≡ ok bytes
      → open_file read_file self inode ≡ (ok inode, opened)
  unfolding open_file
  open_file-eq-opened shut contents = rw (shut, contents, open_file) refl

  same_handle : (inode == inode) ≡ true
  same_handle = ground arith

  read-opened :
      (w : List ℕ → Outcome IoError ℕ) (size offset : ℕ)
      → offset ≤ length bytes
      → offset + size < u64_mod
      → read w opened inode size offset ≡ w (take size (drop offset bytes))
  unfolding read slice
  read-opened w size offset inside small =
      let e : min ((offset + size) % u64_mod) (length bytes) - offset
          ≡ min size (length (drop offset bytes)) =
        omega (arith, length-drop offset bytes) in
      let f : leb offset (min ((offset + size) % u64_mod) (length bytes)) ≡ true = ground arith in
      rw (same_handle, f, e, take-min size (drop offset bytes)) refl

  -- When a file that is not open has contents, a read after its open passes the reply the bytes of
  -- those contents from the offset on, up to the size or the end, for an offset within the file
  -- and an end that does not overflow.
  pub read-open_file :
      (w : List ℕ → Outcome IoError ℕ) (size offset : ℕ)
      → Handles.get self.open_files inode ≡ none
      → file_contents read_file self inode ≡ ok bytes
      → offset ≤ length bytes
      → offset + size < u64_mod
      → read w (open_file read_file self inode).1 inode size offset
        ≡ w (take size (drop offset bytes))
  read-open_file w size offset shut contents inside small =
      ap (λ (r : Outcome IoError ℕ × ZipFuse). read w r.1 inode size offset)
        (open_file-eq-opened shut contents)
      ∙ read-opened w size offset inside small

  past :
      (w : List ℕ → Outcome IoError ℕ) (size offset : ℕ)
      → length bytes < offset
      → read w opened inode size offset ≡ panic
  unfolding read slice
  past w size offset beyond =
      let f : leb offset (min ((offset + size) % u64_mod) (length bytes)) ≡ false = ground arith in
      rw (same_handle, f) refl

  -- When a file that is not open has contents, a read after its open with an offset beyond their
  -- end panics.
  pub read-panic :
      (w : List ℕ → Outcome IoError ℕ) (size offset : ℕ)
      → Handles.get self.open_files inode ≡ none
      → file_contents read_file self inode ≡ ok bytes
      → length bytes < offset
      → read w (open_file read_file self inode).1 inode size offset ≡ panic
  read-panic w size offset shut contents beyond =
      ap (λ (r : Outcome IoError ℕ × ZipFuse). read w r.1 inode size offset)
        (open_file-eq-opened shut contents)
      ∙ past w size offset beyond

  released :
      (other : ℕ)
      → Handles.get self.open_files inode ≡ none
      → Handles.get (release opened inode).1.open_files other ≡ Handles.get self.open_files other
  unfolding release
  released other shut =
      rw (same_handle, release, Handles.get)
        (get-remove opened.open_files inode other ∙ ground arith)

  -- Opening a file that is not open and has contents, and releasing it, leaves every handle as it was.
  pub release-open_file :
      (other : ℕ)
      → Handles.get self.open_files inode ≡ none
      → file_contents read_file self inode ≡ ok bytes
      → Handles.get (release (open_file read_file self inode).1 inode).1.open_files other
        ≡ Handles.get self.open_files other
  release-open_file other shut contents =
      ap (λ (r : Outcome IoError ℕ × ZipFuse). Handles.get (release r.1 inode).1.open_files other)
        (open_file-eq-opened shut contents)
      ∙ released other shut

  abbrev again : ZipFuse
  again = record self {
    open_files = Handles.insert opened.open_files inode (record { open_count = 2; buf = bytes });
  }

  twice : open_file read_file opened inode ≡ (ok inode, again)
  unfolding open_file
  twice = rw (same_handle, open_file, Handles.get) refl

  kept : (release again inode).1 ≡ again
  unfolding release
  kept = rw (same_handle, release, Handles.get) refl

  stays :
      (n : ℕ)
      → Handles.get (releases inode n again).open_files inode
        ≡ some (record { open_count = 2; buf = bytes })
  stays zero = rw same_handle refl
  stays (suc n) = ap (λ t. Handles.get (releases inode n t).open_files inode) kept ∙ stays n

  -- A file that was not open and has contents, once it is opened twice, stays open with its buffer,
  -- however often it is released.
  pub release-keeps :
      (n : ℕ)
      → Handles.get self.open_files inode ≡ none
      → file_contents read_file self inode ≡ ok bytes
      → Handles.get
          (releases inode n
            (open_file read_file (open_file read_file self inode).1 inode).1).open_files
          inode
        ≡ some (record { open_count = 2; buf = bytes })
  release-keeps n shut contents =
      ap
        (λ (r : Outcome IoError ℕ × ZipFuse).
          Handles.get (releases inode n (open_file read_file r.1 inode).1).open_files inode)
        (open_file-eq-opened shut contents)
      ∙ (ap
            (λ (r : Outcome IoError ℕ × ZipFuse).
              Handles.get (releases inode n r.1).open_files inode)
            twice
          ∙ stays n)
