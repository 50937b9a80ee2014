-- ===== src/Zip/FileSystem/Listing.antt =====
-- Reading an open directory of zipfuse/src/main.rs piece by piece.
use mathlib.Core.Path.{subst}
use android_packages_modules.Common.{
  ℕ, zero, suc, ◌+◌, ◌<◌, ◌≡◌, refl, sym, ap, ◌∙◌, some, List, [], ◌∷◌, ◌++◌, ok, >>=-eq-ok,
  guard->>=-eq-ok, ok_or, ltb, leb, length, take, drop, arith, length-drop, drop-drop, Bool-cases,
  inl, inr,
}
use android_packages_modules.File.{os, ebadf}
use android_packages_modules.Handles
use android_packages_modules.Zip.Inode.{Inode, Name, DirectoryEntry}
use android_packages_modules.Zip.FileSystem.{OpenDirBuf, ZipFuse}
use android_packages_modules.Zip.FileSystem.Directories.{
  DirIter, entries_that_fit, dir_slice, readdir,
}

module _ {ℓ} {A : Type ℓ} where
  take-drop-length : (n : ℕ) (xs : List A) → take n xs ++ drop (length (take n xs)) xs ≡ xs
  take-drop-length zero xs = refl
  take-drop-length (suc n) [] = refl
  take-drop-length (suc n) (x ∷ xs) = ap (◌∷◌ x) (take-drop-length n xs)

  some_left : (n : ℕ) (xs : List A) → n < length xs → 0 < length (drop n xs)
  some_left n xs h = omega (arith, length-drop n xs)

-- The pieces of a listing join up.
abbrev Resumes : List (Name × DirectoryEntry) → ℕ → ℕ → DirIter → Type 0
Resumes buf size offset it =
    (it.inner ++ drop (offset + length it.inner) buf ≡ drop offset buf)
    × (0 < size → offset < length buf → 0 < length it.inner)

first_fits :
    (dirent_size size : ℕ) (entries : List (Name × DirectoryEntry))
    → 0 < size
    → 0 < length entries
    → 0 < length (take (entries_that_fit dirent_size size 0 entries) entries)
unfolding entries_that_fit
first_fits dirent_size size [] h k = absurd (omega arith)
first_fits dirent_size size (e ∷ rest) h k = ground arith

dir_slice-Resumes :
    (dirent_size size offset : ℕ) (buf : List (Name × DirectoryEntry)) (it : DirIter)
    → dir_slice dirent_size buf size offset ≡ ok it
    → Resumes buf size offset it
dir_slice-Resumes dirent_size size offset buf it h =
    let rest = drop offset buf in
    let n = entries_that_fit dirent_size size 0 rest in
    elim (Bool-cases (leb offset (length buf))) [
      | inl inside ↦
          let same : take n rest ≡ it.inner = ground arith in
          (
            ap (λ xs. xs ++ drop (offset + length xs) buf) (sym same)
                ∙ (ap (λ xs. take n rest ++ xs) (drop-drop offset (length (take n rest)) buf)
                    ∙ take-drop-length n rest),
            λ positive more.
                subst (λ xs. 0 < length xs) same
                  (first_fits dirent_size size rest positive (some_left offset buf more)),
          )
      | inr outside ↦ absurd (ground arith)
    ]

-- A `readdir` that succeeds returns the entries from the offset on, in order and without a gap: what
-- it returns and what a later call at the offset after it has left make up the rest of the directory;
-- and it returns at least one entry where one is left and the size is not 0.
pub readdir-Resumes :
    (dirent_size : ℕ) (self : ZipFuse) (inode : Inode) (size offset : ℕ) (odb : OpenDirBuf)
    (it : DirIter)
    → Handles.get self.open_dirs inode ≡ some odb
    → readdir dirent_size self inode size offset ≡ ok it
    → (it.inner ++ drop (offset + length it.inner) odb.buf ≡ drop offset odb.buf)
      × (0 < size → offset < length odb.buf → 0 < length it.inner)
unfolding readdir
readdir-Resumes dirent_size self inode size offset odb it at h =
    let (found, a, b) = >>=-eq-ok (ok_or (Handles.get self.open_dirs inode) (os ebadf)) _ h in
    let (_, c) = guard->>=-eq-ok (ltb 0 found.open_count) (os ebadf) _ b in
    let same : odb ≡ found = cc (at, a) in
    dir_slice-Resumes dirent_size size offset odb.buf it
      (subst (λ (o : OpenDirBuf). dir_slice dirent_size o.buf size offset ≡ ok it) (sym same) c)
