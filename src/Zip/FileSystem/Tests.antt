-- ===== src/Zip/FileSystem/Tests.antt =====
-- The handlers on a file and a directory.
use android_packages_modules.Common.{
  ℕ, ◌≡◌, refl, none, some, List, [], ◌∷◌, ◌++◌, Outcome, ok, err, panic, arith, drop, take, length,
  leb, true, bytes_eq, ◌==◌, if◌then◌else◌, ◌+◌, ◌<◌,
}
use android_packages_modules.File.{IoError}
use android_packages_modules.Handles
use android_packages_modules.Zip.Inode.{
  InodeTable, Name, DirectoryEntry, InodeDataData, directory_kind, file_kind, new_dir, FromZipError,
  zip_error, ZipFile, ZipArchive, from_zip, root,
}
use android_packages_modules.Zip.Inode
use android_packages_modules.Zip.FileSystem.{
  ZipFuse, new, open_file, read, release, file_contents, lookup,
}
use android_packages_modules.Zip.FileSystem.Directories.{DirIter, readdir}
use android_packages_modules.Zip.FileSystem.Opened.{
  read-open_file, read-panic, release-open_file, release-keeps, releases,
}
use android_packages_modules.Zip.FileSystem.Served.{lookup_path, read-served}
use android_packages_modules.Zip.FileSystem.Listing.{readdir-Resumes}

abbrev root_entries : List (Name × DirectoryEntry)
root_entries =
    (97 ∷ [], record { inode = 2; kind = file_kind })
    ∷ (98 ∷ [], record { inode = 3; kind = directory_kind })
    ∷ []

abbrev table : InodeTable
table =
    new_dir 0
    ∷ record { size = 0; mode = 0; contents = InodeDataData.directory root_entries }
    ∷ record { size = 3; mode = 0; contents = InodeDataData.file 0 }
    ∷ new_dir 0
    ∷ []

abbrev read_file : ℕ → Outcome IoError (List ℕ)
read_file i = ok (7 ∷ 8 ∷ 9 ∷ [])

abbrev count_written : List ℕ → Outcome IoError ℕ
count_written bytes = ok (length bytes)

contents : file_contents read_file (new table) 2 ≡ ok (7 ∷ 8 ∷ 9 ∷ [])
unfolding file_contents Inode.get
contents = refl

read-open_file_example : read count_written (open_file read_file (new table) 2).1 2 5 1 ≡ ok 2
read-open_file_example =
    read-open_file read_file (new table) 2 (7 ∷ 8 ∷ 9 ∷ []) count_written 5 1 refl contents
      (omega arith) (omega arith)

read-panic_example : read count_written (open_file read_file (new table) 2).1 2 5 4 ≡ panic
read-panic_example =
    read-panic read_file (new table) 2 (7 ∷ 8 ∷ 9 ∷ []) count_written 5 4 refl contents
      (omega arith)

release-open_file_example :
    Handles.get (release (open_file read_file (new table) 2).1 2).1.open_files 2 ≡ none
release-open_file_example =
    release-open_file read_file (new table) 2 (7 ∷ 8 ∷ 9 ∷ []) 2 refl contents

release-keeps_example :
    Handles.get
      (releases 2 2 (open_file read_file (open_file read_file (new table) 2).1 2).1).open_files
      2
    ≡ some (record { open_count = 2; buf = 7 ∷ 8 ∷ 9 ∷ [] })
release-keeps_example = release-keeps read_file (new table) 2 (7 ∷ 8 ∷ 9 ∷ []) 2 refl contents

abbrev with_dir : ZipFuse
with_dir = record (new table) {
  open_dirs = (1, record { open_count = 1; buf = root_entries }) ∷ [];
}

abbrev first_piece : DirIter
first_piece = record {
  inner = (97 ∷ [], record { inode = 2; kind = file_kind }) ∷ [];
  offset = 0;
  cur = 0;
}

first_piece-ok : readdir 24 with_dir 1 32 0 ≡ ok first_piece
unfolding readdir
first_piece-ok = refl

readdir-Resumes_example :
    (first_piece.inner ++ drop (0 + 1) root_entries ≡ drop 0 root_entries)
    × (0 < 32 → 0 < length root_entries → 0 < length first_piece.inner)
readdir-Resumes_example =
    readdir-Resumes 24 with_dir 1 32 0 (record { open_count = 1; buf = root_entries }) first_piece
      refl first_piece-ok

-- An archive of the file a/b.
abbrev a_b : ZipFile
a_b = record {
  name = [];
  enclosed_name = some ((97 ∷ []) ∷ (98 ∷ []) ∷ []);
  is_file = true;
  unix_mode = none;
  size = 3;
}

abbrev one_file : ZipArchive
one_file = record { len = 1; by_index = λ i. if i == 0 then ok a_b else err zip_error }

abbrev table_or_empty : Outcome FromZipError InodeTable → InodeTable
table_or_empty (ok built) = built
table_or_empty _ = []

abbrev mounted : ZipFuse
mounted = new (table_or_empty (from_zip one_file))

one_file-ok : from_zip one_file ≡ ok mounted.inode_table
unfolding from_zip bytes_eq
one_file-ok = refl

path-ok : lookup_path mounted root ((97 ∷ []) ∷ (98 ∷ []) ∷ []) ≡ ok 3
unfolding lookup from_zip bytes_eq
path-ok = refl

open-ok : (open_file read_file mounted 3).0 ≡ ok 3
unfolding open_file from_zip bytes_eq
open-ok = refl

read-served_example :
    (j : ℕ) × (f : ZipFile) × (bytes : List ℕ) × (one_file.by_index j ≡ ok f)
    × (f.enclosed_name ≡ some ((97 ∷ []) ∷ (98 ∷ []) ∷ []))
    × (f.is_file ≡ true)
    × (read_file j ≡ ok bytes)
    × (read count_written (open_file read_file mounted 3).1 3 5 1
        ≡ (if leb 1 (length bytes) then count_written (take 5 (drop 1 bytes)) else panic))
read-served_example =
    read-served read_file mounted 3 one_file ((97 ∷ []) ∷ (98 ∷ []) ∷ []) 3 count_written 5 1
      one_file-ok path-ok refl open-ok (omega arith)
