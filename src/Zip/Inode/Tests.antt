-- ===== src/Zip/Inode/Tests.antt =====
-- A small archive, and the theorems on its table.
use android_packages_modules.Common.{
  ℕ, ◌≡◌, refl, none, some, true, List, [], ◌∷◌, Outcome, ok, err, panic, arith, bytes_eq, map,
  length, zero, suc,
}
use android_packages_modules.Zip.Inode.{
  Name, directory_kind, InodeTable, FromZipError, dot_dot_not_allowed, zip_error, ZipFile,
  ZipArchive, root, add, from_zip, new_dir,
}
use android_packages_modules.Zip.Inode.Entries.{entry}
use android_packages_modules.Zip.Inode.Table.{entry-add}
use android_packages_modules.Zip.Inode.Shape.{IsTree}
use android_packages_modules.Zip.Inode.Paths.{walk, from_zip-IsTree}
use android_packages_modules.Zip.Inode.Stored.{Stored, from_zip-Stored}

abbrev zip_entry : List Name → ZipFile
zip_entry path = record {
  name = [];
  enclosed_name = some path;
  is_file = true;
  unix_mode = none;
  size = 10;
}

abbrev nth : List ZipFile → ℕ → Outcome FromZipError ZipFile
nth [] i = err zip_error
nth (x ∷ xs) zero = ok x
nth (x ∷ xs) (suc i) = nth xs i

abbrev archive_of : List (List Name) → ZipArchive
archive_of paths = record { len = length paths; by_index = nth (map zip_entry paths) }

abbrev a : Name
a = 97 ∷ []

abbrev b : Name
b = 98 ∷ []

-- The files a/b and b.
abbrev small : ZipArchive
small = archive_of ((a ∷ b ∷ []) ∷ (b ∷ []) ∷ [])

abbrev table_or_empty : Outcome FromZipError InodeTable → InodeTable
table_or_empty (ok table) = table
table_or_empty _ = []

abbrev small_table : InodeTable
small_table = table_or_empty (from_zip small)

small_table-ok : from_zip small ≡ ok small_table
unfolding from_zip bytes_eq
small_table-ok = refl

from_zip-Stored_example :
    (q : ℕ) × (walk small_table root (a ∷ b ∷ []) ≡ some q)
    × Stored small small_table 0 (zip_entry (a ∷ b ∷ [])) (a ∷ b ∷ []) q
from_zip-Stored_example =
    from_zip-Stored small small_table 0 (zip_entry (a ∷ b ∷ [])) (a ∷ b ∷ []) small_table-ok
      (omega arith) refl refl

from_zip-IsTree_example : IsTree small_table
from_zip-IsTree_example = from_zip-IsTree small small_table small_table-ok

-- A file that is also the directory of another file.
file_as_directory : from_zip (archive_of ((a ∷ []) ∷ (a ∷ b ∷ []) ∷ [])) ≡ panic
unfolding from_zip bytes_eq
file_as_directory = refl

parent_directory_in_path :
    from_zip (archive_of ((a ∷ (46 ∷ 46 ∷ []) ∷ []) ∷ [])) ≡ err dot_dot_not_allowed
unfolding from_zip bytes_eq
parent_directory_in_path = refl

abbrev empty_table : InodeTable
empty_table = new_dir 0 ∷ new_dir 0 ∷ []

abbrev inode_and_table : Outcome FromZipError (ℕ × InodeTable) → ℕ × InodeTable
inode_and_table (ok r) = r
inode_and_table _ = (0, [])

abbrev with_a : ℕ × InodeTable
with_a = inode_and_table (add empty_table root a (new_dir 0))

with_a-ok : add empty_table root a (new_dir 0) ≡ ok with_a
unfolding add
with_a-ok = refl

entry-add_example : entry with_a.1 1 a ≡ some (record { inode = 2; kind = directory_kind })
unfolding bytes_eq
entry-add_example =
    entry-add empty_table root a (new_dir 0) with_a.0 with_a.1 (λ name. refl) with_a-ok 1 a
