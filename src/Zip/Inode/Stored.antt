-- ===== src/Zip/Inode/Stored.antt =====
-- What the table of `InodeTable::from_zip` holds under the path of a file of the archive.
use android_packages_modules.Common.{
  ℕ, ◌≡◌, ◌≢◌, refl, sym, ap, ◌∙◌, ◌<◌, ◌==◌, Option, none, some, true, false, List, [], ◌∷◌, ◌++◌,
  ok, arith, tests, inl, inr, Bool-cases, Option-cases,
}
use android_packages_modules.Zip.Inode.{
  Inode, Name, InodeKind, InodeTable, ZipFile, ZipArchive, root, is_empty, from_zip, kind_of, get,
  get_zip_index,
}
use android_packages_modules.Zip.Inode.Kinds.{kind_at, view_in, zip_index_at}
use android_packages_modules.Zip.Inode.Shape.{none≢some}
use android_packages_modules.Zip.Inode.Paths.{walk, from_zip-walk, from_zip-IsTree}
use android_packages_modules.Zip.Inode.Leads.{Leads, at_root, below, walk-Leads}
use android_packages_modules.Zip.Inode.Contents.{Origin, from_zip-Origin}

-- What the inode of the path of entry `i` is: the file `i`, or a directory where the archive says that
-- it is one; unless the path is that of the root, or another entry was there: a file with the same
-- path, or where entry `i` is a file, a directory with the path or an entry below it.
pub data Stored (archive : ZipArchive) (table : InodeTable) (i : ℕ) (zip_file : ZipFile)
    (path : List Name) (q : Inode) : Type 0 where
  as_file :
      zip_file.is_file ≡ true
      → zip_index_at table q ≡ some (some i)
      → Stored archive table i zip_file path q
  as_directory :
      zip_file.is_file ≡ false
      → zip_index_at table q ≡ some none
      → Stored archive table i zip_file path q
  as_root : path ≡ [] → Stored archive table i zip_file path q
  other_file :
      (j : ℕ) (other : ZipFile)
      → j ≢ i
      → archive.by_index j ≡ ok other
      → other.enclosed_name ≡ some path
      → zip_index_at table q ≡ some (some j)
      → Stored archive table i zip_file path q
  other_directory :
      (j : ℕ) (other : ZipFile) (rest : List Name)
      → j ≢ i
      → archive.by_index j ≡ ok other
      → other.enclosed_name ≡ some (path ++ rest)
      → zip_file.is_file ≡ true
      → zip_index_at table q ≡ some none
      → Stored archive table i zip_file path q

kind_at-index :
    (table : InodeTable) (q : Inode) (kind : InodeKind)
    → kind_at table q ≡ some kind
    → (index : Option ℕ) × (zip_index_at table q ≡ some index)
kind_at-index table q kind h = elim (Option-cases (get table q)) [
  | inl gone ↦ absurd (none≢some (sym (ap (view_in kind_of) gone) ∙ h))
  | inr (node, at) ↦ (get_zip_index node, ap (view_in get_zip_index) at)
]

no_rest : (path rest : List Name) → path ++ rest ≡ path → is_empty rest ≡ true
no_rest [] [] h = refl
no_rest [] (name ∷ rest) h = absurd (cc h)
no_rest (x ∷ path) rest h = no_rest path rest (cc h)

module _ (archive : ZipArchive) (table : InodeTable) (i : ℕ) (zip_file : ZipFile) (path : List Name)
    (at : archive.by_index i ≡ ok zip_file) (named : zip_file.enclosed_name ≡ some path)
    (q : Inode) where
  Origin-Stored :
      (index : Option ℕ)
      → zip_index_at table q ≡ some index
      → Origin archive path index
      → Stored archive table i zip_file path q
  Origin-Stored (some j) h (f, found, name, is_file) = elim (Bool-cases (j == i)) [
    | inl here ↦
        let index : j ≡ i = omega tests in
        let same : f ≡ zip_file = cc (sym found, ap archive.by_index index, at) in
        as_file (ap (λ (z : ZipFile). z.is_file) (sym same) ∙ is_file) (h ∙ cc index)
    | inr away ↦ other_file j f (λ same. ground arith) found name h
  ]
  Origin-Stored none h (inl empty) = as_root empty
  Origin-Stored none h (inr (j, f, rest, found, name, inner)) = elim (Bool-cases (j == i)) [
    | inl here ↦
        let index : j ≡ i = omega tests in
        let same : f ≡ zip_file = cc (sym found, ap archive.by_index index, at) in
        let whole : some (path ++ rest) ≡ some path =
          sym name ∙ (ap (λ (z : ZipFile). z.enclosed_name) same ∙ named) in
        let last = no_rest path rest (cc whole) in
        let is_dir : f.is_file ≡ false = ground arith in
        as_directory (ap (λ (z : ZipFile). z.is_file) (sym same) ∙ is_dir) h
    | inr away ↦ elim (Bool-cases zip_file.is_file) [
      | inl is_file ↦ other_directory j f rest (λ same. ground arith) found name is_file h
      | inr is_dir ↦ as_directory is_dir h
    ]
  ]

  Leads-Stored :
      from_zip archive ≡ ok table → Leads table path q → Stored archive table i zip_file path q
  Leads-Stored h l = split path q l refl refl
    where
      split :
          (p : List Name) (r : Inode)
          → Leads table p r
          → p ≡ path
          → r ≡ q
          → Stored archive table i zip_file path q
      split p r at_root e s = as_root (sym e)
      split p r (below before parent name d up there) e s =
          let kind = (from_zip-IsTree archive table h).kinds parent name d there in
          let (index, value) = kind_at-index table q d.kind (ap (kind_at table) (sym s) ∙ kind) in
          Origin-Stored index value (from_zip-Origin archive table path q index h l value)

-- When `from_zip` returns a table, every entry of the archive is found in it under its path. The inode
-- there is a file with the entry's index in the archive, or a directory for an entry that the archive
-- says to be one, unless the path is empty or another entry took the place: then the inode is the
-- file of another entry with the same path, or, for an entry that is a file, a directory with another
-- entry at the path or below it.
pub from_zip-Stored :
    (archive : ZipArchive) (table : InodeTable) (i : ℕ) (zip_file : ZipFile) (path : List Name)
    → from_zip archive ≡ ok table
    → i < archive.len
    → archive.by_index i ≡ ok zip_file
    → zip_file.enclosed_name ≡ some path
    → (q : Inode) × (walk table root path ≡ some q) × Stored archive table i zip_file path q
from_zip-Stored archive table i zip_file path h inside at named =
    let (q, leads) = from_zip-walk archive table i zip_file path h inside at named in
    (
      q,
      leads,
      Leads-Stored archive table i zip_file path at named q h
          (walk-Leads table [] root q path at_root leads),
    )
