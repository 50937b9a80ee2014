-- ===== src/Zip/Inode/Contents.antt =====
-- The file that an inode of the table of `InodeTable::from_zip` stands for is the one of its path.
use mathlib.Core.Path.{subst}
use mathlib.Core.List.{append_assoc}
use android_packages_modules.Common.{
  ℕ, zero, suc, ◌+◌, ◌≡◌, refl, sym, ap, ◌∙◌, ◌⊎◌, Option, none, some, Bool, Bool-cases, true,
  false, ◌&&◌, List, [], ◌∷◌, ◌++◌, ok, >>=-eq-ok, ok_or, arith, inl, inr, ◌==◌, if◌then◌else◌,
  length,
}
use android_packages_modules.Zip.Inode.{
  Inode, Name, InodeTable, FromZipError, ZipFile, ZipArchive, invalid_name, root, is_empty, add,
  add_component, add_path, add_file, add_files, from_zip, get, new_inode, get_zip_index,
}
use android_packages_modules.Zip.Inode.Kinds.{zip_index_at, zip_index-add}
use android_packages_modules.Zip.Inode.Entries.{entry}
use android_packages_modules.Zip.Inode.Table.{length-add}
use android_packages_modules.Zip.Inode.Shape.{
  IsTree, add_component-Entered, none≢some, new_inode-Childless,
}
use android_packages_modules.Zip.Inode.Paths.{
  inode_of-some, ok_or-some, add_file-Found, start, start-IsTree, no_entries, walk,
}
use android_packages_modules.Zip.Inode.Leads.{
  Leads, at_root, below, walk-Leads, Leads-positive, Leads-lt, Component, added, unchanged,
  add_component-Component, Leads-add, Leads-kept,
}

-- Where an inode of a path comes from, by its index in the archive: an inode with an index is the file
-- with that path, which the archive does not say to be a directory; one without is the root, or a
-- directory that leads to an entry of the archive or is one.
abbrev pub Origin : ZipArchive → List Name → Option ℕ → Type 0
Origin archive path (some j) =
    (f : ZipFile) × (archive.by_index j ≡ ok f) × (f.enclosed_name ≡ some path) × (f.is_file ≡ true)
Origin archive path none =
    (path ≡ [])
    ⊎ ((j : ℕ) × (f : ZipFile) × (rest : List Name) × (archive.by_index j ≡ ok f)
        × (f.enclosed_name ≡ some (path ++ rest))
        × ((f.is_file && is_empty rest) ≡ false))

-- Each inode comes from the archive.
abbrev Named : ZipArchive → InodeTable → Type 0
Named archive table =
    (path : List Name) (q : Inode) (index : Option ℕ)
    → Leads table path q
    → zip_index_at table q ≡ some index
    → Origin archive path index

new_inode_index :
    (i : ℕ) (zip_file : ZipFile) (is_file is_leaf : Bool)
    → get_zip_index (new_inode i zip_file is_file is_leaf) ≡ (if is_file then some i else none)
new_inode_index i zip_file true is_leaf = refl
new_inode_index i zip_file false true = refl
new_inode_index i zip_file false false = refl

last_name :
    (rest : List Name) (before full : List Name) (name : Name)
    → is_empty rest ≡ true
    → before ++ (name ∷ rest) ≡ full
    → before ++ (name ∷ []) ≡ full
last_name [] before full name e h = h
last_name (x ∷ rest) before full name e h = absurd (cc e)

module _ (archive : ZipArchive) (i : ℕ) (zip_file : ZipFile) (full : List Name)
    (at : archive.by_index i ≡ ok zip_file) (named : zip_file.enclosed_name ≡ some full) where
  -- The origin of the inode for one element of the path.
  new_inode-Origin :
      (before rest : List Name) (name : Name)
      → before ++ (name ∷ rest) ≡ full
      → Origin archive
          (before ++ (name ∷ []))
          (if zip_file.is_file && is_empty rest then some i else none)
  new_inode-Origin before rest name whole = elim (Bool-cases (zip_file.is_file && is_empty rest)) [
    | inl leaf ↦
        let one : is_empty rest ≡ true = ground arith in
        let is_a_file : zip_file.is_file ≡ true = ground arith in
        rw leaf (
          zip_file,
          at,
          named ∙ ap some (sym (last_name rest before full name one whole)),
          is_a_file,
        )
    | inr inner ↦ rw inner (
        inr (
          i,
          zip_file,
          rest,
          at,
          named ∙ ap some (sym (append_assoc before (name ∷ []) rest ∙ whole)),
          inner,
        ))
  ]

  add-Named :
      (table table' : InodeTable) (parent inode : Inode) (name : Name) (before rest : List Name)
      → add table parent name
          (new_inode i zip_file (zip_file.is_file && is_empty rest) (is_empty rest))
        ≡ ok (inode, table')
      → IsTree table
      → Leads table before parent
      → before ++ (name ∷ rest) ≡ full
      → Named archive table
      → Named archive table'
  add-Named table table' parent inode name before rest h t l whole old path q want leads index =
      let is_leaf = is_empty rest in
      let is_file = zip_file.is_file && is_leaf in
      let node = new_inode i zip_file is_file is_leaf in
      let (len, _, inside, _) = length-add table parent name node inode table' h in
      let value = sym (zip_index-add table parent name node inode table' h q) ∙ index in
      elim (Leads-add table parent name node inode table'
        (new_inode-Childless i zip_file is_file is_leaf) h t before l path q leads) [
          | inl there ↦
              let pos = Leads-positive table before parent t l in
              let other : (q == length table) ≡ false =
                ground (arith, Leads-lt table path q t (omega arith) there) in
              old path q want there (
                ap (λ (b : Bool). if b then some (get_zip_index node) else zip_index_at table q)
                  (sym other)
                ∙ value)
          | inr (new, same) ↦
              let own : (q == length table) ≡ true = ground arith in
              let got =
                ap (λ (b : Bool). if b then some (get_zip_index node) else zip_index_at table q)
                  (sym own)
                ∙ value in
              let found : (if is_file then some i else none) ≡ want =
                sym (new_inode_index i zip_file is_file is_leaf) ∙ cc got in
              subst (λ p. Origin archive p want) (sym same)
                (subst (Origin archive (before ++ (name ∷ []))) found
                  (new_inode-Origin before rest name whole))
        ]

  Component-Named :
      (table table' : InodeTable) (parent inode : Inode) (name : Name) (before rest : List Name)
      → Component i zip_file (is_empty rest) table parent name inode table'
      → IsTree table
      → Leads table before parent
      → before ++ (name ∷ rest) ≡ full
      → Named archive table
      → Named archive table'
  Component-Named table table' parent inode name before rest (added h) t l whole old =
      add-Named table table' parent inode name before rest h t l whole old
  Component-Named table table' parent inode name before rest (unchanged entries indices) t l whole
        old =
      λ path q j leads index.
        old path q j
          (Leads-kept table' table path q (λ k n e there. sym (entries k n) ∙ there) leads)
          (sym (indices q) ∙ index)

  add_path-Named :
      (table table' : InodeTable) (parent : Inode) (before path : List Name)
      → add_path i zip_file table parent path ≡ ok table'
      → IsTree table
      → Leads table before parent
      → before ++ path ≡ full
      → Named archive table
      → Named archive table'
  unfolding add_path
  add_path-Named table table' parent before [] h t l whole old =
      let same : table ≡ table' = cc h in subst (Named archive) same old
  add_path-Named table table' parent before (name ∷ rest) h t l whole old =
      let (next, step, more) =
        >>=-eq-ok (add_component i zip_file (is_empty rest) table parent name) _ h in
      let entered =
        add_component-Entered i zip_file (is_empty rest) table next.1 parent next.0 name step in
      let one =
        Component-Named table next.1 parent next.0 name before rest
          (add_component-Component i zip_file (is_empty rest) table next.1 parent next.0 name step)
          t l whole old in
      let (e, there, inode) = inode_of-some (entry next.1 parent name) next.0 entered.leads in
      let deeper =
        subst (Leads next.1 (before ++ (name ∷ []))) inode (
          below before parent name e (Leads-kept table next.1 before parent entered.kept l)
            there) in
      add_path-Named next.1 table' next.0 (before ++ (name ∷ [])) rest more (entered.tree t) deeper
        (append_assoc before (name ∷ []) rest ∙ whole) one

add_file-Named :
    (archive : ZipArchive) (i : ℕ) (table table' : InodeTable)
    → add_file archive i table ≡ ok table'
    → IsTree table
    → Named archive table
    → Named archive table'
unfolding add_file
add_file-Named archive i table table' h t old =
    let (file, a, b) = >>=-eq-ok (archive.by_index i) _ h in
    let (names, c, d) =
      >>=-eq-ok (ok_or {E = FromZipError} file.enclosed_name (invalid_name file.name)) _ b in
    add_path-Named archive i file names a (ok_or-some file.enclosed_name (invalid_name file.name) c)
      table table' root [] names d t at_root refl old

add_files-Named :
    (archive : ZipArchive) (count first : ℕ) (table table' : InodeTable)
    → add_files archive count first table ≡ ok table'
    → IsTree table
    → Named archive table
    → Named archive table'
unfolding add_files
add_files-Named archive zero first table table' h t old =
    let same : table ≡ table' = cc h in subst (Named archive) same old
add_files-Named archive (suc count) first table table' h t old =
    let (next, a, b) = >>=-eq-ok (add_file archive first table) _ h in
    let (grown, _) = add_file-Found archive first table next a in
    add_files-Named archive count (first + 1) next table' b (grown.tree t)
      (add_file-Named archive first table next a t old)

start-Named : (archive : ZipArchive) → Named archive start
start-Named archive path q j at_root index =
    let same : none ≡ j = unfold get in cc index in subst (Origin archive []) same (inl refl)
start-Named archive path q j (below p i n e l at) index =
    absurd (none≢some (sym (no_entries i n) ∙ at))

pub from_zip-Origin :
    (archive : ZipArchive) (table : InodeTable) (path : List Name) (q : Inode) (index : Option ℕ)
    → from_zip archive ≡ ok table
    → Leads table path q
    → zip_index_at table q ≡ some index
    → Origin archive path index
unfolding from_zip
from_zip-Origin archive table path q index h leads =
    add_files-Named archive archive.len 0 start table h start-IsTree (start-Named archive) path q
      index leads

-- When `from_zip` returns a table, a path that leads to an inode with the contents of a file of the
-- archive is the path of that file, and the archive does not say that it is a directory.
pub from_zip-Named :
    (archive : ZipArchive) (table : InodeTable) (path : List Name) (q : Inode) (j : ℕ)
    → from_zip archive ≡ ok table
    → walk table root path ≡ some q
    → zip_index_at table q ≡ some (some j)
    → (f : ZipFile) × (archive.by_index j ≡ ok f)
      × (f.enclosed_name ≡ some path)
      × (f.is_file ≡ true)
from_zip-Named archive table path q j h leads =
    from_zip-Origin archive table path q (some j) h (walk-Leads table [] root q path at_root leads)
