-- ===== src/Zip/Inode/Table.antt =====
-- What `find` sees after `add`, for zipfuse/src/inode.rs.
use android_packages_modules.Common.{
  suc, ◌<◌, ◌≡◌, ◌≢◌, refl, ap, ◌∙◌, none, some, ◌&&◌, List, [], ◌∷◌, ◌++◌, ok, ◌==◌, bytes_eq,
  if◌then◌else◌, length, set, arith, tests, Bool-cases, inl, inr, length-append, length-set,
  get_elem?-ge,
}
use android_packages_modules.Zip.Inode.{
  Inode, Name, DirectoryEntry, InodeData, directory, InodeTable, get_directory, lookup_name,
  kind_of, get, add,
}
use android_packages_modules.Zip.Inode.Entries.{
  entry_in, entry, dir_entry, lookup_name-append, get_elem?-append_one, get-lt, get-put, add-eq-ok,
  Childless, get-set_self, get-set_ne,
}

entry-put :
    (table : InodeTable) (node : InodeData) (i : Inode) (name : Name)
    → Childless node
    → entry (table ++ (node ∷ [])) i name ≡ entry table i name
unfolding get
entry-put table node i name childless =
    ground (arith, get_elem?-append_one table node i, get_elem?-ge table i, childless name)

entry-linked :
    (table : InodeTable) (parent : Inode) (name : Name) (node dir : InodeData)
    (hash : List (Name × DirectoryEntry))
    → Childless node
    → get table parent ≡ some dir
    → get_directory dir ≡ some hash
    → lookup_name hash name ≡ none
    → (i : Inode) (other : Name)
    → let e : DirectoryEntry = record { inode = length table; kind = kind_of node } in
      entry
        (set
          (table ++ (node ∷ []))
          parent
          (record dir { contents = directory (hash ++ ((name, e) ∷ [])) }))
        i
        other
      ≡ (if (i == parent) && bytes_eq name other then some e else entry table i other)
entry-linked table parent name node dir hash childless at is_directory free i other =
    let e : DirectoryEntry = record { inode = length table; kind = kind_of node } in
    let linked : InodeData = record dir { contents = directory (hash ++ ((name, e) ∷ [])) } in
    let put_table = table ++ (node ∷ []) in
    elim (Bool-cases (i == parent)) [
      | inl here ↦
          let same : i ≡ parent = omega tests in
          let new = get-set_self put_table parent dir linked (get-put table node parent dir at) in
          let old : entry table i other ≡ lookup_name hash other =
            ap (λ j. entry table j other) same
            ∙ (ap (λ o. entry_in o other) at ∙ dir_entry dir hash other is_directory) in
          ap (λ j. entry (set put_table parent linked) j other) same
          ∙ (ap (λ o. entry_in o other) new
              ∙ (lookup_name-append hash name e other free ∙ rw (here, old) refl))
      | inr away ↦
          let differ : parent ≢ i = λ same. ground arith in
          ap (λ o. entry_in o other) (get-set_ne put_table parent i linked differ)
          ∙ (entry-put table node i other childless ∙ rw away refl)
    ]

-- After `add`, the name in the parent leads to the new inode, and every other entry of the table is
-- what it was.
pub entry-add :
    (table : InodeTable) (parent : Inode) (name : Name) (node : InodeData) (inode : Inode)
    (table' : InodeTable)
    → Childless node
    → add table parent name node ≡ ok (inode, table')
    → (i : Inode) (other : Name)
    → entry table' i other ≡ (
        if (i == parent) && bytes_eq name other
        then some (record { inode = length table; kind = kind_of node })
        else entry table i other)
entry-add table parent name node inode table' childless h i other =
    let (dir, hash, at, is_directory, free, _, e) =
      add-eq-ok table parent name node inode table' h in
    ap (λ t. entry t i other) e
    ∙ entry-linked table parent name node dir hash childless at is_directory free i other

pub length-add :
    (table : InodeTable) (parent : Inode) (name : Name) (node : InodeData) (inode : Inode)
    (table' : InodeTable)
    → add table parent name node ≡ ok (inode, table')
    → (length table' ≡ suc (length table))
      × (inode ≡ length table)
      × (parent < length table)
      × (entry table parent name ≡ none)
length-add table parent name node inode table' h =
    let (dir, hash, at, is_directory, free, new, e) =
      add-eq-ok table parent name node inode table' h in
    let n = ap length e ∙ length-set (table ++ (node ∷ [])) parent _ in
    (
      n ∙ (length-append table (node ∷ []) ∙ omega arith),
      new,
      get-lt table parent dir at,
      ap (λ o. entry_in o name) at ∙ (dir_entry dir hash name is_directory ∙ free),
    )
