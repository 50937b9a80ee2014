-- ===== src/Zip/Inode/Kinds.antt =====
-- The kinds of inodes after `add` and `set_mode` of zipfuse/src/inode.rs.
use android_packages_modules.Common.{
  ℕ, ◌<◌, ◌≡◌, ◌≢◌, refl, sym, ap, ◌∙◌, Option, none, some, false, List, [], ◌∷◌, ◌++◌, ok,
  >>=-eq-ok, unwrap, ◌==◌, if◌then◌else◌, length, set, arith, tests, Bool-cases, inl, inr,
  length-set,
}
use android_packages_modules.Zip.Inode.{
  Inode, Name, DirectoryEntry, InodeData, InodeKind, directory, InodeTable, FromZipError,
  get_directory, get_zip_index, kind_of, get, add, set_mode,
}
use android_packages_modules.Zip.Inode.Entries.{
  add-eq-ok, entry, entry_in, get-lt, get-put, get-set_ne, get-set_self, get_elem?-append_one,
  unwrap-eq-ok,
}

-- A part of an inode's data that neither new entries nor a new mode change.
module _ {A : Type 0} (view : InodeData → A) where
  abbrev pub view_in : Option InodeData → Option A
  view_in none = none
  view_in (some node) = some (view node)

  abbrev pub view_at : InodeTable → Inode → Option A
  view_at table i = view_in (get table i)

  view-put :
      (table : InodeTable) (node : InodeData) (i : Inode)
      → 0 < length table
      → view_at (table ++ (node ∷ [])) i
        ≡ (if i == length table then some (view node) else view_at table i)
  unfolding get
  view-put table node i h = ground (arith, get_elem?-append_one table node i)

  -- The view of an inode does not change, and the new inode has that of the node that was added.
  pub view-add :
      (table : InodeTable) (parent : Inode) (name : Name) (node : InodeData) (inode : Inode)
      (table' : InodeTable)
      → ((dir : InodeData) (hash new : List (Name × DirectoryEntry))
          → get_directory dir ≡ some hash
          → view (record dir { contents = directory new }) ≡ view dir)
      → add table parent name node ≡ ok (inode, table')
      → (i : Inode)
      → view_at table' i ≡ (if i == length table then some (view node) else view_at table i)
  view-add table parent name node inode table' linked_lem h i =
      let (dir, hash, at, is_directory, free, new, e) =
        add-eq-ok table parent name node inode table' h in
      let put_table = table ++ (node ∷ []) in
      let lt = get-lt table parent dir at in
      let new_hash : List (Name × DirectoryEntry) =
        hash ++ ((name, record { inode = length table; kind = kind_of node }) ∷ []) in
      let linked : InodeData = record dir { contents = directory new_hash } in
      elim (Bool-cases (i == parent)) [
        | inl here ↦
            let same : i ≡ parent = omega tests in
            let old : (i == length table) ≡ false = ground arith in
            ap (λ t. view_at t i) e
            ∙ (ap (view_at (set put_table parent linked)) same
                ∙ (ap view_in
                      (get-set_self put_table parent dir linked (get-put table node parent dir at))
                    ∙ (ap some (linked_lem dir hash new_hash is_directory)
                        ∙ (sym (ap view_in at) ∙ (ap (view_at table) (sym same) ∙ rw old refl)))))
        | inr away ↦
            let differ : parent ≢ i = λ same. ground arith in
            ap (λ t. view_at t i) e
            ∙ (ap view_in (get-set_ne put_table parent i linked differ)
                ∙ view-put table node i (omega arith))
      ]

  pub view-set_mode :
      (table table' : InodeTable) (found inode : Inode) (mode : ℕ)
      → ((node : InodeData) (mode : ℕ) → view (record node { mode = mode }) ≡ view node)
      → set_mode table found mode ≡ ok (inode, table')
      → (i : Inode) → view_at table' i ≡ view_at table i
  unfolding set_mode
  view-set_mode table table' found inode mode mode_lem h i =
      let (node, a, b) = >>=-eq-ok (unwrap {E = FromZipError} (get table found)) _ h in
      let at = unwrap-eq-ok (get table found) a in
      let new : InodeData = record node { mode = mode } in
      let value : table' ≡ set table found new = cc b in
      let self = get-set_self table found node new at in
      ap (λ t. view_at t i) value ∙ elim (Bool-cases (i == found)) [
        | inl here ↦
            let same : i ≡ found = omega tests in
            ap (view_at (set table found new)) same
            ∙ (ap view_in self
                ∙ (ap some (mode_lem node mode)
                    ∙ (sym (ap view_in at) ∙ ap (view_at table) (sym same))))
        | inr away ↦ ap view_in (get-set_ne table found i new (λ same. ground arith))
      ]

abbrev pub kind_at : InodeTable → Inode → Option InodeKind
kind_at = view_at kind_of

kind_of_linked :
    (dir : InodeData) (hash new : List (Name × DirectoryEntry))
    → get_directory dir ≡ some hash
    → kind_of (record dir { contents = directory new }) ≡ kind_of dir
kind_of_linked dir hash new h = ground arith

zip_index_of_linked :
    (dir : InodeData) (hash new : List (Name × DirectoryEntry))
    → get_directory dir ≡ some hash
    → get_zip_index (record dir { contents = directory new }) ≡ get_zip_index dir
zip_index_of_linked dir hash new h = ground arith

-- The kind of an inode does not change, and the new inode has the kind of the node that was added.
pub kind-add :
    (table : InodeTable) (parent : Inode) (name : Name) (node : InodeData) (inode : Inode)
    (table' : InodeTable)
    → add table parent name node ≡ ok (inode, table')
    → (i : Inode)
    → kind_at table' i ≡ (if i == length table then some (kind_of node) else kind_at table i)
kind-add table parent name node inode table' =
    view-add kind_of table parent name node inode table' kind_of_linked

-- The index in the archive, of an inode that is a file.
abbrev pub zip_index_at : InodeTable → Inode → Option (Option ℕ)
zip_index_at = view_at get_zip_index

pub zip_index-add :
    (table : InodeTable) (parent : Inode) (name : Name) (node : InodeData) (inode : Inode)
    (table' : InodeTable)
    → add table parent name node ≡ ok (inode, table')
    → (i : Inode)
    → zip_index_at table' i
      ≡ (if i == length table then some (get_zip_index node) else zip_index_at table i)
zip_index-add table parent name node inode table' =
    view-add get_zip_index table parent name node inode table' zip_index_of_linked

pub zip_index-set_mode :
    (table table' : InodeTable) (found inode : Inode) (mode : ℕ)
    → set_mode table found mode ≡ ok (inode, table')
    → (i : Inode) → zip_index_at table' i ≡ zip_index_at table i
zip_index-set_mode table table' found inode mode =
    view-set_mode get_zip_index table table' found inode mode (λ node mode. refl)

same_entries :
    (node : InodeData) (mode : ℕ) (name : Name)
    → entry_in (some (record node { mode = mode })) name ≡ entry_in (some node) name
same_entries node mode name = refl

-- A new mode changes no entry and no kind.
pub entry-set_mode :
    (table table' : InodeTable) (found inode : Inode) (mode : ℕ)
    → set_mode table found mode ≡ ok (inode, table')
    → (length table' ≡ length table)
      × (inode ≡ found)
      × ((i : Inode) (name : Name) → entry table' i name ≡ entry table i name)
      × ((i : Inode) → kind_at table' i ≡ kind_at table i)
unfolding set_mode
entry-set_mode table table' found inode mode h =
    let (node, a, b) = >>=-eq-ok (unwrap {E = FromZipError} (get table found)) _ h in
    let at = unwrap-eq-ok (get table found) a in
    let new : InodeData = record node { mode = mode } in
    let value : table' ≡ set table found new = cc b in
    let self = get-set_self table found node new at in
    (
      ap length value ∙ length-set table found new,
      cc b,
      λ i name. ap (λ t. entry t i name) value ∙ elim (Bool-cases (i == found)) [
        | inl here ↦
            let same : i ≡ found = omega tests in
            ap (λ j. entry (set table found new) j name) same
            ∙ (ap (λ o. entry_in o name) self
                ∙ (sym (ap (λ o. entry_in o name) at) ∙ ap (λ j. entry table j name) (sym same)))
        | inr away ↦ ap (λ o. entry_in o name) (get-set_ne table found i new (λ same. ground arith))
      ],
      view-set_mode kind_of table table' found inode mode (λ node mode. refl) h,
    )
