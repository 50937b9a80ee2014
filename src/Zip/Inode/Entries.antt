-- ===== src/Zip/Inode/Entries.antt =====
-- What `find` sees of a table of zipfuse/src/inode.rs, and the parts of a successful `add`.
use android_packages_modules.Common.{
  ℕ, zero, suc, ◌<◌, leb, ◌≡◌, ◌≢◌, refl, ap, ◌∙◌, Option, none, some, true, List, [], ◌∷◌, ◌++◌,
  ok, >>=-eq-ok, unwrap, assert->>=-eq-ok, ◌==◌, bytes_eq, bytes_eq→eq, bytes_eq_refl,
  if◌then◌else◌, length, get_elem?, set, arith, tests, Bool-cases, inl, inr, get_elem?-set_self,
  get_elem?-set_ne, get_elem?-ge,
}
use android_packages_modules.Zip.Inode.{
  Inode, Name, DirectoryEntry, InodeData, directory, file, InodeTable, FromZipError, get_directory,
  is_none, lookup_name, kind_of, add_to_directory, get, find, add,
}

-- The entry of a name in a directory; none in a file or a free inode.
abbrev pub entry_in : Option InodeData → Name → Option DirectoryEntry
entry_in none name = none
entry_in (some node) name = elim node.contents [
  | directory hash ↦ lookup_name hash name
  | file i ↦ none
]

abbrev pub entry : InodeTable → Inode → Name → Option DirectoryEntry
entry table parent name = entry_in (get table parent) name

pub unwrap-eq-ok {ℓ} : {E A : Type ℓ} (o : Option A) {a : A} → unwrap {E = E} o ≡ ok a → o ≡ some a
unwrap-eq-ok none h = cc
unwrap-eq-ok (some x) h = cc

abbrev pub inode_of : Option DirectoryEntry → Option Inode
inode_of none = none
inode_of (some e) = some e.inode

pub dir_entry :
    (node : InodeData) (hash : List (Name × DirectoryEntry)) (name : Name)
    → get_directory node ≡ some hash
    → entry_in (some node) name ≡ lookup_name hash name
dir_entry node hash name h = ground arith

-- `find` on a directory is the inode of the entry.
pub find-eq-ok :
    (table : InodeTable) (parent : Inode) (name : Name) (found : Option Inode)
    → find table parent name ≡ ok found
    → (node : InodeData) × (hash : List (Name × DirectoryEntry)) × (get table parent ≡ some node)
      × (get_directory node ≡ some hash)
      × (found ≡ inode_of (entry table parent name))
unfolding find
find-eq-ok table parent name found h =
    let (node, a, b) = >>=-eq-ok (unwrap {E = FromZipError} (get table parent)) _ h in
    let (hash, c, d) = >>=-eq-ok (unwrap {E = FromZipError} (get_directory node)) _ b in
    let at = unwrap-eq-ok (get table parent) a in
    let dir = unwrap-eq-ok (get_directory node) c in
    let e : entry table parent name ≡ lookup_name hash name =
      ap (λ o. entry_in o name) at ∙ dir_entry node hash name dir in
    (node, hash, at, dir, cc (d, e))

pub lookup_name-append :
    (hash : List (Name × DirectoryEntry)) (name : Name) (e : DirectoryEntry) (other : Name)
    → lookup_name hash name ≡ none
    → lookup_name (hash ++ ((name, e) ∷ [])) other
      ≡ (if bytes_eq name other then some e else lookup_name hash other)
lookup_name-append [] name e other h = refl
lookup_name-append ((key, k) ∷ rest) name e other h = ground (
  arith,
  lookup_name-append rest name e other,
  bytes_eq→eq key other,
  bytes_eq→eq name other,
  bytes_eq_refl name,
)

pub get_elem?-append_one :
    (table : InodeTable) (node : InodeData) (i : ℕ)
    → get_elem? (table ++ (node ∷ [])) i
      ≡ (if i == length table then some node else get_elem? table i)
get_elem?-append_one [] node zero = refl
get_elem?-append_one [] node (suc i) = ground arith
get_elem?-append_one (x ∷ table) node zero = ground arith
get_elem?-append_one (x ∷ table) node (suc i) = get_elem?-append_one table node i ∙ ground arith

pub get-lt :
    (table : InodeTable) (i : ℕ) (node : InodeData) → get table i ≡ some node → i < length table
unfolding get
get-lt table i node h = elim (Bool-cases (leb (length table) i)) [
  | inl past ↦ absurd (ground (arith, get_elem?-ge table i))
  | inr inside ↦ omega tests
]

is_none-true : {A : Type 0} (o : Option A) → is_none o ≡ true → o ≡ none
is_none-true none h = refl
is_none-true (some a) h = cc h

-- What `add_to_directory` does to the entries of the directory.
add_to_directory-eq-ok :
    (node : InodeData) (hash : List (Name × DirectoryEntry)) (name : Name) (e : DirectoryEntry)
    (linked : InodeData)
    → get_directory node ≡ some hash
    → add_to_directory node name e ≡ ok linked
    → (linked ≡ record node { contents = directory (hash ++ ((name, e) ∷ [])) })
      × (lookup_name hash name ≡ none)
unfolding add_to_directory
add_to_directory-eq-ok node hash name e linked dir h =
    let (hash', a, b) = >>=-eq-ok (unwrap {E = FromZipError} (get_directory node)) _ h in
    let same : hash ≡ hash' = cc (dir, unwrap-eq-ok (get_directory node) a) in
    let (free, c) = assert->>=-eq-ok (is_none (lookup_name hash' name)) _ b in
    let there : lookup_name hash' name ≡ none = is_none-true (lookup_name hash' name) free in
    (cc (c, same), cc (there, same))

pub get-put :
    (table : InodeTable) (node : InodeData) (i : Inode) (other : InodeData)
    → get table i ≡ some other
    → get (table ++ (node ∷ [])) i ≡ some other
unfolding get
get-put table node i other h =
    let lt = get-lt table i other h in ground (arith, get_elem?-append_one table node i)

-- The parts of a successful `add`.
pub add-eq-ok :
    (table : InodeTable) (parent : Inode) (name : Name) (node : InodeData) (inode : Inode)
    (table' : InodeTable)
    → add table parent name node ≡ ok (inode, table')
    → (dir : InodeData) × (hash : List (Name × DirectoryEntry)) × (get table parent ≡ some dir)
      × (get_directory dir ≡ some hash)
      × (lookup_name hash name ≡ none)
      × (inode ≡ length table)
      × (table'
          ≡ set (table ++ (node ∷ [])) parent (record dir {
            contents =
                directory
                  (hash ++ ((name, record { inode = length table; kind = kind_of node }) ∷ []));
          }))
unfolding add
add-eq-ok table parent name node inode table' h =
    let (existing, found, a) = >>=-eq-ok (find table parent name) _ h in
    let (dir, hash, at, is_directory, _) = find-eq-ok table parent name existing found in
    let (free, b) = assert->>=-eq-ok (is_none existing) _ a in
    let (dir', c, d) =
      >>=-eq-ok (unwrap {E = FromZipError} (get (table ++ (node ∷ [])) parent)) _ b in
    let at' = unwrap-eq-ok (get (table ++ (node ∷ [])) parent) c in
    let same : dir ≡ dir' = cc (at', get-put table node parent dir at) in
    let e : DirectoryEntry = record { inode = length table; kind = kind_of node } in
    let (linked, l, m) = >>=-eq-ok (add_to_directory dir' name e) _ d in
    let l' : add_to_directory dir name e ≡ ok linked = cc (l, same) in
    let (value, none_there) = add_to_directory-eq-ok dir hash name e linked is_directory l' in
    (dir, hash, at, is_directory, none_there, cc m, cc (m, value))

-- A new inode has no entries.
abbrev pub Childless : InodeData → Type 0
Childless node = (name : Name) → entry_in (some node) name ≡ none

pub get-set_self :
    (table : InodeTable) (i : Inode) (old new : InodeData)
    → get table i ≡ some old
    → get (set table i new) i ≡ some new
unfolding get
get-set_self table i old new h =
    let lt = get-lt table i old h in ground (arith, get_elem?-set_self table i new)

pub get-set_ne :
    (table : InodeTable) (i j : Inode) (new : InodeData)
    → i ≢ j
    → get (set table i new) j ≡ get table j
unfolding get
get-set_ne table i j new h = ap (λ o. if j == 0 then none else o) (get_elem?-set_ne table i j new h)
