-- ===== src/Zip/Inode.antt =====
-- zipfuse/src/inode.rs: the table of inodes. What the zip crate returns for an archive is a record of
-- its results; a hash table of directory entries is an association list in which a name is found
-- first where it was added first.
pub mod Entries
pub mod Table
pub mod Kinds
pub mod Shape
pub mod Paths
pub mod Leads
pub mod Contents
pub mod Stored
mod Tests
use android_packages_modules.Common.{
  ℕ, zero, suc, ◌+◌, Option, none, some, Bool, true, false, not, ◌&&◌, ◌||◌, List, [], ◌∷◌, ◌++◌,
  Outcome, ok, err, panic, ◌>>=◌, ◌>>◌, guard, assert, unwrap, ok_or, ◌==◌, bytes_eq, if◌then◌else◌,
  length, get_elem?, set,
}

abbrev pub Inode : Type 0
Inode = ℕ

abbrev pub Name : Type 0
Name = List ℕ

abbrev pub invalid : Inode
invalid = 0

abbrev pub root : Inode
root = 1

pub data InodeKind : Type 0 where
  directory_kind file_kind : InodeKind

pub record DirectoryEntry : Type 0 where
  pub inode : Inode
  pub kind : InodeKind

pub data InodeDataData : Type 0 where
  directory : List (Name × DirectoryEntry) → InodeDataData
  file : ℕ → InodeDataData

pub record InodeData : Type 0 where
  pub size : ℕ
  pub mode : ℕ
  pub contents : InodeDataData

abbrev pub InodeTable : Type 0
InodeTable = List InodeData

-- `zip::read::ZipFile`: `enclosed_name` is the components of the path, `none` for a path that leaves
-- the archive.
pub record ZipFile : Type 0 where
  pub name : Name
  pub enclosed_name : Option (List Name)
  pub is_file : Bool
  pub unix_mode : Option ℕ
  pub size : ℕ

pub data FromZipError : Type 0 where
  zip_error : FromZipError
  invalid_name : Name → FromZipError
  dot_dot_not_allowed : FromZipError

pub record ZipArchive : Type 0 where
  pub len : ℕ
  pub by_index : ℕ → Outcome FromZipError ZipFile

abbrev pub unwrap_or {ℓ} : {A : Type ℓ} → Option A → A → A
unwrap_or none d = d
unwrap_or (some a) d = a

abbrev pub is_none {ℓ} : {A : Type ℓ} → Option A → Bool
is_none none = true
is_none (some a) = false

-- `HashMap::get`, on the association list.
abbrev pub lookup_name : List (Name × DirectoryEntry) → Name → Option DirectoryEntry
lookup_name [] name = none
lookup_name ((key, entry) ∷ rest) name =
    if bytes_eq key name then some entry else lookup_name rest name

module _ (self : InodeData) where
  abbrev pub get_directory : Option (List (Name × DirectoryEntry))
  get_directory = elim self.contents [ directory hash ↦ some hash | file zip_index ↦ none ]

  abbrev pub get_zip_index : Option ℕ
  get_zip_index = elim self.contents [ directory hash ↦ none | file zip_index ↦ some zip_index ]

  abbrev pub is_dir : Bool
  is_dir = elim self.contents [ directory hash ↦ true | file zip_index ↦ false ]

abbrev pub new_dir : ℕ → InodeData
new_dir mode = record { size = 0; mode = mode; contents = directory [] }

abbrev pub new_file : ℕ → ZipFile → InodeData
new_file zip_index zip_file = record {
  size = zip_file.size;
  mode = unwrap_or zip_file.unix_mode 0;
  contents = file zip_index;
}

unfoldable pub add_to_directory : InodeData → Name → DirectoryEntry → Outcome FromZipError InodeData
add_to_directory self name entry = do
  hashtable ← unwrap (get_directory self)
  assert (is_none (lookup_name hashtable name))
  ok (record self { contents = directory (hashtable ++ ((name, entry) ∷ [])) })

unfoldable pub get : InodeTable → Inode → Option InodeData
get table inode = if inode == invalid then none else get_elem? table inode

-- `table.push(data)`; the inode is the length before.
abbrev pub put : InodeTable → InodeData → Inode × InodeTable
put table entry = (length table, table ++ (entry ∷ []))

unfoldable pub find : InodeTable → Inode → Name → Outcome FromZipError (Option Inode)
unfolding get
find table parent name = do
  node ← unwrap (get table parent)
  hash ← unwrap (get_directory node)
  ok (elim (lookup_name hash name) [ some entry ↦ some entry.inode | none ↦ none ])

abbrev pub kind_of : InodeData → InodeKind
kind_of node = if is_dir node then InodeKind.directory_kind else InodeKind.file_kind

unfoldable pub add :
    InodeTable → Inode → Name → InodeData → Outcome FromZipError (Inode × InodeTable)
unfolding find add_to_directory
add table parent name node = do
  existing ← find table parent name
  assert (is_none existing)
  let (inode, table') = put table node
  parent_node ← unwrap (get table' parent)
  linked ← add_to_directory parent_node name (record { inode = inode; kind = kind_of node })
  ok (inode, set table' parent linked)

-- libc::S_IRUSR | libc::S_IXUSR
abbrev pub default_dir_mode : ℕ
default_dir_mode = 256 + 64

abbrev pub dot_dot : Name
dot_dot = 46 ∷ 46 ∷ []

-- `CString::new(name).unwrap()`: a name with a zero byte panics.
abbrev has_zero : Name → Bool
has_zero [] = false
has_zero (b ∷ rest) = (b == 0) || has_zero rest

unfoldable pub c_string : Name → Outcome FromZipError Name
c_string name = if has_zero name then panic else ok name

unfoldable pub set_mode : InodeTable → Inode → ℕ → Outcome FromZipError (Inode × InodeTable)
unfolding get
set_mode table inode mode = do
  node ← unwrap (get table inode)
  ok (inode, set table inode (record node { mode = mode }))

-- The mode of a directory leaf that is in the table already is updated.
unfoldable pub reuse :
    InodeTable → ZipFile → Bool → Bool → Inode → Outcome FromZipError (Inode × InodeTable)
unfolding set_mode
reuse table zip_file is_file is_leaf found =
    if not is_file && is_leaf
    then set_mode table found (unwrap_or zip_file.unix_mode 0)
    else ok (found, table)

abbrev pub new_inode : ℕ → ZipFile → Bool → Bool → InodeData
new_inode i zip_file is_file is_leaf =
    if is_file
    then new_file i zip_file
    else if is_leaf
    then new_dir (unwrap_or zip_file.unix_mode default_dir_mode)
    else new_dir default_dir_mode

abbrev pub enter :
    ℕ
    → ZipFile
    → Bool
    → Bool
    → InodeTable
    → Inode
    → Name
    → Option Inode
    → Outcome FromZipError (Inode × InodeTable)
enter i zip_file is_file is_leaf table parent name (some found) =
    reuse table zip_file is_file is_leaf found
enter i zip_file is_file is_leaf table parent name none =
    add table parent name (new_inode i zip_file is_file is_leaf)

-- One element of the path: its inode, and the table after it.
unfoldable pub add_component :
    ℕ → ZipFile → Bool → InodeTable → Inode → Name → Outcome FromZipError (Inode × InodeTable)
unfolding find add reuse c_string
add_component i zip_file is_leaf table parent name = do
  guard (not (bytes_eq name dot_dot)) dot_dot_not_allowed
  let is_file = zip_file.is_file && is_leaf
  c_name ← c_string name
  found ← find table parent c_name
  enter i zip_file is_file is_leaf table parent c_name found

abbrev pub is_empty {ℓ} : {A : Type ℓ} → List A → Bool
is_empty [] = true
is_empty (x ∷ xs) = false

-- The loop over the elements of one path.
unfoldable pub add_path :
    ℕ → ZipFile → InodeTable → Inode → List Name → Outcome FromZipError InodeTable
unfolding add_component
add_path i zip_file table parent [] = ok table
add_path i zip_file table parent (name ∷ rest) = do
  (inode, table') ← add_component i zip_file (is_empty rest) table parent name
  add_path i zip_file table' inode rest

unfoldable pub add_file : ZipArchive → ℕ → InodeTable → Outcome FromZipError InodeTable
unfolding add_path
add_file archive i table = do
  zip_file ← archive.by_index i
  path ← ok_or zip_file.enclosed_name (invalid_name zip_file.name)
  add_path i zip_file table root path

-- The files from index `i` on, `count` of them.
unfoldable pub add_files : ZipArchive → ℕ → ℕ → InodeTable → Outcome FromZipError InodeTable
unfolding add_file
add_files archive zero i table = ok table
add_files archive (suc count) i table = do
  table' ← add_file archive i table
  add_files archive count (i + 1) table'

unfoldable pub from_zip : ZipArchive → Outcome FromZipError InodeTable
unfolding add_files
from_zip archive = add_files archive archive.len 0 (new_dir 0 ∷ new_dir 0 ∷ [])
