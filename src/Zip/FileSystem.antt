-- ===== src/Zip/FileSystem.antt =====
-- zipfuse/src/main.rs: the FUSE handlers over the table of inodes (`open_file` is `open`). A handle is the inode of its file or
-- directory; each handler holds the lock of its map, so it is a function of the state.
pub mod Directories
pub mod Opened
pub mod Listing
pub mod Served
mod Tests
use Prim.Native.Nat.{bit_or}
use android_packages_modules.Common.{
  ℕ, zero, suc, ◌+◌, ◌-◌, ◌*◌, ◌/◌, ◌%◌, ◌^◌, min, Option, none, some, Bool, true, false, List, [],
  ◌∷◌, ◌++◌, Outcome, ok, err, panic, stuck, ◌>>=◌, ◌>>◌, ok_or, guard, ltb, leb, ◌==◌,
  if◌then◌else◌, length, get_elem?, take, drop,
}
use android_packages_modules.Chunks.{u64_mod}
use android_packages_modules.File.{IoError, os, enoent, ebadf}
use android_packages_modules.Handles.{HandleMap}
use android_packages_modules.Handles
use android_packages_modules.Zip.Inode.{
  Inode, Name, InodeKind, DirectoryEntry, InodeData, InodeTable, get_directory, get_zip_index,
  is_dir, lookup_name,
}
use android_packages_modules.Zip.Inode

abbrev pub u32_mod : ℕ
u32_mod = 2 ^ 32

pub record OpenFileBuf : Type 0 where
  pub open_count : ℕ
  pub buf : List ℕ

pub record OpenDirBuf : Type 0 where
  pub open_count : ℕ
  pub buf : List (Name × DirectoryEntry)

-- The archive is not part of the state: its reads are a parameter of the handlers.
pub record ZipFuse : Type 0 where
  pub inode_table : InodeTable
  pub open_files : HandleMap OpenFileBuf
  pub open_dirs : HandleMap OpenDirBuf

abbrev pub new : InodeTable → ZipFuse
new inode_table = record { inode_table = inode_table; open_files = []; open_dirs = [] }

pub record Stat : Type 0 where
  pub st_ino : ℕ
  pub st_mode : ℕ
  pub st_nlink : ℕ
  pub st_size : ℕ

pub record Entry : Type 0 where
  pub inode : Inode
  pub attr : Stat

abbrev s_ifdir : ℕ
s_ifdir = 16384

abbrev s_ifreg : ℕ
s_ifreg = 32768

abbrev pub i64_max : ℕ
i64_max = 2 ^ 63 - 1

unfoldable pub find_inode : ZipFuse → Inode → Outcome IoError InodeData
find_inode self inode = ok_or (Inode.get self.inode_table inode) (os ebadf)

abbrev nlink_of : InodeData → ℕ
nlink_of node = elim (get_directory node) [ some hash ↦ 2 + length hash | none ↦ 1 ]

unfoldable pub stat_from : ZipFuse → Inode → Outcome IoError Stat
unfolding find_inode
stat_from self inode = do
  inode_data ← find_inode self inode
  ok (record {
    st_ino = inode;
    st_mode = bit_or (if is_dir inode_data then s_ifdir else s_ifreg) inode_data.mode;
    st_nlink = nlink_of inode_data;
    st_size = min inode_data.size i64_max;
  })

unfoldable pub lookup : ZipFuse → Inode → Name → Outcome IoError Entry
unfolding find_inode stat_from
lookup self parent name = do
  node ← find_inode self parent
  hash ← ok_or (get_directory node) (os ebadf)
  e ← ok_or (lookup_name hash name) (os enoent)
  attr ← stat_from self e.inode
  ok (record { inode = e.inode; attr = attr })

-- The same handle is opened again: a count of 0 is an error.
abbrev reopen_file : ZipFuse → ℕ → OpenFileBuf → Outcome IoError ℕ × ZipFuse
reopen_file self handle ofb = if ofb.open_count == 0 then (err (os ebadf), self) else (
  ok handle,
  record self {
    open_files =
        Handles.insert self.open_files handle
          (record ofb { open_count = (ofb.open_count + 1) % u32_mod });
  },
)

abbrev pub opened_file : ZipFuse → ℕ → Outcome IoError (List ℕ) → Outcome IoError ℕ × ZipFuse
opened_file self handle (ok bytes) = (
  ok handle,
  record self {
    open_files = Handles.insert self.open_files handle (record { open_count = 1; buf = bytes });
  },
)
opened_file self handle (err e) = (err e, self)
opened_file self handle panic = (panic, self)
opened_file self handle stuck = (stuck, self)

-- `read_file` is what the archive returns for an index: `by_index` and `read_to_end`.
module _ (read_file : ℕ → Outcome IoError (List ℕ)) where
  unfoldable pub file_contents : ZipFuse → Inode → Outcome IoError (List ℕ)
  unfolding find_inode
  file_contents self inode = do
    inode_data ← find_inode self inode
    zip_index ← ok_or (get_zip_index inode_data) (os ebadf)
    read_file zip_index

  unfoldable pub open_file : ZipFuse → Inode → Outcome IoError ℕ × ZipFuse
  unfolding file_contents
  open_file self inode = elim (Handles.get self.open_files inode) [
    | some ofb ↦ reopen_file self inode ofb
    | none ↦ opened_file self inode (file_contents self inode)
  ]

-- The count that is left decides, and is not stored.
abbrev release_file : ZipFuse → ℕ → ℕ → Outcome IoError (Unit {0}) × ZipFuse
release_file self handle open_count =
    if open_count == 0
    then (err (os ebadf), self)
    else if open_count - 1 == 0
    then (ok tt, record self { open_files = Handles.remove self.open_files handle })
    else (ok tt, self)

unfoldable pub release : ZipFuse → Inode → Outcome IoError (Unit {0}) × ZipFuse
unfolding Handles.remove
release self inode = elim (Handles.get self.open_files inode) [
  | some ofb ↦ release_file self inode ofb.open_count
  | none ↦ (err (os ebadf), self)
]

-- `&buf[start..end]`
unfoldable pub slice : List ℕ → ℕ → ℕ → Outcome IoError (List ℕ)
slice buf start end = if leb start end then ok (take (end - start) (drop start buf)) else panic

-- `w` is the reply's writer, which returns how much it took.
unfoldable pub read : (List ℕ → Outcome IoError ℕ) → ZipFuse → ℕ → ℕ → ℕ → Outcome IoError ℕ
unfolding slice
read w self handle size offset = do
  ofb ← ok_or (Handles.get self.open_files handle) (os ebadf)
  guard (ltb 0 ofb.open_count) (os ebadf)
  bytes ← slice ofb.buf offset (min ((offset + size) % u64_mod) (length ofb.buf))
  w bytes
