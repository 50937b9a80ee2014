-- ===== src/Zip/FileSystem/Directories.antt =====
-- zipfuse/src/main.rs: opendir, releasedir and readdir, and the iterator over a directory.
use android_packages_modules.Common.{
  ℕ, suc, ◌+◌, ◌-◌, ◌*◌, ◌/◌, ◌%◌, Option, none, some, List, [], ◌∷◌, Outcome, ok, err, panic,
  stuck, ◌>>=◌, ◌>>◌, ok_or, guard, ltb, leb, ◌==◌, if◌then◌else◌, length, get_elem?, take, drop,
}
use android_packages_modules.Chunks.{u64_mod}
use android_packages_modules.File.{IoError, os, ebadf}
use android_packages_modules.Handles.{HandleMap}
use android_packages_modules.Handles
use android_packages_modules.Zip.Inode.{Inode, Name, InodeKind, DirectoryEntry, get_directory}
use android_packages_modules.Zip.FileSystem.{ZipFuse, OpenDirBuf, u32_mod, find_inode}

abbrev reopen_dir : ZipFuse → ℕ → OpenDirBuf → Outcome IoError ℕ × ZipFuse
reopen_dir self handle odb = if odb.open_count == 0 then (err (os ebadf), self) else (
  ok handle,
  record self {
    open_dirs =
        Handles.insert self.open_dirs handle
          (record odb { open_count = (odb.open_count + 1) % u32_mod });
  },
)

abbrev opened_dir :
    ZipFuse → ℕ → Outcome IoError (List (Name × DirectoryEntry)) → Outcome IoError ℕ × ZipFuse
opened_dir self handle (ok entries) = (
  ok handle,
  record self {
    open_dirs = Handles.insert self.open_dirs handle (record { open_count = 1; buf = entries });
  },
)
opened_dir self handle (err e) = (err e, self)
opened_dir self handle panic = (panic, self)
opened_dir self handle stuck = (stuck, self)

unfoldable dir_contents : ZipFuse → Inode → Outcome IoError (List (Name × DirectoryEntry))
unfolding find_inode
dir_contents self inode = do
  inode_data ← find_inode self inode
  ok_or (get_directory inode_data) (os ebadf)

unfoldable pub opendir : ZipFuse → Inode → Outcome IoError ℕ × ZipFuse
unfolding dir_contents
opendir self inode = elim (Handles.get self.open_dirs inode) [
  | some odb ↦ reopen_dir self inode odb
  | none ↦ opened_dir self inode (dir_contents self inode)
]

abbrev release_dir : ZipFuse → ℕ → ℕ → Outcome IoError (Unit {0}) × ZipFuse
release_dir self handle open_count =
    if open_count == 0
    then (err (os ebadf), self)
    else if open_count - 1 == 0
    then (ok tt, record self { open_dirs = Handles.remove self.open_dirs handle })
    else (ok tt, self)

unfoldable pub releasedir : ZipFuse → Inode → Outcome IoError (Unit {0}) × ZipFuse
unfolding Handles.remove
releasedir self inode = elim (Handles.get self.open_dirs inode) [
  | some odb ↦ release_dir self inode odb.open_count
  | none ↦ (err (os ebadf), self)
]

pub record DirIter : Type 0 where
  pub inner : List (Name × DirectoryEntry)
  pub offset : ℕ
  pub cur : ℕ

-- The space that an entry takes in the reply, as a multiple of 8; `dirent_size` is the size of the
-- fuse crate's `Dirent`.
abbrev rounded_size : ℕ → Name → ℕ
rounded_size dirent_size name = (dirent_size + length name + 7) / 8 * 8

-- How many entries from `start` on the loop of `readdir` takes.
unfoldable pub entries_that_fit : ℕ → ℕ → ℕ → List (Name × DirectoryEntry) → ℕ
entries_that_fit dirent_size size estimate [] = 0
entries_that_fit dirent_size size estimate ((name, e) ∷ rest) =
    let more = entries_that_fit dirent_size size (estimate + rounded_size dirent_size name) rest in
    if ltb estimate size then suc more else 0

abbrev pub dir_slice : ℕ → List (Name × DirectoryEntry) → ℕ → ℕ → Outcome IoError DirIter
dir_slice dirent_size buf size offset =
    if leb offset (length buf)
    then ok (record {
      inner = take (entries_that_fit dirent_size size 0 (drop offset buf)) (drop offset buf);
      offset = offset;
      cur = 0;
    })
    else panic

unfoldable pub readdir : ℕ → ZipFuse → Inode → ℕ → ℕ → Outcome IoError DirIter
unfolding entries_that_fit
readdir dirent_size self inode size offset = do
  odb ← ok_or (Handles.get self.open_dirs inode) (os ebadf)
  guard (ltb 0 odb.open_count) (os ebadf)
  dir_slice dirent_size odb.buf size offset

pub record DirEntry : Type 0 where
  pub ino : ℕ
  pub offset : ℕ
  pub kind : InodeKind
  pub name : Name

-- `DirIter::next`: the item, and the iterator after it.
unfoldable pub next : DirIter → Option (DirEntry × DirIter)
next self = elim (get_elem? self.inner self.cur) [
  | none ↦ none
  | some entry ↦ some (
    record {
      ino = entry.1.inode;
      offset = (self.offset + (self.cur + 1)) % u64_mod;
      kind = entry.1.kind;
      name = entry.0;
    },
    record self { cur = self.cur + 1 },
  )
]
