-- ===== src/Zip/FileSystem/Served.antt =====
-- lookup along a path, open and read of zipfuse/src/main.rs on the table of `InodeTable::from_zip`.
use android_packages_modules.Common.{
  ℕ, ◌+◌, ◌<◌, ◌≡◌, refl, ap, ◌∙◌, none, some, true, List, [], ◌∷◌, Outcome, ok, err, panic, stuck,
  ◌>>=◌, >>=-eq-ok, ok_or, arith, inl, inr, Bool-cases, leb, if◌then◌else◌, length, take, drop,
}
use android_packages_modules.Chunks.{u64_mod}
use android_packages_modules.File.{IoError, os, enoent, ebadf}
use android_packages_modules.Handles
use android_packages_modules.Zip.Inode.{
  Inode, Name, DirectoryEntry, InodeData, ZipFile, ZipArchive, root, get, get_directory,
  get_zip_index, from_zip, lookup_name,
}
use android_packages_modules.Zip.Inode.Entries.{entry, entry_in, dir_entry}
use android_packages_modules.Zip.Inode.Kinds.{zip_index_at, view_in}
use android_packages_modules.Zip.Inode.Paths.{ok_or-some, walk, step_some}
use android_packages_modules.Zip.Inode.Contents.{from_zip-Named}
use android_packages_modules.Zip.FileSystem.{
  ZipFuse, Entry, find_inode, stat_from, lookup, file_contents, open_file, opened_file, read,
}
use android_packages_modules.Zip.FileSystem.Opened.{read-open_file, read-panic}

-- The lookups of the components of a path, each in the inode that the one before replied with.
abbrev pub lookup_path : ZipFuse → Inode → List Name → Outcome IoError Inode
lookup_path self inode [] = ok inode
lookup_path self inode (name ∷ rest) = do
  found ← lookup self inode name
  lookup_path self found.inode rest

find_inode-get :
    (self : ZipFuse) (inode : Inode) (node : InodeData)
    → find_inode self inode ≡ ok node
    → get self.inode_table inode ≡ some node
unfolding find_inode
find_inode-get self inode node h = ok_or-some (get self.inode_table inode) (os ebadf) h

lookup-entry :
    (self : ZipFuse) (parent : Inode) (name : Name) (found : Entry)
    → lookup self parent name ≡ ok found
    → (e : DirectoryEntry) × (entry self.inode_table parent name ≡ some e) × (e.inode ≡ found.inode)
unfolding lookup
lookup-entry self parent name found h =
    let (node, a, b) = >>=-eq-ok (find_inode self parent) _ h in
    let (hash, c, d) = >>=-eq-ok (ok_or {E = IoError} (get_directory node) (os ebadf)) _ b in
    let (e, at, more) = >>=-eq-ok (ok_or {E = IoError} (lookup_name hash name) (os enoent)) _ d in
    let (attr, s, last) = >>=-eq-ok (stat_from self e.inode) _ more in
    (
      e,
      ap (λ o. entry_in o name) (find_inode-get self parent node a)
          ∙ (dir_entry node hash name (ok_or-some (get_directory node) (os ebadf) c)
              ∙ ok_or-some (lookup_name hash name) (os enoent) at),
      cc last,
    )

lookup_path-walk :
    (self : ZipFuse) (inode q : Inode) (path : List Name)
    → lookup_path self inode path ≡ ok q
    → walk self.inode_table inode path ≡ some q
lookup_path-walk self inode q [] h = cc h
lookup_path-walk self inode q (name ∷ rest) h =
    let (found, a, b) = >>=-eq-ok (lookup self inode name) _ h in
    let (e, at, same) = lookup-entry self inode name found a in
    step_some self.inode_table inode name rest e at
    ∙ (ap (λ i. walk self.inode_table i rest) same ∙ lookup_path-walk self found.inode q rest b)

module _ (read_file : ℕ → Outcome IoError (List ℕ)) (self : ZipFuse) (q : Inode) where
  file_contents-index :
      (bytes : List ℕ)
      → file_contents read_file self q ≡ ok bytes
      → (j : ℕ) × (zip_index_at self.inode_table q ≡ some (some j)) × (read_file j ≡ ok bytes)
  unfolding file_contents
  file_contents-index bytes h =
      let (node, a, b) = >>=-eq-ok (find_inode self q) _ h in
      let (j, c, d) = >>=-eq-ok (ok_or {E = IoError} (get_zip_index node) (os ebadf)) _ b in
      (
        j,
        ap (view_in get_zip_index) (find_inode-get self q node a)
            ∙ ap some (ok_or-some (get_zip_index node) (os ebadf) c),
        d,
      )

  opened_file-ok :
      (contents : Outcome IoError (List ℕ)) (handle : ℕ)
      → (opened_file self q contents).0 ≡ ok handle
      → (bytes : List ℕ) × (contents ≡ ok bytes)
  opened_file-ok (ok bytes) handle h = (bytes, refl)
  opened_file-ok (err e) handle h = absurd (cc h)
  opened_file-ok panic handle h = absurd (cc h)
  opened_file-ok stuck handle h = absurd (cc h)

  opens :
      Handles.get self.open_files q ≡ none
      → (opened_file self q (file_contents read_file self q)).0 ≡ (open_file read_file self q).0
  unfolding open_file
  opens shut = rw (shut, open_file) refl

  open_file-contents :
      (handle : ℕ)
      → Handles.get self.open_files q ≡ none
      → (open_file read_file self q).0 ≡ ok handle
      → (bytes : List ℕ) × (file_contents read_file self q ≡ ok bytes)
  open_file-contents handle shut h =
      opened_file-ok (file_contents read_file self q) handle (opens shut ∙ h)

  read-total :
      (bytes : List ℕ) (w : List ℕ → Outcome IoError ℕ) (size offset : ℕ)
      → Handles.get self.open_files q ≡ none
      → file_contents read_file self q ≡ ok bytes
      → offset + size < u64_mod
      → read w (open_file read_file self q).1 q size offset
        ≡ (if leb offset (length bytes) then w (take size (drop offset bytes)) else panic)
  read-total bytes w size offset shut contents small =
      elim (Bool-cases (leb offset (length bytes))) [
        | inl inside ↦
            read-open_file read_file self q bytes w size offset shut contents (ground arith) small
            ∙ rw inside refl
        | inr beyond ↦
            read-panic read_file self q bytes w size offset shut contents (ground arith)
            ∙ rw beyond refl
      ]

  -- On the table of an archive, when the lookups of a path reply with an inode that is not open and
  -- open succeeds on it, there is a file of the archive with that path, which the archive does not
  -- say to be a directory, and a read replies with the bytes that the archive gives for that file:
  -- those from the offset on, up to the size or the end, for an offset within the file, while it
  -- panics for one beyond the end. The end of the range does not overflow.
  pub read-served :
      (archive : ZipArchive) (path : List Name) (handle : ℕ) (w : List ℕ → Outcome IoError ℕ)
      (size offset : ℕ)
      → from_zip archive ≡ ok self.inode_table
      → lookup_path self root path ≡ ok q
      → Handles.get self.open_files q ≡ none
      → (open_file read_file self q).0 ≡ ok handle
      → offset + size < u64_mod
      → (j : ℕ) × (f : ZipFile) × (bytes : List ℕ) × (archive.by_index j ≡ ok f)
        × (f.enclosed_name ≡ some path)
        × (f.is_file ≡ true)
        × (read_file j ≡ ok bytes)
        × (read w (open_file read_file self q).1 q size offset
            ≡ (if leb offset (length bytes) then w (take size (drop offset bytes)) else panic))
  read-served archive path handle w size offset built found shut opened small =
      let (bytes, contents) = open_file-contents handle shut opened in
      let (j, index, given) = file_contents-index bytes contents in
      let (f, at, named, is_file) =
        from_zip-Named archive self.inode_table path q j built
          (lookup_path-walk self root q path found) index in
      (j, f, bytes, at, named, is_file, given, read-total bytes w size offset shut contents small)
