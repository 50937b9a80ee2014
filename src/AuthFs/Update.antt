-- ===== src/AuthFs/Update.antt =====
-- authfs/src/fusefs.rs: the requests that change a file of the pool.
use android_packages_modules.Common.{
  ℕ, none, some, Bool, List, Outcome, ok, err, panic, stuck, ◌||◌, if◌then◌else◌,
}
use android_packages_modules.Crypto.{Sha256Ffi}
use android_packages_modules.File.{IoError, os, enoent, ebadf, enosys, ReadByChunk, RandomWrite}
use android_packages_modules.Handles.{HandleMap}
use android_packages_modules.Handles
use android_packages_modules.Fsverity.Editor.{VerifiedFileEditor}
use android_packages_modules.Fsverity.Editor
use android_packages_modules.AuthFs.{
  Inode, FileConfig, remote_verified_new_file, AuthFs, read_write, Stat, create_stat,
}

-- `SetattrValid`, as far as `setattr` asks for it.
pub record SetattrValid : Type 0 where
  pub size : Bool
  pub mode : Bool
  pub uid : Bool
  pub gid : Bool

module _ {L R T E : Type 0} where
  abbrev pub put_editor : AuthFs L R T E → Inode → VerifiedFileEditor E → AuthFs L R T E
  put_editor self inode editor = record self {
    file_pool = Handles.insert self.file_pool inode (remote_verified_new_file editor);
  }

  module _ {Ctx : Type 0} (ffi : Sha256Ffi Ctx) (local : ReadByChunk L) (remote : ReadByChunk R)
      (tree : ReadByChunk T) (backing : ReadByChunk E) (wr : RandomWrite E) where
    abbrev pub after_write_at :
        AuthFs L R T E
        → Inode
        → Outcome IoError ℕ × VerifiedFileEditor E
        → Outcome IoError ℕ × AuthFs L R T E
    after_write_at self inode (result, editor) = (result, put_editor self inode editor)

    -- `buf` is what `read_exact` returns for the request's data.
    abbrev pub write_editor :
        AuthFs L R T E
        → Inode
        → VerifiedFileEditor E
        → ℕ
        → Outcome IoError (List ℕ)
        → Outcome IoError ℕ × AuthFs L R T E
    write_editor self inode editor offset (ok buf) =
        after_write_at self inode (Editor.write_at ffi backing wr buf offset editor)
    write_editor self inode editor offset (err e) = (err e, self)
    write_editor self inode editor offset panic = (panic, self)
    write_editor self inode editor offset stuck = (stuck, self)

    abbrev pub write_config :
        AuthFs L R T E
        → Inode
        → Outcome IoError (List ℕ)
        → ℕ
        → FileConfig L R T E
        → Outcome IoError ℕ × AuthFs L R T E
    write_config self inode buf offset (remote_verified_new_file editor) =
        write_editor self inode editor offset buf
    write_config self inode buf offset _ = (err (os ebadf), self)

    unfoldable pub write_file :
        AuthFs L R T E → Inode → Outcome IoError (List ℕ) → ℕ → Outcome IoError ℕ × AuthFs L R T E
    write_file self inode buf offset = elim (Handles.get self.file_pool inode) [
      | some config ↦ write_config self inode buf offset config
      | none ↦ (err (os enoent), self)
    ]

    -- The checks of the other attributes, after the size.
    abbrev pub unsupported : SetattrValid → Stat → Outcome IoError Stat
    unsupported valid st = if valid.mode || (valid.uid || valid.gid) then err (os enosys) else ok st

    abbrev pub after_size :
        AuthFs L R T E
        → Inode
        → SetattrValid
        → Stat
        → Outcome IoError (Unit {0}) × VerifiedFileEditor E
        → Outcome IoError Stat × AuthFs L R T E
    after_size self inode valid st (ok _, editor) =
        (unsupported valid st, put_editor self inode editor)
    after_size self inode valid st (err e, editor) = (err e, put_editor self inode editor)
    after_size self inode valid st (panic, editor) = (panic, put_editor self inode editor)
    after_size self inode valid st (stuck, editor) = (stuck, put_editor self inode editor)

    -- With the stat of the editor's size; `size` is the new `st_size`.
    abbrev pub set_editor :
        AuthFs L R T E
        → Inode
        → ℕ
        → SetattrValid
        → VerifiedFileEditor E
        → Outcome IoError Stat
        → Outcome IoError Stat × AuthFs L R T E
    set_editor self inode size valid editor (ok st) =
        if valid.size
        then after_size self inode valid (record st { st_size = size })
            (Editor.resize ffi backing wr editor size)
        else (unsupported valid st, self)
    set_editor self inode size valid editor (err e) = (err e, self)
    set_editor self inode size valid editor panic = (panic, self)
    set_editor self inode size valid editor stuck = (stuck, self)

    abbrev pub set_config :
        AuthFs L R T E
        → Inode
        → ℕ
        → SetattrValid
        → FileConfig L R T E
        → Outcome IoError Stat × AuthFs L R T E
    set_config self inode size valid (remote_verified_new_file editor) =
        set_editor self inode size valid editor (create_stat inode (Editor.size editor) read_write)
    set_config self inode size valid _ = (err (os ebadf), self)

    unfoldable pub setattr :
        AuthFs L R T E → Inode → ℕ → SetattrValid → Outcome IoError Stat × AuthFs L R T E
    setattr self inode size valid = elim (Handles.get self.file_pool inode) [
      | some config ↦ set_config self inode size valid config
      | none ↦ (err (os enoent), self)
    ]
