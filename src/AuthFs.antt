-- ===== src/AuthFs.antt =====
-- authfs/src/fusefs.rs: the FUSE handlers of authfs over the pool of files. The kinds of files are
-- parameters with their readers: L is a local file, R a remote one, T a remote Merkle tree and E the
-- remote file behind an editor.
pub mod Requests
pub mod Update
pub mod Pool
pub mod Sessions
pub mod Options
pub mod Startup
mod Tests
use Prim.Native.Nat.{bit_and, bit_or}
use android_packages_modules.Common.{
  ℕ, zero, suc, ◌+◌, ◌-◌, ◌/◌, ◌%◌, ◌^◌, min, Option, none, some, Bool, true, false, List, [], ◌∷◌,
  Outcome, ok, err, panic, stuck, ◌>>=◌, ◌>>◌, ok_or, guard, ltb, leb, ◌==◌, ◌||◌, if◌then◌else◌,
  length, take, drop, replicate,
}
use android_packages_modules.Chunks.{chunk_size, u64_mod, divide_roundup, items}
use android_packages_modules.Chunks
use android_packages_modules.Crypto.{Sha256Ffi}
use android_packages_modules.File.{
  IoError, os, enoent, eio, ebadf, eacces, efbig, enosys, enodata, einval, ReadByChunk, RandomWrite,
}
use android_packages_modules.Handles.{HandleMap}
use android_packages_modules.Handles
use android_packages_modules.Fsverity.Editor.{VerifiedFileEditor}
use android_packages_modules.Fsverity.Editor
use android_packages_modules.Fsverity.Verifier.{VerifiedFileReader}
use android_packages_modules.Fsverity.Verifier

abbrev pub Inode : Type 0
Inode = ℕ

pub data FileConfig (L R T E : Type 0) : Type 0 where
  local_verified_readonly_file : VerifiedFileReader L L → ℕ → FileConfig L R T E
  local_unverified_readonly_file : L → ℕ → FileConfig L R T E
  remote_verified_readonly_file : VerifiedFileReader R T → ℕ → FileConfig L R T E
  remote_unverified_readonly_file : R → ℕ → FileConfig L R T E
  remote_verified_new_file : VerifiedFileEditor E → FileConfig L R T E

pub record AuthFs (L R T E : Type 0) : Type 0 where
  pub file_pool : HandleMap (FileConfig L R T E)
  pub max_write : ℕ

pub data FileMode : Type 0 where
  read_only read_write : FileMode

pub record Stat : Type 0 where
  pub st_ino : ℕ
  pub st_mode : ℕ
  pub st_size : ℕ
  pub st_blocks : ℕ

-- libc::O_ACCMODE is 3 and O_RDONLY is 0.
unfoldable pub check_access_mode : ℕ → ℕ → Outcome IoError (Unit {0})
check_access_mode flags mode = if bit_and flags 3 == mode then ok tt else err (os eacces)

-- S_IFREG, S_IRUSR and S_IWUSR.
abbrev pub mode_bits : FileMode → ℕ
mode_bits read_only = 32768 + 256
mode_bits read_write = 32768 + 256 + 128

abbrev pub i64_max : ℕ
i64_max = 2 ^ 63 - 1

unfoldable pub create_stat : ℕ → ℕ → FileMode → Outcome IoError Stat
create_stat ino file_size file_mode = do
  guard (leb file_size i64_max) (os efbig)
  guard (leb (divide_roundup file_size 512) i64_max) (os efbig)
  ok (record {
    st_ino = ino;
    st_mode = mode_bits file_mode;
    st_size = file_size;
    st_blocks = divide_roundup file_size 512;
  })

abbrev pub offset_to_chunk_index : ℕ → ℕ
offset_to_chunk_index offset = offset / chunk_size

-- The reply's writer: a call returns how much it took, and its state.
pub record Write (W : Type 0) : Type 0 where
  pub write : W → List ℕ → Outcome IoError ℕ × W

-- The rest of a round of `read_chunks` after the writer's call.
abbrev pub after_reply :
    {W : Type 0} → (W → Outcome IoError ℕ × W) → ℕ → Outcome IoError ℕ × W → Outcome IoError ℕ × W
after_reply next planned (ok s, w) = if s == planned then next w else (err (os eio), w)
after_reply next planned (err e, w) = (err e, w)
after_reply next planned (panic, w) = (panic, w)
after_reply next planned (stuck, w) = (stuck, w)

-- The rest of a round after the chunk was read.
abbrev pub after_chunk :
    {W : Type 0}
    → Write W
    → W
    → (W → Outcome IoError ℕ × W)
    → ℕ
    → ℕ
    → Outcome IoError (ℕ × List ℕ)
    → Outcome IoError ℕ × W
after_chunk out w next begin planned (ok (read_size, buf)) =
    if ltb read_size planned
    then (err (os enodata), w)
    else if leb (begin + planned) (length buf)
    then after_reply next planned (out.write w (take planned (drop begin buf)))
    else (panic, w)
after_chunk out w next begin planned (err e) = (err e, w)
after_chunk out w next begin planned panic = (panic, w)
after_chunk out w next begin planned stuck = (stuck, w)

module _ {W : Type 0} (out : Write W) (rd : ℕ → List ℕ → Outcome IoError (ℕ × List ℕ)) where
  -- `try_fold` over the pieces; `rd` is the file's `read_chunk`.
  unfoldable pub read_pieces : List (ℕ × ℕ) → ℕ → W → Outcome IoError ℕ × W
  read_pieces [] total w = (ok total, w)
  read_pieces ((current_offset, planned_data_size) ∷ rest) total w =
      after_chunk out w (λ w'. read_pieces rest (total + planned_data_size) w')
        (current_offset % chunk_size) planned_data_size
        (rd (offset_to_chunk_index current_offset) (replicate chunk_size 0))

  unfoldable pub read_chunks : W → ℕ → ℕ → ℕ → Outcome IoError ℕ × W
  unfolding read_pieces
  read_chunks w file_size offset size =
      let size_to_read = min size (file_size - offset) in
      elim (items (Chunks.new size_to_read offset chunk_size)) [
        | some pieces ↦ read_pieces pieces 0 w
        | none ↦ (stuck, w)
      ]

module _ {L R T E : Type 0} where
  unfoldable pub get_file_config : AuthFs L R T E → Inode → Outcome IoError (FileConfig L R T E)
  get_file_config self inode = ok_or (Handles.get self.file_pool inode) (os enoent)

  -- The `create_stat` of the file's size and kind, the same for `lookup` and `getattr`.
  abbrev pub stat_of : Inode → FileConfig L R T E → Outcome IoError Stat
  stat_of inode (local_verified_readonly_file reader file_size) =
      create_stat inode file_size read_only
  stat_of inode (local_unverified_readonly_file reader file_size) =
      create_stat inode file_size read_only
  stat_of inode (remote_verified_readonly_file reader file_size) =
      create_stat inode file_size read_only
  stat_of inode (remote_unverified_readonly_file reader file_size) =
      create_stat inode file_size read_only
  stat_of inode (remote_verified_new_file editor) =
      create_stat inode (Editor.size editor) read_write

  -- `num` is what `parse` makes of the name, `none` for a name that is no number; a name that is not
  -- UTF-8 is `none` outside.
  unfoldable pub lookup : AuthFs L R T E → Option (Option Inode) → Outcome IoError (Inode × Stat)
  unfolding get_file_config create_stat
  lookup self name = do
    num ← ok_or name (os einval)
    inode ← ok_or num (os enoent)
    config ← get_file_config self inode
    st ← stat_of inode config
    ok (inode, st)

  unfoldable pub getattr : AuthFs L R T E → Inode → Outcome IoError Stat
  unfolding get_file_config create_stat
  getattr self inode = do config ← get_file_config self inode; stat_of inode config

  abbrev pub open_config : ℕ → FileConfig L R T E → Outcome IoError (Unit {0})
  open_config flags (local_verified_readonly_file reader file_size) = check_access_mode flags 0
  open_config flags (local_unverified_readonly_file reader file_size) = check_access_mode flags 0
  open_config flags (remote_verified_readonly_file reader file_size) = check_access_mode flags 0
  open_config flags (remote_unverified_readonly_file reader file_size) = check_access_mode flags 0
  open_config flags (remote_verified_new_file editor) = ok tt

  unfoldable pub open_file : AuthFs L R T E → Inode → ℕ → Outcome IoError (Unit {0})
  unfolding get_file_config check_access_mode
  open_file self inode flags = do config ← get_file_config self inode; open_config flags config

  module _ {Ctx : Type 0} (ffi : Sha256Ffi Ctx) (local : ReadByChunk L) (remote : ReadByChunk R)
      (tree : ReadByChunk T) (backing : ReadByChunk E) (wr : RandomWrite E) where
    module _ {W : Type 0} (out : Write W) where
      abbrev pub read_config : W → ℕ → ℕ → FileConfig L R T E → Outcome IoError ℕ × W
      read_config w size offset (local_verified_readonly_file reader file_size) =
          read_chunks out (Verifier.read_chunk ffi local local reader) w file_size offset size
      read_config w size offset (local_unverified_readonly_file reader file_size) =
          read_chunks out (local.read_chunk reader) w file_size offset size
      read_config w size offset (remote_verified_readonly_file reader file_size) =
          read_chunks out (Verifier.read_chunk ffi remote tree reader) w file_size offset size
      read_config w size offset (remote_unverified_readonly_file reader file_size) =
          read_chunks out (remote.read_chunk reader) w file_size offset size
      read_config w size offset (remote_verified_new_file editor) =
          read_chunks out (Editor.read_chunk ffi backing wr editor) w (Editor.size editor) offset
            size

      unfoldable pub read : AuthFs L R T E → Inode → W → ℕ → ℕ → Outcome IoError ℕ × W
      unfolding read_chunks
      read self inode w size offset = elim (Handles.get self.file_pool inode) [
        | some config ↦ read_config w size offset config
        | none ↦ (err (os enoent), w)
      ]
