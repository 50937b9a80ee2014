-- ===== src/File.antt =====
-- authfs/src/file.rs: `io::Error` and the two traits of a file that may be stored elsewhere. An
-- error keeps its errno or its kind; its message is left out.
pub mod WriteAll
pub mod Ram
use android_packages_modules.Common.{
  ℕ, zero, suc, ◌+◌, ◌%◌, List, Outcome, ok, err, panic, stuck, leb, if◌then◌else◌, length, drop,
}
use android_packages_modules.Chunks.{u64_mod}

pub data IoError : Type 0 where
  os : ℕ → IoError
  other invalid_data invalid_input unexpected_eof write_zero : IoError

abbrev pub enoent : ℕ
enoent = 2

abbrev pub eio : ℕ
eio = 5

abbrev pub ebadf : ℕ
ebadf = 9

abbrev pub eacces : ℕ
eacces = 13

abbrev pub einval : ℕ
einval = 22

abbrev pub efbig : ℕ
efbig = 27

abbrev pub enosys : ℕ
enosys = 38

abbrev pub enodata : ℕ
enodata = 61

abbrev pub eoverflow : ℕ
eoverflow = 75

-- A file is a value of `F`, and a call returns its value after the call. `read_chunk` is handed the
-- buffer and returns the size read with the buffer after the call.
pub record ReadByChunk (F : Type 0) : Type 0 where
  pub read_chunk : F → ℕ → List ℕ → Outcome IoError (ℕ × List ℕ)

-- `write_at` returns the written size; a failed write may have changed the file.
pub record RandomWrite (F : Type 0) : Type 0 where
  pub write_at : F → List ℕ → ℕ → Outcome IoError ℕ × F
  pub resize : F → ℕ → Outcome IoError (Unit {0}) × F

-- A step of the loop of `write_all_at`: `next` is the loop after it, handed the file and the size.
abbrev pub after_write :
    {F : Type 0}
    → (F → ℕ → Outcome IoError (Unit {0}) × F)
    → Outcome IoError ℕ × F
    → Outcome IoError (Unit {0}) × F
after_write next (ok size, file) = next file size
after_write next (err e, file) = (err e, file)
after_write next (panic, file) = (panic, file)
after_write next (stuck, file) = (stuck, file)

-- A `write_at` that returns 0 is called again without end, so the loop takes fuel.
module _ {F : Type 0} (wr : RandomWrite F) where
  unfoldable pub write_all_loop : ℕ → List ℕ → F → ℕ → ℕ → Outcome IoError (Unit {0}) × F
  write_all_loop zero buf file input_offset output_offset = (stuck, file)
  write_all_loop (suc fuel) buf file input_offset output_offset =
      let round =
        after_write
          (λ file' size.
            write_all_loop fuel buf file' ((input_offset + size) % u64_mod)
              ((output_offset + size) % u64_mod))
          (wr.write_at file (drop input_offset buf) output_offset) in
      if leb (length buf) input_offset then (ok tt, file) else round

  unfoldable pub write_all_at : ℕ → F → List ℕ → ℕ → Outcome IoError (Unit {0}) × F
  unfolding write_all_loop
  write_all_at fuel file buf offset = write_all_loop fuel buf file 0 offset
