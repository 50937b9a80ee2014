-- ===== src/File/WriteAll.antt =====
-- The loop of `write_all_at` of authfs/src/file.rs ends where each write makes progress.
use android_packages_modules.Common.{
  ℕ, zero, suc, ◌+◌, ◌-◌, ◌%◌, ◌<◌, ◌≤◌, ◌≡◌, ◌≢◌, inl, inr, List, Outcome, ok, err, panic, stuck,
  arith, leb, Bool-cases, tests, length, drop, length-drop, refl,
}
use android_packages_modules.Chunks.{u64_mod}
use android_packages_modules.File.{IoError, RandomWrite, after_write, write_all_loop, write_all_at}

-- What the documentation of `write_at` promises, with progress: a write of a buffer that is not
-- empty fails, or writes a byte at least and not more than the buffer.
pub record MakesProgress {F : Type 0} (wr : RandomWrite F) : Type 0 where
  pub writes_some :
      (file : F) (buf : List ℕ) (offset size : ℕ)
      → 0 < length buf
      → (wr.write_at file buf offset).0 ≡ ok size
      → (0 < size) × (size ≤ length buf)
  pub returns : (file : F) (buf : List ℕ) (offset : ℕ) → (wr.write_at file buf offset).0 ≢ stuck

module _ {F : Type 0} (wr : RandomWrite F) (live : MakesProgress wr) where
  after_write-ne-stuck :
      (next : F → ℕ → Outcome IoError (Unit {0}) × F) (r : Outcome IoError ℕ × F)
      → r.0 ≢ stuck
      → ((file : F) (size : ℕ) → r.0 ≡ ok size → (next file size).0 ≢ stuck)
      → (after_write next r).0 ≢ stuck
  after_write-ne-stuck next (ok size, file) h k = k file size refl
  after_write-ne-stuck next (err e, file) h k = λ p. cc
  after_write-ne-stuck next (panic, file) h k = λ p. cc
  after_write-ne-stuck next (stuck, file) h k = λ p. h refl

  write_all_loop-ne-stuck :
      (fuel : ℕ) (buf : List ℕ) (file : F) (input_offset output_offset : ℕ)
      → length buf < u64_mod
      → length buf - input_offset < fuel
      → (write_all_loop wr fuel buf file input_offset output_offset).0 ≢ stuck
  unfolding write_all_loop
  write_all_loop-ne-stuck zero buf file i o short h = absurd (omega arith)
  write_all_loop-ne-stuck (suc fuel) buf file i o short h = elim (Bool-cases (leb (length buf) i)) [
    | inl done ↦ rw done (λ p. cc)
    | inr more ↦ rw more (
        after_write-ne-stuck _ (wr.write_at file (drop i buf) o) (live.returns file (drop i buf) o)
          λ file' size e.
            let (some, fits) =
              live.writes_some file (drop i buf) o size (omega (tests, length-drop i buf)) e in
            write_all_loop-ne-stuck fuel buf file' ((i + size) % u64_mod) ((o + size) % u64_mod)
              short (omega (tests, length-drop i buf)))
  ]

  -- With fuel for one more round than there are bytes, the loop ends by itself.
  pub write_all_at-ne-stuck :
      (fuel : ℕ) (file : F) (buf : List ℕ) (offset : ℕ)
      → length buf < u64_mod
      → length buf < fuel
      → (write_all_at wr fuel file buf offset).0 ≢ stuck
  unfolding write_all_at
  write_all_at-ne-stuck fuel file buf offset short h =
      write_all_loop-ne-stuck fuel buf file 0 offset short (omega arith)
