-- ===== src/FdServer/Sizes.antt =====
-- The bounds on what the service of authfs/fd_server/src/main.rs returns.
use android_packages_modules.Common.{
  ℤ, pos, negsuc, ℕ, ◌-◌, ◌≤◌, ◌≡◌, min, List, ok, >>=-eq-ok, map_err-eq-ok, ltb, length, arith,
  tests, Bool-cases, inl, inr,
}
use android_packages_modules.FdServer.{
  error_io, HostFile, FdService, max_requesting_data, validate_and_cast_size,
  validate_and_cast_offset, get_file_config, read_into_buf, file_of, read_file,
}

-- `read_exact_at` fills the whole buffer when it succeeds.
pub record ReadsExactly {F : Type 0} (host : HostFile F) : Type 0 where
  pub exact :
      (file : F) (size offset : ℕ) (bytes : List ℕ)
      → host.read_exact_at file size offset ≡ ok bytes
      → length bytes ≡ size

validate_and_cast_size-le :
    (size : ℤ) (n : ℕ)
    → validate_and_cast_size size ≡ ok n
    → (size ≡ pos n) × (n ≤ max_requesting_data)
unfolding validate_and_cast_size
validate_and_cast_size-le (pos m) n h = elim (Bool-cases (ltb max_requesting_data m)) [
  | inl large ↦ absurd (ground arith)
  | inr small ↦ let same : m ≡ n = ground arith in (cc same, omega tests)
]
validate_and_cast_size-le (negsuc m) n h = absurd (ground arith)

cast_offset : (offset : ℤ) (n : ℕ) → validate_and_cast_offset offset ≡ ok n → offset ≡ pos n
unfolding validate_and_cast_offset
cast_offset (pos m) n h = cc h
cast_offset (negsuc m) n h = absurd (ground arith)

module _ {F : Type 0} (host : HostFile F) (reads : ReadsExactly host) where
  length-read_into_buf :
      (file : F) (max_size offset : ℕ) (bytes : List ℕ)
      → read_into_buf host file max_size offset ≡ ok bytes
      → length bytes ≤ max_size
  unfolding read_into_buf
  length-read_into_buf file max_size offset bytes h =
      let (len, a, b) = >>=-eq-ok (host.len file) _ h in
      let e = reads.exact file (min (len - offset) max_size) offset bytes b in omega arith

  -- A read request that succeeds has an offset and a size that are not negative and a size of at most
  -- MAX_REQUESTING_DATA, and returns no more bytes than that size, for files whose exact reads fill
  -- the buffer.
  pub length-read_file :
      (fd_pool : FdService F) (id : ℕ) (offset size : ℤ) (bytes : List ℕ)
      → read_file host fd_pool id offset size ≡ ok bytes
      → (start : ℕ) × (n : ℕ) × (offset ≡ pos start)
        × (size ≡ pos n)
        × (n ≤ max_requesting_data)
        × (length bytes ≤ n)
  unfolding read_file
  length-read_file fd_pool id offset size bytes h =
      let (n, a, b) = >>=-eq-ok (validate_and_cast_size size) _ h in
      let (start, c, d) = >>=-eq-ok (validate_and_cast_offset offset) _ b in
      let (config, e, f) = >>=-eq-ok (get_file_config host fd_pool id) _ d in
      let (same, small) = validate_and_cast_size-le size n a in
      (
        start,
        n,
        cast_offset offset start c,
        same,
        small,
        length-read_into_buf (file_of host config) n start bytes
            (map_err-eq-ok (λ x. error_io) (read_into_buf host (file_of host config) n start) f),
      )
