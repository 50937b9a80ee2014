-- ===== src/FdServer/Tests.antt =====
-- The service over a file that is a list of bytes.
use android_packages_modules.Common.{
  pos, negsuc, ℕ, ◌≡◌, refl, none, List, [], ◌∷◌, ◌++◌, ok, err, length, take, drop, replicate,
  arith, length-append, length-take, length-replicate,
}
use android_packages_modules.FdServer.{HostFile, FdService, readonly, read_file, illegal_argument}
use android_packages_modules.FdServer.Sizes.{ReadsExactly}

abbrev zero_byte : ℕ
zero_byte = 0

-- Reads past the end give zeros.
abbrev memory : HostFile (List ℕ)
memory = record {
  len = λ file. ok (length file);
  read_exact_at = λ file size offset. ok (take size (drop offset file ++ replicate size 0));
  write_at = λ file buf offset. (ok (length buf), file);
  set_len = λ file size. (ok tt, take size file);
  read_verity_metadata = λ file arg buf. (ok 0, buf);
}

memory-ReadsExactly : ReadsExactly memory
memory-ReadsExactly = record {
  exact = λ file size offset bytes h.
      let all = drop offset file ++ replicate size zero_byte in
      let same : take size all ≡ bytes = cc h in
      let n : length bytes ≡ length (take size all) = cc same in
      omega (
        arith,
        length-take size all,
        length-append (drop offset file) (replicate size zero_byte),
        length-replicate size zero_byte,
      );
}

abbrev pool : FdService (List ℕ)
pool = (3, readonly (7 ∷ 8 ∷ 9 ∷ []) none none) ∷ []

read_of_pool : read_file memory pool 3 (pos 1) (pos 10) ≡ ok (8 ∷ 9 ∷ [])
unfolding read_file replicate
read_of_pool = refl

negative_size : read_file memory pool 3 (pos 1) (negsuc 0) ≡ err illegal_argument
unfolding read_file
negative_size = refl
