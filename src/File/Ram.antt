-- ===== src/File/Ram.antt =====
-- A file that is a list of bytes, to run the models of the file traits.
use android_packages_modules.Common.{
  ℕ, ◌+◌, ◌-◌, ◌*◌, ◌≡◌, ok, List, ◌++◌, length, take, drop, replicate, arith,
}
use android_packages_modules.Chunks.{chunk_size}
use android_packages_modules.File.{ReadByChunk, RandomWrite}
use android_packages_modules.File.WriteAll.{MakesProgress}

abbrev pub ram_reader : ReadByChunk (List ℕ)
ram_reader = record {
  read_chunk = λ file index buf.
      let bytes = take chunk_size (drop (index * chunk_size) file) in
      ok (length bytes, bytes ++ drop (length bytes) buf);
}

abbrev pub overwrite : List ℕ → List ℕ → ℕ → List ℕ
overwrite file buf offset =
    take offset (file ++ replicate (offset - length file) 0)
    ++ (buf ++ drop (offset + length buf) file)

abbrev pub ram_writer : RandomWrite (List ℕ)
ram_writer = record {
  write_at = λ file buf offset. (ok (length buf), overwrite file buf offset);
  resize = λ file size. (ok tt, take size file ++ replicate (size - length file) 0);
}

pub ram_writer-MakesProgress : MakesProgress ram_writer
ram_writer-MakesProgress = record {
  writes_some = λ file buf offset size some_bytes written.
      let e : length buf ≡ size = cc written in omega arith;
  returns = λ file buf offset. λ h. cc h;
}
