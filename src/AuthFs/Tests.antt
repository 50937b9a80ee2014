-- ===== src/AuthFs/Tests.antt =====
-- A read request and a write request on files in memory.
use android_packages_modules.Common.{
  ℕ, ◌-◌, ◌*◌, ◌≤◌, zero, suc, ◌≡◌, refl, sym, ap, ◌∙◌, min, List, [], ◌∷◌, ◌++◌, Outcome, ok,
  length, take, replicate, arith,
}
use android_packages_modules.Chunks.{chunk_size, items}
use android_packages_modules.File.{IoError}
use android_packages_modules.Fsverity.Editor.Content.{Content, slice, slice_zero}
use android_packages_modules.AuthFs.{Write, read_chunks}
use android_packages_modules.AuthFs.Requests.{Appends, Serves, read_chunks-slice}

-- A writer that takes everything.
abbrev buffer : Write (List ℕ)
buffer = record { write = λ w bytes. (ok (length bytes), w ++ bytes) }

take_all : (xs : List ℕ) → take (length xs) xs ≡ xs
take_all [] = refl
take_all (x ∷ xs) = ap (◌∷◌ x) (take_all xs)

buffer-Appends : Appends buffer (λ w. w)
buffer-Appends = record {
  appends = λ w w' bytes s h.
      let count : length bytes ≡ s = cc h in
      let same : w ++ bytes ≡ w' = cc h in
      sym same ∙ ap (λ xs. w ++ xs) (sym (take_all bytes) ∙ ap (λ n. take n bytes) count);
}

-- A file of zeros.
abbrev zeros_file : ℕ → List ℕ → Outcome IoError (ℕ × List ℕ)
zeros_file k buf = ok (chunk_size, replicate chunk_size 0)

abbrev hole : Content
hole i = 0

take-replicate : (m n : ℕ) → m ≤ n → take {A = ℕ} m (replicate n 0) ≡ replicate m 0
unfolding replicate
take-replicate zero n h = refl
take-replicate (suc m) zero h = absurd (omega arith)
take-replicate (suc m) (suc n) h = ap (◌∷◌ 0) (take-replicate m n (omega arith))

zeros_file-Serves : Serves zeros_file hole 5000
zeros_file-Serves k s buf h =
    let same : replicate chunk_size 0 ≡ buf = cc h in
    let m = min chunk_size (5000 - k * chunk_size) in
    ap (take m) (sym same)
    ∙ (take-replicate m chunk_size (omega arith)
        ∙ sym (slice_zero hole (k * chunk_size) m (λ i lo. refl)))

read_zeros : read_chunks buffer zeros_file [] 5000 4998 5 ≡ (ok 2, 0 ∷ 0 ∷ [])
unfolding read_chunks items replicate
read_zeros = refl

read_chunks-slice_example : (2 ≡ min 5 (5000 - 4998)) × (0 ∷ 0 ∷ [] ≡ [] ++ slice hole 4998 2)
read_chunks-slice_example =
    read_chunks-slice buffer (λ w. w) buffer-Appends zeros_file hole 5000 zeros_file-Serves []
      (0 ∷ 0 ∷ []) 4998 5 2 (omega arith) read_zeros
