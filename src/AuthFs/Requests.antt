-- ===== src/AuthFs/Requests.antt =====
-- What a read request of authfs/src/fusefs.rs replies, and who may write.
use mathlib.Core.Path.{subst}
use mathlib.Core.List.{append-nil, append_assoc}
use android_packages_modules.Common.{
  ℕ, zero, suc, ◌+◌, ◌-◌, ◌*◌, ◌/◌, ◌%◌, ◌≤◌, ◌<◌, ◌≡◌, ◌⊎◌, refl, sym, ap, ◌∙◌, min, some, List,
  [], ◌∷◌, ◌++◌, Outcome, ok, err, panic, stuck, ltb, leb, ◌==◌, length, take, drop, replicate,
  arith, tests, Bool-cases, inl, inr,
}
use android_packages_modules.Chunks.{chunk_size, u64_mod, items}
use android_packages_modules.Chunks
use android_packages_modules.Chunks.Cuts.{Cuts, items-Cuts}
use android_packages_modules.File.{IoError}
use android_packages_modules.Fsverity.Editor.Content.{
  Content, slice, take-slice, drop-slice, slice-append,
}
use android_packages_modules.AuthFs.{Write, after_reply, after_chunk, read_pieces, read_chunks}

-- The writer keeps what it says that it took.
pub record Appends {W : Type 0} (out : Write W) (written : W → List ℕ) : Type 0 where
  pub appends :
      (w w' : W) (bytes : List ℕ) (s : ℕ)
      → out.write w bytes ≡ (ok s, w')
      → written w' ≡ written w ++ take s bytes

-- The chunks that the file returns hold the content, up to the file size.
abbrev pub Serves : (ℕ → List ℕ → Outcome IoError (ℕ × List ℕ)) → Content → ℕ → Type 0
Serves rd f file_size =
    (k s : ℕ) (buf : List ℕ)
    → rd k (replicate chunk_size 0) ≡ ok (s, buf)
    → let m = min chunk_size (file_size - k * chunk_size) in take m buf ≡ slice f (k * chunk_size) m

after_reply-eq-ok :
    {W : Type 0} (next : W → Outcome IoError ℕ × W) (planned : ℕ) (reply : Outcome IoError ℕ × W)
    (n : ℕ) (w' : W)
    → after_reply next planned reply ≡ (ok n, w')
    → (w1 : W) × (reply ≡ (ok planned, w1)) × (next w1 ≡ (ok n, w'))
after_reply-eq-ok next planned (ok s, w) n w' h = elim (Bool-cases (s == planned)) [
  | inl same ↦ let e : s ≡ planned = omega tests in (w, ap (λ p. (ok p, w)) e, ground arith)
  | inr differ ↦ absurd (ground arith)
]
after_reply-eq-ok next planned (err e, w) n w' h = absurd (ground arith)
after_reply-eq-ok next planned (panic, w) n w' h = absurd (ground arith)
after_reply-eq-ok next planned (stuck, w) n w' h = absurd (ground arith)

after_chunk-eq-ok :
    {W : Type 0} (out : Write W) (w : W) (next : W → Outcome IoError ℕ × W) (begin planned : ℕ)
    (r : Outcome IoError (ℕ × List ℕ)) (n : ℕ) (w' : W)
    → after_chunk out w next begin planned r ≡ (ok n, w')
    → (s : ℕ) × (buf : List ℕ) × (w1 : W) × (r ≡ ok (s, buf))
      × (out.write w (take planned (drop begin buf)) ≡ (ok planned, w1))
      × (next w1 ≡ (ok n, w'))
after_chunk-eq-ok out w next begin planned (ok (s, buf)) n w' h =
    elim (Bool-cases (ltb s planned)) [
      | inl short ↦ absurd (ground arith)
      | inr enough ↦ elim (Bool-cases (leb (begin + planned) (length buf))) [
        | inl inside ↦
            let (w1, a, b) =
              after_reply-eq-ok next planned (out.write w (take planned (drop begin buf))) n w'
                (ground arith) in
            (s, buf, w1, refl, a, b)
        | inr outside ↦ absurd (ground arith)
      ]
    ]
after_chunk-eq-ok out w next begin planned (err e) n w' h = absurd (ground arith)
after_chunk-eq-ok out w next begin planned panic n w' h = absurd (ground arith)
after_chunk-eq-ok out w next begin planned stuck n w' h = absurd (ground arith)

module _ {ℓ} {A : Type ℓ} where
  take-drop-take :
      (begin n m : ℕ) (xs : List A)
      → begin + n ≤ m
      → take n (drop begin (take m xs)) ≡ take n (drop begin xs)
  take-drop-take zero zero m xs h = refl
  take-drop-take zero (suc n) zero xs h = absurd (omega arith)
  take-drop-take zero (suc n) (suc m) [] h = refl
  take-drop-take zero (suc n) (suc m) (x ∷ xs) h =
      ap (◌∷◌ x) (take-drop-take zero n m xs (omega arith))
  take-drop-take (suc begin) n zero xs h = absurd (omega arith)
  take-drop-take (suc begin) n (suc m) [] h = refl
  take-drop-take (suc begin) n (suc m) (x ∷ xs) h = take-drop-take begin n m xs (omega arith)

module _ {W : Type 0} (out : Write W) (written : W → List ℕ) (keeps : Appends out written)
    (rd : ℕ → List ℕ → Outcome IoError (ℕ × List ℕ)) (f : Content) (file_size : ℕ)
    (serves : Serves rd f file_size) where
  -- The bytes of one piece.
  piece-slice :
      (offset size s : ℕ) (buf : List ℕ)
      → offset % chunk_size + size ≤ chunk_size
      → offset + size ≤ file_size
      → rd (offset / chunk_size) (replicate chunk_size 0) ≡ ok (s, buf)
      → take size (drop (offset % chunk_size) buf) ≡ slice f offset size
  piece-slice offset size s buf inside within read =
      let begin = offset % chunk_size in
      let k = offset / chunk_size in
      let m = min chunk_size (file_size - k * chunk_size) in
      let fits : begin + size ≤ m = omega arith in
      let rest = m - begin - size in
      let e : m ≡ begin + (size + rest) = omega arith in
      let g : k * chunk_size + begin ≡ offset = omega arith in
      sym (take-drop-take begin size m buf fits)
      ∙ (ap (λ xs. take size (drop begin xs)) (serves k s buf read)
          ∙ (ap (λ c. take size (drop begin (slice f (k * chunk_size) c))) e
              ∙ (ap (take size) (drop-slice f (k * chunk_size) begin (size + rest))
                  ∙ (take-slice f (k * chunk_size + begin) size rest
                      ∙ ap (λ start. slice f start size) g))))

  -- What the writer holds after one piece.
  piece-written :
      (offset size s : ℕ) (buf : List ℕ) (w w1 : W)
      → offset % chunk_size + size ≤ chunk_size
      → offset + size ≤ file_size
      → rd (offset / chunk_size) (replicate chunk_size 0) ≡ ok (s, buf)
      → out.write w (take size (drop (offset % chunk_size) buf)) ≡ (ok size, w1)
      → written w1 ≡ written w ++ slice f offset size
  piece-written offset size s buf w w1 inside within read taken =
      let piece = drop (offset % chunk_size) buf in
      keeps.appends w w1 (take size piece) size taken
      ∙ ap (λ xs. written w ++ xs)
          (take-drop-take zero size size piece (omega arith)
            ∙ piece-slice offset size s buf inside within read)

  read_pieces-eq-ok :
      (pieces : List (ℕ × ℕ)) (total offset remaining n : ℕ) (w w' : W)
      → Cuts chunk_size offset remaining pieces
      → (remaining ≡ 0) ⊎ (offset + remaining ≤ file_size)
      → read_pieces out rd pieces total w ≡ (ok n, w')
      → (n ≡ total + remaining) × (written w' ≡ written w ++ slice f offset remaining)
  unfolding read_pieces slice
  read_pieces-eq-ok [] total offset remaining n w w' cuts within h =
      let e : remaining ≡ 0 = cuts in
      let same : w ≡ w' = cc h in
      let count : total ≡ n = cc h in
      (
        omega arith,
        ap written (sym same)
            ∙ (sym (append-nil (written w)) ∙ ap (λ c. written w ++ slice f offset c) (sym e)),
      )
  read_pieces-eq-ok ((start, size) ∷ rest) total offset remaining n w w'
        (at, positive, some_left, inside, _, cuts) within h =
      let (s, buf, w1, read, taken, more) =
        after_chunk-eq-ok out w (λ w''. read_pieces out rd rest (total + size) w'')
          (start % chunk_size) size (rd (start / chunk_size) (replicate chunk_size 0)) n w' h in
      let end : offset + remaining ≤ file_size = elim within [
        | inl e ↦ absurd (omega arith)
        | inr le ↦ le
      ] in
      let (count, tail) =
        read_pieces-eq-ok rest (total + size) (offset + size) (remaining - size) n w1 w' cuts
          (inr (omega arith)) more in
      let head =
        piece-written start size s buf w w1
          (subst (λ o. o % chunk_size + size ≤ chunk_size) (sym at) inside) (omega arith) read
          taken in
      let e : size + (remaining - size) ≡ remaining = omega arith in
      (
        omega arith,
        tail
            ∙ (ap (λ xs. xs ++ slice f (offset + size) (remaining - size))
                  (head ∙ ap (λ o. written w ++ slice f o size) at)
                ∙ (append_assoc (written w) (slice f offset size) _
                    ∙ ap (λ xs. written w ++ xs)
                        (sym (slice-append f offset size (remaining - size))
                          ∙ ap (slice f offset) e))),
      )

  read_chunks_pieces :
      (w : W) (offset size : ℕ) (pieces : List (ℕ × ℕ))
      → items (Chunks.new (min size (file_size - offset)) offset chunk_size) ≡ some pieces
      → read_chunks out rd w file_size offset size ≡ read_pieces out rd pieces 0 w
  unfolding read_chunks
  read_chunks_pieces w offset size pieces e = rw (e, read_chunks) refl

  -- A read of a file that serves a content, with a writer that keeps what it takes: when it returns a
  -- size, that is all that was asked for up to the file's end, and the writer holds those bytes of the
  -- content, in order.
  pub read_chunks-slice :
      (w w' : W) (offset size n : ℕ)
      → offset + size < u64_mod
      → read_chunks out rd w file_size offset size ≡ (ok n, w')
      → (n ≡ min size (file_size - offset)) × (written w' ≡ written w ++ slice f offset n)
  read_chunks-slice w w' offset size n small h =
      let remaining = min size (file_size - offset) in
      let (pieces, e, cuts) = items-Cuts remaining offset chunk_size (omega arith) (omega arith) in
      let within : (remaining ≡ 0) ⊎ (offset + remaining ≤ file_size) =
        elim (Bool-cases (leb offset file_size)) [
          | inl before ↦ inr (omega tests)
          | inr after ↦ inl (omega tests)
        ] in
      let (count, tail) =
        read_pieces-eq-ok pieces 0 offset remaining n w w' cuts within
          (sym (read_chunks_pieces w offset size pieces e) ∙ h) in
      let c : n ≡ remaining = omega arith in
      (c, tail ∙ ap (λ k. written w ++ slice f offset k) (sym c))
