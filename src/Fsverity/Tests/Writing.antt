-- ===== src/Fsverity/Tests/Writing.antt =====
-- Writing and resizing.
use android_packages_modules.Common.{
  ℕ, ◌≡◌, refl, ap, ok, some, List, [], ◌∷◌, arith, replicate, take, get_elem?, drop, Outcome, ◌++◌,
  sym, ◌∙◌, zero, suc,
}
use android_packages_modules.Crypto.{hash_of_4096_zeros}
use android_packages_modules.Crypto.Toy.{toy, toy_digest, toy-IsSha256}
use android_packages_modules.File.{IoError}
use android_packages_modules.Fsverity.Merkle.{MerkleLeaves, calculate_root_hash}
use android_packages_modules.Fsverity.Merkle.Root.{IsRoot, calculate_root_hash-IsRoot}
use android_packages_modules.Fsverity.Merkle
use android_packages_modules.Fsverity.Editor.{VerifiedFileEditor, new, write_at, resize}
use android_packages_modules.Fsverity.Editor.Content.{Content, chunk_of, chunk_of_zero}
use android_packages_modules.Fsverity.Editor.Content.Truncate.{truncate}
use android_packages_modules.Fsverity.Editor.Tracks.{Tracks}
use android_packages_modules.Fsverity.Editor.Write.{Wrote, write_at-Wrote}
use android_packages_modules.Fsverity.Editor.Resize.{
  HonestTail, TracksSized, resize-TracksSized, resize_unverified,
}
use android_packages_modules.File.Ram.{ram_reader, ram_writer}

abbrev two_leaves : MerkleLeaves
two_leaves = record { leaves = hash_of_4096_zeros ∷ hash_of_4096_zeros ∷ []; file_size = 5000 }

calculate_root_hash-IsRoot_example :
    (root : List ℕ) × (calculate_root_hash toy two_leaves ≡ ok root)
    × IsRoot toy_digest two_leaves.leaves root
calculate_root_hash-IsRoot_example =
    calculate_root_hash-IsRoot toy-IsSha256 two_leaves (omega arith) (omega arith)

-- A file of zeros.
abbrev hole : Content
hole i = 0

new-Tracks : Tracks toy_digest hole (new {F = List ℕ} []).merkle_tree
unfolding new Merkle.new
new-Tracks = record { hashes = λ k hash at. cc at; zeros = λ i lo. refl }

write_at-Wrote_example :
    Wrote toy_digest hole 2
      (1 ∷ 2 ∷ 3 ∷ [])
      (write_at toy ram_reader ram_writer (1 ∷ 2 ∷ 3 ∷ []) 2 (new []))
write_at-Wrote_example =
    write_at-Wrote toy-IsSha256 ram_reader ram_writer hole (1 ∷ 2 ∷ 3 ∷ []) 2 (new []) (omega arith)
      new-Tracks

abbrev zeros_editor : VerifiedFileEditor (List ℕ)
zeros_editor = record {
  file = [];
  merkle_tree = record { leaves = hash_of_4096_zeros ∷ []; file_size = 10 };
}

hole-HonestTail : HonestTail toy-IsSha256 ram_reader ram_writer hole zeros_editor 5
hole-HonestTail s bytes read =
    let same : drop 0 (replicate 4096 0) ≡ bytes = cc read in
    ap (take 5) (sym same ∙ sym (chunk_of_zero hole 0 (λ i lo. refl)))

zeros_leaf :
    (k : ℕ) (hash : List ℕ)
    → get_elem? zeros_editor.merkle_tree.leaves k ≡ some hash
    → hash ≡ toy_digest (chunk_of hole k)
zeros_leaf zero hash at =
    let same : hash_of_4096_zeros ≡ hash = cc at in
    sym same
    ∙ (sym toy-IsSha256.zeros_lem ∙ ap toy_digest (sym (chunk_of_zero hole 0 (λ i lo. refl))))
zeros_leaf (suc k) hash at = cc at

zeros_editor-Tracks : Tracks toy_digest hole zeros_editor.merkle_tree
zeros_editor-Tracks = record { hashes = zeros_leaf; zeros = λ i lo. refl }

abbrev zeros_resized : Outcome IoError (Unit {0}) × VerifiedFileEditor (List ℕ)
zeros_resized = resize toy ram_reader ram_writer zeros_editor 5

zeros_resized-ok : zeros_resized ≡ (ok tt, zeros_resized.1)
zeros_resized-ok =
    let (done, _) =
      resize_unverified toy-IsSha256 ram_reader ram_writer zeros_editor 5 0
        (drop 0 (replicate 4096 0)) (replicate 5 0) (omega arith) (omega arith) (omega arith) refl
        refl in
    ap (λ r. (r, zeros_resized.1)) done

resize-TracksSized_example : TracksSized toy_digest (truncate hole 5) 5 zeros_resized.1.merkle_tree
resize-TracksSized_example =
    resize-TracksSized toy-IsSha256 ram_reader ram_writer hole zeros_editor zeros_resized.1 5
      (omega arith) zeros_editor-Tracks (λ i lo. refl) hole-HonestTail zeros_resized-ok

-- The storage returns other bytes than those that were hashed.
abbrev other_editor : VerifiedFileEditor (List ℕ)
other_editor = record { file = 9 ∷ []; merkle_tree = zeros_editor.merkle_tree }

resize_unverified_example :
    ((resize toy ram_reader ram_writer other_editor 5).0 ≡ ok tt)
    × (get_elem? (resize toy ram_reader ram_writer other_editor 5).1.merkle_tree.leaves 0
        ≡ some (toy_digest (take 5 (9 ∷ drop 1 (replicate 4096 0)) ++ replicate 4091 0)))
resize_unverified_example =
    resize_unverified toy-IsSha256 ram_reader ram_writer other_editor 5 1
      (9 ∷ drop 1 (replicate 4096 0)) (9 ∷ replicate 4 0) (omega arith) (omega arith) (omega arith)
      refl refl
