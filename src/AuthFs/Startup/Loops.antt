-- ===== src/AuthFs/Startup/Loops.antt =====
-- What the loops of prepare_file_pool in authfs/src/main.rs do to the pool.
use mathlib.Core.List.{Memᴰ}
use mathlib.Core.Path.{subst}
use android_packages_modules.Common.{
  ℕ, ◌≡◌, refl, some, List, [], ◌∷◌, Outcome, ok, ◌==◌, inl, inr, All, arith, Bool-cases, >>=-eq-ok,
  ==→eq,
}
use android_packages_modules.Handles.{HandleMap}
use android_packages_modules.Handles
use android_packages_modules.AuthFs.{Inode}
use android_packages_modules.AuthFs.Startup.{StartError, insert_files}

module _ {A : Type 0} where
  -- Every file of the pool is one of `Q`.
  abbrev pub Holds : (Inode → A → Type 0) → HandleMap A → Type 0
  Holds Q pool = (inode : ℕ) (file : A) → Handles.get pool inode ≡ some file → Q inode file

  pub insert-Holds :
      (Q : Inode → A → Type 0) (pool : HandleMap A) (inode : ℕ) (file : A)
      → Q inode file
      → Holds Q pool
      → Holds Q (Handles.insert pool inode file)
  insert-Holds Q pool inode file q all other found at = elim (Bool-cases (inode == other)) [
    | inl here ↦
        let same : file ≡ found = ground arith in
        subst (λ i. Q i found) (==→eq inode other here) (subst (λ f. Q inode f) same q)
    | inr away ↦ all other found (ground arith)
  ]

  -- A loop keeps what holds of the files when it holds of those that the loop opens.
  pub insert_files-Holds :
      {C : Type 0} (Q : Inode → A → Type 0) (ino : C → Inode) (opened : C → Outcome StartError A)
      (configs : List C) (pool : HandleMap A) {after : HandleMap A}
      → ((config : C) (file : A)
          → Memᴰ config configs
          → opened config ≡ ok file
          → Q (ino config) file)
      → Holds Q pool
      → insert_files ino opened configs pool ≡ ok after
      → Holds Q after
  unfolding insert_files
  insert_files-Holds Q ino opened [] pool {after} q all h =
      let same : pool ≡ after = cc h in subst (λ p. Holds Q p) same all
  insert_files-Holds Q ino opened (config ∷ rest) pool q all h =
      let (file, at, loop) =
        >>=-eq-ok (opened config)
          (λ file. insert_files ino opened rest (Handles.insert pool (ino config) file)) h in
      insert_files-Holds Q ino opened rest (Handles.insert pool (ino config) file)
        (λ c f m. q c f (Memᴰ.tail m))
        (insert-Holds Q pool (ino config) file (q config file (Memᴰ.head refl) at) all) loop

  -- The pool has a file for the inode.
  abbrev pub HasFile : HandleMap A → Inode → Type 0
  HasFile pool inode = (file : A) × (Handles.get pool inode ≡ some file)

  insert-HasFile :
      (pool : HandleMap A) (inode other : ℕ) (file : A)
      → HasFile pool other
      → HasFile (Handles.insert pool inode file) other
  insert-HasFile pool inode other file (found, at) = elim (Bool-cases (inode == other)) [
    | inl here ↦ (file, ground arith)
    | inr away ↦ (found, ground arith)
  ]

  pub insert_files-HasFile :
      {C : Type 0} (ino : C → Inode) (opened : C → Outcome StartError A) (configs : List C)
      (pool : HandleMap A) {after : HandleMap A} (inode : Inode)
      → insert_files ino opened configs pool ≡ ok after
      → HasFile pool inode
      → HasFile after inode
  unfolding insert_files
  insert_files-HasFile ino opened [] pool {after} inode h (file, at) = (file, cc (h, at))
  insert_files-HasFile ino opened (config ∷ rest) pool inode h has =
      let (file, _, loop) =
        >>=-eq-ok (opened config)
          (λ file. insert_files ino opened rest (Handles.insert pool (ino config) file)) h in
      insert_files-HasFile ino opened rest (Handles.insert pool (ino config) file) inode loop
        (insert-HasFile pool (ino config) inode file has)

  pub All-HasFile :
      {C D : Type 0} (ino : C → Inode) (opened : C → Outcome StartError A) (configs : List C)
      (pool : HandleMap A) {after : HandleMap A} (of : D → Inode) (others : List D)
      → insert_files ino opened configs pool ≡ ok after
      → All (λ d. HasFile pool (of d)) others
      → All (λ d. HasFile after (of d)) others
  All-HasFile ino opened configs pool of [] h all = tt
  All-HasFile ino opened configs pool of (d ∷ others) h (has, all) = (
    insert_files-HasFile ino opened configs pool (of d) h has,
    All-HasFile ino opened configs pool of others h all,
  )

  -- A loop leaves a file for each of its configs.
  pub insert_files-All :
      {C : Type 0} (ino : C → Inode) (opened : C → Outcome StartError A) (configs : List C)
      (pool : HandleMap A) {after : HandleMap A}
      → insert_files ino opened configs pool ≡ ok after
      → All (λ c. HasFile after (ino c)) configs
  unfolding insert_files
  insert_files-All ino opened [] pool h = tt
  insert_files-All ino opened (config ∷ rest) pool h =
      let (file, _, loop) =
        >>=-eq-ok (opened config)
          (λ file. insert_files ino opened rest (Handles.insert pool (ino config) file)) h in
      (
        insert_files-HasFile ino opened rest (Handles.insert pool (ino config) file) (ino config)
            loop (file, ground arith),
        insert_files-All ino opened rest (Handles.insert pool (ino config) file) loop,
      )
