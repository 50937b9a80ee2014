-- ===== src/Handles.antt =====
-- Maps from numbers (handles and inodes) as association lists in which the first entry of a number
-- counts: the hash maps of zipfuse/src/main.rs and the file pool of authfs/src/fusefs.rs.
use android_packages_modules.Common.{
  ℕ, ◌≡◌, Option, none, some, List, [], ◌∷◌, ◌==◌, if◌then◌else◌, arith,
}

abbrev pub HandleMap {ℓ} : Type ℓ → Type ℓ
HandleMap A = List (ℕ × A)

module _ {ℓ} {A : Type ℓ} where
  abbrev pub get : HandleMap A → ℕ → Option A
  get [] handle = none
  get ((key, a) ∷ rest) handle = if key == handle then some a else get rest handle

  abbrev pub insert : HandleMap A → ℕ → A → HandleMap A
  insert entries handle a = (handle, a) ∷ entries

  unfoldable pub remove : HandleMap A → ℕ → HandleMap A
  remove [] handle = []
  remove ((key, a) ∷ rest) handle =
      let others = remove rest handle in if key == handle then others else (key, a) ∷ others

  pub get-remove :
      (entries : HandleMap A) (handle other : ℕ)
      → get (remove entries handle) other ≡ (if handle == other then none else get entries other)
  unfolding remove
  get-remove [] handle other = ground arith
  get-remove ((key, a) ∷ rest) handle other = ground (arith, get-remove rest handle other)
