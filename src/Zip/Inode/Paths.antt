-- ===== src/Zip/Inode/Paths.antt =====
-- The path of every entry of the archive leads to an inode of the table that `InodeTable::from_zip`
-- builds.
use mathlib.Core.Path.{subst}
use android_packages_modules.Common.{
  ℕ, zero, suc, ◌+◌, ◌<◌, ◌≤◌, ◌≡◌, refl, sym, ap, ◌∙◌, Option, none, some, List, [], ◌∷◌, ok,
  >>=-eq-ok, ok_or, arith, inl, inr, Option-cases, Bool-cases, tests, ◌==◌,
}
use android_packages_modules.Zip.Inode.{
  Inode, Name, DirectoryEntry, InodeTable, FromZipError, ZipFile, ZipArchive, invalid_name, root,
  is_empty, add_component, add_path, add_file, add_files, from_zip, new_dir, get,
}
use android_packages_modules.Zip.Inode.Entries.{entry, inode_of}
use android_packages_modules.Zip.Inode.Shape.{IsTree, add_component-Entered, none≢some}

-- The inode that a path leads to, from one inode on.
abbrev pub walk : InodeTable → Inode → List Name → Option Inode
walk table i [] = some i
walk table i (name ∷ rest) = elim (entry table i name) [
  | none ↦ none
  | some e ↦ walk table e.inode rest
]

-- A table whose entries include those of another leads every path to where the other does.
pub record Grown (table table' : InodeTable) : Type 0 where
  pub tree : IsTree table → IsTree table'
  pub kept :
      (i : Inode) (name : Name) (e : DirectoryEntry)
      → entry table i name ≡ some e
      → entry table' i name ≡ some e

Grown-trans : (a b c : InodeTable) → Grown a b → Grown b c → Grown a c
Grown-trans a b c g h = record {
  tree = λ t. h.tree (g.tree t);
  kept = λ i name e at. h.kept i name e (g.kept i name e at);
}

pub step_some :
    (table : InodeTable) (i : Inode) (name : Name) (rest : List Name) (e : DirectoryEntry)
    → entry table i name ≡ some e
    → walk table i (name ∷ rest) ≡ walk table e.inode rest
step_some table i name rest e at = rw (at, walk) refl

pub step_none :
    (table : InodeTable) (i : Inode) (name : Name) (rest : List Name)
    → entry table i name ≡ none
    → walk table i (name ∷ rest) ≡ none
step_none table i name rest at = rw (at, walk) refl

walk-Grown :
    (table table' : InodeTable) (i q : Inode) (path : List Name)
    → Grown table table'
    → walk table i path ≡ some q
    → walk table' i path ≡ some q
walk-Grown table table' i q [] g h = h
walk-Grown table table' i q (name ∷ rest) g h = elim (Option-cases (entry table i name)) [
  | inl gone ↦ absurd (none≢some (sym (step_none table i name rest gone) ∙ h))
  | inr (e, at) ↦
      step_some table' i name rest e (g.kept i name e at)
      ∙ walk-Grown table table' e.inode q rest g (sym (step_some table i name rest e at) ∙ h)
]

pub inode_of-some :
    (o : Option DirectoryEntry) (q : Inode)
    → inode_of o ≡ some q
    → (e : DirectoryEntry) × (o ≡ some e) × (e.inode ≡ q)
inode_of-some none q h = cc h
inode_of-some (some e) q h = (e, refl, cc h)

pub ok_or-some {ℓ} : {E A : Type ℓ} (o : Option A) (e : E) {a : A} → ok_or o e ≡ ok a → o ≡ some a
ok_or-some none e h = cc h
ok_or-some (some a) e h = cc h

-- One path: the table grows, and the path leads to an inode.
add_path-walk :
    (i : ℕ) (zip_file : ZipFile) (table table' : InodeTable) (parent : Inode) (path : List Name)
    → add_path i zip_file table parent path ≡ ok table'
    → Grown table table' × ((q : Inode) × (walk table' parent path ≡ some q))
unfolding add_path
add_path-walk i zip_file table table' parent [] h =
    let same : table ≡ table' = cc h in
    (
      record {
        tree = λ t. subst IsTree same t;
        kept = λ j name e at. ap (λ t. entry t j name) (sym same) ∙ at;
      },
      (parent, refl),
    )
add_path-walk i zip_file table table' parent (name ∷ rest) h =
    let (next, step, more) =
      >>=-eq-ok (add_component i zip_file (is_empty rest) table parent name) _ h in
    let entered =
      add_component-Entered i zip_file (is_empty rest) table next.1 parent next.0 name step in
    let (grown, (q, leads)) = add_path-walk i zip_file next.1 table' next.0 rest more in
    let (e, at, inode) = inode_of-some (entry next.1 parent name) next.0 entered.leads in
    (
      Grown-trans table next.1 table' (record { tree = entered.tree; kept = entered.kept }) grown,
      (
        q,
        step_some table' parent name rest e (grown.kept parent name e at)
            ∙ (ap (λ j. walk table' j rest) inode ∙ leads),
      ),
    )

-- Where a file of the archive is found.
abbrev pub Found : InodeTable → ZipArchive → ℕ → Type 0
Found table archive i =
    (zip_file : ZipFile) (path : List Name)
    → archive.by_index i ≡ ok zip_file
    → zip_file.enclosed_name ≡ some path
    → (q : Inode) × (walk table root path ≡ some q)

pub add_file-Found :
    (archive : ZipArchive) (i : ℕ) (table table' : InodeTable)
    → add_file archive i table ≡ ok table'
    → Grown table table' × Found table' archive i
unfolding add_file
add_file-Found archive i table table' h =
    let (file, a, b) = >>=-eq-ok (archive.by_index i) _ h in
    let (names, c, d) =
      >>=-eq-ok (ok_or {E = FromZipError} file.enclosed_name (invalid_name file.name)) _ b in
    let (grown, walked) = add_path-walk i file table table' root names d in
    (
      grown,
      λ zip_file path at there.
          let same : file ≡ zip_file = cc (a, at) in
          let named : some names ≡ some path =
            sym (ok_or-some file.enclosed_name (invalid_name file.name) c)
            ∙ (ap (λ (f : ZipFile). f.enclosed_name) same ∙ there) in
          let path_same : names ≡ path = cc named in
          (walked.0, ap (walk table' root) (sym path_same) ∙ walked.1),
    )

add_files-Found :
    (archive : ZipArchive) (count first : ℕ) (table table' : InodeTable)
    → add_files archive count first table ≡ ok table'
    → Grown table table' × ((i : ℕ) → first ≤ i → i < first + count → Found table' archive i)
unfolding add_files
add_files-Found archive zero first table table' h =
    let same : table ≡ table' = cc h in
    (
      record {
        tree = λ t. subst IsTree same t;
        kept = λ j name e at. ap (λ t. entry t j name) (sym same) ∙ at;
      },
      λ i lo hi. absurd (omega arith),
    )
add_files-Found archive (suc count) first table table' h =
    let (next, a, b) = >>=-eq-ok (add_file archive first table) _ h in
    let (grown, found) = add_file-Found archive first table next a in
    let (later, others) = add_files-Found archive count (first + 1) next table' b in
    (
      Grown-trans table next table' grown later,
      λ i lo hi. elim (Bool-cases (i == first)) [
        | inl here ↦ λ zip_file path at there.
            let same : i ≡ first = omega tests in
            let (q, leads) = found zip_file path (ap archive.by_index (sym same) ∙ at) there in
            (q, walk-Grown next table' root q path later leads)
        | inr away ↦ others i (omega tests) (omega tests)
      ],
    )

abbrev pub start : InodeTable
start = new_dir 0 ∷ new_dir 0 ∷ []

pub no_entries : (i : Inode) (name : Name) → entry start i name ≡ none
unfolding get
no_entries zero name = refl
no_entries (suc zero) name = refl
no_entries (suc (suc i)) name = ground arith

pub start-IsTree : IsTree start
start-IsTree = record {
  descends = λ i name e at. absurd (none≢some (sym (no_entries i name) ∙ at));
  kinds = λ i name e at. absurd (none≢some (sym (no_entries i name) ∙ at));
  one_link = λ i j name other e e' at. absurd (none≢some (sym (no_entries i name) ∙ at));
}

-- When `from_zip` returns a table, the path of each entry of the archive leads to an inode.
pub from_zip-walk :
    (archive : ZipArchive) (table : InodeTable) (i : ℕ) (zip_file : ZipFile) (path : List Name)
    → from_zip archive ≡ ok table
    → i < archive.len
    → archive.by_index i ≡ ok zip_file
    → zip_file.enclosed_name ≡ some path
    → (q : Inode) × (walk table root path ≡ some q)
unfolding from_zip
from_zip-walk archive table i zip_file path h inside at named =
    let (_, found) = add_files-Found archive archive.len 0 start table h in
    found i (omega arith) (omega arith) zip_file path at named

-- When `from_zip` returns a table, the table is a tree: entries lead to inodes of the table after the
-- directory's own and have the kind of the inode, and no inode has two entries.
pub from_zip-IsTree :
    (archive : ZipArchive) (table : InodeTable) → from_zip archive ≡ ok table → IsTree table
unfolding from_zip
from_zip-IsTree archive table h =
    let (grown, _) = add_files-Found archive archive.len 0 start table h in grown.tree start-IsTree
