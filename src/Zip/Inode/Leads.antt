-- ===== src/Zip/Inode/Leads.antt =====
-- The paths of the inodes of the table that `InodeTable::from_zip` builds: each inode has one.
use mathlib.Core.Path.{subst}
use mathlib.Core.List.{append_assoc, append-nil}
use android_packages_modules.Common.{
  ℕ, ◌<◌, ◌≤◌, ◌≡◌, refl, sym, ap, ◌∙◌, Option, none, some, Bool, ◌&&◌, not, List, [], ◌∷◌, ◌++◌,
  ok, >>=-eq-ok, guard->>=-eq-ok, bytes_eq, arith, inl, inr, ◌⊎◌, Option-cases, Bool-cases, length,
}
use android_packages_modules.Zip.Inode.{
  Inode, Name, DirectoryEntry, InodeData, InodeTable, ZipFile, root, add, add_component, new_inode,
  enter, unwrap_or, set_mode, reuse, dot_dot, dot_dot_not_allowed, c_string, find,
}
use android_packages_modules.Zip.Inode.Kinds.{zip_index_at, zip_index-set_mode, entry-set_mode}
use android_packages_modules.Zip.Inode.Entries.{entry, Childless}
use android_packages_modules.Zip.Inode.Table.{length-add}
use android_packages_modules.Zip.Inode.Shape.{
  IsTree, new_one, old_one, which, add-IsTree, none≢some, c_string-eq-ok, reuse_keeps,
}
use android_packages_modules.Zip.Inode.Paths.{walk, step_some, step_none}

-- The path from the root to an inode, from its end.
pub data Leads (table : InodeTable) : List Name → Inode → Type 0 where
  at_root : Leads table [] root
  below :
      (path : List Name) (i : Inode) (name : Name) (e : DirectoryEntry)
      → Leads table path i
      → entry table i name ≡ some e
      → Leads table (path ++ (name ∷ [])) e.inode

pub walk-Leads :
    (table : InodeTable) (before : List Name) (i q : Inode) (path : List Name)
    → Leads table before i
    → walk table i path ≡ some q
    → Leads table (before ++ path) q
walk-Leads table before i q [] l h =
    let same : i ≡ q = cc h in
    subst (λ j. Leads table (before ++ []) j) same
      (subst (λ p. Leads table p i) (sym (append-nil before)) l)
walk-Leads table before i q (name ∷ rest) l h = elim (Option-cases (entry table i name)) [
  | inl gone ↦ absurd (none≢some (sym (step_none table i name rest gone) ∙ h))
  | inr (e, at) ↦
      subst (λ p. Leads table p q) (append_assoc before (name ∷ []) rest)
        (walk-Leads table (before ++ (name ∷ [])) e.inode q rest (below before i name e l at)
          (sym (step_some table i name rest e at) ∙ h))
]

pub Leads-positive :
    (table : InodeTable) (path : List Name) (q : Inode) → IsTree table → Leads table path q → 1 ≤ q
Leads-positive table path q t at_root = omega arith
Leads-positive table path q t (below p i name e l at) =
    let (down, within) = t.descends i name e at in omega arith

pub Leads-lt :
    (table : InodeTable) (path : List Name) (q : Inode)
    → IsTree table
    → 1 < length table
    → Leads table path q
    → q < length table
Leads-lt table path q t h at_root = h
Leads-lt table path q t h (below p i name e l at) = (t.descends i name e at).1

-- In a tree an inode has one path.
Leads-unique :
    (table : InodeTable) (path other : List Name) (q r : Inode)
    → IsTree table
    → Leads table path q
    → Leads table other r
    → q ≡ r
    → path ≡ other
Leads-unique table path other q r t at_root at_root e = refl
Leads-unique table path other q r t at_root (below p i n d l at) e =
    let (down, within) = t.descends i n d at in
    let pos = Leads-positive table p i t l in absurd (omega arith)
Leads-unique table path other q r t (below p i n d l at) at_root e =
    let (down, within) = t.descends i n d at in
    let pos = Leads-positive table p i t l in absurd (omega arith)
Leads-unique table path other q r t (below p i n d l at) (below p' j n' d' l' at') e =
    let (same, name) = t.one_link i j n n' d d' at at' e in
    let up = Leads-unique table p p' i j t l l' same in cc (up, name)

-- What one element of a path does: it adds an inode, or changes no entry and no index.
pub data Component (i : ℕ) (zip_file : ZipFile) (is_leaf : Bool) (table : InodeTable)
    (parent : Inode) (name : Name) (inode : Inode) (table' : InodeTable) : Type 0 where
  added :
      add table parent name (new_inode i zip_file (zip_file.is_file && is_leaf) is_leaf)
        ≡ ok (inode, table')
      → Component i zip_file is_leaf table parent name inode table'
  unchanged :
      ((j : Inode) (other : Name) → entry table' j other ≡ entry table j other)
      → ((j : Inode) → zip_index_at table' j ≡ zip_index_at table j)
      → Component i zip_file is_leaf table parent name inode table'

enter-Component :
    (i : ℕ) (zip_file : ZipFile) (is_leaf : Bool) (table table' : InodeTable) (parent inode : Inode)
    (name : Name) (found : Option Inode)
    → enter i zip_file (zip_file.is_file && is_leaf) is_leaf table parent name found
      ≡ ok (inode, table')
    → Component i zip_file is_leaf table parent name inode table'
enter-Component i zip_file is_leaf table table' parent inode name none h = added h
enter-Component i zip_file is_leaf table table' parent inode name (some found) h =
    let is_file = zip_file.is_file && is_leaf in
    elim (Bool-cases (not is_file && is_leaf)) [
      | inl update ↦
          let set : set_mode table found (unwrap_or zip_file.unix_mode 0) ≡ ok (inode, table') =
            unfold reuse in ground arith in
          let (_, _, entries, _) = entry-set_mode table table' found inode _ set in
          unchanged entries (zip_index-set_mode table table' found inode _ set)
      | inr keep ↦
          let (_, same) = reuse_keeps table table' zip_file is_file is_leaf found inode keep h in
          unchanged (λ j other. ap (λ t. entry t j other) (sym same))
            (λ j. ap (λ t. zip_index_at t j) (sym same))
    ]

pub add_component-Component :
    (i : ℕ) (zip_file : ZipFile) (is_leaf : Bool) (table table' : InodeTable) (parent inode : Inode)
    (name : Name)
    → add_component i zip_file is_leaf table parent name ≡ ok (inode, table')
    → Component i zip_file is_leaf table parent name inode table'
unfolding add_component
add_component-Component i zip_file is_leaf table table' parent inode name h =
    let (_, a) = guard->>=-eq-ok (not (bytes_eq name dot_dot)) dot_dot_not_allowed _ h in
    let (c_name, b, c) = >>=-eq-ok (c_string name) _ a in
    let (found, _, e) = >>=-eq-ok (find table parent c_name) _ c in
    subst (λ n. Component i zip_file is_leaf table parent n inode table')
      (c_string-eq-ok name c_name b)
      (enter-Component i zip_file is_leaf table table' parent inode c_name found e)

-- A path after `add` leads where it did, or is the new one.
module _ (table : InodeTable) (parent : Inode) (name : Name) (node : InodeData) (inode : Inode)
    (table' : InodeTable) (childless : Childless node)
    (h : add table parent name node ≡ ok (inode, table')) (t : IsTree table) (before : List Name)
    (l : Leads table before parent) where
  pub Leads-add :
      (path : List Name) (q : Inode)
      → Leads table' path q
      → Leads table path q ⊎ ((q ≡ length table) × (path ≡ before ++ (name ∷ [])))
  Leads-add path q at_root = inl at_root
  Leads-add path q (below p i n e up at) =
      let (len, _, inside, _) = length-add table parent name node inode table' h in
      let (down, within) =
        (add-IsTree table parent name node inode table' childless h t).descends i n e at in
      elim (Leads-add p i up) [
        | inl old ↦ elim (which table parent name node inode table' childless h i n e at) [
          | new_one a b c d ↦
              let same = Leads-unique table p before i parent t old l a in inr (c, cc (same, b))
          | old_one there ↦ inl (below p i n e old there)
        ]
        | inr (new, _) ↦ absurd (omega arith)
      ]

pub Leads-kept :
    (table table' : InodeTable) (path : List Name) (q : Inode)
    → ((i : Inode) (name : Name) (e : DirectoryEntry)
        → entry table i name ≡ some e
        → entry table' i name ≡ some e)
    → Leads table path q
    → Leads table' path q
Leads-kept table table' path q kept at_root = at_root
Leads-kept table table' path q kept (below p i n e l at) =
    below p i n e (Leads-kept table table' p i kept l) (kept i n e at)
