-- ===== src/Zip/Inode/Shape.antt =====
-- The table that `InodeTable::from_zip` builds is a tree.
use mathlib.Core.Path.{subst}
use android_packages_modules.Common.{
  ℕ, ◌<◌, ◌≡◌, ◌≢◌, refl, sym, ap, ◌∙◌, Option, none, some, Bool, true, false, not, ◌&&◌, ok,
  >>=-eq-ok, guard->>=-eq-ok, ◌==◌, bytes_eq, bytes_eq→eq, bytes_eq_refl, length, arith, Bool-cases,
  inl, inr,
}
use android_packages_modules.Zip.Inode.{
  Inode, Name, DirectoryEntry, InodeData, InodeTable, ZipFile, kind_of, dot_dot,
  dot_dot_not_allowed, find, add, set_mode, reuse, enter, new_inode, unwrap_or, c_string,
  add_component,
}
use android_packages_modules.Zip.Inode.Entries.{entry, inode_of, find-eq-ok, Childless}
use android_packages_modules.Zip.Inode.Table.{entry-add, length-add}
use android_packages_modules.Zip.Inode.Kinds.{kind_at, kind-add, entry-set_mode}

-- An entry leads to an inode of the table after the directory's own, of the kind that the entry
-- says; and no inode has two entries.
pub record IsTree (table : InodeTable) : Type 0 where
  pub descends :
      (i : Inode) (name : Name) (e : DirectoryEntry)
      → entry table i name ≡ some e
      → (i < e.inode) × (e.inode < length table)
  pub kinds :
      (i : Inode) (name : Name) (e : DirectoryEntry)
      → entry table i name ≡ some e
      → kind_at table e.inode ≡ some e.kind
  pub one_link :
      (i j : Inode) (name other : Name) (e e' : DirectoryEntry)
      → entry table i name ≡ some e
      → entry table j other ≡ some e'
      → e.inode ≡ e'.inode
      → (i ≡ j) × (name ≡ other)

-- What one element of a path does to the table: it stays a tree, its entries stay, and the name leads
-- from the parent to the inode that is returned.
pub record Entered (table : InodeTable) (parent : Inode) (name : Name) (inode : Inode)
    (table' : InodeTable) : Type 0 where
  pub tree : IsTree table → IsTree table'
  pub kept :
      (i : Inode) (other : Name) (e : DirectoryEntry)
      → entry table i other ≡ some e
      → entry table' i other ≡ some e
  pub leads : inode_of (entry table' parent name) ≡ some inode

pub none≢some : {A : Type 0} {a : A} → none ≢ some a
none≢some h = cc h

-- An entry after `add` is the new one or an old one.
pub data Which (table : InodeTable) (parent : Inode) (name : Name) (node : InodeData) (i : Inode)
    (other : Name) (e : DirectoryEntry) : Type 0 where
  new_one :
      i ≡ parent
      → name ≡ other
      → e.inode ≡ length table
      → e.kind ≡ kind_of node
      → Which table parent name node i other e
  old_one : entry table i other ≡ some e → Which table parent name node i other e

module _ (table : InodeTable) (parent : Inode) (name : Name) (node : InodeData) (inode : Inode)
    (table' : InodeTable) (childless : Childless node)
    (h : add table parent name node ≡ ok (inode, table')) where
  pub which :
      (i : Inode) (other : Name) (e : DirectoryEntry)
      → entry table' i other ≡ some e
      → Which table parent name node i other e
  which i other e at =
      let value = entry-add table parent name node inode table' childless h i other in
      elim (Bool-cases ((i == parent) && bytes_eq name other)) [
        | inl new ↦
            let ne : DirectoryEntry = record { inode = length table; kind = kind_of node } in
            let got : ne ≡ e = ground arith in
            new_one (ground arith) (bytes_eq→eq name other (ground arith))
              (ap (λ (x : DirectoryEntry). x.inode) (sym got))
              (ap (λ (x : DirectoryEntry). x.kind) (sym got))
        | inr old ↦ old_one (ground arith)
      ]

  pub add-IsTree : IsTree table → IsTree table'
  add-IsTree t =
      let (n, _, inside, free) = length-add table parent name node inode table' h in
      record {
        descends = λ i other e at. elim (which i other e at) [
          | new_one a b c d ↦ (omega arith, omega arith)
          | old_one a ↦ let (down, within) = t.descends i other e a in (down, omega arith)
        ];
        kinds = λ i other e at.
            kind-add table parent name node inode table' h e.inode ∙ elim (which i other e at) [
              | new_one a b c d ↦ ground arith
              | old_one a ↦
                  let (_, within) = t.descends i other e a in ground (arith, t.kinds i other e a)
            ];
        one_link = λ i j other other' e e' at at' same. elim (which i other e at) [
          | new_one a b c d ↦ elim (which j other' e' at') [
            | new_one a' b' c' d' ↦ (a ∙ sym a', sym b ∙ b')
            | old_one a' ↦ let (_, within) = t.descends j other' e' a' in absurd (omega arith)
          ]
          | old_one a ↦ elim (which j other' e' at') [
            | new_one a' b' c' d' ↦ let (_, within) = t.descends i other e a in absurd (omega arith)
            | old_one a' ↦ t.one_link i j other other' e e' a a' same
          ]
        ];
      }

  add-Entered : Entered table parent name inode table'
  add-Entered =
      let (n, new, inside, free) = length-add table parent name node inode table' h in
      record {
        tree = add-IsTree;
        kept = λ i other e at.
            entry-add table parent name node inode table' childless h i other
            ∙ elim (Bool-cases ((i == parent) && bytes_eq name other)) [
              | inl new ↦
                  let a : i ≡ parent = ground arith in
                  let b = bytes_eq→eq name other (ground arith) in
                  absurd (
                    none≢some (
                      sym free
                      ∙ (ap (entry table parent) b ∙ (ap (λ j. entry table j other) (sym a) ∙ at))))
              | inr old ↦ rw old at
            ];
        leads =
            ap inode_of (entry-add table parent name node inode table' childless h parent name)
            ∙ ground (arith, bytes_eq_refl name);
      }

pub new_inode-Childless :
    (i : ℕ) (zip_file : ZipFile) (is_file is_leaf : Bool)
    → Childless (new_inode i zip_file is_file is_leaf)
new_inode-Childless i zip_file true is_leaf name = refl
new_inode-Childless i zip_file false true name = refl
new_inode-Childless i zip_file false false name = refl

set_mode-Entered :
    (table table' : InodeTable) (parent found inode : Inode) (name : Name) (mode : ℕ)
    → inode_of (entry table parent name) ≡ some found
    → set_mode table found mode ≡ ok (inode, table')
    → Entered table parent name inode table'
set_mode-Entered table table' parent found inode name mode at h =
    let (n, same, entries, kinds) = entry-set_mode table table' found inode mode h in
    record {
      tree = λ t. record {
        descends = λ i other e there.
            let (down, within) = t.descends i other e (sym (entries i other) ∙ there) in
            (down, omega arith);
        kinds =
            λ i other e there. kinds e.inode ∙ t.kinds i other e (sym (entries i other) ∙ there);
        one_link = λ i j other other' e e' a a'.
            t.one_link i j other other' e e' (sym (entries i other) ∙ a)
              (sym (entries j other') ∙ a');
      };
      kept = λ i other e there. entries i other ∙ there;
      leads = ap inode_of (entries parent name) ∙ (at ∙ ap some (sym same));
    }

pub reuse_keeps :
    (table table' : InodeTable) (zip_file : ZipFile) (is_file is_leaf : Bool) (found inode : Inode)
    → (not is_file && is_leaf) ≡ false
    → reuse table zip_file is_file is_leaf found ≡ ok (inode, table')
    → (found ≡ inode) × (table ≡ table')
unfolding reuse
reuse_keeps table table' zip_file is_file is_leaf found inode keep h = (ground arith, ground arith)

enter-Entered :
    (i : ℕ) (zip_file : ZipFile) (is_file is_leaf : Bool) (table table' : InodeTable)
    (parent inode : Inode) (name : Name) (found : Option Inode)
    → found ≡ inode_of (entry table parent name)
    → enter i zip_file is_file is_leaf table parent name found ≡ ok (inode, table')
    → Entered table parent name inode table'
enter-Entered i zip_file is_file is_leaf table table' parent inode name none at h =
    add-Entered table parent name (new_inode i zip_file is_file is_leaf) inode table'
      (new_inode-Childless i zip_file is_file is_leaf) h
enter-Entered i zip_file is_file is_leaf table table' parent inode name (some found) at h =
    elim (Bool-cases (not is_file && is_leaf)) [
      | inl update ↦
          set_mode-Entered table table' parent found inode name (unwrap_or zip_file.unix_mode 0)
            (sym at) (unfold reuse in ground arith)
      | inr keep ↦
          let (same_inode, same) =
            reuse_keeps table table' zip_file is_file is_leaf found inode keep h in
          record {
            tree = λ t. subst IsTree same t;
            kept = λ i other e there. ap (λ t. entry t i other) (sym same) ∙ there;
            leads =
                ap (λ t. inode_of (entry t parent name)) (sym same) ∙ (sym at ∙ ap some same_inode);
          }
    ]

pub c_string-eq-ok : (name c_name : Name) → c_string name ≡ ok c_name → c_name ≡ name
unfolding c_string
c_string-eq-ok name c_name h = ground arith

pub add_component-Entered :
    (i : ℕ) (zip_file : ZipFile) (is_leaf : Bool) (table table' : InodeTable) (parent inode : Inode)
    (name : Name)
    → add_component i zip_file is_leaf table parent name ≡ ok (inode, table')
    → Entered table parent name inode table'
unfolding add_component
add_component-Entered i zip_file is_leaf table table' parent inode name h =
    let (_, a) = guard->>=-eq-ok (not (bytes_eq name dot_dot)) dot_dot_not_allowed _ h in
    let (c_name, b, c) = >>=-eq-ok (c_string name) _ a in
    let same = c_string-eq-ok name c_name b in
    let (found, d, e) = >>=-eq-ok (find table parent c_name) _ c in
    let (_, _, _, _, value) = find-eq-ok table parent c_name found d in
    subst (λ n. Entered table parent n inode table') same
      (enter-Entered i zip_file (zip_file.is_file && is_leaf) is_leaf table table' parent inode
        c_name found value e)
