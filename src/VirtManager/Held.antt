-- ===== src/VirtManager/Held.antt =====
-- virtmanager/src/aidl.rs: dropping a reference that the service holds. `get_cid` is the call of the
-- held VM.
use mathlib.Core.List.{Permᴰ}
use mathlib.Core.List.Permᴰ
use android_packages_modules.Common.{
  ℕ, zero, suc, ℤ, int_eq, ◌≡◌, refl, Option, none, some, Bool, true, false, List, [], ◌∷◌, Outcome,
  ok, err, panic, stuck, if◌then◌else◌, Bool-cases, inl, inr, All, get_elem?, set,
}
use android_packages_modules.VirtManager.{
  State, StatusCode, permission_denied, debug_access_allowed,
}

abbrev next_position : Option ℕ → Option ℕ
next_position none = none
next_position (some i) = some (suc i)

module _ {V : Type 0} where
  abbrev pub last_of : V → List V → V
  last_of x [] = x
  last_of x (y ∷ ys) = last_of y ys

  abbrev pub but_last : V → List V → List V
  but_last x [] = []
  but_last x (y ∷ ys) = x ∷ but_last y ys

  -- `swap_remove`: the element at `pos` is taken out, and the last element takes its place.
  abbrev pub swap_remove : List V → ℕ → List V
  swap_remove [] pos = []
  swap_remove (x ∷ xs) pos = set (but_last x xs) pos (last_of x xs)

  -- `iter().position(test)`
  unfoldable pub position : (V → Bool) → List V → Option ℕ
  position test [] = none
  position test (x ∷ xs) =
      let later = next_position (position test xs) in if test x then some 0 else later

  module _ (get_cid : V → Outcome StatusCode ℤ) where
    abbrev is_ok : ℤ → Outcome StatusCode ℤ → Bool
    is_ok cid (ok found) = int_eq found cid
    is_ok cid (err e) = false
    is_ok cid panic = false
    is_ok cid stuck = false

    -- `vm.getCid() == Ok(cid)`
    abbrev pub has_cid : ℤ → V → Bool
    has_cid cid vm = is_ok cid (get_cid vm)

    abbrev pub drop_at : State V → Option ℕ → Option V × State V
    drop_at self none = (none, self)
    drop_at self (some pos) = (
      get_elem? self.debug_held_vms pos,
      record self { debug_held_vms = swap_remove self.debug_held_vms pos },
    )

    unfoldable pub debug_drop_vm : ℤ → State V → Option V × State V
    unfolding position
    debug_drop_vm cid self = drop_at self (position (has_cid cid) self.debug_held_vms)

    unfoldable pub debug_drop_vm_ref : ℕ → ℤ → State V → Outcome StatusCode (Option V) × State V
    unfolding debug_drop_vm
    debug_drop_vm_ref uid cid self =
        let dropped = debug_drop_vm cid self in
        if debug_access_allowed uid
        then (ok dropped.0, dropped.1)
        else (err permission_denied, self)

    -- What a call returns and leaves: a VM of that CID and the other VMs, or nothing when no VM that
    -- is held has the CID.
    pub data Dropped (cid : ℤ) (self : State V) : Option V × State V → Type 0 where
      found :
          (vm : V) (rest : List V)
          → has_cid cid vm ≡ true
          → Permᴰ self.debug_held_vms (vm ∷ rest)
          → Dropped cid self (some vm, record self { debug_held_vms = rest })
      missing :
          All (λ vm. has_cid cid vm ≡ false) self.debug_held_vms → Dropped cid self (none, self)

  last-Permᴰ : (x : V) (xs : List V) → Permᴰ (x ∷ xs) (last_of x xs ∷ but_last x xs)
  last-Permᴰ x [] = Permᴰ.refl (x ∷ [])
  last-Permᴰ x (y ∷ ys) = Permᴰ.trans (Permᴰ.cons refl (last-Permᴰ y ys)) (Permᴰ.swap refl refl)

  swap_remove-Permᴰ :
      (xs : List V) (pos : ℕ) (x : V)
      → get_elem? xs pos ≡ some x
      → Permᴰ xs (x ∷ swap_remove xs pos)
  swap_remove-Permᴰ [] pos x h = cc h
  swap_remove-Permᴰ (y ∷ []) zero x h = Permᴰ.cons (cc h) Permᴰ.nil
  swap_remove-Permᴰ (y ∷ []) (suc pos) x h = cc h
  swap_remove-Permᴰ (y ∷ z ∷ zs) zero x h = Permᴰ.cons (cc h) (last-Permᴰ z zs)
  swap_remove-Permᴰ (y ∷ z ∷ zs) (suc pos) x h =
      Permᴰ.trans (Permᴰ.cons refl (swap_remove-Permᴰ (z ∷ zs) pos x h)) (Permᴰ.swap refl refl)

  -- What `position` finds.
  data Found (test : V → Bool) (xs : List V) : Option ℕ → Type 0 where
    at : (pos : ℕ) (x : V) → get_elem? xs pos ≡ some x → test x ≡ true → Found test xs (some pos)
    nowhere : All (λ x. test x ≡ false) xs → Found test xs none

  next-Found :
      (test : V → Bool) (x : V) (xs : List V) (later : Option ℕ)
      → test x ≡ false
      → Found test xs later
      → Found test (x ∷ xs) (next_position later)
  next-Found test x xs later fails (at pos y there holds) = at (suc pos) y there holds
  next-Found test x xs later fails (nowhere all) = nowhere (fails, all)

  position-Found : (test : V → Bool) (xs : List V) → Found test xs (position test xs)
  unfolding position
  position-Found test [] = nowhere tt
  position-Found test (x ∷ xs) = elim (Bool-cases (test x)) [
    | inl holds ↦ rw (holds) (at 0 x refl holds)
    | inr fails ↦
        rw (fails) (next-Found test x xs (position test xs) fails (position-Found test xs))
  ]

  drop_at-Dropped :
      (get_cid : V → Outcome StatusCode ℤ) (cid : ℤ) (self : State V) (pos : Option ℕ)
      → Found (has_cid get_cid cid) self.debug_held_vms pos
      → Dropped get_cid cid self (drop_at get_cid self pos)
  drop_at-Dropped get_cid cid self pos (at i vm there holds) = rw (there) (
      found vm (swap_remove self.debug_held_vms i) holds
        (swap_remove-Permᴰ self.debug_held_vms i vm there))
  drop_at-Dropped get_cid cid self pos (nowhere all) = missing all

  -- Dropping a reference takes one held VM of the CID out and keeps all the others, in some order; when
  -- no held VM has the CID nothing changes. The other fields of the state stay.
  pub debug_drop_vm-Dropped :
      (get_cid : V → Outcome StatusCode ℤ) (cid : ℤ) (self : State V)
      → Dropped get_cid cid self (debug_drop_vm get_cid cid self)
  unfolding debug_drop_vm
  debug_drop_vm-Dropped get_cid cid self =
      drop_at-Dropped get_cid cid self (position (has_cid get_cid cid) self.debug_held_vms)
        (position-Found (has_cid get_cid cid) self.debug_held_vms)
