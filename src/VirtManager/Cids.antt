-- ===== src/VirtManager/Cids.antt =====
-- No CID is given to two VMs by virtmanager/src/aidl.rs.
use mathlib.Core.Path.{subst}
use android_packages_modules.Common.{
  ℕ, ◌+◌, ◌≤◌, ◌^◌, ◌≡◌, refl, sym, Bool, List, [], ◌∷◌, Outcome, ok, err, panic, stuck, ltb, arith,
  Bool-cases, inl, inr,
}
use android_packages_modules.VirtManager.{
  StatusCode, VmInstance, State, Request, add_vm, allocate_cid, after_start, after_cid, after_sid,
  after_log, start_vm,
}

-- The CID of a VM that was started, before others.
abbrev pub started : Outcome StatusCode VmInstance → List ℕ → List ℕ
started (ok vm) cids = vm.cid ∷ cids
started _ cids = cids

-- Rising numbers, from a bound on.
abbrev pub Rising : ℕ → List ℕ → Type 0
Rising low [] = Unit {0}
Rising low (cid ∷ rest) = (low ≤ cid) × Rising (cid + 1) rest

Rising-weaken : (low low' : ℕ) (cids : List ℕ) → low ≤ low' → Rising low' cids → Rising low cids
Rising-weaken low low' [] h r = tt
Rising-weaken low low' (cid ∷ rest) h (le, r) = (omega arith, r)

started-Rising :
    (low next : ℕ) (result : Outcome StatusCode VmInstance) (cids : List ℕ)
    → low ≤ next
    → ((vm : VmInstance) → result ≡ ok vm → (low ≤ vm.cid) × (vm.cid + 1 ≤ next))
    → Rising next cids
    → Rising low (started result cids)
started-Rising low next (ok vm) cids le h r =
    let (a, b) = h vm refl in (a, Rising-weaken (vm.cid + 1) next cids b r)
started-Rising low next (err e) cids le h r = Rising-weaken low next cids le r
started-Rising low next panic cids le h r = Rising-weaken low next cids le r
started-Rising low next stuck cids le h r = Rising-weaken low next cids le r

module _ {V : Type 0} (start : ℕ → Outcome StatusCode (Unit {0})) (alive : ℕ → Bool) where
  -- The CIDs of the VMs that a sequence of calls starts.
  abbrev pub start_all : List Request → State V → List ℕ
  start_all [] self = []
  start_all (request ∷ rest) self =
      started (start_vm start alive request self).0
        (start_all rest (start_vm start alive request self).1)

  -- What a call does to the next CID and to what it returns.
  Steps : State V → Outcome StatusCode VmInstance × State V → Type 0
  Steps self (result, self') =
      (self.next_cid ≤ self'.next_cid)
      × ((vm : VmInstance)
          → result ≡ ok vm
          → (self.next_cid ≤ vm.cid) × (vm.cid + 1 ≤ self'.next_cid))

  after_start-Steps :
      (self self' : State V) (vm : VmInstance) (result : Outcome StatusCode (Unit {0}))
      → self.next_cid ≤ vm.cid
      → vm.cid + 1 ≤ self'.next_cid
      → self.next_cid ≤ self'.next_cid
      → Steps self (after_start alive self' vm result)
  unfolding Steps add_vm
  after_start-Steps self self' vm (ok u) low high le = (
    le,
    λ other e.
        let same : vm ≡ other = cc e in
        subst (λ (v : VmInstance). (self.next_cid ≤ v.cid) × (v.cid + 1 ≤ self'.next_cid)) same
          (low, high),
  )
  after_start-Steps self self' vm (err e) low high le = (le, λ other h. cc h)
  after_start-Steps self self' vm panic low high le = (le, λ other h. cc h)
  after_start-Steps self self' vm stuck low high le = (le, λ other h. cc h)

  after_cid-Steps :
      (self : State V) (request : Request) (sid : List ℕ)
      → Steps self (after_cid start alive request sid (allocate_cid self))
  unfolding Steps
  after_cid-Steps self request sid = elim (Bool-cases (ltb (self.next_cid + 1) (2 ^ 32))) [
    | inl free ↦
        let next : State V = record self { next_cid = self.next_cid + 1 } in
        let e : allocate_cid self ≡ (ok self.next_cid, next) =
          unfold allocate_cid in rw free refl in
        subst (λ r. Steps self (after_cid start alive request sid r)) (sym e)
          (after_start-Steps self next _ (start self.next_cid) (omega arith) (omega arith)
            (omega arith))
    | inr full ↦
        let e : allocate_cid self ≡ (err StatusCode.unknown_error, self) =
          unfold allocate_cid in rw full refl in
        subst (λ r. Steps self (after_cid start alive request sid r)) (sym e)
          (omega arith, λ other h. cc h)
  ]

  after_sid-Steps :
      (self : State V) (request : Request) (sid : Outcome StatusCode (List ℕ))
      → Steps self (after_sid start alive request self sid)
  unfolding Steps
  after_sid-Steps self request (ok sid) = after_cid-Steps self request sid
  after_sid-Steps self request (err e) = (omega arith, λ other h. cc h)
  after_sid-Steps self request panic = (omega arith, λ other h. cc h)
  after_sid-Steps self request stuck = (omega arith, λ other h. cc h)

  after_log-Steps :
      (self : State V) (request : Request) (log : Outcome StatusCode (Unit {0}))
      → Steps self (after_log start alive request self log)
  unfolding Steps
  after_log-Steps self request (ok u) = after_sid-Steps self request request.requester_sid
  after_log-Steps self request (err e) = (omega arith, λ other h. cc h)
  after_log-Steps self request panic = (omega arith, λ other h. cc h)
  after_log-Steps self request stuck = (omega arith, λ other h. cc h)

  start_vm-Steps :
      (self : State V) (request : Request) → Steps self (start_vm start alive request self)
  unfolding start_vm
  start_vm-Steps self request = after_log-Steps self request request.log_fd

  -- The VMs that any sequence of start requests starts have rising CIDs, from the state's next CID on:
  -- no two have the same, whichever of the requests fail.
  pub start_all-Rising :
      (requests : List Request) (self : State V) → Rising self.next_cid (start_all requests self)
  unfolding Steps
  start_all-Rising [] self = tt
  start_all-Rising (request ∷ rest) self =
      let r = start_vm start alive request self in
      let (le, h) = start_vm-Steps self request in
      started-Rising self.next_cid r.1.next_cid r.0 (start_all rest r.1) le h
        (start_all-Rising rest r.1)
