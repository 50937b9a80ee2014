-- ===== src/VirtManager/Tests.antt =====
-- Starting VMs one after the other.
mod Held
mod Life
mod Boot
use android_packages_modules.Common.{
  ℕ, ◌≡◌, refl, Bool, true, [], ◌∷◌, Outcome, ok, err, ◌==◌, if◌then◌else◌,
}
use android_packages_modules.VirtManager.{
  StatusCode, bad_value, Request, default, start_vm, add_vm, allocate_cid,
}
use android_packages_modules.VirtManager.Cids.{Rising, start_all, start_all-Rising}

abbrev request : Request
request = record {
  log_fd = ok tt;
  requester_uid = 0;
  requester_sid = ok [];
  requester_debug_pid = 1;
}

-- The VM with the CID 11 does not start.
abbrev start : ℕ → Outcome StatusCode (Unit {0})
start cid = if cid == 11 then err bad_value else ok tt

abbrev all_alive : ℕ → Bool
all_alive cid = true

three_starts :
    start_all {V = ℕ} start all_alive (request ∷ request ∷ request ∷ []) default ≡ 10 ∷ 12 ∷ []
unfolding start_vm add_vm allocate_cid
three_starts = refl

start_all-Rising_example :
    Rising 10 (start_all {V = ℕ} start all_alive (request ∷ request ∷ request ∷ []) default)
start_all-Rising_example =
    start_all-Rising start all_alive (request ∷ request ∷ request ∷ []) default
