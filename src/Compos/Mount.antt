-- ===== src/Compos/Mount.antt =====
-- How the worker of compos/src/compsvc_worker.rs waits for authfs.
use mathlib.Core.Path.{subst}
use android_packages_modules.Common.{
  ℕ, zero, suc, ◌+◌, ◌*◌, ◌≤◌, ◌<◌, ◌≡◌, refl, ◌⊎◌, inl, inr, Bool, true, false, Outcome, ok, err,
  ltb, ◌==◌, arith, tests, Bool-cases, ==→eq,
}
use android_packages_modules.File.{IoError}
use android_packages_modules.Compos.Worker.{
  WorkerError, time_out_mounting_authfs, statfs_error, authfs_setup_timeout_sec,
  authfs_setup_poll_interval_ms, fuse_super_magic, Polls, is_fuse, wait_until_authfs_ready,
}

-- `statfs` returns or fails, and each sleep takes as long as it was asked to, at least.
pub record Regular (polls : Polls) : Type 0 where
  pub answers :
      (i : ℕ)
      → ((type : ℕ) × (polls.filesystem_type i ≡ ok type))
        ⊎ ((e : IoError) × (polls.filesystem_type i ≡ err e))
  pub slow : (i : ℕ) → authfs_setup_poll_interval_ms * i ≤ polls.elapsed i

-- The ways in which the loop ends, at poll `i`.
pub data Ends (polls : Polls) : Outcome WorkerError (Unit {0}) → Type 0 where
  mounted :
      (i : ℕ)
      → is_fuse polls i ≡ ok true
      → ((j : ℕ) → j < i → is_fuse polls j ≡ ok false)
      → Ends polls (ok tt)
  timed_out :
      (i : ℕ)
      → authfs_setup_timeout_sec < polls.elapsed i
      → ((j : ℕ) → j < suc i → is_fuse polls j ≡ ok false)
      → Ends polls (err time_out_mounting_authfs)
  statfs_failed :
      (i : ℕ) (e : IoError)
      → is_fuse polls i ≡ err (statfs_error e)
      → ((j : ℕ) → j < i → is_fuse polls j ≡ ok false)
      → Ends polls (err (statfs_error e))

-- More polls than fit in the time: 10 s at 50 ms each, and the first and the last one.
abbrev pub enough_polls : ℕ
enough_polls = 202

is_fuse-cases :
    (polls : Polls) (i : ℕ)
    → Regular polls
    → ((b : Bool) × (is_fuse polls i ≡ ok b))
      ⊎ ((e : IoError) × (is_fuse polls i ≡ err (statfs_error e)))
unfolding is_fuse
is_fuse-cases polls i regular = elim (regular.answers i) [
  | inl (type, h) ↦ inl ((type == fuse_super_magic), rw (h) refl)
  | inr (e, h) ↦ inr (e, rw (h) refl)
]

-- The polls before `i` saw no authfs, in time.
abbrev Waited : Polls → ℕ → Type 0
Waited polls i =
    (j : ℕ) → j < i → (is_fuse polls j ≡ ok false) × (polls.elapsed j ≤ authfs_setup_timeout_sec)

below_suc : (Q : ℕ → Type 0) (i : ℕ) → ((j : ℕ) → j < i → Q j) → Q i → (j : ℕ) → j < suc i → Q j
below_suc Q i below q j lt = elim (Bool-cases (i == j)) [
  | inl last ↦ subst Q (==→eq i j last) q
  | inr before ↦ below j (omega tests)
]

waits :
    (polls : Polls) (fuel i : ℕ)
    → Regular polls
    → enough_polls ≤ i + fuel
    → Waited polls i
    → Ends polls (wait_until_authfs_ready polls fuel i)
unfolding wait_until_authfs_ready
waits polls zero i regular enough waited =
    let (_, early) = waited 201 (omega arith) in absurd (omega (arith, early, regular.slow 201))
waits polls (suc fuel) i regular enough waited = elim (is_fuse-cases polls i regular) [
  | inl (true, h) ↦ rw (h) (mounted i h (λ j lt. (waited j lt).0))
  | inl (false, h) ↦ elim (Bool-cases (ltb authfs_setup_timeout_sec (polls.elapsed i))) [
    | inl late ↦
        rw (h, late)
          (timed_out i (omega tests)
            (below_suc (λ j. is_fuse polls j ≡ ok false) i (λ j lt. (waited j lt).0) h))
    | inr early ↦
        rw (h, early)
          (waits polls fuel (suc i) regular (omega arith) (below_suc _ i waited (h, omega tests)))
  ]
  | inr (e, h) ↦ rw (h) (statfs_failed i e h (λ j lt. (waited j lt).0))
]

-- The worker does not wait for ever: with fuel for 202 polls the loop ends, at the first poll that sees
-- authfs or an error of `statfs`, or at one that comes after 10 seconds without authfs. The clock
-- counts each sleep in full, and `statfs` returns.
pub wait_until_authfs_ready-Ends :
    (polls : Polls) (fuel : ℕ)
    → Regular polls
    → enough_polls ≤ fuel
    → Ends polls (wait_until_authfs_ready polls fuel 0)
wait_until_authfs_ready-Ends polls fuel regular enough =
    waits polls fuel 0 regular (omega arith) (λ j lt. absurd (omega arith))
