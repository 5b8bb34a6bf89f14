-- ===== src/Lease.antt =====
-- The lease that a reconciler takes on a package revision: pkg/reconcilers/lease/lease.go. What the API
-- server answers is an argument, since others may write between the calls. Times are in
-- microseconds.
pub mod Exclusion
use pkgserver.Prelude.{
  ℕ, ◌+◌, ◌*◌, Bool, true, false, ◌&&◌, not, Option, none, some, Str, ◌==◌, str_eq, if◌then◌else◌,
  ltb, ◌++◌, Result, ok, err,
}
use pkgserver.Go.Strings.{codes, replace_all}
use pkgserver.PkgRevId.{colon}

abbrev second : ℕ
second = 1000000

-- `defaultLeaseInterval`, in seconds.
abbrev pub default_lease_interval : ℕ
default_lease_interval = 1

-- `coordinationv1.LeaseSpec`: a field that is not set is a nil pointer.
pub record LeaseSpec : Type 0 where
  pub holder_identity : Option Str
  pub lease_duration_seconds : Option ℕ
  pub renew_time : Option ℕ

pub data Fetch : Type 0 where
  fetched : LeaseSpec → Fetch
  missing : Fetch
  failed : Str → Fetch

-- What one call has done: the lease that it sent by `Create` and the one that it sent by `Update`, with
-- the error.
pub record Attempt : Type 0 where
  pub created : Option LeaseSpec
  pub updated : Option LeaseSpec
  pub error : Option Str

unfoldable pub lease_name : Str → Str
lease_name name = replace_all colon b'-' name

-- The specification that `getLease` and `AcquireLease` write.
unfoldable pub taken : ℕ → Str → LeaseSpec
taken now holder = record {
  holder_identity = some holder;
  lease_duration_seconds = some default_lease_interval;
  renew_time = some now;
}

-- Whether a lease with this renewal and this duration still runs; `err` is the nil pointer of the
-- duration.
runs : ℕ → Option ℕ → Option ℕ → Result Bool
runs now none duration = ok false
runs now (some renewed) none = err (codes "nil pointer")
runs now (some renewed) (some duration) = ok (not (ltb (renewed + duration * second) now))

held_by_other : ℕ → Str → LeaseSpec → Str → Result Bool
unfolding runs
held_by_other now holder spec other =
    if other == holder then ok false else runs now spec.renew_time spec.lease_duration_seconds

module _ (now : ℕ) (holder : Str) (created : Option LeaseSpec) (update_error : Option Str) where
  refuse : Str → Attempt
  refuse e = record { created = created; updated = none; error = some e }

  decide : Str → Result Bool → Result Attempt
  unfolding refuse
  decide other (err e) = err e
  decide other (ok true) =
      ok (refuse (codes "cannot acquire lease, lease held by another identity: " ++ other))
  decide other (ok false) =
      ok (record { created = created; updated = some (taken now holder); error = update_error })

  -- From the second `Get` on.
  take_over : Fetch → Result Attempt
  unfolding decide held_by_other
  take_over missing = ok (refuse (codes "not found"))
  take_over (failed e) = ok (refuse e)
  take_over (fetched spec) = elim spec.holder_identity as (λ _. Result Attempt) [
    | none ↦ ok (refuse (codes "lease nil or holderidentity nil"))
    | some other ↦ decide other (held_by_other now holder spec other)
  ]

-- `AcquireLease`, with the time of the creation and that of the decision, what the two `Get` give, and
-- the errors of `Create` and `Update`.
unfoldable pub acquire_lease :
    ℕ → ℕ → Str → Fetch → Option Str → Fetch → Option Str → Result Attempt
unfolding take_over
acquire_lease before now holder (failed e) create_error again update_error =
    ok (record { created = none; updated = none; error = some e })
acquire_lease before now holder (fetched _) create_error again update_error =
    take_over now holder none update_error again
acquire_lease before now holder missing none again update_error =
    take_over now holder (some (taken before holder)) update_error again
acquire_lease before now holder missing (some e) again update_error =
    ok (record { created = some (taken before holder); updated = none; error = some e })
