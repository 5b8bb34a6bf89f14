-- ===== src/Lease/Exclusion.antt =====
-- Who gets the lease: pkg/reconcilers/lease/lease.go.
use mathlib.Core.Path.{subst}
use pkgserver.Prelude.{
  ℕ, ◌+◌, ◌*◌, ◌<◌, ◌≡◌, ◌≢◌, ◌⊎◌, inl, inr, refl, sym, Bool, true, false, Option, none, some,
  arith, Str, str_eq, ==_cases, ◌∙◌, ap, Result, ok, err,
}
use pkgserver.Go.Strings.{codes}
use pkgserver.Lease.{
  runs, refuse, LeaseSpec, Fetch, fetched, missing, failed, Attempt, taken, held_by_other, decide,
  take_over, acquire_lease,
}

-- The caller has the lease: it wrote it, and `Update` gave no error.
pub record Acquires (now : ℕ) (holder : Str) (r : Result Attempt) : Type 0 where
  pub attempt : Attempt
  pub is_ok : r ≡ ok attempt
  pub no_error : attempt.error ≡ none
  pub written : attempt.updated ≡ some (taken now holder)

-- The lease that the second `Get` shows is the caller's own, was never renewed, or has run out.
abbrev pub IsFree : ℕ → Str → LeaseSpec → Type 0
IsFree now holder spec =
    (spec.holder_identity ≡ some holder)
    ⊎ (spec.renew_time ≡ none)
    ⊎ ((renewed : ℕ) × (duration : ℕ) × (spec.renew_time ≡ some renewed)
        × (spec.lease_duration_seconds ≡ some duration)
        × (renewed + duration * 1000000 < now))

over :
    (now : ℕ) (renew duration : Option ℕ)
    → runs now renew duration ≡ ok false
    → (renew ≡ none)
      ⊎ ((r : ℕ) × (d : ℕ) × (renew ≡ some r) × (duration ≡ some d) × (r + d * 1000000 < now))
unfolding runs
over now none duration h = inl refl
over now (some r) none h = cc
over now (some r) (some d) h = inr (r, d, refl, refl, ground (arith, h))

ok_value : {A : Type 0} (x y : A) → ok x ≡ ok y → x ≡ y
ok_value x y h = cc

holder-IsFree :
    (now : ℕ) (holder : Str) (spec : LeaseSpec) (other : Str)
    → spec.holder_identity ≡ some other
    → held_by_other now holder spec other ≡ ok false
    → IsFree now holder spec
unfolding held_by_other
holder-IsFree now holder spec other h free = elim (==_cases other holder) [
  | inl (_, same) ↦ inl (h ∙ ap some same)
  | inr (differs, _) ↦
      inr (over now spec.renew_time spec.lease_duration_seconds (ground (arith, differs, free)))
]

module _ (now : ℕ) (holder : Str) (created : Option LeaseSpec) (update_error : Option Str) where
  decided :
      (other : Str) (v : Result Bool) (a : Attempt)
      → decide now holder created update_error other v ≡ ok a
      → a.error ≡ none
      → (v ≡ ok false) × (a.updated ≡ some (taken now holder))
  unfolding decide
  decided other (err e) a h n = cc
  decided other (ok true) a h n = cc (ap (λ x. x.error) (ok_value _ a h), n)
  decided other (ok false) a h n = (refl, sym (ap (λ x. x.updated) (ok_value _ a h)))

  taken_over :
      (again : Fetch) (a : Attempt)
      → take_over now holder created update_error again ≡ ok a
      → a.error ≡ none
      → (spec : LeaseSpec) × (again ≡ fetched spec)
        × IsFree now holder spec
        × (a.updated ≡ some (taken now holder))
  unfolding take_over
  taken_over missing a h n = cc (ap (λ x. x.error) (ok_value _ a h), n)
  taken_over (failed e) a h n = cc (ap (λ x. x.error) (ok_value _ a h), n)
  taken_over (fetched spec) a h n = by_holder spec.holder_identity refl h
    where
      by_holder :
          (o : Option Str)
          → spec.holder_identity ≡ o
          → (elim o as (λ _. Result Attempt) [
            | none ↦
                ok
                  (refuse now holder created update_error (codes "lease nil or holderidentity nil"))
            | some other ↦
                decide now holder created update_error other (held_by_other now holder spec other)
          ])
            ≡ ok a
          → (s : LeaseSpec) × (fetched spec ≡ fetched s)
            × IsFree now holder s
            × (a.updated ≡ some (taken now holder))
      by_holder none eo h = cc (ap (λ x. x.error) (ok_value _ a h), n)
      by_holder (some other) eo h =
          let (free, written) = decided other _ a h n in
          (spec, refl, holder-IsFree now holder spec other eo free, written)

module _ (before now : ℕ) (holder : Str) where
  -- Where `AcquireLease` gives no error, the lease that its second `Get` showed was the caller's own, had
  -- never been renewed or had run out, and the caller has written itself as its holder.
  pub acquire_lease-IsFree :
      (first : Fetch) (create_error : Option Str) (again : Fetch) (update_error : Option Str)
      (a : Attempt)
      → acquire_lease before now holder first create_error again update_error ≡ ok a
      → a.error ≡ none
      → (spec : LeaseSpec) × (again ≡ fetched spec)
        × IsFree now holder spec
        × (a.updated ≡ some (taken now holder))
  unfolding acquire_lease
  acquire_lease-IsFree (failed e) c again u a h n = cc (ap (λ x. x.error) (ok_value _ a h), n)
  acquire_lease-IsFree (fetched _) c again u a h n = taken_over now holder none u again a h n
  acquire_lease-IsFree missing none again u a h n = taken_over now holder _ u again a h n
  acquire_lease-IsFree missing (some e) again u a h n = cc (ap (λ x. x.error) (ok_value _ a h), n)

fetched_value : (x y : LeaseSpec) → fetched x ≡ fetched y → x ≡ y
fetched_value x y h = cc

elapsed :
    (then_ now : ℕ) (mine other : Str)
    → mine ≢ other
    → IsFree now other (taken then_ mine)
    → then_ + 1000000 < now
unfolding taken
elapsed then_ now mine other differs (inl same) = absurd (differs cc)
elapsed then_ now mine other differs (inr (inl never)) = cc
elapsed then_ now mine other differs (inr (inr (r, d, at, long, past))) =
    ground (arith, at, long, past)

-- As long as a lease that one reconciler wrote is the one that is fetched, another gets it only when
-- more than a second has passed since.
pub lease_exclusive :
    (then_ before now : ℕ) (mine other : Str) (first : Fetch) (c u : Option Str) (a : Attempt)
    → mine ≢ other
    → acquire_lease before now other first c (fetched (taken then_ mine)) u ≡ ok a
    → a.error ≡ none
    → then_ + 1000000 < now
lease_exclusive then_ before now mine other first c u a differs h n =
    let (spec, same, free, _) = acquire_lease-IsFree before now other first c _ u a h n in
    elapsed then_ now mine other differs
      (subst (IsFree now other) (sym (fetched_value _ spec same)) free)
