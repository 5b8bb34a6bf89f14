-- ===== src/Reconcilers/Scheduler/Lookup/Latest.antt =====
-- What the lookups of the scheduler give:
-- pkg/reconcilers/packagescheduler/reconcilers.go, getLatestCatalogPackageRevision, getPkgState and the
-- two builders.
use mathlib.Core.List.{Memᴰ}
use mathlib.Core.Path.{subst}
use pkgserver.Prelude.{
  ℕ, ◌≤◌, ◌<◌, ◌≡◌, ◌≢◌, sym, ap, ◌∙◌, true, List, [], ◌∷◌, Option, some, ◌==◌, str_eq, ==_refl,
  if-cases, Result, ok, err, All, arith,
}
use pkgserver.PkgRevId.{Downstream}
use pkgserver.PkgRevId.Revision.{Semver, IsSemver, rev}
use pkgserver.Condition.{gate_install, condition_true, get_condition}
use pkgserver.PackageRevision.{PackageRevision}
use pkgserver.PackageVariant.{
  PackageVariant, build_package_revision, build_revision, built, variant_id,
}
use pkgserver.Reconcilers.Scheduler.Lookup.{
  Availability, missing, availability, is_downstream, get_pkg_state,
}

module _ (sv : Semver) (law : IsSemver sv) where
  abbrev pub number_of : PackageRevision → ℕ
  number_of r = law.number r.id.revision

  -- The revision is "v" and its number, as the program makes them.
  abbrev pub IsNumbered : PackageRevision → Type 0
  IsNumbered r = r.id.revision ≡ rev (number_of r)

  -- The latest of the package revisions, from one with number `n` that was found before.
  data IsLatest (n : ℕ) (found : Option PackageRevision) (cs : List PackageRevision)
      : Option PackageRevision → Type 0 where
    old : All (λ c. number_of c ≤ n) cs → IsLatest n found cs found
    newer :
        (r : PackageRevision)
        → Memᴰ r cs
        → n < number_of r
        → All (λ c. number_of c ≤ number_of r) cs
        → IsLatest n found cs (some r)

  -- What `getLatestCatalogPackageRevision` promises of its answer: a candidate with the greatest number,
  -- which is above 0, or an error where no candidate has a number above 0.
  pub IsGreatest : List PackageRevision → Result PackageRevision → Type 0
  IsGreatest cs (err e) = All (λ c. number_of c ≤ 0) cs
  IsGreatest cs (ok r) = Memᴰ r cs × (0 < number_of r) × All (λ c. number_of c ≤ number_of r) cs

IsThere : Availability → Type 0
IsThere a = a ≢ missing

available : (r : PackageRevision) → IsThere (availability r)
unfolding IsThere availability
available r =
    if-cases IsThere ((get_condition r.conditions gate_install).status == condition_true) (λ e. cc)
      (λ e. cc)

-- A listed package revision of the downstream's package: the package is not missing.
listed_downstream :
    (d : Downstream) (r : PackageRevision) (listed : List PackageRevision)
    → Memᴰ r listed
    → is_downstream d r ≡ true
    → IsThere (get_pkg_state d listed)
unfolding get_pkg_state
listed_downstream d r [] m h = elim m [ ]
listed_downstream d r (x ∷ listed) (Memᴰ.head e) h =
    rw (sym (ap (is_downstream d) e) ∙ h) (available x)
listed_downstream d r (x ∷ listed) (Memᴰ.tail m) h =
    if-cases IsThere (is_downstream d x) (available x) (listed_downstream d r listed m h)

built_downstream :
    (v : PackageVariant) (hash : List ℕ)
    → is_downstream v.downstream (build_revision [] v hash) ≡ true
unfolding is_downstream build_revision variant_id
built_downstream v hash = ground (
  arith,
  ==_refl v.downstream.target,
  ==_refl v.downstream.repository,
  ==_refl v.downstream.realm,
  ==_refl v.downstream.pkg,
)

ok_value : (x y : PackageRevision) → ok x ≡ ok y → x ≡ y
ok_value x y e = cc

-- Once the package revision that the scheduler builds for a package variant is listed, the package that
-- the variant is for is no longer missing.
pub built_found :
    (digest : PackageVariant → Result (List ℕ)) (v : PackageVariant) (r : PackageRevision)
    (listed : List PackageRevision)
    → build_package_revision digest v ≡ ok r
    → Memᴰ r listed
    → get_pkg_state v.downstream listed ≢ missing
unfolding build_package_revision built IsThere
built_found digest v r listed is_built among = by_hash (digest v) is_built
  where
    by_hash :
        (hash : Result (List ℕ))
        → built digest hash v ≡ ok r
        → get_pkg_state v.downstream listed ≢ missing
    by_hash (err e) is_ok = cc
    by_hash (ok h) is_ok = listed_downstream v.downstream r listed among (
        subst (λ y. is_downstream v.downstream y ≡ true) (ok_value _ _ is_ok)
          (built_downstream v h))
