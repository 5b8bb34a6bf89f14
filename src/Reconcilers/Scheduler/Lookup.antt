-- ===== src/Reconcilers/Scheduler/Lookup.antt =====
-- What the scheduler reads of the package revisions that the API server lists: getPkgState and
-- getLatestCatalogPackageRevision of pkg/reconcilers/packagescheduler/reconcilers.go. The message of
-- the error leaves out the upstream, which generated code prints.
pub mod Latest
use pkgserver.Prelude.{
  Bool, true, false, ◌&&◌, List, [], ◌∷◌, Option, none, some, Str, ◌==◌, str_eq, if◌then◌else◌,
  Result, ok, err, ◌++◌,
}
use pkgserver.Go.Strings.{codes}
use pkgserver.PkgRevId.{
  PackageRevId, Upstream, Downstream, PkgState, not_available, scheduled, installed,
  upstream_pkg_string,
}
use pkgserver.PkgRevId.Revision.{Semver, no_revision, is_rev_later}
use pkgserver.Condition.{gate_install, condition_true, get_condition}
use pkgserver.PackageRevision.{PackageRevision, Lifecycle, published}

-- The package is the downstream one.
unfoldable pub is_downstream : Downstream → PackageRevision → Bool
is_downstream d r =
    r.id.target == d.target
    && (r.id.repository == d.repository && (r.id.realm == d.realm && r.id.pkg == d.pkg))

-- The package revision's state, and the package revision where there is one: the first that matches.
pub data Availability : Type 0 where
  missing : Availability
  waiting present : PackageRevision → Availability

unfoldable pub availability : PackageRevision → Availability
availability r =
    if (get_condition r.conditions gate_install).status == condition_true
    then present r
    else waiting r

unfoldable pub get_pkg_state : Downstream → List PackageRevision → Availability
unfolding is_downstream availability
get_pkg_state d [] = missing
get_pkg_state d (r ∷ rs) =
    let rest = get_pkg_state d rs in if is_downstream d r then availability r else rest

unfoldable pub is_published : Lifecycle → Bool
is_published published = true
is_published _ = false

unfoldable pub is_candidate : Upstream → PackageRevision → Bool
unfolding is_published
is_candidate u r =
    is_published r.lifecycle
    && (r.id.repository == u.repository && (r.id.realm == u.realm && r.id.pkg == u.pkg))

unfoldable pub candidates : Upstream → List PackageRevision → List PackageRevision
unfolding is_candidate
candidates u [] = []
candidates u (r ∷ rs) = let rest = candidates u rs in if is_candidate u r then r ∷ rest else rest

module _ (sv : Semver) where
  -- The second loop, from `latestRev` and `latestPkgRev`.
  unfoldable pub latest_of :
      Str → Option PackageRevision → List PackageRevision → Option PackageRevision
  latest_of rev found [] = found
  latest_of rev found (r ∷ rs) =
      let (rev', found') =
        if is_rev_later sv r.id.revision rev then (r.id.revision, some r) else (rev, found) in
      latest_of rev' found' rs

  or_missing : Upstream → Option PackageRevision → Result PackageRevision
  or_missing u none = err (codes "cannot get latests ppkrev upstream")
  or_missing u (some r) = ok r

  unfoldable pub get_latest : Upstream → List PackageRevision → Result PackageRevision
  unfolding latest_of or_missing
  get_latest u listed = or_missing u (latest_of no_revision none (candidates u listed))
