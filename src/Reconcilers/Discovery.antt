-- ===== src/Reconcilers/Discovery.antt =====
-- The discovery controller: pkg/reconcilers/packagediscovery/reconcilers.go. It keeps the catalog in
-- step with the package revisions of the catalog. What `getPackageResources` gives is an argument, with
-- the stores of the catalog and the parameters of its module.
pub mod Kept
use pkgserver.Prelude.{
  ℕ, Bool, true, false, not, [], ◌∷◌, List, Option, none, some, Str, if◌then◌else◌, Result, ok, err,
}
use pkgserver.Go.Strings.{codes, has_prefix}
use pkgserver.PkgRevId.{pkg_target_catalog}
use pkgserver.PackageRevision.{
  PackageRevision, Lifecycle, draft, proposed, published, deletion_proposed, other,
}
use pkgserver.Catalog.Resolver.{Resource, Sources}
use pkgserver.Catalog.References.{Reference, Output}
use pkgserver.Catalog.Store.{
  Stores, Catalog, initialize_recorder, delete_pkg_rev, update_pkg_rev_api,
  update_pkg_rev_dependencies,
}
use pkgserver.Kube.{
  Fetched, found, not_found, get_failed, acquire_lease, add_finalizer, remove_finalizer, Api,
  Outcome, done, again, lease_again, Run, pure, wrap, err_get_cr, send,
}
use pkgserver.Kube

abbrev pub controller_name : Str
controller_name = codes "PackageDiscoveryController"

abbrev pub after_seconds : ℕ → Outcome
after_seconds n = record done { requeue_after = n }

-- The resources of a package, as the decoders read them.
pub record Resources : Type 0 where
  pub packages : List Resource
  pub resources : List Resource
  pub inputs : List Resource
  pub outputs : List Output

unfoldable pub is_published : Lifecycle → Bool
is_published published = true
is_published _ = false

module _ (m : Stores) (order : List Reference → List Reference) (has_error : List Str → Bool)
    (s : Sources) (resources_of : PackageRevision → Result Resources) where
  -- The error that the recorder has, if it has one; `recorded` gives its text.
  recorder_error : Catalog m → Option Str
  recorder_error c = if has_error c.errors then s.recorded c.errors else none

  abbrev with_error : Catalog m → Option Str × Catalog m
  with_error c = (recorder_error c, c)

  update_with : PackageRevision → Result Resources → Catalog m → Option Str × Catalog m
  unfolding recorder_error
  update_with cr (err e) c = (some e, c)
  update_with cr (ok rs) c = with_error (
      update_pkg_rev_dependencies m s cr rs.packages rs.inputs rs.resources
        (update_pkg_rev_api m order has_error cr rs.outputs c))

  -- `updateCatalogStores`: the error, if there is one, and the catalog after it.
  unfoldable pub update_catalog_stores : PackageRevision → Catalog m → Option Str × Catalog m
  unfolding update_with recorder_error
  update_catalog_stores cr c =
      if cr.deleting
      then (if is_published cr.lifecycle
          then (
            some (
                codes
                  "cannot delete a pkgRev that is published, update lifecycle to deletion proposed"),
            initialize_recorder m c,
          )
          else with_error (delete_pkg_rev m cr (initialize_recorder m c)))
      else update_with cr (resources_of cr) (initialize_recorder m c)

  module _ (api : Api) where
    abbrev Discovered : Type 0
    Discovered = Outcome × Catalog m

    release : PackageRevision → Option Str × Catalog m → Run Discovered
    release cr (some _, c) = pure (after_seconds 10, c)
    release cr (none, c) =
        Kube.◌>>=◌ (send api (remove_finalizer cr))
          (λ answer. pure (elim answer.0 [ none ↦ done | some _ ↦ again ], c))

    -- Five minutes, or ten seconds after an error.
    next_time : Option Str × Catalog m → Discovered
    next_time (some _, c) = (after_seconds 10, c)
    next_time (none, c) = (after_seconds 300, c)

    process : PackageRevision → Catalog m → Run Discovered
    unfolding next_time
    process cr c = Kube.◌>>=◌ (send api (add_finalizer cr)) (λ answer.
        pure (elim answer.0 as (λ _. Discovered) [
          | some _ ↦ (again, c)
          | none ↦ next_time (update_catalog_stores answer.1 c)
        ]))

    leased : PackageRevision → Catalog m → Run Discovered
    unfolding release process
    leased cr c = Kube.◌>>=◌ (send api (acquire_lease controller_name)) (λ answer.
        elim answer.0 as (λ _. Run Discovered) [
          | some _ ↦ pure (lease_again, c)
          | none ↦ if cr.deleting then release cr (update_catalog_stores cr c) else process cr c
        ])

    on_fetched : Fetched → Catalog m → Run Discovered
    unfolding leased
    on_fetched not_found c = pure (done, c)
    on_fetched (get_failed e) c = pure (record done { error = wrap err_get_cr (some e) }, c)
    on_fetched (found cr) c =
        if has_prefix cr.name pkg_target_catalog then leased cr c else pure (done, c)

    unfoldable pub reconcile : Catalog m → Run Discovered
    unfolding on_fetched
    reconcile c = on_fetched api.fetched c
