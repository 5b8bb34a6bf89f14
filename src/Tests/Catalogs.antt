-- ===== src/Tests/Catalogs.antt =====
-- Runs of the catalog and of the discovery controller.
use pkgserver.Prelude.{
  ◌≡◌, refl, Bool, true, false, not, ◌&&◌, ◌||◌, List, [], ◌∷◌, none, some, Str, ◌==◌, str_eq,
  if◌then◌else◌, Result, ok, err,
}
use pkgserver.Go.Strings.{codes}
use pkgserver.PkgRevId.{Upstream}
use pkgserver.PackageRevision.{PackageRevision, published, draft}
use pkgserver.Catalog.{Dependency, new_dependency, has_resolution_error}
use pkgserver.Catalog.Listing.{
  has_upstream, list_pkg_dependencies, list_pkg_dependencies_lem, IsOrdered, depends_on,
}
use pkgserver.Catalog.Resolver.{Api, Sources, resolve}
use pkgserver.Catalog.References.{Reference, Output, gather_apis}
use pkgserver.Catalog.Versions.{delete_name, has_name}
use pkgserver.Catalog.Versions.Removal.{without, IsUnique, delete_name_lem}
use pkgserver.Catalog.Versions.Held.{IsStored}
use pkgserver.Catalog.Store.{
  Stores, Catalog, store_key, sources_of, update_pkg_rev_api, update_pkg_rev_dependencies,
  delete_pkg_rev, get_pkg_rev_dependencies,
}
use pkgserver.Catalog.Store.Refines.{
  Step, publishes, deletes, reports, view, run, replay, IsWellFormed, run_refines,
}
use pkgserver.Catalog.Store.Publication.{exposes, update_pkg_rev_api_lem}
use pkgserver.Catalog.Store.Lookup.{dependencies_lem, same_path}
use pkgserver.Reconcilers.Discovery.{Resources, update_catalog_stores}
use pkgserver.Reconcilers.Discovery.Kept.{standing, update_catalog_stores_lem}
use pkgserver.Storer.{Key, key_eq}
use pkgserver.Tests.Samples.{sample_id, sample_with}
use pkgserver.Tests.Stores.{memory, memory-IsMemory}

abbrev stores : Stores
stores = record { apis = memory Api; kinds = memory Str; pkgs = memory Dependency }

abbrev empty_catalog : Catalog stores
empty_catalog = record { apis = λ _. none; kinds = λ _. none; pkgs = λ _. none; errors = [] }

abbrev in_catalog : PackageRevision
in_catalog = sample_with (codes "catalog.repo.a:b.nginx.v1") (codes "v1") published []

abbrev reference : Reference
reference = record {
  group = codes "net";
  version = codes "v1";
  kind = codes "Network";
  resource = codes "networks";
}

empty-IsWellFormed : IsWellFormed stores empty_catalog
unfolding IsWellFormed IsStored
empty-IsWellFormed k = tt

abbrev steps : List Step
steps = publishes in_catalog (reference ∷ []) ∷ reports [] ∷ deletes in_catalog ∷ []

run_refines_example :
    IsWellFormed stores (run stores steps empty_catalog)
    × (view stores (run stores steps empty_catalog) ≡ replay steps (view stores empty_catalog))
run_refines_example =
    run_refines stores (memory-IsMemory Api) steps empty_catalog empty-IsWellFormed

abbrev network_output : Output
network_output = record {
  api_version = codes "apiextensions.k8s.io/v1";
  kind = codes "CustomResourceDefinition";
  definition = ok (record {
    group = codes "net";
    versions = codes "v1" ∷ codes "v2" ∷ [];
    kind = codes "Network";
    plural = codes "networks";
  });
  service = err (codes "no service");
}

abbrev no_errors : List Str → Bool
no_errors [] = false
no_errors (_ ∷ _) = true

abbrev net_key : Key
net_key = store_key (codes "net") (codes "Network")

publication_example :
    view stores
      (update_pkg_rev_api stores
        (λ refs. refs)
        no_errors
        in_catalog
        (network_output ∷ [])
        empty_catalog)
      net_key
      (codes "v2")
      in_catalog.name
    ≡ (view stores empty_catalog net_key (codes "v2") in_catalog.name
        || (not (no_errors (gather_apis (network_output ∷ []) ([], [])).1)
            && (exposes (network_output ∷ []) net_key (codes "v2")
                && in_catalog.name == in_catalog.name)))
publication_example =
    update_pkg_rev_api_lem stores (memory-IsMemory Api) (λ refs. refs) no_errors
      (λ cr refs k v n. refl) in_catalog (network_output ∷ []) empty_catalog net_key (codes "v2")
      in_catalog.name

abbrev nginx : Upstream
nginx = record {
  repository = codes "repo";
  realm = codes "a/b";
  pkg = codes "nginx";
  revision = codes "v1";
}

abbrev scheduled : PackageRevision
scheduled = record (sample_with (codes "edge01.deploy.a:b.nginx.ws-1") [] draft []) {
  upstream = some nginx;
}

abbrev sources : Sources
sources = record {
  api_of = λ _ _. err (codes "no api");
  kind_of = λ _ _. err (codes "no kind");
  is_valid = λ _. true;
  gvk_string = λ _. [];
  gvk_of = λ _ k. record { group = []; version = []; kind = k };
  recorded = λ _. none;
}

abbrev same_order : List Upstream → List Upstream
same_order us = us

dependencies_example :
    (get_pkg_rev_dependencies stores same_order scheduled
        (update_pkg_rev_dependencies stores sources in_catalog [] [] [] empty_catalog)
      ≡ (if same_path nginx in_catalog && nginx.revision == in_catalog.id.revision
          then ok (
            not (
                has_resolution_error
                  (resolve (sources_of stores sources empty_catalog) [] in_catalog.id [] [] []).0),
            list_pkg_dependencies same_order
                (resolve (sources_of stores sources empty_catalog) [] in_catalog.id [] [] []).0,
          )
          else get_pkg_rev_dependencies stores same_order scheduled empty_catalog))
    × (get_pkg_rev_dependencies stores same_order scheduled
          (delete_pkg_rev stores in_catalog empty_catalog)
        ≡ (if same_path nginx in_catalog && nginx.revision == in_catalog.id.revision
            then ok (false, [])
            else get_pkg_rev_dependencies stores same_order scheduled empty_catalog))
dependencies_example =
    dependencies_lem stores (memory-IsMemory Dependency) same_order sources in_catalog [] [] []
      empty_catalog scheduled nginx refl

abbrev two_dependencies : Dependency
two_dependencies = record (new_dependency sample_id) {
  pkg_dependencies =
      (record { group = []; version = []; kind = codes "A" }, nginx)
      ∷ (record { group = []; version = []; kind = codes "B" }, record nginx { pkg = codes "db" })
      ∷ [];
}

listing_example :
    IsOrdered (list_pkg_dependencies same_order two_dependencies)
    × ((u : Upstream)
        → has_upstream u (list_pkg_dependencies same_order two_dependencies)
          ≡ depends_on u two_dependencies.pkg_dependencies)
listing_example = list_pkg_dependencies_lem same_order (λ u us. refl) two_dependencies

abbrev three_names : List Str
three_names = codes "a" ∷ codes "b" ∷ codes "c" ∷ []

three-IsUnique : IsUnique three_names
unfolding IsUnique has_name
three-IsUnique = (refl, (refl, (refl, tt)))

delete_name_example : delete_name (codes "b") three_names ≡ without (codes "b") three_names
delete_name_example = delete_name_lem (codes "b") three_names three-IsUnique

abbrev read_resources : PackageRevision → Result Resources
read_resources _ =
    ok (record { packages = []; resources = []; inputs = []; outputs = network_output ∷ [] })

discovery_example :
    view stores
      (update_catalog_stores stores
        (λ refs. refs)
        no_errors
        sources
        read_resources
        in_catalog
        empty_catalog).1
      net_key
      (codes "v1")
      in_catalog.name
    ≡ standing no_errors in_catalog
        (read_resources in_catalog)
        net_key
        (codes "v1")
        in_catalog.name
        (view stores empty_catalog net_key (codes "v1") in_catalog.name)
discovery_example =
    update_catalog_stores_lem stores (memory-IsMemory Api) (λ refs. refs) no_errors sources
      read_resources (λ cr refs k v n. refl) in_catalog empty_catalog empty-IsWellFormed net_key
      (codes "v1") in_catalog.name
