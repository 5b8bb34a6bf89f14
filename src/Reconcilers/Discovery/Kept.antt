-- ===== src/Reconcilers/Discovery/Kept.antt =====
-- What an update of the catalog stores does to the APIs that the catalog knows: updateCatalogStores of
-- pkg/reconcilers/packagediscovery/reconcilers.go.
use pkgserver.Prelude.{
  ◌≡◌, refl, Bool, true, false, not, ◌&&◌, ◌||◌, List, [], Option, some, Str, ◌==◌, str_eq,
  if◌then◌else◌, Result, ok, err, arith,
}
use pkgserver.Go.Strings.{codes}
use pkgserver.PackageRevision.{PackageRevision}
use pkgserver.Catalog.Resolver.{Sources}
use pkgserver.Catalog.References.{Reference, gather_apis}
use pkgserver.Catalog.Store.{
  Stores, Catalog, initialize_recorder, delete_pkg_rev, update_pkg_rev_dependencies,
}
use pkgserver.Catalog.Store.Refines.{brings, view, view-delete, IsWellFormed}
use pkgserver.Catalog.Store.Publication.{exposes, update_pkg_rev_api_lem}
use pkgserver.Storer.{Key, IsMemory}
use pkgserver.Reconcilers.Discovery.{
  Resources, is_published, recorder_error, update_with, update_catalog_stores,
}

-- The package revision comes to stand behind what its outputs expose.
brought : (List Str → Bool) → PackageRevision → Result Resources → Key → Str → Str → Bool
brought has_error cr (err e) k v n = false
brought has_error cr (ok rs) k v n =
    not (has_error (gather_apis rs.outputs ([], [])).1) && (exposes rs.outputs k v && cr.name == n)

-- Who stands behind an API after the update, from who did before.
pub standing :
    (List Str → Bool) → PackageRevision → Result Resources → Key → Str → Str → Bool → Bool
standing has_error cr gathered k v n before =
    if cr.deleting
    then (if is_published cr.lifecycle then before else before && not (cr.name == n))
    else before || brought has_error cr gathered k v n

module _ (m : Stores) (memory : IsMemory m.apis) where
  module _ (order : List Reference → List Reference) (has_error : List Str → Bool) (s : Sources)
      (resources_of : PackageRevision → Result Resources) where
    with-update :
        (cr : PackageRevision) (gathered : Result Resources) (c : Catalog m) (k : Key) (v n : Str)
        → ((cr : PackageRevision) (refs : List Reference) (k : Key) (v n : Str)
            → brings cr (order refs) k v n ≡ brings cr refs k v n)
        → view m
            (update_with m order has_error s resources_of cr gathered (initialize_recorder m c)).1
            k
            v
            n
          ≡ (view m c k v n || brought has_error cr gathered k v n)
    unfolding update_with initialize_recorder update_pkg_rev_dependencies view brought
    with-update cr (err e) c k v n same = ground arith
    with-update cr (ok rs) c k v n same =
        update_pkg_rev_api_lem m memory order has_error same cr rs.outputs (initialize_recorder m c)
          k v n

    -- Over a memory store whose APIs are well formed, an update takes a package revision that is being
    -- deleted from every API, unless it is published: then nothing changes. One that is not being deleted,
    -- whatever its lifecycle, comes to stand behind what its outputs expose, where its resources can be
    -- read without an error; nothing else changes.
    pub update_catalog_stores_lem :
        ((cr : PackageRevision) (refs : List Reference) (k : Key) (v n : Str)
          → brings cr (order refs) k v n ≡ brings cr refs k v n)
        → (cr : PackageRevision) (c : Catalog m) → IsWellFormed m c
        → (k : Key) (v n : Str)
        → view m (update_catalog_stores m order has_error s resources_of cr c).1 k v n
          ≡ standing has_error cr (resources_of cr) k v n (view m c k v n)
    unfolding update_catalog_stores initialize_recorder view IsWellFormed standing
    update_catalog_stores_lem same cr c i k v n = by_tests cr.deleting (is_published cr.lifecycle)
      where
        reset : Catalog m
        reset = initialize_recorder m c

        refusal : Option Str × Catalog m
        refusal = (
          some (
              codes
                "cannot delete a pkgRev that is published, update lifecycle to deletion proposed"),
          reset,
        )

        removal : Option Str × Catalog m
        removal = (
          recorder_error m order has_error s resources_of (delete_pkg_rev m cr reset),
          delete_pkg_rev m cr reset,
        )

        update : Option Str × Catalog m
        update = update_with m order has_error s resources_of cr (resources_of cr) reset

        by_tests :
            (gone kept : Bool)
            → view m (if gone then (if kept then refusal else removal) else update).1 k v n ≡ (
                if gone
                then (if kept then view m c k v n else view m c k v n && not (cr.name == n))
                else view m c k v n || brought has_error cr (resources_of cr) k v n)
        by_tests true true = refl
        by_tests true false = view-delete m memory cr reset k v n i
        by_tests false kept = with-update cr (resources_of cr) c k v n same
