-- ===== src/Catalog/Store/Lookup.antt =====
-- The dependencies that the catalog gives of a package revision's upstream:
-- UpdatePkgRevDependencies, DeletePkgRev and GetPkgRevDependencies of
-- pkg/reconcilers/packagediscovery/catalog/store.go.
use pkgserver.Prelude.{
  ◌≡◌, refl, sym, ap, ◌∙◌, Bool, true, false, not, ◌&&◌, List, [], ◌∷◌, Option, none, some, ◌==◌,
  str_eq, if◌then◌else◌, Result, ok, err,
}
use pkgserver.Go.Path.{join}
use pkgserver.PkgRevId.{Upstream, pkg_string, upstream_pkg_string}
use pkgserver.PackageRevision.{PackageRevision}
use pkgserver.Catalog.{Dependency, has_resolution_error}
use pkgserver.Catalog.Listing.{list_pkg_dependencies}
use pkgserver.Catalog.Resolver.{Resource, Sources, resolve}
use pkgserver.Catalog.Store.{
  Stores, Catalog, pkg_key, store_key, sources_of, update_pkg_rev_dependencies, delete_pkg_rev,
  on_dependency, get_pkg_rev_dependencies,
}
use pkgserver.Storer.{key_eq, found, IsMemory}

-- The realm and the package make the same path.
abbrev pub same_path : Upstream → PackageRevision → Bool
same_path u cr = join (u.realm ∷ u.pkg ∷ []) == join (cr.id.realm ∷ cr.id.pkg ∷ [])

-- The answer for what a store has.
answer : (List Upstream → List Upstream) → Option Dependency → Bool × List Upstream
answer members none = (false, [])
answer members (some dep) = (not (has_resolution_error dep), list_pkg_dependencies members dep)

module _ (m : Stores) (memory : IsMemory m.pkgs) (members : List Upstream → List Upstream) where
  answer_found : (r : Result Dependency) → on_dependency m members r ≡ answer members (found r)
  unfolding on_dependency answer
  answer_found (err e) = refl
  answer_found (ok dep) = refl

  settle :
      (test : Bool) (o p : Option Dependency) (before : Result (Bool × List Upstream))
      → before ≡ ok (answer members p)
      → ok (answer members (if test then o else p))
        ≡ (if test then ok (answer members o) else before)
  settle true o p before h = refl
  settle false o p before h = sym h

  looked_up :
      (cr : PackageRevision) (u : Upstream) (c : Catalog m)
      → cr.upstream ≡ some u
      → get_pkg_rev_dependencies m members cr c
        ≡ ok (
            answer members
              (found (m.pkgs.get (store_key (upstream_pkg_string u) u.revision) c.pkgs)))
  unfolding get_pkg_rev_dependencies
  looked_up cr u c h = rw h (ap ok (answer_found _))

  -- Over a memory store: once the dependencies of a package revision were updated, each package
  -- revision whose upstream has its revision, and a realm and a package that make the same path, gets
  -- the resolver's answer, and once it was deleted, none; every other one gets what it got before. The
  -- repository of the upstream does not matter.
  pub dependencies_lem :
      (s : Sources) (cr : PackageRevision) (packages inputs resources : List Resource)
      (c : Catalog m) (other : PackageRevision) (u : Upstream)
      → other.upstream ≡ some u
      → let mine = same_path u cr && u.revision == cr.id.revision in
        let dep = (resolve (sources_of m s c) c.errors cr.id packages inputs resources).0 in
        (get_pkg_rev_dependencies m members other
            (update_pkg_rev_dependencies m s cr packages inputs resources c)
          ≡ (if mine
              then ok (not (has_resolution_error dep), list_pkg_dependencies members dep)
              else get_pkg_rev_dependencies m members other c))
        × (get_pkg_rev_dependencies m members other (delete_pkg_rev m cr c)
            ≡ (if mine then ok (false, []) else get_pkg_rev_dependencies m members other c))
  unfolding update_pkg_rev_dependencies delete_pkg_rev answer pkg_string upstream_pkg_string
  dependencies_lem s cr packages inputs resources c other u h = (
    looked_up other u _ h
        ∙ ap (λ o. ok (answer members o))
            (memory.get_update (store_key (upstream_pkg_string u) u.revision) (pkg_key m cr) _
              c.pkgs)
        ∙ settle (store_key (upstream_pkg_string u) u.revision == pkg_key m cr) _ _ _
            (looked_up other u c h),
    looked_up other u _ h
        ∙ ap (λ o. ok (answer members o))
            (memory.get_delete (store_key (upstream_pkg_string u) u.revision) (pkg_key m cr) c.pkgs)
        ∙ settle (store_key (upstream_pkg_string u) u.revision == pkg_key m cr) none _ _
            (looked_up other u c h),
  )
