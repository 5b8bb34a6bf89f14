-- ===== src/Catalog/Store.antt =====
-- The package catalog: pkg/reconcilers/packagediscovery/catalog/store.go. The three stores are
-- parameters, with `schema.ParseGroupVersion`, the recorder's test for an error and the order in which
-- Go gives the members of a set; what was given to the recorder stands newest first.
pub mod Refines
pub mod Publication
pub mod Lookup
use pkgserver.Prelude.{
  ℕ, zero, suc, ◌+◌, ◌-◌, Bool, true, false, not, ◌&&◌, ◌||◌, List, [], ◌∷◌, ◌++◌, Option, none,
  some, Str, ◌==◌, str_eq, if◌then◌else◌, get_or, take, drop, length, Result, ok, err,
}
use pkgserver.Go.Strings.{codes}
use pkgserver.PkgRevId.{PackageRevId, Upstream, pkg_string, upstream_pkg_string}
use pkgserver.PackageRevision.{PackageRevision}
use pkgserver.Catalog.{Dependency, has_resolution_error}
use pkgserver.Catalog.Resolver.{Api, Resource, Sources, resolve}
use pkgserver.Catalog.References.{Reference, Output, gather_apis}
use pkgserver.Catalog.Versions.{delete_from_api, add_to_api, add_core_api}
use pkgserver.Catalog.Listing.{list_pkg_dependencies}
use pkgserver.Storer.{Key, Storer}

-- `metav1.APIResourceList`, its group and version parsed; a resource is its kind and its name.
pub record ResourceList : Type 0 where
  pub group_version : Result (Str × Str)
  pub resources : List (Str × Str)

pub record Stores : Type 1 where
  pub apis : Storer Api
  pub kinds : Storer Str
  pub pkgs : Storer Dependency

abbrev pub store_key : Str → Str → Key
store_key namespace name = record { namespace = namespace; name = name }

module _ (m : Stores) where
  -- `Store`.
  pub record Catalog : Type 0 where
    pub apis : m.apis.Store
    pub kinds : m.kinds.Store
    pub pkgs : m.pkgs.Store
    pub errors : List Str

  -- `r.recorder.Record` where there was an error.
  abbrev noted : Option Str → List Str → List Str
  noted none errors = errors
  noted (some e) errors = e ∷ errors

  -- A recorder that nothing was given to.
  unfoldable pub initialize_recorder : Catalog → Catalog
  initialize_recorder c = record c { errors = [] }

  abbrev pub pkg_key : PackageRevision → Key
  pkg_key cr = store_key (pkg_string cr.id) cr.id.revision

  unfoldable pub delete_pkg_rev : PackageRevision → Catalog → Catalog
  delete_pkg_rev cr c =
      let (_, apis') = m.apis.update_with_fn (λ _ api. delete_from_api cr.name api) c.apis in
      let (e, pkgs') = m.pkgs.delete (pkg_key cr) c.pkgs in
      record c { apis = apis'; pkgs = pkgs'; errors = noted e c.errors }

  -- One turn of the loop of `UpdatePkgRevAPI`.
  unfoldable pub publish : PackageRevision → Reference → Catalog → Catalog
  publish cr r c =
      let (e, kinds') = m.kinds.update (store_key r.group r.resource) r.kind c.kinds in
      let (_, apis') =
        m.apis.update_with_key_fn (store_key r.group r.kind) (add_to_api r cr.name cr.id) c.apis in
      record c { kinds = kinds'; apis = apis'; errors = noted e c.errors }

  unfoldable pub publish_all : PackageRevision → List Reference → Catalog → Catalog
  unfolding publish
  publish_all cr [] c = c
  publish_all cr (r ∷ refs) c = publish_all cr refs (publish cr r c)

  -- `order` is the order in which a set gives its members, and `has_error` the recorder's.
  module _ (order : List Reference → List Reference) (has_error : List Str → Bool) where
    unfoldable pub update_pkg_rev_api : PackageRevision → List Output → Catalog → Catalog
    unfolding publish_all
    update_pkg_rev_api cr outputs c =
        let (refs, errors) = gather_apis outputs ([], c.errors) in
        let c' : Catalog = record c { errors = errors } in
        if has_error errors then c' else publish_all cr (order refs) c'

  -- One turn of the inner loop of `UpdateAPIfromAPIResources`.
  unfoldable pub add_core : Str → Str → Str × Str → Catalog → Catalog
  add_core group version (kind, name) c =
      let (_, kinds') = m.kinds.update (store_key group name) kind c.kinds in
      let (_, apis') =
        m.apis.update_with_key_fn (store_key group kind) (add_core_api version kind name) c.apis in
      record c { kinds = kinds'; apis = apis' }

  unfoldable pub add_core_all : Str → Str → List (Str × Str) → Catalog → Catalog
  unfolding add_core
  add_core_all group version [] c = c
  add_core_all group version (r ∷ rs) c = add_core_all group version rs (add_core group version r c)

  add_parsed : Result (Str × Str) → List (Str × Str) → Catalog → Catalog
  unfolding add_core_all
  add_parsed (err e) resources c = c
  add_parsed (ok (group, version)) resources c = add_core_all group version resources c

  unfoldable pub update_from_resources : List ResourceList → Catalog → Catalog
  unfolding add_parsed
  update_from_resources [] c = c
  update_from_resources (l ∷ ls) c =
      update_from_resources ls (add_parsed l.group_version l.resources c)

  -- `resolve` reads the two stores of the APIs; what else it reads comes from `s`.
  unfoldable pub sources_of : Sources → Catalog → Sources
  sources_of s c = record s {
    api_of = λ group kind. m.apis.get (store_key group kind) c.apis;
    kind_of = λ group resource. m.kinds.get (store_key group resource) c.kinds;
  }

  module _ (s : Sources) where
    -- The error of the last update is only logged.
    unfoldable pub update_pkg_rev_dependencies :
        PackageRevision → (packages inputs resources : List Resource) → Catalog → Catalog
    update_pkg_rev_dependencies cr packages inputs resources c =
        let (dep, errors) = resolve (sources_of s c) c.errors cr.id packages inputs resources in
        record c { pkgs = (m.pkgs.update (pkg_key cr) dep c.pkgs).1; errors = errors }

  -- What the store has of the upstream, if it has it: whether its resolution went well, and its
  -- dependencies.
  on_dependency : (List Upstream → List Upstream) → Result Dependency → Bool × List Upstream
  on_dependency members (err e) = (false, [])
  on_dependency members (ok dep) =
      (not (has_resolution_error dep), list_pkg_dependencies members dep)

  -- `members` is the order in which the set of the upstreams gives its members. `err` is the panic
  -- where the package revision has no upstream.
  unfoldable pub get_pkg_rev_dependencies :
      (List Upstream → List Upstream) → PackageRevision → Catalog → Result (Bool × List Upstream)
  unfolding on_dependency
  get_pkg_rev_dependencies members cr c = elim cr.upstream [
    | none ↦ err (codes "nil pointer dereference")
    | some u ↦
        ok
          (on_dependency members (m.pkgs.get (store_key (upstream_pkg_string u) u.revision) c.pkgs))
  ]
