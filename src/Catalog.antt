-- ===== src/Catalog.antt =====
-- The package catalog's dependencies of one package revision:
-- pkg/reconcilers/packagediscovery/catalog/dependency.go. The mutex is left out: each operation runs
-- on its own.
pub mod Known
pub mod Resolver
pub mod References
pub mod Versions
pub mod Listing
pub mod Store
use pkgserver.Prelude.{
  Bool, true, false, ◌&&◌, ◌||◌, not, List, [], ◌∷◌, Option, none, some, Str, ◌==◌, str_eq,
  if◌then◌else◌,
}
use pkgserver.PkgRevId.{PackageRevId, Upstream, pkg_string}

-- `schema.GroupVersionKind`.
pub record Gvk : Type 0 where
  pub group : Str
  pub version : Str
  pub kind : Str

unfoldable pub gvk_eq : Gvk → Gvk → Bool
gvk_eq a b = a.group == b.group && (a.version == b.version && a.kind == b.kind)

unfoldable pub upstream_eq : Upstream → Upstream → Bool
upstream_eq a b =
    a.repository == b.repository
    && (a.realm == b.realm && (a.pkg == b.pkg && a.revision == b.revision))

-- The map from a kind to a set of upstreams is kept as a set of pairs, since no set in it is empty.
pub record Dependency : Type 0 where
  pub resolution_error : Option Str
  pub resolution_errors : List (Gvk × Str)
  pub resolution_warnings : List (Gvk × Str)
  pub pkg_id : PackageRevId
  pub pkg_dependencies : List (Gvk × Upstream)
  pub res_dependencies : List Gvk

abbrev pub new_dependency : PackageRevId → Dependency
new_dependency id = record {
  resolution_error = none;
  resolution_errors = [];
  resolution_warnings = [];
  pkg_id = id;
  pkg_dependencies = [];
  res_dependencies = [];
}

-- The assignment to a map's key.
unfoldable pub assign : Gvk → Str → List (Gvk × Str) → List (Gvk × Str)
unfolding gvk_eq
assign k v [] = (k, v) ∷ []
assign k v ((j, w) ∷ m) =
    let rest = assign k v m in if gvk_eq j k then (k, v) ∷ m else (j, w) ∷ rest

unfoldable pub insert_pkg : Gvk → Upstream → List (Gvk × Upstream) → List (Gvk × Upstream)
unfolding gvk_eq upstream_eq
insert_pkg k u [] = (k, u) ∷ []
insert_pkg k u ((j, w) ∷ m) =
    let rest = insert_pkg k u m in
    if gvk_eq j k && upstream_eq w u then (j, w) ∷ m else (j, w) ∷ rest

unfoldable pub insert_gvk : Gvk → List Gvk → List Gvk
unfolding gvk_eq
insert_gvk k [] = k ∷ []
insert_gvk k (j ∷ s) = let rest = insert_gvk k s in if gvk_eq j k then j ∷ s else j ∷ rest

unfoldable pub has_resolution_error : Dependency → Bool
has_resolution_error d = elim d.resolution_error [
  | some _ ↦ true
  | none ↦ elim d.resolution_errors [ [] ↦ false | _ ∷ _ ↦ true ]
]

unfoldable pub add_resolution_error : Option Str → Dependency → Dependency
add_resolution_error e d = record d { resolution_error = e }

unfoldable pub add_gvk_resolution_error : Gvk → Str → Dependency → Dependency
unfolding assign
add_gvk_resolution_error k e d = record d { resolution_errors = assign k e d.resolution_errors }

unfoldable pub add_gvk_resolution_warning : Gvk → Str → Dependency → Dependency
unfolding assign
add_gvk_resolution_warning k e d = record d {
  resolution_warnings = assign k e d.resolution_warnings;
}

unfoldable pub add_pkg_dependency : Gvk → Upstream → Dependency → Dependency
unfolding insert_pkg
add_pkg_dependency k u d = record d { pkg_dependencies = insert_pkg k u d.pkg_dependencies }

unfoldable pub add_core_dependency : Gvk → Dependency → Dependency
unfolding insert_gvk
add_core_dependency k d = record d { res_dependencies = insert_gvk k d.res_dependencies }

unfoldable pub dependency_pkg_string : Dependency → Str
dependency_pkg_string d = pkg_string d.pkg_id
