-- ===== src/Catalog/Resolver/Rules.antt =====
-- The rules of a role: `addPolicyRuleDependencies` of
-- pkg/reconcilers/packagediscovery/catalog/dependency_resolver.go.
use pkgserver.Prelude.{
  ◌≡◌, ◌≢◌, sym, ◌∙◌, ap, false, ◌&&◌, List, [], ◌∷◌, Str, ◌==◌, str_eq, ==_iff, if-cases, if-split,
  get_or, Result, ok, err, All,
}
use pkgserver.Go.Strings.{codes, split}
use pkgserver.PkgRevId.{PackageRevId, Upstream, pkg_string, upstream_pkg_string}
use pkgserver.Catalog.{
  Gvk, gvk_eq, upstream_eq, Dependency, insert_pkg, add_gvk_resolution_warning, add_pkg_dependency,
  add_core_dependency, dependency_pkg_string,
}
use pkgserver.Catalog.Resolver.{
  ApiType, core_api, package_api, Api, PolicyRule, Sources, upstream_of, add_dependency,
  add_of_type, add_rule_api, add_rule_kind, add_rule_resource, add_group, add_groups,
  add_policy_rules,
}

-- Every package dependency is on another package than `own`, and the dependency is still that of the
-- package `own`.
pub record IsOutward (own : PackageRevId) (d : Dependency) : Type 0 where
  pub owner : d.pkg_id ≡ own
  pub outward :
      All (λ (x : Gvk × Upstream). upstream_pkg_string x.1 ≢ pkg_string own) d.pkg_dependencies

module _ (own : PackageRevId) where
  insert_outward :
      (k : Gvk) (u : Upstream) (m : List (Gvk × Upstream))
      → upstream_pkg_string u ≢ pkg_string own
      → All (λ (x : Gvk × Upstream). upstream_pkg_string x.1 ≢ pkg_string own) m
      → All (λ (x : Gvk × Upstream). upstream_pkg_string x.1 ≢ pkg_string own) (insert_pkg k u m)
  unfolding insert_pkg
  insert_outward k u [] h a = (h, tt)
  insert_outward k u ((j, w) ∷ m) h a =
      if-cases (All (λ (x : Gvk × Upstream). upstream_pkg_string x.1 ≢ pkg_string own))
        (gvk_eq j k && upstream_eq w u) a (a.0, insert_outward k u m h a.1)

  type-IsOutward :
      (t : ApiType) (k : Gvk) (api : Api) (d : Dependency)
      → pkg_string api.id ≢ pkg_string own
      → IsOutward own d
      → IsOutward own (add_of_type t k api d)
  unfolding add_of_type add_core_dependency add_pkg_dependency upstream_of upstream_pkg_string
      pkg_string
  type-IsOutward core_api k api d h i = record { owner = i.owner; outward = i.outward }
  type-IsOutward package_api k api d h i = record {
    owner = i.owner;
    outward = insert_outward k _ d.pkg_dependencies h i.outward;
  }

  warned :
      (k : Gvk) (e : Str) (d : Dependency)
      → IsOutward own d
      → IsOutward own (add_gvk_resolution_warning k e d)
  unfolding add_gvk_resolution_warning
  warned k e d i = record { owner = i.owner; outward = i.outward }

  module _ (s : Sources) (k : Gvk) where
    api-IsOutward :
        (group kind : Str) (v : Result Api) (d : Dependency)
        → IsOutward own d
        → IsOutward own (add_rule_api s k group kind v d)
    unfolding add_rule_api add_dependency dependency_pkg_string
    api-IsOutward group kind (err e) d i = warned _ _ d i
    api-IsOutward group kind (ok api) d i =
        if-split (IsOutward own) (pkg_string api.id == pkg_string d.pkg_id) (λ _. i)
          (λ differs. type-IsOutward api.type _ api d (other differs) i)
      where
        other :
            (pkg_string api.id == pkg_string d.pkg_id) ≡ false → pkg_string api.id ≢ pkg_string own
        other differs same = cc (
          differs,
          (==_iff (pkg_string api.id) (pkg_string d.pkg_id)).1 (same ∙ ap pkg_string (sym i.owner)),
        )

    kind-IsOutward :
        (group resource : Str) (v : Result Str) (d : Dependency)
        → IsOutward own d
        → IsOutward own (add_rule_kind s k group resource v d)
    unfolding add_rule_kind
    kind-IsOutward group resource (err e) d i = warned _ _ d i
    kind-IsOutward group resource (ok kind) d i = api-IsOutward group kind (s.api_of group kind) d i

    resource-IsOutward :
        (group path : Str) (d : Dependency)
        → IsOutward own d
        → IsOutward own (add_rule_resource s k group path d)
    unfolding add_rule_resource
    resource-IsOutward group path d i =
        if-cases (IsOutward own) (get_or (split b'/' path) 0 [] == codes "*") i
          (kind-IsOutward group _ _ d i)

    group-IsOutward :
        (group : Str) (paths : List Str) (d : Dependency)
        → IsOutward own d
        → IsOutward own (add_group s k group paths d)
    unfolding add_group
    group-IsOutward group [] d i = i
    group-IsOutward group (p ∷ ps) d i = group-IsOutward group ps _ (resource-IsOutward group p d i)

    groups-IsOutward :
        (groups paths : List Str) (d : Dependency)
        → IsOutward own d
        → IsOutward own (add_groups s k groups paths d)
    unfolding add_groups
    groups-IsOutward [] paths d i = i
    groups-IsOutward (g ∷ gs) paths d i = groups-IsOutward gs paths _ (group-IsOutward g paths d i)

    -- The rules of a role add no dependency of the package on itself: where every package dependency is on
    -- another realm and package, it is so after them.
    pub add_policy_rules-IsOutward :
        (rules : List PolicyRule) (d : Dependency)
        → IsOutward own d
        → IsOutward own (add_policy_rules s k rules d)
    unfolding add_policy_rules
    add_policy_rules-IsOutward [] d i = i
    add_policy_rules-IsOutward (r ∷ rs) d i =
        add_policy_rules-IsOutward rs _ (groups-IsOutward r.api_groups r.resources d i)
