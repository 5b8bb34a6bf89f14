-- ===== src/Catalog/Resolver.antt =====
-- How the dependencies of a package revision are found:
-- pkg/reconcilers/packagediscovery/catalog/dependency_resolver.go. The two stores of the catalog, the
-- YAML decoding, the parsing of an apiVersion and semver.IsValid are parameters.
pub mod Accounts
pub mod Rules
use pkgserver.Prelude.{
  Bool, true, false, ◌&&◌, ◌||◌, not, List, [], ◌∷◌, ◌++◌, Option, none, some, Str, ◌==◌, str_eq,
  if◌then◌else◌, get_or, Result, ok, err, ◌>>=◌,
}
use pkgserver.Go.Strings.{codes, split}
use pkgserver.PkgRevId.{PackageRevId, Upstream, pkg_string}
use pkgserver.PkgRevId.Revision.{any_revision}
use pkgserver.Catalog.{
  Gvk, Dependency, new_dependency, add_resolution_error, add_gvk_resolution_error,
  add_gvk_resolution_warning, add_pkg_dependency, add_core_dependency, dependency_pkg_string,
}

pub data ApiType : Type 0 where
  core_api package_api : ApiType

-- `API`, with the package revisions of each version.
pub record Api : Type 0 where
  pub type : ApiType
  pub kind : Str
  pub resource : Str
  pub id : PackageRevId
  pub versions : List (Str × List Str)

pub record PolicyRule : Type 0 where
  pub api_groups : List Str
  pub resources : List Str

-- A resource of the package, as the decoders read it: the group and the version of its apiVersion, its
-- rules as a role, its upstream as a package variant or a package dependency.
pub record Resource : Type 0 where
  pub api_version : Str
  pub kind : Str
  pub parsed : Result (Str × Str)
  pub rules : Result (List PolicyRule)
  pub upstream : Result Upstream

-- What the resolver reads from elsewhere.
pub record Sources : Type 0 where
  pub api_of : Str → Str → Result Api
  pub kind_of : Str → Str → Result Str
  pub is_valid : Str → Bool
  pub gvk_string : Gvk → Str
  pub gvk_of : Str → Str → Gvk
  pub recorded : List Str → Option Str

abbrev pub api_service_name : Str
api_service_name = codes "apiService"

abbrev pub rbac_version : Str
rbac_version = codes "rbac.authorization.k8s.io/v1"

abbrev pub claim_version : Str
claim_version = codes "claim.pkg.pkgserver.dev/v1alpha1"

abbrev pub config_version : Str
config_version = codes "config.pkg.pkgserver.dev/v1alpha1"

unfoldable pub has_version : Str → List (Str × List Str) → Bool
has_version v [] = false
has_version v ((w, _) ∷ m) = let rest = has_version v m in if w == v then true else rest

unfoldable pub upstream_of : Api → Upstream
upstream_of api = record {
  repository = api.id.repository;
  realm = api.id.realm;
  pkg = api.id.pkg;
  revision = any_revision;
}

add_of_type : ApiType → Gvk → Api → Dependency → Dependency
unfolding upstream_of
add_of_type core_api gvk api d = add_core_dependency gvk d
add_of_type package_api gvk api d = add_pkg_dependency gvk (upstream_of api) d

unfoldable pub add_dependency : Gvk → Api → Dependency → Dependency
unfolding add_of_type
add_dependency gvk api d = add_of_type api.type gvk api d

module _ (s : Sources) where
  -- The kind of a rule's resource: its own, or the one of an API service of the group.
  rule_kind : Str → Str → Result Str
  rule_kind group resource = elim (s.kind_of group resource) as (λ _. Result Str) [
    | ok kind ↦ ok kind
    | err _ ↦ s.kind_of group api_service_name
  ]

  -- The API of a rule, as the store gave it.
  add_rule_api : Gvk → Str → Str → Result Api → Dependency → Dependency
  add_rule_api gvk group kind (err _) d =
      add_gvk_resolution_warning (record { group = group; version = []; kind = kind })
        (codes "policy rule kind " ++ (kind ++ (codes " not found for gvk: " ++ s.gvk_string gvk)))
        d
  add_rule_api gvk group kind (ok api) d =
      if pkg_string api.id == dependency_pkg_string d
      then d
      else add_dependency (record { group = group; version = any_revision; kind = kind }) api d

  add_rule_kind : Gvk → Str → Str → Result Str → Dependency → Dependency
  unfolding add_rule_api
  add_rule_kind gvk group resource (err _) d =
      add_gvk_resolution_warning (record { group = group; version = []; kind = [] })
        (codes "policy rule resource "
          ++ (resource ++ (codes " not found for gvk: " ++ s.gvk_string gvk)))
        d
  add_rule_kind gvk group resource (ok kind) d = add_rule_api gvk group kind (s.api_of group kind) d

  -- One resource of one group of a rule.
  add_rule_resource : Gvk → Str → Str → Dependency → Dependency
  unfolding rule_kind add_rule_kind
  add_rule_resource gvk group path d =
      let resource = get_or (split b'/' path) 0 [] in
      if resource == codes "*"
      then d
      else add_rule_kind gvk group resource (rule_kind group resource) d

  add_group : Gvk → Str → List Str → Dependency → Dependency
  unfolding add_rule_resource
  add_group gvk group [] d = d
  add_group gvk group (path ∷ paths) d =
      add_group gvk group paths (add_rule_resource gvk group path d)

  add_groups : Gvk → List Str → List Str → Dependency → Dependency
  unfolding add_group
  add_groups gvk [] paths d = d
  add_groups gvk (group ∷ groups) paths d =
      add_groups gvk groups paths (add_group gvk group paths d)

  -- `addPolicyRuleDependencies`: it has no error.
  unfoldable pub add_policy_rules : Gvk → List PolicyRule → Dependency → Dependency
  unfolding add_groups
  add_policy_rules gvk [] d = d
  add_policy_rules gvk (rule ∷ rules) d =
      add_policy_rules gvk rules (add_groups gvk rule.api_groups rule.resources d)

module _ (s : Sources) where
  -- An error is returned beside the dependency, which may have changed before it.
  abbrev pub Gathered : Type 0
  Gathered = Dependency × Option Str

  -- The two `if` of an API lookup: it is there, and has the version.
  unfoldable pub find_api : Gvk → (Str → Str) → Result Api
  find_api gvk not_found = elim (s.api_of gvk.group gvk.kind) as (λ _. Result Api) [
    | err e ↦ err (not_found e)
    | ok api ↦
        if has_version gvk.version api.versions
        then ok api
        else err (codes "cannot resolve version for gvk: " ++ s.gvk_string gvk)
  ]

  -- The `if err != nil { return err }` after the lookup, and what follows.
  with_api : Result Api → (Api → Dependency) → Dependency → Gathered
  with_api (err e) f d = (d, some e)
  with_api (ok api) f d = (f api, none)

  -- `gatherDependencyfromClusterRole` and `gatherDependencyfromRole`, with what the decoder gave.
  unfoldable pub gather_from_role : Gvk → Result (List PolicyRule) → Dependency → Gathered
  unfolding with_api
  gather_from_role gvk (err e) d = (d, some e)
  gather_from_role gvk (ok rules) d =
      with_api (find_api gvk (λ e. e))
        (λ api. add_policy_rules s gvk rules (add_dependency gvk api d)) d

  -- `gatherDependencyfromPVAR` and `gatherDependencyfromPDEP`.
  unfoldable pub gather_from_upstream : Gvk → Result Upstream → Dependency → Gathered
  gather_from_upstream gvk (err e) d = (d, some e)
  gather_from_upstream gvk (ok upstream) d =
      let wanted = if s.is_valid upstream.revision then upstream.revision else any_revision in
      (add_pkg_dependency gvk (record upstream { revision = wanted }) d, none)

  unfoldable pub gather_from_resource : Gvk → Dependency → Gathered
  unfolding with_api
  gather_from_resource gvk d =
      let not_found =
        codes "cannot find api reference: group: "
        ++ (gvk.group ++ (codes ", kind: " ++ gvk.kind)) in
      with_api (find_api gvk (λ _. not_found)) (λ api. add_dependency gvk api d) d

  -- The cases of the loop over the package's resources.
  unfoldable pub gather : Resource → Gvk → Dependency → Gathered
  gather r gvk d =
      if r.api_version == rbac_version && (r.kind == codes "ClusterRole" || r.kind == codes "Role")
      then gather_from_role gvk r.rules d
      else if r.api_version == config_version && r.kind == codes "PackageVariant"
      then gather_from_upstream gvk r.upstream d
      else gather_from_resource gvk d

  unfoldable pub gather_input : Resource → Gvk → Dependency → Gathered
  gather_input r gvk d =
      if r.api_version == claim_version && r.kind == codes "PackageDependency"
      then gather_from_upstream gvk r.upstream d
      else (d, none)

  -- The resolver's state: the dependency, and the errors given to the recorder, newest first.
  abbrev pub State : Type 0
  State = Dependency × List Str

  -- `AddGVKResolutionError` where there was an error.
  unfoldable pub note : Resource → Gathered → Dependency
  note r (d, none) = d
  note r (d, some e) = add_gvk_resolution_error (s.gvk_of r.api_version r.kind) e d

  turn_parsed :
      (Resource → Gvk → Dependency → Gathered) → Resource → Result (Str × Str) → State → State
  unfolding note
  turn_parsed f r (err e) (d, errors) = (d, e ∷ errors)
  turn_parsed f r (ok (group, version)) (d, errors) =
      (note r (f r (record { group = group; version = version; kind = r.kind }) d), errors)

  -- One turn of a loop with `ParseGroupVersion` and the loop's `switch`.
  unfoldable pub turn : (Resource → Gvk → Dependency → Gathered) → Resource → State → State
  unfolding turn_parsed
  turn f r state = turn_parsed f r r.parsed state

  unfoldable pub loop : (Resource → Gvk → Dependency → Gathered) → List Resource → State → State
  unfolding turn
  loop f [] state = state
  loop f (r ∷ rs) state = loop f rs (turn f r state)

  -- The dependency of a mixin.
  unfoldable pub gather_package : Resource → Gvk → Dependency → Gathered
  gather_package r gvk d = (
    add_pkg_dependency gvk
        (record {
          repository = codes "tbd";
          realm = [];
          pkg = codes "tbd";
          revision = any_revision;
        })
        d,
    none,
  )

  -- From what the recorder was given before.
  unfoldable pub resolve :
      List Str → PackageRevId → List Resource → List Resource → List Resource → State
  unfolding loop gather gather_input gather_package
  resolve errors id packages inputs resources =
      let state =
        loop gather_package packages
          (loop gather resources (loop gather_input inputs (new_dependency id, errors))) in
      (add_resolution_error (s.recorded state.1) state.0, state.1)
