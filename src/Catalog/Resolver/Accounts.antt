-- ===== src/Catalog/Resolver/Accounts.antt =====
-- What the resolver does with each resource:
-- pkg/reconcilers/packagediscovery/catalog/dependency_resolver.go.
use mathlib.Core.List.{Memᴰ}
use mathlib.Core.Path.{subst}
use pkgserver.Prelude.{
  ◌≡◌, ◌⊎◌, inl, inr, refl, ◌∙◌, true, List, [], ◌∷◌, Option, none, some, arith, Str, ◌==◌, str_eq,
  if-cases, get_or, Result, ok, err,
}
use pkgserver.Go.Strings.{codes, split}
use pkgserver.PkgRevId.{PackageRevId, Upstream, pkg_string}
use pkgserver.Catalog.{
  Gvk, Dependency, add_resolution_error, add_gvk_resolution_error, dependency_pkg_string,
}
use pkgserver.Catalog.Resolver.{
  ApiType, core_api, package_api, Api, Resource, PolicyRule, Sources, upstream_of, add_dependency,
  add_of_type, add_rule_api, add_rule_kind, with_api, turn_parsed, add_rule_resource, add_group,
  add_groups, add_policy_rules, gather_from_role, gather_from_upstream, gather_from_resource,
  gather, gather_input, gather_package, note, turn, loop, resolve,
}
use pkgserver.Catalog.Known.{
  gvk_eq_iff, has_kind, has_kind-assign, knows, Grows, same, then_, grow_warning, grow_error,
  grow_pkg, knows_pkg, core_added,
}

added :
    (t : ApiType) (k : Gvk) (api : Api) (d : Dependency)
    → Grows d (add_of_type t k api d) × (knows k (add_of_type t k api d) ≡ true)
unfolding add_of_type
added core_api k api d = core_added k d
added package_api k api d = (grow_pkg k (upstream_of api) d, knows_pkg k (upstream_of api) d)

-- A dependency that is added is known.
add_dependency-Grows :
    (k : Gvk) (api : Api) (d : Dependency)
    → Grows d (add_dependency k api d) × (knows k (add_dependency k api d) ≡ true)
unfolding add_dependency
add_dependency-Grows k api d = added api.type k api d

module _ (s : Sources) (k : Gvk) where
  grow_api :
      (group kind : Str) (v : Result Api) (d : Dependency)
      → Grows d (add_rule_api s k group kind v d)
  unfolding add_rule_api
  grow_api group kind (err e) d = grow_warning _ _ d
  grow_api group kind (ok api) d =
      if-cases (Grows d) (pkg_string api.id == dependency_pkg_string d) (same d)
        (add_dependency-Grows _ api d).0

  grow_kind :
      (group resource : Str) (v : Result Str) (d : Dependency)
      → Grows d (add_rule_kind s k group resource v d)
  unfolding add_rule_kind
  grow_kind group resource (err e) d = grow_warning _ _ d
  grow_kind group resource (ok kind) d = grow_api group kind (s.api_of group kind) d

  grow_resource : (group path : Str) (d : Dependency) → Grows d (add_rule_resource s k group path d)
  unfolding add_rule_resource
  grow_resource group path d =
      if-cases (Grows d) (get_or (split b'/' path) 0 [] == codes "*") (same d)
        (grow_kind group _ _ d)

  grow_group :
      (group : Str) (paths : List Str) (d : Dependency) → Grows d (add_group s k group paths d)
  unfolding add_group
  grow_group group [] d = same d
  grow_group group (p ∷ ps) d = then_ (grow_resource group p d) (grow_group group ps _)

  grow_groups : (groups paths : List Str) (d : Dependency) → Grows d (add_groups s k groups paths d)
  unfolding add_groups
  grow_groups [] paths d = same d
  grow_groups (g ∷ gs) paths d = then_ (grow_group g paths d) (grow_groups gs paths _)

  grow_rules : (rules : List PolicyRule) (d : Dependency) → Grows d (add_policy_rules s k rules d)
  unfolding add_policy_rules
  grow_rules [] d = same d
  grow_rules (r ∷ rs) d = then_ (grow_groups r.api_groups r.resources d) (grow_rules rs _)

-- What was gathered for the kind: nothing is lost, and the kind is known unless there is an error.
record IsGathered (k : Gvk) (d : Dependency) (g : Dependency × Option Str) : Type 0 where
  grows : Grows d g.0
  found : g.1 ≡ none → knows k g.0 ≡ true

module _ (s : Sources) (k : Gvk) (d : Dependency) where
  with_api-IsGathered :
      (v : Result Api) (f : Api → Dependency)
      → ((api : Api) → Grows d (f api) × (knows k (f api) ≡ true))
      → IsGathered k d (with_api s v f d)
  unfolding with_api
  with_api-IsGathered (err e) f h = record { grows = same d; found = λ e. cc }
  with_api-IsGathered (ok api) f h = record { grows = (h api).0; found = λ _. (h api).1 }

  role-IsGathered : (v : Result (List PolicyRule)) → IsGathered k d (gather_from_role s k v d)
  unfolding gather_from_role
  role-IsGathered (err e) = record { grows = same d; found = λ e. cc }
  role-IsGathered (ok rules) = with_api-IsGathered _ _ (λ api.
      let (grows, known) = add_dependency-Grows k api d in
      let rest = grow_rules s k rules (add_dependency k api d) in
      (then_ grows rest, rest.known k known))

  upstream-IsGathered : (v : Result Upstream) → IsGathered k d (gather_from_upstream s k v d)
  unfolding gather_from_upstream
  upstream-IsGathered (err e) = record { grows = same d; found = λ e. cc }
  upstream-IsGathered (ok u) = record { grows = grow_pkg k _ d; found = λ _. knows_pkg k _ d }

  resource-IsGathered : IsGathered k d (gather_from_resource s k d)
  unfolding gather_from_resource
  resource-IsGathered = with_api-IsGathered _ _ (λ api. add_dependency-Grows k api d)

  gathered : (r : Resource) → IsGathered k d (gather s r k d)
  unfolding gather
  gathered r =
      if-cases (IsGathered k d) _ (role-IsGathered r.rules)
        (if-cases (IsGathered k d) _ (upstream-IsGathered r.upstream) resource-IsGathered)

  input_grows : (r : Resource) → Grows d (gather_input s r k d).0
  unfolding gather_input
  input_grows r =
      if-cases (λ (g : Dependency × Option Str). Grows d g.0) _
        (upstream-IsGathered r.upstream).grows (same d)

module _ (s : Sources) where
  -- The resource's kind is known, or an error stands under the resource's kind.
  abbrev pub IsAccounted : Resource → Str × Str → Dependency → Type 0
  IsAccounted r gv d =
      (knows (record { group = gv.0; version = gv.1; kind = r.kind }) d ≡ true)
      ⊎ (has_kind (s.gvk_of r.api_version r.kind) d.resolution_errors ≡ true)

  kept :
      (r : Resource) (gv : Str × Str) {d d' : Dependency}
      → Grows d d'
      → IsAccounted r gv d
      → IsAccounted r gv d'
  kept r gv g (inl h) = inl (g.known _ h)
  kept r gv g (inr h) = inr (g.errors _ h)

  note_grows :
      (r : Resource) (d : Dependency) (g : Dependency × Option Str)
      → Grows d g.0
      → Grows d (note s r g)
  unfolding note
  note_grows r d (d', none) h = h
  note_grows r d (d', some e) h = then_ h (grow_error _ e d')

  error_there :
      (k : Gvk) (e : Str) (d : Dependency)
      → has_kind k (add_gvk_resolution_error k e d).resolution_errors ≡ true
  unfolding add_gvk_resolution_error
  error_there k e d = has_kind-assign k k e d.resolution_errors ∙ ground (arith, gvk_eq_iff k k)

  noted :
      (r : Resource) (gv : Str × Str) (d : Dependency) (g : Dependency × Option Str)
      → IsGathered (record { group = gv.0; version = gv.1; kind = r.kind }) d g
      → IsAccounted r gv (note s r g)
  unfolding note
  noted r gv d (d', none) h = inl (h.found refl)
  noted r gv d (d', some e) h = inr (error_there _ e d')

  module _ (f : Resource → Gvk → Dependency → Dependency × Option Str)
      (grows : (r : Resource) (k : Gvk) (d : Dependency) → Grows d (f r k d).0) where
    turn_grows :
        (r : Resource) (v : Result (Str × Str)) (state : Dependency × List Str)
        → Grows state.0 (turn_parsed s f r v state).0
    unfolding turn_parsed
    turn_grows r (err e) (d, errors) = same d
    turn_grows r (ok (g, v)) (d, errors) = note_grows r d _ (grows r _ d)

    loop_grows :
        (rs : List Resource) (state : Dependency × List Str) → Grows state.0 (loop s f rs state).0
    unfolding loop turn
    loop_grows [] state = same state.0
    loop_grows (r ∷ rs) state = then_ (turn_grows r r.parsed state) (loop_grows rs _)

  turn_accounts :
      (r : Resource) (gv : Str × Str) (v : Result (Str × Str)) (state : Dependency × List Str)
      → v ≡ ok gv
      → IsAccounted r gv (turn_parsed s (gather s) r v state).0
  unfolding turn_parsed
  turn_accounts r gv (err e) state h = cc
  turn_accounts r gv (ok (g, v)) (d, errors) h =
      subst
        (λ (p : Str × Str).
          IsAccounted r p
            (note s r (gather s r (record { group = g; version = v; kind = r.kind }) d)))
        (pair_value (g, v) gv h) (noted r (g, v) d _ (gathered s _ d r))
    where
      pair_value : (x y : Str × Str) → ok x ≡ ok y → x ≡ y
      pair_value x y h = cc

  resources_grow :
      (rs : List Resource) (state : Dependency × List Str)
      → Grows state.0 (loop s (gather s) rs state).0
  resources_grow = loop_grows (gather s) (λ r k d. (gathered s k d r).grows)

  loop_accounts :
      (rs : List Resource) (state : Dependency × List Str) (r : Resource) (gv : Str × Str)
      → Memᴰ r rs
      → r.parsed ≡ ok gv
      → IsAccounted r gv (loop s (gather s) rs state).0
  unfolding loop turn
  loop_accounts [] state r gv m p = elim m [ ]
  loop_accounts (x ∷ rs) state r gv (Memᴰ.head e) p = kept r gv (resources_grow rs _) (
      subst (λ (y : Resource). IsAccounted r gv (turn_parsed s (gather s) y y.parsed state).0) e
        (turn_accounts r gv r.parsed state p))
  loop_accounts (x ∷ rs) state r gv (Memᴰ.tail m) p = loop_accounts rs _ r gv m p

  final_accounts :
      (e : Option Str) (r : Resource) (gv : Str × Str) (d : Dependency)
      → IsAccounted r gv d
      → IsAccounted r gv (add_resolution_error e d)
  unfolding add_resolution_error knows
  final_accounts e r gv d h = h

  -- Every resource of the package whose apiVersion parses is accounted for by the resolution: its kind
  -- has a dependency on a package or on the core, or an error is recorded for it.
  pub resolve_accounts :
      (errors : List Str) (id : PackageRevId) (packages inputs resources : List Resource)
      (r : Resource) (gv : Str × Str)
      → Memᴰ r resources
      → r.parsed ≡ ok gv
      → IsAccounted r gv (resolve s errors id packages inputs resources).0
  unfolding resolve gather_package
  resolve_accounts errors id packages inputs resources r gv m p = final_accounts _ r gv _ (
      kept r gv (loop_grows (gather_package s) (λ x k d. grow_pkg k _ d) packages _)
        (loop_accounts resources _ r gv m p))
