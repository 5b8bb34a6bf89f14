-- ===== src/Catalog/Store/Publication.antt =====
-- What a package revision's outputs do to the API store: UpdatePkgRevAPI of
-- pkg/reconcilers/packagediscovery/catalog/store.go with apireferences.go.
use pkgserver.Prelude.{
  ◌≡◌, refl, ap, ◌∙◌, Bool, true, false, not, ◌&&◌, ◌||◌, List, [], ◌∷◌, arith, Str, ◌==◌, str_eq,
  str_beq_iff, if◌then◌else◌, Result, ok, err,
}
use pkgserver.Go.Strings.{codes}
use pkgserver.PackageRevision.{PackageRevision}
use pkgserver.Catalog.Resolver.{api_service_name}
use pkgserver.Catalog.References.{
  Reference, Definition, Output, References, reference_eq, insert_reference, insert_versions,
  gather_from_definition, gather_from_service, gather_output, gather_apis,
}
use pkgserver.Catalog.Versions.{has_name}
use pkgserver.Catalog.Store.{Stores, Catalog, store_key, update_pkg_rev_api, publish_all}
use pkgserver.Catalog.Store.Refines.{brings, view, view-publish_all}
use pkgserver.Storer.{Key, key_eq, IsMemory}

-- The output is a custom resource definition of the API with the version, or an API service of its
-- group and version.
defines : Result Definition → Key → Str → Bool
defines (err e) k v = false
defines (ok crd) k v = k == store_key crd.group crd.kind && has_name v crd.versions

serves : Result (Str × Str) → Key → Str → Bool
serves (err e) k v = false
serves (ok (group, version)) k v = k == store_key group api_service_name && version == v

unfoldable pub exposes_one : Output → Key → Str → Bool
unfolding defines serves
exposes_one o k v =
    if o.api_version == codes "apiextensions.k8s.io/v1"
      && o.kind == codes "CustomResourceDefinition"
    then defines o.definition k v
    else if o.api_version == codes "apiregistration.k8s.io/v1" && o.kind == codes "APIService"
    then serves o.service k v
    else false

unfoldable pub exposes : List Output → Key → Str → Bool
exposes [] k v = false
exposes (o ∷ os) k v = exposes_one o k v || exposes os k v

-- The reference is to the API and the version.
points : Reference → Key → Str → Bool
points r k v = k == store_key r.group r.kind && r.version == v

any_points : List Reference → Key → Str → Bool
any_points [] k v = false
any_points (r ∷ refs) k v = points r k v || any_points refs k v

brings_lem :
    (cr : PackageRevision) (refs : List Reference) (k : Key) (v n : Str)
    → brings cr refs k v n ≡ (any_points refs k v && cr.name == n)
unfolding brings any_points points
brings_lem cr [] k v n = refl
brings_lem cr (r ∷ refs) k v n = ground (arith, brings_lem cr refs k v n)

reference_points :
    (q r : Reference) (k : Key) (v : Str) → reference_eq q r ≡ true → points q k v ≡ points r k v
unfolding reference_eq points
reference_points q r k v h = ground (
  arith,
  h,
  str_beq_iff q.group r.group,
  str_beq_iff q.version r.version,
  str_beq_iff q.kind r.kind,
)

insert_points :
    (r : Reference) (refs : List Reference) (k : Key) (v : Str)
    → any_points (insert_reference r refs) k v ≡ (any_points refs k v || points r k v)
unfolding any_points insert_reference
insert_points r [] k v = ground arith
insert_points r (q ∷ refs) k v = ground (arith, insert_points r refs k v, reference_points q r k v)

versions_point :
    (crd : Definition) (vs : List Str) (refs : List Reference) (k : Key) (v : Str)
    → any_points (insert_versions crd vs refs) k v
      ≡ (any_points refs k v || (k == store_key crd.group crd.kind && has_name v vs))
unfolding insert_versions has_name points
versions_point crd [] refs k v = ground arith
versions_point crd (w ∷ vs) refs k v =
    versions_point crd vs _ k v
    ∙ ap (λ b. b || (k == store_key crd.group crd.kind && has_name v vs)) (insert_points _ refs k v)
    ∙ ground arith

definition_points :
    (d : Result Definition) (refs : References) (k : Key) (v : Str)
    → any_points (gather_from_definition d refs).0 k v ≡ (any_points refs.0 k v || defines d k v)
unfolding gather_from_definition defines
definition_points (err e) (refs, errors) k v = ground arith
definition_points (ok crd) (refs, errors) k v = versions_point crd crd.versions refs k v

service_points :
    (s : Result (Str × Str)) (refs : References) (k : Key) (v : Str)
    → any_points (gather_from_service s refs).0 k v ≡ (any_points refs.0 k v || serves s k v)
unfolding gather_from_service serves points
service_points (err e) (refs, errors) k v = ground arith
service_points (ok (group, version)) (refs, errors) k v = insert_points _ refs k v

output_points :
    (o : Output) (refs : References) (k : Key) (v : Str)
    → any_points (gather_output o refs).0 k v ≡ (any_points refs.0 k v || exposes_one o k v)
unfolding gather_output exposes_one
output_points o refs k v =
    ground (arith, definition_points o.definition refs k v, service_points o.service refs k v)

gather_points :
    (os : List Output) (refs : References) (k : Key) (v : Str)
    → any_points (gather_apis os refs).0 k v ≡ (any_points refs.0 k v || exposes os k v)
unfolding gather_apis exposes
gather_points [] refs k v = ground arith
gather_points (o ∷ os) refs k v =
    ground (arith, gather_points os (gather_output o refs) k v, output_points o refs k v)

module _ (m : Stores) (memory : IsMemory m.apis) where
  module _ (order : List Reference → List Reference) (has_error : List Str → Bool) where
    -- Over a memory store, and in whatever order the set gives the references: where the recorder has no
    -- error after the outputs were read, the package revision stands afterwards behind exactly the APIs and
    -- versions that its outputs expose, besides what was there; where it has one, nothing changes.
    pub update_pkg_rev_api_lem :
        ((cr : PackageRevision) (refs : List Reference) (k : Key) (v n : Str)
          → brings cr (order refs) k v n ≡ brings cr refs k v n)
        → (cr : PackageRevision) (outputs : List Output) (c : Catalog m) (k : Key) (v n : Str)
        → view m (update_pkg_rev_api m order has_error cr outputs c) k v n ≡ (
            view m c k v n
            || (not (has_error (gather_apis outputs ([], c.errors)).1)
                && (exposes outputs k v && cr.name == n)))
    unfolding update_pkg_rev_api view any_points
    update_pkg_rev_api_lem same cr outputs c k v n =
        by_error (has_error (gather_apis outputs ([], c.errors)).1)
      where
        all : Catalog m
        all = record c { errors = (gather_apis outputs ([], c.errors)).1 }

        refs : List Reference
        refs = (gather_apis outputs ([], c.errors)).0

        by_error :
            (test : Bool)
            → view m (if test then all else publish_all m cr (order refs) all) k v n
              ≡ (view m c k v n || (not test && (exposes outputs k v && cr.name == n)))
        by_error true = ground arith
        by_error false =
            view-publish_all m memory cr (order refs) all k v n
            ∙ ap (λ b. view m c k v n || b)
                (same cr refs k v n
                  ∙ brings_lem cr refs k v n
                  ∙ ap (λ b. b && cr.name == n) (gather_points outputs ([], c.errors) k v))
