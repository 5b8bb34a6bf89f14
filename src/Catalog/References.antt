-- ===== src/Catalog/References.antt =====
-- The APIs that a package revision brings:
-- pkg/reconcilers/packagediscovery/catalog/apireferences.go. The YAML decoding is a parameter, and
-- the errors for the recorder are a list, newest first.
use pkgserver.Prelude.{Bool, ◌&&◌, List, [], ◌∷◌, Str, ◌==◌, str_eq, if◌then◌else◌, Result, ok, err}
use pkgserver.Go.Strings.{codes}
use pkgserver.Catalog.Resolver.{api_service_name}

-- `gvkr`.
pub record Reference : Type 0 where
  pub group : Str
  pub version : Str
  pub kind : Str
  pub resource : Str

-- The decoded `spec` of a CustomResourceDefinition.
pub record Definition : Type 0 where
  pub group : Str
  pub versions : List Str
  pub kind : Str
  pub plural : Str

-- An output of a package, with what the decoders give of it: as a definition, and as an API service's
-- group and version.
pub record Output : Type 0 where
  pub api_version : Str
  pub kind : Str
  pub definition : Result Definition
  pub service : Result (Str × Str)

unfoldable pub reference_eq : Reference → Reference → Bool
reference_eq a b =
    a.group == b.group && (a.version == b.version && (a.kind == b.kind && a.resource == b.resource))

-- The set's `Insert`.
unfoldable pub insert_reference : Reference → List Reference → List Reference
unfolding reference_eq
insert_reference r [] = r ∷ []
insert_reference r (q ∷ refs) =
    let rest = insert_reference r refs in if reference_eq q r then q ∷ refs else q ∷ rest

unfoldable pub insert_versions : Definition → List Str → List Reference → List Reference
insert_versions crd [] refs = refs
insert_versions crd (v ∷ vs) refs = insert_versions crd vs (
    insert_reference
      (record { group = crd.group; version = v; kind = crd.kind; resource = crd.plural }) refs)

-- The references gathered, and the errors given to the recorder, newest first.
abbrev pub References : Type 0
References = List Reference × List Str

unfoldable pub gather_from_definition : Result Definition → References → References
unfolding insert_versions
gather_from_definition (err e) (refs, errors) = (refs, e ∷ errors)
gather_from_definition (ok crd) (refs, errors) = (insert_versions crd crd.versions refs, errors)

unfoldable pub gather_from_service : Result (Str × Str) → References → References
gather_from_service (err e) (refs, errors) = (refs, e ∷ errors)
gather_from_service (ok (group, version)) (refs, errors) = (
  insert_reference
      (record {
        group = group;
        version = version;
        kind = api_service_name;
        resource = api_service_name;
      })
      refs,
  errors,
)

-- One turn of the loop of `gatherAPIs`.
unfoldable pub gather_output : Output → References → References
unfolding gather_from_definition gather_from_service
gather_output o refs =
    if o.api_version == codes "apiextensions.k8s.io/v1"
      && o.kind == codes "CustomResourceDefinition"
    then gather_from_definition o.definition refs
    else if o.api_version == codes "apiregistration.k8s.io/v1" && o.kind == codes "APIService"
    then gather_from_service o.service refs
    else refs

unfoldable pub gather_apis : List Output → References → References
unfolding gather_output
gather_apis [] refs = refs
gather_apis (o ∷ os) refs = gather_apis os (gather_output o refs)
