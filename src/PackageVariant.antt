-- ===== src/PackageVariant.antt =====
-- The resource PackageVariant, and the package revisions that are built from one:
-- apis/config/v1alpha1/packagevariant_types.go and packagevariant_interfaces.go, and the builders of
-- pkg/reconcilers/packagescheduler and packagevariant. The SHA-1 of the specification's JSON is a
-- parameter, `digest`.
use pkgserver.Prelude.{
  ℕ, ◌+◌, Bool, false, List, [], ◌∷◌, ◌++◌, some, Str, str_eq, if◌then◌else◌, ltb, take, Result, ok,
  err,
}
use Prim.Native.Nat.{◌/◌, ◌%◌}
use pkgserver.Go.Strings.{codes, replace_all}
use pkgserver.Go.Path.{slash}
use pkgserver.PkgRevId.{
  PackageRevId, Upstream, Downstream, dot, pkg_rev_string, upstream_pkg_string,
}
use pkgserver.Condition.{Condition, gate_process, gate_approve, gate_install, set_conditions}
use pkgserver.PackageRevision.{PackageRevision, draft, task_clone, OwnerReference}

pub data DeletionPolicy : Type 0 where
  policy_delete policy_orphan : DeletionPolicy
  policy_other : Str → DeletionPolicy

pub record PackageContext : Type 0 where
  pub inputs : List Str
  pub annotations : List (Str × Str)
  pub labels : List (Str × Str)
  pub readiness_gates : List Str

-- The type and object metadata, the specification and the conditions.
pub record PackageVariant : Type 0 where
  pub api_version : Str
  pub kind : Str
  pub namespace : Str
  pub name : Str
  pub uid : Str
  pub deleting : Bool
  pub upstream : Upstream
  pub downstream : Downstream
  pub context : PackageContext
  pub adoption_policy : Str
  pub deletion_policy : DeletionPolicy
  pub conditions : List Condition

abbrev pub config_api_version : Str
config_api_version = codes "config.pkg.pkgserver.dev/v1alpha1"

unfoldable pub set_variant_conditions : PackageVariant → List Condition → PackageVariant
set_variant_conditions v news = record v { conditions = set_conditions v.conditions news }

hex_digit : ℕ → ℕ
hex_digit n = if ltb n 10 then b'0' + n else 87 + n

-- `hex.EncodeToString`.
unfoldable pub hex_encode : List ℕ → Str
unfolding hex_digit
hex_encode [] = []
hex_encode (b ∷ bs) = hex_digit (b / 16) ∷ hex_digit (b % 16) ∷ hex_encode bs

-- `GetWorkspaceName`.
unfoldable pub workspace_name : List ℕ → Str
unfolding hex_encode
workspace_name hash = codes "pv-" ++ hex_encode (take 8 hash)

-- `GetPackageRevisionName` and `PackageToName`.
unfoldable pub package_to_name : Str → Str
package_to_name pkg = replace_all slash b':' pkg

unfoldable pub package_revision_name : Str → Str → Str → Str
unfolding package_to_name
package_revision_name repo pkg ws = repo ++ (dot ∷ (package_to_name pkg ++ (dot ∷ ws)))

-- The identity that both builders give: the downstream's, with the workspace of the hash and no
-- revision yet.
unfoldable pub variant_id : PackageVariant → List ℕ → PackageRevId
variant_id v hash = record {
  target = v.downstream.target;
  repository = v.downstream.repository;
  realm = v.downstream.realm;
  pkg = v.downstream.pkg;
  revision = [];
  workspace = workspace_name hash;
}

-- What both builders give but the owners: a draft that clones the upstream.
unfoldable pub build_revision : List OwnerReference → PackageVariant → List ℕ → PackageRevision
unfolding variant_id
build_revision owners v hash = record {
  namespace = v.namespace;
  name = pkg_rev_string (variant_id v hash);
  labels = v.context.labels;
  annotations = v.context.annotations;
  finalizers = [];
  owner_references = owners;
  deleting = false;
  id = variant_id v hash;
  lifecycle = draft;
  tasks = task_clone ∷ [];
  readiness_gates = v.context.readiness_gates;
  upstream = some v.upstream;
  inputs = v.context.inputs;
  conditions = [];
}

-- `buildPackageVariant` of the scheduler.
unfoldable pub build_variant : PackageRevision → Upstream → PackageVariant
build_variant r u = record {
  api_version = config_api_version;
  kind = codes "PackageVariant";
  namespace = r.namespace;
  name = r.id.target ++ (codes "-pkginstall-" ++ replace_all slash dot (upstream_pkg_string u));
  uid = [];
  deleting = false;
  upstream = u;
  downstream = record {
    target = r.id.target;
    repository = r.id.repository;
    realm = u.realm;
    pkg = u.pkg;
  };
  context = record {
    inputs = [];
    annotations = [];
    labels = [];
    readiness_gates = gate_process ∷ gate_approve ∷ gate_install ∷ [];
  };
  adoption_policy = [];
  deletion_policy = policy_other [];
  conditions = [];
}

module _ (digest : PackageVariant → Result (List ℕ)) where
  unfoldable pub built : Result (List ℕ) → PackageVariant → Result PackageRevision
  built (err e) v = err e
  built (ok hash) v = ok (build_revision [] v hash)

  -- `buildPackageRevision` of the scheduler.
  unfoldable pub build_package_revision : PackageVariant → Result PackageRevision
  unfolding built
  build_package_revision v = built (digest v) v
