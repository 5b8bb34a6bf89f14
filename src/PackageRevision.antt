-- ===== src/PackageRevision.antt =====
-- The resource PackageRevision and what it is asked about itself:
-- apis/pkg/v1alpha1/packagerevisions_types.go and packagerevisions_interface.go.
pub mod Gates
pub mod Transitions
pub mod Workspace
use pkgserver.Prelude.{
  ℕ, ◌+◌, ◌<◌, Bool, true, false, ◌&&◌, ◌||◌, List, [], ◌∷◌, ◌++◌, Option, none, some, Str, ◌==◌,
  str_eq, if◌then◌else◌, ltb, leb, length, get_or, Result, ok, err, ◌>>=◌, nat_eq,
}
use pkgserver.Go.Strings.{codes, has_prefix, has_suffix}
use pkgserver.PkgRevId.{PackageRevId, Upstream, get_repo_name}
use pkgserver.Condition.{
  Condition, type_end, has_condition, get_condition, set_conditions, always_true, always_false,
}

-- A lifecycle is a string: `other` is one that the program gives no name.
pub data Lifecycle : Type 0 where
  draft proposed published deletion_proposed : Lifecycle
  other : Str → Lifecycle

pub data TaskType : Type 0 where
  task_init task_clone : TaskType
  task_other : Str → TaskType

pub record OwnerReference : Type 0 where
  pub api_version : Str
  pub kind : Str
  pub name : Str
  pub uid : Str
  pub controller : Bool

-- The metadata, the specification and the conditions; `deleting` says that the deletion timestamp
-- is set, and a readiness gate is its condition type.
pub record PackageRevision : Type 0 where
  pub namespace : Str
  pub name : Str
  pub labels : List (Str × Str)
  pub annotations : List (Str × Str)
  pub finalizers : List Str
  pub owner_references : List OwnerReference
  pub deleting : Bool
  pub id : PackageRevId
  pub lifecycle : Lifecycle
  pub tasks : List TaskType
  pub readiness_gates : List Str
  pub upstream : Option Upstream
  pub inputs : List Str
  pub conditions : List Condition

unfoldable pub lifecycle_string : Lifecycle → Str
lifecycle_string draft = codes "draft"
lifecycle_string proposed = codes "proposed"
lifecycle_string published = codes "published"
lifecycle_string deletion_proposed = codes "deletionProposed"
lifecycle_string (other s) = s

-- `GetCondition`, `HasCondition` and `SetConditions` of the resource are those of its status.
unfoldable pub set_conditions_of : PackageRevision → List Condition → PackageRevision
set_conditions_of r news = record r { conditions = set_conditions r.conditions news }

has_key : Str → List (Str × Str) → Bool
has_key k [] = false
has_key k ((j, v) ∷ m) = j == k || has_key k m

abbrev pub discovered_key : Str
discovered_key = codes "pkg.pkgserver.dev/DiscoveredPkgRev"

-- The comparison of `ValidateRepository`; `none` is the error `nil`.
unfoldable pub repository_mismatch : Str → Str → Option Str
repository_mismatch repo spec =
    if repo == spec
    then none
    else some (
        codes
          "the name of the packagerevision, must start with the repo name as it is used in lookups for packagerevisionresources, got name: "
        ++ (repo ++ (codes ", spec: " ++ spec)))

-- `err` is the panic of `GetRepoNameFromPkgRevName`.
unfoldable pub validate_repository : PackageRevision → Result (Option Str)
validate_repository r = do
  repo ← get_repo_name r.name
  ok (repository_mismatch repo r.id.repository)

unfoldable pub validate_discovery_annotation : PackageRevision → Option Str
unfolding has_key
validate_discovery_annotation r =
    if has_key discovered_key r.annotations
    then none
    else some (codes "discovery annotation not present")

-- A character of the pattern `^[a-z0-9-]+$`.
is_name_char : ℕ → Bool
is_name_char c = (leb b'a' c && leb c b'z') || ((leb b'0' c && leb c b'9') || c == b'-')

all_name_chars : Str → Bool
all_name_chars [] = true
all_name_chars (c ∷ s) = is_name_char c && all_name_chars s

-- The messages leave out the name, which the source quotes in them.
unfoldable pub validate_workspace_name : Str → Option Str
unfolding all_name_chars is_name_char has_prefix has_suffix
validate_workspace_name wn =
    if ltb 63 (length wn) || length wn == 0
    then some (codes "workspaceName must be at least 1 and at most 63 characters long")
    else if has_prefix wn (codes "-") || has_suffix wn (codes "-")
    then some (codes "workspaceName must start and end with an alphanumeric character")
    else if all_name_chars wn
    then none
    else some
        (codes "workspaceName must be comprised only of lowercase alphanumeric characters and '-'")

unsupported_transition : Lifecycle → Lifecycle → Option Str
unsupported_transition old new = some (
    codes "unsupported lifecycle transition "
    ++ (lifecycle_string old ++ (codes " -> " ++ lifecycle_string new)))

unsupported_lifecycle : Lifecycle → Option Str
unsupported_lifecycle l = some (codes "unsupported lifecycle " ++ lifecycle_string l)

-- The two nested `switch` statements of `ValidateUpdateLifeCycle`, old lifecycle first.
unfoldable pub validate_lifecycle_change : Lifecycle → Lifecycle → Option Str
unfolding unsupported_transition unsupported_lifecycle
validate_lifecycle_change draft draft = none
validate_lifecycle_change draft proposed = none
validate_lifecycle_change draft deletion_proposed = none
validate_lifecycle_change draft published = unsupported_transition draft published
validate_lifecycle_change draft (other s) = unsupported_lifecycle (other s)
validate_lifecycle_change proposed draft = none
validate_lifecycle_change proposed proposed = none
validate_lifecycle_change proposed deletion_proposed = none
validate_lifecycle_change proposed published = none
validate_lifecycle_change proposed (other s) = unsupported_lifecycle (other s)
validate_lifecycle_change published draft = unsupported_transition published draft
validate_lifecycle_change published proposed = unsupported_transition published proposed
validate_lifecycle_change published deletion_proposed = none
validate_lifecycle_change published published = none
validate_lifecycle_change published (other s) = unsupported_lifecycle (other s)
validate_lifecycle_change deletion_proposed draft = unsupported_transition deletion_proposed draft
validate_lifecycle_change deletion_proposed proposed =
    unsupported_transition deletion_proposed proposed
validate_lifecycle_change deletion_proposed deletion_proposed = none
validate_lifecycle_change deletion_proposed published = none
validate_lifecycle_change deletion_proposed (other s) = unsupported_lifecycle (other s)
validate_lifecycle_change (other s) new = unsupported_lifecycle new

unfoldable pub validate_update_lifecycle : PackageRevision → PackageRevision → Option Str
unfolding validate_lifecycle_change
validate_update_lifecycle new old = validate_lifecycle_change old.lifecycle new.lifecycle

has_gate : Str → List Str → Bool
has_gate t [] = false
has_gate t (g ∷ gs) = let rest = has_gate t gs in if g == t then true else rest

unfoldable pub has_readiness_gate : PackageRevision → Str → Bool
unfolding has_gate
has_readiness_gate r t = has_gate t r.readiness_gates

-- The loop that finds `idx`; it stays 0 where no gate has the type.
gate_index : Str → ℕ → List Str → ℕ
gate_index t i [] = 0
gate_index t i (g ∷ gs) = let rest = gate_index t (i + 1) gs in if g == t then i else rest

unfoldable pub next_readiness_gate : PackageRevision → Str → Str
unfolding gate_index
next_readiness_gate r t =
    let idx = gate_index t 0 r.readiness_gates in
    if ltb (idx + 1) (length r.readiness_gates)
    then get_or r.readiness_gates (idx + 1) type_end
    else type_end

-- The loop of `GetPreviousCondition` with the gate before the current one: there is none at index 0.
previous_from : ℕ → List Condition → Str → Option Str → List Str → Condition
previous_from now cs t before [] = always_false now
previous_from now cs t before (g ∷ gs) =
    let rest = previous_from now cs t (some g) gs in
    if g == t then elim before [ none ↦ always_true now | some b ↦ get_condition cs b ] else rest

unfoldable pub get_previous_condition : ℕ → PackageRevision → Str → Condition
unfolding previous_from
get_previous_condition now r t = previous_from now r.conditions t none r.readiness_gates

abbrev known_selectors : List Str
known_selectors =
    codes "metadata.name"
    ∷ codes "metadata.namespace"
    ∷ codes "spec.packageRevID.target"
    ∷ codes "spec.packageRevID.repository"
    ∷ codes "spec.packageRevID.realm"
    ∷ codes "spec.packageRevID.package"
    ∷ codes "spec.packageRevID.workspace"
    ∷ codes "spec.packageRevID.revision"
    ∷ codes "spec.lifecycle"
    ∷ []

-- `ConvertPackageRevisionsFieldSelector`.
unfoldable pub convert_field_selector : Str → Str → Result (Str × Str)
unfolding has_gate
convert_field_selector label value =
    if has_gate label known_selectors
    then ok (label, value)
    else err (label ++ codes " is not a known field selector")
