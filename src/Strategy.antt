-- ===== src/Strategy.antt =====
-- What the API server checks of a package revision before it stores it:
-- pkg/pkgserver/packagerevision/strategy.go. An error is given with its field and its detail,
-- without the value.
pub mod Create
pub mod Update
use pkgserver.Prelude.{
  Bool, true, false, ◌&&◌, not, List, [], ◌∷◌, ◌++◌, Option, none, some, Str, ◌==◌, str_eq,
  if◌then◌else◌, Result, ok, err, ◌>>=◌,
}
use pkgserver.Go.Strings.{codes}
use pkgserver.PkgRevId.{PackageRevId}
use pkgserver.Condition.{Condition, type_ready, condition_false, get_condition}
use pkgserver.PackageRevision.{
  Lifecycle, draft, proposed, published, deletion_proposed, other, PackageRevision,
  validate_repository, validate_discovery_annotation, validate_workspace_name,
  validate_update_lifecycle,
}

pub record FieldError : Type 0 where
  pub field : Str
  pub detail : Str

-- `if test { allErrs = append(allErrs, field.Invalid(…)) }`.
abbrev pub invalid_if : Bool → Str → Str → List FieldError
invalid_if true field detail = record { field = field; detail = detail } ∷ []
invalid_if false field detail = []

-- `if err != nil { … }`, with the error as detail.
abbrev pub invalid_err : Option Str → Str → List FieldError
invalid_err none field = []
invalid_err (some e) field = record { field = field; detail = e } ∷ []

abbrev field_repository : Str
field_repository = codes "spec.packageRevID.repository"

abbrev field_revision : Str
field_revision = codes "spec.packageRevID.revision"

abbrev field_workspace : Str
field_workspace = codes "spec.packageRevID.workspace"

-- The five fields that a workspace is unique in.
unfoldable pub same_workspace : PackageRevId → PackageRevId → Bool
same_workspace a b =
    a.target == b.target
    && (a.repository == b.repository
        && (a.realm == b.realm && (a.pkg == b.pkg && a.workspace == b.workspace)))

duplicates : PackageRevision → List PackageRevision → List FieldError
unfolding same_workspace
duplicates r [] = []
duplicates r (e ∷ es) =
    invalid_if (same_workspace e.id r.id) field_workspace (codes "duplicate workspace: " ++ e.name)
    ++ duplicates r es

is_empty : List Condition → Bool
is_empty [] = true
is_empty (c ∷ cs) = false

-- What the API server answers: the error of `Get` on the repository, and `List` in the namespace.
pub record Stored : Type 0 where
  pub repository_error : Option Str
  pub package_revisions : Result (List PackageRevision)

module _ (stored : Stored) (r : PackageRevision) where
  repository_errors : Option Str → List FieldError
  repository_errors (some e) = invalid_err (some e) field_repository
  repository_errors none = invalid_err stored.repository_error field_repository

  workspace_errors : Result (List PackageRevision) → List FieldError
  unfolding duplicates
  workspace_errors (err e) = invalid_err (some e) field_workspace
  workspace_errors (ok existing) = duplicates r existing

  annotation_error : Option Str → List FieldError
  annotation_error none = []
  annotation_error (some e) =
      invalid_if true (codes "metadata.annotations") (codes "discovery annotation is not present")

  lifecycle_errors : Lifecycle → List FieldError
  unfolding workspace_errors annotation_error is_empty
  lifecycle_errors published =
      annotation_error (validate_discovery_annotation r)
      ++ (invalid_if (r.id.revision == []) field_revision
            (codes "revision cannot be empty when published")
          ++ invalid_if ((get_condition r.conditions type_ready).status == condition_false)
              (codes "status.conditions") (codes "ready condition must be true"))
  lifecycle_errors draft =
      invalid_if (not (r.id.revision == [])) field_revision (codes "revision must be empty")
      ++ (invalid_err (validate_workspace_name r.id.workspace) field_workspace
          ++ (workspace_errors stored.package_revisions
              ++ invalid_if (not (is_empty r.conditions)) (codes "status.conditions")
                  (codes "condition cannot be set")))
  lifecycle_errors _ =
      invalid_if true (codes "spec.lifecycle")
        (codes "cannot create a packagerevision with lifecycle other than draft")

  -- `Validate`; `err` is a panic.
  unfoldable pub validate_create : Result (List FieldError)
  unfolding repository_errors lifecycle_errors
  validate_create = do
    e ← validate_repository r
    ok (repository_errors e ++ lifecycle_errors r.lifecycle)

is_published : Lifecycle → Bool
is_published published = true
is_published _ = false

-- `ValidateUpdate`.
unfoldable pub validate_update : PackageRevision → PackageRevision → List FieldError
unfolding is_published
validate_update new old =
    invalid_if (not (old.id.target == new.id.target)) (codes "spec.packageRevID.target")
      (codes "spec.packageRevID.target is immutable")
    ++ (invalid_if (not (old.id.repository == new.id.repository)) field_repository
          (codes "spec.packageRevID.repository is immutable")
        ++ (invalid_if (not (old.id.realm == new.id.realm)) (codes "spec.packageRevID.realm")
              (codes "spec.packageRevID.realm is immutable")
            ++ (invalid_if (not (old.id.pkg == new.id.pkg)) (codes "spec.packageRevID.package")
                  (codes "spec.packageRevID.package is immutable")
                ++ (invalid_if (not (old.id.workspace == new.id.workspace)) field_workspace
                      (codes "spec.packageRevID.workspace is immutable")
                    ++ (invalid_if
                          (not (is_published new.lifecycle)
                            && not (old.id.revision == new.id.revision))
                          field_revision (codes "spec.packageRevID.revision is immutable")
                        ++ invalid_err (validate_update_lifecycle new old)
                            (codes "spec.lifecycle"))))))
