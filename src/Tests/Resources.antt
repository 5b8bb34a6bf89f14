-- ===== src/Tests/Resources.antt =====
-- Package revisions and their conditions.
use pkgserver.Prelude.{
  ◌≡◌, ◌≢◌, ◌↔◌, refl, ◌&&◌, [], ◌∷◌, none, arith, Str, str_eq, if◌then◌else◌, ok, err,
}
use pkgserver.Go.Strings.{codes, split}
use pkgserver.PkgRevId.{get_repo_name}
use pkgserver.Condition.{
  Condition, gate_approve, condition_false, has_condition, get_condition, set_condition,
  set_conditions, equal,
}
use pkgserver.Condition.Set.{IsUnique, get_condition-set_condition, set_conditions-IsUnique}
use pkgserver.PackageRevision.{
  PackageRevision, draft, proposed, published, deletion_proposed, validate_update_lifecycle,
  validate_lifecycle_change, validate_discovery_annotation, validate_repository,
  repository_mismatch,
}
use pkgserver.PackageRevision.Transitions.{
  ◌⟶◌, created, updated, IsClosed, closed_published, validate_update_lifecycle_iff,
  Updates-IsClosed,
}
use pkgserver.Strategy.{Stored, validate_create, validate_update}
use pkgserver.Strategy.Update.{IsUpdate, validate_update_iff}
use pkgserver.Strategy.Create.{
  InRepository, IsNewDraft, validate_create_draft_iff, validate_create_panics,
}
use pkgserver.Reconcilers.Gate.{complete_gate}
use pkgserver.Reconcilers.Gate.Completion.{IsCompleted, complete_gate-IsCompleted}
use pkgserver.Tests.Samples.{
  sample_with, sample_name, condition_of, new_draft, processed, processed_draft,
}

abbrev later : Condition
later = condition_of gate_approve condition_false

get_condition_example :
    (get_condition (set_condition processed later) gate_approve ≡ (
      if has_condition processed gate_approve && equal (get_condition processed gate_approve) later
      then get_condition processed gate_approve
      else later))
    × ((t : Str)
        → t ≢ gate_approve
        → get_condition (set_condition processed later) t ≡ get_condition processed t)
get_condition_example = get_condition-set_condition processed later

processed-IsUnique : IsUnique processed
processed-IsUnique = (((λ e. cc), tt), (tt, tt))

unique_example : IsUnique (set_conditions processed (later ∷ later ∷ []))
unique_example = set_conditions-IsUnique processed (later ∷ later ∷ []) processed-IsUnique

abbrev is_proposed : PackageRevision
is_proposed = sample_with sample_name [] proposed processed

abbrev is_published : PackageRevision
is_published = sample_with sample_name (codes "v1") published processed

abbrev is_leaving : PackageRevision
is_leaving = sample_with sample_name (codes "v1") deletion_proposed processed

lifecycle_example :
    (validate_update_lifecycle is_published is_proposed ≡ none) ↔ (proposed ⟶ published)
lifecycle_example = validate_update_lifecycle_iff is_published is_proposed

history_example : IsClosed deletion_proposed
unfolding validate_update_lifecycle validate_lifecycle_change
history_example =
    Updates-IsClosed {r = is_published} {s = is_leaving} (updated {s = is_published} created refl)
      closed_published

update_example : (validate_update is_published is_proposed ≡ []) ↔ IsUpdate is_published is_proposed
update_example = validate_update_iff is_published is_proposed

abbrev stored : Stored
stored = record { repository_error = none; package_revisions = ok (is_published ∷ []) }

create_draft_example :
    (validate_create stored new_draft ≡ ok [])
    ↔ (InRepository stored new_draft × IsNewDraft stored new_draft)
create_draft_example = validate_create_draft_iff stored new_draft refl

accepted : validate_create stored is_published ≡ ok []
unfolding validate_create validate_repository get_repo_name split repository_mismatch
    validate_discovery_annotation get_condition
accepted = refl

create_panics_example :
    validate_create stored (sample_with (codes "ab") [] draft []) ≡ err (codes "index out of range")
create_panics_example =
    validate_create_panics stored (sample_with (codes "ab") [] draft [])
      (omega arith, (omega arith, tt))

complete_example :
    IsCompleted gate_approve processed_draft (complete_gate 7 gate_approve processed_draft)
complete_example = complete_gate-IsCompleted 7 gate_approve processed_draft
