-- ===== src/Reconcilers/Gate.antt =====
-- What the reconcilers that own a readiness gate share: when they leave a package revision alone, and
-- how they finish. The same lines stand in pkg/reconcilers/packageapproval,
-- packageprocessor, packageinstaller and packagescheduler.
pub mod Completion
use pkgserver.Prelude.{
  ℕ, Bool, true, false, ◌||◌, not, [], ◌∷◌, List, Str, ◌==◌, str_eq, if◌then◌else◌,
}
use pkgserver.Go.Strings.{codes, has_prefix}
use pkgserver.PkgRevId.{pkg_target_catalog}
use pkgserver.Condition.{type_end, has_condition, condition_ready, condition_update}
use pkgserver.PackageRevision.{
  PackageRevision, has_readiness_gate, next_readiness_gate, set_conditions_of,
}

-- A package revision of the catalog, or one without the gate, is not relevant.
unfoldable pub is_irrelevant : Str → PackageRevision → Bool
is_irrelevant gate cr = has_prefix cr.name pkg_target_catalog || not (has_readiness_gate cr gate)

-- The gate's condition becomes true, and the next gate's starts, where it is not there yet.
unfoldable pub complete_gate : ℕ → Str → PackageRevision → PackageRevision
complete_gate now gate cr =
    let cr' = set_conditions_of cr (condition_ready now gate ∷ []) in
    let next = next_readiness_gate cr' gate in
    if next == type_end
    then cr'
    else if has_condition cr'.conditions next
    then cr'
    else set_conditions_of cr' (condition_update now next (codes "init") [] ∷ [])
