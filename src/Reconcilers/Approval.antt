-- ===== src/Reconcilers/Approval.antt =====
-- The approval controller: pkg/reconcilers/packageapproval/reconcilers.go. It takes a draft to proposed
-- and a proposed package revision to published, one step in each run, and then
-- completes its readiness gate.
pub mod Calls
pub mod Progress
use pkgserver.Prelude.{
  ℕ, Bool, true, false, [], ◌∷◌, List, Option, none, some, Str, ◌==◌, str_eq, if◌then◌else◌,
}
use pkgserver.Go.Strings.{codes}
use pkgserver.Condition.{gate_approve, condition_false, get_condition, condition_update}
use pkgserver.PackageRevision.{
  Lifecycle, draft, proposed, published, deletion_proposed, other, PackageRevision,
  get_previous_condition, set_conditions_of,
}
use pkgserver.Kube.{
  Fetched, found, not_found, get_failed, acquire_lease, add_finalizer, remove_finalizer, update,
  Api, Outcome, done, again, lease_again, Run, pure, ◌>>=◌, wrap, err_get_cr, send, return_status,
}
use pkgserver.Reconcilers.Gate.{is_irrelevant, complete_gate}

abbrev pub controller_name : Str
controller_name = codes "PackageApprovalController"

module _ (api : Api) (now : ℕ) where
  -- Sets the lifecycle, drops the tasks and updates the object.
  promote : Lifecycle → Str → PackageRevision → Run Outcome
  promote l msg cr = do
    let cr' =
        set_conditions_of (record cr { lifecycle = l; tasks = [] })
          (condition_update now gate_approve msg [] ∷ [])
    (e, cr'') ← send api (update cr')
    elim e [
      | none ↦ pure again
      | some m ↦ return_status api again (
          set_conditions_of cr''
            (condition_update now gate_approve (codes "cannot update cr") m ∷ []))
    ]

  finish : PackageRevision → Run Outcome
  finish cr =
      if (get_condition cr.conditions gate_approve).status == condition_false
      then return_status api done (complete_gate now gate_approve cr)
      else pure done

  by_lifecycle : Lifecycle → PackageRevision → Run Outcome
  unfolding promote finish
  by_lifecycle draft cr = promote proposed (codes "update lifecycle draft -> proposed") cr
  by_lifecycle proposed cr = promote published (codes "update lifecycle proposed -> published") cr
  by_lifecycle published cr = finish cr
  by_lifecycle deletion_proposed cr = pure done
  by_lifecycle (other s) cr = pure done

  process : PackageRevision → Run Outcome
  unfolding by_lifecycle
  process cr = do
    (e, cr') ← send api (add_finalizer cr)
    elim e [
      | none ↦ by_lifecycle cr'.lifecycle cr'
      | some m ↦ return_status api again (
          set_conditions_of cr'
            (condition_update now gate_approve (codes "cannot add finalizer") m ∷ []))
    ]

  delete : PackageRevision → Run Outcome
  delete cr = do
    (e, _) ← send api (remove_finalizer cr)
    pure (elim e [ none ↦ done | some _ ↦ again ])

  leased : PackageRevision → Run Outcome
  unfolding process delete
  leased cr = do
    (e, _) ← send api (acquire_lease controller_name)
    elim e [ some _ ↦ pure lease_again | none ↦ if cr.deleting then delete cr else process cr ]

  pub reconcile_found : PackageRevision → Run Outcome
  unfolding leased
  reconcile_found cr =
      if is_irrelevant gate_approve cr
      then pure done
      else if (get_previous_condition now cr gate_approve).status == condition_false
      then pure done
      else leased cr

  on_fetched : Fetched → Run Outcome
  unfolding reconcile_found
  on_fetched not_found = pure done
  on_fetched (get_failed e) = pure (record done { error = wrap err_get_cr (some e) })
  on_fetched (found cr) = reconcile_found cr

  unfoldable pub reconcile : Run Outcome
  unfolding on_fetched
  reconcile = on_fetched api.fetched
