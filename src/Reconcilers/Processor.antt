-- ===== src/Reconcilers/Processor.antt =====
-- The processor: pkg/reconcilers/packageprocessor/reconcilers.go. It runs kform on the package, stores
-- the output as the package's resources and completes its readiness gate. A run of kform
-- and the update of the resources are calls; what `gatherPackageresources` gives is an argument: whether
-- the package has an inventory, or an error.
pub mod Released
pub mod Justified
use pkgserver.Prelude.{
  ℕ, Bool, true, false, ◌&&◌, not, [], ◌∷◌, List, Option, none, some, Str, ◌==◌, str_eq,
  if◌then◌else◌, Result, ok, err,
}
use pkgserver.Go.Strings.{codes}
use pkgserver.Condition.{
  type_ready, gate_process, condition_false, get_condition, condition_update, condition_failed,
}
use pkgserver.PackageRevision.{
  PackageRevision, Lifecycle, deletion_proposed, get_previous_condition, set_conditions_of,
}
use pkgserver.Kube.{
  Fetched, found, not_found, get_failed, acquire_lease, add_finalizer, remove_finalizer, run_kform,
  update_resources, Api, Outcome, done, again, lease_again, Run, pure, wrap, err_get_cr, send,
  return_status,
}
use pkgserver.Kube
use pkgserver.Reconcilers.Gate.{is_irrelevant, complete_gate}

abbrev pub controller_name : Str
controller_name = codes "PackageProcessorController"

is_deletion_proposed : Lifecycle → Bool
is_deletion_proposed deletion_proposed = true
is_deletion_proposed _ = false

module _ (api : Api) (now : ℕ) where
  -- `handleError` with an error, and the status update after it.
  fail_with : Str → PackageRevision → Run Outcome
  fail_with e cr =
      return_status api again (set_conditions_of cr (condition_failed now gate_process e ∷ []))

  -- A call, and what comes next where it has no error.
  attempt : Kube.Call → Run Outcome → PackageRevision → Run Outcome
  unfolding fail_with
  attempt call next cr =
      Kube.◌>>=◌ (send api call)
        (λ answer. elim answer.0 as (λ _. Run Outcome) [ none ↦ next | some e ↦ fail_with e cr ])

  release : PackageRevision → Run Outcome
  release cr =
      Kube.◌>>=◌ (send api (remove_finalizer cr))
        (λ answer. pure (elim answer.0 [ none ↦ done | some _ ↦ again ]))

  -- The resources that kform applied go before the finalizer.
  clean_up : Result Bool → PackageRevision → Run Outcome
  unfolding attempt release
  clean_up (err e) cr = fail_with e cr
  clean_up (ok true) cr = attempt (run_kform true) (release cr) cr
  clean_up (ok false) cr = release cr

  delete : Result Bool → PackageRevision → Run Outcome
  unfolding clean_up is_deletion_proposed
  delete gathered cr =
      if not (cr.id.revision == []) && not (is_deletion_proposed cr.lifecycle)
      then pure done
      else clean_up gathered cr

  work : Result Bool → PackageRevision → Run Outcome
  unfolding attempt
  work (err e) cr = fail_with e cr
  work (ok exists) cr =
      attempt (run_kform false)
        (attempt (update_resources cr) (return_status api done (complete_gate now gate_process cr))
          cr)
        cr

  process_held : Result Bool → PackageRevision → Run Outcome
  unfolding work
  process_held gathered cr =
      if (get_condition cr.conditions gate_process).status == condition_false
      then work gathered cr
      else pure done

  process : Result Bool → PackageRevision → Run Outcome
  unfolding process_held
  process gathered cr = Kube.◌>>=◌ (send api (add_finalizer cr)) (λ answer.
      elim answer.0 as (λ _. Run Outcome) [
        | none ↦ process_held gathered answer.1
        | some e ↦ return_status api again (
            set_conditions_of answer.1
              (condition_update now gate_process (codes "cannot add finalizer") e ∷ []))
      ])

  leased : Result Bool → PackageRevision → Run Outcome
  unfolding process delete
  leased gathered cr = Kube.◌>>=◌ (send api (acquire_lease controller_name)) (λ answer.
      elim answer.0 as (λ _. Run Outcome) [
        | some _ ↦ pure lease_again
        | none ↦ if cr.deleting then delete gathered cr else process gathered cr
      ])

  reconcile_found : Result Bool → PackageRevision → Run Outcome
  unfolding leased
  reconcile_found gathered cr =
      if is_irrelevant gate_process cr
      then pure done
      else if not cr.deleting && (get_condition cr.conditions type_ready).status == condition_false
      then pure done
      else if not cr.deleting
          && (get_previous_condition now cr gate_process).status == condition_false
      then pure done
      else leased gathered cr

  on_fetched : Result Bool → Fetched → Run Outcome
  unfolding reconcile_found
  on_fetched gathered not_found = pure done
  on_fetched gathered (get_failed e) = pure (record done { error = wrap err_get_cr (some e) })
  on_fetched gathered (found cr) = reconcile_found gathered cr

  unfoldable pub reconcile : Result Bool → Run Outcome
  unfolding on_fetched
  reconcile gathered = on_fetched gathered api.fetched
