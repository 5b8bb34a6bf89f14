-- ===== src/Reconcilers/Scheduler.antt =====
-- The scheduler: pkg/reconcilers/packagescheduler/reconcilers.go. It applies a package variant for each
-- missing dependency of a package revision that has no missing dependency itself, and completes its
-- readiness gate once nothing is missing. The store of the installed packages is a parameter.
pub mod Lookup
pub mod Installed
pub mod Resolution
pub mod Safety
use pkgserver.Prelude.{
  ℕ, Bool, true, false, not, [], ◌∷◌, List, Option, none, some, Str, ◌==◌, str_eq, nat_eq,
  if◌then◌else◌, length, Result, ok, err,
}
use pkgserver.Go.Strings.{codes}
use pkgserver.PkgRevId.{pkg_string}
use pkgserver.Condition.{gate_schedule, condition_update}
use pkgserver.PackageRevision.{PackageRevision, set_conditions_of}
use pkgserver.PackageVariant.{PackageVariant}
use pkgserver.Kube.{
  Fetched, found, not_found, get_failed, acquire_lease, add_finalizer, remove_finalizer,
  apply_variant, Api, Outcome, done, again, lease_again, Run, pure, wrap, err_get_cr, send,
  return_status,
}
use pkgserver.Kube
use pkgserver.Storer.{Storer}
use pkgserver.Reconcilers.Gate.{is_irrelevant, complete_gate}
use pkgserver.Reconcilers.Scheduler.Installed.{
  Package, revision_key, with_revision, without_revision,
}
use pkgserver.Reconcilers.Scheduler.Resolution.{
  Dag, World, State, Ending, resolved, failed, panicked, endless, is_resolved,
}

abbrev pub controller_name : Str
controller_name = codes "PackageSchedulerController"

-- `ctrl.Result{RequeueAfter: …}`, in seconds.
abbrev pub after_seconds : ℕ → Outcome
after_seconds n = record done { requeue_after = n }

-- A reconcile returns, panics, or recurs beyond the fuel.
pub data Finish : Type 0 where
  returned : Outcome → Finish
  crashed : Str → Finish
  diverged : Finish

is_empty : List Str → Bool
is_empty [] = true
is_empty (_ ∷ _) = false

module _ (api : Api) (now : ℕ) (dag : Dag) (w : World) (fuel : ℕ) where
  -- The condition, the status update and the outcome.
  give_up : Outcome → Str → Str → PackageRevision → Run Finish
  give_up o reason msg cr =
      Kube.◌>>=◌
        (return_status api o
          (set_conditions_of cr (condition_update now gate_schedule reason msg ∷ [])))
        (λ out. pure (returned out))

  -- What follows the loop over the vertices.
  conclude : PackageRevision → dag.Graph → Run Finish
  unfolding give_up
  conclude cr g =
      if length (dag.vertices g) == 1
      then Kube.◌>>=◌ (return_status api done (complete_gate now gate_schedule cr))
          (λ out. pure (returned out))
      else give_up (after_seconds 10) (codes "pkg dependencies being installed") [] cr

  -- One turn of the loop that has a package variant to apply.
  apply_one : PackageRevision → PackageVariant → Run Finish → Run Finish
  unfolding give_up
  apply_one cr v next = Kube.◌>>=◌ (send api (apply_variant v)) (λ answer.
      elim answer.0 as (λ _. Run Finish) [
        | none ↦ next
        | some _ ↦ give_up again (codes "cannot apply pkgVariant") v.name cr
      ])

  apply_all : PackageRevision → dag.Graph → List (Str × Option PackageVariant) → Run Finish
  unfolding conclude apply_one is_empty
  apply_all cr g [] = conclude cr g
  apply_all cr g ((name, none) ∷ vertices) = apply_all cr g vertices
  apply_all cr g ((name, some v) ∷ vertices) =
      let rest = apply_all cr g vertices in
      if is_empty (dag.down name g) then apply_one cr v rest else rest

  on_ending : PackageRevision → Ending dag → Run Finish
  unfolding apply_all give_up
  on_ending cr (resolved true s) = apply_all cr s.graph (dag.vertices s.graph)
  on_ending cr (resolved false s) =
      give_up (after_seconds 15) (codes "pkg dependency resolution incomplete") [] cr
  on_ending cr (failed e) = give_up again (codes "cannot recursively resolve dependencies") e cr
  on_ending cr (panicked e) = pure (crashed e)
  on_ending cr endless = pure diverged

  -- The graph with the package revision itself.
  with_self : PackageRevision → Result dag.Graph → Run Finish
  unfolding on_ending
  with_self cr (err e) = give_up again (codes "cannot add pkgRev to dag") cr.name cr
  with_self cr (ok g) =
      on_ending cr (is_resolved dag w fuel cr (record { listings = 0; graph = g }))

  schedule : PackageRevision → Run Finish
  unfolding with_self
  schedule cr = with_self cr (dag.add_vertex (pkg_string cr.id) none dag.new)

module _ (api : Api) (now : ℕ) (dag : Dag) (w : World) (fuel : ℕ) (m : Storer Package) where
  -- The reconcile's end and the store of the installed packages after it.
  abbrev Scheduled : Type 0
  Scheduled = Finish × m.Store

  keep : m.Store → Run Finish → Run Scheduled
  keep s run = Kube.◌>>=◌ run (λ out. pure (out, s))

  on_stored : PackageRevision → Option Str × m.Store → Run Scheduled
  unfolding keep schedule
  on_stored cr (none, s) = keep s (schedule api now dag w fuel cr)
  on_stored cr (some _, s) =
      keep s (
        give_up api now dag w fuel again (codes "cannot add pkgRev to installedPkgStore") cr.name
          cr)

  process : PackageRevision → m.Store → Run Scheduled
  unfolding on_stored
  process cr s = Kube.◌>>=◌ (send api (add_finalizer cr)) (λ answer.
      elim answer.0 as (λ _. Run Scheduled) [
        | none ↦
            on_stored answer.1
              (m.update_with_key_fn (revision_key answer.1) (with_revision answer.1) s)
        | some e ↦
            keep s (give_up api now dag w fuel again (codes "cannot add finalizer") e answer.1)
      ])

  -- The error of the store is only logged.
  delete : PackageRevision → m.Store → Run Scheduled
  delete cr s = Kube.◌>>=◌ (send api (remove_finalizer cr)) (λ answer. pure (
    returned (elim answer.0 [ none ↦ done | some _ ↦ again ]),
    (m.update_with_fn (without_revision cr) s).1,
  ))

  leased : PackageRevision → m.Store → Run Scheduled
  unfolding process delete
  leased cr s = Kube.◌>>=◌ (send api (acquire_lease controller_name)) (λ answer.
      elim answer.0 as (λ _. Run Scheduled) [
        | some _ ↦ pure (returned lease_again, s)
        | none ↦ if cr.deleting then delete cr s else process cr s
      ])

  reconcile_found : PackageRevision → m.Store → Run Scheduled
  unfolding leased
  reconcile_found cr s =
      if is_irrelevant gate_schedule cr then pure (returned done, s) else leased cr s

  on_fetched : Fetched → m.Store → Run Scheduled
  unfolding reconcile_found
  on_fetched not_found s = pure (returned done, s)
  on_fetched (get_failed e) s =
      pure (returned (record done { error = wrap err_get_cr (some e) }), s)
  on_fetched (found cr) s = reconcile_found cr s

  unfoldable pub reconcile : m.Store → Run Scheduled
  unfolding on_fetched
  reconcile s = on_fetched api.fetched s
