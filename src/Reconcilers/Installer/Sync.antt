-- ===== src/Reconcilers/Installer/Sync.antt =====
-- What the installer sends: pkg/reconcilers/packageinstaller/reconcilers.go.
use mathlib.Core.Path.{subst}
use pkgserver.Prelude.{
  ℕ, ◌≡◌, refl, sym, ap, false, not, ◌&&◌, List, [], ◌∷◌, Option, none, some, arith, Str, ◌==◌,
  str_eq, nat_eq, ==_refl, if◌then◌else◌, if-cases, All, Result, ok, err,
}
use pkgserver.Go.Strings.{codes}
use pkgserver.PkgRevId.{branch, git_revision, dns_name}
use pkgserver.Condition.{type_ready, gate_install, condition_false, get_condition}
use pkgserver.PackageRevision.{PackageRevision, get_previous_condition}
use pkgserver.Repository.{Repository, GitRepository, RepositoryType, git_type, oci_type, other_type}
use pkgserver.Kube.{
  found, RootSync, Call, acquire_lease, add_finalizer, remove_finalizer, update, update_status,
  create_sync, update_sync, run_kform, update_resources, apply_variant, Api, Outcome, done,
  lease_again, Run, pure, send, return_status,
}
use pkgserver.Reconcilers.Gate.{is_irrelevant}
use pkgserver.Reconcilers.Installer.{
  controller_name, SyncView, SyncFetched, sync_found, sync_missing, sync_failed, Built, built,
  build_failed, build_panics, unsupported, build_for, build_root_sync, drifted, fail_with, conclude,
  send_sync, install_view, install, process_held, process, delete, leased, reconcile_found,
  on_fetched, reconcile,
}

-- The RootSync objects that a run sends.
abbrev pub syncs : List Call → List RootSync
syncs [] = []
syncs (create_sync s ∷ log) = s ∷ syncs log
syncs (update_sync s ∷ log) = s ∷ syncs log
syncs (acquire_lease _ ∷ log) = syncs log
syncs (add_finalizer _ ∷ log) = syncs log
syncs (remove_finalizer _ ∷ log) = syncs log
syncs (update _ ∷ log) = syncs log
syncs (update_status _ ∷ log) = syncs log
syncs (run_kform _ ∷ log) = syncs log
syncs (update_resources _ ∷ log) = syncs log
syncs (apply_variant _ ∷ log) = syncs log

-- The RootSync is that of the package revision: whoever reads it back sees no drift, however many
-- errors it reports.
pub record IsSyncOf (cr : PackageRevision) (s : RootSync) : Type 0 where
  pub named : s.name ≡ dns_name cr.id
  pub settled :
      (m n : ℕ)
      → drifted
          (record { git = some (s.revision, s.branch); source_errors = m; sync_errors = n })
          cr
        ≡ false

built_value : (x y : RootSync) → built x ≡ built y → x ≡ y
built_value x y h = cc

build_for-IsSyncOf :
    (t : RepositoryType) (g : Option GitRepository) (cr : PackageRevision) (s : RootSync)
    → build_for t g cr ≡ built s
    → IsSyncOf cr s
unfolding build_for drifted unsupported
build_for-IsSyncOf git_type none cr s h = cc
build_for-IsSyncOf git_type (some git) cr s h = subst (IsSyncOf cr) (built_value _ s h) (record {
  named = refl;
  settled = λ m n. ground (arith, ==_refl (git_revision cr.id), ==_refl (branch cr.id false));
})
build_for-IsSyncOf oci_type g cr s h = cc
build_for-IsSyncOf (other_type t) g cr s h = cc

build_root_sync-IsSyncOf :
    (repo : Result Repository) (cr : PackageRevision) (s : RootSync)
    → build_root_sync repo cr ≡ built s
    → IsSyncOf cr s
unfolding build_root_sync
build_root_sync-IsSyncOf (err e) cr s h = cc
build_root_sync-IsSyncOf (ok repo) cr s h = build_for-IsSyncOf repo.type repo.git cr s h

module _ (api : Api) (now : ℕ) (held : PackageRevision) where
  -- A run that sends no RootSync but that of the held object.
  Keeps : Run Outcome → Type 0
  Keeps m =
      (log : List Call) → All (IsSyncOf held) (syncs log) → All (IsSyncOf held) (syncs (m log).1)

  status-Keeps : (o : Outcome) (cr : PackageRevision) → Keeps (return_status api o cr)
  unfolding return_status send Keeps
  status-Keeps o cr log h = h

  still-Keeps : (o : Outcome) → Keeps (pure o)
  unfolding Keeps
  still-Keeps o log h = h

  fail-Keeps : (reason msg : Str) (cr : PackageRevision) → Keeps (fail_with api now reason msg cr)
  unfolding fail_with
  fail-Keeps reason msg cr = status-Keeps _ _

  conclude-Keeps : (view : SyncView) (cr : PackageRevision) → Keeps (conclude api now view cr)
  unfolding conclude
  conclude-Keeps view cr =
      if-cases Keeps (not (view.source_errors == 0) && not (view.sync_errors == 0))
        (status-Keeps _ _) (status-Keeps _ _)

  send-Keeps :
      (call : RootSync → Call)
      → ((s : RootSync) (log : List Call) → syncs (call s ∷ log) ≡ s ∷ syncs log)
      → (b : Built) (failure : Str) (rest : Run Outcome)
      → ((s : RootSync) → b ≡ built s → IsSyncOf held s)
      → Keeps rest
      → Keeps (send_sync api now call b failure rest held)
  unfolding send_sync send Keeps
  send-Keeps call sends (build_failed e) failure rest good h = fail-Keeps _ e held
  send-Keeps call sends build_panics failure rest good h = λ log k. k
  send-Keeps call sends (built s) failure rest good h = λ log k.
      answered (api.fails log (call s)) (call s ∷ log)
        (subst (All (IsSyncOf held)) (sym (sends s log)) (good s refl, k))
    where
      answered :
          (e : Option Str)
          → Keeps (elim e as (λ _. Run Outcome) [
            | none ↦ rest
            | some m ↦ fail_with api now failure m held
          ])
      answered none = h
      answered (some m) = fail-Keeps failure m held

  view-Keeps :
      (repo : Result Repository) (view : SyncView) → Keeps (install_view api now repo view held)
  unfolding install_view
  view-Keeps repo view =
      if-cases Keeps (drifted view held)
        (send-Keeps update_sync (λ s log. refl) (build_root_sync repo held) _ _
          (build_root_sync-IsSyncOf repo held) (conclude-Keeps view held))
        (conclude-Keeps view held)

  install-Keeps :
      (sync : SyncFetched) (repo repo_again : Result Repository)
      → Keeps (install api now sync repo repo_again held)
  unfolding install
  install-Keeps (sync_found view) repo repo_again = view-Keeps repo view
  install-Keeps sync_missing repo repo_again =
      send-Keeps create_sync (λ s log. refl) (build_root_sync repo held) _ _
        (build_root_sync-IsSyncOf repo held) (view-Keeps repo_again _)
  install-Keeps (sync_failed e) repo repo_again = fail-Keeps _ e held

  held-Keeps :
      (sync : SyncFetched) (repo repo_again : Result Repository)
      → Keeps (process_held api now sync repo repo_again held)
  unfolding process_held
  held-Keeps sync repo repo_again =
      if-cases Keeps ((get_condition held.conditions gate_install).status == condition_false)
        (install-Keeps sync repo repo_again) (still-Keeps done)

module _ (api : Api) (now : ℕ) (sync : SyncFetched) (repo repo_again : Result Repository) where
  abbrev pub held_by : PackageRevision → PackageRevision
  held_by cr = api.reply (acquire_lease controller_name ∷ []) (add_finalizer cr)

  process_keeps :
      (cr : PackageRevision)
      → All
          (IsSyncOf (held_by cr))
          (syncs (process api now sync repo repo_again cr (acquire_lease controller_name ∷ [])).1)
  unfolding process send Keeps
  process_keeps cr =
      answered (api.fails (acquire_lease controller_name ∷ []) (add_finalizer cr))
        (add_finalizer cr ∷ acquire_lease controller_name ∷ []) tt
    where
      answered :
          (e : Option Str)
          → Keeps api now (held_by cr) (elim e as (λ _. Run Outcome) [
            | none ↦ process_held api now sync repo repo_again (held_by cr)
            | some m ↦ fail_with api now (codes "cannot add finalizer") m (held_by cr)
          ])
      answered none = held-Keeps api now (held_by cr) sync repo repo_again
      answered (some m) = fail-Keeps api now (held_by cr) _ m (held_by cr)

  leased_keeps :
      (cr : PackageRevision)
      → All (IsSyncOf (held_by cr)) (syncs (leased api now sync repo repo_again cr []).1)
  unfolding leased delete send
  leased_keeps cr = go (api.fails [] (acquire_lease controller_name))
    where
      Sends : Run Outcome → Type 0
      Sends m = All (IsSyncOf (held_by cr)) (syncs (m (acquire_lease controller_name ∷ [])).1)

      go :
          (e : Option Str)
          → Sends (elim e as (λ _. Run Outcome) [
            | some _ ↦ pure lease_again
            | none ↦
                if cr.deleting
                then delete api now sync repo repo_again cr
                else process api now sync repo repo_again cr
          ])
      go none = if-cases Sends cr.deleting tt (process_keeps cr)
      go (some m) = tt

  -- Every RootSync that the installer sends is named after the package revision that it holds, and
  -- carries that revision and branch, so that once it is stored the installer sees no drift.
  pub installer_sends :
      (cr : PackageRevision)
      → api.fetched ≡ found cr
      → All (IsSyncOf (held_by cr)) (syncs (reconcile api now sync repo repo_again []).1)
  unfolding reconcile reconcile_found
  installer_sends cr is_found =
      subst Sends (sym (ap (on_fetched api now sync repo repo_again) is_found)) (
        if-cases Sends (is_irrelevant gate_install cr) tt (
          if-cases Sends ((get_condition cr.conditions type_ready).status == condition_false) tt (
            if-cases Sends ((get_previous_condition now cr gate_install).status == condition_false)
              tt (if-cases Sends (cr.id.revision == []) tt (leased_keeps cr)))))
    where
      Sends : Run Outcome → Type 0
      Sends m = All (IsSyncOf (held_by cr)) (syncs (m []).1)
