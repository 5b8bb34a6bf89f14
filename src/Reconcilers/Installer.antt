-- ===== src/Reconcilers/Installer.antt =====
-- The installer: pkg/reconcilers/packageinstaller/reconcilers.go. It points a RootSync at the released
-- package revision and then completes its readiness gate. What the API server
-- holds of the RootSync and of the repository is an argument.
pub mod Sync
use pkgserver.Prelude.{
  ℕ, Bool, true, false, ◌&&◌, ◌||◌, not, [], ◌∷◌, ◌++◌, List, Option, none, some, Str, ◌==◌, str_eq,
  nat_eq, if◌then◌else◌, Result, ok, err, ◌>>=◌,
}
use pkgserver.Go.Strings.{codes}
use pkgserver.Go.Strconv.{itoa}
use pkgserver.PkgRevId.{PackageRevId, branch, git_revision, out_dir, dns_name}
use pkgserver.Condition.{
  type_ready, type_end, gate_install, condition_false, get_condition, has_condition,
  condition_update,
}
use pkgserver.PackageRevision.{
  PackageRevision, get_previous_condition, next_readiness_gate, set_conditions_of,
}
use pkgserver.Repository.{Repository, GitRepository, RepositoryType, git_type, oci_type, other_type}
use pkgserver.Kube.{
  Fetched, found, not_found, get_failed, RootSync, Call, acquire_lease, add_finalizer,
  remove_finalizer, create_sync, update_sync, Api, Outcome, done, again, lease_again, Run, pure,
  wrap, err_get_cr, send, return_status,
}
use pkgserver.Kube
use pkgserver.Reconcilers.Gate.{is_irrelevant, complete_gate}

abbrev pub controller_name : Str
controller_name = codes "PackageInstallerController"

abbrev pub gitops_namespace : Str
gitops_namespace = codes "config-management-system"

-- What the installer reads of a RootSync: the git part, if it has one, and how many errors the source
-- and the sync report.
pub record SyncView : Type 0 where
  pub git : Option (Str × Str)
  pub source_errors : ℕ
  pub sync_errors : ℕ

abbrev empty_view : SyncView
empty_view = record { git = none; source_errors = 0; sync_errors = 0 }

pub data SyncFetched : Type 0 where
  sync_found : SyncView → SyncFetched
  sync_missing : SyncFetched
  sync_failed : Str → SyncFetched

-- What `buildRootSync` gives: an error, or the panic on a nil pointer.
pub data Built : Type 0 where
  built : RootSync → Built
  build_failed : Str → Built
  build_panics : Built

unsupported : Str → Built
unsupported t = build_failed (codes "unsupported repo type, got: " ++ t)

build_for : RepositoryType → Option GitRepository → PackageRevision → Built
unfolding unsupported
build_for git_type none cr = build_panics
build_for git_type (some git) cr = built (record {
  namespace = gitops_namespace;
  name = dns_name cr.id;
  repo = git.url;
  branch = branch cr.id false;
  revision = git_revision cr.id;
  dir = out_dir cr.id;
  secret_ref = git.credentials;
})
build_for oci_type git cr = unsupported (codes "oci")
build_for (other_type t) git cr = unsupported t

-- `buildRootSync`, with the answer of `getRepo`.
unfoldable pub build_root_sync : Result Repository → PackageRevision → Built
unfolding build_for
build_root_sync (err e) cr = build_failed e
build_root_sync (ok repo) cr = build_for repo.type repo.git cr

-- "did the spec change".
unfoldable pub drifted : SyncView → PackageRevision → Bool
drifted view cr = elim view.git [
  | none ↦ true
  | some (revision, on_branch) ↦
      not (revision == git_revision cr.id) || not (on_branch == branch cr.id false)
]

module _ (api : Api) (now : ℕ) where
  -- Sets the condition, and asks for another run.
  fail_with : Str → Str → PackageRevision → Run Outcome
  fail_with reason msg cr =
      return_status api again
        (set_conditions_of cr (condition_update now gate_install reason msg ∷ []))

  -- The next gate starts, although this one is not finished.
  init_next : PackageRevision → PackageRevision
  init_next cr =
      let next = next_readiness_gate cr gate_install in
      if next == type_end
      then cr
      else if has_condition cr.conditions next
      then cr
      else set_conditions_of cr (condition_update now next (codes "init") [] ∷ [])

  -- From "determine if rootsync is in good shape" on.
  conclude : SyncView → PackageRevision → Run Outcome
  unfolding init_next
  conclude view cr =
      if not (view.source_errors == 0) && not (view.sync_errors == 0)
      then return_status api done (
          init_next (
            set_conditions_of cr (
              condition_update now gate_install (codes "package install sync errors") (
                codes "sync errors: "
                ++ (itoa view.sync_errors ++ (codes ", source errors " ++ itoa view.source_errors)))
              ∷ [])))
      else return_status api done (complete_gate now gate_install cr)

  -- Sends the RootSync, where it could be built, and goes on where the call has no error. A panic ends the
  -- run, and is shown as its error.
  send_sync : (RootSync → Call) → Built → Str → Run Outcome → PackageRevision → Run Outcome
  unfolding fail_with
  send_sync call (build_failed e) failure rest cr = fail_with (codes "cannot build rootSync") e cr
  send_sync call build_panics failure rest cr =
      pure (record done { error = some (codes "nil pointer") })
  send_sync call (built sync) failure rest cr = Kube.◌>>=◌ (send api (call sync)) (λ answer.
      elim answer.0 as (λ _. Run Outcome) [ none ↦ rest | some e ↦ fail_with failure e cr ])

  install_view : Result Repository → SyncView → PackageRevision → Run Outcome
  unfolding send_sync conclude
  install_view repo view cr =
      if drifted view cr
      then send_sync update_sync (build_root_sync repo cr) (codes "cannot update rootSync")
          (conclude view cr) cr
      else conclude view cr

  -- After a creation the object that was read stays empty, so that an update follows it.
  install : SyncFetched → Result Repository → Result Repository → PackageRevision → Run Outcome
  unfolding install_view
  install (sync_found view) repo repo_again cr = install_view repo view cr
  install sync_missing repo repo_again cr =
      send_sync create_sync (build_root_sync repo cr) (codes "cannot create rootSync")
        (install_view repo_again empty_view cr) cr
  install (sync_failed e) repo repo_again cr = fail_with (codes "cannot add finalizer") e cr

  module _ (sync : SyncFetched) (repo repo_again : Result Repository) where
    process_held : PackageRevision → Run Outcome
    unfolding install
    process_held cr =
        if (get_condition cr.conditions gate_install).status == condition_false
        then install sync repo repo_again cr
        else pure done

    process : PackageRevision → Run Outcome
    unfolding process_held
    process cr = Kube.◌>>=◌ (send api (add_finalizer cr)) (λ answer.
        elim answer.0 as (λ _. Run Outcome) [
          | none ↦ process_held answer.1
          | some e ↦ fail_with (codes "cannot add finalizer") e answer.1
        ])

    delete : PackageRevision → Run Outcome
    delete cr =
        Kube.◌>>=◌ (send api (remove_finalizer cr))
          (λ answer. pure (elim answer.0 [ none ↦ done | some _ ↦ again ]))

    leased : PackageRevision → Run Outcome
    unfolding process delete
    leased cr = Kube.◌>>=◌ (send api (acquire_lease controller_name)) (λ answer.
        elim answer.0 as (λ _. Run Outcome) [
          | some _ ↦ pure lease_again
          | none ↦ if cr.deleting then delete cr else process cr
        ])

    pub reconcile_found : PackageRevision → Run Outcome
    unfolding leased
    reconcile_found cr =
        if is_irrelevant gate_install cr
        then pure done
        else if (get_condition cr.conditions type_ready).status == condition_false
        then pure done
        else if (get_previous_condition now cr gate_install).status == condition_false
        then pure done
        else if cr.id.revision == []
        then pure done
        else leased cr

    on_fetched : Fetched → Run Outcome
    unfolding reconcile_found
    on_fetched not_found = pure done
    on_fetched (get_failed e) = pure (record done { error = wrap err_get_cr (some e) })
    on_fetched (found cr) = reconcile_found cr

    unfoldable pub reconcile : Run Outcome
    unfolding on_fetched
    reconcile = on_fetched api.fetched
