-- ===== src/Reconcilers/Variant.antt =====
-- The package variant controller: pkg/reconcilers/packagevariant/reconciler.go. It creates the package
-- revision that a package variant asks for, and deletes or orphans the ones that it no longer asks for.
pub mod Requests
pub mod Revisions
pub mod Warranted
pub mod Deletion
use pkgserver.Prelude.{
  ℕ, Bool, true, false, not, ◌&&◌, [], ◌∷◌, List, ◌++◌, Option, none, some, Str, ◌==◌, str_eq,
  if◌then◌else◌, Result, ok, err,
}
use pkgserver.Go.Strings.{codes}
use pkgserver.PkgRevId.{Upstream, Downstream, upstream_pkg_rev_name}
use pkgserver.Condition.{Condition, type_ready, condition_true, get_condition, ready, failed}
use pkgserver.PackageRevision.{
  PackageRevision, Lifecycle, draft, proposed, published, deletion_proposed, other, OwnerReference,
}
use pkgserver.PackageVariant.{
  PackageVariant, DeletionPolicy, policy_delete, policy_orphan, policy_other,
  set_variant_conditions, workspace_name, build_revision,
}
use pkgserver.Kube.{Outcome, done, again, wrap, err_get_cr, err_update_status}
use pkgserver.Reconcilers.Variant.Requests.{
  Request, list_revisions, get_repository, create_revision, update_revision, delete_revision,
  add_finalizer, remove_finalizer, update_status, Fetched, found, not_found, get_failed, Server,
  Run, pure, ◌>>=◌, ask, as_result, list,
}
use pkgserver.Reconcilers.Variant.Revisions.{get_downstream, delete_all, ensure}

module _ (server : Server) where
  -- The loop of `validateUpstream`: the error, if there is one.
  unfoldable pub check_upstream : Upstream → List PackageRevision → Option Str
  check_upstream u [] =
      some (codes "upstream pkg " ++ (upstream_pkg_rev_name u ++ codes " not found"))
  check_upstream u (r ∷ rs) =
      let rest = check_upstream u rs in
      if r.id.repository == u.repository && (r.id.pkg == u.pkg && r.id.revision == u.revision)
      then (if (get_condition r.conditions type_ready).status == condition_true
          then none
          else some (codes "pkg " ++ (r.name ++ codes " not ready")))
      else rest

  validate_upstream : PackageVariant → Run (Option Str)
  unfolding list check_upstream
  validate_upstream v = list server >>= λ listed.
      pure
        (elim listed as (λ _. Option Str) [ err e ↦ some e | ok rs ↦ check_upstream v.upstream rs ])

  module _ (now : ℕ) where
    -- The condition, the status update and the outcome.
    unfoldable pub finish : Outcome → Condition → PackageVariant → Run Outcome
    unfolding ask
    finish o c v = ask server (update_status (set_variant_conditions v (c ∷ []))) >>= λ e.
        pure (record o { error = wrap err_update_status e })

    unfoldable pub fail_with : Outcome → Str → PackageVariant → Run Outcome
    unfolding finish
    fail_with o e v = finish o (failed now e) v

    -- `deletePackageRevisions`, with the hash of zeros, and what follows it.
    on_deleted : PackageVariant → Bool → Run Outcome
    unfolding fail_with ask
    on_deleted v false log = fail_with again (codes "deleting") v log
    on_deleted v true log =
        let (e, log') = ask server (remove_finalizer v) log in
        (elim e as (λ _. Run Outcome) [
          | none ↦ pure done
          | some m ↦ fail_with again m (server.reply log')
        ])
          log'

    on_listed : PackageVariant → Result (List PackageRevision × Bool) → Run Outcome
    unfolding on_deleted delete_all
    on_listed v (err e) = fail_with again e v
    on_listed v (ok (rs, _)) = delete_all server v true rs >>= on_deleted v

    unfoldable pub delete : PackageVariant → Run Outcome
    unfolding on_listed
    delete v =
        get_downstream server v (workspace_name (0 ∷ 0 ∷ 0 ∷ 0 ∷ 0 ∷ 0 ∷ 0 ∷ 0 ∷ []))
        >>= on_listed v

    module _ (digest : PackageVariant → Result (List ℕ)) where
      -- The three steps of a package variant that stays.
      ensure_valid : PackageVariant → Run Outcome
      unfolding fail_with finish
      ensure_valid v = ensure server digest v >>= λ e. elim e as (λ _. Run Outcome) [
        | none ↦ finish done (ready now) v
        | some m ↦ fail_with again m v
      ]

      with_upstream : PackageVariant → Run Outcome
      unfolding ensure_valid ask
      with_upstream v = ask server (get_repository v.downstream.repository) >>= λ e.
          elim e as (λ _. Run Outcome) [ none ↦ ensure_valid v | some m ↦ fail_with done m v ]

      process : PackageVariant → Run Outcome
      unfolding with_upstream validate_upstream
      process v = validate_upstream v >>= λ e. elim e as (λ _. Run Outcome) [
        | none ↦ with_upstream v
        | some m ↦ fail_with (record done { requeue_after = 2 }) m v
      ]

      -- The client holds the package variant with the finalizer.
      keep : PackageVariant → Run Outcome
      unfolding process ask
      keep v log =
          let (e, log') = ask server (add_finalizer v) log in
          let held = server.reply log' in
          (elim e as (λ _. Run Outcome) [ none ↦ process held | some m ↦ fail_with again m held ])
            log'

      on_fetched : Fetched → Run Outcome
      unfolding delete keep
      on_fetched not_found = pure done
      on_fetched (get_failed e) = pure (record done { error = wrap err_get_cr (some e) })
      on_fetched (found v) = if v.deleting then delete v else keep v

      unfoldable pub reconcile : Run Outcome
      unfolding on_fetched
      reconcile = on_fetched server.fetched
