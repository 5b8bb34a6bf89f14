-- ===== src/Reconcilers/Variant/Deletion.antt =====
-- The deletion of a package variant: deletePackageRevisions of
-- pkg/reconcilers/packagevariant/reconciler.go.
use mathlib.Core.Path.{subst}
use pkgserver.Prelude.{
  ℕ, sym, if◌then◌else◌, ◌≡◌, ◌≢◌, refl, ap, ◌∙◌, Bool, true, false, List, [], ◌∷◌, Option, none,
  some, Str, Result, ok, err,
}
use pkgserver.PackageRevision.{
  PackageRevision, Lifecycle, draft, proposed, published, deletion_proposed, other,
}
use pkgserver.PackageVariant.{
  PackageVariant, DeletionPolicy, policy_delete, policy_orphan, policy_other, workspace_name,
}
use pkgserver.Reconcilers.Variant.Requests.{
  Request, list_revisions, update_revision, delete_revision, remove_finalizer, found, Server, Run,
  pure, ◌>>=◌, ask, as_result, list,
}
use pkgserver.Reconcilers.Variant.Revisions.{
  remove_owner, delete_by_lifecycle, orphan, by_policy, delete_or_orphan, and_gone, delete_all,
  sort_out, downstream_of, get_downstream,
}
use pkgserver.Kube.{Outcome, done, again}
use pkgserver.Reconcilers.Variant.{
  fail_with, on_deleted, on_listed, delete, keep, on_fetched, reconcile,
}

-- Every change of a package revision is refused.
unfoldable pub Refuses : Server → Type 0
Refuses server =
    (log : List Request) (r : PackageRevision)
    → (server.fails log (update_revision r) ≢ none) × (server.fails log (delete_revision r) ≢ none)

module _ (server : Server) (refuses : Refuses server) where
  IsError : {A : Type 0} → Result A → Type 0
  IsError (err e) = Unit
  IsError (ok a) = ⊥

  refused :
      (log : List Request) (q : Request) (gone : Bool)
      → server.fails log q ≢ none
      → IsError (as_result server gone (server.fails log q))
  unfolding as_result IsError
  refused log q gone = by_error (server.fails log q)
    where
      by_error : (e : Option Str) → e ≢ none → IsError (as_result server gone e)
      by_error none h = h refl
      by_error (some e) h = tt

  update_refused :
      (log : List Request) (r : PackageRevision) (gone : Bool)
      → IsError (as_result server gone (server.fails log (update_revision r)))
  unfolding Refuses
  update_refused log r gone = refused log (update_revision r) gone (refuses log r).0

  delete_refused :
      (log : List Request) (r : PackageRevision)
      → IsError (as_result server true (server.fails log (delete_revision r)))
  unfolding Refuses
  delete_refused log r = refused log (delete_revision r) true (refuses log r).1

  lifecycle_refused :
      (l : Lifecycle) (r : PackageRevision) (log : List Request)
      → IsError (delete_by_lifecycle server l r log).0
  unfolding delete_by_lifecycle ask IsError
  lifecycle_refused draft r log = delete_refused log r
  lifecycle_refused proposed r log = delete_refused log r
  lifecycle_refused deletion_proposed r log = delete_refused log r
  lifecycle_refused published r log =
      update_refused log (record r { lifecycle = deletion_proposed }) false
  lifecycle_refused (other s) r log = tt

  policy_refused :
      (p : DeletionPolicy) (v : PackageVariant) (r : PackageRevision) (log : List Request)
      → IsError (by_policy server p v r log).0
  unfolding by_policy orphan ask IsError
  policy_refused policy_delete v r log = lifecycle_refused r.lifecycle r log
  policy_refused policy_orphan v r log =
      update_refused log (record r { owner_references = remove_owner v r.owner_references }) true
  policy_refused (policy_other s) v r log = tt

  as_before :
      (all_done : Bool) (out : Result Bool) → IsError out → and_gone server all_done out ≡ all_done
  unfolding IsError and_gone
  as_before all_done (err e) h = refl
  as_before all_done (ok gone) h = absurd h

  -- The loop still answers that all are gone.
  delete_all_refused :
      (v : PackageVariant) (rs : List PackageRevision) (log : List Request)
      → (delete_all server v true rs log).0 ≡ true
  unfolding delete_all delete_or_orphan
  delete_all_refused v [] log = refl
  delete_all_refused v (r ∷ rs) log =
      ap (λ b. (delete_all server v b rs (by_policy server v.deletion_policy v r log).1).0)
        (as_before true (by_policy server v.deletion_policy v r log).0
          (policy_refused v.deletion_policy v r log))
      ∙ delete_all_refused v rs (by_policy server v.deletion_policy v r log).1

  module _ (now : ℕ) (digest : PackageVariant → Result (List ℕ)) (v : PackageVariant)
      (released : (log : List Request) → server.fails log (remove_finalizer v) ≡ none) where
    abbrev Releases : Outcome × List Request → Type 0
    Releases out = (log : List Request) × (out ≡ (done, remove_finalizer v ∷ log))

    on_deleted-Releases :
        (all_done : Bool) (log : List Request)
        → all_done ≡ true
        → Releases (on_deleted server now v all_done log)
    unfolding on_deleted ask
    on_deleted-Releases false log h = cc
    on_deleted-Releases true log h = (
      log,
      ap
          (λ e.
            (elim e as (λ _. Run Outcome) [
              | none ↦ pure done
              | some m ↦ fail_with server now again m (server.reply (remove_finalizer v ∷ log))
            ])
              (remove_finalizer v ∷ log))
          (released log),
    )

    -- The hash of zeros.
    abbrev no_workspace : Str
    no_workspace = workspace_name (0 ∷ 0 ∷ 0 ∷ 0 ∷ 0 ∷ 0 ∷ 0 ∷ 0 ∷ [])

    listed-Releases :
        (e : Option Str)
        → e ≡ none
        → Releases (
            (downstream_of server v no_workspace (as_result server (server.listed []) e)
                >>= on_listed server now v)
              (list_revisions ∷ []))
    unfolding downstream_of as_result on_listed
    listed-Releases none h =
        let sorted = sort_out server v no_workspace (server.listed []) (list_revisions ∷ []) in
        on_deleted-Releases _ _ (delete_all_refused v sorted.0.0 sorted.1)
    listed-Releases (some e) h = cc

    delete-Releases : server.fails [] list_revisions ≡ none → Releases (delete server now v [])
    unfolding delete get_downstream list
    delete-Releases lists = listed-Releases (server.fails [] list_revisions) lists

    -- Where a listing succeeds and the API server refuses every update and every deletion of a package
    -- revision, the reconcile of a package variant that is being deleted still ends by removing the
    -- finalizer, if that is accepted, and without an error.
    pub reconcile_refused :
        server.fetched ≡ found v
        → v.deleting ≡ true
        → server.fails [] list_revisions ≡ none
        → Releases (reconcile server now digest [])
    unfolding reconcile on_fetched
    reconcile_refused fetched leaving lists =
        subst (λ f. Releases (on_fetched server now digest f [])) (sym fetched)
          (subst
            (λ (b : Bool).
              Releases ((if b then delete server now v else keep server now digest v) []))
            (sym leaving) (delete-Releases lists))
