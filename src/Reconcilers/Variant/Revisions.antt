-- ===== src/Reconcilers/Variant/Revisions.antt =====
-- What the package variant controller does to the package revisions:
-- pkg/reconcilers/packagevariant/reconciler.go.
use pkgserver.Prelude.{
  ℕ, Bool, true, false, ◌&&◌, ◌||◌, [], ◌∷◌, List, ◌++◌, Option, none, some, Str, ◌==◌, str_eq,
  if◌then◌else◌, Result, ok, err,
}
use pkgserver.Go.Strings.{codes}
use pkgserver.PackageRevision.{
  PackageRevision, Lifecycle, draft, proposed, published, deletion_proposed, other, OwnerReference,
}
use pkgserver.PackageVariant.{
  PackageVariant, DeletionPolicy, policy_delete, policy_orphan, policy_other, workspace_name,
  build_revision,
}
use pkgserver.Reconcilers.Variant.Requests.{
  create_revision, update_revision, delete_revision, Server, Run, pure, ◌>>=◌, ask, as_result, list,
}

-- The owner reference is to the package variant.
unfoldable pub is_reference : PackageVariant → OwnerReference → Bool
is_reference v o =
    o.api_version == v.api_version && (o.kind == v.kind && (o.name == v.name && o.uid == v.uid))

unfoldable pub owned_through : PackageVariant → List OwnerReference → Bool
unfolding is_reference
owned_through v [] = false
owned_through v (o ∷ os) = let rest = owned_through v os in if is_reference v o then true else rest

-- `isOwned`.
unfoldable pub is_owned : PackageRevision → PackageVariant → Bool
unfolding owned_through
is_owned r v = owned_through v r.owner_references

unfoldable pub remove_owner : PackageVariant → List OwnerReference → List OwnerReference
unfolding is_reference
remove_owner v [] = []
remove_owner v (o ∷ os) =
    let rest = remove_owner v os in if is_reference v o then rest else o ∷ rest

unfoldable pub owner_reference : PackageVariant → OwnerReference
owner_reference v = record {
  api_version = v.api_version;
  kind = v.kind;
  name = v.name;
  uid = v.uid;
  controller = true;
}

-- The package revision is of the package variant's downstream package.
unfoldable pub is_of_variant : PackageVariant → PackageRevision → Bool
is_of_variant v r =
    r.id.target == v.downstream.target
    && (r.id.repository == v.downstream.repository
        && (r.id.realm == v.downstream.realm && r.id.pkg == v.downstream.pkg))

module _ (server : Server) where
  -- `deletePackageRevision`: whether it is gone.
  unfoldable pub delete_by_lifecycle : Lifecycle → PackageRevision → Run (Result Bool)
  unfolding ask as_result
  delete_by_lifecycle draft r =
      ask server (delete_revision r) >>= λ e. pure (as_result server true e)
  delete_by_lifecycle proposed r =
      ask server (delete_revision r) >>= λ e. pure (as_result server true e)
  delete_by_lifecycle deletion_proposed r =
      ask server (delete_revision r) >>= λ e. pure (as_result server true e)
  delete_by_lifecycle published r =
      ask server (update_revision (record r { lifecycle = deletion_proposed })) >>= λ e.
      pure (as_result server false e)
  delete_by_lifecycle (other s) r = pure (err (codes "unexpected lifecycle " ++ s))

  unfoldable pub orphan : PackageVariant → PackageRevision → Run (Result Bool)
  unfolding ask as_result
  orphan v r =
      ask server
        (update_revision (record r { owner_references = remove_owner v r.owner_references }))
      >>= λ e. pure (as_result server true e)

  unfoldable pub by_policy : DeletionPolicy → PackageVariant → PackageRevision → Run (Result Bool)
  unfolding delete_by_lifecycle orphan
  by_policy policy_delete v r = delete_by_lifecycle r.lifecycle r
  by_policy policy_orphan v r = orphan v r
  by_policy (policy_other s) v r = pure (err (codes "unexpected deletionPolicy " ++ s))

  unfoldable pub delete_or_orphan : PackageVariant → PackageRevision → Run (Result Bool)
  unfolding by_policy
  delete_or_orphan v r = by_policy v.deletion_policy v r

  -- The loop of `getDownstreamPRs`: the package revisions of the downstream package, and whether one has
  -- the workspace. An owned one of another package is deleted or orphaned, whatever the error.
  unfoldable pub sort_out :
      PackageVariant → Str → List PackageRevision → Run (List PackageRevision × Bool)
  unfolding delete_or_orphan
  sort_out v ws [] = pure ([], false)
  sort_out v ws (r ∷ rs) =
      let rest = sort_out v ws rs in
      if is_of_variant v r
      then rest >>= (λ out. pure (r ∷ out.0, r.id.workspace == ws || out.1))
      else if is_owned r v
      then (delete_or_orphan v r >>= λ _. rest)
      else rest

  unfoldable pub downstream_of :
      PackageVariant
      → Str
      → Result (List PackageRevision)
      → Run (Result (List PackageRevision × Bool))
  unfolding sort_out
  downstream_of v ws (err e) = pure (err e)
  downstream_of v ws (ok rs) = sort_out v ws rs >>= λ out. pure (ok out)

  -- `getDownstreamPRs`.
  unfoldable pub get_downstream : PackageVariant → Str → Run (Result (List PackageRevision × Bool))
  unfolding list downstream_of
  get_downstream v ws = list server >>= downstream_of v ws

  -- `allDone` after one answer.
  unfoldable pub and_gone : Bool → Result Bool → Bool
  and_gone all_done (err e) = all_done
  and_gone all_done (ok gone) = gone && all_done

  -- The loop of `deletePackageRevisions`: an error goes on to the next one, and changes nothing.
  unfoldable pub delete_all : PackageVariant → Bool → List PackageRevision → Run Bool
  unfolding delete_or_orphan and_gone
  delete_all v all_done [] = pure all_done
  delete_all v all_done (r ∷ rs) =
      delete_or_orphan v r >>= λ out. delete_all v (and_gone all_done out) rs

  -- The loop of `ensurePackageRevision`: the package revisions of other workspaces.
  unfoldable pub delete_others : PackageVariant → Str → List PackageRevision → Run (Unit {0})
  unfolding delete_or_orphan
  delete_others v ws [] = pure tt
  delete_others v ws (r ∷ rs) =
      let rest = delete_others v ws rs in
      if r.id.workspace == ws then rest else delete_or_orphan v r >>= λ _. rest

  module _ (digest : PackageVariant → Result (List ℕ)) where
    -- The downstream package revisions were sorted out.
    unfoldable pub ensure_sorted :
        PackageVariant → List ℕ → List PackageRevision × Bool → Run (Option Str)
    unfolding delete_others ask
    ensure_sorted v hash (rs, true) = delete_others v (workspace_name hash) rs >>= λ _. pure none
    ensure_sorted v hash (rs, false) =
        ask server (create_revision (build_revision (owner_reference v ∷ []) v hash)) >>= λ e.
        elim e as (λ _. Run (Option Str)) [
          | some m ↦ pure (some m)
          | none ↦ delete_others v (workspace_name hash) rs >>= λ _. pure none
        ]

    unfoldable pub ensure_listed :
        PackageVariant → List ℕ → Result (List PackageRevision × Bool) → Run (Option Str)
    unfolding ensure_sorted
    ensure_listed v hash (err e) = pure (some e)
    ensure_listed v hash (ok sorted) = ensure_sorted v hash sorted

    unfoldable pub ensure_hashed : PackageVariant → Result (List ℕ) → Run (Option Str)
    unfolding ensure_listed
    ensure_hashed v (err e) = pure (some e)
    ensure_hashed v (ok hash) = get_downstream v (workspace_name hash) >>= ensure_listed v hash

    -- `ensurePackageRevision`.
    unfoldable pub ensure : PackageVariant → Run (Option Str)
    unfolding ensure_hashed
    ensure v = ensure_hashed v (digest v)
