-- ===== src/Reconcilers/Variant/Warranted.antt =====
-- Which package revisions the package variant controller may touch, and when it creates one:
-- pkg/reconcilers/packagevariant/reconciler.go.
use mathlib.Core.List.{Memᴰ}
use mathlib.Core.Path.{subst}
use pkgserver.Prelude.{
  ℕ, ◌≡◌, ◌≢◌, ◌⊎◌, inl, inr, refl, sym, ap, ◌∙◌, Bool, true, false, ◌&&◌, ◌||◌, List, [], ◌∷◌,
  Option, none, some, Str, ◌==◌, str_eq, ==_iff, if-split, Result, ok, All,
}
use pkgserver.PackageRevision.{
  PackageRevision, Lifecycle, draft, proposed, published, deletion_proposed, other,
}
use pkgserver.PackageVariant.{
  PackageVariant, DeletionPolicy, policy_delete, policy_orphan, policy_other, workspace_name,
  build_revision,
}
use pkgserver.Reconcilers.Variant.Requests.{
  Request, list_revisions, get_repository, create_revision, update_revision, delete_revision,
  add_finalizer, remove_finalizer, update_status, Server, Run, pure, ◌>>=◌, ask, as_result, list,
}
use pkgserver.Reconcilers.Variant.Revisions.{
  is_owned, remove_owner, owner_reference, is_of_variant, delete_by_lifecycle, orphan, by_policy,
  delete_or_orphan, sort_out, downstream_of, get_downstream, delete_others, ensure_sorted,
  ensure_listed, ensure_hashed, ensure,
}

-- A package revision of the package and the workspace is among them.
unfoldable pub has_wanted : PackageVariant → Str → List PackageRevision → Bool
has_wanted v ws [] = false
has_wanted v ws (r ∷ rs) = (is_of_variant v r && r.id.workspace == ws) || has_wanted v ws rs

module _ (server : Server) (digest : PackageVariant → Result (List ℕ)) (v : PackageVariant) where
  -- A listing of this run has the package revision.
  abbrev pub IsListed : PackageRevision → Type 0
  IsListed r = (before : List Request) × Memᴰ r (server.listed before)

  -- What the package variant does not ask for, among the listed: another workspace of its package, or a
  -- package revision that it owns of another package.
  pub IsUnwanted : List ℕ → PackageRevision → Type 0
  IsUnwanted hash r =
      IsListed r
      × (((is_of_variant v r ≡ true) × (r.id.workspace ≢ workspace_name hash))
          ⊎ ((is_of_variant v r ≡ false) × (is_owned r v ≡ true)))

  -- A published one is proposed for deletion where the policy is to delete, and one is orphaned where it
  -- is to orphan.
  pub IsChanged : PackageRevision → PackageRevision → Type 0
  IsChanged old new =
      ((v.deletion_policy ≡ policy_delete)
        × (old.lifecycle ≡ published)
        × (new ≡ record old { lifecycle = deletion_proposed }))
      ⊎ ((v.deletion_policy ≡ policy_orphan)
          × (new ≡ record old { owner_references = remove_owner v old.owner_references }))

  all_listed :
      (before : List Request) (rs : List PackageRevision)
      → ((r : PackageRevision) → Memᴰ r rs → Memᴰ r (server.listed before))
      → All IsListed rs
  all_listed before [] among = tt
  all_listed before (r ∷ rs) among =
      ((before, among r (Memᴰ.head refl)), all_listed before rs (λ x m. among x (Memᴰ.tail m)))

  module _ (hash : List ℕ) where
    abbrev pub IsWarranted : Request → Type 0
    IsWarranted (create_revision r) =
        (r ≡ build_revision (owner_reference v ∷ []) v hash)
        × ((before : List Request) × (has_wanted v (workspace_name hash) (server.listed before)
              ≡ false))
    IsWarranted (update_revision r) =
        (old : PackageRevision) × (IsUnwanted hash old × IsChanged old r)
    IsWarranted (delete_revision r) =
        (v.deletion_policy ≡ policy_delete) × (r.lifecycle ≢ published) × IsUnwanted hash r
    IsWarranted list_revisions = Unit
    IsWarranted (get_repository _) = Unit
    IsWarranted (add_finalizer _) = Unit
    IsWarranted (remove_finalizer _) = Unit
    IsWarranted (update_status _) = Unit

    -- A run adds only warranted requests.
    IsSafe : {A : Type 0} → Run A → Type 0
    IsSafe m = (log : List Request) → All IsWarranted log → All IsWarranted (m log).1

    lifecycle-IsSafe :
        (l : Lifecycle) (r : PackageRevision)
        → v.deletion_policy ≡ policy_delete
        → r.lifecycle ≡ l
        → IsUnwanted hash r
        → IsSafe (delete_by_lifecycle server l r)
    unfolding delete_by_lifecycle ask IsSafe IsChanged
    lifecycle-IsSafe draft r d e u log h = ((d, (λ p. cc (e, p)), u), h)
    lifecycle-IsSafe proposed r d e u log h = ((d, (λ p. cc (e, p)), u), h)
    lifecycle-IsSafe deletion_proposed r d e u log h = ((d, (λ p. cc (e, p)), u), h)
    lifecycle-IsSafe published r d e u log h = ((r, (u, inl (d, e, refl))), h)
    lifecycle-IsSafe (other s) r d e u log h = h

    policy-IsSafe :
        (p : DeletionPolicy) (r : PackageRevision)
        → v.deletion_policy ≡ p
        → IsUnwanted hash r
        → IsSafe (by_policy server p v r)
    unfolding by_policy orphan ask IsSafe IsChanged
    policy-IsSafe policy_delete r d u log h = lifecycle-IsSafe r.lifecycle r d refl u log h
    policy-IsSafe policy_orphan r d u log h = ((r, (u, inr (d, refl))), h)
    policy-IsSafe (policy_other s) r d u log h = h

    removal-IsSafe :
        (r : PackageRevision) → IsUnwanted hash r → IsSafe (delete_or_orphan server v r)
    unfolding delete_or_orphan
    removal-IsSafe r u = policy-IsSafe v.deletion_policy r refl u

    -- What the sorting leaves: the requests are warranted, and what it keeps is of the package.
    record IsSorted (rs : List PackageRevision) (out : (List PackageRevision × Bool) × List Request)
        : Type 0 where
      requests : All IsWarranted out.1
      kept : All (λ r. (is_of_variant v r ≡ true) × IsListed r) out.0.0
      exists : out.0.1 ≡ has_wanted v (workspace_name hash) rs

    sort_out-IsSorted :
        (rs : List PackageRevision) (log : List Request)
        → All IsListed rs
        → All IsWarranted log
        → IsSorted rs (sort_out server v (workspace_name hash) rs log)
    unfolding sort_out has_wanted IsUnwanted IsSafe
    sort_out-IsSorted [] log l h = record { requests = h; kept = tt; exists = refl }
    sort_out-IsSorted (r ∷ rs) log l h =
        if-split Sorted (is_of_variant v r) (λ t. of_package t (sort_out-IsSorted rs log l.1 h))
          (λ t.
            if-split Sorted (is_owned r v)
              (λ o. elsewhere t _ (
                sort_out-IsSorted rs (delete_or_orphan server v r log).1 l.1
                  (removal-IsSafe r (l.0, inr (t, o)) log h)))
              (λ _. elsewhere t _ (sort_out-IsSorted rs log l.1 h)))
      where
        Sorted : Run (List PackageRevision × Bool) → Type 0
        Sorted m = IsSorted (r ∷ rs) (m log)

        of_package :
            is_of_variant v r ≡ true
            → IsSorted rs (sort_out server v (workspace_name hash) rs log)
            → Sorted (
                sort_out server v (workspace_name hash) rs
                >>= (λ out. pure (r ∷ out.0, r.id.workspace == workspace_name hash || out.1)))
        of_package t rest = record {
          requests = rest.requests;
          kept = ((t, l.0), rest.kept);
          exists = rw (rest.exists, t) refl;
        }

        elsewhere :
            is_of_variant v r ≡ false
            → (out : (List PackageRevision × Bool) × List Request) → IsSorted rs out
            → IsSorted (r ∷ rs) out
        elsewhere t out rest = record {
          requests = rest.requests;
          kept = rest.kept;
          exists = rw t rest.exists;
        }

    others-IsSafe :
        (rs : List PackageRevision)
        → All (λ r. (is_of_variant v r ≡ true) × IsListed r) rs
        → IsSafe (delete_others server v (workspace_name hash) rs)
    unfolding delete_others IsSafe IsUnwanted
    others-IsSafe [] all = λ log h. h
    others-IsSafe (r ∷ rs) all =
        if-split IsSafe (r.id.workspace == workspace_name hash) (λ _. others-IsSafe rs all.1)
          (λ t log h. others-IsSafe rs all.1 _ (
            removal-IsSafe r
              (
                all.0.1,
                inl (
                  all.0.0,
                  (λ same. cc (t, (==_iff r.id.workspace (workspace_name hash)).1 same)),
                ),
              )
              log h))

    sorted-IsSafe :
        (listed : List PackageRevision) (before : List Request) (rs : List PackageRevision)
        (exists : Bool)
        → listed ≡ server.listed before
        → All (λ r. (is_of_variant v r ≡ true) × IsListed r) rs
        → exists ≡ has_wanted v (workspace_name hash) listed
        → IsSafe (ensure_sorted server digest v hash (rs, exists))
    unfolding ensure_sorted IsSafe ask
    sorted-IsSafe listed before rs true source all found log h = others-IsSafe rs all log h
    sorted-IsSafe listed before rs false source all found log h =
        answered (server.fails log (create_revision made))
      where
        made : PackageRevision
        made = build_revision (owner_reference v ∷ []) v hash

        created : All IsWarranted (create_revision made ∷ log)
        created =
            ((refl, (before, ap (has_wanted v (workspace_name hash)) (sym source) ∙ sym found)), h)

        answered :
            (e : Option Str)
            → All IsWarranted
                ((elim e as (λ _. Run (Option Str)) [
                  | some m ↦ pure (some m)
                  | none ↦ delete_others server v (workspace_name hash) rs >>= λ _. pure none
                ])
                  (create_revision made ∷ log)).1
        answered none = others-IsSafe rs all _ created
        answered (some m) = created

    listed-IsSafe :
        IsSafe
          (get_downstream server v (workspace_name hash) >>= ensure_listed server digest v hash)
    unfolding get_downstream downstream_of ensure_listed list as_result IsSafe
    listed-IsSafe log h = answered (server.fails log list_revisions)
      where
        sorted : (List PackageRevision × Bool) × List Request
        sorted = sort_out server v (workspace_name hash) (server.listed log) (list_revisions ∷ log)

        in_order : IsSorted (server.listed log) sorted
        in_order =
            sort_out-IsSorted (server.listed log) (list_revisions ∷ log)
              (all_listed log _ (λ r m. m)) (tt, h)

        answered :
            (e : Option Str)
            → All IsWarranted
                ((downstream_of server v
                      (workspace_name hash)
                      (as_result server (server.listed log) e)
                    >>= ensure_listed server digest v hash)
                  (list_revisions ∷ log)).1
        answered (some e) = (tt, h)
        answered none =
            sorted-IsSafe (server.listed log) log sorted.0.0 sorted.0.1 refl in_order.kept
              in_order.exists sorted.1 in_order.requests

  -- Where the hash of the package variant is known, the requests that ensure its package revision create
  -- only the one that it asks for, and that only where a listing has none of its package and workspace;
  -- all that they delete or update was listed and is of another workspace, or owned and of another
  -- package; where the policy is to delete, what they delete is not published, and what they update is
  -- a published one that is proposed for deletion; where it is to orphan, they delete nothing, and take
  -- away the owner reference.
  pub ensure-IsWarranted :
      (hash : List ℕ) → digest v ≡ ok hash → All (IsWarranted hash) (ensure server digest v []).1
  unfolding ensure ensure_hashed IsSafe
  ensure-IsWarranted hash known =
      subst (λ d. All (IsWarranted hash) (ensure_hashed server digest v d []).1) (sym known)
        (listed-IsSafe hash [] tt)
