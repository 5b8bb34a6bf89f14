-- ===== src/PackageRevision/Transitions.antt =====
-- Which lifecycles a package revision goes through: `ValidateUpdateLifeCycle` of
-- apis/pkg/v1alpha1/packagerevisions_interface.go as a transition diagram.
use pkgserver.Prelude.{◌≡◌, ◌↔◌, refl, none, arith}
use pkgserver.PackageRevision.{
  Lifecycle, draft, proposed, published, deletion_proposed, PackageRevision,
  validate_lifecycle_change, validate_update_lifecycle,
}

-- Work goes on, is proposed and taken back.
pub data IsOpen : Lifecycle → Type 0 where
  open_draft : IsOpen draft
  open_proposed : IsOpen proposed

pub data IsClosed : Lifecycle → Type 0 where
  closed_published : IsClosed published
  closed_deletion : IsClosed deletion_proposed

infix 40 ◌⟶◌
pub data ◌⟶◌ : Lifecycle → Lifecycle → Type 0 where
  edit : {l k : Lifecycle} → IsOpen l → IsOpen k → l ⟶ k
  publish : proposed ⟶ published
  discard : {l : Lifecycle} → IsOpen l → l ⟶ deletion_proposed
  settle : {l k : Lifecycle} → IsClosed l → IsClosed k → l ⟶ k

ruleset edges =
    (edit, publish, discard, settle, open_draft, open_proposed, closed_published, closed_deletion)

edge_of : (l k : Lifecycle) → validate_lifecycle_change l k ≡ none → l ⟶ k
unfolding validate_lifecycle_change
edge_of l k h = grind (arith, edges)

of_edge : {l k : Lifecycle} → l ⟶ k → validate_lifecycle_change l k ≡ none
unfolding validate_lifecycle_change
of_edge (edit open_draft open_draft) = refl
of_edge (edit open_draft open_proposed) = refl
of_edge (edit open_proposed open_draft) = refl
of_edge (edit open_proposed open_proposed) = refl
of_edge publish = refl
of_edge (discard open_draft) = refl
of_edge (discard open_proposed) = refl
of_edge (settle closed_published closed_published) = refl
of_edge (settle closed_published closed_deletion) = refl
of_edge (settle closed_deletion closed_published) = refl
of_edge (settle closed_deletion closed_deletion) = refl

-- An update is accepted exactly along the edges of the diagram: between draft and proposed, from
-- proposed to published, from both to deletionProposed, and between published and deletionProposed.
pub validate_update_lifecycle_iff :
    (new old : PackageRevision)
    → (validate_update_lifecycle new old ≡ none) ↔ (old.lifecycle ⟶ new.lifecycle)
unfolding validate_update_lifecycle
validate_update_lifecycle_iff new old = (edge_of old.lifecycle new.lifecycle, of_edge)

-- A history of a package revision: each update was accepted.
pub data Updates : PackageRevision → PackageRevision → Type 0 where
  created : {r : PackageRevision} → Updates r r
  updated :
      {r s t : PackageRevision} → Updates r s → validate_update_lifecycle t s ≡ none → Updates r t

stays-IsClosed : {l k : Lifecycle} → l ⟶ k → IsClosed l → IsClosed k
stays-IsClosed (edit open_draft _) h = elim h [ ]
stays-IsClosed (edit open_proposed _) h = elim h [ ]
stays-IsClosed publish h = elim h [ ]
stays-IsClosed (discard open_draft) h = elim h [ ]
stays-IsClosed (discard open_proposed) h = elim h [ ]
stays-IsClosed (settle _ c) h = c

-- Once a package revision is published or proposed for deletion, no accepted updates bring it
-- back to draft or proposed.
pub Updates-IsClosed :
    {r s : PackageRevision} → Updates r s → IsClosed r.lifecycle → IsClosed s.lifecycle
Updates-IsClosed created h = h
Updates-IsClosed (updated {s = m} {t = t} us ok) h =
    stays-IsClosed ((validate_update_lifecycle_iff t m).0 ok) (Updates-IsClosed us h)
