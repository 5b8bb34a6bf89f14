-- ===== src/Strategy/Update.antt =====
-- Which updates `ValidateUpdate` of pkg/pkgserver/packagerevision/strategy.go accepts.
use mathlib.Core.List.{append-eq-nil_iff}
use pkgserver.Prelude.{
  ◌≡◌, ◌↔◌, ◌⊎◌, ◌&&◌, not, [], Option, none, some, arith, Str, ◌==◌, str_eq, str_beq_iff,
}
use pkgserver.PackageRevision.{PackageRevision, Lifecycle, published, validate_update_lifecycle}
use pkgserver.PackageRevision.Transitions.{◌⟶◌, validate_update_lifecycle_iff}
use pkgserver.Strategy.{invalid_if, invalid_err, is_published, validate_update}

-- The new object keeps the identity, but for the revision where it is published, and its lifecycle
-- follows an edge of the transition diagram.
pub record IsUpdate (new old : PackageRevision) : Type 0 where
  pub target : old.id.target ≡ new.id.target
  pub repository : old.id.repository ≡ new.id.repository
  pub realm : old.id.realm ≡ new.id.realm
  pub pkg : old.id.pkg ≡ new.id.pkg
  pub workspace : old.id.workspace ≡ new.id.workspace
  pub revision : (new.lifecycle ≡ published) ⊎ (old.id.revision ≡ new.id.revision)
  pub lifecycle : old.lifecycle ⟶ new.lifecycle

pub invalid_same :
    (s t field detail : Str) → (invalid_if (not (s == t)) field detail ≡ []) ↔ (s ≡ t)
invalid_same s t field detail = ground (arith, str_beq_iff s t)

invalid_revision :
    (l : Lifecycle) (s t field detail : Str)
    → (invalid_if (not (is_published l) && not (s == t)) field detail ≡ [])
      ↔ ((l ≡ published) ⊎ (s ≡ t))
unfolding is_published
invalid_revision l s t field detail =
    (λ h. ground (arith, str_beq_iff s t), λ h. ground (arith, str_beq_iff s t))

pub invalid_none : (e : Option Str) (field : Str) → (invalid_err e field ≡ []) ↔ (e ≡ none)
invalid_none none field = ground arith
invalid_none (some e) field = ground arith

-- An update is accepted exactly when it keeps the target, the repository, the realm, the package
-- and the workspace, keeps the revision unless the new object is published, and changes the
-- lifecycle along an edge of the transition diagram.
pub validate_update_iff :
    (new old : PackageRevision) → (validate_update new old ≡ []) ↔ IsUpdate new old
unfolding validate_update
validate_update_iff new old = (
  (λ h.
      let (a, h1) = append-eq-nil_iff.0 h in
      let (b, h2) = append-eq-nil_iff.0 h1 in
      let (c, h3) = append-eq-nil_iff.0 h2 in
      let (d, h4) = append-eq-nil_iff.0 h3 in
      let (e, h5) = append-eq-nil_iff.0 h4 in
      let (f, g) = append-eq-nil_iff.0 h5 in
      record {
        target = (invalid_same _ _ _ _).0 a;
        repository = (invalid_same _ _ _ _).0 b;
        realm = (invalid_same _ _ _ _).0 c;
        pkg = (invalid_same _ _ _ _).0 d;
        workspace = (invalid_same _ _ _ _).0 e;
        revision = (invalid_revision new.lifecycle _ _ _ _).0 f;
        lifecycle = (validate_update_lifecycle_iff new old).0 ((invalid_none _ _).0 g);
      }),
  (λ u. rw (
    (invalid_same old.id.target new.id.target _ _).1 u.target,
    (invalid_same old.id.repository new.id.repository _ _).1 u.repository,
    (invalid_same old.id.realm new.id.realm _ _).1 u.realm,
    (invalid_same old.id.pkg new.id.pkg _ _).1 u.pkg,
    (invalid_same old.id.workspace new.id.workspace _ _).1 u.workspace,
    (invalid_revision new.lifecycle old.id.revision new.id.revision _ _).1 u.revision,
    (invalid_none (validate_update_lifecycle new old) _).1
        ((validate_update_lifecycle_iff new old).1 u.lifecycle),
  )),
)
