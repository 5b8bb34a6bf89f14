-- ===== src/Strategy/Create.antt =====
-- Which new package revisions `Validate` of pkg/pkgserver/packagerevision/strategy.go accepts.
use mathlib.Core.List.{append-eq-nil_iff}
use mathlib.Core.Path.{subst}
use pkgserver.Prelude.{
  ◌≡◌, ◌≢◌, ◌↔◌, ◌⊎◌, inl, inr, refl, sym, ap, Bool, false, not, List, [], ◌∷◌, ◌++◌, Option, none,
  some, arith, Str, ◌==◌, str_eq, str_beq_iff, Result, ok, err, ◌>>=◌, All,
}
use pkgserver.Go.Strings.{Lacks, codes, split-Lacks}
use pkgserver.PkgRevId.{dot, get_repo_name}
use pkgserver.PackageRevision.{
  PackageRevision, Lifecycle, draft, proposed, published, deletion_proposed, other,
  validate_repository, repository_mismatch, validate_workspace_name, validate_discovery_annotation,
}
use pkgserver.Condition.{Condition, type_ready, condition_false, get_condition}
use pkgserver.Strategy.Update.{invalid_none, invalid_same}
use pkgserver.Strategy.{
  FieldError, Stored, invalid_if, same_workspace, duplicates, is_empty, workspace_errors,
  repository_errors, lifecycle_errors, annotation_error, validate_create,
}

-- The name of the package revision gives the repository of its identity, and the repository is there.
pub record InRepository (stored : Stored) (r : PackageRevision) : Type 0 where
  pub named : get_repo_name r.name ≡ ok r.id.repository
  pub present : stored.repository_error ≡ none

-- Nobody listed has the workspace.
pub record IsNewDraft (stored : Stored) (r : PackageRevision) : Type 0 where
  pub unrevised : r.id.revision ≡ []
  pub workspace : validate_workspace_name r.id.workspace ≡ none
  pub existing : List PackageRevision
  pub listed : stored.package_revisions ≡ ok existing
  pub free : All (λ (e : PackageRevision). same_workspace e.id r.id ≡ false) existing
  pub fresh : r.conditions ≡ []

module _ (stored : Stored) (r : PackageRevision) where
  invalid_test : (b : Bool) (field detail : Str) → (invalid_if b field detail ≡ []) ↔ (b ≡ false)
  invalid_test b field detail = ground arith

  duplicates_iff :
      (es : List PackageRevision)
      → (duplicates r es ≡ []) ↔ All (λ (e : PackageRevision). same_workspace e.id r.id ≡ false) es
  unfolding duplicates
  duplicates_iff [] = (λ _. tt, λ _. refl)
  duplicates_iff (e ∷ es) = (
    (λ h.
        let (a, b) = append-eq-nil_iff.0 h in ((invalid_test _ _ _).0 a, (duplicates_iff es).0 b)),
    (λ h. append-eq-nil_iff.1 ((invalid_test _ _ _).1 h.0, (duplicates_iff es).1 h.1)),
  )

  mismatch_iff : (s t : Str) → (repository_mismatch s t ≡ none) ↔ (s ≡ t)
  unfolding repository_mismatch
  mismatch_iff s t = (λ h. ground (arith, str_beq_iff s t), λ h. ground (arith, str_beq_iff s t))

  named_iff : (validate_repository r ≡ ok none) ↔ (get_repo_name r.name ≡ ok r.id.repository)
  unfolding validate_repository
  named_iff = go (get_repo_name r.name)
    where
      go :
          (v : Result Str)
          → ((v >>= λ repo. ok (repository_mismatch repo r.id.repository)) ≡ ok none)
            ↔ (v ≡ ok r.id.repository)
      go (err e) = (λ h. cc, λ h. cc)
      go (ok repo) = (
        (λ h. ap ok ((mismatch_iff repo r.id.repository).0 (cc))),
        (λ h. ap ok ((mismatch_iff repo r.id.repository).1 (cc))),
      )

  gathered :
      (v : Result (Option Str)) (rest : List FieldError)
      → ((v >>= λ e. ok (repository_errors stored r e ++ rest)) ≡ ok [])
        ↔ ((v ≡ ok none) × (stored.repository_error ≡ none) × (rest ≡ []))
  unfolding repository_errors
  gathered (err e) rest = (λ h. cc, λ h. cc h.0)
  gathered (ok none) rest = (λ h. ground arith, λ h. ground arith)
  gathered (ok (some e)) rest = (λ h. cc, λ h. cc h.0)

  accepted_iff :
      (validate_create stored r ≡ ok [])
      ↔ (InRepository stored r × (lifecycle_errors stored r r.lifecycle ≡ []))
  unfolding validate_create
  accepted_iff = (
    (λ h.
        let (named, present, rest) = (gathered (validate_repository r) _).0 h in
        (record { named = named_iff.0 named; present = present }, rest)),
    (λ (i, rest). (gathered (validate_repository r) _).1 (named_iff.1 i.named, i.present, rest)),
  )

  abbrev Unclaimed : List PackageRevision → Type 0
  Unclaimed = All (λ e. same_workspace e.id r.id ≡ false)

  same_list : (es es' : List PackageRevision) → ok es' ≡ ok es → es' ≡ es
  same_list es es' h = cc

  listing_iff :
      (v : Result (List PackageRevision))
      → (workspace_errors stored r v ≡ []) ↔ (
          (es : List PackageRevision) × (v ≡ ok es)
          × All (λ (e : PackageRevision). same_workspace e.id r.id ≡ false) es)
  unfolding workspace_errors
  listing_iff (err e) = (λ h. cc, λ h. cc h.1)
  listing_iff (ok es) = (
    (λ h. (es, refl, (duplicates_iff es).0 h)),
    (λ (es', same, free).
        (duplicates_iff es).1 (subst Unclaimed (same_list es es' (sym same)) free)),
  )

  invalid_conditions :
      (cs : List Condition) (field detail : Str)
      → (invalid_if (not (is_empty cs)) field detail ≡ []) ↔ (cs ≡ [])
  unfolding is_empty
  invalid_conditions [] field detail = (λ _. refl, λ _. refl)
  invalid_conditions (c ∷ cs) field detail = (λ h. cc, λ h. cc)

  draft_iff : (lifecycle_errors stored r draft ≡ []) ↔ IsNewDraft stored r
  unfolding lifecycle_errors
  draft_iff = (
    (λ h.
        let (a, h1) = append-eq-nil_iff.0 h in
        let (b, h2) = append-eq-nil_iff.0 h1 in
        let (c, d) = append-eq-nil_iff.0 h2 in
        let (es, listed, free) = (listing_iff stored.package_revisions).0 c in
        record {
          unrevised = (invalid_same r.id.revision [] _ _).0 a;
          workspace = (invalid_none _ _).0 b;
          existing = es;
          listed = listed;
          free = free;
          fresh = (invalid_conditions r.conditions _ _).0 d;
        }),
    (λ n. rw (
      (invalid_same r.id.revision [] _ _).1 n.unrevised,
      n.workspace,
      (listing_iff stored.package_revisions).1 (n.existing, n.listed, n.free),
      (invalid_conditions r.conditions _ _).1 n.fresh,
    )),
  )

  -- A draft is accepted exactly when its name and its identity name the same repository, that is
  -- there, it has no revision, its workspace name is well formed and is taken by no listed package
  -- revision of the same target, repository, realm and package, and it has no conditions.
  pub validate_create_draft_iff :
      r.lifecycle ≡ draft
      → (validate_create stored r ≡ ok []) ↔ (InRepository stored r × IsNewDraft stored r)
  validate_create_draft_iff is_draft = (
    (λ h. let (i, e) = accepted_iff.0 h in (i, draft_iff.0 (subst Accepting is_draft e))),
    (λ (i, n). accepted_iff.1 (i, subst Accepting (sym is_draft) (draft_iff.1 n))),
  )
    where
      Accepting : Lifecycle → Type 0
      Accepting l = lifecycle_errors stored r l ≡ []

  annotated : (v : Option Str) → annotation_error stored r v ≡ [] → v ≡ none
  unfolding annotation_error
  annotated none h = refl
  annotated (some e) h = cc

  published_parts :
      lifecycle_errors stored r published ≡ []
      → (validate_discovery_annotation r ≡ none)
        × (r.id.revision ≢ [])
        × ((get_condition r.conditions type_ready).status ≢ condition_false)
  unfolding lifecycle_errors
  published_parts h =
      let (a, h1) = append-eq-nil_iff.0 h in
      let (b, c) = append-eq-nil_iff.0 h1 in
      (
        annotated _ a,
        ==_no r.id.revision [] ((invalid_test _ _ _).0 b),
        ==_no _ condition_false ((invalid_test _ _ _).0 c),
      )
    where
      ==_no : (s t : Str) → (s == t) ≡ false → s ≢ t
      ==_no s t h e = ground (arith, str_beq_iff s t)

  -- Whatever is accepted is a draft or published; if published, it has the discovery annotation and a
  -- revision, and its condition "Ready" does not have the status "False".
  pub validate_create_lifecycle :
      validate_create stored r ≡ ok []
      → (r.lifecycle ≡ draft)
        ⊎ ((r.lifecycle ≡ published)
            × (validate_discovery_annotation r ≡ none)
            × (r.id.revision ≢ [])
            × ((get_condition r.conditions type_ready).status ≢ condition_false))
  validate_create_lifecycle h = go r.lifecycle refl (accepted_iff.0 h).1
    where
      go :
          (l : Lifecycle)
          → r.lifecycle ≡ l
          → lifecycle_errors stored r l ≡ []
          → (r.lifecycle ≡ draft)
            ⊎ ((r.lifecycle ≡ published)
                × (validate_discovery_annotation r ≡ none)
                × (r.id.revision ≢ [])
                × ((get_condition r.conditions type_ready).status ≢ condition_false))
      go draft e errors = inl e
      go published e errors = let (a, b, c) = published_parts errors in inr (e, a, b, c)
      go proposed e errors = unfold lifecycle_errors in cc
      go deletion_proposed e errors = unfold lifecycle_errors in cc
      go (other s) e errors = unfold lifecycle_errors in cc

  -- A name with no dot makes the validation panic: there is no element at index 1.
  pub validate_create_panics :
      Lacks dot r.name → validate_create stored r ≡ err (codes "index out of range")
  unfolding validate_create validate_repository get_repo_name
  validate_create_panics h = rw (split-Lacks dot r.name h)
