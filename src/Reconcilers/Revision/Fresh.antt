-- ===== src/Reconcilers/Revision/Fresh.antt =====
-- The revision that a published package is given is new to it:
-- pkg/reconcilers/packagerevision/reconciler.go.
use mathlib.Core.Path.{subst}
use pkgserver.Prelude.{
  ℕ, ◌≡◌, ◌≢◌, ◌<◌, inl, inr, sym, ap, ◌∙◌, Bool, true, false, not, ◌&&◌, ◌||◌, List, [], ◌∷◌, Str,
  ◌==◌, str_eq, ==_iff, ==_refl, if◌then◌else◌, Bool-cases, ok, All, arith,
}
use pkgserver.Go.Strconv.{max_int}
use pkgserver.Go.Sets.{has, insert, has-insert}
use pkgserver.PkgRevId.{PackageRevId}
use pkgserver.PkgRevId.Revision.{Semver, IsSemver, rev, next_revision_number}
use pkgserver.PkgRevId.Revision.Latest.{next_revision_number_fresh}
use pkgserver.PackageRevision.{PackageRevision}
use pkgserver.Reconcilers.Revision.{same_package, collect_one, collect, next_for}

-- The revision belongs to some package revision of the package.
belongs : PackageRevId → Str → List PackageRevision → Bool
belongs id v [] = false
belongs id v (p ∷ ps) =
    (same_package p.id id && (not (p.id.revision == []) && p.id.revision == v)) || belongs id v ps

has-collect_one :
    (id p : PackageRevId) (v : Str) (set : List Str)
    → has v (collect_one id p set)
      ≡ (has v set || (same_package p id && (not (p.revision == []) && p.revision == v)))
unfolding collect_one
has-collect_one id p v set = by_test (same_package p id) (p.revision == [])
  where
    by_test :
        (same empty : Bool)
        → has v (if same && not empty then insert p.revision set else set)
          ≡ (has v set || (same && (not empty && p.revision == v)))
    by_test true false = has-insert p.revision v set
    by_test true true = ground arith
    by_test false empty = ground arith

has-collect :
    (id : PackageRevId) (ps : List PackageRevision) (v : Str) (set : List Str)
    → has v (collect id ps set) ≡ (has v set || belongs id v ps)
unfolding collect belongs
has-collect id [] v set = ground arith
has-collect id (p ∷ ps) v set =
    has-collect id ps v (collect_one id p.id set)
    ∙ ap (λ b. b || belongs id v ps) (has-collect_one id p.id v set)
    ∙ ground arith

-- What holds of each member of a set of texts.
members : (P : Str → Type 0) (xs : List Str) → All P xs → (v : Str) → has v xs ≡ true → P v
unfolding has
members P [] all v h = cc h
members P (x ∷ xs) all v h = elim (Bool-cases (x == v)) [
  | inl t ↦ subst P ((==_iff x v).0 t) all.0
  | inr t ↦ members P xs all.1 v (ground (arith, h, t))
]

of_members : (P : Str → Type 0) (xs : List Str) → ((v : Str) → has v xs ≡ true → P v) → All P xs
unfolding has
of_members P [] f = tt
of_members P (x ∷ xs) f =
    (f x (ground (arith, ==_refl x)), of_members P xs (λ v h. f v (ground (arith, h))))

-- What holds of each revision holds of one that belongs to a package revision.
belongs-holds :
    (P : Str → Type 0) (id : PackageRevId) (ps : List PackageRevision)
    → All (λ p. P p.id.revision) ps
    → (v : Str) → belongs id v ps ≡ true
    → P v
unfolding belongs
belongs-holds P id [] all v h = cc h
belongs-holds P id (p ∷ ps) all v h = elim (Bool-cases (p.id.revision == v)) [
  | inl t ↦ subst P ((==_iff p.id.revision v).0 t) all.0
  | inr t ↦ belongs-holds P id ps all.1 v (ground (arith, h, t))
]

-- What holds of the revisions that belong to a package revision of the package, and of none, holds of
-- each package revision of the package.
each_revision :
    (P : Str → Type 0) (id : PackageRevId) (ps : List PackageRevision)
    → P []
    → ((v : Str) → belongs id v ps ≡ true → P v)
    → All (λ p. same_package p.id id ≡ true → P p.id.revision) ps
unfolding belongs
each_revision P id [] e f = tt
each_revision P id (p ∷ ps) e f = (
  (λ same. elim (Bool-cases (p.id.revision == [])) [
    | inl t ↦ subst P (sym ((==_iff p.id.revision []).0 t)) e
    | inr t ↦ f p.id.revision (ground (arith, same, t, ==_refl p.id.revision))
  ]),
  each_revision P id ps e (λ v h. f v (ground (arith, h))),
)

-- No package revision of the package has the revision of the identity.
abbrev pub IsFresh : PackageRevId → List PackageRevision → Type 0
IsFresh id = All (λ p. same_package p.id id ≡ true → p.id.revision ≢ id.revision)

module _ (sv : Semver) (law : IsSemver sv) (order : List Str → List Str) where
  open law use {number}

  -- The valid revisions have numbers below the greatest `int`.
  abbrev pub IsSmall : List PackageRevision → Type 0
  IsSmall = All (λ p. sv.is_valid p.id.revision ≡ true → number p.id.revision < max_int)

  -- The order of a set gives its members and nothing else.
  abbrev pub IsOrder : Type 0
  IsOrder = (v : Str) (xs : List Str) → has v (order xs) ≡ has v xs

  pub next_for-IsFresh :
      IsOrder
      → (cr : PackageRevision) (a b : List PackageRevision) → IsSmall a
      → IsSmall b
      → (n : ℕ) × (next_for sv order cr a b ≡ ok (rev n))
        × IsFresh (record cr.id { revision = rev n }) a
        × IsFresh (record cr.id { revision = rev n }) b
  unfolding next_for has
  next_for-IsFresh ordered cr a b small_a small_b = (
    next.0,
    next.1,
    each_revision (λ v. v ≢ rev next.0) cr.id a empty
        (λ v h. new v (ground (arith, members_eq v, h))),
    each_revision (λ v. v ≢ rev next.0) cr.id b empty
        (λ v h. new v (ground (arith, members_eq v, h))),
  )
    where
      all : List Str
      all = collect cr.id b (collect cr.id a [])

      members_eq : (v : Str) → has v (order all) ≡ (belongs cr.id v a || belongs cr.id v b)
      members_eq v =
          ordered v all
          ∙ has-collect cr.id b v (collect cr.id a [])
          ∙ ap (λ t. t || belongs cr.id v b) (has-collect cr.id a v [])

      IsBelow : Str → Type 0
      IsBelow v = sv.is_valid v ≡ true → number v < max_int

      below : (v : Str) → has v (order all) ≡ true → IsBelow v
      below v h = elim (Bool-cases (belongs cr.id v a)) [
        | inl t ↦ belongs-holds IsBelow cr.id a small_a v t
        | inr t ↦ belongs-holds IsBelow cr.id b small_b v (ground (arith, members_eq v, h, t))
      ]

      next :
          (n : ℕ) × (next_revision_number sv (order all) ≡ ok (rev n))
          × All (λ v. v ≢ rev n) (order all)
      next =
          let found =
            next_revision_number_fresh sv law (order all) (of_members IsBelow (order all) below) in
          (found.0, found.1, found.4)

      new : (v : Str) → has v (order all) ≡ true → v ≢ rev next.0
      new = members (λ v. v ≢ rev next.0) (order all) next.2

      empty : [] ≢ rev next.0
      empty e = cc e
