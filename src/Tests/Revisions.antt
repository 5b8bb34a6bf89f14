-- ===== src/Tests/Revisions.antt =====
-- Runs of the package revision controller.
use pkgserver.Prelude.{ℕ, ◌≡◌, ◌<◌, refl, true, List, [], ◌∷◌, none, Str, All, arith}
use pkgserver.PkgRevId.Revision.{rev, next_revision_number}
use pkgserver.Go.Strconv.{max_int, atoi, itoa, itoa_next}
use pkgserver.Go.Sets.{insert}
use pkgserver.PackageRevision.{PackageRevision, published}
use pkgserver.Kube.{found}
use pkgserver.Reconcilers.Revision.{Request, add_finalizer, update, Server, is_published, reconcile}
use pkgserver.Reconcilers.Revision.Sound.{IsSound, reconcile-IsSound}
use pkgserver.Tests.Samples.{
  sample_name, sample_with, sample_semver, sample_semver_law, number_of, number_rev,
}

abbrev unnumbered : PackageRevision
unnumbered = sample_with sample_name [] published []

abbrev numbered : ℕ → PackageRevision
numbered n = sample_with sample_name (rev n) published []

abbrev held_after : List Request → PackageRevision
held_after (add_finalizer r ∷ log) = r
held_after (update r ∷ log) = r
held_after log = unnumbered

-- Version 1 is stored and version 2 is in the repository.
abbrev one_and_two : Server
one_and_two = record {
  fetched = found unnumbered;
  fails = λ log q. none;
  reply = held_after;
  is_deployment = λ log. true;
  stored = λ log. numbered 1 ∷ [];
  in_repository = λ log. numbered 2 ∷ [];
  contents = λ log. [];
}

below_max : (n : ℕ) → n < max_int → number_of (rev n) < max_int
below_max n h = omega (arith, number_rev n, h)

abbrev revisions_given : List Request → List Str
revisions_given (update r ∷ log) = r.id.revision ∷ revisions_given log
revisions_given (q ∷ log) = revisions_given log
revisions_given [] = []

-- The package revision is given version 3.
allocated : revisions_given (reconcile one_and_two 7 sample_semver (λ xs. xs) []).1 ≡ rev 3 ∷ []
unfolding reconcile is_published next_revision_number atoi insert itoa itoa_next
allocated = refl

revision_example :
    All (IsSound one_and_two 7) (reconcile one_and_two 7 sample_semver (λ xs. xs) []).1
revision_example =
    reconcile-IsSound one_and_two 7 sample_semver sample_semver_law (λ xs. xs) (λ v xs. refl)
      (λ log. ((λ valid. below_max 2 (omega arith)), tt))
      (λ log. ((λ valid. below_max 1 (omega arith)), tt))
