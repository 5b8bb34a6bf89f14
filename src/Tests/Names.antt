-- ===== src/Tests/Names.antt =====
-- The names of package revisions.
use pkgserver.Prelude.{
  ℕ, ◌≡◌, ◌≢◌, ◌<◌, ◌≤◌, ◌↔◌, ◌⊎◌, refl, true, false, List, [], ◌∷◌, none, arith, Str, All, ok,
}
use mathlib.Core.List.{Memᴰ}
use pkgserver.Go.Strings.{intercalate, codes}
use pkgserver.Go.Path.{IsSegment}
use pkgserver.PkgRevId.{
  PackageRevId, parse_pkg_rev, pkg_rev_string, parse_tag, tag, parse_branch, branch,
  pkg_target_catalog,
}
use pkgserver.PkgRevId.RoundTrip.{
  IsPrintable, IsTree, parse_pkg_rev-pkg_rev_string, parse_tag-tag, parse_branch-branch,
}
use pkgserver.PkgRevId.Revision.{rev, latest_revision_number, next_revision_number}
use pkgserver.PkgRevId.Revision.Latest.{latest_revision_number_lem, next_revision_number_fresh}
use pkgserver.PackageRevision.{validate_workspace_name}
use pkgserver.PackageRevision.Workspace.{IsWorkspaceName, validate_workspace_name_iff}
use pkgserver.Tests.Samples.{sample_id, number_of, number_rev, sample_semver, sample_semver_law}

sample-IsPrintable : IsPrintable sample_id
sample-IsPrintable = record {
  target = ground arith;
  repository = ground arith;
  realm = ground arith;
  colons = ground arith;
  pkg = ground arith;
  workspace = ground arith;
}

parse_pkg_rev_example :
    parse_pkg_rev (pkg_rev_string sample_id) ≡ ok (record sample_id { revision = [] })
parse_pkg_rev_example = parse_pkg_rev-pkg_rev_string sample_id sample-IsPrintable

-- One byte other than a dot and a slash.
letter-IsSegment : (c : ℕ) → c ≢ b'.' → c ≢ b'/' → IsSegment (c ∷ [])
letter-IsSegment c h k = record {
  not_empty = λ e. cc;
  not_dot = λ e. h cc;
  not_dot_dot = λ e. cc;
  no_slash = (k, tt);
}

abbrev letters : PackageRevId
letters = record {
  target = codes "t";
  repository = codes "r";
  realm = codes "a/b";
  pkg = codes "p";
  revision = codes "v";
  workspace = codes "w";
}

letters-IsTree : IsTree letters (codes "a" ∷ codes "b" ∷ [])
letters-IsTree = record {
  realm = unfold intercalate in refl;
  segments = (
    letter-IsSegment b'a' (omega arith) (omega arith),
    (letter-IsSegment b'b' (omega arith) (omega arith), tt),
  );
  target = letter-IsSegment b't' (omega arith) (omega arith);
  pkg = letter-IsSegment b'p' (omega arith) (omega arith);
}

parse_tag_example :
    parse_tag (tag letters false) false ≡ ok (record letters { repository = []; workspace = [] })
parse_tag_example =
    parse_tag-tag letters (codes "a" ∷ codes "b" ∷ []) letters-IsTree false
      (letter-IsSegment b'v' (omega arith) (omega arith))

parse_branch_example :
    parse_branch (branch letters true) true
    ≡ ok (record letters { target = pkg_target_catalog; repository = []; revision = [] })
parse_branch_example =
    parse_branch-branch letters (codes "a" ∷ codes "b" ∷ []) letters-IsTree true
      (letter-IsSegment b'w' (omega arith) (omega arith))

abbrev listed : List Str
listed = rev 3 ∷ codes "main" ∷ rev 12 ∷ []

latest_example :
    (n : ℕ) × (latest_revision_number sample_semver listed ≡ rev n)
    × All (λ v. sample_semver.is_valid v ≡ true → number_of v ≤ n) listed
    × ((n ≡ 0)
        ⊎ ((v : Str) × Memᴰ v listed × (sample_semver.is_valid v ≡ true) × (number_of v ≡ n)))
latest_example = latest_revision_number_lem sample_semver sample_semver_law listed

next_example :
    (n : ℕ) × (next_revision_number sample_semver (rev 3 ∷ []) ≡ ok (rev n))
    × (1 ≤ n)
    × All (λ v. sample_semver.is_valid v ≡ true → number_of v < n) (rev 3 ∷ [])
    × All (λ v. v ≢ rev n) (rev 3 ∷ [])
next_example =
    next_revision_number_fresh sample_semver sample_semver_law (rev 3 ∷ [])
      (λ _. omega (arith, number_rev 3), tt)

validate_workspace_name_example :
    (validate_workspace_name (codes "ws-1") ≡ none) ↔ IsWorkspaceName (codes "ws-1")
validate_workspace_name_example = validate_workspace_name_iff (codes "ws-1")
