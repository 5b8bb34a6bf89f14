-- ===== src/Git/Refs.antt =====
-- What the names of references and directories promise: pkg/git/pkg/refs.go and dir.go.
use mathlib.Core.Path.{subst}
use pkgserver.Prelude.{
  ◌≡◌, ◌≢◌, ◌↔◌, ◌⊎◌, inl, inr, refl, sym, ◌∙◌, ap, true, false, [], ◌∷◌, ◌++◌, some, arith, Str,
  ◌==◌, str_eq, nat_eq, ==_cases, ==_false, append-nil, if◌then◌else◌, length, drop, get_or,
}
use pkgserver.Go.Strings.{has_prefix, has_prefix_iff}
use pkgserver.Go.Path.{slash}
use pkgserver.PkgRevId.{PackageRevId}
use pkgserver.Git.{
  tag_in_local, is_tag_in_local_repo, is_branch_in_local_repo, trim_optional_prefix,
  get_tag_name_in_local_repo, package_tag_name, package_tag_ref_name, package_in_directory,
}

prefix_there : (p s : Str) → has_prefix (p ++ s) p ≡ true
prefix_there p s = (has_prefix_iff (p ++ s) p).1 (s, refl)

drop-append : (p s : Str) → drop (length p) (p ++ s) ≡ s
drop-append [] s = refl
drop-append (c ∷ p) s = drop-append p s

-- The reference of a package's tag is a tag and no branch, and its tag name is read back from it.
pub tag_name-ref_name :
    (r : PackageRevId) (rev : Str)
    → (get_tag_name_in_local_repo (package_tag_ref_name r rev) ≡ some (package_tag_name r rev))
      × (is_tag_in_local_repo (package_tag_ref_name r rev) ≡ true)
      × (is_branch_in_local_repo (package_tag_ref_name r rev) ≡ false)
unfolding package_tag_ref_name tag_in_local get_tag_name_in_local_repo trim_optional_prefix
    is_tag_in_local_repo is_branch_in_local_repo has_prefix
tag_name-ref_name r rev = (refl, refl, refl)

-- The package is the directory or lies below it.
abbrev pub IsIn : Str → Str → Type 0
IsIn pkg dir = (dir ≡ []) ⊎ (pkg ≡ dir) ⊎ ((below : Str) × (pkg ≡ dir ++ (slash ∷ below)))

-- The test after the prefix.
IsAfter : Str → Str → Type 0
IsAfter pkg dir =
    (if length pkg == length dir then true else get_or pkg (length dir) 0 == slash) ≡ true

below_dir :
    (dir rest : Str)
    → IsAfter (dir ++ rest) dir
    → (rest ≡ []) ⊎ ((below : Str) × (rest ≡ slash ∷ below))
unfolding IsAfter
below_dir [] [] h = inl refl
below_dir [] (c ∷ rest) h = inr (rest, ap (λ x. x ∷ rest) (ground (arith, h)))
below_dir (c ∷ dir) rest h = below_dir dir rest (ground (arith, h))

in_dir :
    (dir rest : Str)
    → (rest ≡ []) ⊎ ((below : Str) × (rest ≡ slash ∷ below))
    → IsAfter (dir ++ rest) dir
unfolding IsAfter
in_dir [] rest (inl e) = rw e refl
in_dir [] rest (inr (below, e)) = rw e (ground arith)
in_dir (c ∷ dir) rest h = ground (arith, in_dir dir rest h)

is_after :
    (pkg dir : Str)
    → dir ≢ []
    → (package_in_directory pkg dir ≡ true) ↔ ((has_prefix pkg dir ≡ true) × IsAfter pkg dir)
unfolding package_in_directory IsAfter
is_after pkg dir h = rw (==_false dir [] h) (λ t. ground (arith, t), λ t. ground (arith, t))

-- A package is in a directory exactly when no directory is given, or it is the directory, or its path
-- goes on after the directory with a slash.
pub package_in_directory_iff :
    (pkg dir : Str) → (package_in_directory pkg dir ≡ true) ↔ IsIn pkg dir
unfolding package_in_directory
package_in_directory_iff pkg dir = (to, from)
  where
    end :
        (rest : Str)
        → pkg ≡ dir ++ rest
        → (rest ≡ []) ⊎ ((below : Str) × (rest ≡ slash ∷ below))
        → IsIn pkg dir
    end rest e (inl none_left) = inr (inl (e ∙ ap (λ x. dir ++ x) none_left ∙ append-nil dir))
    end rest e (inr (below, more)) = inr (inr (below, e ∙ ap (λ x. dir ++ x) more))

    to : package_in_directory pkg dir ≡ true → IsIn pkg dir
    to h = elim (==_cases dir []) [
      | inl (_, empty) ↦ inl empty
      | inr (_, some_dir) ↦
          let (there, after) = (is_after pkg dir some_dir).0 h in
          let (rest, e) = (has_prefix_iff pkg dir).0 there in
          end rest e (below_dir dir rest (subst (λ (p : Str). IsAfter p dir) e after))
    ]

    at :
        (rest : Str)
        → pkg ≡ dir ++ rest
        → dir ≢ []
        → (rest ≡ []) ⊎ ((below : Str) × (rest ≡ slash ∷ below))
        → package_in_directory pkg dir ≡ true
    at rest e some_dir h = (is_after pkg dir some_dir).1 (
      (has_prefix_iff pkg dir).1 (rest, e),
      subst (λ (p : Str). IsAfter p dir) (sym e) (in_dir dir rest h),
    )

    empty_dir : dir ≡ [] → package_in_directory pkg dir ≡ true
    empty_dir e = rw e refl

    from : IsIn pkg dir → package_in_directory pkg dir ≡ true
    from h = elim (==_cases dir []) [
      | inl (_, empty) ↦ empty_dir empty
      | inr (_, some_dir) ↦ elim h [
        | inl empty ↦ empty_dir empty
        | inr (inl same) ↦ at [] (same ∙ sym (append-nil dir)) some_dir (inl refl)
        | inr (inr (below, e)) ↦ at (slash ∷ below) e some_dir (inr (below, refl))
      ]
    ]
