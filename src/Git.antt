-- ===== src/Git.antt =====
-- The names of branches and tags: pkg/git/pkg/refs.go, dir.go and `IsFiltered` of git_list.go.
-- The reference specifications of go-git are a parameter.
pub mod Refs
use pkgserver.Prelude.{
  ℕ, Bool, true, false, not, List, [], ◌∷◌, ◌++◌, Option, none, some, Str, ◌==◌, str_eq, nat_eq,
  if◌then◌else◌, length, drop, get_or, Result, ok, err,
}
use pkgserver.Go.Strings.{codes, has_prefix, contains, intercalate}
use pkgserver.Go.Path.{slash}
use pkgserver.PkgRevId.{PackageRevId, pkg_target_catalog, path}

abbrev pub branch_prefix_in_local_repo : Str
branch_prefix_in_local_repo = codes "refs/remotes/origin/"

abbrev pub branch_prefix_in_remote_repo : Str
branch_prefix_in_remote_repo = codes "refs/heads/"

abbrev pub tags_prefix : Str
tags_prefix = codes "refs/tags/"

unfoldable pub branch_in_local : Str → Str
branch_in_local b = branch_prefix_in_local_repo ++ b

unfoldable pub branch_in_remote : Str → Str
branch_in_remote b = branch_prefix_in_remote_repo ++ b

-- `TagInLocal` and `TagInRemote` give the same name.
unfoldable pub tag_in_local : Str → Str
tag_in_local t = tags_prefix ++ t

unfoldable pub is_main_branch : Str → Str → Bool
is_main_branch n main = n == branch_prefix_in_local_repo ++ main

unfoldable pub is_branch_in_local_repo : Str → Bool
is_branch_in_local_repo n = has_prefix n branch_prefix_in_local_repo

unfoldable pub is_tag_in_local_repo : Str → Bool
is_tag_in_local_repo n = has_prefix n tags_prefix

-- The text after the prefix, where it is there: `none` is the answer `"", false`.
unfoldable pub trim_optional_prefix : Str → Str → Option Str
trim_optional_prefix s prefix = if has_prefix s prefix then some (drop (length prefix) s) else none

unfoldable pub get_tag_name_in_local_repo : Str → Option Str
unfolding trim_optional_prefix
get_tag_name_in_local_repo n = trim_optional_prefix n tags_prefix

-- `Sprintf` puts the parts between slashes as they are, an empty realm too.
unfoldable pub package_branch_name : PackageRevId → Str
package_branch_name r =
    if r.target == pkg_target_catalog
    then intercalate slash (r.realm ∷ r.pkg ∷ r.workspace ∷ [])
    else intercalate slash (r.target ∷ r.realm ∷ r.pkg ∷ r.workspace ∷ [])

unfoldable pub workspace_package_branch_ref_name : PackageRevId → Str
unfolding branch_in_local package_branch_name
workspace_package_branch_ref_name r = branch_in_local (package_branch_name r)

unfoldable pub package_tag_name : PackageRevId → Str → Str
package_tag_name r rev =
    if r.target == pkg_target_catalog
    then intercalate slash (r.realm ∷ r.pkg ∷ rev ∷ [])
    else intercalate slash (r.target ∷ r.realm ∷ r.pkg ∷ rev ∷ [])

unfoldable pub package_tag_ref_name : PackageRevId → Str → Str
unfolding tag_in_local package_tag_name
package_tag_ref_name r rev = tag_in_local (package_tag_name r rev)

-- `config.RefSpec`: whether it matches a name, and the name that it gives.
pub record RefSpec : Type 0 where
  pub matches : Str → Bool
  pub dst : Str → Str

unfoldable pub translate_reference : Str → List RefSpec → Result Str
translate_reference n [] = err (codes "cannot translate reference " ++ n)
translate_reference n (spec ∷ specs) =
    let rest = translate_reference n specs in if spec.matches n then ok (spec.dst n) else rest

-- The index is in range where it is read: the package is longer than the directory there.
unfoldable pub package_in_directory : Str → Str → Bool
package_in_directory pkg dir =
    if dir == []
    then true
    else if has_prefix pkg dir
    then (if length pkg == length dir then true else get_or pkg (length dir) 0 == slash)
    else false

-- `opt.PackagerevID`, where there is one; no option at all filters nothing.
unfoldable pub is_filtered : Str → Option (Option PackageRevId) → Bool
is_filtered ref none = false
is_filtered ref (some none) = true
is_filtered ref (some (some id)) = not (contains ref (path id))
