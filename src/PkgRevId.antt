-- ===== src/PkgRevId.antt =====
-- The identity of a package revision, its prints and its parsers: apis/pkgrevid/pkgrevid.go,
-- upstream_downstream.go and state.go.
pub mod RoundTrip
pub mod Revision
use pkgserver.Prelude.{
  ℕ, suc, ◌-◌, ◌≡◌, ◌↔◌, refl, Bool, true, false, ◌&&◌, List, [], ◌∷◌, ◌++◌, arith, Str, ◌==◌, Eq,
  str_eq, nat_eq, str_beq, str_beq_iff, ==_iff, ltb, if◌then◌else◌, length, get_or, slice, Result,
  ok, err,
}
use pkgserver.Go.Strings.{codes, split, replace_all, intercalate}
use pkgserver.Go.Path.{slash, join}

pub record PackageRevId : Type 0 where
  pub target : Str
  pub repository : Str
  pub realm : Str
  pub pkg : Str
  pub revision : Str
  pub workspace : Str

abbrev pub empty_id : PackageRevId
empty_id = record {
  target = [];
  repository = [];
  realm = [];
  pkg = [];
  revision = [];
  workspace = [];
}

abbrev pub id_beq : PackageRevId → PackageRevId → Bool
id_beq a b =
    str_beq a.target b.target
    && (str_beq a.repository b.repository
        && (str_beq a.realm b.realm
            && (str_beq a.pkg b.pkg
                && (str_beq a.revision b.revision && str_beq a.workspace b.workspace))))

pub id_beq_iff : (a b : PackageRevId) → (id_beq a b ≡ true) ↔ (a ≡ b)
id_beq_iff a b = ground (
  arith,
  str_beq_iff a.target b.target,
  str_beq_iff a.repository b.repository,
  str_beq_iff a.realm b.realm,
  str_beq_iff a.pkg b.pkg,
  str_beq_iff a.revision b.revision,
  str_beq_iff a.workspace b.workspace,
)

instance abbrev pub id_eq : Eq PackageRevId
id_eq = record { equals = id_beq; decides = id_beq_iff }

pub record Upstream : Type 0 where
  pub repository : Str
  pub realm : Str
  pub pkg : Str
  pub revision : Str

pub record Downstream : Type 0 where
  pub target : Str
  pub repository : Str
  pub realm : Str
  pub pkg : Str

pub data PkgState : Type 0 where
  not_available scheduled processed validated approved installed : PkgState

abbrev pub dot : ℕ
dot = b'.'

abbrev pub colon : ℕ
colon = b':'

abbrev pub pkg_target_catalog : Str
pkg_target_catalog = codes "catalog"

-- `PkgState.String`: a validated package has no name of its own.
unfoldable pub state_string : PkgState → Str
state_string not_available = codes "notAvailable"
state_string scheduled = codes "scheduled"
state_string processed = codes "processed"
state_string approved = codes "approved"
state_string installed = codes "installed"
state_string validated = codes "unknown"

unfoldable pub parse_pkg_rev : Str → Result PackageRevId
parse_pkg_rev s =
    let parts = split dot s in
    if length parts == 5
    then ok (record {
      target = get_or parts 0 [];
      repository = get_or parts 1 [];
      realm = replace_all colon slash (get_or parts 2 []);
      pkg = get_or parts 3 [];
      revision = [];
      workspace = get_or parts 4 [];
    })
    else err (
        codes
          "pkgString should contain 5 parameters <TARGET>.<REPO>.<REALM>.<PKG>.<WORKSPACE>, got: "
        ++ s)

unfoldable pub parse_tag : Str → Bool → Result PackageRevId
parse_tag s true =
    let parts = split slash s in
    let n = length parts in
    if ltb n 2
    then err (codes "pkgString should contain 2 parameters [<REALM>]/<PKG>/<REVISION>, got: " ++ s)
    else ok (record {
      target = pkg_target_catalog;
      repository = [];
      realm = join (slice parts 0 (n - 2));
      pkg = get_or parts (n - 2) [];
      revision = get_or parts (n - 1) [];
      workspace = [];
    })
parse_tag s false =
    let parts = split slash s in
    let n = length parts in
    if ltb n 3
    then err (
        codes "pkgString should contain 3 parameters <TARGET>/[<REALM>]/<PKG>/<REVISION>, got: "
        ++ s)
    else ok (record {
      target = get_or parts 0 [];
      repository = [];
      realm = join (slice parts 1 (n - 2));
      pkg = get_or parts (n - 2) [];
      revision = get_or parts (n - 1) [];
      workspace = [];
    })

unfoldable pub parse_branch : Str → Bool → Result PackageRevId
parse_branch s true =
    let parts = split slash s in
    let n = length parts in
    if ltb n 2
    then err (codes "pkgString should contain 2 parameters [<REALM>]/<PKG>/<WORKSPACE>, got: " ++ s)
    else ok (record {
      target = pkg_target_catalog;
      repository = [];
      realm = join (slice parts 0 (n - 2));
      pkg = get_or parts (n - 2) [];
      revision = [];
      workspace = get_or parts (n - 1) [];
    })
parse_branch s false =
    let parts = split slash s in
    let n = length parts in
    if ltb n 3
    then err (
        codes "pkgString should contain 3 parameters <TARGET>/[<REALM>]/<PKG>/<WORKSPACE>, got: "
        ++ s)
    else ok (record {
      target = get_or parts 0 [];
      repository = [];
      realm = join (slice parts 1 (n - 2));
      pkg = get_or parts (n - 2) [];
      revision = [];
      workspace = get_or parts (n - 1) [];
    })

unfoldable pub realm_to_name : Str → Str
realm_to_name s = replace_all slash colon s

unfoldable pub package_to_dir : Str → Str
package_to_dir s = replace_all colon slash s

unfoldable pub pkg_rev_string : PackageRevId → Str
unfolding realm_to_name
pkg_rev_string r =
    intercalate dot (r.target ∷ r.repository ∷ realm_to_name r.realm ∷ r.pkg ∷ r.workspace ∷ [])

unfoldable pub path : PackageRevId → Str
path r =
    if r.target == codes "catalog"
    then join (r.realm ∷ r.pkg ∷ [])
    else join (r.target ∷ r.realm ∷ r.pkg ∷ [])

unfoldable pub pkg_string : PackageRevId → Str
pkg_string r = join (r.realm ∷ r.pkg ∷ [])

-- The source indexes the split without a test: `err` stands for the panic where there is no dot.
unfoldable pub get_repo_name : Str → Result Str
get_repo_name name =
    let parts = split dot name in
    if ltb 1 (length parts) then ok (get_or parts 1 []) else err (codes "index out of range")

unfoldable pub branch : PackageRevId → Bool → Str
branch r true = join (r.realm ∷ r.pkg ∷ r.workspace ∷ [])
branch r false = join (r.target ∷ r.realm ∷ r.pkg ∷ r.workspace ∷ [])

unfoldable pub tag : PackageRevId → Bool → Str
tag r true = join (r.realm ∷ r.pkg ∷ r.revision ∷ [])
tag r false = join (r.target ∷ r.realm ∷ r.pkg ∷ r.revision ∷ [])

unfoldable pub git_revision : PackageRevId → Str
git_revision r = join (r.target ∷ r.realm ∷ r.pkg ∷ r.revision ∷ [])

unfoldable pub out_dir : PackageRevId → Str
out_dir r = join (r.target ∷ r.realm ∷ r.pkg ∷ codes "out" ∷ [])

unfoldable pub dns_name : PackageRevId → Str
dns_name r = intercalate dot (r.target ∷ r.pkg ∷ [])

unfoldable pub upstream_pkg_string : Upstream → Str
upstream_pkg_string u = join (u.realm ∷ u.pkg ∷ [])

-- The source prints an empty identity, whatever the receiver is.
unfoldable pub upstream_pkg_rev_name : Upstream → Str
unfolding pkg_rev_string
upstream_pkg_rev_name u = pkg_rev_string empty_id

unfoldable pub downstream_pkg_string : Downstream → Str
downstream_pkg_string d = join (d.realm ∷ d.pkg ∷ [])
