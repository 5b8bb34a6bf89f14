-- ===== src/Repository.antt =====
-- The resource Repository: apis/config/v1alpha1/repository_types.go and repository_interfaces.go.
pub mod Valid
use pkgserver.Prelude.{
  Bool, List, [], ◌∷◌, ◌++◌, Option, none, some, Str, ◌==◌, str_eq, nat_eq, if◌then◌else◌,
}
use pkgserver.Go.Strings.{codes}
use pkgserver.Go.Path.{slash}
use pkgserver.Condition.{Condition}

-- A repository type is a string: `other_type` is one that the program gives no name.
pub data RepositoryType : Type 0 where
  git_type oci_type : RepositoryType
  other_type : Str → RepositoryType

pub record GitRepository : Type 0 where
  pub url : Str
  pub ref : Str
  pub directory : Str
  pub credentials : Str

pub record OciRepository : Type 0 where
  pub registry : Str
  pub credentials : Str

pub record Repository : Type 0 where
  pub namespace : Str
  pub name : Str
  pub type : RepositoryType
  pub git : Option GitRepository
  pub oci : Option OciRepository
  pub deployment : Bool
  pub conditions : List Condition

empty_to : Str → Str → Option Str
empty_to s e = if s == [] then some e else none

validate_git : Option GitRepository → Option Str
unfolding empty_to
validate_git none = some (codes "cannot open a git repository without a git spec")
validate_git (some git) =
    empty_to git.url (codes "cannot open a git repository without a repository URL")

validate_oci : Option OciRepository → Option Str
validate_oci none = some (codes "cannot open a git repository without a git spec")
validate_oci (some oci) =
    if oci.registry == []
    then some (codes "cannot open a oci registry without a URL")
    else some (codes "oci type not implemented")

-- The last message leaves out the type, which the source quotes in it.
validate_type : RepositoryType → Option GitRepository → Option OciRepository → Option Str
unfolding validate_git validate_oci
validate_type oci_type git oci = validate_oci oci
validate_type git_type git oci = validate_git git
validate_type (other_type t) git oci = some (codes "unsupported type")

-- `Validate`; `none` is the error `nil`.
unfoldable pub validate : Repository → Option Str
unfolding validate_type
validate r = validate_type r.type r.git r.oci

-- A getter reads the specification of the repository's type, and gives "" where there is none.
module _ (on_git : GitRepository → Str) (on_oci : OciRepository → Str) where
  spec_of : RepositoryType → Option GitRepository → Option OciRepository → Str
  spec_of git_type (some git) oci = on_git git
  spec_of git_type none oci = []
  spec_of oci_type git (some oci) = on_oci oci
  spec_of oci_type git none = []
  spec_of (other_type t) git oci = []

  by_type : Repository → Str
  unfolding spec_of
  by_type r = spec_of r.type r.git r.oci

unfoldable pub get_key : Repository → Str
unfolding by_type
get_key r =
    by_type (λ g. codes "git://" ++ (g.url ++ g.directory)) (λ o. codes "oci://" ++ o.registry) r

unfoldable pub get_url : Repository → Str
unfolding by_type
get_url r = by_type (λ g. g.url) (λ o. o.registry) r

unfoldable pub get_credential_secret : Repository → Str
unfolding by_type
get_credential_secret r = by_type (λ g. g.credentials) (λ o. o.credentials) r

unfoldable pub get_ref : Repository → Str
unfolding by_type
get_ref r = by_type (λ g. g.ref) (λ _. []) r

-- `strings.Trim(s, "/")`.
trim_left : Str → Str
trim_left [] = []
trim_left (c ∷ s) = let rest = trim_left s in if c == slash then rest else c ∷ s

trim_right : Str → Str
trim_right [] = []
trim_right (c ∷ s) =
    let rest = trim_right s in if rest == [] then (if c == slash then [] else c ∷ []) else c ∷ rest

unfoldable pub get_directory : Repository → Str
unfolding by_type trim_left trim_right
get_directory r = by_type (λ g. trim_right (trim_left g.directory)) (λ _. []) r
