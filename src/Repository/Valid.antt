-- ===== src/Repository/Valid.antt =====
-- Which repositories `Validate` of apis/config/v1alpha1/repository_interfaces.go accepts.
use pkgserver.Prelude.{
  ◌≡◌, ◌≢◌, ◌↔◌, refl, [], ◌++◌, Option, none, some, arith, Str, str_eq, str_beq_iff,
}
use pkgserver.Go.Strings.{codes}
use pkgserver.Repository.{
  RepositoryType, git_type, oci_type, other_type, GitRepository, OciRepository, Repository,
  empty_to, validate_git, validate_oci, validate_type, validate, spec_of, by_type, get_url, get_key,
}

-- A git repository with a URL.
pub record IsGit (r : Repository) : Type 0 where
  pub spec : GitRepository
  pub is_git : r.type ≡ git_type
  pub has_spec : r.git ≡ some spec
  pub has_url : spec.url ≢ []

accepts_url : (s e : Str) → (empty_to s e ≡ none) ↔ (s ≢ [])
unfolding empty_to
accepts_url s e =
    (λ h k. ground (arith, h, str_beq_iff s []), λ h. ground (arith, h, str_beq_iff s []))

module _ (r : Repository) where
  to_git :
      (t : RepositoryType) (g : Option GitRepository) (o : Option OciRepository)
      → r.type ≡ t
      → r.git ≡ g
      → validate_type t g o ≡ none
      → IsGit r
  unfolding validate_type validate_git validate_oci
  to_git git_type (some git) o et eg h = record {
    spec = git;
    is_git = et;
    has_spec = eg;
    has_url = (accepts_url git.url _).0 h;
  }
  to_git git_type none o et eg h = cc
  to_git oci_type g none et eg h = cc
  to_git oci_type g (some oci) et eg h = ground (arith, h)
  to_git (other_type t) g o et eg h = cc

  url_of : (i : IsGit r) → get_url r ≡ i.spec.url
  unfolding get_url by_type spec_of
  url_of i = rw (i.is_git, i.has_spec) refl

  key_of : (i : IsGit r) → get_key r ≡ codes "git://" ++ (i.spec.url ++ i.spec.directory)
  unfolding get_key by_type spec_of
  key_of i = rw (i.is_git, i.has_spec) refl

  from_git : IsGit r → validate r ≡ none
  unfolding validate validate_type validate_git
  from_git i = rw (i.is_git, i.has_spec) ((accepts_url i.spec.url _).1 i.has_url)

  -- A repository is accepted exactly when it is a git repository with a URL; its URL and its key are
  -- then those of its git specification.
  pub validate_iff :
      ((validate r ≡ none) ↔ IsGit r)
      × ((i : IsGit r)
          → (get_url r ≡ i.spec.url)
            × (get_key r ≡ codes "git://" ++ (i.spec.url ++ i.spec.directory)))
  validate_iff = (
    (unfold validate in to_git r.type r.git r.oci refl refl, from_git),
    (λ i. (url_of i, key_of i)),
  )
