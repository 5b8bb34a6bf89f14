-- ===== src/Tests/Repositories.antt =====
-- A repository, and a cache of repositories.
use pkgserver.Prelude.{
  ℕ, ◌≡◌, ◌↔◌, refl, [], ◌++◌, false, Option, none, some, Str, ◌==◌, ==_refl, str_eq, if◌then◌else◌,
  Result, ok, err,
}
use pkgserver.Go.Strings.{codes}
use pkgserver.Repository.{Repository, git_type, validate, get_url, get_key}
use pkgserver.Repository.Valid.{IsGit, validate_iff}
use pkgserver.Cache.{RepoStore, Keeps, Heap, Cache, at, open_repository, close_repository}
use pkgserver.Cache.Shared.{cancelled_of, open-close}

abbrev catalog : Repository
catalog = record {
  namespace = codes "default";
  name = codes "catalog";
  type = git_type;
  git = some (record {
    url = codes "https://example.org/catalog.git";
    ref = codes "main";
    directory = codes "/pkgs";
    credentials = [];
  });
  oci = none;
  deployment = false;
  conditions = [];
}

repository_example :
    ((validate catalog ≡ none) ↔ IsGit catalog)
    × ((i : IsGit catalog)
        → (get_url catalog ≡ i.spec.url)
          × (get_key catalog ≡ codes "git://" ++ (i.spec.url ++ i.spec.directory)))
repository_example = validate_iff catalog

-- The same repository at another branch.
abbrev develop : Repository
develop = record catalog {
  name = codes "develop";
  git = some (record {
    url = codes "https://example.org/catalog.git";
    ref = codes "develop";
    directory = codes "/pkgs";
    credentials = [];
  });
}

abbrev answer : Option ℕ → Result ℕ
answer none = err []
answer (some n) = ok n

abbrev create_at : Str → ℕ → (Str → Option ℕ) → Option ℕ → Option Str × (Str → Option ℕ)
create_at k n s none = (none, λ j. if j == k then some n else s j)
create_at k n s (some _) = (some (codes "duplicate entry"), s)

abbrev numbers : RepoStore ℕ
numbers = record {
  Store = Str → Option ℕ;
  get = λ k s. answer (s k);
  create = λ k n s. create_at k n s (s k);
}

numbers_keep : Keeps numbers
numbers_keep = record { get_create = λ k n s h. added k n s (s k) h }
  where
    added :
        (k : Str) (n : ℕ) (s : Str → Option ℕ) (o : Option ℕ)
        → (create_at k n s o).0 ≡ none
        → answer ((create_at k n s o).1 k) ≡ ok n
    added k n s none h = rw (==_refl k) refl
    added k n s (some _) h = cc h

abbrev never : Heap → Repository → Option Str
never heap r = none

abbrev empty_cache : Cache numbers never never
empty_cache = record { heap = []; repo_store = λ k. none }

abbrev opened : Result ℕ × Cache numbers never never
opened = open_repository numbers never never catalog empty_cache

is_opened : open_repository numbers never never catalog empty_cache ≡ (ok 0, opened.1)
unfolding open_repository validate
is_opened = refl

valid_develop : validate develop ≡ none
unfolding validate
valid_develop = refl

valid_catalog : validate catalog ≡ none
unfolding validate
valid_catalog = refl

same_key : get_key develop ≡ get_key catalog
unfolding get_key
same_key = refl

cache_example :
    (open_repository numbers never never develop opened.1 ≡ (ok 0, opened.1))
    × (let closed = close_repository numbers never never catalog opened.1 in
        (closed.0 ≡ none)
        × (open_repository numbers never never develop closed.1 ≡ (ok 0, closed.1))
        × (at 0 closed.1.heap ≡ cancelled_of (at 0 opened.1.heap)))
cache_example =
    open-close numbers numbers_keep never never catalog catalog develop empty_cache opened.1 0
      is_opened valid_catalog refl valid_develop same_key refl
