-- ===== src/Cache.antt =====
-- The cache of the opened repositories: pkg/cache/cache.go and cached_repository.go. The store of
-- github.com/henderiw/store and the opening and closing in git are parameters.
pub mod Shared
use pkgserver.Prelude.{
  ℕ, ◌≡◌, Bool, true, false, List, [], ◌∷◌, Option, none, some, Str, ◌==◌, nat_eq, if◌then◌else◌,
  length, Result, ok, err,
}
use pkgserver.Go.Strings.{codes}
use pkgserver.Repository.{
  Repository, RepositoryType, git_type, oci_type, other_type, validate, get_key,
}

-- What the cache calls of the store: `Get`, and `Create` with its error and the store after it.
pub record RepoStore (V : Type 0) : Type 1 where
  pub Store : Type 0
  pub get : Str → Store → Result V
  pub create : Str → V → Store → Option Str × Store

-- A value that was created without an error is there.
pub record Keeps {V : Type 0} (m : RepoStore V) : Type 0 where
  pub get_create :
      (k : Str) (v : V) (s : m.Store)
      → (m.create k v s).0 ≡ none
      → m.get k (m.create k v s).1 ≡ ok v

pub record CachedRepository : Type 0 where
  pub cr : Repository
  pub refresh_error : Option Str
  pub cancelled : Bool

-- A pointer to a cached repository is the number of those that were made before it.
abbrev pub Heap : Type 0
Heap = List CachedRepository

unfoldable pub at : ℕ → Heap → Option CachedRepository
at n [] = none
at n (c ∷ cs) = let rest = at n cs in if n == length cs then some c else rest

-- `CachedRepository.Close` cancels the scan of the repository.
unfoldable pub cancel : ℕ → Heap → Heap
cancel n [] = []
cancel n (c ∷ cs) =
    let rest = cancel n cs in
    if n == length cs then record c { cancelled = true } ∷ rest else c ∷ rest

-- `newCachedRepository`.
unfoldable pub new_cached : Repository → CachedRepository
new_cached cr = record { cr = cr; refresh_error = none; cancelled = false }

refresh_error_of : Option CachedRepository → Option Str
refresh_error_of none = some (codes "nil pointer dereference")
refresh_error_of (some c) = c.refresh_error

module _ (m : RepoStore ℕ) (open_git close_git : Heap → Repository → Option Str) where
  pub record Cache : Type 0 where
    pub heap : Heap
    pub repo_store : m.Store

  abbrev pub Opened : Type 0
  Opened = Result ℕ × Cache

  on_created : Cache → ℕ → Option Str × m.Store → Heap → Opened
  on_created c n (none, s) heap = (ok n, record { heap = heap; repo_store = s })
  on_created c n (some e, s) heap = (err e, record { heap = heap; repo_store = s })

  -- The repository was not stored.
  open_new : Repository → Cache → Option Str → Opened
  unfolding on_created new_cached
  open_new cr c (some e) = (err e, c)
  open_new cr c none =
      on_created c (length c.heap) (m.create (get_key cr) (length c.heap) c.repo_store)
        (new_cached cr ∷ c.heap)

  open_cached : Cache → ℕ → Option Str → Opened
  open_cached c n none = (ok n, c)
  open_cached c n (some e) = (err e, c)

  open_stored : Repository → Cache → Result ℕ → Opened
  unfolding open_new open_cached refresh_error_of at
  open_stored cr c (ok n) = open_cached c n (refresh_error_of (at n c.heap))
  open_stored cr c (err _) = open_new cr c (open_git c.heap cr)

  -- The last message leaves out the type, which the source quotes in it.
  open_type : RepositoryType → Repository → Cache → Opened
  unfolding open_stored
  open_type oci_type cr c = (err (codes "oci type not implemented"), c)
  open_type git_type cr c = open_stored cr c (m.get (get_key cr) c.repo_store)
  open_type (other_type t) cr c = (err (codes "unsupported type"), c)

  open_valid : Option Str → Repository → Cache → Opened
  unfolding open_type
  open_valid (some e) cr c = (err e, c)
  open_valid none cr c = open_type cr.type cr c

  unfoldable pub open_repository : Repository → Cache → Opened
  unfolding open_valid
  open_repository cr c = open_valid (validate cr) cr c

  close_stored : Cache → Result ℕ → Option Str × Cache
  unfolding cancel
  close_stored c (err _) = (none, c)
  close_stored c (ok n) = (none, record c { heap = cancel n c.heap })

  close_git_with : Repository → Cache → Option Str → Option Str × Cache
  unfolding close_stored
  close_git_with cr c (some e) = (some e, c)
  close_git_with cr c none = close_stored c (m.get (get_key cr) c.repo_store)

  close_valid : Option Str → Repository → Cache → Option Str × Cache
  unfolding close_git_with
  close_valid (some e) cr c = (some e, c)
  close_valid none cr c = close_git_with cr c (close_git c.heap cr)

  unfoldable pub close_repository : Repository → Cache → Option Str × Cache
  unfolding close_valid
  close_repository cr c = close_valid (validate cr) cr c
