-- ===== src/Cache/Shared.antt =====
-- Who shares a cached repository: pkg/cache/cache.go.
use mathlib.Core.Path.{subst}
use pkgserver.Prelude.{
  ℕ, ◌≡◌, refl, sym, ap, ◌∙◌, true, [], ◌∷◌, Option, none, some, Str, nat_eq, ==_refl, length,
  Result, ok, err, arith,
}
use pkgserver.Repository.{
  Repository, RepositoryType, git_type, oci_type, other_type, validate, get_key,
}
use pkgserver.Repository.Valid.{validate_iff}
use pkgserver.Cache.{
  RepoStore, Keeps, CachedRepository, Heap, at, cancel, new_cached, refresh_error_of, Cache,
  on_created, open_new, open_cached, open_stored, open_type, open_valid, open_repository,
  close_stored, close_git_with, close_valid, close_repository,
}

-- A cached repository is cancelled, and nothing else of it changes.
unfoldable pub cancelled_of : Option CachedRepository → Option CachedRepository
cancelled_of none = none
cancelled_of (some c) = some (record c { cancelled = true })

length-cancel : (n : ℕ) (h : Heap) → length (cancel n h) ≡ length h
unfolding cancel
length-cancel n [] = refl
length-cancel n (c ∷ cs) = ground (arith, length-cancel n cs)

at-cancel : (n : ℕ) (h : Heap) → at n (cancel n h) ≡ cancelled_of (at n h)
unfolding at cancel cancelled_of
at-cancel n [] = refl
at-cancel n (c ∷ cs) = ground (arith, length-cancel n cs, at-cancel n cs)

uncancelled : (o : Option CachedRepository) → refresh_error_of (cancelled_of o) ≡ refresh_error_of o
unfolding cancelled_of refresh_error_of
uncancelled none = refl
uncancelled (some c) = refl

at-last : (c : CachedRepository) (cs : Heap) → at (length cs) (c ∷ cs) ≡ some c
unfolding at
at-last c cs = rw (==_refl (length cs)) refl

module _ (m : RepoStore ℕ) (law : Keeps m)
    (open_git close_git : Heap → Repository → Option Str) where
  -- The store has the number of the cached repository under the key, and its scan showed no error.
  record IsHeld (k : Str) (n : ℕ) (c : Cache m open_git close_git) : Type 0 where
    in_store : m.get k c.repo_store ≡ ok n
    no_error : refresh_error_of (at n c.heap) ≡ none

  -- What is answered is held.
  abbrev AnswerHeld : Str → Result ℕ × Cache m open_git close_git → Type 0
  AnswerHeld k (ok n, c) = IsHeld k n c
  AnswerHeld k (err e, c) = Unit

  module _ (r : Repository) (c : Cache m open_git close_git) where
    made-IsHeld :
        (e : Option Str)
        → e ≡ (m.create (get_key r) (length c.heap) c.repo_store).0
        → AnswerHeld (get_key r) (
            on_created m open_git close_git c
              (length c.heap)
              (e, (m.create (get_key r) (length c.heap) c.repo_store).1)
              (new_cached r ∷ c.heap))
    unfolding on_created
    made-IsHeld (some e) t = tt
    made-IsHeld none t = record {
      in_store = law.get_create (get_key r) (length c.heap) c.repo_store (sym t);
      no_error =
          ap refresh_error_of (at-last (new_cached r) c.heap)
          ∙ unfold new_cached refresh_error_of in refl;
    }

    new-IsHeld : (e : Option Str) → AnswerHeld (get_key r) (open_new m open_git close_git r c e)
    unfolding open_new
    new-IsHeld (some e) = tt
    new-IsHeld none = made-IsHeld _ refl

    cached-IsHeld :
        (n : ℕ)
        → m.get (get_key r) c.repo_store ≡ ok n
        → (e : Option Str) → e ≡ refresh_error_of (at n c.heap)
        → AnswerHeld (get_key r) (open_cached m open_git close_git c n e)
    unfolding open_cached
    cached-IsHeld n g (some e) t = tt
    cached-IsHeld n g none t = record { in_store = g; no_error = sym t }

    stored-IsHeld :
        (s : Result ℕ)
        → m.get (get_key r) c.repo_store ≡ s
        → AnswerHeld (get_key r) (open_stored m open_git close_git r c s)
    unfolding open_stored
    stored-IsHeld (ok n) g = cached-IsHeld n g _ refl
    stored-IsHeld (err e) g = new-IsHeld (open_git c.heap r)

    type-IsHeld :
        (t : RepositoryType) → AnswerHeld (get_key r) (open_type m open_git close_git t r c)
    unfolding open_type
    type-IsHeld git_type = stored-IsHeld _ refl
    type-IsHeld oci_type = tt
    type-IsHeld (other_type t) = tt

    valid-IsHeld : (e : Option Str) → AnswerHeld (get_key r) (open_valid m open_git close_git e r c)
    unfolding open_valid
    valid-IsHeld (some e) = tt
    valid-IsHeld none = type-IsHeld r.type

    opened-IsHeld :
        (n : ℕ) (d : Cache m open_git close_git)
        → open_repository m open_git close_git r c ≡ (ok n, d)
        → IsHeld (get_key r) n d
    unfolding open_repository
    opened-IsHeld n d e = subst (AnswerHeld (get_key r)) e (valid-IsHeld (validate r))

  module _ (q : Repository) (n : ℕ) (c : Cache m open_git close_git) (held : IsHeld (get_key q) n c)
      (valid : validate q ≡ none) where
    open_held : open_repository m open_git close_git q c ≡ (ok n, c)
    unfolding open_repository open_valid open_type open_stored open_cached
    open_held =
        ap (λ e. open_valid m open_git close_git e q c) valid
        ∙ ap (λ t. open_type m open_git close_git t q c) ((validate_iff q).0.0 valid).is_git
        ∙ ap (open_stored m open_git close_git q c) held.in_store
        ∙ ap (open_cached m open_git close_git c n) held.no_error

    close_held :
        close_git c.heap q ≡ none
        → close_repository m open_git close_git q c ≡ (none, record c { heap = cancel n c.heap })
    unfolding close_repository close_valid close_git_with close_stored
    close_held gone = rw (valid, gone, held.in_store) refl

  cancel-IsHeld :
      (k : Str) (n : ℕ) (c : Cache m open_git close_git)
      → IsHeld k n c
      → IsHeld k n (record c { heap = cancel n c.heap })
  cancel-IsHeld k n c held = record {
    in_store = held.in_store;
    no_error = ap refresh_error_of (at-cancel n c.heap) ∙ uncancelled (at n c.heap) ∙ held.no_error;
  }

  -- Once a repository was opened, every repository with its key is given the same cached repository,
  -- and the cache stays as it is; where git lets it be closed, it is given out afterwards too, although
  -- it is then cancelled.
  pub open-close :
      (r p q : Repository) (c d : Cache m open_git close_git) (n : ℕ)
      → open_repository m open_git close_git r c ≡ (ok n, d)
      → validate p ≡ none
      → get_key p ≡ get_key r
      → validate q ≡ none
      → get_key q ≡ get_key r
      → close_git d.heap p ≡ none
      → (open_repository m open_git close_git q d ≡ (ok n, d))
        × (let closed = close_repository m open_git close_git p d in
            (closed.0 ≡ none)
            × (open_repository m open_git close_git q closed.1 ≡ (ok n, closed.1))
            × (at n closed.1.heap ≡ cancelled_of (at n d.heap)))
  open-close r p q c d n opened valid_p key_p valid_q key_q gone = (
    open_held q n d (for q key_q) valid_q,
    subst Shared (sym (close_held p n d (for p key_p) valid_p gone))
        (refl, open_held q n after (cancel-IsHeld _ n d (for q key_q)) valid_q, at-cancel n d.heap),
  )
    where
      after : Cache m open_git close_git
      after = record d { heap = cancel n d.heap }

      Shared : Option Str × Cache m open_git close_git → Type 0
      Shared o =
          (o.0 ≡ none)
          × (open_repository m open_git close_git q o.1 ≡ (ok n, o.1))
          × (at n o.1.heap ≡ cancelled_of (at n d.heap))

      for : (x : Repository) → get_key x ≡ get_key r → IsHeld (get_key x) n d
      for x e = subst (λ k. IsHeld k n d) (sym e) (opened-IsHeld r c n d opened)
