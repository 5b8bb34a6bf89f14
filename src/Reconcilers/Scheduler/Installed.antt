-- ===== src/Reconcilers/Scheduler/Installed.antt =====
-- The installed packages that the scheduler remembers:
-- pkg/reconcilers/packagescheduler/pkg/package.go and key.go. The mutex is left out: each operation
-- runs on its own, under the store's lock.
use pkgserver.Prelude.{
  ◌≡◌, ◌≢◌, ◌⊎◌, inl, inr, refl, sym, ◌∙◌, ap, ==_cases, Bool, true, false, not, ◌&&◌, ◌||◌, List,
  [], Option, none, some, arith, ◌==◌, if◌then◌else◌,
}
use pkgserver.Go.Sets.{has, insert, remove, has-insert, has-remove}
use pkgserver.PkgRevId.{PackageRevId, id_eq, pkg_string}
use pkgserver.PackageRevision.{PackageRevision}
use pkgserver.Storer.{Key, key_eq, Storer, found, on_found, IsMemory}

pub record Package : Type 0 where
  pub revisions : List PackageRevId
  pub owner_refs : List PackageRevId

abbrev pub new_package : Package
new_package = record { revisions = []; owner_refs = [] }

unfoldable pub add_package_revision : PackageRevId → Package → Package
add_package_revision id p = record p { revisions = insert id p.revisions }

unfoldable pub delete_package_revision : PackageRevId → Package → Package
delete_package_revision id p = record p { revisions = remove id p.revisions }

unfoldable pub add_owner_ref : PackageRevId → Package → Package
add_owner_ref id p = record p { owner_refs = insert id p.owner_refs }

unfoldable pub delete_owner_ref : PackageRevId → Package → Package
delete_owner_ref id p = record p { owner_refs = remove id p.owner_refs }

-- `getkeyFromPkgRev`.
unfoldable pub revision_key : PackageRevision → Key
revision_key cr = record { namespace = cr.id.target; name = pkg_string cr.id }

-- The function that the reconciler gives to the store where a package revision is scheduled, and the
-- one where it is deleted.
unfoldable pub with_revision : PackageRevision → Option Package → Package
unfolding add_package_revision
with_revision cr none = add_package_revision cr.id new_package
with_revision cr (some p) = add_package_revision cr.id p

unfoldable pub without_revision : PackageRevision → Key → Package → Package
unfolding delete_package_revision delete_owner_ref
without_revision cr k p =
    delete_owner_ref cr.id (if k == revision_key cr then delete_package_revision cr.id p else p)

-- The package has the revision, or is owned by it.
unfoldable pub installed_at : PackageRevId → Option Package → Bool
installed_at id none = false
installed_at id (some p) = has id p.revisions

unfoldable pub owned_by : PackageRevId → Option Package → Bool
owned_by id none = false
owned_by id (some p) = has id p.owner_refs

nothing_has : (id : PackageRevId) (b : Bool) → (has id [] || b) ≡ b
unfolding has
nothing_has id b = refl

installed_with :
    (cr : PackageRevision) (id : PackageRevId) (o : Option Package)
    → installed_at id (some (with_revision cr o)) ≡ (installed_at id o || cr.id == id)
unfolding installed_at with_revision add_package_revision
installed_with cr id none = has-insert cr.id id [] ∙ nothing_has id (cr.id == id)
installed_with cr id (some p) = has-insert cr.id id p.revisions

installed_without :
    (cr : PackageRevision) (k : Key) (id : PackageRevId) (o : Option Package)
    → installed_at id (on_found (without_revision cr k) o)
      ≡ (installed_at id o && not (k == revision_key cr && cr.id == id))
unfolding installed_at without_revision delete_package_revision delete_owner_ref
installed_without cr k id none = refl
installed_without cr k id (some p) = by_test (k == revision_key cr)
  where
    by_test :
        (test : Bool)
        → has id (if test then record p { revisions = remove cr.id p.revisions } else p).revisions
          ≡ (has id p.revisions && not (test && cr.id == id))
    by_test true = has-remove cr.id id p.revisions
    by_test false = ground arith

owned_without :
    (cr : PackageRevision) (k : Key) (id : PackageRevId) (o : Option Package)
    → owned_by id (on_found (without_revision cr k) o) ≡ (owned_by id o && not (cr.id == id))
unfolding owned_by without_revision delete_package_revision delete_owner_ref
owned_without cr k id none = refl
owned_without cr k id (some p) = by_test (k == revision_key cr)
  where
    by_test :
        (test : Bool)
        → has id (
            remove cr.id
              (if test then record p { revisions = remove cr.id p.revisions } else p).owner_refs)
          ≡ (has id p.owner_refs && not (cr.id == id))
    by_test true = has-remove cr.id id p.owner_refs
    by_test false = has-remove cr.id id p.owner_refs

module _ (m : Storer Package) (memory : IsMemory m) (cr : PackageRevision) (s : m.Store) where
  -- Over a memory store: scheduling a package revision adds it to its own package and changes no other
  -- entry.
  pub scheduled_lem :
      (k : Key) (id : PackageRevId)
      → installed_at id
          (found (m.get k (m.update_with_key_fn (revision_key cr) (with_revision cr) s).1))
        ≡ (installed_at id (found (m.get k s)) || (k == revision_key cr && cr.id == id))
  scheduled_lem k id =
      ap (installed_at id) (memory.get_update_with_key k (revision_key cr) (with_revision cr) s)
      ∙ by_key (==_cases k (revision_key cr))
    where
      by_key :
          (((k == revision_key cr) ≡ true) × (k ≡ revision_key cr))
            ⊎ (((k == revision_key cr) ≡ false) × (k ≢ revision_key cr))
          → installed_at id (
              if k == revision_key cr
              then some (with_revision cr (found (m.get (revision_key cr) s)))
              else found (m.get k s))
            ≡ (installed_at id (found (m.get k s)) || (k == revision_key cr && cr.id == id))
      by_key (inl (t, p)) = rw t (
          installed_with cr id (found (m.get (revision_key cr) s))
          ∙ ap (λ j. installed_at id (found (m.get j s)) || cr.id == id) (sym p))
      by_key (inr (t, _)) = rw t (ground arith)

  -- Deleting it takes it from its own package, and its ownership from all.
  pub deleted_lem :
      (k : Key) (id : PackageRevId)
      → (installed_at id (found (m.get k (m.update_with_fn (without_revision cr) s).1))
          ≡ (installed_at id (found (m.get k s)) && not (k == revision_key cr && cr.id == id)))
        × (owned_by id (found (m.get k (m.update_with_fn (without_revision cr) s).1))
            ≡ (owned_by id (found (m.get k s)) && not (cr.id == id)))
  deleted_lem k id = (
    ap (installed_at id) (memory.get_update_with k (without_revision cr) s)
        ∙ installed_without cr k id (found (m.get k s)),
    ap (owned_by id) (memory.get_update_with k (without_revision cr) s)
        ∙ owned_without cr k id (found (m.get k s)),
  )
