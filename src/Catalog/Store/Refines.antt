-- ===== src/Catalog/Store/Refines.antt =====
-- The API store of the catalog as a relation: which package revision stands behind which version of
-- which API. pkg/reconcilers/packagediscovery/catalog/store.go.
use mathlib.Core.Path.{fun_ext, subst}
use pkgserver.Prelude.{
  ◌≡◌, refl, sym, ap, ◌∙◌, Bool, true, false, not, ◌&&◌, ◌||◌, List, [], ◌∷◌, Option, none, some,
  arith, Str, ◌==◌, str_eq, ==_cases, if-cases, ◌⊎◌, inl, inr, ◌≢◌, if◌then◌else◌, Result, ok, err,
}
use pkgserver.PackageRevision.{PackageRevision}
use pkgserver.Catalog.Resolver.{Api}
use pkgserver.Catalog.References.{Reference}
use pkgserver.Catalog.Versions.{delete_from_api, add_to_api, add_core_api}
use pkgserver.Catalog.Versions.Held.{
  held, IsStored, holds-delete, delete-IsValid, held-add, add-IsStored, held-core, core-IsStored,
}
use pkgserver.Catalog.Store.{
  Stores, Catalog, ResourceList, store_key, delete_pkg_rev, publish, publish_all, add_core,
  add_core_all, add_parsed, update_from_resources,
}
use pkgserver.Storer.{Key, key_eq, found, on_found, IsMemory}

-- The abstract store: an API's key, a version and the name of a package revision.
abbrev pub Relation : Type 0
Relation = Key → Str → Str → Bool

-- What happens to the API store.
pub data Step : Type 0 where
  publishes : PackageRevision → List Reference → Step
  deletes : PackageRevision → Step
  reports : List ResourceList → Step

-- A reference of the package revision is to the API and the version.
unfoldable pub brings : PackageRevision → List Reference → Relation
brings cr [] k v n = false
brings cr (r ∷ refs) k v n =
    (k == store_key r.group r.kind && (r.version == v && cr.name == n)) || brings cr refs k v n

unfoldable pub replay_step : Step → Relation → Relation
replay_step (publishes cr refs) f k v n = f k v n || brings cr refs k v n
replay_step (deletes cr) f k v n = f k v n && not (cr.name == n)
replay_step (reports lists) f k v n = f k v n

unfoldable pub replay : List Step → Relation → Relation
replay [] f = f
replay (s ∷ steps) f = replay steps (replay_step s f)

module _ (m : Stores) where
  unfoldable pub run_step : Step → Catalog m → Catalog m
  run_step (publishes cr refs) c = publish_all m cr refs c
  run_step (deletes cr) c = delete_pkg_rev m cr c
  run_step (reports lists) c = update_from_resources m lists c

  unfoldable pub run : List Step → Catalog m → Catalog m
  run [] c = c
  run (s ∷ steps) c = run steps (run_step s c)

  unfoldable pub view : Catalog m → Relation
  view c k v n = held v n (found (m.apis.get k c.apis))

  -- Each API of the store is well formed.
  unfoldable pub IsWellFormed : Catalog m → Type 0
  IsWellFormed c = (k : Key) → IsStored (found (m.apis.get k c.apis))

module _ (m : Stores) (memory : IsMemory m.apis) where
  -- One entry is written: `extra` holds there besides.
  updated_view :
      (k j : Key) (f : Option Api → Api) (apis : m.apis.Store) (v n : Str) (extra : Bool)
      → ((o : Option Api) → held v n (some (f o)) ≡ (held v n o || extra))
      → held v n (found (m.apis.get k (m.apis.update_with_key_fn j f apis).1))
        ≡ (held v n (found (m.apis.get k apis)) || (k == j && extra))
  updated_view k j f apis v n extra h =
      ap (held v n) (memory.get_update_with_key k j f apis) ∙ go (==_cases k j)
    where
      go :
          (((k == j) ≡ true) × (k ≡ j)) ⊎ (((k == j) ≡ false) × (k ≢ j))
          → held v n
              (if k == j then some (f (found (m.apis.get j apis))) else found (m.apis.get k apis))
            ≡ (held v n (found (m.apis.get k apis)) || (k == j && extra))
      go (inl (t, p)) = rw t (
          h (found (m.apis.get j apis))
          ∙ ap (λ i. held v n (found (m.apis.get i apis)) || extra) (sym p))
      go (inr (t, _)) = rw t (ground arith)

  updated-IsStored :
      (k j : Key) (f : Option Api → Api) (apis : m.apis.Store)
      → ((o : Option Api) → IsStored o → IsStored (some (f o)))
      → ((i : Key) → IsStored (found (m.apis.get i apis)))
      → IsStored (found (m.apis.get k (m.apis.update_with_key_fn j f apis).1))
  updated-IsStored k j f apis h i =
      subst IsStored (sym (memory.get_update_with_key k j f apis))
        (if-cases IsStored (k == j) (h _ (i j)) (i k))

  view-publish :
      (cr : PackageRevision) (r : Reference) (c : Catalog m) (k : Key) (v n : Str)
      → view m (publish m cr r c) k v n
        ≡ (view m c k v n || (k == store_key r.group r.kind && (r.version == v && cr.name == n)))
  unfolding view publish
  view-publish cr r c k v n =
      updated_view k (store_key r.group r.kind) (add_to_api r cr.name cr.id) c.apis v n
        (r.version == v && cr.name == n) (held-add r cr.name cr.id v n)

  publish-IsWellFormed :
      (cr : PackageRevision) (r : Reference) (c : Catalog m)
      → IsWellFormed m c
      → IsWellFormed m (publish m cr r c)
  unfolding IsWellFormed publish
  publish-IsWellFormed cr r c i k =
      updated-IsStored k (store_key r.group r.kind) (add_to_api r cr.name cr.id) c.apis
        (add-IsStored r cr.name cr.id) i

  pub view-publish_all :
      (cr : PackageRevision) (refs : List Reference) (c : Catalog m) (k : Key) (v n : Str)
      → view m (publish_all m cr refs c) k v n ≡ (view m c k v n || brings cr refs k v n)
  unfolding publish_all brings
  view-publish_all cr [] c k v n = ground arith
  view-publish_all cr (r ∷ refs) c k v n =
      view-publish_all cr refs (publish m cr r c) k v n
      ∙ ap (λ b. b || brings cr refs k v n) (view-publish cr r c k v n)
      ∙ ground arith

  publish_all-IsWellFormed :
      (cr : PackageRevision) (refs : List Reference) (c : Catalog m)
      → IsWellFormed m c
      → IsWellFormed m (publish_all m cr refs c)
  unfolding publish_all
  publish_all-IsWellFormed cr [] c i = i
  publish_all-IsWellFormed cr (r ∷ refs) c i =
      publish_all-IsWellFormed cr refs (publish m cr r c) (publish-IsWellFormed cr r c i)

  deleted :
      (name v n : Str) (o : Option Api)
      → IsStored o
      → held v n (on_found (delete_from_api name) o) ≡ (held v n o && not (name == n))
  unfolding held IsStored
  deleted name v n none i = refl
  deleted name v n (some api) i = holds-delete name v n api i

  deleted-IsStored :
      (name : Str) (o : Option Api) → IsStored o → IsStored (on_found (delete_from_api name) o)
  unfolding IsStored
  deleted-IsStored name none i = i
  deleted-IsStored name (some api) i = delete-IsValid name api i

  pub view-delete :
      (cr : PackageRevision) (c : Catalog m) (k : Key) (v n : Str)
      → IsWellFormed m c
      → view m (delete_pkg_rev m cr c) k v n ≡ (view m c k v n && not (cr.name == n))
  unfolding view delete_pkg_rev IsWellFormed
  view-delete cr c k v n i =
      ap (held v n) (memory.get_update_with k (λ _ api. delete_from_api cr.name api) c.apis)
      ∙ deleted cr.name v n (found (m.apis.get k c.apis)) (i k)

  delete_pkg_rev-IsWellFormed :
      (cr : PackageRevision) (c : Catalog m)
      → IsWellFormed m c
      → IsWellFormed m (delete_pkg_rev m cr c)
  unfolding delete_pkg_rev IsWellFormed
  delete_pkg_rev-IsWellFormed cr c i k =
      subst IsStored (sym (memory.get_update_with k (λ _ api. delete_from_api cr.name api) c.apis))
        (deleted-IsStored cr.name (found (m.apis.get k c.apis)) (i k))

  -- What the reports keep: the view, and that the store is well formed.
  record IsKept (c c' : Catalog m) : Type 0 where
    same_view : (k : Key) (v n : Str) → view m c' k v n ≡ view m c k v n
    well_formed : IsWellFormed m c → IsWellFormed m c'

  chain : {a b c : Catalog m} → IsKept a b → IsKept b c → IsKept a c
  chain f g = record {
    same_view = λ k v n. g.same_view k v n ∙ f.same_view k v n;
    well_formed = λ i. g.well_formed (f.well_formed i);
  }

  nothing : (c : Catalog m) → IsKept c c
  nothing c = record { same_view = λ k v n. refl; well_formed = λ i. i }

  core-IsKept :
      (group version : Str) (r : Str × Str) (c : Catalog m)
      → IsKept c (add_core m group version r c)
  unfolding view add_core IsWellFormed
  core-IsKept group version (kind, name) c = record {
    same_view = λ k v n.
        updated_view k (store_key group kind) (add_core_api version kind name) c.apis v n false
          (λ o. held-core version kind name v n o ∙ ground arith)
        ∙ ground arith;
    well_formed = λ i k.
        updated-IsStored k (store_key group kind) (add_core_api version kind name) c.apis
          (core-IsStored version kind name) i;
  }

  core_all-IsKept :
      (group version : Str) (rs : List (Str × Str)) (c : Catalog m)
      → IsKept c (add_core_all m group version rs c)
  unfolding add_core_all
  core_all-IsKept group version [] c = nothing c
  core_all-IsKept group version (r ∷ rs) c =
      chain (core-IsKept group version r c) (core_all-IsKept group version rs _)

  parsed-IsKept :
      (gv : Result (Str × Str)) (rs : List (Str × Str)) (c : Catalog m)
      → IsKept c (add_parsed m gv rs c)
  unfolding add_parsed
  parsed-IsKept (err e) rs c = nothing c
  parsed-IsKept (ok (group, version)) rs c = core_all-IsKept group version rs c

  lists-IsKept : (ls : List ResourceList) (c : Catalog m) → IsKept c (update_from_resources m ls c)
  unfolding update_from_resources
  lists-IsKept [] c = nothing c
  lists-IsKept (l ∷ ls) c = chain (parsed-IsKept l.group_version l.resources c) (lists-IsKept ls _)

  view-run_step :
      (s : Step) (c : Catalog m)
      → IsWellFormed m c
      → view m (run_step m s c) ≡ replay_step s (view m c)
  unfolding run_step replay_step
  view-run_step (publishes cr refs) c i =
      fun_ext λ k. fun_ext λ v. fun_ext λ n. view-publish_all cr refs c k v n
  view-run_step (deletes cr) c i = fun_ext λ k. fun_ext λ v. fun_ext λ n. view-delete cr c k v n i
  view-run_step (reports ls) c i =
      fun_ext λ k. fun_ext λ v. fun_ext λ n. (lists-IsKept ls c).same_view k v n

  run_step-IsWellFormed :
      (s : Step) (c : Catalog m) → IsWellFormed m c → IsWellFormed m (run_step m s c)
  unfolding run_step
  run_step-IsWellFormed (publishes cr refs) c i = publish_all-IsWellFormed cr refs c i
  run_step-IsWellFormed (deletes cr) c i = delete_pkg_rev-IsWellFormed cr c i
  run_step-IsWellFormed (reports ls) c i = (lists-IsKept ls c).well_formed i

  -- Over a memory store whose APIs are well formed, any sequence of publications, deletions and reports
  -- leaves them well formed, and the store then says of each API, version and package revision what the
  -- replay of the sequence on the relation says.
  pub run_refines :
      (steps : List Step) (c : Catalog m)
      → IsWellFormed m c
      → IsWellFormed m (run m steps c) × (view m (run m steps c) ≡ replay steps (view m c))
  unfolding run replay
  run_refines [] c i = (i, refl)
  run_refines (s ∷ steps) c i =
      rw (sym (view-run_step s c i))
        (run_refines steps (run_step m s c) (run_step-IsWellFormed s c i))
