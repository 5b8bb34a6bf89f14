-- ===== src/Catalog/Versions.antt =====
-- An API of the catalog and the package revisions behind its versions: the functions that
-- pkg/reconcilers/packagediscovery/catalog/store.go gives to the API store.
pub mod Removal
pub mod Held
use pkgserver.Prelude.{
  ℕ, zero, suc, ◌+◌, ◌-◌, Bool, true, false, ◌&&◌, ◌||◌, List, [], ◌∷◌, ◌++◌, Option, none, some,
  Str, ◌==◌, str_eq, if◌then◌else◌, get_or, take, drop, length, Result, ok, err,
}
use pkgserver.PkgRevId.{PackageRevId, empty_id}
use pkgserver.Catalog.Resolver.{Api, ApiType, core_api, package_api}
use pkgserver.Catalog.References.{Reference}

-- `name` is among the names: the loop that sets `found`.
unfoldable pub has_name : Str → List Str → Bool
has_name name [] = false
has_name name (n ∷ ns) = n == name || has_name name ns

-- The names of a version; the map gives `nil` where it has no entry.
unfoldable pub names_at : Str → List (Str × List Str) → List Str
names_at v [] = []
names_at v ((w, names) ∷ m) = let rest = names_at v m in if w == v then names else rest

-- `api.Versions[v] = names`.
unfoldable pub set_names : Str → List Str → List (Str × List Str) → List (Str × List Str)
set_names v names [] = (v, names) ∷ []
set_names v names ((w, old) ∷ m) =
    let rest = set_names v names m in if w == v then (v, names) ∷ m else (w, old) ∷ rest

-- `append(names[:i], names[i+1:]...)`.
unfoldable pub cut : ℕ → List Str → List Str
cut i names = take i names ++ drop (i + 1) names

-- The inner loop of `DeletePkgRev` ranges over the slice that it shortens. Its state: `array`, the
-- slice's elements, of which the ones after the index are moved by one, and `kept`, what the map has.
unfoldable pub sweep_turn : Str → ℕ → List Str → List Str → List Str × List Str
unfolding cut
sweep_turn name i array kept =
    if get_or array i [] == name
    then (cut i array ++ drop (length array - 1) array, cut i array)
    else (array, kept)

unfoldable pub sweep : Str → (rounds i : ℕ) → List Str × List Str → List Str
unfolding sweep_turn
sweep name zero i (array, kept) = kept
sweep name (suc n) i (array, kept) = sweep name n (i + 1) (sweep_turn name i array kept)

unfoldable pub delete_name : Str → List Str → List Str
unfolding sweep
delete_name name names = sweep name (length names) 0 (names, names)

-- A version without names is deleted.
unless_empty : Str → List Str → List (Str × List Str) → List (Str × List Str)
unless_empty v [] m = m
unless_empty v (n ∷ ns) m = (v, n ∷ ns) ∷ m

-- The outer loop.
unfoldable pub delete_from_versions : Str → List (Str × List Str) → List (Str × List Str)
unfolding unless_empty
delete_from_versions name [] = []
delete_from_versions name ((v, names) ∷ m) =
    unless_empty v (delete_name name names) (delete_from_versions name m)

delete_from_type : ApiType → Str → Api → Api
unfolding delete_from_versions
delete_from_type core_api name api = api
delete_from_type package_api name api = record api {
  versions = delete_from_versions name api.versions;
}

-- What `DeletePkgRev` does to an API of the store.
unfoldable pub delete_from_api : Str → Api → Api
unfolding delete_from_type
delete_from_api name api = delete_from_type api.type name api

unfoldable pub add_name : Str → Str → List (Str × List Str) → List (Str × List Str)
unfolding has_name names_at set_names
add_name v name m =
    let names = names_at v m in
    if has_name name names then m else set_names v (names ++ (name ∷ [])) m

-- What `UpdatePkgRevAPI` does to an API of the store.
unfoldable pub add_to_api : Reference → Str → PackageRevId → Option Api → Api
unfolding add_name
add_to_api r name id none = record {
  type = package_api;
  kind = r.kind;
  resource = r.resource;
  id = id;
  versions = (r.version, name ∷ []) ∷ [];
}
add_to_api r name id (some api) = record api {
  type = package_api;
  id = id;
  versions = add_name r.version name api.versions;
}

-- What `UpdateAPIfromAPIResources` does: an entry that is there stays as it is.
unfoldable pub add_core_api : Str → Str → Str → Option Api → Api
add_core_api version kind resource none = record {
  type = core_api;
  kind = kind;
  resource = resource;
  id = empty_id;
  versions = (version, []) ∷ [];
}
add_core_api version kind resource (some api) = api
