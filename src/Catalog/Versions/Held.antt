-- ===== src/Catalog/Versions/Held.antt =====
-- Which package revisions an API of the catalog holds for a version, and how the operations of
-- pkg/reconcilers/packagediscovery/catalog/store.go change that.
use pkgserver.Prelude.{
  ◌≡◌, refl, sym, ap, ◌∙◌, Bool, false, not, ◌&&◌, ◌||◌, List, [], ◌∷◌, ◌++◌, Option, none, some,
  arith, Str, ◌==◌, str_eq, str_beq_iff, if◌then◌else◌,
}
use mathlib.Core.Path.{subst}
use pkgserver.PkgRevId.{PackageRevId}
use pkgserver.Catalog.Resolver.{Api, ApiType, core_api, package_api, has_version}
use pkgserver.Catalog.References.{Reference}
use pkgserver.Catalog.Versions.{
  has_name, names_at, set_names, delete_name, delete_from_versions, delete_from_api, add_name,
  add_to_api, add_core_api, unless_empty, delete_from_type,
}
use pkgserver.Catalog.Versions.Removal.{without, IsUnique, has_name-append, delete_name_lem}

-- Each version stands once, with distinct names.
unfoldable pub IsMap : List (Str × List Str) → Type 0
IsMap [] = Unit
IsMap ((v, names) ∷ m) = (has_version v m ≡ false) × (IsUnique names × IsMap m)

-- No version has a name.
unfoldable pub IsNameless : List (Str × List Str) → Type 0
IsNameless [] = Unit
IsNameless ((v, names) ∷ m) = (names ≡ []) × IsNameless m

-- A core API is backed by no package.
unfoldable pub IsTyped : ApiType → List (Str × List Str) → Type 0
IsTyped core_api m = IsNameless m
IsTyped package_api m = Unit

pub record IsValid (api : Api) : Type 0 where
  pub map_ : IsMap api.versions
  pub typed : IsTyped api.type api.versions

no_name : (name : Str) → has_name name [] ≡ false
unfolding has_name
no_name name = refl

has_name-without :
    (name other : Str) (ns : List Str)
    → has_name other (without name ns) ≡ (has_name other ns && not (name == other))
unfolding has_name without
has_name-without name other [] = refl
has_name-without name other (n ∷ ns) = ground (
  arith,
  has_name-without name other ns,
  str_beq_iff n name,
  str_beq_iff n other,
  str_beq_iff name other,
)

without-IsUnique : (name : Str) (ns : List Str) → IsUnique ns → IsUnique (without name ns)
unfolding without IsUnique
without-IsUnique name [] u = tt
without-IsUnique name (n ∷ ns) u =
    ground (arith, without-IsUnique name ns u.1, has_name-without name n ns, u)

append-IsUnique :
    (name : Str) (ns : List Str)
    → IsUnique ns
    → has_name name ns ≡ false
    → IsUnique (ns ++ (name ∷ []))
unfolding IsUnique has_name
append-IsUnique name [] u h = (refl, tt)
append-IsUnique name (n ∷ ns) u h = ground (
  arith,
  append-IsUnique name ns u.1,
  has_name-append n ns (name ∷ []),
  str_beq_iff n name,
  str_beq_iff name n,
  u,
  h,
)

-- The names of a version after one entry was set.
names_at-set :
    (v w : Str) (names : List Str) (m : List (Str × List Str))
    → names_at w (set_names v names m) ≡ (if v == w then names else names_at w m)
unfolding names_at set_names
names_at-set v w names [] = ground arith
names_at-set v w names ((u, old) ∷ m) =
    ground (arith, names_at-set v w names m, str_beq_iff u v, str_beq_iff u w, str_beq_iff v w)

has_version-set :
    (v w : Str) (names : List Str) (m : List (Str × List Str))
    → has_version w (set_names v names m) ≡ (has_version w m || (v == w))
unfolding has_version set_names
has_version-set v w names [] = ground arith
has_version-set v w names ((u, old) ∷ m) =
    ground (arith, has_version-set v w names m, str_beq_iff u v, str_beq_iff u w, str_beq_iff v w)

set_names-IsMap :
    (v : Str) (names : List Str) (m : List (Str × List Str))
    → IsUnique names
    → IsMap m
    → IsMap (set_names v names m)
unfolding set_names IsMap has_version
set_names-IsMap v names [] u h = (refl, (u, tt))
set_names-IsMap v names ((w, old) ∷ m) u h = ground (
  arith,
  set_names-IsMap v names m u h.1.1,
  has_version-set v w names m,
  str_beq_iff w v,
  str_beq_iff v w,
  u,
  h,
)

names_at-IsUnique : (v : Str) (m : List (Str × List Str)) → IsMap m → IsUnique (names_at v m)
unfolding names_at IsMap IsUnique
names_at-IsUnique v [] h = tt
names_at-IsUnique v ((w, names) ∷ m) h = ground (arith, names_at-IsUnique v m h.1.1, h)

-- A version without an entry has no names.
names_at_missing :
    (v : Str) (m : List (Str × List Str)) → has_version v m ≡ false → names_at v m ≡ []
unfolding names_at has_version
names_at_missing v [] h = refl
names_at_missing v ((w, names) ∷ m) h = ground (arith, names_at_missing v m, h)

has_version-unless :
    (v w : Str) (names : List Str) (m : List (Str × List Str))
    → has_version v ((w, names) ∷ m) ≡ false
    → has_version v (unless_empty w names m) ≡ false
unfolding has_version unless_empty
has_version-unless v w [] m h = ground (arith, h)
has_version-unless v w (n ∷ ns) m h = h

has_version-delete :
    (name v : Str) (m : List (Str × List Str))
    → has_version v m ≡ false
    → has_version v (delete_from_versions name m) ≡ false
unfolding delete_from_versions has_version
has_version-delete name v [] h = refl
has_version-delete name v ((w, names) ∷ m) h =
    has_version-unless v w (delete_name name names) (delete_from_versions name m)
      (ground (arith, h, has_version-delete name v m))

names_at-unless :
    (v w : Str) (names : List Str) (m : List (Str × List Str))
    → has_version w m ≡ false
    → names_at v (unless_empty w names m) ≡ (if w == v then names else names_at v m)
unfolding names_at unless_empty
names_at-unless v w [] m h = ground (arith, str_beq_iff w v, names_at_missing w m h)
names_at-unless v w (n ∷ ns) m h = refl

-- The names of a version after a package revision was deleted.
names_at-delete :
    (name v : Str) (m : List (Str × List Str))
    → IsMap m
    → names_at v (delete_from_versions name m) ≡ without name (names_at v m)
unfolding names_at delete_from_versions IsMap without
names_at-delete name v [] h = refl
names_at-delete name v ((w, names) ∷ m) h =
    names_at-unless v w (delete_name name names) (delete_from_versions name m)
      (has_version-delete name w m h.0)
    ∙ ground (arith, names_at-delete name v m h.1.1, delete_name_lem name names h.1.0)

unless-IsMap :
    (v : Str) (names : List Str) (m : List (Str × List Str))
    → has_version v m ≡ false
    → IsUnique names
    → IsMap m
    → IsMap (unless_empty v names m)
unfolding unless_empty IsMap
unless-IsMap v [] m h u i = i
unless-IsMap v (n ∷ ns) m h u i = (h, (u, i))

delete-IsMap :
    (name : Str) (m : List (Str × List Str)) → IsMap m → IsMap (delete_from_versions name m)
unfolding delete_from_versions IsMap
delete-IsMap name [] h = tt
delete-IsMap name ((v, names) ∷ m) h =
    unless-IsMap v (delete_name name names) (delete_from_versions name m)
      (has_version-delete name v m h.0)
      (rw (delete_name_lem name names h.1.0) (without-IsUnique name names h.1.0))
      (delete-IsMap name m h.1.1)

names_at_nameless : (v : Str) (m : List (Str × List Str)) → IsNameless m → names_at v m ≡ []
unfolding names_at IsNameless
names_at_nameless v [] h = refl
names_at_nameless v ((w, names) ∷ m) h = ground (arith, names_at_nameless v m h.1, h.0)

-- The package revision stands behind the version of the API.
unfoldable pub holds : Str → Str → Api → Bool
holds v name api = has_name name (names_at v api.versions)

-- A deletion takes the package revision from every version, and no other.
pub holds-delete :
    (name v other : Str) (api : Api)
    → IsValid api
    → holds v other (delete_from_api name api) ≡ (holds v other api && not (name == other))
unfolding holds delete_from_api IsNameless IsTyped
holds-delete name v other api i = of_type api.type i.typed
  where
    of_type :
        (t : ApiType)
        → IsTyped t api.versions
        → has_name other (names_at v (delete_from_type t name api).versions)
          ≡ (has_name other (names_at v api.versions) && not (name == other))
    of_type core_api h = ground (arith, names_at_nameless v api.versions h, no_name other)
    of_type package_api h =
        ap (has_name other) (names_at-delete name v api.versions i.map_)
        ∙ has_name-without name other (names_at v api.versions)

pub delete-IsValid : (name : Str) (api : Api) → IsValid api → IsValid (delete_from_api name api)
unfolding delete_from_api IsTyped
delete-IsValid name api i = of_type api.type refl
  where
    of_type : (t : ApiType) → api.type ≡ t → IsValid (delete_from_type t name api)
    of_type core_api e = i
    of_type package_api e = record {
      map_ = delete-IsMap name api.versions i.map_;
      typed = subst (λ t. IsTyped t (delete_from_versions name api.versions)) (sym e) tt;
    }

add_name-IsMap : (v name : Str) (m : List (Str × List Str)) → IsMap m → IsMap (add_name v name m)
unfolding add_name
add_name-IsMap v name m h = ground (
  arith,
  set_names-IsMap v (names_at v m ++ (name ∷ [])) m,
  append-IsUnique name (names_at v m) (names_at-IsUnique v m h),
)

names_at-add :
    (v name w other : Str) (m : List (Str × List Str))
    → has_name other (names_at w (add_name v name m))
      ≡ (has_name other (names_at w m) || ((v == w) && (name == other)))
unfolding add_name has_name
names_at-add v name w other m = ground (
  arith,
  names_at-set v w (names_at v m ++ (name ∷ [])) m,
  has_name-append other (names_at v m) (name ∷ []),
  str_beq_iff v w,
  str_beq_iff name other,
)

-- The package revision stands behind the version of what the store has.
unfoldable pub held : Str → Str → Option Api → Bool
held v name none = false
held v name (some api) = holds v name api

unfoldable pub IsStored : Option Api → Type 0
IsStored none = Unit
IsStored (some api) = IsValid api

-- A publication puts the package revision behind the reference's version, and changes no other.
pub held-add :
    (r : Reference) (name : Str) (id : PackageRevId) (w other : Str) (o : Option Api)
    → held w other (some (add_to_api r name id o))
      ≡ (held w other o || (r.version == w && name == other))
unfolding held holds add_to_api names_at has_name
held-add r name id w other none = ground (arith, str_beq_iff r.version w, str_beq_iff name other)
held-add r name id w other (some api) = names_at-add r.version name w other api.versions

pub add-IsStored :
    (r : Reference) (name : Str) (id : PackageRevId) (o : Option Api)
    → IsStored o
    → IsStored (some (add_to_api r name id o))
unfolding IsStored add_to_api has_version IsUnique IsMap IsTyped has_name
add-IsStored r name id none i = record { map_ = (refl, ((refl, tt), tt)); typed = tt }
add-IsStored r name id (some api) i = record {
  map_ = add_name-IsMap r.version name api.versions i.map_;
  typed = tt;
}

-- What the API server reports adds no package revision.
pub held-core :
    (version kind resource w other : Str) (o : Option Api)
    → held w other (some (add_core_api version kind resource o)) ≡ held w other o
unfolding held holds add_core_api names_at has_name
held-core version kind resource w other none = ground arith
held-core version kind resource w other (some api) = refl

pub core-IsStored :
    (version kind resource : Str) (o : Option Api)
    → IsStored o
    → IsStored (some (add_core_api version kind resource o))
unfolding IsStored add_core_api has_version IsUnique IsMap IsTyped IsNameless has_name
core-IsStored version kind resource none i = record { map_ = (refl, (tt, tt)); typed = (refl, tt) }
core-IsStored version kind resource (some api) i = i
