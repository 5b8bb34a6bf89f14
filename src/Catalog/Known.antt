-- ===== src/Catalog/Known.antt =====
-- What a dependency record knows of a kind, and how its operations change that:
-- pkg/reconcilers/packagediscovery/catalog/dependency.go.
use pkgserver.Prelude.{
  ◌≡◌, ◌↔◌, ◌∙◌, Bool, true, false, ◌||◌, List, [], ◌∷◌, arith, Str, str_eq, str_beq_iff,
}
use pkgserver.PkgRevId.{Upstream}
use pkgserver.Catalog.{
  Gvk, gvk_eq, Dependency, assign, insert_pkg, insert_gvk, add_gvk_resolution_error,
  add_gvk_resolution_warning, add_pkg_dependency, add_core_dependency,
}

pub gvk_eq_iff : (a b : Gvk) → (gvk_eq a b ≡ true) ↔ (a ≡ b)
unfolding gvk_eq
gvk_eq_iff a b =
    ground (
      arith,
      str_beq_iff a.group b.group,
      str_beq_iff a.version b.version,
      str_beq_iff a.kind b.kind,
    )

-- A kind among the keys of a map.
unfoldable pub has_kind {ℓ} : {A : Type ℓ} → Gvk → List (Gvk × A) → Bool
has_kind k [] = false
has_kind k ((j, _) ∷ m) = gvk_eq j k || has_kind k m

unfoldable pub has_core : Gvk → List Gvk → Bool
has_core k [] = false
has_core k (j ∷ s) = gvk_eq j k || has_core k s

pub has_kind-assign :
    (k j : Gvk) (v : Str) (m : List (Gvk × Str))
    → has_kind j (assign k v m) ≡ (has_kind j m || gvk_eq k j)
unfolding has_kind assign
has_kind-assign k j v [] = ground arith
has_kind-assign k j v ((i, w) ∷ m) =
    ground (arith, has_kind-assign k j v m, gvk_eq_iff i k, gvk_eq_iff i j, gvk_eq_iff k j)

pub has_kind-insert :
    (k j : Gvk) (u : Upstream) (m : List (Gvk × Upstream))
    → has_kind j (insert_pkg k u m) ≡ (has_kind j m || gvk_eq k j)
unfolding has_kind insert_pkg
has_kind-insert k j v [] = ground arith
has_kind-insert k j v ((i, w) ∷ m) =
    ground (arith, has_kind-insert k j v m, gvk_eq_iff i k, gvk_eq_iff i j, gvk_eq_iff k j)

pub has_core-insert :
    (k j : Gvk) (s : List Gvk) → has_core j (insert_gvk k s) ≡ (has_core j s || gvk_eq k j)
unfolding has_core insert_gvk
has_core-insert k j [] = ground arith
has_core-insert k j (i ∷ s) =
    ground (arith, has_core-insert k j s, gvk_eq_iff i k, gvk_eq_iff i j, gvk_eq_iff k j)

-- The kind has a dependency, on a package or on the core.
unfoldable pub knows : Gvk → Dependency → Bool
unfolding has_kind has_core
knows k d = has_kind k d.pkg_dependencies || has_core k d.res_dependencies

-- Nothing known is lost, and no error.
pub record Grows (d d' : Dependency) : Type 0 where
  pub known : (k : Gvk) → knows k d ≡ true → knows k d' ≡ true
  pub errors :
      (k : Gvk) → has_kind k d.resolution_errors ≡ true → has_kind k d'.resolution_errors ≡ true

pub same : (d : Dependency) → Grows d d
same d = record { known = λ k h. h; errors = λ k h. h }

pub then_ : {a b c : Dependency} → Grows a b → Grows b c → Grows a c
then_ f g = record {
  known = λ k h. g.known k (f.known k h);
  errors = λ k h. g.errors k (f.errors k h);
}

pub grow_warning : (k : Gvk) (e : Str) (d : Dependency) → Grows d (add_gvk_resolution_warning k e d)
unfolding add_gvk_resolution_warning knows
grow_warning k e d = record { known = λ j h. h; errors = λ j h. h }

pub grow_error : (k : Gvk) (e : Str) (d : Dependency) → Grows d (add_gvk_resolution_error k e d)
unfolding add_gvk_resolution_error knows
grow_error k e d = record {
  known = λ j h. h;
  errors = λ j h. has_kind-assign k j e d.resolution_errors ∙ ground (arith, h);
}

pub grow_pkg : (k : Gvk) (u : Upstream) (d : Dependency) → Grows d (add_pkg_dependency k u d)
unfolding add_pkg_dependency knows
grow_pkg k u d = record {
  known = λ j h. ground (arith, h, has_kind-insert k j u d.pkg_dependencies);
  errors = λ j h. h;
}

pub knows_pkg :
    (k : Gvk) (u : Upstream) (d : Dependency) → knows k (add_pkg_dependency k u d) ≡ true
unfolding add_pkg_dependency knows
knows_pkg k u d = ground (arith, has_kind-insert k k u d.pkg_dependencies, gvk_eq_iff k k)

pub core_added :
    (k : Gvk) (d : Dependency)
    → Grows d (add_core_dependency k d) × (knows k (add_core_dependency k d) ≡ true)
unfolding add_core_dependency knows
core_added k d = (
  record {
    known = λ j h. ground (arith, h, has_core-insert k j d.res_dependencies);
    errors = λ j h. h;
  },
  ground (arith, has_core-insert k k d.res_dependencies, gvk_eq_iff k k),
)
