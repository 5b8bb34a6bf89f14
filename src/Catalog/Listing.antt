-- ===== src/Catalog/Listing.antt =====
-- The upstream packages of a dependency record, listed: ListPkgDependencies of
-- pkg/reconcilers/packagediscovery/catalog/dependency.go. The order in which a set gives its members
-- is a parameter.
use pkgserver.Prelude.{
  ◌≡◌, refl, ap, ◌∙◌, Bool, true, false, ◌&&◌, ◌||◌, List, [], ◌∷◌, Str, str_beq_iff, arith, ltb,
  ◌==◌, nat_eq, if◌then◌else◌, ◌↔◌,
}
use pkgserver.PkgRevId.{Upstream, upstream_pkg_string}
use pkgserver.Catalog.{Gvk, Dependency, upstream_eq}

-- Go's `<` on strings, byte by byte.
unfoldable pub str_ltb : Str → Str → Bool
str_ltb s [] = false
str_ltb [] (b ∷ t) = true
str_ltb (a ∷ s) (b ∷ t) = ltb a b || (a == b && str_ltb s t)

-- The set's `Insert`.
unfoldable pub insert_upstream : Upstream → List Upstream → List Upstream
unfolding upstream_eq
insert_upstream u [] = u ∷ []
insert_upstream u (w ∷ set) =
    let rest = insert_upstream u set in if upstream_eq w u then w ∷ set else w ∷ rest

-- The two loops that fill the set.
unfoldable pub gather_upstreams : List (Gvk × Upstream) → List Upstream → List Upstream
unfolding insert_upstream
gather_upstreams [] set = set
gather_upstreams ((k, u) ∷ deps) set = gather_upstreams deps (insert_upstream u set)

-- A stable sort by the package's name: an element goes before the first one that is not smaller.
insert_sorted : Upstream → List Upstream → List Upstream
unfolding str_ltb
insert_sorted u [] = u ∷ []
insert_sorted u (w ∷ us) =
    let rest = insert_sorted u us in
    if str_ltb (upstream_pkg_string w) (upstream_pkg_string u) then w ∷ rest else u ∷ w ∷ us

unfoldable pub sort_upstreams : List Upstream → List Upstream
unfolding insert_sorted
sort_upstreams [] = []
sort_upstreams (u ∷ us) = insert_sorted u (sort_upstreams us)

unfoldable pub list_pkg_dependencies : (List Upstream → List Upstream) → Dependency → List Upstream
unfolding gather_upstreams
list_pkg_dependencies order d = sort_upstreams (order (gather_upstreams d.pkg_dependencies []))

unfoldable pub has_upstream : Upstream → List Upstream → Bool
has_upstream u [] = false
has_upstream u (w ∷ us) = upstream_eq w u || has_upstream u us

-- Some kind depends on the upstream.
unfoldable pub depends_on : Upstream → List (Gvk × Upstream) → Bool
depends_on u [] = false
depends_on u ((k, w) ∷ deps) = upstream_eq w u || depends_on u deps

pub upstream_eq_iff : (a b : Upstream) → (upstream_eq a b ≡ true) ↔ (a ≡ b)
unfolding upstream_eq
upstream_eq_iff a b = ground (
  arith,
  str_beq_iff a.repository b.repository,
  str_beq_iff a.realm b.realm,
  str_beq_iff a.pkg b.pkg,
  str_beq_iff a.revision b.revision,
)

has_upstream-insert :
    (u w : Upstream) (us : List Upstream)
    → has_upstream w (insert_upstream u us) ≡ (has_upstream w us || upstream_eq u w)
unfolding has_upstream insert_upstream
has_upstream-insert u w [] = ground arith
has_upstream-insert u w (x ∷ us) = ground (
  arith,
  has_upstream-insert u w us,
  upstream_eq_iff x u,
  upstream_eq_iff x w,
  upstream_eq_iff u w,
)

has_upstream-gather :
    (w : Upstream) (deps : List (Gvk × Upstream)) (us : List Upstream)
    → has_upstream w (gather_upstreams deps us) ≡ (has_upstream w us || depends_on w deps)
unfolding gather_upstreams depends_on
has_upstream-gather w [] us = ground arith
has_upstream-gather w ((k, u) ∷ deps) us =
    ground (arith, has_upstream-gather w deps (insert_upstream u us), has_upstream-insert u w us)

has_upstream-insert_sorted :
    (u w : Upstream) (us : List Upstream)
    → has_upstream w (insert_sorted u us) ≡ (upstream_eq u w || has_upstream w us)
unfolding has_upstream insert_sorted
has_upstream-insert_sorted u w [] = refl
has_upstream-insert_sorted u w (x ∷ us) = ground (arith, has_upstream-insert_sorted u w us)

has_upstream-sort :
    (w : Upstream) (us : List Upstream) → has_upstream w (sort_upstreams us) ≡ has_upstream w us
unfolding has_upstream sort_upstreams
has_upstream-sort w [] = refl
has_upstream-sort w (u ∷ us) =
    has_upstream-insert_sorted u w (sort_upstreams us)
    ∙ ap (λ b. upstream_eq u w || b) (has_upstream-sort w us)

-- No element is smaller than the one before it.
unfoldable pub IsOrdered : List Upstream → Type 0
IsOrdered [] = Unit
IsOrdered (u ∷ []) = Unit
IsOrdered (u ∷ w ∷ us) =
    (str_ltb (upstream_pkg_string w) (upstream_pkg_string u) ≡ false) × IsOrdered (w ∷ us)

str_ltb_asym : (s t : Str) → str_ltb s t ≡ true → str_ltb t s ≡ false
unfolding str_ltb
str_ltb_asym s [] h = cc
str_ltb_asym [] (b ∷ t) h = refl
str_ltb_asym (a ∷ s) (b ∷ t) h = ground (arith, str_ltb_asym s t, h)

insert_sorted-IsOrdered :
    (u : Upstream) (us : List Upstream) → IsOrdered us → IsOrdered (insert_sorted u us)
unfolding insert_sorted IsOrdered
insert_sorted-IsOrdered u [] o = tt
insert_sorted-IsOrdered u (w ∷ []) o =
    ground (arith, str_ltb_asym (upstream_pkg_string w) (upstream_pkg_string u))
insert_sorted-IsOrdered u (w ∷ x ∷ us) o = ground (
  arith,
  str_ltb_asym (upstream_pkg_string w) (upstream_pkg_string u),
  insert_sorted-IsOrdered u (x ∷ us) o.1,
  o,
)

sort-IsOrdered : (us : List Upstream) → IsOrdered (sort_upstreams us)
unfolding sort_upstreams IsOrdered
sort-IsOrdered [] = tt
sort-IsOrdered (u ∷ us) = insert_sorted-IsOrdered u (sort_upstreams us) (sort-IsOrdered us)

-- In whatever order the set gives its members, the listing is ordered by the packages' names, and an
-- upstream is in it exactly where some kind depends on it.
pub list_pkg_dependencies_lem :
    (order : List Upstream → List Upstream)
    → ((u : Upstream) (us : List Upstream) → has_upstream u (order us) ≡ has_upstream u us)
    → (d : Dependency)
    → IsOrdered (list_pkg_dependencies order d)
      × ((u : Upstream)
          → has_upstream u (list_pkg_dependencies order d) ≡ depends_on u d.pkg_dependencies)
unfolding list_pkg_dependencies has_upstream
list_pkg_dependencies_lem order same d = (
  sort-IsOrdered (order (gather_upstreams d.pkg_dependencies [])),
  λ u.
      has_upstream-sort u (order (gather_upstreams d.pkg_dependencies []))
      ∙ same u (gather_upstreams d.pkg_dependencies [])
      ∙ has_upstream-gather u d.pkg_dependencies [],
)
