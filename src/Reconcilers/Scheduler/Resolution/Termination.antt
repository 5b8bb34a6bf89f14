-- ===== src/Reconcilers/Scheduler/Resolution/Termination.antt =====
-- When the recursion over the dependencies ends: isPkgRevRecursivelyresolved of
-- pkg/reconcilers/packagescheduler/reconcilers.go.
use mathlib.Core.Path.{subst}
use pkgserver.Prelude.{
  ℕ, zero, suc, ◌+◌, ◌<◌, ◌≡◌, refl, sym, Bool, true, false, List, [], ◌∷◌, Option, none, some, Str,
  Result, ok, err, All, arith,
}
use pkgserver.PkgRevId.{Upstream, pkg_string, upstream_pkg_string}
use pkgserver.PackageRevision.{PackageRevision}
use pkgserver.PackageVariant.{
  PackageVariant, build_variant, build_revision, built, build_package_revision,
}
use pkgserver.Reconcilers.Scheduler.Lookup.{Availability, missing, waiting, present, get_pkg_state}
use pkgserver.Reconcilers.Scheduler.Resolution.{
  Dag, World, State, Ending, resolved, failed, panicked, endless, with_graph, link, and_then,
  descend, choose, latest_in, on_state, on_listing, visit, visit_all, on_dependencies, is_resolved,
  put_vertex,
}

-- The answer of the catalog has only dependencies of a smaller rank.
unfoldable pub IsBelow : (Str → ℕ) → Upstream → Result (Bool × List Upstream) → Type 0
IsBelow rank u (err e) = Unit
IsBelow rank u (ok (_, us)) =
    All (λ d. rank (upstream_pkg_string d) < rank (upstream_pkg_string u)) us

-- The package revision has the upstream's package as its own upstream.
record IsFrom (u : Upstream) (r : PackageRevision) : Type 0 where
  source : Upstream
  has : r.upstream ≡ some source
  same : upstream_pkg_string source ≡ upstream_pkg_string u

-- No package depends on itself, directly or not: a rank of the packages falls along each dependency
-- that the catalog gives.
unfoldable pub IsAcyclic : World → (Str → ℕ) → Type 0
IsAcyclic w rank =
    (cr : PackageRevision) (u : Upstream)
    → cr.upstream ≡ some u
    → IsBelow rank u (w.dependencies cr)

pkg_string_only :
    (revision : Str) (u : Upstream)
    → upstream_pkg_string (record u { revision = revision }) ≡ upstream_pkg_string u
unfolding upstream_pkg_string
pkg_string_only revision u = refl

module _ (dag : Dag) where
  -- The recursion ended.
  pub IsOver : Ending dag → Type 0
  IsOver endless = ⊥
  IsOver _ = Unit

  and_then-IsOver :
      (e : Ending dag) (next : State dag → Ending dag)
      → IsOver e
      → ((s : State dag) → IsOver (next s))
      → IsOver (and_then dag e next)
  unfolding and_then IsOver
  and_then-IsOver (resolved true s) next h k = k s
  and_then-IsOver (resolved false s) next h k = tt
  and_then-IsOver (failed e) next h k = tt
  and_then-IsOver (panicked e) next h k = tt
  and_then-IsOver endless next h k = h

  link-IsOver :
      (cr : PackageRevision) (name : Str) (v : Option PackageVariant) (s : State dag)
      (next : State dag → Ending dag)
      → ((t : State dag) → IsOver (next t))
      → IsOver (link dag cr name v s next)
  unfolding link with_graph IsOver
  link-IsOver cr name v s next h = with_answer (put_vertex dag name v s.graph)
    where
      with_answer : (g : Result dag.Graph) → IsOver (with_graph dag cr name s.listings g next)
      with_answer (err e) = tt
      with_answer (ok g) =
          h (record { listings = s.listings; graph = dag.connect (pkg_string cr.id) name g })

  module _ (w : World) (rank : Str → ℕ) (acyclic : IsAcyclic w rank) where
    module _ (again : PackageRevision → State dag → Ending dag) (u : Upstream)
        (ends : (r : PackageRevision) (s : State dag) → IsFrom u r → IsOver (again r s)) where
      descend-IsOver :
          (cr : PackageRevision) (v : PackageVariant) (s : State dag)
          → upstream_pkg_string v.upstream ≡ upstream_pkg_string u
          → IsOver (descend dag w again cr v s (build_package_revision w.digest v))
      unfolding descend build_package_revision build_revision IsOver
      descend-IsOver cr v s h = by_hash (w.digest v)
        where
          by_hash :
              (hash : Result (List ℕ)) → IsOver (descend dag w again cr v s (built w.digest hash v))
          by_hash (err e) = tt
          by_hash (ok hash) =
              link-IsOver cr (pkg_string (build_revision [] v hash).id) (some v) s
                (again (build_revision [] v hash))
                (λ t.
                  ends (build_revision [] v hash) t
                    (record { source = v.upstream; has = refl; same = h }))

      choose-IsOver :
          (cr : PackageRevision) (s : State dag) (latest : Result PackageRevision)
          → IsOver (choose dag w again cr u s latest)
      unfolding choose IsOver
      choose-IsOver cr s (err e) = tt
      choose-IsOver cr s (ok latest) = descend-IsOver cr _ s upstream_same
        where
          upstream_same :
              upstream_pkg_string (record u { revision = latest.id.revision })
              ≡ upstream_pkg_string u
          upstream_same = pkg_string_only latest.id.revision u

      on_state-IsOver :
          (cr : PackageRevision) (s : State dag) (a : Availability)
          → IsOver (on_state dag w again cr u s a)
      unfolding on_state IsOver
      on_state-IsOver cr s missing =
          choose-IsOver cr _ (latest_in dag w again u (w.listing s.listings))
      on_state-IsOver cr s (waiting r) =
          link-IsOver cr (pkg_string r.id) none s (resolved true) (λ t. tt)
      on_state-IsOver cr s (present r) = tt

      visit-IsOver : (cr : PackageRevision) (s : State dag) → IsOver (visit dag w again cr u s)
      unfolding visit on_listing IsOver
      visit-IsOver cr s = by_listing (w.listing s.listings)
        where
          by_listing :
              (listed : Result (List PackageRevision))
              → IsOver (on_listing dag w again cr u (record s { listings = s.listings + 1 }) listed)
          by_listing (err e) = tt
          by_listing (ok listed) =
              on_state-IsOver cr _ (get_pkg_state (build_variant cr u).downstream listed)

    visit_all-IsOver :
        (again : PackageRevision → State dag → Ending dag) (cr : PackageRevision) (bound : ℕ)
        → ((r : PackageRevision) (x : Upstream) (s : State dag)
            → r.upstream ≡ some x
            → rank (upstream_pkg_string x) < bound
            → IsOver (again r s))
        → (us : List Upstream) (s : State dag) → All (λ d. rank (upstream_pkg_string d) < bound) us
        → IsOver (visit_all dag w again cr us s)
    unfolding visit_all IsOver
    visit_all-IsOver again cr bound ends [] s h = tt
    visit_all-IsOver again cr bound ends (u ∷ us) s h =
        and_then-IsOver (visit dag w again cr u s) (visit_all dag w again cr us)
          (visit-IsOver again u
            (λ r t from. ends r from.source t from.has (smaller from.source from.same)) cr s)
          (λ t. visit_all-IsOver again cr bound ends us t h.1)
      where
        smaller :
            (x : Upstream)
            → upstream_pkg_string x ≡ upstream_pkg_string u
            → rank (upstream_pkg_string x) < bound
        smaller x e = subst (λ n. rank n < bound) (sym e) h.0

    -- Where the catalog's dependencies are acyclic by the rank, the recursion ends within a fuel greater
    -- than the rank of the package revision's upstream, whatever the listings, the hashes and the graph.
    pub is_resolved-IsOver :
        (fuel : ℕ) (cr : PackageRevision) (u : Upstream) (s : State dag)
        → cr.upstream ≡ some u
        → rank (upstream_pkg_string u) < fuel
        → IsOver (is_resolved dag w fuel cr s)
    unfolding is_resolved on_dependencies IsAcyclic IsBelow IsOver
    is_resolved-IsOver zero cr u s h lt = absurd (omega arith)
    is_resolved-IsOver (suc fuel) cr u s h lt =
        answered (w.dependencies cr) (acyclic cr u h)
          (λ r x t has less. is_resolved-IsOver fuel r x t has (omega arith))
      where
        answered :
            (d : Result (Bool × List Upstream))
            → IsBelow rank u d
            → ((r : PackageRevision) (x : Upstream) (t : State dag)
                → r.upstream ≡ some x
                → rank (upstream_pkg_string x) < rank (upstream_pkg_string u)
                → IsOver (is_resolved dag w fuel r t))
            → IsOver (on_dependencies dag w (is_resolved dag w fuel) cr s d)
        answered (err e) b ends = tt
        answered (ok (false, us)) b ends = tt
        answered (ok (true, us)) b ends =
            visit_all-IsOver (is_resolved dag w fuel) cr (rank (upstream_pkg_string u)) ends us s b
