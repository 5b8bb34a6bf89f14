-- ===== src/Reconcilers/Scheduler/Resolution.antt =====
-- The recursion over the dependencies of a package revision: isPkgRevRecursivelyresolved and addVertex
-- of pkg/reconcilers/packagescheduler/reconcilers.go. The graph of github.com/kform-dev/kform/pkg/dag
-- is a parameter, with what the catalog answers and what each listing of the package revisions gives.
-- The recursion is on fuel.
pub mod Termination
use pkgserver.Prelude.{
  ℕ, zero, suc, ◌+◌, Bool, true, false, List, [], ◌∷◌, ◌++◌, Option, none, some, Str, Result, ok,
  err, if◌then◌else◌,
}
use pkgserver.Go.Strings.{codes}
use pkgserver.PkgRevId.{Upstream, pkg_string}
use pkgserver.PkgRevId.Revision.{Semver}
use pkgserver.PackageRevision.{PackageRevision}
use pkgserver.PackageVariant.{PackageVariant, build_variant, build_package_revision}
use pkgserver.Reconcilers.Scheduler.Lookup.{
  Availability, missing, waiting, present, get_pkg_state, get_latest,
}

-- `dag.DAG[*PackageVariant]`: a vertex may have no package variant. The edges go from a package to
-- what it depends on.
pub record Dag : Type 1 where
  pub Graph : Type 0
  pub new : Graph
  pub get_vertex : Str → Graph → Result (Option PackageVariant)
  pub add_vertex : Str → Option PackageVariant → Graph → Result Graph
  pub update_vertex : Str → Option PackageVariant → Graph → Result Graph
  pub connect : Str → Str → Graph → Graph
  pub vertices : Graph → List (Str × Option PackageVariant)
  pub down : Str → Graph → List Str

-- What the recursion reads: the n-th listing of this run, the catalog's answer, the hash of a
-- package variant and the versions' order.
pub record World : Type 0 where
  pub listing : ℕ → Result (List PackageRevision)
  pub dependencies : PackageRevision → Result (Bool × List Upstream)
  pub digest : PackageVariant → Result (List ℕ)
  pub semver : Semver

module _ (dag : Dag) where
  -- `addVertex`.
  unfoldable pub put_vertex : Str → Option PackageVariant → dag.Graph → Result dag.Graph
  put_vertex name v g = elim (dag.get_vertex name g) as (λ _. Result dag.Graph) [
    | err _ ↦ dag.add_vertex name v g
    | ok _ ↦ dag.update_vertex name v g
  ]

  -- The number of listings so far, and the graph.
  pub record State : Type 0 where
    pub listings : ℕ
    pub graph : dag.Graph

  -- How the recursion ends: with an answer, with an error, by a panic, or not within the fuel.
  pub data Ending : Type 0 where
    resolved : Bool → State → Ending
    failed panicked : Str → Ending
    endless : Ending

  -- The vertex and the edge from the package revision to it.
  with_graph : PackageRevision → Str → ℕ → Result dag.Graph → (State → Ending) → Ending
  with_graph cr name listings (err e) next = failed e
  with_graph cr name listings (ok g) next =
      next (record { listings = listings; graph = dag.connect (pkg_string cr.id) name g })

  unfoldable pub link :
      PackageRevision → Str → Option PackageVariant → State → (State → Ending) → Ending
  unfolding put_vertex with_graph
  link cr name v s next = with_graph cr name s.listings (put_vertex name v s.graph) next

  -- What follows a step: the next upstream where it was resolved, and nothing otherwise.
  unfoldable pub and_then : Ending → (State → Ending) → Ending
  and_then (resolved true s) next = next s
  and_then (resolved false s) next = resolved false s
  and_then (failed e) next = failed e
  and_then (panicked e) next = panicked e
  and_then endless next = endless

  module _ (w : World) (again : PackageRevision → State → Ending) where
    -- The dependency's package revision was built: it becomes a vertex with its package variant.
    descend : PackageRevision → PackageVariant → State → Result PackageRevision → Ending
    unfolding link
    descend cr v s (err e) = failed (codes "cannot build package revision, err: " ++ e)
    descend cr v s (ok r) = link cr (pkg_string r.id) (some v) s (again r)

    -- The upstream gets the latest revision of the catalog.
    choose : PackageRevision → Upstream → State → Result PackageRevision → Ending
    unfolding descend
    choose cr u s (err e) =
        failed (codes "cannot get latest catalog package revision for upstream: " ++ e)
    choose cr u s (ok latest) =
        let v = record (build_variant cr u) {
          upstream = record u { revision = latest.id.revision };
        } in
        descend cr v s (build_package_revision w.digest v)

    latest_in : Upstream → Result (List PackageRevision) → Result PackageRevision
    latest_in u (err e) = err e
    latest_in u (ok listed) = get_latest w.semver u listed

    -- The cases of the `switch` on the state.
    on_state : PackageRevision → Upstream → State → Availability → Ending
    unfolding choose latest_in link
    on_state cr u s missing =
        choose cr u (record s { listings = s.listings + 1 }) (latest_in u (w.listing s.listings))
    on_state cr u s (waiting r) = link cr (pkg_string r.id) none s (resolved true)
    on_state cr u s (present r) = resolved true s

    on_listing : PackageRevision → Upstream → State → Result (List PackageRevision) → Ending
    unfolding on_state
    on_listing cr u s (err e) = failed (codes "cannot get installed packages for downstream: " ++ e)
    on_listing cr u s (ok listed) =
        on_state cr u s (get_pkg_state (build_variant cr u).downstream listed)

    -- One turn of the loop.
    unfoldable pub visit : PackageRevision → Upstream → State → Ending
    unfolding on_listing
    visit cr u s = on_listing cr u (record s { listings = s.listings + 1 }) (w.listing s.listings)

    unfoldable pub visit_all : PackageRevision → List Upstream → State → Ending
    unfolding visit and_then
    visit_all cr [] s = resolved true s
    visit_all cr (u ∷ us) s = and_then (visit cr u s) (visit_all cr us)

    unfoldable pub on_dependencies :
        PackageRevision → State → Result (Bool × List Upstream) → Ending
    unfolding visit_all
    on_dependencies cr s (err e) = panicked e
    on_dependencies cr s (ok (false, us)) = resolved false s
    on_dependencies cr s (ok (true, us)) = visit_all cr us s

  unfoldable pub is_resolved : World → ℕ → PackageRevision → State → Ending
  unfolding on_dependencies
  is_resolved w zero cr s = endless
  is_resolved w (suc fuel) cr s = on_dependencies w (is_resolved w fuel) cr s (w.dependencies cr)
