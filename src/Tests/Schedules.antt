-- ===== src/Tests/Schedules.antt =====
-- Runs of the scheduler and of the package variant controller.
use mathlib.Core.List.{Memᴰ}
use mathlib.Core.Path.{subst}
use pkgserver.Prelude.{
  ℕ, ◌≡◌, ◌≢◌, ◌<◌, refl, sym, Bool, true, false, not, ◌&&◌, List, [], ◌∷◌, Option, none, some, Str,
  ◌==◌, str_eq, if◌then◌else◌, Result, ok, err, All, arith,
}
use pkgserver.Go.Strings.{codes, split, intercalate}
use pkgserver.Go.Path.{join}
use pkgserver.PkgRevId.{Upstream, upstream_pkg_string, id_eq}
use pkgserver.PkgRevId.Revision.{rev}
use pkgserver.Condition.{gate_schedule, gate_process}
use pkgserver.PackageRevision.{PackageRevision, published, draft}
use pkgserver.PackageVariant.{
  PackageVariant, policy_delete, build_variant, build_package_revision, built, build_revision,
}
use pkgserver.Kube.{Api, found, done}
use pkgserver.Reconcilers.Scheduler.Lookup.{missing, get_pkg_state}
use pkgserver.Reconcilers.Scheduler.Lookup.Latest.{built_found}
use pkgserver.Reconcilers.Scheduler.Installed.{
  Package, installed_at, owned_by, revision_key, without_revision, deleted_lem,
}
use pkgserver.Reconcilers.Scheduler.Resolution.{Dag, World, State, is_resolved}
use pkgserver.Reconcilers.Scheduler.Resolution.Termination.{
  IsOver, IsBelow, IsAcyclic, is_resolved-IsOver,
}
use pkgserver.Reconcilers.Scheduler.{reconcile}
use pkgserver.Reconcilers.Scheduler.Safety.{IsAllowed, reconcile-IsAllowed}
use pkgserver.Reconcilers.Variant.Requests.{
  Request, update_revision, delete_revision, remove_finalizer, Server, not_found,
}
use pkgserver.Reconcilers.Variant.Requests
use pkgserver.Reconcilers.Variant
use pkgserver.Reconcilers.Variant.Revisions.{ensure}
use pkgserver.Reconcilers.Variant.Warranted.{IsWarranted, ensure-IsWarranted}
use pkgserver.Reconcilers.Variant.Deletion.{Refuses, reconcile_refused}
use pkgserver.Storer.{Key, key_eq}
use pkgserver.Storer
use pkgserver.Tests.Samples.{sample_id, sample_with, sample_semver}
use pkgserver.Tests.Stores.{memory, memory-IsMemory}

abbrev Vertices : Type 0
Vertices = List (Str × Option PackageVariant)

abbrev vertex_of : Str → Vertices → Result (Option PackageVariant)
vertex_of name [] = err (codes "not found")
vertex_of name ((n, v) ∷ vs) = if n == name then ok v else vertex_of name vs

abbrev set_vertex : Str → Option PackageVariant → Vertices → Vertices
set_vertex name v [] = (name, v) ∷ []
set_vertex name v ((n, w) ∷ vs) = if n == name then (n, v) ∷ vs else (n, w) ∷ set_vertex name v vs

abbrev below : Str → List (Str × Str) → List Str
below name [] = []
below name ((a, b) ∷ es) = if a == name then b ∷ below name es else below name es

-- A graph as its vertices and its edges.
abbrev sample_dag : Dag
sample_dag = record {
  Graph = Vertices × List (Str × Str);
  new = ([], []);
  get_vertex = λ name g. vertex_of name g.0;
  add_vertex = λ name v g. ok (set_vertex name v g.0, g.1);
  update_vertex = λ name v g. ok (set_vertex name v g.0, g.1);
  connect = λ a b g. (g.0, (a, b) ∷ g.1);
  vertices = λ g. g.0;
  down = λ name g. below name g.1;
}

abbrev nginx : Upstream
nginx = record {
  repository = codes "repo";
  realm = codes "a/b";
  pkg = codes "nginx";
  revision = codes "v1";
}

abbrev db : Upstream
db = record nginx { pkg = codes "db" }

-- The package nginx depends on db, and nothing else depends on anything.
abbrev depends : Str → List Upstream
depends s = if s == codes "a/b/nginx" then db ∷ [] else []

abbrev answer : Option Upstream → Result (Bool × List Upstream)
answer none = err (codes "no upstream")
answer (some u) = ok (true, depends (upstream_pkg_string u))

abbrev scheduled : PackageRevision
scheduled = record (sample_with (codes "edge01.deploy.a:b.nginx.ws-1") [] draft []) {
  upstream = some nginx;
  readiness_gates = gate_schedule ∷ gate_process ∷ [];
}

-- A revision of db in the catalog, with a number.
abbrev db_revision : ℕ → PackageRevision
db_revision n = record (sample_with (codes "catalog.repo.a:b.db.ws") [] published []) {
  id = record sample_id {
    target = codes "catalog";
    repository = codes "repo";
    realm = codes "a/b";
    pkg = codes "db";
    revision = rev n;
  };
}

abbrev sample_hash : PackageVariant → Result (List ℕ)
sample_hash _ = ok (1 ∷ 2 ∷ 3 ∷ 4 ∷ 5 ∷ 6 ∷ 7 ∷ 8 ∷ [])

abbrev world : World
world = record {
  listing = λ _. ok (scheduled ∷ db_revision 1 ∷ []);
  dependencies = λ cr. answer cr.upstream;
  digest = sample_hash;
  semver = sample_semver;
}

abbrev rank : Str → ℕ
rank s = if s == codes "a/b/nginx" then 1 else 0

rank-db : rank (upstream_pkg_string db) ≡ 0
unfolding upstream_pkg_string join intercalate split
rank-db = refl

world-IsAcyclic : IsAcyclic world rank
unfolding IsAcyclic IsBelow
world-IsAcyclic cr u h =
    subst (λ o. IsBelow rank u (answer o)) (sym h)
      (falls (upstream_pkg_string u == codes "a/b/nginx"))
  where
    falls :
        (test : Bool)
        → All
            (λ d. rank (upstream_pkg_string d) < (if test then 1 else 0))
            (if test then db ∷ [] else [])
    falls true = (rw rank-db (omega arith), tt)
    falls false = tt

abbrev start : State sample_dag
start = record { listings = 0; graph = ([], []) }

termination_example : IsOver sample_dag (is_resolved sample_dag world 2 scheduled start)
unfolding upstream_pkg_string join intercalate split
termination_example =
    is_resolved-IsOver sample_dag world rank world-IsAcyclic 2 scheduled nginx start refl
      (omega arith)

abbrev api : Api
api = record { fetched = found scheduled; fails = λ _ _. none; reply = λ _ _. scheduled }

scheduler_example :
    All
      (IsAllowed sample_dag world 2 api 7)
      (reconcile api 7 sample_dag world 2 (memory Package) (λ _. none) []).1
scheduler_example = reconcile-IsAllowed sample_dag world 2 api 7 (memory Package) (λ _. none)

abbrev catalog : List PackageRevision
catalog = db_revision 1 ∷ scheduled ∷ db_revision 3 ∷ db_revision 2 ∷ []

abbrev variant : PackageVariant
variant = record (build_variant scheduled db) { deletion_policy = policy_delete }

abbrev built_revision : PackageRevision
built_revision = build_revision [] variant (1 ∷ 2 ∷ 3 ∷ 4 ∷ 5 ∷ 6 ∷ 7 ∷ 8 ∷ [])

is_built : build_package_revision sample_hash variant ≡ ok built_revision
unfolding build_package_revision built
is_built = refl

built_example : get_pkg_state variant.downstream (built_revision ∷ []) ≢ missing
built_example =
    built_found sample_hash variant built_revision (built_revision ∷ []) is_built (Memᴰ.head refl)

abbrev installed : Key → Option Package
installed _ = some (record { revisions = scheduled.id ∷ []; owner_refs = scheduled.id ∷ [] })

installed_example :
    (installed_at scheduled.id (
        Storer.found (
          (memory Package).get
            (revision_key scheduled)
            ((memory Package).update_with_fn (without_revision scheduled) installed).1))
      ≡ (installed_at scheduled.id
            (Storer.found ((memory Package).get (revision_key scheduled) installed))
          && not
              (revision_key scheduled == revision_key scheduled && scheduled.id == scheduled.id)))
    × (owned_by scheduled.id (
          Storer.found (
            (memory Package).get
              (revision_key scheduled)
              ((memory Package).update_with_fn (without_revision scheduled) installed).1))
        ≡ (owned_by scheduled.id
              (Storer.found ((memory Package).get (revision_key scheduled) installed))
            && not (scheduled.id == scheduled.id)))
installed_example =
    deleted_lem (memory Package) (memory-IsMemory Package) scheduled installed
      (revision_key scheduled) scheduled.id

abbrev answering : Option Str → Server
answering e = record {
  fetched = not_found;
  fails = λ _ _. e;
  listed = λ _. catalog;
  reply = λ _. variant;
}

ensure_example :
    All
      (IsWarranted (answering none) sample_hash variant (1 ∷ 2 ∷ 3 ∷ 4 ∷ 5 ∷ 6 ∷ 7 ∷ 8 ∷ []))
      (ensure (answering none) sample_hash variant []).1
ensure_example =
    ensure-IsWarranted (answering none) sample_hash variant (1 ∷ 2 ∷ 3 ∷ 4 ∷ 5 ∷ 6 ∷ 7 ∷ 8 ∷ [])
      refl

abbrev refusal : Request → Option Str
refusal (update_revision r) = some (codes "no")
refusal (delete_revision r) = some (codes "no")
refusal q = none

abbrev leaving : PackageVariant
leaving = record variant { deleting = true }

abbrev refusing : Server
refusing = record {
  fetched = Requests.found leaving;
  fails = λ _ q. refusal q;
  listed = λ _. catalog;
  reply = λ _. leaving;
}

all_refused : Refuses refusing
unfolding Refuses
all_refused log r = ((λ p. cc), (λ p. cc))

refused_example :
    (log : List Request) × (Variant.reconcile refusing 7 sample_hash []
      ≡ (done, remove_finalizer leaving ∷ log))
refused_example =
    reconcile_refused refusing all_refused 7 sample_hash leaving (λ log. refl) refl refl refl
