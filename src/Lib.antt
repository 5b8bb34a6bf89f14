-- ===== src/Lib.antt =====
-- Verification library of pkgserver, the API server and the controllers that keep packages of
-- Kubernetes resources in git repositories.
--
-- The parts and how they interact. A package revision is a resource with an identity (target,
-- repository, realm, package, revision, workspace), a lifecycle and conditions. The API server
-- validates what is created and updated. A chain of controllers, one for each readiness gate, takes
-- it to its end: each waits for the condition of the gate before its own, takes a lease, acts, sets
-- its condition and starts the next one. The catalog resolves the dependencies of packages. Watchers
-- are told of changes.
--
--   Go               strings, path and strconv of Go, as far as they are used
--   PkgRevId         apis/pkgrevid/pkgrevid.go, upstream_downstream.go, state.go: the identity, its
--                    printers (pkg_rev_string for PkgRevString, tag, branch) and parsers
--   PkgRevId.Revision  apis/pkgrevid/revision.go
--   Condition        apis/condition/condition.go: the conditions as a list
--   PackageRevision  apis/pkg/v1alpha1/packagerevisions_types.go and packagerevisions_interface.go
--   PackageVariant   apis/config/v1alpha1/packagevariant_types.go and packagevariant_interfaces.go, and
--                    the builders of package variants and of their package revisions
--   Strategy         pkg/pkgserver/packagerevision/strategy.go: validate_create for Validate,
--                    validate_update for ValidateUpdate
--   Repository       apis/config/v1alpha1/repository_interfaces.go
--   Cache            pkg/cache: the store of pointers to the cached repositories, and what they point
--                    to
--   Watchers         pkg/watcher-manager: the map of watchers and the semaphore as one record; Turns has
--                    the steps of a call of Add and of an event that run side by side
--   Lease            pkg/reconcilers/lease/lease.go
--   Kube             the API server as the controllers see it: a controller is a function from the
--                    calls made before to its outcome and the calls after
--   Storer           the interface of the key-value stores, and the laws of the memory store
--   Catalog          pkg/reconcilers/packagediscovery/catalog/dependency.go, dependency_resolver.go
--                    (Resolver), apireferences.go (References) and store.go (Versions: the functions
--                    on one API; Store: the operations on the three stores)
--   Git              pkg/git/pkg/refs.go, dir.go and the filter of git_list.go
--   Reconcilers      pkg/reconcilers/packageapproval, packageprocessor, packageinstaller,
--                    packagescheduler (Scheduler), packagevariant (Variant), packagediscovery
--                    (Discovery) and packagerevision (Revision); Gate holds the lines that the
--                    gates' controllers share, Traced the form of a run
--   Tests            runs at concrete inputs
--
-- Strings are lists of bytes, and numbers are natural; the `int` of strconv is bounded by 2^63 - 1.
-- A nil pointer is `none`, a returned error a value, a panic the `err` of a result where nothing
-- else can go wrong. The time now is an argument. Error messages leave out a value that the source
-- quotes. The order in which Go ranges over a map is an argument or does not matter.
--
-- Loops are recursion on the list that they range over. There is fuel in two places: the printing of
-- a number n takes n + 1 rounds, and there is at most one round for each digit; the scheduler's
-- recursion over the dependencies ends `endless` where the fuel is used up, which a fuel above the
-- rank of the package in the catalog's dependencies excludes.
--
-- The scheduler reads the catalog that the discovery controller writes: the dependencies that its
-- recursion is given are those that get_pkg_rev_dependencies answers. The package variants that it
-- applies are what the package variant controller turns into package revisions.
--
-- Parameters stand for code outside the repository: semver, the semaphore, the API server, the
-- finalizers, the YAML decoders, the stores, the graph of kform, the hash
-- of a package variant and the reference specifications of go-git. Where a
-- theorem needs a law of them, the law is a record: IsSemver, IsSemaphore, IsMemory, Keeps, Serves.
--
-- Not modelled: log lines and events, locks (each operation runs on its own, but for the turns of the
-- watchers), the registration of resources and controllers, generated code, and the controllers and
-- stores not named above.
pub mod Prelude
pub mod Go
pub mod PkgRevId
pub mod Condition
pub mod PackageRevision
pub mod PackageVariant
pub mod Strategy
pub mod Watchers
pub mod Git
pub mod Repository
pub mod Kube
pub mod Lease
pub mod Storer
pub mod Cache
pub mod Catalog
pub mod Reconcilers
pub mod Tests
