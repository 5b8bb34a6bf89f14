-- ===== src/Tests/Runs.antt =====
-- Runs of the reconcilers, the watcher manager, the lease and the resolver.
use mathlib.Core.List.{Memᴰ}
use pkgserver.Prelude.{
  ◌≢◌, List, ◌+◌, ◌<◌, ◌≡◌, refl, Bool, true, false, ◌||◌, not, [], ◌∷◌, Option, none, some, arith,
  Str, ◌==◌, str_eq, All, ok, err,
}
use pkgserver.Go.Strings.{codes, has_prefix}
use pkgserver.Condition.{type_ready, gate_approve, condition_true, condition_false, get_condition}
use pkgserver.PackageRevision.{
  draft, PackageRevision, proposed, published, get_previous_condition, has_readiness_gate,
}
use pkgserver.Kube.{
  found, Call, add_finalizer, remove_finalizer, update, update_status, create_sync, update_sync,
  run_kform, update_resources, apply_variant, Api, updates,
}
use pkgserver.Reconcilers.Gate.{is_irrelevant}
use pkgserver.Reconcilers.Approval
use pkgserver.Reconcilers.Approval.Calls
use pkgserver.Reconcilers.Approval.Progress.{Serves, Agrees, IsWaiting, next, approval_completes}
use pkgserver.Reconcilers.Installer
use pkgserver.Reconcilers.Installer.Sync
use pkgserver.Reconcilers.Processor
use pkgserver.Reconcilers.Processor.Released
use pkgserver.Reconcilers.Processor.Justified
use pkgserver.Watchers.{Watcher, Manager, new, add}
use pkgserver.Watchers.Limit.{has, IsManaged, IsListing, IsAdded, new-IsManaged, add-IsAdded}
use pkgserver.Watchers.Turns.{
  Turn, drops, admits, drop_turns, add_turns, event_turns, Interleaves, over, of_first, of_second,
  take_turns,
}
use pkgserver.Watchers.Interleaving.{NoneShared, AreServed, interleaved-AreServed}
use pkgserver.Lease.{LeaseSpec, Fetch, fetched, missing, Attempt, taken}
use pkgserver.Lease
use pkgserver.Lease.Exclusion.{IsFree, acquire_lease-IsFree, lease_exclusive}
use pkgserver.Catalog.Resolver.{package_api, Resource, Sources, resolve}
use pkgserver.Catalog.Resolver.Accounts.{IsAccounted, resolve_accounts}
use pkgserver.Tests.Samples.{
  differ, sample_id, sample_with, sample_name, condition_of, processed, processed_draft,
  sample_semaphore, sample_semaphore_law,
}

-- A server that holds one object, lets every call succeed and answers with what it is sent.
abbrev sent : PackageRevision → Call → PackageRevision
sent r (add_finalizer s) = s
sent r (remove_finalizer s) = s
sent r (update s) = s
sent r (update_status s) = s
sent r (Call.acquire_lease _) = r
sent r (create_sync _) = r
sent r (update_sync _) = r
sent r (run_kform _) = r
sent r (update_resources s) = s
sent r (apply_variant _) = r

abbrev server : PackageRevision → Api
server r = record { fetched = found r; fails = λ _ _. none; reply = λ _ c. sent r c }

agrees : (r : PackageRevision) → Agrees r r
agrees r = record {
  name = refl;
  gates = refl;
  deleting = refl;
  lifecycle = refl;
  conditions = refl;
}

serves : (r : PackageRevision) → Serves (server r) r
serves r = record {
  object = r;
  fetched = refl;
  same = agrees r;
  accepts = λ _ _. refl;
  finalized = λ _. agrees r;
}

draft_waits : IsWaiting 7 processed_draft
unfolding is_irrelevant get_previous_condition has_readiness_gate has_prefix get_condition
draft_waits = record {
  relevant = refl;
  turn = differ condition_true condition_false refl;
  unfinished = refl;
  live = refl;
}

abbrev first : PackageRevision
first = next 7 (server processed_draft) processed_draft

abbrev second : PackageRevision
second = next 7 (server first) first

abbrev third : PackageRevision
third = next 7 (server second) second

approval_completes_example :
    (first.lifecycle ≡ proposed)
    × (second.lifecycle ≡ published)
    × (third.lifecycle ≡ published)
    × ((get_condition third.conditions gate_approve).status ≡ condition_true)
    × ((t : Str)
        → t ≢ gate_approve
        → get_condition second.conditions t ≡ get_condition processed_draft.conditions t)
approval_completes_example =
    approval_completes 7 (server processed_draft) (server first) (server second) processed_draft
      (serves processed_draft) (serves first) (serves second) draft_waits refl

sends_example :
    All
      (Calls.IsAcceptedStep (server processed_draft) 7 processed_draft)
      (updates (Approval.reconcile (server processed_draft) 7 []).1)
sends_example = Calls.reconcile-IsAcceptedStep (server processed_draft) 7 processed_draft refl

abbrev leaving : PackageRevision
leaving = record processed_draft { deleting = true }

abbrev released : PackageRevision
released =
    sample_with sample_name (codes "v1") published
      (condition_of gate_approve condition_true ∷ processed)

installer_example : All (Sync.IsSyncOf released) (
    Sync.syncs
      (Installer.reconcile
        (server released)
        7
        Installer.sync_missing
        (err (codes "no"))
        (err (codes "no"))
        []).1)
installer_example =
    Sync.installer_sends (server released) 7 Installer.sync_missing (err (codes "no"))
      (err (codes "no")) released refl

abbrev removed : PackageRevision
removed = record released { deleting = true }

-- A draft that the processor has not seen.
abbrev fresh : PackageRevision
fresh = sample_with sample_name [] draft (condition_of type_ready condition_true ∷ [])

abbrev manager : Manager sample_semaphore
manager = new sample_semaphore 1

manager-IsManaged : IsManaged sample_semaphore sample_semaphore_law manager
manager-IsManaged = (new-IsManaged sample_semaphore sample_semaphore_law 1).0

abbrev idle : Watcher → Bool
idle w = false

add_example :
    (m : Manager sample_semaphore) × (e : Option Str) × (add sample_semaphore idle []
        (codes "u1")
        []
        manager
      ≡ ok (m, e))
    × IsAdded sample_semaphore sample_semaphore_law idle [] (codes "u1") manager m e
unfolding has new
add_example =
    add-IsAdded sample_semaphore sample_semaphore_law idle [] (codes "u1") [] manager
      manager-IsManaged (record { unique = tt; present = tt }) refl

abbrev busy : Manager sample_semaphore
busy = record {
  sem = (2, 2);
  watchers =
      record { key = codes "u1"; filter_options = [] }
      ∷ record { key = codes "u2"; filter_options = [] }
      ∷ [];
}

busy-IsManaged : IsManaged sample_semaphore sample_semaphore_law busy
unfolding has
busy-IsManaged = record { unique = (refl, (refl, tt)); counted = refl; bounded = omega arith }

busy-IsListing : IsListing sample_semaphore sample_semaphore_law busy.watchers busy
unfolding has
busy-IsListing = record { unique = (refl, (refl, tt)); present = (refl, (refl, tt)) }

abbrev first_done : Watcher → Bool
first_done w = w.key == codes "u1"

-- `Add` drops the first watcher, the event the second one, and then `Add` adds the third.
abbrev mixed : List Turn
mixed =
    drops (record { key = codes "u1"; filter_options = [] })
    ∷ drops (record { key = codes "u2"; filter_options = [] })
    ∷ admits (codes "u3") []
    ∷ []

mixed-Interleaves :
    Interleaves
      (add_turns first_done busy.watchers (codes "u3") [])
      (event_turns idle first_done busy.watchers)
      mixed
unfolding add_turns event_turns drop_turns
mixed-Interleaves = of_first (of_second (of_first over))

none_shared :
    NoneShared sample_semaphore sample_semaphore_law first_done
      (λ w. idle w || not (first_done w))
      busy.watchers
      busy.watchers
none_shared = (
  ((λ _ t. cc t), ((λ _ _. differ (codes "u1") (codes "u2") refl), tt)),
  (((λ t _. cc t), ((λ t _. cc t), tt)), tt),
)

interleaved_example :
    (m : Manager sample_semaphore) × (take_turns sample_semaphore mixed busy ≡ ok m)
    × AreServed sample_semaphore sample_semaphore_law first_done
        (λ w. idle w || not (first_done w))
        busy.watchers
        busy.watchers
        (codes "u3")
        busy
        m
unfolding has
interleaved_example =
    interleaved-AreServed sample_semaphore sample_semaphore_law first_done idle first_done
      busy.watchers busy.watchers (codes "u3") [] busy busy-IsManaged busy-IsListing busy-IsListing
      none_shared refl mixed-Interleaves

abbrev attempt : Attempt
attempt = record { created = none; updated = some (taken 5000000 (codes "b")); error = none }

attempted :
    Lease.acquire_lease 0 5000000
      (codes "b")
      (fetched (taken 9 (codes "a")))
      none
      (fetched (taken 9 (codes "a")))
      none
    ≡ ok attempt
unfolding Lease.acquire_lease taken
attempted = refl

taker_example :
    (spec : LeaseSpec) × (fetched (taken 9 (codes "a")) ≡ fetched spec)
    × IsFree 5000000 (codes "b") spec
    × (attempt.updated ≡ some (taken 5000000 (codes "b")))
taker_example =
    acquire_lease-IsFree 0 5000000 (codes "b") (fetched (taken 9 (codes "a"))) none
      (fetched (taken 9 (codes "a"))) none attempt attempted refl

lease_exclusive_example : 9 + 1000000 < 5000000
lease_exclusive_example =
    lease_exclusive 9 0 5000000 (codes "a") (codes "b") (fetched (taken 9 (codes "a"))) none none
      attempt (differ (codes "a") (codes "b") refl) attempted refl

-- A catalog with one package API, in the version v1.
abbrev sources : Sources
sources = record {
  api_of = λ _ kind. ok (record {
    type = package_api;
    kind = kind;
    resource = codes "networks";
    id = sample_id;
    versions = (codes "v1", []) ∷ [];
  });
  kind_of = λ _ _. ok (codes "Network");
  is_valid = λ _. false;
  gvk_string = λ k. k.kind;
  gvk_of = λ version kind. record { group = []; version = version; kind = kind };
  recorded = λ _. none;
}

abbrev network : Resource
network = record {
  api_version = codes "net/v1";
  kind = codes "Network";
  parsed = ok (codes "net", codes "v1");
  rules = err (codes "no role");
  upstream = err (codes "no upstream");
}

resolve_example :
    IsAccounted sources network
      (codes "net", codes "v1")
      (resolve sources [] sample_id [] [] (network ∷ [])).0
resolve_example =
    resolve_accounts sources [] sample_id [] [] (network ∷ []) network (codes "net", codes "v1")
      (Memᴰ.head refl) refl

released_example : Released.IsQuiet (Processor.reconcile (server removed) 7 (ok true) []).1
released_example =
    Released.released_stays (server removed) 7 (ok true) removed (λ e. cc) (λ e. cc) refl refl

processor_example :
    Justified.IsJustified (server fresh) (Processor.reconcile (server fresh) 7 (ok false) []).1
processor_example = Justified.reconcile-IsJustified (server fresh) 7 (ok false)
