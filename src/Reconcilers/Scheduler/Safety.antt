-- ===== src/Reconcilers/Scheduler/Safety.antt =====
-- What a reconcile of the scheduler may send:
-- pkg/reconcilers/packagescheduler/reconcilers.go.
use mathlib.Core.List.{Memᴰ}
use pkgserver.Prelude.{
  ℕ, ◌≡◌, ◌⊎◌, inl, inr, refl, true, false, List, [], ◌∷◌, Option, none, some, Str, ◌==◌, nat_eq,
  ==_iff, if◌then◌else◌, if-split, if-cases, length, Result, ok, err, All,
}
use pkgserver.Go.Strings.{codes}
use pkgserver.PkgRevId.{pkg_string}
use pkgserver.Condition.{
  gate_schedule, condition_false, get_condition, condition_update, set_conditions,
}
use pkgserver.Condition.Set.{last_status}
use pkgserver.PackageRevision.{PackageRevision, set_conditions_of}
use pkgserver.PackageVariant.{PackageVariant}
use pkgserver.Kube.{
  Fetched, found, not_found, get_failed, Call, acquire_lease, add_finalizer, remove_finalizer,
  update, update_status, create_sync, update_sync, run_kform, update_resources, apply_variant, Api,
  Outcome, done, again, lease_again, Run, pure, send, return_status,
}
use pkgserver.Kube
use pkgserver.Storer.{Storer}
use pkgserver.Reconcilers.Gate.{is_irrelevant, complete_gate}
use pkgserver.Reconcilers.Scheduler.Installed.{Package, revision_key, with_revision}
use pkgserver.Reconcilers.Scheduler.Resolution.{
  Dag, World, Ending, resolved, failed, panicked, endless, is_resolved,
}
use pkgserver.Reconcilers.Scheduler.{
  controller_name, after_seconds, Finish, returned, is_empty, give_up, conclude, apply_one,
  apply_all, on_ending, with_self, schedule, keep, on_stored, process, delete, leased,
  reconcile_found, on_fetched, reconcile,
}

module _ (dag : Dag) (w : World) (fuel : ℕ) (api : Api) (now : ℕ) where
  -- The package revision that the client holds in this reconcile once the finalizer is added to the one
  -- that was fetched.
  pub record IsHeld (r : PackageRevision) : Type 0 where
    pub object : PackageRevision
    pub fetched : api.fetched ≡ found object
    pub held : r ≡ api.reply (acquire_lease controller_name ∷ []) (add_finalizer object)

  -- The recursion over the dependencies of the package revision that is held, begun with that alone in
  -- the graph, ended with the answer that all is resolved and with this graph.
  pub record IsOutcome (r : PackageRevision) (g : dag.Graph) : Type 0 where
    pub held : IsHeld r
    pub start : dag.Graph
    pub listings : ℕ
    pub alone : dag.add_vertex (pkg_string r.id) none dag.new ≡ ok start
    pub ended :
        is_resolved dag w fuel r (record { listings = 0; graph = start })
        ≡ resolved true (record { listings = listings; graph = g })

  -- The package variant stands at a vertex without dependencies of that graph.
  pub record IsDue (v : PackageVariant) : Type 0 where
    pub revision : PackageRevision
    pub graph : dag.Graph
    pub outcome : IsOutcome revision graph
    pub name : Str
    pub vertex : Memᴰ (name, some v) (dag.vertices graph)
    pub free : dag.down name graph ≡ []

  -- That graph has one vertex, so that nothing is missing, and the package revision that is held is sent
  -- with its gate completed.
  pub record IsComplete (sent : PackageRevision) : Type 0 where
    pub revision : PackageRevision
    pub graph : dag.Graph
    pub outcome : IsOutcome revision graph
    pub single : length (dag.vertices graph) ≡ 1
    pub completed : sent ≡ complete_gate now gate_schedule revision

  abbrev pub IsAllowed : Call → Type 0
  IsAllowed (apply_variant v) = IsDue v
  IsAllowed (update_status r) =
      ((get_condition r.conditions gate_schedule).status ≡ condition_false) ⊎ IsComplete r
  IsAllowed (acquire_lease _) = Unit
  IsAllowed (add_finalizer r) = api.fetched ≡ found r
  IsAllowed (remove_finalizer r) = (api.fetched ≡ found r) × (r.deleting ≡ true)
  IsAllowed (update _) = ⊥
  IsAllowed (create_sync _) = ⊥
  IsAllowed (update_sync _) = ⊥
  IsAllowed (run_kform _) = ⊥
  IsAllowed (update_resources _) = ⊥

  -- A run adds only allowed calls.
  IsSafe : {A : Type 0} → Run A → Type 0
  IsSafe m = (log : List Call) → All IsAllowed log → All IsAllowed (m log).1

  pure-IsSafe : {A : Type 0} (a : A) → IsSafe (pure a)
  unfolding IsSafe
  pure-IsSafe a log h = h

  bind-IsSafe :
      {A B : Type 0} (m : Run A) (f : A → Run B)
      → IsSafe m
      → ((a : A) → IsSafe (f a))
      → IsSafe (Kube.◌>>=◌ m f)
  unfolding IsSafe
  bind-IsSafe m f first next log h = next (m log).0 (m log).1 (first log h)

  send-IsSafe : (c : Call) → IsAllowed c → IsSafe (send api c)
  unfolding IsSafe send
  send-IsSafe c good log h = (good, h)

  status-IsSafe :
      (o : Outcome) (r : PackageRevision)
      → ((get_condition r.conditions gate_schedule).status ≡ condition_false) ⊎ IsComplete r
      → IsSafe (return_status api o r)
  unfolding return_status send IsSafe
  status-IsSafe o r good log h = (good, h)

  give_up-IsSafe :
      (o : Outcome) (reason msg : Str) (cr : PackageRevision)
      → IsSafe (give_up api now dag w fuel o reason msg cr)
  unfolding give_up set_conditions_of condition_update IsSafe
  give_up-IsSafe o reason msg cr log h =
      status-IsSafe o
        (record cr {
          conditions =
              set_conditions cr.conditions (condition_update now gate_schedule reason msg ∷ []);
        })
        (inl (last_status cr.conditions (condition_update now gate_schedule reason msg))) log h

  completed-IsSafe :
      (cr : PackageRevision)
      → IsComplete (complete_gate now gate_schedule cr)
      → IsSafe (
          Kube.◌>>=◌
            (return_status api done (complete_gate now gate_schedule cr))
            (λ out. pure (returned out)))
  unfolding IsSafe
  completed-IsSafe cr complete log h =
      status-IsSafe done (complete_gate now gate_schedule cr) (inr complete) log h

  conclude-IsSafe :
      (cr : PackageRevision) (g : dag.Graph)
      → IsOutcome cr g
      → IsSafe (conclude api now dag w fuel cr g)
  unfolding conclude
  conclude-IsSafe cr g outcome =
      if-split IsSafe (length (dag.vertices g) == 1) (λ one. ready one)
        (λ _. give_up-IsSafe (after_seconds 10) (codes "pkg dependencies being installed") [] cr)
    where
      ready :
          (length (dag.vertices g) == 1) ≡ true
          → IsSafe (
              Kube.◌>>=◌
                (return_status api done (complete_gate now gate_schedule cr))
                (λ out. pure (returned out)))
      ready one = completed-IsSafe cr (record {
        revision = cr;
        completed = refl;
        graph = g;
        outcome = outcome;
        single = (==_iff (length (dag.vertices g)) 1).0 one;
      })

  apply_one-IsSafe :
      (cr : PackageRevision) (v : PackageVariant) (next : Run Finish)
      → IsDue v
      → IsSafe next
      → IsSafe (apply_one api now dag w fuel cr v next)
  unfolding apply_one
  apply_one-IsSafe cr v next due later =
      bind-IsSafe (send api (apply_variant v)) _ (send-IsSafe (apply_variant v) due) answered
    where
      answered :
          (answer : Option Str × PackageRevision)
          → IsSafe (elim answer.0 as (λ _. Run Finish) [
            | none ↦ next
            | some _ ↦ give_up api now dag w fuel again (codes "cannot apply pkgVariant") v.name cr
          ])
      answered (none, _) = later
      answered (some _, _) = give_up-IsSafe again (codes "cannot apply pkgVariant") v.name cr

  empty_down : (names : List Str) → is_empty names ≡ true → names ≡ []
  unfolding is_empty
  empty_down [] h = refl
  empty_down (n ∷ ns) h = cc

  apply_all-IsSafe :
      (cr : PackageRevision) (g : dag.Graph) (vertices : List (Str × Option PackageVariant))
      → IsOutcome cr g
      → ((x : Str × Option PackageVariant) → Memᴰ x vertices → Memᴰ x (dag.vertices g))
      → IsSafe (apply_all api now dag w fuel cr g vertices)
  unfolding apply_all
  apply_all-IsSafe cr g [] outcome among = conclude-IsSafe cr g outcome
  apply_all-IsSafe cr g ((name, none) ∷ vertices) outcome among =
      apply_all-IsSafe cr g vertices outcome (λ x h. among x (Memᴰ.tail h))
  apply_all-IsSafe cr g ((name, some v) ∷ vertices) outcome among =
      let rest = apply_all-IsSafe cr g vertices outcome (λ x h. among x (Memᴰ.tail h)) in
      if-split IsSafe (is_empty (dag.down name g))
        (λ free.
          apply_one-IsSafe cr v _
            (record {
              revision = cr;
              graph = g;
              outcome = outcome;
              name = name;
              vertex = among (name, some v) (Memᴰ.head refl);
              free = empty_down (dag.down name g) free;
            })
            rest)
        (λ _. rest)

  on_ending-IsSafe :
      (cr : PackageRevision) (g : dag.Graph) (e : Ending dag)
      → IsHeld cr
      → dag.add_vertex (pkg_string cr.id) none dag.new ≡ ok g
      → is_resolved dag w fuel cr (record { listings = 0; graph = g }) ≡ e
      → IsSafe (on_ending api now dag w fuel cr e)
  unfolding on_ending
  on_ending-IsSafe cr g (resolved true s) held alone ended =
      apply_all-IsSafe cr s.graph (dag.vertices s.graph)
        (record { held = held; start = g; listings = s.listings; alone = alone; ended = ended })
        (λ x h. h)
  on_ending-IsSafe cr g (resolved false s) held alone ended = give_up-IsSafe _ _ _ cr
  on_ending-IsSafe cr g (failed e) held alone ended = give_up-IsSafe _ _ _ cr
  on_ending-IsSafe cr g (panicked e) held alone ended = pure-IsSafe _
  on_ending-IsSafe cr g endless held alone ended = pure-IsSafe _

  schedule-IsSafe : (cr : PackageRevision) → IsHeld cr → IsSafe (schedule api now dag w fuel cr)
  unfolding schedule with_self
  schedule-IsSafe cr held = added (dag.add_vertex (pkg_string cr.id) none dag.new) refl
    where
      added :
          (g : Result dag.Graph)
          → dag.add_vertex (pkg_string cr.id) none dag.new ≡ g
          → IsSafe (with_self api now dag w fuel cr g)
      added (err e) alone = give_up-IsSafe _ _ _ cr
      added (ok g) alone = on_ending-IsSafe cr g _ held alone refl

  module _ (m : Storer Package) where
    keep-IsSafe :
        (s : m.Store) (run : Run Finish) → IsSafe run → IsSafe (keep api now dag w fuel m s run)
    unfolding keep IsSafe
    keep-IsSafe s run h log good = h log good

    on_stored-IsSafe :
        (cr : PackageRevision) (stored : Option Str × m.Store)
        → IsHeld cr
        → IsSafe (on_stored api now dag w fuel m cr stored)
    unfolding on_stored
    on_stored-IsSafe cr (none, s) held = keep-IsSafe s _ (schedule-IsSafe cr held)
    on_stored-IsSafe cr (some _, s) held = keep-IsSafe s _ (give_up-IsSafe _ _ _ cr)

    abbrev leased_log : List Call
    leased_log = acquire_lease controller_name ∷ []

    process-IsAllowed :
        (cr : PackageRevision) (s : m.Store)
        → api.fetched ≡ found cr
        → All IsAllowed (process api now dag w fuel m cr s leased_log).1
    unfolding process send IsSafe
    process-IsAllowed cr s is_fetched =
        answered (api.fails leased_log (add_finalizer cr)) (add_finalizer cr ∷ leased_log)
          (is_fetched, (tt, tt))
      where
        r : PackageRevision
        r = api.reply leased_log (add_finalizer cr)

        answered :
            (e : Option Str) (log : List Call)
            → All IsAllowed log
            → All IsAllowed
                ((elim e as (λ _. Run (Finish × m.Store)) [
                  | none ↦
                      on_stored api now dag w fuel m r
                        (m.update_with_key_fn (revision_key r) (with_revision r) s)
                  | some e ↦
                      keep api now dag w fuel m s
                        (give_up api now dag w fuel again (codes "cannot add finalizer") e r)
                ])
                  log).1
        answered none =
            on_stored-IsSafe r (m.update_with_key_fn (revision_key r) (with_revision r) s)
              (record { object = cr; fetched = is_fetched; held = refl })
        answered (some e) =
            keep-IsSafe s (give_up api now dag w fuel again (codes "cannot add finalizer") e r)
              (give_up-IsSafe again (codes "cannot add finalizer") e r)

    delete-IsSafe :
        (cr : PackageRevision) (s : m.Store)
        → api.fetched ≡ found cr
        → cr.deleting ≡ true
        → IsSafe (delete api now dag w fuel m cr s)
    unfolding delete send IsSafe
    delete-IsSafe cr s is_fetched leaving log h = ((is_fetched, leaving), h)

    leased-IsAllowed :
        (cr : PackageRevision) (s : m.Store)
        → api.fetched ≡ found cr
        → All IsAllowed (leased api now dag w fuel m cr s []).1
    unfolding leased send IsSafe
    leased-IsAllowed cr s is_fetched = answered (api.fails [] (acquire_lease controller_name))
      where
        answered :
            (e : Option Str)
            → All IsAllowed
                ((elim e as (λ _. Run (Finish × m.Store)) [
                  | some _ ↦ pure (returned lease_again, s)
                  | none ↦
                      if cr.deleting
                      then delete api now dag w fuel m cr s
                      else process api now dag w fuel m cr s
                ])
                  leased_log).1
        answered none =
            if-split (λ (run : Run (Finish × m.Store)). All IsAllowed (run leased_log).1)
              cr.deleting (λ leaving. delete-IsSafe cr s is_fetched leaving leased_log (tt, tt))
              (λ _. process-IsAllowed cr s is_fetched)
        answered (some e) = (tt, tt)

    fetched-IsAllowed :
        (f : Fetched) (s : m.Store)
        → api.fetched ≡ f
        → All IsAllowed (on_fetched api now dag w fuel m f s []).1
    unfolding on_fetched reconcile_found
    fetched-IsAllowed not_found s is_fetched = tt
    fetched-IsAllowed (get_failed e) s is_fetched = tt
    fetched-IsAllowed (found cr) s is_fetched =
        if-cases (λ (run : Run (Finish × m.Store)). All IsAllowed (run []).1)
          (is_irrelevant gate_schedule cr) tt (leased-IsAllowed cr s is_fetched)

    -- A reconcile of the scheduler, whatever the API server, the catalog, the graph and the stores
    -- answer, takes the lease and changes the finalizers of the package revision that it fetched, which it
    -- removes only where that is being deleted; it applies only package variants at vertices without
    -- dependencies of the graph in which all dependencies of the package revision that it holds were
    -- resolved; and it sends only statuses in which its condition is "False", except that, where that
    -- graph has a single vertex, it sends what it holds with its gate completed.
    pub reconcile-IsAllowed : (s : m.Store) → All IsAllowed (reconcile api now dag w fuel m s []).1
    unfolding reconcile
    reconcile-IsAllowed s = fetched-IsAllowed api.fetched s refl
