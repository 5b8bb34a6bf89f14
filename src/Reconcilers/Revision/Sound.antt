-- ===== src/Reconcilers/Revision/Sound.antt =====
-- What the controller of the package revisions may send:
-- pkg/reconcilers/packagerevision/reconciler.go.
use mathlib.Core.Path.{subst}
use pkgserver.Prelude.{
  ℕ, ◌≡◌, ◌≢◌, ◌≤◌, refl, ap, Bool, true, false, List, [], ◌∷◌, ◌++◌, Option, none, some, Str, ◌==◌,
  str_eq, ==_iff, ltb, length, if-split, if-cases, Result, ok, err, All, arith,
}
use pkgserver.Go.Strings.{codes, contains}
use pkgserver.PkgRevId.Revision.{Semver, IsSemver}
use pkgserver.Condition.{type_ready, condition_true, get_condition}
use pkgserver.PackageRevision.{
  PackageRevision, Lifecycle, draft, proposed, published, deletion_proposed, other, TaskType,
  task_init, task_clone, task_other,
}
use pkgserver.Kube.{Fetched, found, not_found, get_failed, Outcome, done, again}
use pkgserver.Reconcilers.Traced.{Run, pure, ◌>>=◌, IsSafe, pure-IsSafe}
use pkgserver.Reconcilers.Revision.Fresh.{IsFresh, IsSmall, IsOrder, next_for-IsFresh}
use pkgserver.Reconcilers.Revision.{
  Request, acquire_lease, get_repository, open_repository, add_finalizer, remove_finalizer, update,
  update_status, delete_package, ensure_package, list_repository, list_stored, get_contents,
  upsert_package, Server, Finish, is_published, ask, finish, fail_with, on_answer, attempt,
  finalize, after_delete, delete_in, delete, with_repository, complete, give_revision, next_for,
  upstream_text, allocate, publish_in, clone_from, clone, by_task, by_tasks, process, on_lease,
  on_fetched, reconcile, controller_name, find_upstream,
}

module _ (server : Server) (now : ℕ) where
  abbrev pub IsSound : Request → Type 0
  IsSound (update r) =
      (r.id.revision ≢ [])
      × ((before : List Request) × IsFresh r.id (server.in_repository before))
      × ((before : List Request) × IsFresh r.id (server.stored before))
  IsSound (delete_package r) = (r.lifecycle ≢ published) × (length r.finalizers ≤ 1)
  IsSound (remove_finalizer r) = (r.lifecycle ≢ published) × (length r.finalizers ≤ 1)
  IsSound (ensure_package r) = (r.lifecycle ≡ published) × (r.id.revision ≢ [])
  IsSound (upsert_package r _) =
      (r.tasks ≢ []) × ((get_condition r.conditions type_ready).status ≢ condition_true)
  IsSound (acquire_lease _) = Unit
  IsSound (get_repository _) = Unit
  IsSound (open_repository _) = Unit
  IsSound (add_finalizer _) = Unit
  IsSound (update_status _) = Unit
  IsSound list_repository = Unit
  IsSound list_stored = Unit
  IsSound (get_contents _ _) = Unit

  abbrev Safe : Run Request Finish → Type 0
  Safe m = IsSafe IsSound m

  fail_with-Safe :
      (o : Outcome) (e : Str) (cr : PackageRevision) → Safe (fail_with server now o e cr)
  unfolding fail_with finish ask IsSafe
  fail_with-Safe o e cr log h = (tt, h)

  complete-Safe : (cr : PackageRevision) → Safe (complete server now cr)
  unfolding complete finish ask IsSafe
  complete-Safe cr log h = (tt, h)

  on_answer-Safe :
      (o : Outcome) (cr : PackageRevision) (next : Run Request Finish)
      → Safe next
      → (e : Option Str) → Safe (on_answer server now o cr next e)
  unfolding on_answer
  on_answer-Safe o cr next s none = s
  on_answer-Safe o cr next s (some e) = fail_with-Safe o e cr

  ask-Safe :
      (q : Request) (next : Option Str → Run Request Finish)
      → IsSound q
      → ((e : Option Str) → Safe (next e))
      → Safe (ask server now q >>= next)
  unfolding ask IsSafe
  ask-Safe q next a s log h = s (server.fails log q) (q ∷ log) (a, h)

  attempt-Safe :
      (q : Request) (o : Outcome) (cr : PackageRevision) (next : Run Request Finish)
      → IsSound q
      → Safe next
      → Safe (attempt server now q o cr next)
  unfolding attempt
  attempt-Safe q o cr next a s =
      ask-Safe q (on_answer server now o cr next) a (on_answer-Safe o cr next s)

  finalize-Safe :
      (cr : PackageRevision) → IsSound (remove_finalizer cr) → Safe (finalize server now cr)
  unfolding finalize IsSafe
  finalize-Safe cr a log h =
      on_answer-Safe again _ (pure (ok done)) (pure-IsSafe IsSound {A = Finish} (ok done))
        (server.fails log (remove_finalizer cr)) _ (a, h)

  after_delete-Safe :
      (cr : PackageRevision)
      → IsSound (remove_finalizer cr)
      → (e : Option Str) → Safe (after_delete server now cr e)
  unfolding after_delete
  after_delete-Safe cr a none = finalize-Safe cr a
  after_delete-Safe cr a (some e) =
      if-cases Safe (contains e (codes "reference not found")) (finalize-Safe cr a)
        (fail_with-Safe again e cr)

  delete_in-Safe :
      (cr : PackageRevision)
      → IsSound (remove_finalizer cr)
      → (e : Option Str) → Safe (delete_in server now cr e)
  unfolding delete_in
  delete_in-Safe cr a (some _) = finalize-Safe cr a
  delete_in-Safe cr a none =
      attempt-Safe (open_repository cr.id.repository) again cr _ tt
        (ask-Safe (delete_package cr) (after_delete server now cr) a (after_delete-Safe cr a))

  not_published : (l : Lifecycle) → is_published l ≡ false → l ≢ published
  unfolding is_published
  not_published l h e = cc (h, ap is_published e)

  are_published : (l : Lifecycle) → is_published l ≡ true → l ≡ published
  unfolding is_published
  are_published published h = refl
  are_published draft h = cc h
  are_published proposed h = cc h
  are_published deletion_proposed h = cc h
  are_published (other s) h = cc h

  delete-Safe : (cr : PackageRevision) → Safe (delete server now cr)
  unfolding delete
  delete-Safe cr =
      if-split Safe (is_published cr.lifecycle) (λ _. fail_with-Safe done _ cr)
        (λ p.
          if-split Safe (ltb 1 (length cr.finalizers)) (λ _. fail_with-Safe again _ cr)
            (λ few.
              ask-Safe (get_repository cr.id.repository) (delete_in server now cr) tt
                (delete_in-Safe cr (not_published cr.lifecycle p, ground (arith, few)))))

  with_repository-Safe :
      (cr : PackageRevision) (next : Bool → Run Request Finish)
      → ((b : Bool) → Safe (next b))
      → Safe (with_repository server now cr next)
  unfolding with_repository IsSafe
  with_repository-Safe cr next s =
      attempt-Safe (get_repository cr.id.repository) done cr _ tt (λ log.
        attempt-Safe (open_repository cr.id.repository) done cr (next (server.is_deployment log)) tt
          (s (server.is_deployment log)) log)

  give_revision-Safe :
      (cr : PackageRevision) (r : Result Str)
      → ((v : Str) → r ≡ ok v → IsSound (update (record cr { id = record cr.id { revision = v } })))
      → Safe (give_revision server now cr r)
  unfolding give_revision IsSafe
  give_revision-Safe cr (err e) a log h = fail_with-Safe done e cr log h
  give_revision-Safe cr (ok v) a log h =
      on_answer-Safe again _ (pure (ok again)) (pure-IsSafe IsSound {A = Finish} (ok again))
        (server.fails log (update (record cr { id = record cr.id { revision = v } }))) _
        (a v refl, h)

  clone_from-Safe :
      (cr : PackageRevision)
      → IsSound (upsert_package cr [])
      → (r : Result (Option PackageRevision)) → Safe (clone_from server now cr r)
  unfolding clone_from IsSafe
  clone_from-Safe cr a (err e) log h = h
  clone_from-Safe cr a (ok none) log h =
      fail_with-Safe again
        (codes "cannot find upstream packageresources: " ++ upstream_text cr.upstream) cr log h
  clone_from-Safe cr a (ok (some p)) log h =
      attempt-Safe (get_contents p.namespace p.name) again cr _ tt
        (λ before.
          attempt-Safe (upsert_package cr (server.contents before)) again cr _ a (complete-Safe cr)
            before)
        log h

  clone-Safe : (cr : PackageRevision) → IsSound (upsert_package cr []) → Safe (clone server now cr)
  unfolding clone IsSafe
  clone-Safe cr a log h =
      attempt-Safe list_stored again cr _ tt
        (clone_from-Safe cr a (find_upstream cr.upstream (server.stored log))) log h

  by_task-Safe :
      (t : TaskType) (cr : PackageRevision)
      → IsSound (upsert_package cr [])
      → Safe (by_task server now t cr)
  unfolding by_task
  by_task-Safe task_clone cr a = with_repository-Safe cr _ (λ _. clone-Safe cr a)
  by_task-Safe task_init cr a =
      with_repository-Safe cr _
        (λ _. attempt-Safe (upsert_package cr []) again cr _ a (complete-Safe cr))
  by_task-Safe (task_other s) cr a = fail_with-Safe done _ cr

  module _ (sv : Semver) (law : IsSemver sv) (order : List Str → List Str)
      (ordered : IsOrder sv law order)
      (small_in : (log : List Request) → IsSmall sv law order (server.in_repository log))
      (small_stored : (log : List Request) → IsSmall sv law order (server.stored log)) where
    given :
        (cr : PackageRevision) (a b : List Request) (v : Str)
        → next_for sv order cr (server.in_repository a) (server.stored b) ≡ ok v
        → IsSound (update (record cr { id = record cr.id { revision = v } }))
    given cr a b v e =
        let next = next_for-IsFresh sv law order ordered cr _ _ (small_in a) (small_stored b) in
        subst (λ w. IsSound (update (record cr { id = record cr.id { revision = w } })))
          (cc (next.1, e)) ((λ e. cc e), (a, next.2), (b, next.3))

    allocate-Safe : (cr : PackageRevision) → Safe (allocate server now sv order cr)
    unfolding allocate IsSafe
    allocate-Safe cr before h =
        attempt-Safe list_repository done cr _ tt
          (λ log.
            attempt-Safe list_stored done cr _ tt (give_revision-Safe cr _ (given cr before log))
              log)
          before h

    publish_in-Safe :
        (cr : PackageRevision)
        → cr.lifecycle ≡ published
        → (b : Bool) → Safe (publish_in server now sv order cr b)
    unfolding publish_in
    publish_in-Safe cr p b =
        if-split Safe (cr.id.revision == []) (λ _. allocate-Safe cr)
          (λ t.
            if-cases Safe b
              (attempt-Safe (ensure_package cr) again cr _
                (p, (λ e. cc (t, (==_iff cr.id.revision []).1 e))) (complete-Safe cr))
              (complete-Safe cr))

    by_tasks-Safe :
        (ts : List TaskType) (cr : PackageRevision)
        → cr.tasks ≡ ts
        → Safe (by_tasks server now sv order ts cr)
    unfolding by_tasks
    by_tasks-Safe [] cr e =
        if-split Safe (is_published cr.lifecycle)
          (λ p. with_repository-Safe cr _ (publish_in-Safe cr (are_published cr.lifecycle p)))
          (λ _. complete-Safe cr)
    by_tasks-Safe (t ∷ ts) cr e =
        if-split Safe ((get_condition cr.conditions type_ready).status == condition_true)
          (λ _. complete-Safe cr)
          (λ f. by_task-Safe t cr (
            (λ none. cc (e, none)),
            (λ ready. cc (
              f,
              (==_iff (get_condition cr.conditions type_ready).status condition_true).1 ready,
            )),
          ))

    process-Safe : (cr : PackageRevision) → Safe (process server now sv order cr)
    unfolding process IsSafe
    process-Safe cr log h =
        on_answer-Safe again _ _ (by_tasks-Safe _ (server.reply (add_finalizer cr ∷ log)) refl)
          (server.fails log (add_finalizer cr)) _ (tt, h)

    on_lease-Safe :
        (cr : PackageRevision) (e : Option Str) → Safe (on_lease server now sv order cr e)
    unfolding on_lease
    on_lease-Safe cr (some _) = pure-IsSafe IsSound _
    on_lease-Safe cr none = if-cases Safe cr.deleting (delete-Safe cr) (process-Safe cr)

    on_fetched-Safe : (f : Fetched) → Safe (on_fetched server now sv order f)
    unfolding on_fetched ask IsSafe
    on_fetched-Safe not_found log h = h
    on_fetched-Safe (get_failed e) log h = h
    on_fetched-Safe (found cr) log h =
        on_lease-Safe cr (server.fails log (acquire_lease controller_name)) _ (tt, h)

    -- Whatever the API server and the repository answer, where the numbers of the listed revisions are
    -- below the greatest `int`: a reconcile gives a package revision by `Update` only a revision that
    -- no listed package revision of the package has, and not the empty one; it deletes a package, and
    -- removes the finalizer, only where the package revision is not published and has no second
    -- finalizer; it ensures a package only where it is published and has a revision; and it writes a
    -- package only where there is a task and the package revision is not ready.
    pub reconcile-IsSound : All IsSound (reconcile server now sv order []).1
    unfolding reconcile IsSafe
    reconcile-IsSound = on_fetched-Safe server.fetched [] tt
