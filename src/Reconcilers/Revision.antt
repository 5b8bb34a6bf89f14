-- ===== src/Reconcilers/Revision.antt =====
-- The controller of the package revisions: pkg/reconcilers/packagerevision/reconciler.go. It keeps the
-- repository in step with a package revision, and gives a published one the next revision. The API
-- server and the cached repository are parameters: they answer each request from those made before.
pub mod Fresh
pub mod Sound
use pkgserver.Prelude.{
  ℕ, Bool, true, false, not, ◌&&◌, [], ◌∷◌, List, ◌++◌, Option, none, some, Str, ◌==◌, str_eq,
  if◌then◌else◌, ltb, length, Result, ok, err,
}
use pkgserver.Go.Strings.{codes, contains, intercalate}
use pkgserver.Go.Sets.{insert}
use pkgserver.PkgRevId.{PackageRevId, Upstream, pkg_target_catalog}
use pkgserver.PkgRevId.Revision.{Semver, next_revision_number}
use pkgserver.Condition.{Condition, type_ready, condition_true, get_condition, ready, failed}
use pkgserver.PackageRevision.{
  PackageRevision, Lifecycle, published, TaskType, task_init, task_clone, task_other,
  set_conditions_of,
}
use pkgserver.Kube.{
  Fetched, found, not_found, get_failed, Outcome, done, again, lease_again, wrap, err_get_cr,
  err_update_status,
}
use pkgserver.Reconcilers.Traced.{Run, pure, ◌>>=◌}

abbrev pub controller_name : Str
controller_name = codes "PackageRevisionController"

-- The contents of a package: paths and texts.
abbrev pub Contents : Type 0
Contents = List (Str × Str)

pub data Request : Type 0 where
  acquire_lease get_repository open_repository : Str → Request
  add_finalizer remove_finalizer update update_status : PackageRevision → Request
  delete_package ensure_package : PackageRevision → Request
  list_repository list_stored : Request
  get_contents : Str → Str → Request
  upsert_package : PackageRevision → Contents → Request

-- `stored` and `in_repository` are what the two listings give where they do not fail, `contents` what
-- is read of a package, and `reply` the object that the client holds after a request.
pub record Server : Type 0 where
  pub fetched : Fetched
  pub fails : List Request → Request → Option Str
  pub reply : List Request → PackageRevision
  pub is_deployment : List Request → Bool
  pub stored : List Request → List PackageRevision
  pub in_repository : List Request → List PackageRevision
  pub contents : List Request → Contents

-- A reconcile returns; `err` is a panic.
abbrev pub Finish : Type 0
Finish = Result Outcome

unfoldable pub is_published : Lifecycle → Bool
is_published published = true
is_published _ = false

-- The two package revisions are of the same package.
unfoldable pub same_package : PackageRevId → PackageRevId → Bool
same_package a b =
    a.repository == b.repository && (a.target == b.target && (a.realm == b.realm && a.pkg == b.pkg))

-- The text of an upstream, if there is one.
pub upstream_text : Option Upstream → Str
upstream_text none = codes "nil"
upstream_text (some u) =
    codes "&Upstream{Repository:"
    ++ (u.repository
        ++ (codes ",Realm:"
            ++ (u.realm
                ++ (codes ",Package:"
                    ++ (u.pkg ++ (codes ",Revision:" ++ (u.revision ++ codes ",}")))))))

-- One turn of the two loops that collect the revisions of the package, and the loops.
unfoldable pub collect_one : PackageRevId → PackageRevId → List Str → List Str
unfolding same_package
collect_one id p revisions =
    if same_package p id && not (p.revision == []) then insert p.revision revisions else revisions

unfoldable pub collect : PackageRevId → List PackageRevision → List Str → List Str
unfolding collect_one
collect id [] revisions = revisions
collect id (p ∷ ps) revisions = collect id ps (collect_one id p.id revisions)

unfoldable pub is_upstream : Upstream → PackageRevision → Bool
is_upstream u p =
    p.id.target == pkg_target_catalog
    && (p.id.repository == u.repository
        && (p.id.realm == u.realm && (p.id.pkg == u.pkg && p.id.revision == u.revision)))

-- The loop of `getResources`. Without an upstream it panics at the first package revision of the
-- catalog.
find_upstream : Option Upstream → List PackageRevision → Result (Option PackageRevision)
unfolding is_upstream
find_upstream u [] = ok none
find_upstream none (p ∷ ps) =
    let rest = find_upstream none ps in
    if p.id.target == pkg_target_catalog then err (codes "nil pointer dereference") else rest
find_upstream (some u) (p ∷ ps) =
    let rest = find_upstream (some u) ps in if is_upstream u p then ok (some p) else rest

-- `order` is the order in which a set gives its members.
unfoldable pub next_for :
    (sv : Semver) (order : List Str → List Str)
    → PackageRevision
    → (in_repository stored : List PackageRevision) → Result Str
unfolding collect
next_for sv order cr in_repository stored =
    next_revision_number sv (order (collect cr.id stored (collect cr.id in_repository [])))

module _ (server : Server) (now : ℕ) where
  unfoldable pub ask : Request → Run Request (Option Str)
  ask q log = (server.fails log q, q ∷ log)

  -- The condition, the status update and the outcome.
  unfoldable pub finish : Outcome → Condition → PackageRevision → Run Request Finish
  unfolding ask
  finish o c cr = ask (update_status (set_conditions_of cr (c ∷ []))) >>= λ e.
      pure (ok (record o { error = wrap err_update_status e }))

  unfoldable pub fail_with : Outcome → Str → PackageRevision → Run Request Finish
  unfolding finish
  fail_with o e cr = finish o (failed now e) cr

  -- What follows a request: the next step, or the failure with its outcome.
  on_answer : Outcome → PackageRevision → Run Request Finish → Option Str → Run Request Finish
  unfolding fail_with
  on_answer o cr next none = next
  on_answer o cr next (some e) = fail_with o e cr

  unfoldable pub attempt :
      Request → Outcome → PackageRevision → Run Request Finish → Run Request Finish
  unfolding ask on_answer
  attempt q o cr next = ask q >>= on_answer o cr next

  -- The finalizer is removed from the object that the client holds.
  finalize : PackageRevision → Run Request Finish
  unfolding ask on_answer
  finalize cr log =
      on_answer again (server.reply (remove_finalizer cr ∷ log)) (pure (ok done))
        (server.fails log (remove_finalizer cr)) (remove_finalizer cr ∷ log)

  after_delete : PackageRevision → Option Str → Run Request Finish
  unfolding finalize fail_with
  after_delete cr none = finalize cr
  after_delete cr (some e) =
      if contains e (codes "reference not found") then finalize cr else fail_with again e cr

  -- A repository that is gone lets the package revision go.
  delete_in : PackageRevision → Option Str → Run Request Finish
  unfolding after_delete attempt
  delete_in cr (some _) = finalize cr
  delete_in cr none =
      attempt (open_repository cr.id.repository) again cr
        (ask (delete_package cr) >>= after_delete cr)

  delete : PackageRevision → Run Request Finish
  unfolding delete_in
  delete cr =
      if is_published cr.lifecycle
      then fail_with done
          (codes
            "cannot delete a resource which lifecycle is published, move to deletionProposed first")
          cr
      else if ltb 1 (length cr.finalizers)
      then fail_with again
          (codes
              "cannot delete the package revision since other reconcilers did not process the delete ["
            ++ (intercalate 32 cr.finalizers ++ codes "]"))
          cr
      else ask (get_repository cr.id.repository) >>= delete_in cr

  -- `getRepo`, and what comes next with whether the repository is a deployment.
  with_repository : PackageRevision → (Bool → Run Request Finish) → Run Request Finish
  unfolding attempt
  with_repository cr next = attempt (get_repository cr.id.repository) done cr (λ log.
      attempt (open_repository cr.id.repository) done cr (next (server.is_deployment log)) log)

  complete : PackageRevision → Run Request Finish
  unfolding finish
  complete cr = finish done (ready now) cr

  -- The revision is known: the object is updated with it, and held by the client.
  give_revision : PackageRevision → Result Str → Run Request Finish
  unfolding fail_with on_answer
  give_revision cr (err e) log = fail_with done e cr log
  give_revision cr (ok revision) log =
      let cr' = record cr { id = record cr.id { revision = revision } } in
      on_answer again (server.reply (update cr' ∷ log)) (pure (ok again))
        (server.fails log (update cr')) (update cr' ∷ log)

  -- `getResources` found the package, or not, or panics.
  clone_from : PackageRevision → Result (Option PackageRevision) → Run Request Finish
  unfolding attempt complete fail_with upstream_text
  clone_from cr (err e) = pure (err e)
  clone_from cr (ok none) =
      fail_with again (codes "cannot find upstream packageresources: " ++ upstream_text cr.upstream)
        cr
  clone_from cr (ok (some p)) =
      attempt (get_contents p.namespace p.name) again cr
        (λ log. attempt (upsert_package cr (server.contents log)) again cr (complete cr) log)

  clone : PackageRevision → Run Request Finish
  unfolding attempt clone_from find_upstream
  clone cr before =
      attempt list_stored again cr
        (clone_from cr (find_upstream cr.upstream (server.stored before))) before

  by_task : TaskType → PackageRevision → Run Request Finish
  unfolding with_repository clone attempt complete fail_with
  by_task task_clone cr = with_repository cr (λ _. clone cr)
  by_task task_init cr =
      with_repository cr (λ _. attempt (upsert_package cr []) again cr (complete cr))
  by_task (task_other s) cr = fail_with done (codes "unsupported taskType: " ++ s) cr

  module _ (sv : Semver) (order : List Str → List Str) where
    allocate : PackageRevision → Run Request Finish
    unfolding attempt give_revision next_for
    allocate cr before =
        attempt list_repository done cr
          (λ log.
            attempt list_stored done cr
              (give_revision cr
                (next_for sv order cr (server.in_repository before) (server.stored log)))
              log)
          before

    publish_in : PackageRevision → Bool → Run Request Finish
    unfolding allocate attempt complete
    publish_in cr deployment =
        if cr.id.revision == []
        then allocate cr
        else if deployment
        then attempt (ensure_package cr) again cr (complete cr)
        else complete cr

    by_tasks : List TaskType → PackageRevision → Run Request Finish
    unfolding publish_in with_repository by_task complete
    by_tasks [] cr =
        if is_published cr.lifecycle then with_repository cr (publish_in cr) else complete cr
    by_tasks (t ∷ _) cr =
        if (get_condition cr.conditions type_ready).status == condition_true
        then complete cr
        else by_task t cr

    process : PackageRevision → Run Request Finish
    unfolding by_tasks fail_with
    process cr log =
        let held = server.reply (add_finalizer cr ∷ log) in
        on_answer again held (by_tasks held.tasks held) (server.fails log (add_finalizer cr))
          (add_finalizer cr ∷ log)

    on_lease : PackageRevision → Option Str → Run Request Finish
    unfolding process delete
    on_lease cr (some _) = pure (ok lease_again)
    on_lease cr none = if cr.deleting then delete cr else process cr

    on_fetched : Fetched → Run Request Finish
    unfolding on_lease ask
    on_fetched not_found = pure (ok done)
    on_fetched (get_failed e) = pure (ok (record done { error = wrap err_get_cr (some e) }))
    on_fetched (found cr) = ask (acquire_lease controller_name) >>= on_lease cr

    unfoldable pub reconcile : Run Request Finish
    unfolding on_fetched
    reconcile = on_fetched server.fetched
