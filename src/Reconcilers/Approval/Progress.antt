-- ===== src/Reconcilers/Approval/Progress.antt =====
-- The runs of the approval controller one after the other:
-- pkg/reconcilers/packageapproval/reconcilers.go.
use mathlib.Core.Path.{subst}
use pkgserver.Prelude.{
  ℕ, ◌≡◌, ◌≢◌, refl, sym, ◌∙◌, ap, false, [], ◌∷◌, List, Option, none, some, Str, str_eq, ==_false,
  if◌then◌else◌,
}
use pkgserver.Go.Strings.{codes}
use pkgserver.Condition.{
  Condition, gate_approve, condition_true, condition_false, get_condition, set_conditions,
  condition_update,
}
use pkgserver.Condition.Set.{get_condition-set_condition, last_status}
use pkgserver.PackageRevision.Gates.{get_previous_condition-set_conditions}
use pkgserver.PackageRevision.{
  Lifecycle, draft, proposed, published, PackageRevision, has_readiness_gate,
  get_previous_condition, set_conditions_of,
}
use pkgserver.Kube.{
  found, Call, acquire_lease, add_finalizer, remove_finalizer, update, update_status, create_sync,
  update_sync, run_kform, update_resources, apply_variant, Api, Outcome, again, lease_again, Run,
  pure, send, return_status,
}
use pkgserver.Reconcilers.Gate.{is_irrelevant}
use pkgserver.Reconcilers.Gate.Completion.{complete_gate-IsCompleted}
use pkgserver.Reconcilers.Approval.{
  controller_name, promote, finish, by_lifecycle, process, delete, leased, reconcile_found,
  reconcile,
}
use pkgserver.Reconcilers.Approval.Calls.{reconcile_at}

-- `s` differs from `r` only in what the approval does not look at.
pub record Agrees (s r : PackageRevision) : Type 0 where
  pub name : s.name ≡ r.name
  pub gates : s.readiness_gates ≡ r.readiness_gates
  pub deleting : s.deleting ≡ r.deleting
  pub lifecycle : s.lifecycle ≡ r.lifecycle
  pub conditions : s.conditions ≡ r.conditions

-- An API server that holds `r`, lets every call succeed and adds a finalizer to the object that it is
-- asked to.
pub record Serves (api : Api) (r : PackageRevision) : Type 0 where
  pub object : PackageRevision
  pub fetched : api.fetched ≡ found object
  pub same : Agrees object r
  pub accepts : (log : List Call) (c : Call) → api.fails log c ≡ none
  pub finalized : (log : List Call) → Agrees (api.reply log (add_finalizer object)) object

-- What the server holds after the calls: `Update` writes the whole object with its status, since
-- `PrepareForUpdate` of pkg/pkgserver/packagerevision/strategy.go does nothing, and `Status().Update`
-- writes the status alone.
abbrev pub after : PackageRevision → List Call → PackageRevision
after r [] = r
after r (update n ∷ log) = n
after r (update_status n ∷ log) = record (after r log) { conditions = n.conditions }
after r (acquire_lease _ ∷ log) = after r log
after r (add_finalizer _ ∷ log) = after r log
after r (remove_finalizer _ ∷ log) = after r log
after r (create_sync _ ∷ log) = after r log
after r (update_sync _ ∷ log) = after r log
after r (run_kform _ ∷ log) = after r log
after r (update_resources _ ∷ log) = after r log
after r (apply_variant _ ∷ log) = after r log

-- The approval is the next gate: it has the gate, the condition before it is not "False", its own is.
pub record IsWaiting (now : ℕ) (r : PackageRevision) : Type 0 where
  pub relevant : is_irrelevant gate_approve r ≡ false
  pub turn : (get_previous_condition now r gate_approve).status ≢ condition_false
  pub unfinished : (get_condition r.conditions gate_approve).status ≡ condition_false
  pub live : r.deleting ≡ false

abbrev to_proposed : Str
to_proposed = codes "update lifecycle draft -> proposed"

abbrev to_published : Str
to_published = codes "update lifecycle proposed -> published"

module _ (now : ℕ) where
  waiting : {s r : PackageRevision} → Agrees s r → IsWaiting now r → IsWaiting now s
  unfolding is_irrelevant get_previous_condition has_readiness_gate
  waiting {s} {r} a w = record {
    relevant = rw (a.name, a.gates) w.relevant;
    turn = rw (a.gates, a.conditions) w.turn;
    unfinished = rw a.conditions w.unfinished;
    live = a.deleting ∙ w.live;
  }

  -- The object after a promotion: the lifecycle, and the approval's condition with the message.
  abbrev promotion : Str → Condition
  promotion msg = condition_update now gate_approve msg []

  abbrev promoted : Lifecycle → Str → PackageRevision → PackageRevision
  promoted l msg r = set_conditions_of (record r { lifecycle = l }) (promotion msg ∷ [])

  module _ (api : Api) (s : PackageRevision) (w : IsWaiting now s) where
    abbrev held : PackageRevision
    held = api.reply (acquire_lease controller_name ∷ []) (add_finalizer s)

    process_at :
        (e : Option Str)
        → e ≡ none
        → (elim e as (λ x. Run Outcome) [
          | none ↦ by_lifecycle api now held.lifecycle held
          | some m ↦ return_status api again (
              set_conditions_of held
                (condition_update now gate_approve (codes "cannot add finalizer") m ∷ []))
        ])
          ≡ by_lifecycle api now held.lifecycle held
    process_at none h = refl
    process_at (some m) h = cc

    leased_at :
        (e : Option Str)
        → e ≡ none
        → (elim e as (λ x. Run Outcome) [
          | some _ ↦ pure lease_again
          | none ↦ if s.deleting then delete api now s else process api now s
        ])
          ≡ process api now s
    leased_at none h = ap (λ b. if b then delete api now s else process api now s) w.live
    leased_at (some m) h = cc

    runs :
        (accepts : (log : List Call) (c : Call) → api.fails log c ≡ none)
        → reconcile_found api now s []
          ≡ by_lifecycle api now held.lifecycle held
              (add_finalizer s ∷ acquire_lease controller_name ∷ [])
    unfolding reconcile_found leased process send
    runs accepts =
        rw (w.relevant, ==_false _ _ w.turn)
          (ap (λ m. m (acquire_lease controller_name ∷ []))
              (leased_at _ (accepts [] (acquire_lease controller_name)))
            ∙ ap (λ m. m (add_finalizer s ∷ acquire_lease controller_name ∷ []))
                (process_at _ (accepts _ (add_finalizer s))))

  Agrees-twice : {a b c : PackageRevision} → Agrees a b → Agrees b c → Agrees a c
  Agrees-twice h k = record {
    name = h.name ∙ k.name;
    gates = h.gates ∙ k.gates;
    deleting = h.deleting ∙ k.deleting;
    lifecycle = h.lifecycle ∙ k.lifecycle;
    conditions = h.conditions ∙ k.conditions;
  }

  -- What the server holds after one run.
  abbrev pub next : Api → PackageRevision → PackageRevision
  next api r = after r (reconcile api now []).1

  module _ (api : Api) (r : PackageRevision) (serves : Serves api r) (w : IsWaiting now r) where
    abbrev sent_before : List Call
    sent_before = add_finalizer serves.object ∷ acquire_lease controller_name ∷ []

    abbrev holds : PackageRevision
    holds = held api serves.object (waiting serves.same w)

    holds-Agrees : Agrees holds r
    holds-Agrees = Agrees-twice (serves.finalized _) serves.same

    run_is :
        (l : Lifecycle)
        → r.lifecycle ≡ l
        → reconcile api now [] ≡ by_lifecycle api now l holds sent_before
    run_is l e =
        ap (λ m. m []) (reconcile_at api now serves.object serves.fetched)
        ∙ runs api serves.object (waiting serves.same w) serves.accepts
        ∙ ap (λ k. by_lifecycle api now k holds sent_before) (holds-Agrees.lifecycle ∙ e)

    promote_sends :
        (l : Lifecycle) (msg : Str)
        → Agrees (after r (promote api now l msg holds sent_before).1) (promoted l msg r)
    unfolding promote send return_status set_conditions_of
    promote_sends l msg = sent (api.fails sent_before (update held_then)) (serves.accepts _ _)
      where
        held_then : PackageRevision
        held_then =
            set_conditions_of (record holds { lifecycle = l; tasks = [] }) (promotion msg ∷ [])

        sent :
            (e : Option Str)
            → e ≡ none
            → Agrees
                (after r
                  ((elim e as (λ x. Run Outcome) [
                    | none ↦ pure again
                    | some m ↦ return_status api again (
                        set_conditions_of
                          (api.reply sent_before (update held_then))
                          (condition_update now gate_approve (codes "cannot update cr") m ∷ []))
                  ])
                    (update held_then ∷ sent_before)).1)
                (promoted l msg r)
        sent none h = record {
          name = holds-Agrees.name;
          gates = holds-Agrees.gates;
          deleting = holds-Agrees.deleting;
          lifecycle = refl;
          conditions = ap (λ cs. set_conditions cs (promotion msg ∷ [])) holds-Agrees.conditions;
        }
        sent (some m) h = cc

    draft_run : r.lifecycle ≡ draft → Agrees (next api r) (promoted proposed to_proposed r)
    unfolding by_lifecycle
    draft_run e =
        subst (λ m. Agrees (after r m.1) (promoted proposed to_proposed r)) (sym (run_is draft e))
          (promote_sends proposed to_proposed)

    proposed_run : r.lifecycle ≡ proposed → Agrees (next api r) (promoted published to_published r)
    unfolding by_lifecycle
    proposed_run e =
        subst (λ m. Agrees (after r m.1) (promoted published to_published r))
          (sym (run_is proposed e)) (promote_sends published to_published)

    finish_sends :
        ((after r (finish api now holds sent_before).1).lifecycle ≡ r.lifecycle)
        × ((get_condition
              (after r (finish api now holds sent_before).1).conditions
              gate_approve).status
            ≡ condition_true)
    unfolding finish return_status send
    finish_sends =
        rw (holds-Agrees.conditions, w.unfinished)
          (refl, (complete_gate-IsCompleted now gate_approve holds).ready)

    published_run :
        r.lifecycle ≡ published
        → ((next api r).lifecycle ≡ r.lifecycle)
          × ((get_condition (next api r).conditions gate_approve).status ≡ condition_true)
    unfolding by_lifecycle
    published_run e =
        subst
          (λ m.
            ((after r m.1).lifecycle ≡ r.lifecycle)
            × ((get_condition (after r m.1).conditions gate_approve).status ≡ condition_true))
          (sym (run_is published e)) finish_sends

  promoted-IsWaiting :
      (l : Lifecycle) (msg : Str) (r : PackageRevision)
      → IsWaiting now r
      → IsWaiting now (promoted l msg r)
  unfolding is_irrelevant has_readiness_gate set_conditions_of condition_update
      get_previous_condition
  promoted-IsWaiting l msg r w = record {
    relevant = w.relevant;
    turn = λ e. w.turn (
        ap (λ c. c.status)
          (sym (
            get_previous_condition-set_conditions now (record r { lifecycle = l }) (promotion msg)))
        ∙ e);
    unfinished = last_status r.conditions (promotion msg);
    live = w.live;
  }

  others_kept :
      (r s : PackageRevision) (l : Lifecycle) (msg : Str)
      → Agrees s (promoted l msg r)
      → (t : Str) → t ≢ gate_approve
      → get_condition s.conditions t ≡ get_condition r.conditions t
  unfolding set_conditions_of set_conditions condition_update
  others_kept r s l msg a t other =
      ap (λ cs. get_condition cs t) a.conditions
      ∙ (get_condition-set_condition r.conditions (promotion msg)).1 t other

  -- Three runs take a draft whose next gate is the approval to published, one lifecycle step in each,
  -- and leave the approval's condition with the status "True", where the server lets every call
  -- succeed and stores the objects that it is sent; the two promotions keep the conditions of all other
  -- types.
  pub approval_completes :
      (a1 a2 a3 : Api) (r : PackageRevision)
      → Serves a1 r
      → Serves a2 (next a1 r)
      → Serves a3 (next a2 (next a1 r))
      → IsWaiting now r
      → r.lifecycle ≡ draft
      → ((next a1 r).lifecycle ≡ proposed)
        × ((next a2 (next a1 r)).lifecycle ≡ published)
        × ((next a3 (next a2 (next a1 r))).lifecycle ≡ published)
        × ((get_condition (next a3 (next a2 (next a1 r))).conditions gate_approve).status
            ≡ condition_true)
        × ((t : Str)
            → t ≢ gate_approve
            → get_condition (next a2 (next a1 r)).conditions t ≡ get_condition r.conditions t)
  unfolding set_conditions_of
  approval_completes a1 a2 a3 r v1 v2 v3 w is_draft =
      let first = draft_run a1 r v1 w is_draft in
      let w1 = waiting first (promoted-IsWaiting proposed to_proposed r w) in
      let second = proposed_run a2 (next a1 r) v2 w1 first.lifecycle in
      let w2 = waiting second (promoted-IsWaiting published to_published (next a1 r) w1) in
      let (kept, ready) = published_run a3 (next a2 (next a1 r)) v3 w2 second.lifecycle in
      (
        first.lifecycle,
        second.lifecycle,
        kept ∙ second.lifecycle,
        ready,
        λ t other.
            others_kept (next a1 r) _ published to_published second t other
            ∙ others_kept r _ proposed to_proposed first t other,
      )
